-- ===== src/Undo/Laws.antt =====
-- An undo is spent once, in time, and tells the truth about a send.
use whatsapp_email_assistant.Common.{
  ℕ, ◌+◌, ◌<◌, ◌≡◌, refl, ap, ◌∙◌, inl, inr, Bool, true, false, Option, none, some, List, arith,
  ◌==◌, if◌then◌else◌, ==_refl, Bool-cases, Option-cases, Text,
}
use whatsapp_email_assistant.AppError.{Result, ok, err}
use whatsapp_email_assistant.Draft.{Db, Draft, cancel_if_queued, queued_row, set_status, cancelled}
use whatsapp_email_assistant.Undo.{
  MailOperation, inverse_of, LabelChange, UndoableAction, Mailbox, Slot, take_last_action, undo,
  undo_fresh, fresh, said, undo_snooze, undo_labels, undo_operation, undo_in_mailbox, undo_other,
  after_take, nothing_to_undo, window_passed, already_sent, stopped,
}

abbrev pub is_move : MailOperation → Bool
is_move (MailOperation.move _) = true
is_move _ = false

abbrev pub is_permanent : MailOperation → Bool
is_permanent (MailOperation.delete permanent) = permanent
is_permanent _ = false

-- The inverse of an inverse is the operation itself, unless this was a move, which a label may
-- outlive; and no inverse deletes permanently.
pub inverse_of-involutive :
    (operation inverse : MailOperation)
    → inverse_of operation ≡ some inverse
    → (is_permanent inverse ≡ false)
      × (is_move operation ≡ false → inverse_of inverse ≡ some operation)
unfolding inverse_of
inverse_of-involutive MailOperation.archive inverse h = ground arith
inverse_of-involutive MailOperation.unarchive inverse h = ground arith
inverse_of-involutive MailOperation.restore inverse h = ground arith
inverse_of-involutive (MailOperation.delete true) inverse h = ground arith
inverse_of-involutive (MailOperation.delete false) inverse h = ground arith
inverse_of-involutive (MailOperation.mark_read true) inverse h = ground arith
inverse_of-involutive (MailOperation.mark_read false) inverse h = ground arith
inverse_of-involutive (MailOperation.star true) inverse h = ground arith
inverse_of-involutive (MailOperation.star false) inverse h = ground arith
inverse_of-involutive (MailOperation.spam true) inverse h = ground arith
inverse_of-involutive (MailOperation.spam false) inverse h = ground arith
inverse_of-involutive (MailOperation.label _ _) inverse h = ground arith
inverse_of-involutive (MailOperation.move _) inverse h = ground arith

cancel-held :
    (db : Db) (user id : ℕ) (row : Draft)
    → queued_row user (db.drafts id) ≡ some row
    → ((cancel_if_queued db user id).1 ≡ true)
      × ((cancel_if_queued db user id).0.drafts id ≡ some (set_status cancelled row))
unfolding cancel_if_queued
cancel-held db user id row q = rw (q, cancel_if_queued, ==_refl id) (refl, refl)

cancel-missed :
    (db : Db) (user id : ℕ)
    → queued_row user (db.drafts id) ≡ none
    → cancel_if_queued db user id ≡ (db, false)
unfolding cancel_if_queued
cancel-missed db user id q = rw (q, cancel_if_queued) refl

module _ {M : Type 0} where
  take_last_action-empty :
      (s : Slot M) (user : ℕ) → (take_last_action s user).0.last_action user ≡ none
  unfolding take_last_action
  take_last_action-empty s user = elim (Option-cases (s.last_action user)) [
    | inl e ↦ rw (e, take_last_action) e
    | inr (a, e) ↦ rw (e, take_last_action, ==_refl user) refl
  ]

  said-last_action :
      (s : Slot M) (message : Text) (r : M × Result (Unit {0}))
      → (said s message r).0.last_action ≡ s.last_action
  said-last_action s message (mail, ok _) = refl
  said-last_action s message (mail, err _) = refl

  undo_snooze-last_action :
      (box : Mailbox M) (s : Slot M) (user message : ℕ) (r : M × Result (Unit {0}))
      → (undo_snooze box s user message r).0.last_action ≡ s.last_action
  undo_snooze-last_action box s user message (mail, err _) = refl
  undo_snooze-last_action box s user message (mail, ok _) = said-last_action s _ _

  undo_labels-last_action :
      (s : Slot M) (r : M × Result (List Text × List Text))
      → (undo_labels s r).0.last_action ≡ s.last_action
  undo_labels-last_action s (mail, ok _) = refl
  undo_labels-last_action s (mail, err _) = refl

  undo_operation-last_action :
      (box : Mailbox M) (s : Slot M) (user : ℕ) (action : UndoableAction)
      (operation : Option MailOperation)
      → (undo_operation box s user action operation).0.last_action ≡ s.last_action
  undo_operation-last_action box s user action none = refl
  undo_operation-last_action box s user action (some operation) = said-last_action s _ _

  undo_in_mailbox-last_action :
      (box : Mailbox M) (s : Slot M) (user : ℕ) (action : UndoableAction)
      (labels : Option LabelChange)
      → (undo_in_mailbox box s user action labels).0.last_action ≡ s.last_action
  undo_in_mailbox-last_action box s user action none =
      undo_operation-last_action box s user action action.operation
  undo_in_mailbox-last_action box s user action (some labels) = undo_labels-last_action s _

  undo_other-last_action :
      (box : Mailbox M) (s : Slot M) (user : ℕ) (action : UndoableAction)
      → (undo_other box s user action).0.last_action ≡ s.last_action
  undo_other-last_action box s user action = elim (Bool-cases action.snooze) [
    | inl e ↦ rw e (undo_snooze-last_action box s user action.email_message_id _)
    | inr e ↦ rw e (undo_in_mailbox-last_action box s user action action.labels)
  ]

  undo_fresh-last_action :
      (box : Mailbox M) (s : Slot M) (user : ℕ) (action : UndoableAction) (draft_id : Option ℕ)
      → (undo_fresh box s user action draft_id).0.last_action ≡ s.last_action
  unfolding undo_fresh
  undo_fresh-last_action box s user action none = undo_other-last_action box s user action
  undo_fresh-last_action box s user action (some id) = refl

  after_take-last_action :
      (box : Mailbox M) (user now : ℕ) (t : Slot M × Option UndoableAction)
      → (after_take box user now t).0.last_action ≡ t.0.last_action
  after_take-last_action box user now (s, none) = refl
  after_take-last_action box user now (s, some action) = elim (Bool-cases (fresh action.at now)) [
    | inl e ↦ rw e (undo_fresh-last_action box s user action action.draft_id)
    | inr e ↦ rw e refl
  ]

  take-none :
      (s : Slot M) (user : ℕ) → s.last_action user ≡ none → take_last_action s user ≡ (s, none)
  unfolding take_last_action
  take-none s user h = rw (h, take_last_action) refl

  abbrev spent : Slot M → ℕ → Slot M
  spent s user = record s { last_action = λ u. if user == u then none else s.last_action u }

  take-some :
      (s : Slot M) (user : ℕ) (action : UndoableAction)
      → s.last_action user ≡ some action
      → take_last_action s user ≡ (spent s user, some action)
  unfolding take_last_action
  take-some s user action h = rw (h, take_last_action) refl

  undo-empty :
      (box : Mailbox M) (s : Slot M) (user now : ℕ)
      → s.last_action user ≡ none
      → undo box s user now ≡ (s, err nothing_to_undo)
  unfolding undo
  undo-empty box s user now h = ap (after_take box user now) (take-none s user h)

  undo-last_action :
      (box : Mailbox M) (s : Slot M) (user now : ℕ)
      → (undo box s user now).0.last_action user ≡ none
  unfolding undo
  undo-last_action box s user now =
      ap (λ f. f user) (after_take-last_action box user now (take_last_action s user))
      ∙ take_last_action-empty s user

  -- Nothing is left to undo after an undo, whatever came of it: until another action is recorded,
  -- the next undo of this user says so and changes nothing.
  pub undo-once :
      (box : Mailbox M) (s : Slot M) (user now later : ℕ)
      → let s' = (undo box s user now).0 in undo box s' user later ≡ (s', err nothing_to_undo)
  undo-once box s user now later =
      undo-empty box (undo box s user now).0 user later (undo-last_action box s user now)

  -- An action of more than ten minutes ago is refused as such: no service is called, and the row of
  -- no draft changes.
  pub undo-too_late :
      (box : Mailbox M) (s : Slot M) (user now at : ℕ) (action : UndoableAction)
      → s.last_action user ≡ some action
      → action.at ≡ some at
      → at + 600000 < now
      → let (s', r) = undo box s user now in
        (r ≡ err window_passed) × (s'.mail ≡ s.mail) × (s'.db ≡ s.db)
  unfolding undo
  undo-too_late box s user now at action h k late =
      let old : fresh (some at) now ≡ false = ground arith in
      rw (take-some s user action h, k, old) (refl, refl, refl)

  -- Undoing a send, in time: the answer is that the email was stopped exactly if its draft was
  -- still in the queue, and its row is then `cancelled`. Otherwise the answer is that it has gone,
  -- and no draft changes. No other service is called.
  pub undo-send :
      (box : Mailbox M) (s : Slot M) (user now id : ℕ) (action : UndoableAction)
      → s.last_action user ≡ some action
      → fresh action.at now ≡ true
      → action.draft_id ≡ some id
      → let (s', r) = undo box s user now in
        (s'.mail ≡ s.mail)
        × ((row : Draft)
            → queued_row user (s.db.drafts id) ≡ some row
            → (r ≡ ok stopped) × (s'.db.drafts id ≡ some (set_status cancelled row)))
        × (queued_row user (s.db.drafts id) ≡ none → (r ≡ err already_sent) × (s'.db ≡ s.db))
  unfolding undo undo_fresh
  undo-send box s user now id action h k d =
      rw (take-some s user action h, k, d)
        (
          refl,
          λ row q. let (held, e) = cancel-held s.db user id row q in rw held (refl, e),
          λ q. rw (cancel-missed s.db user id q) (refl, refl),
        )
