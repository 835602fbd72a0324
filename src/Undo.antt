-- ===== src/Undo.antt =====
-- apps/worker/src/services/undo.service.ts: taking back the last action, and the slot of the
-- conversation that holds it. The mailbox, the labels and the snoozes are an interface, `Mailbox`.
pub mod Taps
pub mod Laws
mod Tests
use whatsapp_email_assistant.Common.{
  ℕ, zero, suc, ◌+◌, ◌-◌, ◌*◌, ◌/◌, ◌%◌, ◌≤◌, ◌<◌, ◌≡◌, refl, sym, ap, ap₂, ◌∙◌, ◌≡⟨◌⟩◌, ◌∎, ◌≢◌,
  ◌↔◌, ◌⊎◌, inl, inr, Bool, true, false, not, ◌&&◌, ◌||◌, Option, none, some, List, [], ◌∷◌, ◌++◌,
  map, reverse, append_assoc, append-nil, arith, String, ltb, leb, ◌==◌, if◌then◌else◌, ==_iff,
  ==_refl, leb→le, ltb→lt, and→both, Bool-cases, Option-cases, length, take, drop, get_elem?, all,
  any, filter, find, count, length-append, count-append, all-append, length-filter, All, All-append,
  Text, codes, text_eq, text_eq_iff, text_eq_refl, mem_text, is_digit, is_upper, is_lower, is_alnum,
  is_space, trim, to_lower, starts_with, ends_with, ℕ_discrete, join, split, lacks, split-join,
  join-split, split-nonempty,
}
use whatsapp_email_assistant.AppError.{
  Result, ok, err, Thrown, known, app_error, ErrorCode, not_found, conflict, bad_request,
}
use whatsapp_email_assistant.Draft.{Db, cancel_if_queued}

pub data MailOperation : Type 0 where
  archive unarchive restore : MailOperation
  delete : Bool → MailOperation
  mark_read : Bool → MailOperation
  star : Bool → MailOperation
  label : Option (List Text) → Option (List Text) → MailOperation
  move : Text → MailOperation
  spam : Bool → MailOperation

unfoldable pub inverse_of : MailOperation → Option MailOperation
inverse_of archive = some unarchive
inverse_of unarchive = some archive
inverse_of (delete true) = none
inverse_of (delete false) = some restore
inverse_of restore = some (delete false)
inverse_of (mark_read read) = some (mark_read (not read))
inverse_of (star starred) = some (star (not starred))
inverse_of (spam is_spam) = some (spam (not is_spam))
inverse_of (label _ _) = none
inverse_of (move _) = some unarchive

pub record LabelChange : Type 0 where
  pub add : List Text
  pub remove : List Text

-- `at` is what `Date.parse` reads, if it reads a time.
pub record UndoableAction : Type 0 where
  pub email_message_id : ℕ
  pub verb : Text
  pub operation : Option MailOperation
  pub labels : Option LabelChange
  pub snooze : Bool
  pub draft_id : Option ℕ
  pub at : Option ℕ

-- The services behind an undo, over a state of their own. The lists are the labels that were
-- added and removed.
pub record Mailbox (M : Type 0) : Type 0 where
  pub apply : M → ℕ → ℕ → MailOperation → M × Result (Unit {0})
  pub cancel_snooze : M → ℕ → ℕ → M × Result (Unit {0})
  pub apply_labels : M → ℕ → ℕ → LabelChange → M × Result (List Text × List Text)

pub record Slot (M : Type 0) : Type 0 where
  pub db : Db
  pub last_action : ℕ → Option UndoableAction
  pub mail : M

abbrev pub undo_window_ms : ℕ
undo_window_ms = 10 * 60000

abbrev pub fresh : Option ℕ → ℕ → Bool
fresh none now = false
fresh (some at) now = leb (now - at) undo_window_ms

abbrev pub failure : ErrorCode → Text → Thrown
failure code message = known (app_error code (some message) (some false))

abbrev pub nothing_to_undo : Thrown
nothing_to_undo = failure not_found (codes "There's nothing to undo right now.")

abbrev pub window_passed : Thrown
window_passed = failure conflict (
    codes
      "That was a while ago, so I've stopped holding on to it. Tell me what to change and I’ll do it directly.")

abbrev pub already_sent : Thrown
already_sent = failure conflict (
    codes
      "That one has already gone — I can't unsend it. Send a follow-up and I’ll thread it onto the same conversation.")

abbrev pub stopped : Text
stopped = codes "Stopped it — that email hasn't gone anywhere."

unfoldable pub describe_undo : Text → Text
describe_undo verb =
    if text_eq verb (codes "archive")
    then codes "Back in your inbox — that's undone."
    else if text_eq verb (codes "delete")
    then codes "Out of the trash and back in your inbox — that's undone."
    else if text_eq verb (codes "spam")
    then codes "Out of spam and back in your inbox."
    else if text_eq verb (codes "move")
    then codes "Back in your inbox. If it kept the folder's label, say _remove the … label_."
    else if text_eq verb (codes "not_spam")
    then codes "Back in spam."
    else if text_eq verb (codes "mark_read")
    then codes "Marked unread again — that's undone."
    else if text_eq verb (codes "mark_unread")
    then codes "Marked read again — that's undone."
    else if text_eq verb (codes "star")
    then codes "Unstarred."
    else if text_eq verb (codes "unstar")
    then codes "Starred again."
    else codes "That's undone."

-- `*${names.join('*, *')}*`.
abbrev starred_names : List Text → Text
starred_names [] = []
starred_names (n ∷ []) = n
starred_names (n ∷ m ∷ ns) = n ++ codes "*, *" ++ starred_names (m ∷ ns)

unfoldable pub describe_labels : List Text × List Text → Text
describe_labels (added, []) = codes "Put *" ++ starred_names added ++ codes "* back on."
describe_labels (added, r ∷ rs) = codes "Took *" ++ starred_names (r ∷ rs) ++ codes "* back off."

module _ {M : Type 0} where
  -- `record`. The write may fail, which is swallowed.
  unfoldable pub record_action : Slot M → ℕ → UndoableAction → ℕ → Bool → Slot M
  record_action s user action now written =
      if written
      then record s {
        last_action =
            λ u. if user == u then some (record action { at = some now }) else s.last_action u;
      }
      else s

  unfoldable pub take_last_action : Slot M → ℕ → Slot M × Option UndoableAction
  take_last_action s user = elim (s.last_action user) [
    | none ↦ (s, none)
    | some action ↦
        (record s { last_action = λ u. if user == u then none else s.last_action u }, some action)
  ]

  abbrev pub said : Slot M → Text → M × Result (Unit {0}) → Slot M × Result Text
  said s message (mail, ok _) = (record s { mail = mail }, ok message)
  said s message (mail, err e) = (record s { mail = mail }, err e)

  abbrev pub undo_send : Slot M → ℕ → ℕ → Slot M × Result Text
  undo_send s user id =
      let (db, held) = cancel_if_queued s.db user id in
      (record s { db = db }, if held then ok stopped else err already_sent)

  abbrev pub undo_snooze : Mailbox M → Slot M → ℕ → ℕ → M × Result (Unit {0}) → Slot M × Result Text
  undo_snooze box s user message (mail, err e) = (record s { mail = mail }, err e)
  undo_snooze box s user message (mail, ok _) =
      said s (codes "Back in your inbox, and I've forgotten the snooze.")
        (box.apply mail user message unarchive)

  abbrev pub undo_labels : Slot M → M × Result (List Text × List Text) → Slot M × Result Text
  undo_labels s (mail, ok changed) = (record s { mail = mail }, ok (describe_labels changed))
  undo_labels s (mail, err e) = (record s { mail = mail }, err e)

  abbrev pub undo_operation :
      Mailbox M → Slot M → ℕ → UndoableAction → Option MailOperation → Slot M × Result Text
  undo_operation box s user action none =
      (s, err (failure bad_request (codes "I can't undo that one.")))
  undo_operation box s user action (some operation) =
      said s (describe_undo action.verb) (box.apply s.mail user action.email_message_id operation)

  abbrev pub undo_in_mailbox :
      Mailbox M → Slot M → ℕ → UndoableAction → Option LabelChange → Slot M × Result Text
  undo_in_mailbox box s user action (some labels) =
      undo_labels s (box.apply_labels s.mail user action.email_message_id labels)
  undo_in_mailbox box s user action none = undo_operation box s user action action.operation

  abbrev pub undo_other : Mailbox M → Slot M → ℕ → UndoableAction → Slot M × Result Text
  undo_other box s user action =
      if action.snooze
      then undo_snooze box s user action.email_message_id
          (box.cancel_snooze s.mail user action.email_message_id)
      else undo_in_mailbox box s user action action.labels

  unfoldable pub undo_fresh :
      Mailbox M → Slot M → ℕ → UndoableAction → Option ℕ → Slot M × Result Text
  undo_fresh box s user action (some id) = undo_send s user id
  undo_fresh box s user action none = undo_other box s user action

  abbrev pub after_take : Mailbox M → ℕ → ℕ → Slot M × Option UndoableAction → Slot M × Result Text
  after_take box user now (s, none) = (s, err nothing_to_undo)
  after_take box user now (s, some action) =
      if not (fresh action.at now)
      then (s, err window_passed)
      else undo_fresh box s user action action.draft_id

  -- `undo`. An action in the future is as fresh as one that was just taken.
  unfoldable pub undo : Mailbox M → Slot M → ℕ → ℕ → Slot M × Result Text
  unfolding take_last_action
  undo box s user now = after_take box user now (take_last_action s user)
