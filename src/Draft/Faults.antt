-- ===== src/Draft/Faults.antt =====
-- Two ways in which an attempt leaves a draft in a state that the next attempt mistakes.
use whatsapp_email_assistant.Common.{ℕ, ◌+◌, ◌≡◌, refl, ◌∙◌, true, some, [], ◌∷◌, arith, Text}
use whatsapp_email_assistant.AppError.{Thrown, ok, err, app_error_from}
use whatsapp_email_assistant.Window.{is_window_open}
use whatsapp_email_assistant.Draft.{
  Draft, sending, queued, Kind, ClaimedDraft, held, claim_for_sending, put, set_status, claimed,
  mark_sent, mark_failed, list_for_draft,
}
use whatsapp_email_assistant.Draft.Send.{
  Services, World, Notice, deliver, claim, handle, reply, on_sent, on_error, collect_attachments,
  message_of, sent_to, first_or_them,
}
use whatsapp_email_assistant.Draft.Claims.{sends}

-- The row of a queued draft of this user.
abbrev pub IsQueued : World → ℕ → ℕ → Type 0
IsQueued w user id =
    (row : Draft) × (w.db.drafts id ≡ some row) × (row.user_id ≡ user) × (row.status ≡ queued)

claim_queued :
    (svc : Services) (w : World) (user id : ℕ) (row : Draft) {t : Text}
    → w.db.drafts id ≡ some row
    → row.user_id ≡ user
    → row.status ≡ queued
    → svc.decrypt_body row.body_cipher ≡ ok t
    → claim svc w user id ≡ (
      record w { db = record (w.db) { drafts = put id (set_status sending row) w.db.drafts } },
      held (claimed w.db user id row t),
    )
unfolding claim claim_for_sending
claim_queued svc w user id row p q s e = ground arith

-- The world once a queued row is claimed.
abbrev pub with_row : World → ℕ → Draft → World
with_row w id row = record w { db = record (w.db) { drafts = put id row w.db.drafts } }

pub handle_queued :
    (svc : Services) (w : World) (user id : ℕ) (row : Draft) {t : Text}
    → w.db.drafts id ≡ some row
    → row.user_id ≡ user
    → row.status ≡ queued
    → svc.decrypt_body row.body_cipher ≡ ok t
    → handle svc w user id
      ≡ deliver svc (with_row w id (set_status sending row)) user (claimed w.db user id row t)
unfolding handle
handle_queued svc w user id row p q s e = rw (claim_queued svc w user id row p q s e, handle)

handle-sending :
    (svc : Services) (w : World) (user id : ℕ) {row : Draft}
    → w.db.drafts id ≡ some row
    → row.status ≡ sending
    → handle svc w user id ≡ (w, ok tt)
unfolding handle claim claim_for_sending
handle-sending svc w user id p s = ground arith

module _ (svc : Services) (w : World) (user id : ℕ) (row : Draft) {t : Text} {e : Thrown} where
  -- If the account of a queued draft cannot be loaded, the attempt fails after the claim and outside
  -- the error handling: nothing is sent, the user is told nothing, the row stays `sending`, and every
  -- later attempt, whatever services it meets, finds nothing to claim and ends as completed.
  pub load_failure_strands :
      (later : Services)
      → w.db.drafts id ≡ some row
      → row.user_id ≡ user
      → row.status ≡ queued
      → svc.decrypt_body row.body_cipher ≡ ok t
      → svc.load_account row.account_id ≡ err e
      → let (v, r) = handle svc w user id in
        (r ≡ err e)
        × (v.outbox ≡ w.outbox)
        × (v.chat ≡ w.chat)
        × (v.db.drafts id ≡ some (set_status sending row))
        × (handle later v user id ≡ (v, ok tt))
  unfolding deliver
  load_failure_strands later p q s d l = rw (failed p q s d l) (
    refl,
    refl,
    refl,
    here,
    handle-sending later (with_row w id (set_status sending row)) user id here refl,
  )
    where
      failed :
          w.db.drafts id ≡ some row
          → row.user_id ≡ user
          → row.status ≡ queued
          → svc.decrypt_body row.body_cipher ≡ ok t
          → svc.load_account row.account_id ≡ err e
          → handle svc w user id ≡ (with_row w id (set_status sending row), err e)
      failed p q s d l = handle_queued svc w user id row p q s d ∙ rw (l, deliver)

      here : (with_row w id (set_status sending row)).db.drafts id ≡ some (set_status sending row)
      here = ground arith

-- What is said of an email without files once it is sent.
abbrev confirmation : ClaimedDraft → Notice
confirmation c = sent_to (first_or_them c.to) 0

-- A queued reply of this user without files, and services that work but for the confirmation, which
-- fails in a way that asks for another attempt.
pub record Unconfirmed (svc : Services) (w : World) (user id : ℕ) (row : Draft) (t : Text)
    (e : Thrown) : Type 0 where
  pub there : w.db.drafts id ≡ some row
  pub own : row.user_id ≡ user
  pub waiting : row.status ≡ queued
  pub plain : row.kind ≡ Kind.reply
  pub no_files : list_for_draft w.db user id ≡ []
  pub readable : svc.decrypt_body row.body_cipher ≡ ok t
  pub loaded : svc.load_account row.account_id ≡ ok tt
  pub provider_id : ℕ
  pub taken : svc.send (message_of (claimed w.db user id row t) []) ≡ ok provider_id
  pub open_window : is_window_open (w.db.last_inbound_at user) svc.now ≡ true
  pub failing :
      svc.send_whatsapp
        (claimed w.db user id row t).phone_number
        (confirmation (claimed w.db user id row t))
      ≡ err e
  pub asks_again : (app_error_from e).retryable ≡ true

module _ {svc : Services} {w : World} {user id : ℕ} {row : Draft} {t : Text} {e : Thrown} where
  -- The row after such an attempt: marked as sent, and then put back into the queue.
  abbrev requeued : Unconfirmed svc w user id row t e → Draft
  requeued u = record row {
    status = queued;
    sent_at = some svc.now;
    sent_provider_message_id = some u.provider_id;
    failure_reason = some (app_error_from e).public_message;
  }

  sent_then_requeued :
      (u : Unconfirmed svc w user id row t e)
      → let v = (handle svc w user id).0 in
        (v.outbox ≡ (id, message_of (claimed w.db user id row t) []) ∷ w.outbox)
        × (v.db.drafts id ≡ some (requeued u))
        × (v.db.staged ≡ w.db.staged)
        × (v.db.phone_number ≡ w.db.phone_number)
        × (v.db.last_inbound_at ≡ w.db.last_inbound_at)
  unfolding deliver collect_attachments on_sent on_error reply mark_sent mark_failed app_error_from
      list_for_draft
  sent_then_requeued u =
      rw (handle_queued svc w user id row u.there u.own u.waiting u.readable) (ground arith)

  still_Unconfirmed :
      (u : Unconfirmed svc w user id row t e)
      → Unconfirmed svc (handle svc w user id).0 user id (requeued u) t e
  unfolding list_for_draft
  still_Unconfirmed u =
      let (out, row_there, files, phones, inbound) = sent_then_requeued u in
      record {
        there = row_there;
        own = u.own;
        waiting = refl;
        plain = u.plain;
        no_files = rw files u.no_files;
        readable = u.readable;
        loaded = u.loaded;
        provider_id = u.provider_id;
        taken = u.taken;
        open_window = rw inbound u.open_window;
        failing = rw phones u.failing;
        asks_again = u.asks_again;
      }

-- When the provider takes a queued reply without files and its confirmation in the chat then fails
-- in a way that asks for another attempt, the attempt puts the draft back into the queue, and the
-- next one with the same services sends the email a second time.
pub Unconfirmed-sends_twice :
    (svc : Services) (w : World) (user id : ℕ) (row : Draft) (t : Text) (e : Thrown)
    → Unconfirmed svc w user id row t e
    → sends id (handle svc (handle svc w user id).0 user id).0 ≡ 2 + sends id w
Unconfirmed-sends_twice svc w user id row t e u =
    let first : (handle svc w user id).0.outbox
        ≡ (id, message_of (claimed w.db user id row t) []) ∷ w.outbox =
      (sent_then_requeued u).0 in
    let second = (sent_then_requeued (still_Unconfirmed u)).0 in ground (arith, first, second)
