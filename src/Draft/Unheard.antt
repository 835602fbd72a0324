-- ===== src/Draft/Unheard.antt =====
-- What happens when a provider takes an email and the response to the request is lost.
use whatsapp_email_assistant.Common.{
  ℕ, zero, suc, ◌+◌, ◌≡◌, refl, ap, ◌∙◌, true, some, List, [], ◌∷◌, arith, if◌then◌else◌, Text,
}
use whatsapp_email_assistant.AppError.{Thrown, known, Result, ok, err, app_error_from}
use whatsapp_email_assistant.Draft.{Draft, queued, Kind, claimed, mark_failed, list_for_draft}
use whatsapp_email_assistant.Draft.Send.{
  Services, World, JobEnd, completed, discarded, exhausted, deliver, handle, on_error,
  collect_attachments, message_of, send_with, run_job,
}
use whatsapp_email_assistant.Draft.Claims.{sends}
use whatsapp_email_assistant.Draft.Faults.{handle_queued}

-- A queued reply of this user without files, and a provider that takes it and whose client fails in
-- a way that asks for another attempt.
pub record Unheard (svc : Services) (w : World) (user id : ℕ) (row : Draft) (t : Text) (e : Thrown)
    : Type 0 where
  pub there : w.db.drafts id ≡ some row
  pub own : row.user_id ≡ user
  pub waiting : row.status ≡ queued
  pub plain : row.kind ≡ Kind.reply
  pub no_files : list_for_draft w.db user id ≡ []
  pub readable : svc.decrypt_body row.body_cipher ≡ ok t
  pub loaded : svc.load_account row.account_id ≡ ok tt
  pub not_heard : svc.send (message_of (claimed w.db user id row t) []) ≡ err e
  pub arrives : svc.arrives_unheard (message_of (claimed w.db user id row t) []) ≡ true
  pub asks_again : (app_error_from e).retryable ≡ true

abbrev pub repeated : ℕ → Services → List Services
repeated zero svc = []
repeated (suc n) svc = svc ∷ repeated n svc

module _ (svc : Services) (user id : ℕ) (t : Text) (e : Thrown) where
  -- The row after such an attempt: back in the queue, as if nothing were out.
  abbrev requeued : Draft → Draft
  requeued row = record row {
    status = queued;
    failure_reason = some (app_error_from e).public_message;
  }

  sent_and_requeued :
      (w : World) (row : Draft)
      → Unheard svc w user id row t e
      → let (v, r) = handle svc w user id in
        (r ≡ err (known (app_error_from e)))
        × (v.outbox ≡ (id, message_of (claimed w.db user id row t) []) ∷ w.outbox)
        × (v.db.drafts id ≡ some (requeued row))
        × (v.db.staged ≡ w.db.staged)
        × (v.db.phone_number ≡ w.db.phone_number)
        × (v.db.last_inbound_at ≡ w.db.last_inbound_at)
  unfolding deliver collect_attachments send_with on_error mark_failed app_error_from list_for_draft
  sent_and_requeued w row u =
      rw (handle_queued svc w user id row u.there u.own u.waiting u.readable) (ground arith)

  still_Unheard :
      (w : World) (row : Draft)
      → Unheard svc w user id row t e
      → Unheard svc (handle svc w user id).0 user id (requeued row) t e
  unfolding list_for_draft
  still_Unheard w row u =
      let (_, _, row_there, files, _, _) = sent_and_requeued w row u in
      record {
        there = row_there;
        own = u.own;
        waiting = refl;
        plain = u.plain;
        no_files = rw files u.no_files;
        readable = u.readable;
        loaded = u.loaded;
        not_heard = u.not_heard;
        arrives = u.arrives;
        asks_again = u.asks_again;
      }

  -- What the queue makes of one attempt.
  abbrev ended : List Services → World × Result (Unit {0}) → World × JobEnd
  ended rest (w, ok _) = (w, completed)
  ended rest (w, err x) =
      let again = run_job rest w user id in
      if (app_error_from x).retryable then again else (w, discarded)

  run_job-again :
      (rest : List Services) (w v : World)
      → handle svc w user id ≡ (v, err (known (app_error_from e)))
      → (app_error_from e).retryable ≡ true
      → run_job (svc ∷ rest) w user id ≡ run_job rest v user id
  unfolding run_job app_error_from
  run_job-again rest w v h k =
      ap (ended rest) h ∙ ap (λ b. if b then run_job rest v user id else (v, discarded)) k

  -- When a provider takes a queued reply without files while the client fails, in a way that asks
  -- for another attempt, as it does when the response is lost, the draft goes back to the queue. Of
  -- a job whose attempts all meet this, every attempt sends the email once more, and the job ends
  -- with its attempts used up.
  pub run_job-sends_each_time :
      (n : ℕ) (w : World) (row : Draft)
      → Unheard svc w user id row t e
      → let (v, end) = run_job (repeated n svc) w user id in
        (end ≡ exhausted) × (sends id v ≡ n + sends id w)
  unfolding run_job
  run_job-sends_each_time zero w row u = (refl, ground arith)
  run_job-sends_each_time (suc n) w row u =
      let (r, out, _, _, _, _) = sent_and_requeued w row u in
      let v = (handle svc w user id).0 in
      let (end, count_) = run_job-sends_each_time n v (requeued row) (still_Unheard w row u) in
      let one_more : sends id v ≡ suc (sends id w) = ground (arith, out) in
      rw (run_job-again (repeated n svc) w v (ap (λ x. (v, x)) r) u.asks_again)
        (end, count_ ∙ ground (arith, one_more))
