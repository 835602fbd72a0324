-- ===== src/Draft/Eventually.antt =====
-- An outage ends: the retries of a job carry a draft through failing attempts until one works.
use whatsapp_email_assistant.Common.{
  ℕ, suc, ◌≡◌, refl, ap, ◌∙◌, true, Option, none, some, List, [], ◌∷◌, ◌++◌, arith, ◌==◌,
  if◌then◌else◌, length, count, All, Text,
}
use whatsapp_email_assistant.AppError.{Result, ok, err, Thrown, known, app_error_from}
use whatsapp_email_assistant.Draft.{
  Draft, Status, queued, sending, sent, failed, ClaimedDraft, Db, claimed, set_status, mark_sent,
}
use whatsapp_email_assistant.Draft.Send.{
  Services, World, Notice, OutboundMessage, OutboundAttachment, JobEnd, completed, discarded,
  deliver, send_with, on_sent, reply, handle, run_job, collect_attachments, message_of, catching,
  sent_to, first_or_them,
}
use whatsapp_email_assistant.Draft.Claims.{sends, on_sent_frame}
use whatsapp_email_assistant.Draft.Errors.{Fails, failed_attempt}
use whatsapp_email_assistant.Draft.Faults.{handle_queued, with_row}

-- An attempt in which the draft can be read and its account loaded, and nothing can be sent for now.
pub record IsOutage (user : ℕ) (body : Text) (account : ℕ) (svc : Services) : Type 0 where
  pub readable : (t : Text) × (svc.decrypt_body body ≡ ok t)
  pub cause : Thrown
  pub retryable : (app_error_from cause).retryable ≡ true
  pub fails : (w : World) (c : ClaimedDraft) → c.account_id ≡ account → Fails svc w user c cause

-- Services that all answer.
pub record IsUp (user : ℕ) (body : Text) (account : ℕ) (svc : Services) : Type 0 where
  pub readable : (t : Text) × (svc.decrypt_body body ≡ ok t)
  pub loads : svc.load_account account ≡ ok tt
  pub collects :
      (db : Db) (c : ClaimedDraft)
      → (files : List OutboundAttachment) × (collect_attachments svc db user c ≡ ok files)
  pub takes : (m : OutboundMessage) → (id : ℕ) × (svc.send m ≡ ok id)
  pub tells : (phone : Text) (notice : Notice) → (id : ℕ) × (svc.send_whatsapp phone notice ≡ ok id)

-- A queued draft of this user, with this body and account.
pub record Waits (w : World) (user id : ℕ) (body : Text) (account : ℕ) : Type 0 where
  pub row : Draft
  pub there : w.db.drafts id ≡ some row
  pub own : row.user_id ≡ user
  pub waiting : row.status ≡ queued
  pub same_body : row.body_cipher ≡ body
  pub same_account : row.account_id ≡ account

abbrev pub status_of : Option Draft → Option Status
status_of none = none
status_of (some row) = some row.status

module _ (user id : ℕ) (body : Text) (account : ℕ) where
  row_there :
      (w : World) (q : Waits w user id body account)
      → (with_row w id (set_status sending q.row)).db.drafts id ≡ some (set_status sending q.row)
  row_there w q = ground arith

  outage-Waits :
      (svc : Services) (w : World)
      → IsOutage user body account svc
      → Waits w user id body account
      → (v : World) × (e : Thrown) × (handle svc w user id ≡ (v, err e))
        × ((app_error_from e).retryable ≡ true)
        × (sends id v ≡ sends id w)
        × Waits v user id body account
  unfolding app_error_from
  outage-Waits svc w outage q =
      let (t, d) = outage.readable in
      let w1 = with_row w id (set_status sending q.row) in
      let c = claimed w.db user id q.row t in
      let x = app_error_from outage.cause in
      let (r, out, now_there, _, _, _, _) =
        failed_attempt svc w1 user c outage.cause (set_status sending q.row)
          (outage.fails w1 c q.same_account) (row_there w q) q.own in
      let v = (deliver svc w1 user c).0 in
      (
        v,
        known x,
        handle_queued svc w user id q.row q.there q.own q.waiting
              (ap svc.decrypt_body q.same_body ∙ d)
            ∙ ap (λ y. (v, y)) r,
        outage.retryable,
        ap (count (λ p. p.0 == id)) out,
        record {
          row = record (q.row) { status = queued; failure_reason = some x.public_message };
          there =
              now_there
              ∙ ap
                  (λ b. some (record (q.row) {
                    status = if b then queued else failed;
                    failure_reason = some x.public_message;
                  }))
                  outage.retryable;
          own = q.own;
          waiting = refl;
          same_body = q.same_body;
          same_account = q.same_account;
        },
      )

  -- Once the provider has taken the email, the row is marked and the chat is told.
  sent_and_told :
      (svc : Services) (w : World) (c : ClaimedDraft) (m : OutboundMessage) (number : ℕ)
      {row : Draft}
      → IsUp user body account svc
      → w.db.drafts id ≡ some row
      → c.id ≡ id
      → row.user_id ≡ user
      → (v : World) × (on_sent svc w user c m number ≡ (v, ok tt))
        × (status_of (v.db.drafts id) ≡ some sent)
        × (sends id v ≡ suc (sends id w))
  unfolding on_sent reply mark_sent
  sent_and_told svc w c m number up there same own =
      let (_, told) =
        up.tells c.phone_number (sent_to (first_or_them c.to) (length m.attachments)) in
      let (marked, out) = on_sent_frame svc w user c m number in
      (
        (on_sent svc w user c m number).0,
        ground (arith, told),
        ap (λ d. status_of (d.drafts id)) marked ∙ ground (arith, there, same, own),
        ap (count (λ p. p.0 == id)) out ∙ ground (arith, same),
      )

  delivers :
      (svc : Services) (w : World) (c : ClaimedDraft) (files : List OutboundAttachment) (number : ℕ)
      (v : World)
      → svc.load_account c.account_id ≡ ok tt
      → collect_attachments svc w.db user c ≡ ok files
      → svc.send (message_of c files) ≡ ok number
      → on_sent svc w user c (message_of c files) number ≡ (v, ok tt)
      → deliver svc w user c ≡ (v, ok tt)
  unfolding deliver send_with
  delivers svc w c files number v l f t e =
      rw (l, deliver)
        (ap (λ r. catching svc user c (send_with svc w user c r)) f
          ∙ ap (catching svc user c) (taken ∙ e))
    where
      taken : send_with svc w user c (ok files) ≡ on_sent svc w user c (message_of c files) number
      taken = rw (t, send_with)

  up-sends :
      (svc : Services) (w : World)
      → IsUp user body account svc
      → Waits w user id body account
      → (v : World) × (handle svc w user id ≡ (v, ok tt))
        × (status_of (v.db.drafts id) ≡ some sent)
        × (sends id v ≡ suc (sends id w))
  up-sends svc w up q =
      let (t, d) = up.readable in
      let w1 = with_row w id (set_status sending q.row) in
      let c = claimed w.db user id q.row t in
      let (files, fetched) = up.collects w1.db c in
      let (number, taken) = up.takes (message_of c files) in
      let (v, e, s, n) =
        sent_and_told svc w1 c (message_of c files) number up (row_there w q) refl q.own in
      (
        v,
        handle_queued svc w user id q.row q.there q.own q.waiting
              (ap svc.decrypt_body q.same_body ∙ d)
            ∙ delivers svc w1 c files number v (ap svc.load_account q.same_account ∙ up.loads)
                fetched taken e,
        s,
        n,
      )

  -- What the queue makes of one attempt.
  abbrev ended : List Services → World × Result (Unit {0}) → World × JobEnd
  ended rest (w, ok _) = (w, completed)
  ended rest (w, err e) =
      let again = run_job rest w user id in
      if (app_error_from e).retryable then again else (w, discarded)

  run_job-ended :
      (svc : Services) (rest : List Services) (w : World) (r : World × Result (Unit {0}))
      → handle svc w user id ≡ r
      → run_job (svc ∷ rest) w user id ≡ ended rest r
  unfolding run_job
  run_job-ended svc rest w r h = ap (ended rest) h

  -- A queued draft is sent in the end. However many attempts fail first, as long as each can read
  -- the draft, loads its account and fails with an error that can be retried, at the files or at a
  -- send whose email does not arrive: once an attempt
  -- meets services that all answer, the job completes, the draft is `sent`, and the provider has
  -- taken one more email of it, since the failed attempts sent none.
  pub run_job-sends :
      (outages : List Services) (up : Services) (rest : List Services) (w : World)
      → All (IsOutage user body account) outages
      → IsUp user body account up
      → Waits w user id body account
      → let (v, end) = run_job (outages ++ up ∷ rest) w user id in
        (end ≡ completed)
        × (status_of (v.db.drafts id) ≡ some sent)
        × (sends id v ≡ suc (sends id w))
  run_job-sends [] up rest w fails works q =
      let (v, e, s, n) = up-sends up w works q in
      rw (run_job-ended up rest w (v, ok tt) e) (refl, s, n)
  run_job-sends (svc ∷ outages) up rest w (fails, others) works q =
      let (v, e, h, again, n, q1) = outage-Waits svc w fails q in
      let (done, s, m) = run_job-sends outages up rest v others works q1 in
      rw (run_job-ended svc (outages ++ up ∷ rest) w (v, err e) h, again) (done, s, m ∙ ap suc n)
