-- ===== src/Draft/Claims.antt =====
-- What one claim and one attempt do to the rows and to the outbox, draft by draft.
use whatsapp_email_assistant.Common.{
  ℕ, ◌≡◌, refl, sym, ap, ◌∙◌, inl, inr, Bool-cases, Bool, true, false, ◌&&◌, Option, none, some,
  List, ◌∷◌, arith, ◌==◌, count, Text,
}
use whatsapp_email_assistant.AppError.{Thrown, known, Result, ok, err, app_error_from, Result-cases}
use whatsapp_email_assistant.Draft.{
  Draft, Status, sending, sent, failed, ClaimedDraft, mark_sent, mark_failed,
}
use whatsapp_email_assistant.Draft.Send.{
  Services, World, Notice, OutboundMessage, OutboundAttachment, sent_to, collect_attachments,
  message_of, catching, send_with, with_sent, reply, on_error, on_sent, deliver,
}

-- How many emails of one draft a provider took.
abbrev pub sends : ℕ → World → ℕ
sends d w = count (λ p. p.0 == d) w.outbox

-- A draft whose email may be out: it was claimed once, and has not come back to the queue.
abbrev spent_status : Status → Bool
spent_status sending = true
spent_status sent = true
spent_status failed = true
spent_status _ = false

abbrev pub is_spent : Option Draft → Bool
is_spent none = false
is_spent (some row) = spent_status row.status

abbrev sending_status : Status → Bool
sending_status sending = true
sending_status _ = false

abbrev pub is_sending_by : ℕ → Option Draft → Bool
is_sending_by user none = false
is_sending_by user (some row) = (row.user_id == user) && sending_status row.status

-- Meta's client does not fail in a way that asks for another attempt.
abbrev pub ConfirmsOnce : Services → Type 0
ConfirmsOnce svc =
    (phone : Text) (notice : Notice) (e : Thrown)
    → svc.send_whatsapp phone notice ≡ err e
    → (app_error_from e).retryable ≡ false

-- No send fails in such a way although the message arrives.
abbrev pub HearsBack : Services → Type 0
HearsBack svc =
    (m : OutboundMessage) (e : Thrown)
    → svc.send m ≡ err e
    → svc.arrives_unheard m ≡ true
    → (app_error_from e).retryable ≡ false

-- Nothing asks for another attempt once a message is out.
abbrev pub SettlesOnce : Services → Type 0
SettlesOnce svc = ConfirmsOnce svc × HearsBack svc

module _ (svc : Services) (w : World) (c : ClaimedDraft) (notice : Notice) where
  pub reply_frame :
      ((reply svc w c notice).0.db ≡ w.db) × ((reply svc w c notice).0.outbox ≡ w.outbox)
  unfolding reply
  reply_frame = ground arith

  pub reply_settled :
      {e : Thrown}
      → ConfirmsOnce svc
      → (reply svc w c notice).1 ≡ err e
      → (app_error_from e).retryable ≡ false
  unfolding reply app_error_from
  reply_settled {e} h r = elim (Result-cases (svc.send_whatsapp c.phone_number notice)) [
    | inl (a, p) ↦ ground arith
    | inr (x, p) ↦ ground (arith, h c.phone_number notice x p)
  ]

module _ (svc : Services) (w : World) (user : ℕ) (c : ClaimedDraft) where
  pub on_error_frame :
      (e : Thrown)
      → let x = app_error_from e in
        let r = on_error svc w user c e in
        (r.0.db ≡ mark_failed w.db user c.id x.public_message x.retryable)
        × (r.0.outbox ≡ w.outbox)
        × (r.1 ≡ err (known x))
  unfolding on_error reply
  on_error_frame e = ground arith

  pub on_sent_frame :
      (m : OutboundMessage) (id : ℕ)
      → let r = on_sent svc w user c m id in
        (r.0.db ≡ mark_sent w.db user c.id id svc.now) × (r.0.outbox ≡ (c.id, m) ∷ w.outbox)
  unfolding on_sent reply
  on_sent_frame m id = ground arith

  on_sent_settled :
      (m : OutboundMessage) (id : ℕ) {e : Thrown}
      → ConfirmsOnce svc
      → (on_sent svc w user c m id).1 ≡ err e
      → (app_error_from e).retryable ≡ false
  unfolding on_sent
  on_sent_settled m id h r = reply_settled svc _ c (sent_to _ _) h r

-- The ways in which an attempt with a claimed draft can end, and what each leaves.
pub data Ends (svc : Services) (w : World) (user : ℕ) (c : ClaimedDraft) (v : World) : Type 0 where
  stranded : (e : Thrown) → svc.load_account c.account_id ≡ err e → v ≡ w → Ends svc w user c v
  unsent :
      (reason : Text) (retryable : Bool)
      → v.db ≡ mark_failed w.db user c.id reason retryable
      → v.outbox ≡ w.outbox
      → Ends svc w user c v
  unheard :
      (m : OutboundMessage) (reason : Text) (retryable : Bool)
      → (HearsBack svc → retryable ≡ false)
      → v.db ≡ mark_failed w.db user c.id reason retryable
      → v.outbox ≡ (c.id, m) ∷ w.outbox
      → Ends svc w user c v
  confirmed :
      (m : OutboundMessage) (id : ℕ)
      → v.db ≡ mark_sent w.db user c.id id svc.now
      → v.outbox ≡ (c.id, m) ∷ w.outbox
      → Ends svc w user c v
  unconfirmed :
      (m : OutboundMessage) (id : ℕ) (reason : Text) (retryable : Bool)
      → (ConfirmsOnce svc → retryable ≡ false)
      → v.db ≡ mark_failed (mark_sent w.db user c.id id svc.now) user c.id reason retryable
      → v.outbox ≡ (c.id, m) ∷ w.outbox
      → Ends svc w user c v

module _ (svc : Services) (w : World) (user : ℕ) (c : ClaimedDraft) where
  data Tried (r : World × Result (Unit {0})) : Type 0 where
    failed_early : (e : Thrown) → r ≡ (w, err e) → Tried r
    arrived :
        (m : OutboundMessage) (e : Thrown)
        → (HearsBack svc → (app_error_from e).retryable ≡ false)
        → r ≡ (with_sent w c m, err e)
        → Tried r
    out : (m : OutboundMessage) (id : ℕ) → r ≡ on_sent svc w user c m id → Tried r

  send_with-Tried :
      (files : Result (List OutboundAttachment)) → Tried (send_with svc w user c files)
  unfolding send_with
  send_with-Tried (err e) = failed_early e refl
  send_with-Tried (ok files) = elim (Result-cases (svc.send (message_of c files))) [
    | inl (id, p) ↦ out (message_of c files) id (rw (p, send_with))
    | inr (e, p) ↦ elim (Bool-cases (svc.arrives_unheard (message_of c files))) [
      | inl a ↦
          arrived (message_of c files) e (λ h. h (message_of c files) e p a)
            (rw (p, a, send_with) refl)
      | inr a ↦ failed_early e (rw (p, a, send_with) refl)
    ]
  ]

  sent-Ends :
      (m : OutboundMessage) (id : ℕ) (r : World × Result (Unit {0}))
      → r ≡ on_sent svc w user c m id
      → Ends svc w user c (catching svc user c r).0
  sent-Ends m id (v, ok u) e =
      let f = on_sent_frame svc w user c m id in
      confirmed m id (ap (λ p. p.0.db) e ∙ f.0) (ap (λ p. p.0.outbox) e ∙ f.1)
  sent-Ends m id (v, err x) e =
      let f = on_sent_frame svc w user c m id in
      let g = on_error_frame svc v user c x in
      unconfirmed m id (app_error_from x).public_message (app_error_from x).retryable
        (λ h. on_sent_settled svc w user c m id h (sym (ap (λ p. p.1) e)))
        (g.0
          ∙ ap
              (λ d.
                mark_failed d user c.id (app_error_from x).public_message
                  (app_error_from x).retryable)
              (ap (λ p. p.0.db) e ∙ f.0))
        (g.1 ∙ ap (λ p. p.0.outbox) e ∙ f.1)

  Tried-Ends :
      {r : World × Result (Unit {0})} → Tried r → Ends svc w user c (catching svc user c r).0
  Tried-Ends (failed_early e p) =
      let g = on_error_frame svc w user c e in
      rw p (unsent (app_error_from e).public_message (app_error_from e).retryable g.0 g.1)
  Tried-Ends (arrived m e h p) =
      let g = on_error_frame svc (with_sent w c m) user c e in
      rw p (unheard m (app_error_from e).public_message (app_error_from e).retryable h g.0 g.1)
  Tried-Ends {r} (out m id p) = sent-Ends m id r p

  pub deliver-Ends : Ends svc w user c (deliver svc w user c).0
  unfolding deliver
  deliver-Ends = elim (Result-cases (svc.load_account c.account_id)) [
    | inl (_, p) ↦
        rw (p, deliver) (Tried-Ends (send_with-Tried (collect_attachments svc w.db user c)))
    | inr (e, p) ↦ stranded e p (rw (p, deliver))
  ]
