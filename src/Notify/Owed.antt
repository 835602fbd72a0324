-- ===== src/Notify/Owed.antt =====
-- What becomes of a message that a user is to hear about: shown, owed, or lost.
use whatsapp_email_assistant.Common.{
  ℕ, ◌≡◌, refl, sym, ap, ◌∙◌, inl, inr, true, false, not, ◌&&◌, ◌||◌, Option, none, some, List, [],
  ◌∷◌, map, arith, if◌then◌else◌, Bool-cases, Option-cases, all, find, Text,
}
use whatsapp_email_assistant.AppError.{Thrown, Result, ok, err}
use whatsapp_email_assistant.Window.{
  SuppressReason, DeliveryAction, send_now, send_template, defer, suppress, evaluate_window,
  is_window_open, decide_delivery, Intl,
}
use whatsapp_email_assistant.Notify.{
  EmailMessage, Tables, User, DeliveryContext, find_for_notification, mark_deferred,
  find_delivery_context, is_message, is_set, deferred,
}
use whatsapp_email_assistant.Notify.Handle.{
  card, new_email_template, Sent, World, Circumstances, reply, write, and_then, last_inbound,
  reachable, carry_out, notify_one, deliver, candidate_of, preferences_of,
}

-- The message is waiting for a digest.
abbrev pub IsWaiting : Tables → ℕ → ℕ → Type 0
IsWaiting t user id =
    all (λ m. not (is_message user id m) || is_set m.notify_deferred_at) t.messages ≡ true

mark_deferred-waits :
    (t : Tables) (user id now : ℕ) → IsWaiting (mark_deferred t user id now) user id
unfolding mark_deferred
mark_deferred-waits t user id now = waits t.messages
  where
    waits :
        (ms : List EmailMessage)
        → all
            (λ m. not (is_message user id m) || is_set m.notify_deferred_at)
            (map
              (λ m.
                if is_message user id m && not (is_set m.notify_deferred_at)
                then deferred now m
                else m)
              ms)
          ≡ true
    waits [] = refl
    waits (m ∷ ms) = elim (Bool-cases (is_message user id m && not (is_set m.notify_deferred_at))) [
      | inl e ↦ rw e (ground (arith, waits ms))
      | inr e ↦ rw e (ground (arith, waits ms))
    ]

-- What a job that reports success has done about its message.
pub data Accounted (intl : Intl) (c : Circumstances) (w v : World) (user id : ℕ) : Type 0 where
  gone : find_for_notification w.tables user id ≡ none → Accounted intl c w v user id
  unreachable :
      reachable (find_delivery_context w.tables user) ≡ none → Accounted intl c w v user id
  unwanted :
      (m : EmailMessage) (u : User) (phone : Text) (reason : SuppressReason)
      → find_for_notification w.tables user id ≡ some m
      → reachable (find_delivery_context w.tables user) ≡ some (u, phone)
      → decide_delivery intl
          (candidate_of m)
          (preferences_of (find_delivery_context w.tables user) u)
          (evaluate_window (last_inbound (find_delivery_context w.tables user)) c.now)
          c.now
        ≡ suppress reason
      → Accounted intl c w v user id
  owed : IsWaiting v.tables user id → Accounted intl c w v user id
  seen :
      (m : EmailMessage) (s : Sent)
      → find_for_notification w.tables user id ≡ some m
      → v.outbox ≡ s ∷ w.outbox
      → s.payload ≡ card m
      → Accounted intl c w v user id

find-is_message :
    (user id : ℕ) (ms : List EmailMessage) (m : EmailMessage)
    → find (is_message user id) ms ≡ some m
    → m.id ≡ id
find-is_message user id [] m h = ground arith
find-is_message user id (n ∷ ms) m h = elim (Bool-cases (is_message user id n)) [
  | inl e ↦ ground arith
  | inr e ↦ find-is_message user id ms m (ground arith)
]

-- A last write that went through.
write-ok :
    (failure : Option Thrown) (w v : World) (t : Tables)
    → write failure w t ≡ (v, ok tt)
    → v ≡ record w { tables = t }
write-ok none w v t h = ap (λ r. r.0) (sym h)
write-ok (some e) w v t h = ground arith

and_then-ok :
    (r : World × Result (Unit {0})) (f : World → World × Result (Unit {0})) (v : World)
    → and_then r f ≡ (v, ok tt)
    → (r ≡ (r.0, ok tt)) × (f r.0 ≡ (v, ok tt))
and_then-ok (x, ok tt) f v h = (refl, h)
and_then-ok (x, err e) f v h = ground arith

deliver-ok :
    (c : Circumstances) (w x : World) (s : Sent)
    → deliver c w s ≡ (x, ok tt)
    → x.outbox ≡ s ∷ w.outbox
deliver-ok c w x s h = elim (Option-cases c.meta) [
  | inr (e, q) ↦ ground arith
  | inl q ↦ elim (Option-cases c.recorded) [
    | inr (e, r) ↦ ground arith
    | inl r ↦ ap (λ p. p.0.outbox) (sym (rw (q, r) at h))
  ]
]

module _ (intl : Intl) (c : Circumstances) (w v : World) (user : ℕ) (u : User) (phone : Text)
    (m : EmailMessage) where
  open_when_sent :
      (d : DeliveryContext)
      → decide_delivery intl
          (candidate_of m)
          (preferences_of d u)
          (evaluate_window (last_inbound d) c.now)
          c.now
        ≡ send_now
      → is_window_open (last_inbound d) c.now ≡ true
  unfolding is_window_open decide_delivery
  open_when_sent d h = ground arith

  card_sent :
      (d : DeliveryContext)
      → is_window_open (last_inbound d) c.reply_at ≡ true
      → carry_out c w user m d (u, phone) send_now ≡ (v, ok tt)
      → (s : Sent) × (v.outbox ≡ s ∷ w.outbox) × (s.payload ≡ card m)
  unfolding reply
  card_sent d o h =
      let s : Sent = record { for_user = user; phone = phone; payload = card m; at = c.reply_at } in
      let (r, f) = and_then-ok (reply c w user phone (card m) (last_inbound d) false) _ v h in
      let kept = write-ok c.written _ v _ f in
      let replied : reply c w user phone (card m) (last_inbound d) false ≡ deliver c w s =
        rw (o, reply) refl in
      (s, ap (λ x. x.outbox) kept ∙ deliver-ok c w _ s (sym replied ∙ r), refl)

  owed_after :
      (d : DeliveryContext)
      → carry_out c w user m d (u, phone) send_template ≡ (v, ok tt)
      → IsWaiting v.tables user m.id
  unfolding reply
  owed_after d h =
      let (r, f) =
        and_then-ok (reply c w user phone (new_email_template m u.locale) (last_inbound d) true) _ v
          h in
      let kept = write-ok c.written _ v _ f in rw kept (mark_deferred-waits _ user m.id c.now)

  carry_out-Accounted :
      (id : ℕ) (a : DeliveryAction)
      → find_for_notification w.tables user id ≡ some m
      → reachable (find_delivery_context w.tables user) ≡ some (u, phone)
      → (is_window_open (last_inbound (find_delivery_context w.tables user)) c.now ≡ true
          → is_window_open (last_inbound (find_delivery_context w.tables user)) c.reply_at ≡ true)
      → decide_delivery intl
          (candidate_of m)
          (preferences_of (find_delivery_context w.tables user) u)
          (evaluate_window (last_inbound (find_delivery_context w.tables user)) c.now)
          c.now
        ≡ a
      → carry_out c w user m (find_delivery_context w.tables user) (u, phone) a ≡ (v, ok tt)
      → Accounted intl c w v user id
  unfolding find_for_notification
  carry_out-Accounted id (suppress reason) f r o e h = unwanted m u phone reason f r e
  carry_out-Accounted id (defer reason) f r o e h = owed (
      rw (write-ok c.written w v _ h, sym (find-is_message user id w.tables.messages m f))
        (mark_deferred-waits w.tables user m.id c.now))
  carry_out-Accounted id send_template f r o e h = owed (
      rw (sym (find-is_message user id w.tables.messages m f))
        (owed_after (find_delivery_context w.tables user) h))
  carry_out-Accounted id send_now f r o e h =
      let d = find_delivery_context w.tables user in
      let (s, out, is_card) = card_sent d (o (open_when_sent d e)) h in seen m s f out is_card

-- A message that is not forced and whose job reports success is accounted for: it is gone, its user
-- has no verified number, the user's own settings suppress it, it waits for a digest, or its card
-- has been sent. The messaging window is taken not to close while the job runs.
pub notify_one-Accounted :
    (intl : Intl) (c : Circumstances) (w v : World) (user id : ℕ)
    → (is_window_open (last_inbound (find_delivery_context w.tables user)) c.now ≡ true
        → is_window_open (last_inbound (find_delivery_context w.tables user)) c.reply_at ≡ true)
    → notify_one intl c w user id false ≡ (v, ok tt)
    → Accounted intl c w v user id
unfolding notify_one
notify_one-Accounted intl c w v user id o h =
    elim (Option-cases (find_for_notification w.tables user id)) [
      | inl e ↦ gone e
      | inr (m, e) ↦ elim (Option-cases (reachable (find_delivery_context w.tables user))) [
        | inl r ↦ unreachable r
        | inr ((u, phone), r) ↦
            carry_out-Accounted intl c w v user u phone m id _ e r o refl
              (rw (e, r, notify_one) at h)
      ]
    ]
