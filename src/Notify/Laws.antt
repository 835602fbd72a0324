-- ===== src/Notify/Laws.antt =====
-- To whom, and in which shape, a notification goes out.
use whatsapp_email_assistant.Common.{
  ℕ, ◌≡◌, refl, ◌⊎◌, inl, inr, Bool, true, false, Option, none, some, List, [], ◌∷◌, map, arith,
  Bool-cases, Option-cases, Text,
}
use whatsapp_email_assistant.AppError.{Thrown, Result, ok, err}
use whatsapp_email_assistant.Window.{
  DeliveryAction, send_now, send_template, defer, suppress, evaluate_window, is_free_form,
  is_window_open, Intl,
}
use whatsapp_email_assistant.Notify.{
  EmailMessage, Tables, User, DeliveryContext, find_for_notification, count_deferred, mark_notified,
  mark_deferred, record_digest_sent, find_delivery_context,
}
use whatsapp_email_assistant.Notify.Digest.{build_digest, to_item, nonempty}
use whatsapp_email_assistant.Notify.Handle.{
  Payload, card, digest_list, new_email_template, digest_template, is_template, Sent, World,
  Circumstances, reply, write, and_then, last_inbound, reachable, send_digest, send_digest_to,
  carry_out, notify_one, deliver, Job, notify_email, send_digest_job, user_of, handle,
}

-- What may leave: one message to a verified number, a template unless the window is open by then.
pub data Sends (c : Circumstances) (last : Option ℕ) (user : ℕ) (phone : Text) (w : World)
    : World → Type 0 where
  silent : (v : World) → v.outbox ≡ w.outbox → Sends c last user phone w v
  one :
      (v : World) (s : Sent)
      → v.outbox ≡ s ∷ w.outbox
      → s.for_user ≡ user
      → s.phone ≡ phone
      → (is_template s.payload ≡ true) ⊎ (is_window_open last c.reply_at ≡ true)
      → Sends c last user phone w v

module _ (c : Circumstances) (last : Option ℕ) (user : ℕ) (phone : Text) (w : World) where
  write-Sends :
      (failure : Option Thrown) (v : World) (t : Tables)
      → Sends c last user phone w v
      → Sends c last user phone w (write failure v t).0
  write-Sends (some e) v t s = s
  write-Sends none v t (silent _ h) = silent _ h
  write-Sends none v t (one _ s h a b k) = one _ s h a b k

  and_then-Sends :
      (r : World × Result (Unit {0})) (f : World → World × Result (Unit {0}))
      → Sends c last user phone w r.0
      → ((v : World) → Sends c last user phone w v → Sends c last user phone w (f v).0)
      → Sends c last user phone w (and_then r f).0
  and_then-Sends (v, ok _) f s k = k v s
  and_then-Sends (v, err e) f s k = s

  deliver-Sends :
      (s : Sent)
      → s.for_user ≡ user
      → s.phone ≡ phone
      → (is_template s.payload ≡ true) ⊎ (is_window_open last c.reply_at ≡ true)
      → Sends c last user phone w (deliver c w s).0
  deliver-Sends s a b k = elim (Option-cases c.meta) [
    | inl e ↦ rw e (one _ s refl a b k)
    | inr (x, e) ↦ rw e (silent _ refl)
  ]

  reply-Sends :
      (payload : Payload) (outside : Bool)
      → Sends c last user phone w (reply c w user phone payload last outside).0
  unfolding reply
  reply-Sends payload true = elim (Bool-cases (is_template payload)) [
    | inl e ↦ rw (e, reply) (deliver-Sends _ refl refl (inl e))
    | inr e ↦ rw (e, reply) (silent _ refl)
  ]
  reply-Sends payload false = elim (Bool-cases (is_window_open last c.reply_at)) [
    | inl e ↦ rw (e, reply) (deliver-Sends _ refl refl (inr e))
    | inr e ↦ rw (e, reply) (silent _ refl)
  ]

module _ (c : Circumstances) (last : Option ℕ) (user : ℕ) (phone : Text) (w : World) where
  replied-Sends :
      (payload : Payload) (outside : Bool) (f : World → World × Result (Unit {0}))
      → ((v : World) → Sends c last user phone w v → Sends c last user phone w (f v).0)
      → Sends c last user phone w (and_then (reply c w user phone payload last outside) f).0
  replied-Sends payload outside f k =
      and_then-Sends c last user phone w (reply c w user phone payload last outside) f
        (reply-Sends c last user phone w payload outside) k

nonempty-some : (o : Option Text) (p : Text) → nonempty o ≡ some p → o ≡ some p
nonempty-some none p h = h
nonempty-some (some []) p h = ground arith
nonempty-some (some (x ∷ xs)) p h = h

-- A number that is read for delivery is a verified one.
pub reachable-verified :
    (t : Tables) (user : ℕ) (u : User) (phone : Text)
    → reachable (find_delivery_context t user) ≡ some (u, phone)
    → (row : User) × (t.users user ≡ some row)
      × (row.phone_verified ≡ true)
      × (row.phone_number ≡ some phone)
unfolding find_delivery_context
reachable-verified t user u phone h = elim (Option-cases (t.users user)) [
  | inl e ↦ ground arith
  | inr (row, e) ↦ elim (Bool-cases row.phone_verified) [
    | inr q ↦ ground arith
    | inl q ↦ elim (Option-cases (nonempty row.phone_number)) [
      | inl n ↦ ground arith
      | inr (p, n) ↦ (row, e, q, ground (arith, nonempty-some row.phone_number p n))
    ]
  ]
]

module _ (c : Circumstances) (user : ℕ) (phone : Text) (w : World) (d : DeliveryContext) where
  carry_out-Sends :
      (m : EmailMessage) (u : User) (a : DeliveryAction)
      → Sends c (last_inbound d) user phone w (carry_out c w user m d (u, phone) a).0
  carry_out-Sends m u (suppress _) = silent _ refl
  carry_out-Sends m u (defer _) =
      write-Sends c (last_inbound d) user phone w c.written w _ (silent _ refl)
  carry_out-Sends m u send_template =
      replied-Sends c (last_inbound d) user phone w (new_email_template m u.locale) true
        (λ v. write c.written v (mark_deferred v.tables user m.id c.now))
        (λ v s.
          write-Sends c (last_inbound d) user phone w c.written v
            (mark_deferred v.tables user m.id c.now) s)
  carry_out-Sends m u send_now =
      replied-Sends c (last_inbound d) user phone w (card m) false
        (λ v. write c.written v (mark_notified v.tables user (m.id ∷ [])))
        (λ v s.
          write-Sends c (last_inbound d) user phone w c.written v
            (mark_notified v.tables user (m.id ∷ [])) s)

  send_digest_to-Sends :
      (u : User) (waiting : List EmailMessage)
      → Sends c (last_inbound d) user phone w (send_digest_to c w user d (u, phone) waiting).0
  send_digest_to-Sends u [] = silent _ refl
  send_digest_to-Sends u (m ∷ ms) =
      elim (Bool-cases (is_free_form (evaluate_window (last_inbound d) c.now).mode)) [
        | inl e ↦ rw e (
            replied-Sends c (last_inbound d) user phone w
              (digest_list (build_digest (map to_item (m ∷ ms)))) false
              (λ v.
                and_then
                  (write c.written v (mark_notified v.tables user (map (λ n. n.id) (m ∷ ms))))
                  (λ x. write c.digest_written x (record_digest_sent x.tables user c.now)))
              (λ v s.
                and_then-Sends c (last_inbound d) user phone w
                  (write c.written v (mark_notified v.tables user (map (λ n. n.id) (m ∷ ms))))
                  (λ x. write c.digest_written x (record_digest_sent x.tables user c.now))
                  (write-Sends c (last_inbound d) user phone w c.written v _ s)
                  (λ x r.
                    write-Sends c (last_inbound d) user phone w c.digest_written x
                      (record_digest_sent x.tables user c.now) r)))
        | inr e ↦ rw e (
            replied-Sends c (last_inbound d) user phone w
              (digest_template (count_deferred w.tables user) u.locale) true
              (λ v. write c.digest_written v (record_digest_sent v.tables user c.now))
              (λ v s.
                write-Sends c (last_inbound d) user phone w c.digest_written v
                  (record_digest_sent v.tables user c.now) s))
      ]

-- A job sends nothing, or one message to the number that its user has verified, and this is a
-- template unless the messaging window is still open when it goes out.
pub data IsSafe (c : Circumstances) (user : ℕ) (w v : World) : Type 0 where
  quiet : v.outbox ≡ w.outbox → IsSafe c user w v
  sends_one :
      (s : Sent) (row : User)
      → v.outbox ≡ s ∷ w.outbox
      → s.for_user ≡ user
      → w.tables.users user ≡ some row
      → row.phone_verified ≡ true
      → row.phone_number ≡ some s.phone
      → (is_template s.payload ≡ true)
        ⊎ (is_window_open (last_inbound (find_delivery_context w.tables user)) c.reply_at ≡ true)
      → IsSafe c user w v

Sends-IsSafe :
    (c : Circumstances) (user : ℕ) (w v : World) (u : User) (phone : Text)
    → reachable (find_delivery_context w.tables user) ≡ some (u, phone)
    → Sends c (last_inbound (find_delivery_context w.tables user)) user phone w v
    → IsSafe c user w v
Sends-IsSafe c user w v u phone h (silent _ e) = quiet e
Sends-IsSafe c user w v u phone h (one _ s e a b k) =
    let (row, f, q, n) = reachable-verified w.tables user u phone h in
    sends_one s row e a f q (rw b n) k

-- Whatever job is handled, in whatever circumstances: nothing is sent, or one message goes to its
-- user's own number, which the user has verified; and it is a template, unless the messaging window
-- is open when it goes out. Receipts, which send nothing, are left out.
pub handle-IsSafe :
    (intl : Intl) (c : Circumstances) (w : World) (j : Job)
    → IsSafe c (user_of j) w (handle intl c w j).0
unfolding handle notify_one send_digest
handle-IsSafe intl c w (notify_email user id force) =
    elim (Option-cases (find_for_notification w.tables user id)) [
      | inl e ↦ rw (e, handle, notify_one) (quiet refl)
      | inr (m, e) ↦ elim (Option-cases (reachable (find_delivery_context w.tables user))) [
        | inl r ↦ rw (e, r, handle, notify_one) (quiet refl)
        | inr ((u, phone), r) ↦
            rw (e, r, handle, notify_one)
              (Sends-IsSafe c user w _ u phone r
                (carry_out-Sends c user phone w (find_delivery_context w.tables user) m u _))
      ]
    ]
handle-IsSafe intl c w (send_digest_job user) =
    elim (Option-cases (reachable (find_delivery_context w.tables user))) [
      | inl r ↦ rw (r, handle, send_digest) (quiet refl)
      | inr ((u, phone), r) ↦
          rw (r, handle, send_digest)
            (Sends-IsSafe c user w _ u phone r
              (send_digest_to-Sends c user phone w (find_delivery_context w.tables user) u _))
    ]
