-- ===== src/Notify/Lost.antt =====
-- What a digest, and a forced notification, clear from the backlog.
use whatsapp_email_assistant.Common.{
  ℕ, zero, suc, ◌≡◌, refl, ap, inl, inr, true, false, not, ◌&&◌, ◌||◌, Option, none, some, List, [],
  ◌∷◌, map, arith, ◌==◌, if◌then◌else◌, Bool-cases, take, all, Text, ℕ_discrete,
}
use whatsapp_email_assistant.AppError.{ok}
use whatsapp_email_assistant.Window.{evaluate_window, is_free_form, is_window_open, Intl}
use whatsapp_email_assistant.Notify.{
  EmailMessage, Tables, User, find_for_notification, find_deferred, mark_notified,
  record_digest_sent, find_delivery_context, is_message, is_set, mem, not_deferred,
}
use whatsapp_email_assistant.Notify.Digest.{build_digest, to_item, digest_row, list_row_count}
use whatsapp_email_assistant.Notify.Handle.{
  digest_list, World, Circumstances, reply, last_inbound, reachable, send_digest, notify_one,
}

-- The message waits for nothing any more.
abbrev pub IsCleared : Tables → ℕ → ℕ → Type 0
IsCleared t user id =
    all (λ m. not (is_message user id m) || not (is_set m.notify_deferred_at)) t.messages ≡ true

other_message :
    (user id : ℕ) (ids : List ℕ) (m : EmailMessage)
    → mem id ids ≡ true
    → ((m.user_id == user) && mem m.id ids) ≡ false
    → is_message user id m ≡ false
other_message user id ids m h e = elim (ℕ_discrete m.id id) [
  | no p ↦ ground arith
  | yes p ↦ ground (arith, rw p at e)
]

mark_notified-IsCleared :
    (t : Tables) (user id : ℕ) (ids : List ℕ)
    → mem id ids ≡ true
    → IsCleared (mark_notified t user ids) user id
unfolding mark_notified
mark_notified-IsCleared t user id ids h = cleared t.messages
  where
    cleared :
        (ms : List EmailMessage)
        → all
            (λ m. not (is_message user id m) || not (is_set m.notify_deferred_at))
            (map (λ m. if (m.user_id == user) && mem m.id ids then not_deferred m else m) ms)
          ≡ true
    cleared [] = refl
    cleared (m ∷ ms) = elim (Bool-cases ((m.user_id == user) && mem m.id ids)) [
      | inl e ↦ rw e (ground (arith, cleared ms))
      | inr e ↦ rw e (ground (arith, other_message user id ids m h e, cleared ms))
    ]

-- A forced notification, which is what brings a snoozed message back, is dropped when the messaging
-- window is closed: nothing is sent, the job reports success, and the message is taken out of the
-- backlog.
pub forced-drops :
    (intl : Intl) (c : Circumstances) (w : World) (user id : ℕ) (m : EmailMessage) (u : User)
    (phone : Text)
    → find_for_notification w.tables user id ≡ some m
    → reachable (find_delivery_context w.tables user) ≡ some (u, phone)
    → is_window_open (last_inbound (find_delivery_context w.tables user)) c.reply_at ≡ false
    → c.written ≡ none
    → let r = notify_one intl c w user id true in
      (r.1 ≡ ok tt) × (r.0.outbox ≡ w.outbox) × IsCleared r.0.tables user m.id
unfolding notify_one reply
forced-drops intl c w user id m u phone f r o written =
    rw (f, r, notify_one, reply, o, written)
      (refl, refl, mark_notified-IsCleared w.tables user m.id (m.id ∷ []) (ground arith))

abbrev pub ids_of : List EmailMessage → List ℕ
ids_of ms = map (λ m. m.id) ms

opens-rows :
    (ms : List EmailMessage) (n : ℕ)
    → map (λ r. r.opens) (map digest_row (take n (map to_item ms))) ≡ ids_of (take n ms)
opens-rows ms zero = refl
opens-rows [] (suc n) = refl
opens-rows (m ∷ ms) (suc n) = ap (λ r. m.id ∷ r) (opens-rows ms n)

notified-IsCleared :
    (t : Tables) (user now id : ℕ) (ids : List ℕ)
    → mem id ids ≡ true
    → IsCleared (record_digest_sent (mark_notified t user ids) user now) user id
unfolding record_digest_sent
notified-IsCleared t user now id ids h = mark_notified-IsCleared t user id ids h

-- Nothing goes wrong in the circumstances.
pub record AllWell (c : Circumstances) (last : Option ℕ) : Type 0 where
  pub open_first : is_free_form (evaluate_window last c.now).mode ≡ true
  pub open_then : is_window_open last c.reply_at ≡ true
  pub meta_takes : c.meta ≡ none
  pub is_recorded : c.recorded ≡ none
  pub is_written : c.written ≡ none
  pub digest_is_written : c.digest_written ≡ none

send_digest-result :
    (c : Circumstances) (w : World) (user : ℕ) (u : User) (phone : Text) (first : EmailMessage)
    (rest : List EmailMessage)
    → reachable (find_delivery_context w.tables user) ≡ some (u, phone)
    → find_deferred w.tables user ≡ first ∷ rest
    → AllWell c (last_inbound (find_delivery_context w.tables user))
    → send_digest c w user ≡ (
      record {
        tables =
            record_digest_sent (mark_notified w.tables user (ids_of (first ∷ rest))) user c.now;
        outbox =
            (record {
              for_user = user;
              phone = phone;
              payload = digest_list (build_digest (map to_item (first ∷ rest)));
              at = c.reply_at;
            })
            ∷ w.outbox;
      },
      ok tt,
    )
unfolding send_digest reply
send_digest-result c w user u phone first rest r f g =
    rw (r, f, send_digest, reply, g.open_first, g.open_then)
      (ground (arith, g.meta_takes, g.is_recorded, g.is_written, g.digest_is_written))

-- A digest that goes out in an open window, with nothing failing, shows the ten oldest messages that
-- wait, in a list whose rows open them; and it takes all that it read out of the backlog, up to
-- twenty, the ones after the tenth without having shown them.
pub send_digest-clears_unshown :
    (c : Circumstances) (w : World) (user : ℕ) (u : User) (phone : Text) (first : EmailMessage)
    (rest : List EmailMessage)
    → reachable (find_delivery_context w.tables user) ≡ some (u, phone)
    → find_deferred w.tables user ≡ first ∷ rest
    → AllWell c (last_inbound (find_delivery_context w.tables user))
    → let r = send_digest c w user in
      let waiting = first ∷ rest in
      let shown = build_digest (map to_item waiting) in
      (r.1 ≡ ok tt)
      × (r.0.outbox
          ≡ (record {
            for_user = user;
            phone = phone;
            payload = digest_list shown;
            at = c.reply_at;
          })
            ∷ w.outbox)
      × (map (λ row. row.opens) shown.rows ≡ ids_of (take list_row_count waiting))
      × ((id : ℕ) → mem id (ids_of waiting) ≡ true → IsCleared r.0.tables user id)
unfolding build_digest
send_digest-clears_unshown c w user u phone first rest r f g =
    rw (send_digest-result c w user u phone first rest r f g) (
      refl,
      refl,
      opens-rows (first ∷ rest) list_row_count,
      λ id h. notified-IsCleared w.tables user c.now id (ids_of (first ∷ rest)) h,
    )
