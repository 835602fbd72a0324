-- ===== src/Notify/Receipts.antt =====
-- Delivery receipts: applyDeliveryReceipt of apps/worker/src/repositories/inbox.repository.ts, which
-- applyReceipt of apps/worker/src/processors/notify.processor.ts calls.
use whatsapp_email_assistant.Common.{
  ℕ, ◌≡◌, refl, sym, ap, ap₂, ◌∙◌, inl, inr, Bool, true, false, ◌&&◌, Option, none, some, List, [],
  ◌∷◌, ◌++◌, map, arith, ◌==◌, if◌then◌else◌, Bool-cases, Option-cases, find, Text, codes, text_eq,
}
use whatsapp_email_assistant.Phone.{from_whatsapp_format}

pub data DeliveryStatus : Type 0 where
  accepted sent delivered read failed : DeliveryStatus

-- A row can have one status more than a receipt.
pub data RowStatus : Type 0 where
  queued : RowStatus
  reported : DeliveryStatus → RowStatus

-- A row of `whatsapp_deliveries`, but for what a receipt neither reads nor writes.
pub record Delivery : Type 0 where
  pub id : ℕ
  pub user_id : ℕ
  pub phone_number : Text
  pub whatsapp_message_id : Option Text
  pub email_message_id : Option ℕ
  pub status : RowStatus
  pub sent_at : Option ℕ
  pub delivered_at : Option ℕ
  pub read_at : Option ℕ
  pub failed_at : Option ℕ
  pub error_code : Option ℕ
  pub error_message : Option Text

pub record MetaError : Type 0 where
  pub code : ℕ
  pub title : Text
  pub details : Option Text

pub record StatusUpdate : Type 0 where
  pub message_id : Text
  pub recipient : Text
  pub new_status : DeliveryStatus
  pub timestamp : ℕ
  pub error : Option MetaError

abbrev pub meta_error_text : MetaError → Text
meta_error_text e = elim e.details [
  | none ↦ e.title
  | some d ↦ elim d [ [] ↦ e.title | c ∷ s ↦ e.title ++ codes ": " ++ c ∷ s ]
]

-- `TIMESTAMP_FOR`.
abbrev pub stamped : DeliveryStatus → ℕ → Delivery → Delivery
stamped accepted at d = record d { sent_at = some at }
stamped sent at d = record d { sent_at = some at }
stamped delivered at d = record d { delivered_at = some at }
stamped read at d = record d { read_at = some at }
stamped failed at d = record d { failed_at = some at }

abbrev pub with_error : Option MetaError → Delivery → Delivery
with_error none d = d
with_error (some e) d = record d {
  error_code = some e.code;
  error_message = some (meta_error_text e);
}

unfoldable pub receipted : StatusUpdate → Delivery → Delivery
receipted update d =
    with_error update.error (record (stamped update.new_status update.timestamp d) {
      status = reported update.new_status;
    })

-- `forUser` hides the rows of other users.
abbrev pub is_named : ℕ → Text → Delivery → Bool
is_named user message_id d =
    (d.user_id == user)
    && (elim d.whatsapp_message_id [ none ↦ false | some m ↦ text_eq m message_id ])

module _ (find_user_by_phone : Text → Option ℕ) where
  unfoldable pub apply_delivery_receipt :
      List Delivery → StatusUpdate → List Delivery × Option Delivery
  apply_delivery_receipt ds update =
      elim (find_user_by_phone (from_whatsapp_format update.recipient)) [
        | none ↦ (ds, none)
        | some user ↦ elim (find (is_named user update.message_id) ds) [
          | none ↦ (ds, none)
          | some d ↦ (map (λ x. if x.id == d.id then receipted update x else x) ds, some d)
        ]
      ]

receipted-named :
    (update : StatusUpdate) (d : Delivery)
    → ((receipted update d).id ≡ d.id)
      × ((receipted update d).user_id ≡ d.user_id)
      × ((receipted update d).whatsapp_message_id ≡ d.whatsapp_message_id)
unfolding receipted
receipted-named update d = elim (Option-cases update.error) [
  | inl e ↦ rw e (by_status update.new_status)
  | inr (x, e) ↦ rw e (by_status update.new_status)
]
  where
    by_status :
        (s : DeliveryStatus)
        → ((stamped s update.timestamp d).id ≡ d.id)
          × ((stamped s update.timestamp d).user_id ≡ d.user_id)
          × ((stamped s update.timestamp d).whatsapp_message_id ≡ d.whatsapp_message_id)
    by_status accepted = (refl, refl, refl)
    by_status sent = (refl, refl, refl)
    by_status delivered = (refl, refl, refl)
    by_status read = (refl, refl, refl)
    by_status failed = (refl, refl, refl)

receipted-again :
    (update : StatusUpdate) (d : Delivery)
    → receipted update (receipted update d) ≡ receipted update d
unfolding receipted
receipted-again update d = elim (Option-cases update.error) [
  | inl e ↦ rw e (by_status update.new_status)
  | inr (x, e) ↦ rw e (with_it x update.new_status)
]
  where
    by_status :
        (s : DeliveryStatus)
        → record (stamped s update.timestamp
            (record (stamped s update.timestamp d) { status = reported s })) { status = reported s }
          ≡ record (stamped s update.timestamp d) { status = reported s }
    by_status accepted = refl
    by_status sent = refl
    by_status delivered = refl
    by_status read = refl
    by_status failed = refl

    with_it :
        (x : MetaError) (s : DeliveryStatus)
        → with_error
            (some x)
            (record (stamped s update.timestamp (
              with_error
                (some x)
                (record (stamped s update.timestamp d) { status = reported s }))) {
                  status = reported s;
                })
          ≡ with_error (some x) (record (stamped s update.timestamp d) { status = reported s })
    with_it x accepted = refl
    with_it x sent = refl
    with_it x delivered = refl
    with_it x read = refl
    with_it x failed = refl

module _ (update : StatusUpdate) (user id : ℕ) where
  abbrev touched : Delivery → Delivery
  touched x = if x.id == id then receipted update x else x

  touched-id : (x : Delivery) → (touched x).id ≡ x.id
  touched-id x = elim (Bool-cases (x.id == id)) [
    | inl e ↦ rw e (receipted-named update x).0
    | inr e ↦ rw e refl
  ]

  touched-again : (x : Delivery) → touched (touched x) ≡ touched x
  touched-again x = elim (Bool-cases (x.id == id)) [
    | inr e ↦ rw (e, e) refl
    | inl e ↦
        let same : ((receipted update x).id == id) ≡ true = rw (receipted-named update x).0 e in
        rw (e, same) (receipted-again update x)
  ]

  touched-is_named : (m : Text) (x : Delivery) → is_named user m (touched x) ≡ is_named user m x
  touched-is_named m x = elim (Bool-cases (x.id == id)) [
    | inr e ↦ rw e refl
    | inl e ↦ let (_, own, named) = receipted-named update x in rw (e, own, named) refl
  ]

  find-touched :
      (m : Text) (ds : List Delivery) (d : Delivery)
      → find (is_named user m) ds ≡ some d
      → find (is_named user m) (map touched ds) ≡ some (touched d)
  find-touched m [] d h = ground arith
  find-touched m (x ∷ ds) d h = elim (Bool-cases (is_named user m x)) [
    | inl e ↦
        let same : x ≡ d = ground arith in
        rw (touched-is_named m x, e) (ap (λ y. some (touched y)) same)
    | inr e ↦ rw (touched-is_named m x, e) (find-touched m ds d (ground arith))
  ]

  map-touched : (ds : List Delivery) → map touched (map touched ds) ≡ map touched ds
  map-touched [] = refl
  map-touched (x ∷ ds) = ap₂ ◌∷◌ (touched-again x) (map-touched ds)

module _ (by_phone : Text → Option ℕ) (update : StatusUpdate) where
  abbrev after : List Delivery → List Delivery
  after ds = (apply_delivery_receipt by_phone ds update).0

  after_unknown :
      by_phone (from_whatsapp_format update.recipient) ≡ none → (ds : List Delivery) → after ds ≡ ds
  unfolding apply_delivery_receipt
  after_unknown e ds = rw (after, apply_delivery_receipt, e) refl

  after_unnamed :
      (user : ℕ)
      → by_phone (from_whatsapp_format update.recipient) ≡ some user
      → (ds : List Delivery) → find (is_named user update.message_id) ds ≡ none
      → after ds ≡ ds
  unfolding apply_delivery_receipt
  after_unnamed user e ds f = rw (after, apply_delivery_receipt, e, f) refl

  after_named :
      (user : ℕ)
      → by_phone (from_whatsapp_format update.recipient) ≡ some user
      → (ds : List Delivery) (d : Delivery) → find (is_named user update.message_id) ds ≡ some d
      → after ds ≡ map (touched update user d.id) ds
  unfolding apply_delivery_receipt
  after_named user e ds d f = rw (after, apply_delivery_receipt, e, f) refl

-- A receipt that Meta delivers a second time changes nothing: the deliveries are as the first left
-- them.
pub apply_delivery_receipt-again :
    (by_phone : Text → Option ℕ) (ds : List Delivery) (update : StatusUpdate)
    → (apply_delivery_receipt by_phone (apply_delivery_receipt by_phone ds update).0 update).0
      ≡ (apply_delivery_receipt by_phone ds update).0
apply_delivery_receipt-again by_phone ds update =
    elim (Option-cases (by_phone (from_whatsapp_format update.recipient))) [
      | inl e ↦ ap (after by_phone update) (after_unknown by_phone update e ds)
      | inr (user, e) ↦ elim (Option-cases (find (is_named user update.message_id) ds)) [
        | inl f ↦ ap (after by_phone update) (after_unnamed by_phone update user e ds f)
        | inr (d, f) ↦
            let once = after_named by_phone update user e ds d f in
            let again =
              after_named by_phone update user e (map (touched update user d.id) ds)
                (touched update user d.id d)
                (find-touched update user d.id update.message_id ds d f) in
            let same =
              ap (λ i. map (touched update user i) (map (touched update user d.id) ds))
                (touched-id update user d.id d) in
            ap (after by_phone update) once
            ∙ again
            ∙ same
            ∙ map-touched update user d.id ds
            ∙ sym once
      ]
    ]
