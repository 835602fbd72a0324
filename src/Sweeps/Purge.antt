-- ===== src/Sweeps/Purge.antt =====
-- A purge erases exactly what is past its retention, when this is no more than one pass takes.
use whatsapp_email_assistant.Common.{
  ℕ, zero, suc, ◌≤◌, ◌≡◌, refl, sym, ap, ap₂, ◌∙◌, inl, inr, Bool, false, ◌&&◌, ◌||◌, List, [], ◌∷◌,
  map, arith, ◌==◌, if◌then◌else◌, ==_refl, Bool-cases, length, take, filter, count, All,
}
use mathlib.Core.Path.{subst}
use whatsapp_email_assistant.Sweeps.Turns.{
  StoredMessage, is_stale, insert_message, sort_messages, oldest_first, ids_of, erased, is_in,
  stale_ids, purge_bodies,
}

module _ (before : StoredMessage → StoredMessage → Bool) where
  is_in-insert_message :
      (a : ℕ) (m : StoredMessage) (ms : List StoredMessage)
      → is_in a (ids_of (insert_message before m ms)) ≡ ((a == m.id) || is_in a (ids_of ms))
  is_in-insert_message a m [] = refl
  is_in-insert_message a m (n ∷ ms) = elim (Bool-cases (before m n)) [
    | inl e ↦ rw e refl
    | inr e ↦ rw e (ground (arith, is_in-insert_message a m ms))
  ]

  is_in-sort_messages :
      (a : ℕ) (ms : List StoredMessage)
      → is_in a (ids_of (sort_messages before ms)) ≡ is_in a (ids_of ms)
  is_in-sort_messages a [] = refl
  is_in-sort_messages a (m ∷ ms) =
      is_in-insert_message a m (sort_messages before ms) ∙ rw (is_in-sort_messages a ms) refl

  length-insert_message :
      (m : StoredMessage) (ms : List StoredMessage)
      → length (insert_message before m ms) ≡ suc (length ms)
  length-insert_message m [] = refl
  length-insert_message m (n ∷ ms) = elim (Bool-cases (before m n)) [
    | inl e ↦ rw e refl
    | inr e ↦ rw e (ap suc (length-insert_message m ms))
  ]

  length-sort_messages : (ms : List StoredMessage) → length (sort_messages before ms) ≡ length ms
  length-sort_messages [] = refl
  length-sort_messages (m ∷ ms) =
      length-insert_message m (sort_messages before ms) ∙ ap suc (length-sort_messages ms)

length-filter_count :
    (p : StoredMessage → Bool) (ms : List StoredMessage) → length (filter p ms) ≡ count p ms
length-filter_count p [] = refl
length-filter_count p (m ∷ ms) = ground (arith, length-filter_count p ms)

take_all : (n : ℕ) (ms : List StoredMessage) → length ms ≤ n → take n ms ≡ ms
take_all zero [] h = refl
take_all zero (m ∷ ms) h = ground arith
take_all (suc n) [] h = refl
take_all (suc n) (m ∷ ms) h = ap (λ r. m ∷ r) (take_all n ms (omega (arith, h)))

-- The primary key: no id stands twice.
abbrev pub DistinctIds : List StoredMessage → Type 0
DistinctIds [] = Unit
DistinctIds (m ∷ ms) = (is_in m.id (ids_of ms) ≡ false) × DistinctIds ms

is_in-filter :
    (p : StoredMessage → Bool) (a : ℕ) (ms : List StoredMessage)
    → is_in a (ids_of ms) ≡ false
    → is_in a (ids_of (filter p ms)) ≡ false
is_in-filter p a [] h = refl
is_in-filter p a (m ∷ ms) h = ground (arith, is_in-filter p a ms)

-- The ids that pass the test are those of the messages that do.
module _ (p : StoredMessage → Bool) where
  Right : List ℕ → StoredMessage → Type 0
  Right ids m = is_in m.id ids ≡ p m

  Right-later :
      (x : StoredMessage) (ids : List ℕ) (ms : List StoredMessage)
      → is_in x.id (ids_of ms) ≡ false
      → All (Right ids) ms
      → All (Right (x.id ∷ ids)) ms
  unfolding Right
  Right-later x ids [] h k = tt
  Right-later x ids (m ∷ ms) h (q, k) =
      let other : (m.id == x.id) ≡ false = ground arith in
      (rw other q, Right-later x ids ms (ground arith) k)

  filter-Right : (ms : List StoredMessage) → DistinctIds ms → All (Right (ids_of (filter p ms))) ms
  unfolding Right
  filter-Right [] d = tt
  filter-Right (x ∷ ms) (n, d) = elim (Bool-cases (p x)) [
    | inl e ↦
        let ids : ids_of (filter p (x ∷ ms)) ≡ x.id ∷ ids_of (filter p ms) = rw e refl in
        subst (λ l. All (Right l) (x ∷ ms)) (sym ids)
          (rw (==_refl x.id) (sym e), Right-later x (ids_of (filter p ms)) ms n (filter-Right ms d))
    | inr e ↦
        let ids : ids_of (filter p (x ∷ ms)) ≡ ids_of (filter p ms) = rw e refl in
        subst (λ l. All (Right l) (x ∷ ms)) (sym ids)
          (is_in-filter p x.id ms n ∙ sym e, filter-Right ms d)
  ]

abbrev chosen : ℕ → List ℕ → StoredMessage → Bool
chosen user ids m = (m.user_id == user) && is_in m.id ids

chosen-stale :
    (user older_than : ℕ) (ids : List ℕ) (ms : List StoredMessage) (now : ℕ)
    → All (Right (is_stale user older_than) ids) ms
    → (map (λ m. if chosen user ids m then erased now m else m) ms
        ≡ map (λ m. if is_stale user older_than m then erased now m else m) ms)
      × (count (chosen user ids) ms ≡ count (is_stale user older_than) ms)
unfolding Right
chosen-stale user older_than ids [] now h = (refl, refl)
chosen-stale user older_than ids (m ∷ ms) now (q, h) =
    let (a, b) = chosen-stale user older_than ids ms now h in
    let same : chosen user ids m ≡ is_stale user older_than m = rw q (own user older_than m) in
    (rw (same, a) refl, rw (same, b) refl)
  where
    own :
        (user older_than : ℕ) (m : StoredMessage)
        → ((m.user_id == user) && is_stale user older_than m) ≡ is_stale user older_than m
    own user older_than m = ground arith

stale_ids-Right :
    (user older_than limit : ℕ) (ms : List StoredMessage)
    → DistinctIds ms
    → count (is_stale user older_than) ms ≤ limit
    → (a : ℕ)
    → is_in a (stale_ids ms user older_than limit)
      ≡ is_in a (ids_of (filter (is_stale user older_than) ms))
stale_ids-Right user older_than limit ms d h a =
    let kept = filter (is_stale user older_than) ms in
    let all_fit : length (sort_messages oldest_first kept) ≤ limit =
      rw (length-sort_messages oldest_first kept, length-filter_count (is_stale user older_than) ms)
        h in
    rw (take_all limit (sort_messages oldest_first kept) all_fit)
      (is_in-sort_messages oldest_first a kept)

same-Right :
    (p : StoredMessage → Bool) (ids jds : List ℕ) (ms : List StoredMessage)
    → ((a : ℕ) → is_in a ids ≡ is_in a jds)
    → All (Right p jds) ms
    → All (Right p ids) ms
unfolding Right
same-Right p ids jds [] e h = tt
same-Right p ids jds (m ∷ ms) e (q, h) = (e m.id ∙ q, same-Right p ids jds ms e h)

-- A pass erases the bodies of exactly those messages of the user that are past the retention, not
-- erased yet and have a body, and counts them, when they are no more than one pass takes. The id of
-- a message stands once in the table.
pub purge_bodies-exact :
    (ms : List StoredMessage) (user older_than limit now : ℕ)
    → DistinctIds ms
    → count (is_stale user older_than) ms ≤ limit
    → purge_bodies ms user older_than limit now ≡ (
      map (λ m. if is_stale user older_than m then erased now m else m) ms,
      count (is_stale user older_than) ms,
    )
unfolding purge_bodies
purge_bodies-exact ms user older_than limit now d h =
    let right =
      same-Right (is_stale user older_than) (stale_ids ms user older_than limit)
        (ids_of (filter (is_stale user older_than) ms)) ms
        (stale_ids-Right user older_than limit ms d h)
        (filter-Right (is_stale user older_than) ms d) in
    let (a, b) = chosen-stale user older_than (stale_ids ms user older_than limit) ms now right in
    ap₂ (λ x y. (x, y)) a b
