-- ===== src/Sweeps/Order.antt =====
-- What the query of one page returns: an ascending run of the users after the cursor.
use whatsapp_email_assistant.Common.{
  ℕ, zero, suc, ◌<◌, ◌≡◌, refl, sym, ap, ◌∙◌, ◌⊎◌, inl, inr, Bool, true, false, ◌&&◌, ◌||◌, Option,
  none, some, List, [], ◌∷◌, arith, ltb, ◌==◌, ltb→lt, and→both, Bool-cases, length, take, any,
  filter, ℕ_discrete,
}
use whatsapp_email_assistant.Sweeps.{is_after, insert_id, by_id, find_user_ids, last_or}

abbrev pub mem : ℕ → List ℕ → Bool
mem a ids = any (λ b. a == b) ids

abbrev pub Distinct : List ℕ → Type 0
Distinct [] = Unit
Distinct (a ∷ ids) = (mem a ids ≡ false) × Distinct ids

-- Each id stands after the one before it, the first after the cursor.
abbrev pub Ascends : Option ℕ → List ℕ → Type 0
Ascends c [] = Unit
Ascends c (a ∷ ids) = (is_after c a ≡ true) × Ascends (some a) ids

insert_id-Ascends :
    (c : Option ℕ) (a : ℕ) (ids : List ℕ)
    → is_after c a ≡ true
    → mem a ids ≡ false
    → Ascends c ids
    → Ascends c (insert_id a ids)
insert_id-Ascends c a [] h m v = (h, tt)
insert_id-Ascends c a (b ∷ ids) h m (p, v) = elim (Bool-cases (ltb a b)) [
  | inl e ↦ rw e (h, (e, v))
  | inr e ↦ rw e (p, insert_id-Ascends (some b) a ids (ground arith) (ground arith) v)
]

mem-insert_id : (u a : ℕ) (ids : List ℕ) → mem u (insert_id a ids) ≡ ((u == a) || mem u ids)
mem-insert_id u a [] = refl
mem-insert_id u a (b ∷ ids) = elim (Bool-cases (ltb a b)) [
  | inl e ↦ rw e refl
  | inr e ↦ rw e (ground (arith, mem-insert_id u a ids))
]

mem-by_id : (u : ℕ) (ids : List ℕ) → mem u (by_id ids) ≡ mem u ids
mem-by_id u [] = refl
mem-by_id u (a ∷ ids) = mem-insert_id u a (by_id ids) ∙ rw (mem-by_id u ids) refl

mem-filter : (p : ℕ → Bool) (u : ℕ) (ids : List ℕ) → mem u (filter p ids) ≡ (mem u ids && p u)
mem-filter p u [] = refl
mem-filter p u (a ∷ ids) = elim (ℕ_discrete u a) [
  | yes e ↦ rw (sym e) (ground (arith, mem-filter p u ids))
  | no e ↦ ground (arith, mem-filter p u ids)
]

filter-by_id-Ascends :
    (c : Option ℕ) (ids : List ℕ) → Distinct ids → Ascends c (by_id (filter (is_after c) ids))
filter-by_id-Ascends c [] d = tt
filter-by_id-Ascends c (a ∷ ids) (m, d) = elim (Bool-cases (is_after c a)) [
  | inr e ↦ rw e (filter-by_id-Ascends c ids d)
  | inl e ↦ rw e (
      insert_id-Ascends c a _ e
        (mem-by_id a (filter (is_after c) ids) ∙ mem-filter (is_after c) a ids ∙ ground arith)
        (filter-by_id-Ascends c ids d))
]

take-Ascends : (c : Option ℕ) (n : ℕ) (ids : List ℕ) → Ascends c ids → Ascends c (take n ids)
take-Ascends c zero ids v = tt
take-Ascends c (suc n) [] v = tt
take-Ascends c (suc n) (a ∷ ids) (h, v) = (h, take-Ascends (some a) n ids v)

is_after_trans : (c : Option ℕ) (a b : ℕ) → is_after c a ≡ true → a < b → is_after c b ≡ true
is_after_trans none a b h k = refl
is_after_trans (some c) a b h k = ground arith

Ascends-mem :
    (c : Option ℕ) (u : ℕ) (ids : List ℕ) → Ascends c ids → mem u ids ≡ true → is_after c u ≡ true
Ascends-mem c u [] v h = ground arith
Ascends-mem c u (a ∷ ids) (p, v) h = elim (Bool-cases (u == a)) [
  | inl e ↦ rw (let q : u ≡ a = ground arith in q) p
  | inr e ↦ is_after_trans c a u p (ltb→lt a u (Ascends-mem (some a) u ids v (ground arith)))
]

-- Who is not on the page comes after it.
take-mem :
    (c : Option ℕ) (n u : ℕ) (ids : List ℕ)
    → Ascends c ids
    → mem u ids ≡ true
    → (mem u (take n ids) ≡ true) ⊎ (is_after (last_or c (take n ids)) u ≡ true)
take-mem c zero u ids v h = inr (Ascends-mem c u ids v h)
take-mem c (suc n) u [] v h = inl h
take-mem c (suc n) u (a ∷ ids) (p, v) h = elim (Bool-cases (u == a)) [
  | inl e ↦ inl (rw e refl)
  | inr e ↦ elim (take-mem (some a) n u ids v (ground arith)) [
    | inl k ↦ inl (rw e k)
    | inr k ↦ inr k
  ]
]

mem-take : (n u : ℕ) (ids : List ℕ) → mem u (take n ids) ≡ true → mem u ids ≡ true
mem-take zero u ids h = ground arith
mem-take (suc n) u [] h = h
mem-take (suc n) u (a ∷ ids) h = elim (Bool-cases (u == a)) [
  | inl e ↦ rw e refl
  | inr e ↦ rw e (mem-take n u ids (ground arith))
]

pub take-short : (n : ℕ) (ids : List ℕ) → length (take n ids) < n → take n ids ≡ ids
take-short zero ids h = ground arith
take-short (suc n) [] h = refl
take-short (suc n) (a ∷ ids) h = ap (λ r. a ∷ r) (take-short n ids (omega (arith, h)))

-- What a page promises: an ascending run after the cursor, and whoever is a user and comes after the
-- cursor is on it, or comes after it when it is full, or else there is no such user.
pub find_user_ids-Ascends :
    (users : List ℕ) (limit : ℕ) (c : Option ℕ)
    → Distinct users
    → Ascends c (find_user_ids users limit c)
unfolding find_user_ids
find_user_ids-Ascends users limit c d = take-Ascends c limit _ (filter-by_id-Ascends c users d)

pub find_user_ids-reaches :
    (users : List ℕ) (limit u : ℕ) (c : Option ℕ)
    → Distinct users
    → mem u users ≡ true
    → is_after c u ≡ true
    → (mem u (find_user_ids users limit c) ≡ true)
      ⊎ ((is_after (last_or c (find_user_ids users limit c)) u ≡ true)
          × (ltb (length (find_user_ids users limit c)) limit ≡ false))
unfolding find_user_ids
find_user_ids-reaches users limit u c d m k =
    let sorted = by_id (filter (is_after c) users) in
    let found : mem u sorted ≡ true =
      mem-by_id u (filter (is_after c) users) ∙ mem-filter (is_after c) u users ∙ rw (m, k) refl in
    elim (Bool-cases (ltb (length (take limit sorted)) limit)) [
      | inl e ↦ inl (rw (take-short limit sorted (ltb→lt _ _ e)) found)
      | inr e ↦ elim (take-mem c limit u sorted (filter-by_id-Ascends c users d) found) [
        | inl h ↦ inl h
        | inr h ↦ inr (h, e)
      ]
    ]

-- Every user of the table is below a bound.
pub find_user_ids-mem :
    (users : List ℕ) (limit u : ℕ) (c : Option ℕ)
    → mem u (find_user_ids users limit c) ≡ true
    → mem u users ≡ true
unfolding find_user_ids
find_user_ids-mem users limit u c h =
    let h1 = mem-take limit u _ h in
    (and→both _ _ (sym (mem-filter (is_after c) u users) ∙ sym (mem-by_id u _) ∙ h1)).0
