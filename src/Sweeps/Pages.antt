-- ===== src/Sweeps/Pages.antt =====
-- A sweep over all users ends, and gives each of them one turn.
use whatsapp_email_assistant.Common.{
  ℕ, zero, suc, ◌-◌, ◌<◌, ◌≡◌, refl, ◌∙◌, ◌⊎◌, inl, inr, true, false, ◌||◌, Option, none, some,
  List, [], ◌∷◌, ◌++◌, arith, ltb, ltb→lt, Bool-cases, length,
}
use whatsapp_email_assistant.Sweeps.{is_after, find_user_ids, last_or, turns, sweep_users}
use whatsapp_email_assistant.Sweeps.Order.{
  mem, Distinct, Ascends, find_user_ids-Ascends, find_user_ids-reaches, find_user_ids-mem,
}

last_or-Ascends :
    (c : Option ℕ) (ids : List ℕ) (seen : List ℕ)
    → Ascends c ids
    → Ascends (last_or c ids) seen
    → Ascends c (ids ++ seen)
last_or-Ascends c [] seen v w = w
last_or-Ascends c (a ∷ ids) seen (p, v) w = (p, last_or-Ascends (some a) ids seen v w)

mem-append : (u : ℕ) (xs ys : List ℕ) → mem u (xs ++ ys) ≡ (mem u xs || mem u ys)
mem-append u [] ys = refl
mem-append u (x ∷ xs) ys = ground (arith, mem-append u xs ys)

-- How many ids are left above the cursor.
abbrev room : ℕ → Option ℕ → ℕ
room bound none = suc bound
room bound (some c) = bound - c

next-room :
    (bound : ℕ) (c : Option ℕ) (a : ℕ)
    → is_after c a ≡ true
    → a < bound
    → room bound (some a) < room bound c
next-room bound none a p h = omega (arith, h)
next-room bound (some c) a p h = omega (arith, h, ltb→lt c a p)

last_or-room :
    (bound : ℕ) (c : Option ℕ) (a : ℕ) (ids : List ℕ)
    → Ascends c (a ∷ ids)
    → ((u : ℕ) → mem u (a ∷ ids) ≡ true → u < bound)
    → room bound (last_or c (a ∷ ids)) < room bound c
last_or-room bound c a [] (p, v) h = next-room bound c a p (h a (ground arith))
last_or-room bound c a (b ∷ ids) (p, v) h =
    let first = next-room bound c a p (h a (ground arith)) in
    let rest = last_or-room bound (some a) b ids v (λ u k. h u (ground arith)) in
    omega (arith, first, rest)

-- The tables hold each user once, and below a bound, whatever happens to them in between.
module _ {S : Type 0} (users : S → List ℕ) (turn : S → ℕ → S) (others : S → S) (limit bound : ℕ)
    (distinct : (s : S) → Distinct (users s))
    (bounded : (s : S) (u : ℕ) → mem u (users s) ≡ true → u < bound) where
  -- What a sweep from a cursor came to.
  record Swept (c : Option ℕ) (o : Option (List ℕ × S)) : Type 0 where
    seen : List ℕ
    final : S
    ends : o ≡ some (seen, final)
    ascends : Ascends c seen
    reaches :
        (u : ℕ)
        → 0 < limit
        → ((s : S) → mem u (users s) ≡ true)
        → is_after c u ≡ true
        → mem u seen ≡ true

  -- A user throughout who comes after the cursor is on the page, or after it when it is full.
  page_reaches :
      (s : S) (c : Option ℕ) (batch : List ℕ) (u : ℕ)
      → find_user_ids (users s) limit c ≡ batch
      → mem u (users s) ≡ true
      → is_after c u ≡ true
      → (mem u batch ≡ true)
        ⊎ ((is_after (last_or c batch) u ≡ true) × (ltb (length batch) limit ≡ false))
  page_reaches s c batch u e m k =
      rw e at (find_user_ids-reaches (users s) limit u c (distinct s) m k)

  page-Swept :
      (fuel : ℕ) (s : S) (c : Option ℕ) (batch : List ℕ)
      → ((t : S) (d : Option ℕ)
          → room bound d < fuel
          → Swept d (sweep_users users turn others limit fuel t d))
      → room bound c < suc fuel
      → find_user_ids (users s) limit c ≡ batch
      → Swept c (sweep_users users turn others limit (suc fuel) s c)
  unfolding sweep_users
  page-Swept fuel s c [] rest h e = record {
    seen = [];
    final = s;
    ends = rw (e, sweep_users) refl;
    ascends = tt;
    reaches =
        λ u l m k. elim (page_reaches s c [] u e (m s) k) [ inl h ↦ h | inr (_, h) ↦ ground arith ];
  }
  page-Swept fuel s c (a ∷ ids) rest h e =
      let up : Ascends c (a ∷ ids) =
        rw e at (find_user_ids-Ascends (users s) limit c (distinct s)) in
      let shorter =
        last_or-room bound c a ids up
          (λ u m. bounded s u (find_user_ids-mem (users s) limit u c (rw e m))) in
      let t = turns users turn others limit s (a ∷ ids) in
      let later = rest (others t) (last_or c (a ∷ ids)) (omega (arith, shorter, h)) in
      elim (Bool-cases (ltb (length (a ∷ ids)) limit)) [
        | inl f ↦ record {
          seen = a ∷ ids;
          final = t;
          ends = rw (e, sweep_users, f) refl;
          ascends = up;
          reaches = λ u l m k. elim (page_reaches s c (a ∷ ids) u e (m s) k) [
            | inl q ↦ q
            | inr (_, q) ↦ ground arith
          ];
        }
        | inr f ↦ record {
          seen = (a ∷ ids) ++ later.seen;
          final = later.final;
          ends = rw (e, sweep_users, f, later.ends) refl;
          ascends = last_or-Ascends c (a ∷ ids) later.seen up later.ascends;
          reaches = λ u l m k.
              mem-append u (a ∷ ids) later.seen ∙ elim (page_reaches s c (a ∷ ids) u e (m s) k) [
                | inl q ↦ rw q refl
                | inr (q, _) ↦ ground (arith, later.reaches u l m q)
              ];
        }
      ]

  sweep-Swept :
      (fuel : ℕ) (s : S) (c : Option ℕ)
      → room bound c < fuel
      → Swept c (sweep_users users turn others limit fuel s c)
  sweep-Swept zero s c h = ground arith
  sweep-Swept (suc fuel) s c h = page-Swept fuel s c _ (sweep-Swept fuel) h refl

  -- A sweep over the users ends, whatever the turns and the rest of the system do to the tables
  -- meanwhile, and the users whose turn came stand in ascending order, so nobody has two turns; and
  -- a user who is one throughout has a turn. The ids are taken below a bound, each user stands once
  -- in the table, and a page holds at least one.
  pub sweep_users-ends :
      (s : S)
      → 0 < limit
      → (seen : List ℕ) × (final : S) × (sweep_users users turn others limit
            (suc (suc bound))
            s
            none
          ≡ some (seen, final))
        × Ascends none seen
        × ((u : ℕ) → ((t : S) → mem u (users t) ≡ true) → mem u seen ≡ true)
  sweep_users-ends s l =
      let r = sweep-Swept (suc (suc bound)) s none (omega arith) in
      (r.seen, r.final, r.ends, r.ascends, λ u m. r.reaches u l m refl)
