-- ===== src/Common/Parts.antt =====
-- `parts.join(c)` and `text.split(c)` with a separator of one character.
use Prim.Native.Nat.{ℕ}
use mathlib.Core.Path.{◌≡◌, refl, sym}
use mathlib.Core.Logic.{inl, inr}
use mathlib.Core.Bool.{Bool, true, not}
use mathlib.Core.List.{List, [], ◌∷◌, ◌++◌}
use native.Mathlib.Omega.{arith}
use whatsapp_email_assistant.Common.Tests.{◌==◌, if◌then◌else◌, ==_iff, ==_refl, Bool-cases}
use whatsapp_email_assistant.Common.Lists.{all}
use whatsapp_email_assistant.Common.Strings.{Text}

abbrev pub join : ℕ → List Text → Text
join c [] = []
join c (p ∷ []) = p
join c (p ∷ q ∷ ps) = p ++ c ∷ join c (q ∷ ps)

abbrev onto_first : ℕ → List Text → List Text
onto_first x [] = (x ∷ []) ∷ []
onto_first x (p ∷ ps) = (x ∷ p) ∷ ps

abbrev pub split : ℕ → Text → List Text
split c [] = [] ∷ []
split c (x ∷ s) = let rest = split c s in if x == c then [] ∷ rest else onto_first x rest

abbrev pub lacks : ℕ → Text → Bool
lacks c = all λ x. not (x == c)

pub split-lacks : (c : ℕ) (p : Text) → lacks c p ≡ true → split c p ≡ p ∷ []
split-lacks c [] h = refl
split-lacks c (x ∷ p) h = ground (arith, split-lacks c p)

split-append : (c : ℕ) (p s : Text) → lacks c p ≡ true → split c (p ++ c ∷ s) ≡ p ∷ split c s
split-append c [] s h = ground arith
split-append c (x ∷ p) s h = ground (arith, split-append c p s)

pub split-join :
    (c : ℕ) (p : Text) (ps : List Text)
    → all (lacks c) (p ∷ ps) ≡ true
    → split c (join c (p ∷ ps)) ≡ p ∷ ps
split-join c p [] h = split-lacks c p (ground arith)
split-join c p (q ∷ ps) h =
    rw (split-append c p (join c (q ∷ ps)) (ground arith), split-join c q ps (ground arith)) refl

join-onto_first : (c x : ℕ) (ps : List Text) → join c (onto_first x ps) ≡ x ∷ join c ps
join-onto_first c x [] = refl
join-onto_first c x (p ∷ []) = refl
join-onto_first c x (p ∷ q ∷ ps) = refl

pub split-nonempty : (c : ℕ) (s : Text) → (p : Text) × (ps : List Text) × (split c s ≡ p ∷ ps)
split-nonempty c [] = ([], [], refl)
split-nonempty c (x ∷ s) = elim (Bool-cases (x == c)) [
  | inl e ↦ ([], split c s, rw e refl)
  | inr e ↦ let (p, ps, f) = split-nonempty c s in (x ∷ p, ps, rw (e, f) refl)
]

pub join-split : (c : ℕ) (s : Text) → join c (split c s) ≡ s
join-split c [] = refl
join-split c (x ∷ s) = elim (Bool-cases (x == c)) [
  | inl e ↦
      let (p, ps, f) = split-nonempty c s in
      let rest : join c (p ∷ ps) ≡ s = rw (sym f) (join-split c s) in
      rw (e, f, rest, (==_iff x c).0 e) refl
  | inr e ↦ rw (e, join-onto_first c x (split c s), join-split c s) refl
]

-- The separator ends the last part of what precedes it, whatever that is.
pub split-before : (c : ℕ) (s t : Text) → split c (s ++ c ∷ t) ≡ split c s ++ split c t
split-before c [] t = rw (==_refl c) refl
split-before c (x ∷ s) t = elim (Bool-cases (x == c)) [
  | inl e ↦ rw (e, split-before c s t) refl
  | inr e ↦ let (p, ps, f) = split-nonempty c s in rw (e, split-before c s t, f) refl
]
