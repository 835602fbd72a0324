-- ===== src/Builders/Clamp.antt =====
-- What is left of a text that is cut, and that what is cut off does not show.
use whatsapp_email_assistant.Common.{
  ℕ, zero, suc, ◌-◌, ◌≤◌, ◌<◌, ◌≡◌, refl, ap, Option, none, some, [], ◌∷◌, ◌++◌, arith,
  if◌then◌else◌, length, take, length-append, Text, is_space, trim_end,
}
use whatsapp_email_assistant.Builders.{clamp, at_word, last_space, cut}

length-take : (n : ℕ) (s : Text) → length (take n s) ≤ n
length-take zero s = omega arith
length-take (suc n) [] = omega arith
length-take (suc n) (c ∷ s) = omega (arith, length-take n s)

take_shorter : (n : ℕ) (s : Text) → length (take n s) ≤ length s
take_shorter zero s = omega arith
take_shorter (suc n) [] = omega arith
take_shorter (suc n) (c ∷ s) = omega (arith, take_shorter n s)

-- `take` looks no further than the first part.
pub take-append : (n : ℕ) (s t : Text) → n ≤ length s → take n (s ++ t) ≡ take n s
take-append zero s t h = refl
take-append (suc n) [] t h = ground arith
take-append (suc n) (c ∷ s) t h = ap (λ r. c ∷ r) (take-append n s t (omega (arith, h)))

length-trim_end : (s : Text) → length (trim_end s) ≤ length s
length-trim_end [] = omega arith
length-trim_end (c ∷ s) = kept (trim_end s) (length-trim_end s)
  where
    kept :
        (r : Text)
        → length r ≤ length s
        → length
            (elim r as (λ _. Text) [ [] ↦ if is_space c then [] else c ∷ [] | ◌∷◌ d t ↦ c ∷ d ∷ t ])
          ≤ suc (length s)
    kept [] h = ground arith
    kept (d ∷ r) h = omega (arith, h)

length-at_word : (max : ℕ) (s : Text) (o : Option ℕ) → length (at_word max s o) ≤ length s
length-at_word max s none = omega arith
length-at_word max s (some i) = ground (arith, take_shorter i s)

length-cut : (max : ℕ) (s : Text) → length (cut max s) ≤ suc (length s)
length-cut max s = rw length-append (
    omega
      (arith, length-trim_end (at_word max s (last_space s)), length-at_word max s (last_space s)))

-- A text is never longer than asked once it is cut, and a text that fits is left alone.
pub clamp-Fits :
    (text : Text) (max : ℕ)
    → (length (clamp text max) ≤ max) × (length text ≤ max → clamp text max ≡ text)
unfolding clamp
clamp-Fits text max = (
  ground (
    arith,
    length-take max text,
    length-take (max - 1) text,
    length-cut max (take (max - 1) text),
  ),
  λ h. ground (arith, h),
)

-- Whatever follows more than `max` characters, something or nothing, is cut off alike.
pub clamp-hides :
    (max : ℕ) (s t u : Text) → max < length s → clamp (s ++ t) max ≡ clamp (s ++ u) max
unfolding clamp
clamp-hides max s t u h =
    rw
      (
        take-append max s t (omega (arith, h)),
        take-append max s u (omega (arith, h)),
        take-append (max - 1) s t (omega (arith, h)),
        take-append (max - 1) s u (omega (arith, h)),
      )
      (ground (arith, length-append s t, length-append s u))
