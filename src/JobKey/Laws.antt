-- ===== src/JobKey/Laws.antt =====
-- What a job id may hold, and when two are the same.
use whatsapp_email_assistant.Common.{
  ℕ, ◌≡◌, refl, sym, ◌∙◌, inl, inr, Bool, true, ◌||◌, List, [], ◌∷◌, map, arith, ◌==◌, Bool-cases,
  all, any, all-append, Text, join, split, lacks, split-join,
}
use whatsapp_email_assistant.AppError.{ok}
use whatsapp_email_assistant.JobKey.{is_safe, separator, clean, is_empty, job_key}

clean-safe : (p : Text) → all is_safe (clean p) ≡ true
unfolding clean
clean-safe [] = refl
clean-safe (c ∷ p) = elim (Bool-cases (is_safe c)) [
  | inl e ↦ rw (e, e, clean-safe p) refl
  | inr e ↦ rw (e, clean-safe p) refl
]

safe-lacks : (p : Text) → all is_safe p ≡ true → lacks separator p ≡ true
safe-lacks [] h = refl
safe-lacks (c ∷ p) h = ground (arith, safe-lacks p)

map-clean-lacks : (ps : List Text) → all (lacks separator) (map clean ps) ≡ true
map-clean-lacks [] = refl
map-clean-lacks (p ∷ ps) = rw (safe-lacks (clean p) (clean-safe p), map-clean-lacks ps) refl

-- A letter, a digit or one of `.`, `_`, `-` and `~`: the alphabet of ids.
abbrev pub in_alphabet : ℕ → Bool
in_alphabet c = is_safe c || c == separator

safe-in_alphabet : (p : Text) → all is_safe p ≡ true → all in_alphabet p ≡ true
safe-in_alphabet [] h = refl
safe-in_alphabet (c ∷ p) h = ground (arith, safe-in_alphabet p)

join-in_alphabet : (ps : List Text) → all in_alphabet (join separator (map clean ps)) ≡ true
join-in_alphabet [] = refl
join-in_alphabet (p ∷ []) = safe-in_alphabet (clean p) (clean-safe p)
join-in_alphabet (p ∷ q ∷ ps) =
    rw
      (
        all-append in_alphabet (clean p) (separator ∷ join separator (map clean (q ∷ ps))),
        safe-in_alphabet (clean p) (clean-safe p),
        join-in_alphabet (q ∷ ps),
      )
      refl

-- The value of an id that was built.
job_key-value :
    (ps : List Text) (key : Text)
    → job_key ps ≡ ok key
    → (key ≡ join separator (map clean ps)) × (split separator key ≡ map clean ps)
unfolding job_key
job_key-value [] key h = ground arith
job_key-value (p ∷ ps) key h = elim (Bool-cases (any is_empty (map clean (p ∷ ps)))) [
  | inl e ↦ ground arith
  | inr e ↦
      let built : key ≡ join separator (map clean (p ∷ ps)) = ground arith in
      (built, rw built (split-join separator (clean p) (map clean ps) (map-clean-lacks (p ∷ ps))))
]

-- A job id holds letters, digits, `.`, `_`, `-` and `~` only, so never the colon that BullMQ
-- refuses.
pub job_key-alphabet :
    (ps : List Text) (key : Text) → job_key ps ≡ ok key → all in_alphabet key ≡ true
job_key-alphabet ps key h = rw (job_key-value ps key h).0 (join-in_alphabet ps)

-- Two lists of parts get the same job id only if they agree part by part, once the characters
-- outside the alphabet are replaced.
pub job_key-injective :
    (ps qs : List Text) (key : Text)
    → job_key ps ≡ ok key
    → job_key qs ≡ ok key
    → map clean ps ≡ map clean qs
job_key-injective ps qs key h k = sym (job_key-value ps key h).1 ∙ (job_key-value qs key k).1
