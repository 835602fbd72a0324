-- ===== src/JobKey.antt =====
-- packages/shared/src/utils/job-key.ts: the custom ids of queue jobs. A part is the text that
-- `String(part)` gives.
pub mod Laws
mod Tests
use whatsapp_email_assistant.Common.{
  ℕ, zero, suc, ◌+◌, ◌-◌, ◌*◌, ◌/◌, ◌%◌, ◌≤◌, ◌<◌, ◌≡◌, refl, sym, ap, ap₂, ◌∙◌, ◌≡⟨◌⟩◌, ◌∎, ◌≢◌,
  ◌↔◌, ◌⊎◌, inl, inr, Bool, true, false, not, ◌&&◌, ◌||◌, Option, none, some, List, [], ◌∷◌, ◌++◌,
  map, reverse, append_assoc, append-nil, arith, String, ltb, leb, ◌==◌, if◌then◌else◌, ==_iff,
  ==_refl, leb→le, ltb→lt, and→both, Bool-cases, Option-cases, length, take, drop, get_elem?, all,
  any, filter, find, count, length-append, count-append, all-append, length-filter, All, All-append,
  Text, codes, text_eq, text_eq_iff, text_eq_refl, mem_text, is_digit, is_upper, is_lower, is_alnum,
  is_space, trim, to_lower, starts_with, ends_with, ℕ_discrete, join, split, lacks, split-join,
  join-split, split-nonempty,
}
use whatsapp_email_assistant.AppError.{Result, ok, err, unknown}

-- What the negated set of the regular expression leaves alone.
abbrev pub is_safe : ℕ → Bool
is_safe c = is_alnum c || c == b'.' || c == b'_' || c == b'-'

abbrev pub separator : ℕ
separator = b'~'

unfoldable pub clean : Text → Text
clean part = map (λ c. if is_safe c then c else b'_') part

abbrev pub is_empty : Text → Bool
is_empty [] = true
is_empty (_ ∷ _) = false

abbrev pub keyed : List Text → Result Text
keyed cleaned = if any is_empty cleaned then err unknown else ok (join separator cleaned)

-- `jobKey`. Both errors are plain ones.
unfoldable pub job_key : List Text → Result Text
unfolding clean
job_key [] = err unknown
job_key (p ∷ ps) = keyed (map clean (p ∷ ps))
