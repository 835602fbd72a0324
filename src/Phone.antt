-- ===== src/Phone.antt =====
-- packages/shared/src/utils/phone.ts: numbers in one canonical form.
pub mod Canonical
pub mod Verification
pub mod Proof
mod Tests
use whatsapp_email_assistant.Common.{
  ℕ, zero, suc, ◌+◌, ◌-◌, ◌*◌, ◌/◌, ◌%◌, ◌^◌, ◌≤◌, ◌<◌, ◌≡◌, refl, sym, ap, ap₂, ◌∙◌, ◌≡⟨◌⟩◌, ◌∎,
  ◌≢◌, ◌↔◌, ◌⊎◌, inl, inr, Bool, true, false, not, ◌&&◌, ◌||◌, Option, none, some, List, [], ◌∷◌,
  ◌++◌, map, reverse, append_assoc, append-nil, arith, String, ltb, leb, ◌==◌, if◌then◌else◌,
  ==_iff, ==_refl, leb→le, ltb→lt, and→both, Bool-cases, Option-cases, length, take, drop,
  get_elem?, all, any, filter, find, count, length-append, count-append, all-append, length-filter,
  All, All-append, Text, codes, text_eq, text_eq_iff, text_eq_refl, mem_text, is_digit, is_upper,
  is_lower, is_alnum, is_space, trim, to_lower, starts_with, ends_with, ℕ_discrete, join, split,
  lacks, split-join, join-split, split-nonempty, split-before, split-lacks, to_upper, upper_code,
  trim_start, trim_end, lower_code,
}

abbrev pub is_nonzero_digit : ℕ → Bool
is_nonzero_digit c = leb b'1' c && leb c b'9'

-- `^\+[1-9]\d{6,14}$`.
unfoldable pub is_e164 : Text → Bool
is_e164 [] = false
is_e164 (p ∷ []) = false
is_e164 (p ∷ c ∷ s) =
    (p == b'+')
    && (is_nonzero_digit c && (all is_digit s && (leb 6 (length s) && leb (length s) 14)))

-- `[\s().-]`.
abbrev pub is_filler : ℕ → Bool
is_filler c = is_space c || (c == b'(' || (c == b')' || (c == b'.' || c == b'-')))

abbrev pub without_filler : Text → Text
without_filler s = filter (λ c. not (is_filler c)) s

abbrev pub is_given : Option Text → Bool
is_given none = false
is_given (some []) = false
is_given (some (_ ∷ _)) = true

abbrev pub with_plus : Option Text → Text → Text
with_plus calling_code s =
    if starts_with s (codes "00")
    then b'+' ∷ drop 2 s
    else if starts_with s (codes "011") && not (is_given calling_code)
    then b'+' ∷ drop 3 s
    else s

abbrev pub checked : Text → Option Text
checked s = if is_e164 s then some s else none

abbrev pub without_trunk : Text → Text
without_trunk s = if starts_with s (codes "0") then drop 1 s else s

abbrev pub national : Option Text → Text → Text
national none s = b'+' ∷ s
national (some []) s = b'+' ∷ s
national (some (c ∷ cc)) s = b'+' ∷ (filter is_digit (c ∷ cc) ++ without_trunk s)

abbrev pub is_digits : Text → Bool
is_digits [] = false
is_digits (c ∷ s) = all is_digit (c ∷ s)

abbrev pub normalized : Option Text → Text → Option Text
normalized calling_code s =
    if starts_with s (codes "+")
    then checked s
    else if not (is_digits s)
    then none
    else checked (national calling_code s)

-- An empty input has no digits either.
unfoldable pub normalize_phone : Text → Option Text → Option Text
normalize_phone input calling_code =
    normalized calling_code (with_plus calling_code (without_filler (trim input)))

unfoldable pub to_whatsapp_format : Text → Text
to_whatsapp_format e164 = if starts_with e164 (codes "+") then drop 1 e164 else e164

unfoldable pub from_whatsapp_format : Text → Text
from_whatsapp_format number = if starts_with number (codes "+") then number else b'+' ∷ number
