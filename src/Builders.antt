-- ===== src/Builders.antt =====
-- packages/whatsapp/src/builders.ts: cutting a text to what WhatsApp shows. A text is the list of
-- its characters, as `Array.from` lists them.
pub mod Clamp
mod Tests
use whatsapp_email_assistant.Common.{
  ℕ, zero, suc, ◌+◌, ◌-◌, ◌*◌, ◌/◌, ◌%◌, ◌^◌, ◌≤◌, ◌<◌, ◌≡◌, refl, sym, ap, ap₂, ◌∙◌, ◌≡⟨◌⟩◌, ◌∎,
  ◌≢◌, ◌↔◌, ◌⊎◌, inl, inr, Bool, true, false, not, ◌&&◌, ◌||◌, Option, none, some, List, [], ◌∷◌,
  ◌++◌, map, reverse, append_assoc, append-nil, arith, String, ltb, leb, ◌==◌, if◌then◌else◌,
  ==_iff, ==_refl, leb→le, ltb→lt, and→both, Bool-cases, Option-cases, length, take, drop,
  get_elem?, all, any, filter, find, count, length-append, count-append, all-append, length-filter,
  All, All-append, Text, codes, text_eq, text_eq_iff, text_eq_refl, mem_text, is_digit, is_upper,
  is_lower, is_alnum, is_space, trim, to_lower, starts_with, ends_with, ℕ_discrete, join, split,
  lacks, split-join, join-split, split-nonempty, split-before, split-lacks, to_upper, upper_code,
  trim_start, trim_end, lower_code,
}

abbrev pub ellipsis : Text
ellipsis = 8230 ∷ []

abbrev pub last_space_from : ℕ → Option ℕ → Text → Option ℕ
last_space_from i found [] = found
last_space_from i found (c ∷ s) = last_space_from (suc i) (if c == b' ' then some i else found) s

-- `lastIndexOf(' ')`.
abbrev pub last_space : Text → Option ℕ
last_space s = last_space_from 0 none s

-- The last word is dropped unless that costs most of the text.
abbrev pub at_word : ℕ → Text → Option ℕ → Text
at_word max s none = s
at_word max s (some i) = if ltb (max * 6) (i * 10) then take i s else s

abbrev pub cut : ℕ → Text → Text
cut max s = trim_end (at_word max s (last_space s)) ++ ellipsis

unfoldable pub clamp : Text → ℕ → Text
clamp text max =
    if leb (length text) max
    then text
    else if leb max 1
    then take max text
    else cut max (take (max - 1) text)
