-- ===== src/Totp.antt =====
-- packages/crypto/src/totp.ts: one-time passwords of six digits. HMAC-SHA1 is a parameter: the digest
-- of a message under a key, each a list of bytes.
pub mod Window
mod Tests
use whatsapp_email_assistant.Common.{
  ℕ, zero, suc, ◌+◌, ◌-◌, ◌*◌, ◌/◌, ◌%◌, ◌^◌, ◌≤◌, ◌<◌, ◌≡◌, refl, sym, ap, ap₂, ◌∙◌, ◌≡⟨◌⟩◌, ◌∎,
  ◌≢◌, ◌↔◌, ◌⊎◌, inl, inr, Bool, true, false, not, ◌&&◌, ◌||◌, Option, none, some, List, [], ◌∷◌,
  ◌++◌, map, reverse, append_assoc, append-nil, arith, String, ltb, leb, ◌==◌, if◌then◌else◌,
  ==_iff, ==_refl, leb→le, ltb→lt, and→both, Bool-cases, Option-cases, length, take, drop,
  get_elem?, all, any, filter, find, count, length-append, count-append, all-append, length-filter,
  All, All-append, Text, codes, text_eq, text_eq_iff, text_eq_refl, mem_text, is_digit, is_upper,
  is_lower, is_alnum, is_space, trim, to_lower, starts_with, ends_with, ℕ_discrete, join, split,
  lacks, split-join, join-split, split-nonempty, split-before, split-lacks, to_upper, upper_code,
  trim_start, trim_end, lower_code,
}
use whatsapp_email_assistant.AppError.{Result, ok, err, unknown}

abbrev pub totp_step_seconds : ℕ
totp_step_seconds = 30

abbrev pub totp_window : ℕ
totp_window = 1

abbrev pub base32_alphabet : Text
base32_alphabet = codes "ABCDEFGHIJKLMNOPQRSTUVWXYZ234567"

-- `BASE32_ALPHABET.indexOf(char)` and `BASE32_ALPHABET[i]`, with the letters and digits in order.
unfoldable pub index_of : ℕ → Option ℕ
index_of c =
    if is_upper c
    then some (c - b'A')
    else if leb b'2' c && leb c b'7'
    then some (c - b'2' + 26)
    else none

unfoldable pub char_at : ℕ → ℕ
char_at i = if ltb i 26 then b'A' + i else b'2' + (i - 26)

-- The inner loop of `base32Encode`: what it writes while five bits are left, the bits that remain
-- at most falling.
unfoldable pub drain : ℕ → ℕ → ℕ → Text × ℕ
unfolding char_at
drain zero bits value = ([], bits)
drain (suc rounds) bits value =
    let rest = drain rounds (bits - 5) value in
    if leb 5 bits then (char_at ((value / 2 ^ (bits - 5)) % 32) ∷ rest.0, rest.1) else ([], bits)

-- `base32Encode`: `value` is a word of 32 bits, and `bits` counts those not written yet.
unfoldable pub encode_from : ℕ → ℕ → List ℕ → Text
unfolding drain
encode_from bits value [] = if ltb 0 bits then char_at ((value * 2 ^ (5 - bits)) % 32) ∷ [] else []
encode_from bits value (byte ∷ bytes) =
    let next = (value * 256 + byte) % 2 ^ 32 in
    let written = drain (bits + 8) (bits + 8) next in written.0 ++ encode_from written.1 next bytes

unfoldable pub base32_encode : List ℕ → Text
unfolding encode_from
base32_encode bytes = encode_from 0 0 bytes

abbrev pub consed : ℕ → Option (List ℕ) → Option (List ℕ)
consed b none = none
consed b (some bs) = some (b ∷ bs)

-- `base32Decode`; a character outside the alphabet throws.
unfoldable pub decode_from : ℕ → ℕ → Text → Option (List ℕ)
unfolding index_of
decode_from bits value [] = some []
decode_from bits value (c ∷ cs) = elim (index_of c) [
  | none ↦ none
  | some index ↦
      let next = (value * 32 + index) % 2 ^ 32 in
      elim (leb 8 (bits + 5)) [
        | true ↦ consed ((next / 2 ^ (bits - 3)) % 256) (decode_from (bits - 3) next cs)
        | false ↦ decode_from (bits + 5) next cs
      ]
]

abbrev drop_equals : Text → Text
drop_equals [] = []
drop_equals (c ∷ t) = let rest = drop_equals t in if c == b'=' then rest else c ∷ t

abbrev without_padding : Text → Text
without_padding s = reverse (drop_equals (reverse s))

unfoldable pub base32_decode : Text → Option (List ℕ)
unfolding decode_from
base32_decode encoded =
    decode_from 0 0 (to_upper (filter (λ c. not (is_space c)) (without_padding encoded)))

-- The eight bytes of the counter, the highest first.
abbrev pub counter_of : ℕ → List ℕ
counter_of step =
    (step / 2 ^ 56) % 256
    ∷ (step / 2 ^ 48) % 256
    ∷ (step / 2 ^ 40) % 256
    ∷ (step / 2 ^ 32) % 256
    ∷ (step / 2 ^ 24) % 256
    ∷ (step / 2 ^ 16) % 256
    ∷ (step / 2 ^ 8) % 256
    ∷ step % 256
    ∷ []

-- A byte of the digest, which has twenty.
abbrev pub byte_at : List ℕ → ℕ → ℕ
byte_at [] i = 0
byte_at (b ∷ bs) zero = b
byte_at (b ∷ bs) (suc i) = byte_at bs i

abbrev pub truncated : List ℕ → ℕ
truncated digest =
    let offset = byte_at digest (length digest - 1) % 16 in
    (byte_at digest offset % 128) * 2 ^ 24
    + (byte_at digest (offset + 1) % 256) * 2 ^ 16
    + (byte_at digest (offset + 2) % 256) * 2 ^ 8
    + byte_at digest (offset + 3) % 256

-- `String(n).padStart(6, '0')` for a number of at most six digits.
abbrev pub six_digits : ℕ → Text
six_digits n =
    (b'0' + (n / 100000) % 10)
    ∷ (b'0' + (n / 10000) % 10)
    ∷ (b'0' + (n / 1000) % 10)
    ∷ (b'0' + (n / 100) % 10)
    ∷ (b'0' + (n / 10) % 10)
    ∷ (b'0' + n % 10)
    ∷ []

unfoldable pub step_for : ℕ → ℕ
step_for at = at / 1000 / totp_step_seconds

-- `code.replace(/[\s-]/g, '')`.
abbrev pub normal : Text → Text
normal code = filter (λ c. not (is_space c || c == b'-')) code

abbrev pub is_code : Text → Bool
is_code s = length s == 6 && all is_digit s

abbrev pub is_spent : Option ℕ → ℕ → Bool
is_spent none step = false
is_spent (some last) step = leb step last

-- The steps from `current - window` up: `count` of them.
abbrev pub steps_from : ℕ → ℕ → List ℕ
steps_from first zero = []
steps_from first (suc count) = first ∷ steps_from (suc first) count

module _ (hmac_sha1 : List ℕ → List ℕ → List ℕ) where
  unfoldable pub code_for_step : Text → ℕ → Result Text
  unfolding base32_decode
  code_for_step secret step = elim (base32_decode secret) [
    | none ↦ err unknown
    | some key ↦ ok (six_digits (truncated (hmac_sha1 key (counter_of step)) % 1000000))
  ]

  -- The loop of `verifyTotp`: the first step that is not spent and has this code.
  unfoldable pub matching_step : Text → Text → Option ℕ → List ℕ → Result (Option ℕ)
  matching_step secret code last_used [] = ok none
  matching_step secret code last_used (step ∷ steps) =
      let rest = matching_step secret code last_used steps in
      if is_spent last_used step then rest else elim (code_for_step secret step) [
        | err e ↦ err e
        | ok expected ↦ if text_eq expected code then ok (some step) else rest
      ]

  -- `verifyTotp` with its window of one step. The clock is taken to be past the first step.
  unfoldable pub verify_totp : Text → Text → ℕ → Option ℕ → Result (Option ℕ)
  verify_totp secret code at last_used =
      let normalized = normal code in
      if not (is_code normalized)
      then ok none
      else matching_step secret normalized last_used
          (steps_from (step_for at - totp_window) (2 * totp_window + 1))
