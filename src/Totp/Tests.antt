-- ===== src/Totp/Tests.antt =====
-- Base32 on short secrets, and codes over a toy digest.
use whatsapp_email_assistant.Common.{ℕ, ◌≡◌, refl, none, some, List, [], ◌∷◌, codes}
use whatsapp_email_assistant.AppError.{ok}
use whatsapp_email_assistant.Totp.{
  base32_encode, encode_from, drain, char_at, base32_decode, decode_from, index_of, step_for,
  code_for_step, matching_step, verify_totp,
}

-- The test vectors of RFC 4648, without padding.
foobar_run : base32_encode (codes "foobar") ≡ codes "MZXW6YTBOI"
unfolding base32_encode encode_from drain char_at
foobar_run = refl

foobar_back : base32_decode (codes "mzxw 6ytb oi==") ≡ some (codes "foobar")
unfolding base32_decode decode_from index_of
foobar_back = refl

corrupt_run : base32_decode (codes "MZXW1") ≡ none
unfolding base32_decode decode_from index_of
corrupt_run = refl

-- The digest has the last byte of the counter in its fourth place.
abbrev toy_hmac : List ℕ → List ℕ → List ℕ
toy_hmac key (_ ∷ _ ∷ _ ∷ _ ∷ _ ∷ _ ∷ _ ∷ low ∷ []) = 0 ∷ 0 ∷ 0 ∷ low ∷ 0 ∷ []
toy_hmac key _ = 0 ∷ []

neighbour_run : verify_totp toy_hmac (codes "MFRA") (codes "000-003") 60000 (some 1) ≡ ok (some 3)
unfolding verify_totp matching_step code_for_step base32_decode decode_from index_of step_for
neighbour_run = refl
