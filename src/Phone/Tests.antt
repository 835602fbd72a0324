-- ===== src/Phone/Tests.antt =====
-- Numbers as they are typed, and a number that is linked.
use whatsapp_email_assistant.Common.{
  ℕ, ◌+◌, ◌*◌, ◌%◌, ◌≡◌, refl, true, false, none, some, List, [], ◌∷◌, map, All, Text, codes,
}
use whatsapp_email_assistant.Phone.{
  is_e164, normalize_phone, to_whatsapp_format, from_whatsapp_format,
}
use whatsapp_email_assistant.Phone.Canonical.{normalize_phone-canonical}
use whatsapp_email_assistant.Phone.Verification.{User, generate_code, normalize_code, redeem, start}
use whatsapp_email_assistant.Phone.Proof.{
  Event, asks, sends_code, step, after, Justified, after-Justified,
}

typed_numbers :
    (normalize_phone (codes "0712 345-678") (some (codes "254")) ≡ some (codes "+254712345678"))
    × (normalize_phone (codes "00254712345678") none ≡ some (codes "+254712345678"))
    × (normalize_phone (codes "0712345678") none ≡ none)
unfolding normalize_phone is_e164
typed_numbers = (refl, refl, refl)

normalize_phone-canonical_example :
    (is_e164 (codes "+254712345678") ≡ true)
    × (normalize_phone (codes "+254712345678") none ≡ some (codes "+254712345678"))
    × (from_whatsapp_format (to_whatsapp_format (codes "+254712345678")) ≡ codes "+254712345678")
unfolding normalize_phone is_e164
normalize_phone-canonical_example =
    normalize_phone-canonical (codes "0712 345-678") (some (codes "254")) none
      (codes "+254712345678") refl

-- A toy hash, which tells the codes here apart.
abbrev toy_hash : Text → ℕ
toy_hash [] = 7
toy_hash (c ∷ s) = (toy_hash s * 31 + c) % 65536

abbrev newcomer : ℕ → User
newcomer k = record {
  id = k;
  phone_number = none;
  phone_verified = false;
  code_hash = none;
  code_expires_at = none;
  deleted_at = none;
}

abbrev draws_of : List ℕ
draws_of = 0 ∷ 1 ∷ 2 ∷ 3 ∷ 10 ∷ 11 ∷ 28 ∷ 29 ∷ []

-- The latest first: the code is sent from a phone, and then again by somebody else.
abbrev morning : List Event
morning =
    sends_code (codes "2345CDYZ") (codes "+254799999999") 3000
    ∷ sends_code (codes "2345 cd-yz") (codes "+254712345678") 2000
    ∷ asks 1 draws_of 1000
    ∷ []

only_first :
    map (λ u. u.phone_number) (after toy_hash (newcomer 1 ∷ newcomer 2 ∷ []) morning)
    ≡ some (codes "+254712345678") ∷ none ∷ []
unfolding after step start redeem normalize_code normalize_phone generate_code is_e164
only_first = refl

after-Justified_example :
    All (Justified toy_hash morning) (after toy_hash (newcomer 1 ∷ newcomer 2 ∷ []) morning)
after-Justified_example =
    after-Justified toy_hash (newcomer 1 ∷ newcomer 2 ∷ []) morning
      ((refl, refl), ((refl, refl), tt))
