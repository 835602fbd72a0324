-- ===== src/OauthState.antt =====
-- apps/api/src/oauth/oauth-state.ts: the signed `state` of a consent flow, and where the user goes
-- afterwards. The HMAC of packages/crypto and the JSON of Node in base64url are parameters.
pub mod Laws
mod Tests
use whatsapp_email_assistant.Common.{
  ℕ, zero, suc, ◌+◌, ◌-◌, ◌*◌, ◌/◌, ◌%◌, ◌^◌, ◌≤◌, ◌<◌, ◌≡◌, refl, sym, ap, ap₂, ◌∙◌, ◌≡⟨◌⟩◌, ◌∎,
  ◌≢◌, ◌↔◌, ◌⊎◌, inl, inr, Bool, true, false, not, ◌&&◌, ◌||◌, Option, none, some, List, [], ◌∷◌,
  ◌++◌, map, reverse, append_assoc, append-nil, arith, String, ltb, leb, ◌==◌, if◌then◌else◌,
  ==_iff, ==_refl, leb→le, ltb→lt, and→both, Bool-cases, Option-cases, length, take, drop,
  get_elem?, all, any, filter, find, count, length-append, count-append, all-append, length-filter,
  All, All-append, Text, codes, text_eq, text_eq_iff, text_eq_refl, mem_text, is_digit, is_upper,
  is_lower, is_alnum, is_space, trim, to_lower, starts_with, ends_with, ℕ_discrete, join, split,
  lacks, split-join, join-split, split-nonempty, split-before, split-lacks, to_upper, upper_code,
  trim_start, trim_end, lower_code,
}
use whatsapp_email_assistant.AppError.{
  Result, ok, err, Thrown, known, app_error, ErrorCode, bad_request, forbidden,
}

pub data Provider : Type 0 where
  google microsoft : Provider

-- What a payload decodes to. A field that is missing or of another type is none, a provider of
-- another name included.
pub record OauthState : Type 0 where
  pub user_id : Option Text
  pub provider : Option Provider
  pub return_to : Option Text
  pub issued_at : Option ℕ
  pub nonce : Option Text

abbrev pub max_age_seconds : ℕ
max_age_seconds = 600

abbrev pub is_hex : ℕ → Bool
is_hex c = is_digit c || ((leb b'a' c && leb c b'f') || (leb b'A' c && leb c b'F'))

abbrev pub is_one_of : String → ℕ → Bool
is_one_of s c = any (λ d. c == d) (codes s)

-- A string whose characters pass the tests, one by one.
abbrev pub passes : List (ℕ → Bool) → Text → Bool
passes [] [] = true
passes [] (_ ∷ _) = false
passes (_ ∷ _) [] = false
passes (p ∷ ps) (c ∷ s) = p c && passes ps s

abbrev pub hexes : ℕ → List (ℕ → Bool)
hexes zero = []
hexes (suc n) = is_hex ∷ hexes n

unfoldable pub is_uuid : Text → Bool
is_uuid = passes (
    hexes 8
    ++ is_one_of "-" ∷ hexes 4
    ++ is_one_of "-" ∷ is_one_of "12345" ∷ hexes 3
    ++ is_one_of "-" ∷ is_one_of "89abAB" ∷ hexes 3
    ++ is_one_of "-" ∷ hexes 12)

-- What stands before the last full stop, and after it.
abbrev pub at_last_stop : Text → Option (Text × Text)
at_last_stop [] = none
at_last_stop (c ∷ s) = elim (at_last_stop s) [
  | some (before, after) ↦ some (c ∷ before, after)
  | none ↦ if c == b'.' then some ([], s) else none
]

abbrev pub reject : Result OauthState
reject = err (
    known (
      app_error forbidden
        (some (codes "That connection link is no longer valid. Please try connecting again."))
        (some false)))

-- The provider is checked when the payload is decoded.
abbrev pub has_claims : OauthState → Option ℕ
has_claims state = elim state.user_id [
  | none ↦ none
  | some user ↦
      if is_uuid user then elim state.provider [ none ↦ none | some _ ↦ state.issued_at ] else none
]

abbrev pub is_current : ℕ → ℕ → Bool
is_current now issued_at =
    leb issued_at (now / 1000 + 60) && leb (now / 1000) (issued_at + max_age_seconds)

abbrev pub non_empty : Option Text → Option Text
non_empty none = none
non_empty (some []) = none
non_empty (some (c ∷ s)) = some (c ∷ s)

module _ (sign_payload : Text → Text → Text) (encode : OauthState → Text)
    (decode : Text → Option OauthState) where
  abbrev pub new_state : Text → Provider → Option Text → ℕ → Text → OauthState
  new_state user p return_to now nonce = record {
    user_id = some user;
    provider = some p;
    return_to = non_empty return_to;
    issued_at = some (now / 1000);
    nonce = some nonce;
  }

  unfoldable pub create_oauth_state : Text → Provider → Option Text → Text → ℕ → Text → Result Text
  create_oauth_state user p return_to secret now nonce =
      let payload = encode (new_state user p return_to now nonce) in
      if is_uuid user
      then ok (payload ++ b'.' ∷ sign_payload payload secret)
      else err (known (app_error bad_request none none))

  -- What is left once the signature is right.
  abbrev pub verify_payload : Text → ℕ → Result OauthState
  verify_payload payload now = elim (decode payload) [
    | none ↦ reject
    | some state ↦ elim (has_claims state) [
      | none ↦ reject
      | some issued_at ↦ if is_current now issued_at then ok state else reject
    ]
  ]

  abbrev pub verify_parts : Text → Text → Text → ℕ → Result OauthState
  verify_parts [] signature secret now = reject
  verify_parts (c ∷ s) signature secret now =
      if text_eq signature (sign_payload (c ∷ s) secret) then verify_payload (c ∷ s) now else reject

  unfoldable pub verify_oauth_state : Option Text → Text → ℕ → Result OauthState
  verify_oauth_state none secret now = reject
  verify_oauth_state (some raw) secret now = elim (at_last_stop raw) [
    | none ↦ reject
    | some (payload, signature) ↦ verify_parts payload signature secret now
  ]

abbrev pub settings_accounts : Text
settings_accounts = codes "/settings/accounts"

abbrev pub is_control : ℕ → Bool
is_control c = leb c 31 || c == 127

abbrev pub is_slash : ℕ → Bool
is_slash c = c == b'/' || c == b'\\'

-- `/^\/[\\/]/`.
abbrev pub slashed_twice : Text → Bool
slashed_twice [] = false
slashed_twice (_ ∷ []) = false
slashed_twice (c ∷ d ∷ _) = c == b'/' && is_slash d

unfoldable pub safe_return_path : Option Text → Text → Text
safe_return_path none fallback = fallback
safe_return_path (some []) fallback = fallback
safe_return_path (some (c ∷ s)) fallback =
    let path = c ∷ s in
    if not (starts_with path (codes "/")) || starts_with path (codes "//")
    then fallback
    else if any (λ d. d == b'\\') path
    then fallback
    else if slashed_twice path
    then fallback
    else if any is_control path
    then fallback
    else path
