-- ===== src/OauthState/Laws.antt =====
-- What verifies as a state was signed, and what createOAuthState makes verifies; and where the user
-- is sent is a path of the site.
use whatsapp_email_assistant.Common.{
  ℕ, ◌+◌, ◌/◌, ◌≤◌, ◌≡◌, refl, sym, ap, ap₂, ◌∙◌, ◌≢◌, inl, inr, true, false, Option, none, some,
  [], ◌∷◌, ◌++◌, arith, ◌==◌, if◌then◌else◌, Bool-cases, Option-cases, any, Text, codes, text_eq,
  text_eq_iff, text_eq_refl, starts_with, lacks,
}
use whatsapp_email_assistant.AppError.{ok}
use whatsapp_email_assistant.OauthState.{
  Provider, OauthState, is_uuid, at_last_stop, reject, has_claims, is_current, max_age_seconds,
  new_state, create_oauth_state, verify_payload, verify_parts, verify_oauth_state, is_control,
  is_slash, slashed_twice, safe_return_path, settings_accounts,
}

at_last_stop-none : (t : Text) → lacks b'.' t ≡ true → at_last_stop t ≡ none
at_last_stop-none [] h = refl
at_last_stop-none (c ∷ t) h = ground (arith, at_last_stop-none t)

at_last_stop-append :
    (s t : Text) → lacks b'.' t ≡ true → at_last_stop (s ++ b'.' ∷ t) ≡ some (s, t)
at_last_stop-append [] t h = rw (at_last_stop-none t h) refl
at_last_stop-append (c ∷ s) t h = rw (at_last_stop-append s t h) refl

at_last_stop-joins : (raw s t : Text) → at_last_stop raw ≡ some (s, t) → raw ≡ s ++ b'.' ∷ t
at_last_stop-joins [] s t h = ground arith
at_last_stop-joins (c ∷ raw) s t h = elim (Option-cases (at_last_stop raw)) [
  | inr ((a, b), e) ↦
      let pair : Option (Text × Text) = some (c ∷ a, b) in
      let found : pair ≡ some (s, t) = rw e at h in
      let first : c ∷ a ≡ s = ground arith in
      let second : b ≡ t = ground arith in
      ap (λ x. c ∷ x) (at_last_stop-joins raw a b e) ∙ ap₂ (λ x y. x ++ b'.' ∷ y) first second
  | inl e ↦ elim (Bool-cases (c == b'.')) [
    | inr d ↦ ground arith
    | inl d ↦
        let pair : Option (Text × Text) = some ([], raw) in
        let found : pair ≡ some (s, t) = rw (e, d) at h in
        let first : [] ≡ s = ground arith in
        let second : raw ≡ t = ground arith in
        let stop : c ≡ b'.' = ground arith in
        ap (λ x. x ∷ raw) stop ∙ ap₂ (λ x y. x ++ b'.' ∷ y) first second
  ]
]

-- A path of the site: after its slash, neither a slash nor a backslash, and no control character.
pub data IsLocal : Text → Type 0 where
  root : IsLocal (b'/' ∷ [])
  under :
      (c : ℕ) (s : Text)
      → is_slash c ≡ false
      → any is_control (c ∷ s) ≡ false
      → IsLocal (b'/' ∷ c ∷ s)

path-IsLocal :
    (c : ℕ) (s : Text)
    → starts_with (c ∷ s) (codes "/") ≡ true
    → starts_with (c ∷ s) (codes "//") ≡ false
    → slashed_twice (c ∷ s) ≡ false
    → any is_control (c ∷ s) ≡ false
    → IsLocal (c ∷ s)
path-IsLocal c [] h k l m = let slash : c ≡ b'/' = ground arith in rw slash root
path-IsLocal c (d ∷ s) h k l m =
    let slash : c ≡ b'/' = ground arith in rw slash (under d s (ground arith) (ground arith))

-- Whatever a link asks for, the user is sent to a path of the site: the path asked for, or the
-- settings.
pub safe_return_path-IsLocal :
    (return_to : Option Text) → IsLocal (safe_return_path return_to settings_accounts)
unfolding safe_return_path
safe_return_path-IsLocal none = under b's' (codes "ettings/accounts") refl refl
safe_return_path-IsLocal (some []) = under b's' (codes "ettings/accounts") refl refl
safe_return_path-IsLocal (some (c ∷ s)) =
    let fallback = under b's' (codes "ettings/accounts") refl refl in
    elim (Bool-cases (starts_with (c ∷ s) (codes "/"))) [
      | inr e ↦ rw e fallback
      | inl e ↦ elim (Bool-cases (starts_with (c ∷ s) (codes "//"))) [
        | inl f ↦ rw (e, f) fallback
        | inr f ↦ elim (Bool-cases (any (λ d. d == b'\\') (c ∷ s))) [
          | inl g ↦ rw (e, f, g) fallback
          | inr g ↦ elim (Bool-cases (slashed_twice (c ∷ s))) [
            | inl h ↦ rw (e, f, g, h) fallback
            | inr h ↦ elim (Bool-cases (any is_control (c ∷ s))) [
              | inl k ↦ rw (e, f, g, h, k) fallback
              | inr k ↦ rw (e, f, g, h, k) (path-IsLocal c s e f h k)
            ]
          ]
        ]
      ]
    ]

module _ (sign_payload : Text → Text → Text) (encode : OauthState → Text)
    (decode : Text → Option OauthState) where
  -- The text is a payload with its signature. The payload holds the state, whose claims are in
  -- order and which is neither old nor from the future.
  pub record Signed (raw secret : Text) (now : ℕ) (state : OauthState) : Type 0 where
    pub payload : Text
    pub user : Text
    pub issued : ℕ
    pub is_signed : raw ≡ payload ++ b'.' ∷ sign_payload payload secret
    pub holds_state : decode payload ≡ some state
    pub names_user : state.user_id ≡ some user
    pub user_is_uuid : is_uuid user ≡ true
    pub names_provider : state.provider ≢ none
    pub was_issued : state.issued_at ≡ some issued
    pub not_ahead : issued ≤ now / 1000 + 60
    pub not_old : now / 1000 ≤ issued + max_age_seconds

  has_claims-facts :
      (state : OauthState) (issued : ℕ)
      → has_claims state ≡ some issued
      → (user : Text) × (state.user_id ≡ some user)
        × (is_uuid user ≡ true)
        × (state.provider ≢ none)
        × (state.issued_at ≡ some issued)
  has_claims-facts state issued h = elim (Option-cases state.user_id) [
    | inl e ↦ ground arith
    | inr (user, e) ↦ elim (Bool-cases (is_uuid user)) [
      | inr f ↦ ground arith
      | inl f ↦ elim (Option-cases state.provider) [
        | inl g ↦ ground arith
        | inr (p, g) ↦ (user, e, f, (λ none_there. ground arith), rw (e, f, g) at h)
      ]
    ]
  ]

  signature_checks :
      (payload signature secret : Text) (now : ℕ) (state : OauthState)
      → verify_parts sign_payload encode decode payload signature secret now ≡ ok state
      → (signature ≡ sign_payload payload secret)
        × (verify_payload sign_payload encode decode payload now ≡ ok state)
  signature_checks [] signature secret now state h = ground arith
  signature_checks (c ∷ s) signature secret now state h =
      elim (Bool-cases (text_eq signature (sign_payload (c ∷ s) secret))) [
        | inr e ↦ ground arith
        | inl e ↦ ((text_eq_iff signature (sign_payload (c ∷ s) secret)).0 e, rw e at h)
      ]

  claims_check :
      (held : OauthState) (now : ℕ) (state : OauthState)
      → (elim (has_claims held) [
        | none ↦ reject
        | some issued ↦ if is_current now issued then ok held else reject
      ])
        ≡ ok state
      → (held ≡ state)
        × ((issued : ℕ) × (has_claims held ≡ some issued) × (is_current now issued ≡ true))
  claims_check held now state h = elim (Option-cases (has_claims held)) [
    | inl e ↦ ground arith
    | inr (issued, e) ↦ elim (Bool-cases (is_current now issued)) [
      | inr f ↦ ground arith
      | inl f ↦ (ground arith, (issued, e, f))
    ]
  ]

  payload_checks :
      (payload : Text) (now : ℕ) (state : OauthState)
      → verify_payload sign_payload encode decode payload now ≡ ok state
      → (decode payload ≡ some state)
        × ((issued : ℕ) × (has_claims state ≡ some issued) × (is_current now issued ≡ true))
  payload_checks payload now state h = elim (Option-cases (decode payload)) [
    | inl e ↦ ground arith
    | inr (held, e) ↦
        let (same, (issued, f, g)) = claims_check held now state (rw (verify_payload, e) at h) in
        (e ∙ ap some same, (issued, ap has_claims (sym same) ∙ f, g))
  ]

  -- Whatever verifies as a state is a payload with the signature that the secret gives it; the
  -- payload decodes to that state, which names a user by a UUID and a provider and was issued at
  -- most ten minutes ago and at most a minute ahead.
  pub verify_oauth_state-Signed :
      (raw secret : Text) (now : ℕ) (state : OauthState)
      → verify_oauth_state sign_payload encode decode (some raw) secret now ≡ ok state
      → Signed raw secret now state
  unfolding verify_oauth_state
  verify_oauth_state-Signed raw secret now state h = elim (Option-cases (at_last_stop raw)) [
    | inl e ↦ ground arith
    | inr ((payload, signature), e) ↦
        let (signed, valid) =
          signature_checks payload signature secret now state (rw (verify_oauth_state, e) at h) in
        let (holds, (issued, claims, current)) = payload_checks payload now state valid in
        let (user, names, uuid, provider, was) = has_claims-facts state issued claims in
        record {
          payload = payload;
          user = user;
          issued = issued;
          is_signed =
              at_last_stop-joins raw payload signature e ∙ ap (λ x. payload ++ b'.' ∷ x) signed;
          holds_state = holds;
          names_user = names;
          user_is_uuid = uuid;
          names_provider = provider;
          was_issued = was;
          not_ahead = ground arith;
          not_old = ground arith;
        }
  ]

  parts_verify :
      (payload secret : Text) (now issued : ℕ) (state : OauthState)
      → decode payload ≡ some state
      → decode [] ≡ none
      → has_claims state ≡ some issued
      → is_current now issued ≡ true
      → verify_parts sign_payload encode decode payload (sign_payload payload secret) secret now
        ≡ ok state
  parts_verify [] secret now issued state d empty c t = ground arith
  parts_verify (x ∷ s) secret now issued state d empty c t =
      rw (text_eq_refl (sign_payload (x ∷ s) secret), verify_payload, d, c, t) refl

  -- What createOAuthState makes for a user with a UUID, verifyOAuthState accepts as that state,
  -- for ten minutes and on a clock that is at most a minute behind, where the payload decodes to
  -- what was encoded, the signature has no full stop and an empty payload does not decode.
  pub verify-create_oauth_state :
      (user : Text) (p : Provider) (return_to : Option Text) (secret nonce : Text) (now later : ℕ)
      → decode (encode (new_state sign_payload encode decode user p return_to now nonce))
        ≡ some (new_state sign_payload encode decode user p return_to now nonce)
      → lacks b'.' (
          sign_payload
            (encode (new_state sign_payload encode decode user p return_to now nonce))
            secret)
        ≡ true
      → decode [] ≡ none
      → is_uuid user ≡ true
      → now / 1000 ≤ later / 1000 + 60
      → later / 1000 ≤ now / 1000 + max_age_seconds
      → (raw : Text) × (create_oauth_state sign_payload encode decode user p return_to secret now
            nonce
          ≡ ok raw)
        × (verify_oauth_state sign_payload encode decode (some raw) secret later
            ≡ ok (new_state sign_payload encode decode user p return_to now nonce))
  unfolding create_oauth_state verify_oauth_state
  verify-create_oauth_state user p return_to secret nonce now later back plain empty u h k =
      let state = new_state sign_payload encode decode user p return_to now nonce in
      let payload = encode state in
      let raw = payload ++ b'.' ∷ sign_payload payload secret in
      let parts = at_last_stop-append payload (sign_payload payload secret) plain in
      (
        raw,
        rw u refl,
        rw (verify_oauth_state, parts)
            (parts_verify payload secret later (now / 1000) state back empty (rw u refl)
              (ground arith)),
      )
