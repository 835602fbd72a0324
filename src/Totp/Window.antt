-- ===== src/Totp/Window.antt =====
-- What a code has to be for `verifyTotp` to accept it, and which step it then reports.
use whatsapp_email_assistant.Common.{
  ℕ, zero, suc, ◌+◌, ◌-◌, ◌%◌, ◌≤◌, ◌<◌, ◌≡◌, refl, sym, ap, ◌∙◌, inl, inr, Bool, true, false, not,
  Option, none, some, List, [], ◌∷◌, arith, if◌then◌else◌, Bool-cases, Option-cases, count, Text,
  text_eq, text_eq_iff,
}
use whatsapp_email_assistant.AppError.{Result, ok, err, Thrown, unknown, Result-cases}
use whatsapp_email_assistant.Totp.{
  normal, is_code, is_spent, steps_from, step_for, code_for_step, matching_step, verify_totp,
  base32_decode, six_digits, truncated, counter_of,
}

ok_some-injective : (a b : ℕ) → Path (Result (Option ℕ)) (ok (some a)) (ok (some b)) → a ≡ b
ok_some-injective a b h = ground arith

err-not_ok : (e : Thrown) (s : ℕ) → Path (Result (Option ℕ)) (err e) (ok (some s)) → ⊥
err-not_ok e s h = ground arith

module _ (hmac_sha1 : List ℕ → List ℕ → List ℕ) (secret : Text) (last_used : Option ℕ) where
  -- A step that is not spent, and whose code this is.
  pub record IsMatch (code : Text) (step : ℕ) : Type 0 where
    pub unspent : is_spent last_used step ≡ false
    pub same_code : code_for_step hmac_sha1 secret step ≡ ok code

  module _ (code : Text) (f : ℕ) (fs : List ℕ) where
    abbrev match_in : List ℕ → Result (Option ℕ)
    match_in steps = matching_step hmac_sha1 secret code last_used steps

    match_spent : is_spent last_used f ≡ true → match_in (f ∷ fs) ≡ match_in fs
    unfolding matching_step
    match_spent e = rw (e, matching_step) refl

    match_throws :
        (e : Thrown)
        → is_spent last_used f ≡ false
        → code_for_step hmac_sha1 secret f ≡ err e
        → match_in (f ∷ fs) ≡ err e
    unfolding matching_step
    match_throws e u c = rw (u, c, matching_step) refl

    match_compares :
        (expected : Text)
        → is_spent last_used f ≡ false
        → code_for_step hmac_sha1 secret f ≡ ok expected
        → match_in (f ∷ fs) ≡ (if text_eq expected code then ok (some f) else match_in fs)
    unfolding matching_step
    match_compares expected u c = rw (u, c, matching_step) refl

  matching_step-IsMatch :
      (code : Text) (first count s : ℕ)
      → matching_step hmac_sha1 secret code last_used (steps_from first count) ≡ ok (some s)
      → (first ≤ s) × (s < first + count) × IsMatch code s
  unfolding matching_step
  matching_step-IsMatch code first zero s h = ground arith
  matching_step-IsMatch code first (suc count) s h =
      let fs = steps_from (suc first) count in
      let later : match_in code first fs fs ≡ ok (some s)
          → (first ≤ s) × (s < first + suc count) × IsMatch code s =
        λ k.
          let (low, high, m) = matching_step-IsMatch code (suc first) count s k in
          (omega arith, omega arith, m) in
      elim (Bool-cases (is_spent last_used first)) [
        | inl e ↦ later (sym (match_spent code first fs e) ∙ h)
        | inr e ↦ elim (Result-cases (code_for_step hmac_sha1 secret first)) [
          | inr (x, c) ↦ absurd (err-not_ok x s (sym (match_throws code first fs x e c) ∙ h))
          | inl (expected, c) ↦
              let h' = sym (match_compares code first fs expected e c) ∙ h in
              elim (Bool-cases (text_eq expected code)) [
                | inl t ↦
                    let same : first ≡ s = ok_some-injective first s (
                      sym (ap (λ b. if b then ok (some first) else match_in code first fs fs) t)
                      ∙ h') in
                    (
                      omega (arith, same),
                      omega (arith, same),
                      rw (sym same) (record {
                        unspent = e;
                        same_code = c ∙ ap ok ((text_eq_iff expected code).0 t);
                      }),
                    )
                | inr t ↦ later (
                    sym (ap (λ b. if b then ok (some first) else match_in code first fs fs) t) ∙ h')
              ]
        ]
      ]

step_for_pos : (at : ℕ) → 30000 ≤ at → 1 ≤ step_for at
unfolding step_for
step_for_pos at h = omega arith

guarded :
    (b : Bool) (r : Result (Option ℕ)) (s : ℕ)
    → (if not b then ok none else r) ≡ ok (some s)
    → r ≡ ok (some s)
guarded b r s h = ground arith

-- A code that is accepted has the six digits of the step that is reported; this step is not spent,
-- and it is the step of the time or one of its two neighbours.
pub verify_totp-IsMatch :
    (hmac_sha1 : List ℕ → List ℕ → List ℕ) (secret code : Text) (at : ℕ) (last_used : Option ℕ)
    (step : ℕ)
    → 30000 ≤ at
    → verify_totp hmac_sha1 secret code at last_used ≡ ok (some step)
    → (step_for at ≤ step + 1)
      × (step ≤ step_for at + 1)
      × IsMatch hmac_sha1 secret last_used (normal code) step
unfolding verify_totp
verify_totp-IsMatch hmac_sha1 secret code at last_used step late h =
    let (low, high, m) =
      matching_step-IsMatch hmac_sha1 secret last_used (normal code) (step_for at - 1) 3 step (
        guarded (is_code (normal code))
          (matching_step hmac_sha1 secret (normal code) last_used (steps_from (step_for at - 1) 3))
          step h) in
    let started = step_for_pos at late in
    (omega (arith, low, started), omega (arith, high, started), m)

pub verify_totp_unspent :
    (hmac_sha1 : List ℕ → List ℕ → List ℕ) (secret code : Text) (at : ℕ) (last_used : Option ℕ)
    (step : ℕ)
    → verify_totp hmac_sha1 secret code at last_used ≡ ok (some step)
    → IsMatch hmac_sha1 secret last_used (normal code) step
unfolding verify_totp
verify_totp_unspent hmac_sha1 secret code at last_used step h =
    let (_, _, m) =
      matching_step-IsMatch hmac_sha1 secret last_used (normal code) (step_for at - 1) 3 step (
        guarded (is_code (normal code))
          (matching_step hmac_sha1 secret (normal code) last_used (steps_from (step_for at - 1) 3))
          step h) in
    m

-- The secret alone decides whether the code of a step can be computed.
code_for_step-all :
    (hmac_sha1 : List ℕ → List ℕ → List ℕ) (secret x : Text) (s t : ℕ)
    → code_for_step hmac_sha1 secret s ≡ ok x
    → (y : Text) × (code_for_step hmac_sha1 secret t ≡ ok y)
unfolding code_for_step
code_for_step-all hmac_sha1 secret x s t h = elim (Option-cases (base32_decode secret)) [
  | inl e ↦ absurd (err≢ok (sym (rw (e, code_for_step) refl) ∙ h))
  | inr (key, e) ↦
      (six_digits (truncated (hmac_sha1 key (counter_of t)) % 1000000), rw (e, code_for_step) refl)
]
  where
    err≢ok : Path (Result Text) (err unknown) (ok x) → ⊥
    err≢ok p = ground arith

matching_step_quiet :
    (hmac_sha1 : List ℕ → List ℕ → List ℕ) (secret : Text) (last_used : Option ℕ) (code x : Text)
    (s : ℕ)
    → code_for_step hmac_sha1 secret s ≡ ok x
    → (steps : List ℕ)
    → (o : Option ℕ) × (matching_step hmac_sha1 secret code last_used steps ≡ ok o)
unfolding matching_step
matching_step_quiet hmac_sha1 secret last_used code x s h [] = (none, refl)
matching_step_quiet hmac_sha1 secret last_used code x s h (f ∷ fs) =
    let (o, ih) = matching_step_quiet hmac_sha1 secret last_used code x s h fs in
    let (y, c) = code_for_step-all hmac_sha1 secret x s f h in
    elim (Bool-cases (is_spent last_used f)) [
      | inl e ↦ (o, match_spent hmac_sha1 secret last_used code f fs e ∙ ih)
      | inr e ↦ elim (Bool-cases (text_eq y code)) [
        | inl t ↦ (some f, match_compares hmac_sha1 secret last_used code f fs y e c ∙ rw t refl)
        | inr t ↦ (o, match_compares hmac_sha1 secret last_used code f fs y e c ∙ rw t ih)
      ]
    ]

-- If the code can be computed at all, verification throws nothing.
pub verify_totp_quiet :
    (hmac_sha1 : List ℕ → List ℕ → List ℕ) (secret code x : Text) (at s : ℕ) (last_used : Option ℕ)
    → code_for_step hmac_sha1 secret s ≡ ok x
    → (o : Option ℕ) × (verify_totp hmac_sha1 secret code at last_used ≡ ok o)
unfolding verify_totp
verify_totp_quiet hmac_sha1 secret code x at s last_used h =
    elim (Bool-cases (is_code (normal code))) [
      | inl e ↦
          let (o, k) =
            matching_step_quiet hmac_sha1 secret last_used (normal code) x s h
              (steps_from (step_for at - 1) 3) in
          (o, rw e k)
      | inr e ↦ (none, rw e refl)
    ]
