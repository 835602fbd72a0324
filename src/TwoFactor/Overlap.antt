-- ===== src/TwoFactor/Overlap.antt =====
-- Two requests at once: each reads the row before the other has written.
use whatsapp_email_assistant.Common.{
  ℕ, ◌+◌, ◌≤◌, ◌≡◌, refl, ap, ◌∙◌, inl, inr, false, Option, none, some, arith, leb, ==_refl,
  Option-cases, length, Text,
}
use whatsapp_email_assistant.AppError.{Result, ok, err, Thrown, Result-cases}
use whatsapp_email_assistant.Totp.{verify_totp, normal, code_for_step, step_for}
use whatsapp_email_assistant.Totp.Window.{verify_totp-IsMatch, verify_totp_quiet}
use whatsapp_email_assistant.TwoFactor.Steps.{loaded-inv}
use whatsapp_email_assistant.TwoFactor.{
  User, World, Services, LoadedSecret, accept_step, refuse, decide, commit, Verified,
  verify_for_session, rejected, match_recovery_code, load_secret, loaded, load_cipher, not_started,
}

-- Two requests for one user with one code: both decide on the row as it was, then both write.
unfoldable pub overlap :
    Services → World → (user first second : ℕ) → Text → World × Result Verified × Result Verified
overlap svc w user first second code =
    let d = decide svc w user code in
    let (w1, r1) = commit svc w user first d in
    let (w2, r2) = commit svc w1 user second d in (w2, r1, r2)

-- The clock is past the first step, no other step of the window has the code, and no recovery code
-- is the same.
pub record IsUnambiguous (svc : Services) (u : LoadedSecret) (code : Text) (step : ℕ) : Type 0 where
  pub started : 30000 ≤ svc.now
  pub only :
      (s : ℕ)
      → step_for svc.now ≤ s + 1
      → s ≤ step_for svc.now + 1
      → code_for_step svc.hmac_sha1 u.secret s ≡ ok (normal code)
      → s ≡ step
  pub no_recovery : match_recovery_code svc code u.recovery_codes ≡ none

not_later : (s step : ℕ) → s ≡ step → leb s step ≡ false → ⊥
not_later s step same later = ground arith

-- Once a step is spent, its code is no step's any more.
spent-none :
    (svc : Services) (u : LoadedSecret) (code : Text) (step : ℕ)
    → IsUnambiguous svc u code step
    → code_for_step svc.hmac_sha1 u.secret step ≡ ok (normal code)
    → verify_totp svc.hmac_sha1 u.secret code svc.now (some step) ≡ ok none
spent-none svc u code step unique has_code =
    let (o, e) =
      verify_totp_quiet svc.hmac_sha1 u.secret code (normal code) svc.now step (some step)
        has_code in
    e ∙ ap ok (nothing o e)
  where
    nothing :
        (o : Option ℕ)
        → verify_totp svc.hmac_sha1 u.secret code svc.now (some step) ≡ ok o
        → o ≡ none
    nothing none e = refl
    nothing (some s) e =
        let (low, high, m) =
          verify_totp-IsMatch svc.hmac_sha1 u.secret code svc.now (some step) s unique.started e in
        absurd (not_later s step (unique.only s low high m.same_code) m.unspent)

abbrev stepped_to : ℕ → LoadedSecret → LoadedSecret
stepped_to step u = record u { last_used_step = some step }

cipher-after :
    (svc : Services) (id step : ℕ) (row : User) (cipher : Option Text) (u : LoadedSecret)
    → load_cipher svc id row cipher ≡ ok u
    → load_cipher svc id (record row { last_used_step = some step }) cipher ≡ ok (stepped_to step u)
cipher-after svc id step row none u h = ground arith
cipher-after svc id step row (some cipher) u h = elim (Result-cases (svc.decrypt id cipher)) [
  | inl (secret, e) ↦
      rw e (ap (λ x. ok (stepped_to step x)) (ok-injective (loaded row secret) (rw e at h)))
  | inr (x, e) ↦ absurd (err≢ok x (rw e at h))
]
  where
    err≢ok : (x : Thrown) → Path (Result LoadedSecret) (err x) (ok u) → ⊥
    err≢ok x p = ground arith

    ok-injective : (a : LoadedSecret) → Path (Result LoadedSecret) (ok a) (ok u) → a ≡ u
    ok-injective a p = ground arith

load-after :
    (svc : Services) (w : World) (user first step : ℕ) (u v : LoadedSecret)
    → load_secret svc w user ≡ ok u
    → load_secret svc (commit svc w user first (accept_step step v)).0 user ≡ ok (stepped_to step u)
unfolding load_secret commit
load-after svc w user first step u v h = elim (Option-cases (w.users user)) [
  | inl e ↦ absurd (err≢ok (rw (e, load_secret) at h))
  | inr (row, e) ↦
      rw (e, ==_refl user, load_secret)
        (cipher-after svc user step row row.secret_cipher u (rw (e, load_secret) at h))
]
  where
    err≢ok : Path (Result LoadedSecret) (err not_started) (ok u) → ⊥
    err≢ok p = ground arith

module _ (svc : Services) (w : World) (user first second : ℕ) (code : Text) (step : ℕ)
    (u : LoadedSecret) (accepted : decide svc w user code ≡ accept_step step u)
    (unique : IsUnambiguous svc u code step) where
  -- The sign-in itself, a second one after it, and a second one beside it.
  decide-again :
      decide svc (commit svc w user first (accept_step step u)).0 user code ≡ refuse rejected
  unfolding decide
  decide-again =
      let (r, on, m) = loaded-inv svc code (load_secret svc w user) step u accepted in
      rw
        (
          load-after svc w user first step u u r,
          on,
          spent-none svc u code step unique m.same_code,
          unique.no_recovery,
        )
        refl

  -- A code that is accepted and is the code of no other step, nor a recovery code, is refused the
  -- next time. But two requests that both read the row before either writes get in with it, both:
  -- the write does not look at the step that is stored by then.
  pub overlap-accepts_twice :
      let (w1, alone) = verify_for_session svc w user first code in
      let (_, one, two) = overlap svc w user first second code in
      let v : Verified = record {
        used_recovery_code = false;
        recovery_codes_remaining = length u.recovery_codes;
      } in
      (alone ≡ ok v)
      × ((verify_for_session svc w1 user second code).1 ≡ err rejected)
      × (one ≡ ok v)
      × (two ≡ ok v)
  unfolding verify_for_session overlap commit
  overlap-accepts_twice = rw (accepted, decide-again) (refl, refl, refl, refl)
