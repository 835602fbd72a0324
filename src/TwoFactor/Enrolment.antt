-- ===== src/TwoFactor/Enrolment.antt =====
-- Turning the second factor on, in two steps, and off.
use whatsapp_email_assistant.Common.{
  ℕ, Bool, true, false, not, Option, none, some, List, [], ◌∷◌, map, if◌then◌else◌, Text,
}
use whatsapp_email_assistant.AppError.{
  Result, ok, err, Thrown, known, app_error, not_found, conflict,
}
use whatsapp_email_assistant.Session.{revoke_all, mark_mfa_satisfied}
use whatsapp_email_assistant.Totp.{verify_totp}
use whatsapp_email_assistant.TwoFactor.{
  World, Services, LoadedSecret, two_factor_enabled, two_factor_disabled, put_user, rejected,
  already_on, load_secret, match_recovery_code,
}

abbrev no_such_user : Thrown
no_such_user = known (app_error not_found none none)

abbrev plain_conflict : Thrown
plain_conflict = known (app_error conflict none none)

-- `beginEnrolment`: the fresh secret is an argument, and part of the answer.
abbrev begun : World → ℕ → Text → Result Text → World × Result Text
begun w id secret (err e) = (w, err e)
begun w id secret (ok cipher) = (
  put_user w id
      (λ u. record u { secret_cipher = some cipher; confirmed_at = none; last_used_step = none }),
  ok secret,
)

unfoldable pub begin_enrolment : Services → World → ℕ → Text → World × Result Text
begin_enrolment svc w id secret = elim (w.users id) [
  | none ↦ (w, err no_such_user)
  | some u ↦ if u.enabled then (w, err already_on) else begun w id secret (svc.encrypt id secret)
]

abbrev mark_session : Services → World → ℕ → Option ℕ → World
mark_session svc w id none = w
mark_session svc w id (some session_id) = record w {
  sessions = mark_mfa_satisfied w.sessions id session_id svc.now;
}

abbrev enabled_with : Services → World → ℕ → List Text → ℕ → World
enabled_with svc w id fresh step =
    let w1 = put_user w id (λ u. record u {
      enabled = true;
      confirmed_at = some svc.now;
      recovery_codes = map svc.hash_token fresh;
      last_used_step = some step;
    }) in
    record w1 { audit = two_factor_enabled id ∷ w.audit }

abbrev confirm_totp :
    Services → World → ℕ → Option ℕ → List Text → Result (Option ℕ) → World × Result (List Text)
confirm_totp svc w id session fresh (err e) = (w, err e)
confirm_totp svc w id session fresh (ok none) = (w, err rejected)
confirm_totp svc w id session fresh (ok (some step)) =
    (mark_session svc (enabled_with svc w id fresh step) id session, ok fresh)

abbrev confirm_loaded :
    Services
    → World
    → ℕ
    → Option ℕ
    → Text
    → List Text
    → Result LoadedSecret
    → World × Result (List Text)
confirm_loaded svc w id session code fresh (err e) = (w, err e)
confirm_loaded svc w id session code fresh (ok u) =
    if u.enabled
    then (w, err plain_conflict)
    else confirm_totp svc w id session fresh
        (verify_totp svc.hmac_sha1 u.secret code svc.now u.last_used_step)

-- `confirmEnrolment`, with the fresh recovery codes.
unfoldable pub confirm_enrolment :
    Services → World → ℕ → Option ℕ → Text → List Text → World × Result (List Text)
unfolding load_secret
confirm_enrolment svc w id session code fresh =
    confirm_loaded svc w id session code fresh (load_secret svc w id)

abbrev turned_off : Services → World → ℕ → World
turned_off svc w id =
    let w1 = put_user w id (λ u. record u {
      enabled = false;
      secret_cipher = none;
      recovery_codes = [];
      last_used_step = none;
      confirmed_at = none;
    }) in
    record w1 {
      sessions = revoke_all w.sessions id svc.now;
      audit = two_factor_disabled id ∷ w.audit;
    }

abbrev disable_recovery : Services → World → ℕ → Option ℕ → World × Result (Unit {0})
disable_recovery svc w id none = (w, err rejected)
disable_recovery svc w id (some _) = (turned_off svc w id, ok tt)

abbrev disable_totp :
    Services → World → ℕ → LoadedSecret → Text → Result (Option ℕ) → World × Result (Unit {0})
disable_totp svc w id u code (err e) = (w, err e)
disable_totp svc w id u code (ok (some _)) = (turned_off svc w id, ok tt)
disable_totp svc w id u code (ok none) =
    disable_recovery svc w id (match_recovery_code svc code u.recovery_codes)

-- An absent hash and an empty one are no password.
abbrev password_ok : Services → Option Text → Text → Result Bool
password_ok svc none password = ok false
password_ok svc (some []) password = ok false
password_ok svc (some (c ∷ hash)) password = svc.verify_password (c ∷ hash) password

abbrev disable_checked :
    Services → World → ℕ → LoadedSecret → Text → Result Bool → World × Result (Unit {0})
disable_checked svc w id u code (err e) = (w, err e)
disable_checked svc w id u code (ok false) = (w, err rejected)
disable_checked svc w id u code (ok true) =
    disable_totp svc w id u code (verify_totp svc.hmac_sha1 u.secret code svc.now u.last_used_step)

abbrev disable_loaded :
    Services → World → ℕ → Text → Text → Result LoadedSecret → World × Result (Unit {0})
disable_loaded svc w id password code (err e) = (w, err e)
disable_loaded svc w id password code (ok u) =
    if not u.enabled
    then (w, err plain_conflict)
    else disable_checked svc w id u code (password_ok svc u.password_hash password)

-- `disable`.
unfoldable pub disable : Services → World → ℕ → Text → Text → World × Result (Unit {0})
unfolding load_secret
disable svc w id password code = disable_loaded svc w id password code (load_secret svc w id)
