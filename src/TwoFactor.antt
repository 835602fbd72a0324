-- ===== src/TwoFactor.antt =====
-- apps/api/src/auth/two-factor.service.ts, and `matchRecoveryCode` of
-- packages/crypto/src/passwords.ts: enrolment, sign-in with a code or a recovery code, and turning
-- the second factor off. The sessions are those of Session.
pub mod Enrolment
pub mod Steps
pub mod Overlap
mod Tests
use whatsapp_email_assistant.Common.{
  ℕ, zero, suc, ◌+◌, ◌-◌, ◌*◌, ◌/◌, ◌%◌, ◌^◌, ◌≤◌, ◌<◌, ◌≡◌, refl, sym, ap, ap₂, ◌∙◌, ◌≡⟨◌⟩◌, ◌∎,
  ◌≢◌, ◌↔◌, ◌⊎◌, inl, inr, Bool, true, false, not, ◌&&◌, ◌||◌, Option, none, some, List, [], ◌∷◌,
  ◌++◌, map, reverse, append_assoc, append-nil, arith, String, ltb, leb, ◌==◌, if◌then◌else◌,
  ==_iff, ==_refl, leb→le, ltb→lt, and→both, Bool-cases, Option-cases, length, take, drop,
  get_elem?, all, any, filter, find, count, length-append, count-append, all-append, length-filter,
  All, All-append, Text, codes, text_eq, text_eq_iff, text_eq_refl, mem_text, is_digit, is_upper,
  is_lower, is_alnum, is_space, trim, to_lower, starts_with, ends_with, ℕ_discrete, join, split,
  lacks, split-join, join-split, split-nonempty, split-before, split-lacks, to_upper, upper_code,
  trim_start, trim_end, lower_code,
}
use whatsapp_email_assistant.AppError.{
  Result, ok, err, Thrown, known, app_error, not_found, conflict, invalid_credentials, ◌>>=◌,
}
use whatsapp_email_assistant.Session.{Store, mark_mfa_satisfied, revoke_all}
use whatsapp_email_assistant.Totp.{verify_totp}

-- The three columns of the sealed secret are written together.
pub record User : Type 0 where
  pub email : Text
  pub enabled : Bool
  pub secret_cipher : Option Text
  pub confirmed_at : Option ℕ
  pub last_used_step : Option ℕ
  pub recovery_codes : List Text
  pub password_hash : Option Text

pub data AuditAction : Type 0 where
  two_factor_enabled two_factor_disabled : ℕ → AuditAction

pub record World : Type 0 where
  pub users : ℕ → Option User
  pub sessions : Store
  pub audit : List AuditAction

-- Decryption, password and token hashes, HMAC, and the time of a request.
pub record Services : Type 0 where
  pub decrypt : ℕ → Text → Result Text
  pub encrypt : ℕ → Text → Result Text
  pub verify_password : Text → Text → Result Bool
  pub hash_token : Text → Text
  pub hmac_sha1 : List ℕ → List ℕ → List ℕ
  pub now : ℕ

pub record LoadedSecret : Type 0 where
  pub secret : Text
  pub enabled : Bool
  pub last_used_step : Option ℕ
  pub recovery_codes : List Text
  pub password_hash : Option Text

abbrev pub put_user : World → ℕ → (User → User) → World
put_user w id f = record w {
  users = λ k. elim (w.users k) [ none ↦ none | some u ↦ some (if k == id then f u else u) ];
}

-- `rejected`: one error for every reason.
abbrev pub rejected : Thrown
rejected = known (
    app_error invalid_credentials
      (some (codes "That code isn't right. Try the current one from your authenticator app.")) none)

abbrev pub not_started : Thrown
not_started = known (app_error conflict (some (codes "Start two-factor setup first.")) none)

abbrev pub already_on : Thrown
already_on = known (
    app_error conflict
      (some (codes "Two-factor authentication is already on. Turn it off first to re-enrol.")) none)

abbrev pub not_on : Thrown
not_on = known (
    app_error conflict (some (codes "Two-factor authentication is not turned on for this account."))
      none)

abbrev pub loaded : User → Text → LoadedSecret
loaded u secret = record {
  secret = secret;
  enabled = u.enabled;
  last_used_step = u.last_used_step;
  recovery_codes = u.recovery_codes;
  password_hash = u.password_hash;
}

abbrev pub load_cipher : Services → ℕ → User → Option Text → Result LoadedSecret
load_cipher svc id u none = err not_started
load_cipher svc id u (some cipher) = svc.decrypt id cipher >>= λ secret. ok (loaded u secret)

unfoldable pub load_secret : Services → World → ℕ → Result LoadedSecret
load_secret svc w id = elim (w.users id) [
  | none ↦ err not_started
  | some u ↦ load_cipher svc id u u.secret_cipher
]

-- The index is that of the first stored hash that the code has; what is left is the list without it.
abbrev pub is_hash_of : Services → Text → Text → Bool
is_hash_of svc code [] = false
is_hash_of svc code (c ∷ hash) = text_eq (svc.hash_token code) (c ∷ hash)

abbrev pub next_index : Option ℕ → Option ℕ
next_index none = none
next_index (some i) = some (suc i)

unfoldable pub match_recovery_code : Services → Text → List Text → Option ℕ
match_recovery_code svc code [] = none
match_recovery_code svc code (hash ∷ hashes) =
    let rest = next_index (match_recovery_code svc code hashes) in
    if is_hash_of svc (to_upper (trim code)) hash then some 0 else rest

unfoldable pub without_index : ℕ → List Text → List Text
without_index i [] = []
without_index zero (h ∷ hs) = hs
without_index (suc i) (h ∷ hs) = h ∷ without_index i hs

pub record Verified : Type 0 where
  pub used_recovery_code : Bool
  pub recovery_codes_remaining : ℕ

-- What `verifyForSession` decides from the row that it has read, before it writes.
pub data Decision : Type 0 where
  accept_step : ℕ → LoadedSecret → Decision
  accept_recovery : List Text → Decision
  refuse : Thrown → Decision

abbrev pub decide_recovery : List Text → Option ℕ → Decision
decide_recovery hashes none = refuse rejected
decide_recovery hashes (some i) = accept_recovery (without_index i hashes)

abbrev pub decide_totp : Services → LoadedSecret → Text → Result (Option ℕ) → Decision
decide_totp svc u code (err e) = refuse e
decide_totp svc u code (ok (some step)) = accept_step step u
decide_totp svc u code (ok none) =
    decide_recovery u.recovery_codes (match_recovery_code svc code u.recovery_codes)

abbrev pub decide_loaded : Services → Text → Result LoadedSecret → Decision
decide_loaded svc code (err e) = refuse e
decide_loaded svc code (ok u) =
    if not u.enabled
    then refuse not_on
    else decide_totp svc u code (verify_totp svc.hmac_sha1 u.secret code svc.now u.last_used_step)

unfoldable pub decide : Services → World → ℕ → Text → Decision
unfolding load_secret match_recovery_code without_index
decide svc w id code = decide_loaded svc code (load_secret svc w id)

abbrev pub satisfied : Services → World → ℕ → ℕ → (User → User) → World
satisfied svc w id session_id f =
    let w1 = put_user w id f in
    record w1 { sessions = mark_mfa_satisfied w.sessions id session_id svc.now }

-- The writes of `verifyForSession`.
unfoldable pub commit : Services → World → ℕ → ℕ → Decision → World × Result Verified
commit svc w id session_id (refuse e) = (w, err e)
commit svc w id session_id (accept_step step u) = (
  satisfied svc w id session_id (λ r. record r { last_used_step = some step }),
  ok (record { used_recovery_code = false; recovery_codes_remaining = length u.recovery_codes }),
)
commit svc w id session_id (accept_recovery remaining) = (
  satisfied svc w id session_id (λ r. record r { recovery_codes = remaining }),
  ok (record { used_recovery_code = true; recovery_codes_remaining = length remaining }),
)

-- `verifyForSession`, undisturbed.
unfoldable pub verify_for_session : Services → World → ℕ → ℕ → Text → World × Result Verified
verify_for_session svc w id session_id code = commit svc w id session_id (decide svc w id code)
