-- ===== src/TwoFactor/Steps.antt =====
-- Sign-ins one after another: no time step is accepted twice, and a recovery code is spent.
use whatsapp_email_assistant.Common.{
  ℕ, ◌≡◌, refl, sym, ap, ◌∙◌, ◌≢◌, inl, inr, Bool, true, false, not, Option, none, some, List, [],
  ◌∷◌, arith, ◌==◌, if◌then◌else◌, ==_iff, ==_refl, Bool-cases, Option-cases, Text,
}
use mathlib.Core.Path.{subst}
use whatsapp_email_assistant.AppError.{Result, ok, err, Thrown, Result-cases}
use whatsapp_email_assistant.Totp.{verify_totp, is_spent, normal}
use whatsapp_email_assistant.Totp.Window.{IsMatch, verify_totp_unspent}
use whatsapp_email_assistant.TwoFactor.{
  User, World, Services, LoadedSecret, Decision, accept_step, accept_recovery, refuse, decide,
  commit, decide_totp, decide_recovery, decide_loaded, load_cipher, load_secret, not_on,
  not_started, verify_for_session,
}

recovery-inv :
    (hashes : List Text) (o : Option ℕ) (s : ℕ) (v : LoadedSecret)
    → decide_recovery hashes o ≢ accept_step s v
recovery-inv hashes none s v h = ground arith
recovery-inv hashes (some i) s v h = ground arith

totp-inv :
    (svc : Services) (u v : LoadedSecret) (code : Text) (r : Result (Option ℕ)) (s : ℕ)
    → decide_totp svc u code r ≡ accept_step s v
    → (r ≡ ok (some s)) × (u ≡ v)
totp-inv svc u v code (err e) s h = ground arith
totp-inv svc u v code (ok none) s h = absurd (recovery-inv u.recovery_codes _ s v h)
totp-inv svc u v code (ok (some t)) s h = (ground arith, ground arith)

enabled-inv :
    (b : Bool) (e : Thrown) (d : Decision) (s : ℕ) (v : LoadedSecret)
    → (if not b then refuse e else d) ≡ accept_step s v
    → (b ≡ true) × (d ≡ accept_step s v)
enabled-inv b e d s v h = ground arith

refuse≢accept : (e : Thrown) (s : ℕ) (v : LoadedSecret) → refuse e ≢ accept_step s v
refuse≢accept e s v h = ground arith

pub loaded-inv :
    (svc : Services) (code : Text) (r : Result LoadedSecret) (s : ℕ) (v : LoadedSecret)
    → decide_loaded svc code r ≡ accept_step s v
    → (r ≡ ok v)
      × (v.enabled ≡ true)
      × IsMatch svc.hmac_sha1 v.secret v.last_used_step (normal code) s
loaded-inv svc code (err e) s v h = absurd (refuse≢accept e s v h)
loaded-inv svc code (ok u) s v h =
    let totp = verify_totp svc.hmac_sha1 u.secret code svc.now u.last_used_step in
    let (t, d) = enabled-inv u.enabled not_on (decide_totp svc u code totp) s v h in
    let (r, same) = totp-inv svc u v code totp s d in
    (
      ap ok same,
      ap LoadedSecret.enabled (sym same) ∙ t,
      subst (λ x. IsMatch svc.hmac_sha1 x.secret x.last_used_step (normal code) s) same
          (verify_totp_unspent svc.hmac_sha1 u.secret code svc.now u.last_used_step s r),
    )

cipher-inv :
    (svc : Services) (id : ℕ) (row : User) (cipher : Option Text) (v : LoadedSecret)
    → load_cipher svc id row cipher ≡ ok v
    → v.last_used_step ≡ row.last_used_step
cipher-inv svc id row none v h = ground arith
cipher-inv svc id row (some cipher) v h = elim (Result-cases (svc.decrypt id cipher)) [
  | inl (secret, e) ↦ ground arith
  | inr (x, e) ↦ ground arith
]

pub load-inv :
    (svc : Services) (w : World) (id : ℕ) (v : LoadedSecret)
    → load_secret svc w id ≡ ok v
    → (row : User) × (w.users id ≡ some row) × (v.last_used_step ≡ row.last_used_step)
unfolding load_secret
load-inv svc w id v h = elim (Option-cases (w.users id)) [
  | inl e ↦ absurd (
      err≢ok (
        ap (λ o. elim o [ none ↦ err not_started | some u ↦ load_cipher svc id u u.secret_cipher ])
          (sym e)
        ∙ h))
  | inr (row, e) ↦ (
    row,
    e,
    cipher-inv svc id row row.secret_cipher v (
        ap (λ o. elim o [ none ↦ err not_started | some u ↦ load_cipher svc id u u.secret_cipher ])
          (sym e)
        ∙ h),
  )
]
  where
    err≢ok : Path (Result LoadedSecret) (err not_started) (ok v) → ⊥
    err≢ok p = ground arith

-- An accepted step is later than the last one of the row.
decide-later :
    (svc : Services) (w : World) (id : ℕ) (code : Text) (s : ℕ) (v : LoadedSecret)
    → decide svc w id code ≡ accept_step s v
    → (row : User) × (w.users id ≡ some row) × (is_spent row.last_used_step s ≡ false)
unfolding decide
decide-later svc w id code s v h =
    let (r, _, m) = loaded-inv svc code (load_secret svc w id) s v h in
    let (row, e, last) = load-inv svc w id v r in
    (row, e, sym (ap (λ o. is_spent o s) last) ∙ m.unspent)

-- One sign-in after another, of this user and of others.
pub record Attempt : Type 0 where
  pub services : Services
  pub user : ℕ
  pub session_id : ℕ
  pub code : Text

abbrev pub after : World → Attempt → World
after w a = (verify_for_session a.services w a.user a.session_id a.code).0

abbrev pub step_of : Decision → List ℕ → List ℕ
step_of (accept_step s _) rest = s ∷ rest
step_of (accept_recovery _) rest = rest
step_of (refuse _) rest = rest

-- The steps that user `id` got in with, in order.
unfoldable pub accepted_steps : World → ℕ → List Attempt → List ℕ
accepted_steps w id [] = []
accepted_steps w id (a ∷ attempts) =
    let rest = accepted_steps (after w a) id attempts in
    if a.user == id then step_of (decide a.services w a.user a.code) rest else rest

abbrev pub last_of : Option User → Option ℕ
last_of none = none
last_of (some u) = u.last_used_step

-- Each step is later than the one before it, and the first is later than `last`.
abbrev pub Ascends : Option ℕ → List ℕ → Type 0
Ascends last [] = Unit
Ascends last (s ∷ ss) = (is_spent last s ≡ false) × Ascends (some s) ss

commit-others :
    (svc : Services) (w : World) (user session_id id : ℕ) (d : Decision)
    → (user == id) ≡ false
    → last_of ((commit svc w user session_id d).0.users id) ≡ last_of (w.users id)
unfolding commit
commit-others svc w user session_id id (refuse e) ne = refl
commit-others svc w user session_id id (accept_step s v) ne = ground arith
commit-others svc w user session_id id (accept_recovery r) ne = ground arith

commit-recovery :
    (svc : Services) (w : World) (id session_id : ℕ) (r : List Text)
    → last_of ((commit svc w id session_id (accept_recovery r)).0.users id) ≡ last_of (w.users id)
unfolding commit
commit-recovery svc w id session_id r = elim (Option-cases (w.users id)) [
  | inl e ↦ rw e refl
  | inr (row, e) ↦ rw (e, ==_refl id) refl
]

commit-accept :
    (svc : Services) (w : World) (id session_id s : ℕ) (v : LoadedSecret) (row : User)
    → w.users id ≡ some row
    → last_of ((commit svc w id session_id (accept_step s v)).0.users id) ≡ some s
unfolding commit
commit-accept svc w id session_id s v row e = rw (e, ==_refl id) refl

module _ (w : World) (id session_id : ℕ) (svc : Services) (code : Text) where
  commit-Ascends :
      (d : Decision) (rest : List ℕ)
      → decide svc w id code ≡ d
      → Ascends (last_of ((commit svc w id session_id d).0.users id)) rest
      → Ascends (last_of (w.users id)) (step_of d rest)
  commit-Ascends (refuse x) rest e h = unfold commit in h
  commit-Ascends (accept_recovery r) rest e h =
      subst (λ l. Ascends l rest) (commit-recovery svc w id session_id r) h
  commit-Ascends (accept_step s v) rest e h =
      let (row, stored, later) = decide-later svc w id code s v e in
      (
        ap (λ o. is_spent (last_of o) s) stored ∙ later,
        subst (λ l. Ascends l rest) (commit-accept svc w id session_id s v row stored) h,
      )

own-Ascends :
    (w : World) (a : Attempt) (rest : List ℕ)
    → Ascends (last_of ((after w a).users a.user)) rest
    → Ascends (last_of (w.users a.user)) (step_of (decide a.services w a.user a.code) rest)
unfolding verify_for_session
own-Ascends w a rest h =
    commit-Ascends w a.user a.session_id a.services a.code (decide a.services w a.user a.code) rest
      refl h

others-same :
    (w : World) (a : Attempt) (id : ℕ)
    → (a.user == id) ≡ false
    → last_of ((after w a).users id) ≡ last_of (w.users id)
unfolding verify_for_session
others-same w a id ne =
    commit-others a.services w a.user a.session_id id (decide a.services w a.user a.code) ne

-- Whoever signs in, in whatever order: the time steps that a user gets in with ascend, from the last
-- one that the user's row holds. So no step is ever accepted twice.
pub accepted_steps-Ascends :
    (attempts : List Attempt) (w : World) (id : ℕ)
    → Ascends (last_of (w.users id)) (accepted_steps w id attempts)
unfolding accepted_steps
accepted_steps-Ascends [] w id = tt
accepted_steps-Ascends (a ∷ attempts) w id =
    let rest = accepted_steps (after w a) id attempts in
    let ih : Ascends (last_of ((after w a).users id)) rest =
      accepted_steps-Ascends attempts (after w a) id in
    elim (Bool-cases (a.user == id)) [
      | inl own ↦ rw own (
          subst
            (λ k.
              Ascends (last_of ((after w a).users k)) rest
              → Ascends (last_of (w.users k)) (step_of (decide a.services w a.user a.code) rest))
            ((==_iff a.user id).0 own) (own-Ascends w a rest) ih)
      | inr other ↦ rw other (subst (λ l. Ascends l rest) (others-same w a id other) ih)
    ]
