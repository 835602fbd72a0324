-- ===== src/TwoFactor/Tests.antt =====
-- Runs of the second factor over a toy HMAC, and the theorems about it on one user.
use whatsapp_email_assistant.Common.{
  ℕ, zero, suc, ◌+◌, ◌≤◌, ◌≡◌, refl, true, false, none, some, List, [], ◌∷◌, arith, ◌==◌,
  if◌then◌else◌, codes, text_eq,
}
use whatsapp_email_assistant.AppError.{ok, err}
use whatsapp_email_assistant.Session.{Store}
use whatsapp_email_assistant.Totp.{
  step_for, code_for_step, matching_step, verify_totp, decode_from, index_of, normal,
}
use whatsapp_email_assistant.TwoFactor.{
  User, World, Services, LoadedSecret, accept_step, decide, commit, Verified, verify_for_session,
  rejected, match_recovery_code,
}
use whatsapp_email_assistant.TwoFactor.Enrolment.{begin_enrolment, confirm_enrolment, disable}
use whatsapp_email_assistant.TwoFactor.Steps.{
  Attempt, Ascends, accepted_steps, accepted_steps-Ascends, last_of,
}
use whatsapp_email_assistant.TwoFactor.Overlap.{overlap, overlap-accepts_twice}

-- The digest has the last byte of the counter in its fourth place.
abbrev toy_hmac : List ℕ → List ℕ → List ℕ
toy_hmac key (_ ∷ _ ∷ _ ∷ _ ∷ _ ∷ _ ∷ _ ∷ low ∷ []) = 0 ∷ 0 ∷ 0 ∷ low ∷ 0 ∷ []
toy_hmac key _ = 0 ∷ []

abbrev services_at : ℕ → Services
services_at now = record {
  decrypt = λ user cipher. ok cipher;
  encrypt = λ user secret. ok secret;
  verify_password = λ hash password. ok (text_eq hash password);
  hash_token = λ t. t;
  hmac_sha1 = toy_hmac;
  now = now;
}

abbrev empty_store : Store
empty_store = record {
  rows = λ _. none;
  by_hash = λ _. none;
  tokens_valid_from = λ _. none;
  audit = [];
}

abbrev ann : User
ann = record {
  email = codes "ann@x";
  enabled = true;
  secret_cipher = some (codes "MFRA");
  confirmed_at = some 0;
  last_used_step = some 1;
  recovery_codes = codes "AAAA-BBBB-CCCC" ∷ codes "DDDD-EEEE-FFFF" ∷ [];
  password_hash = some (codes "pw");
}

abbrev world : World
world = record {
  users = λ k. if 1 == k then some ann else none;
  sessions = empty_store;
  audit = [];
}

-- At a minute past, step 2 is current, and its toy code is 000002.
accepted_run :
    (verify_for_session (services_at 60000) world 1 9 (codes "000 002")).1
    ≡ ok (record { used_recovery_code = false; recovery_codes_remaining = 2 })
unfolding verify_for_session decide commit verify_totp matching_step code_for_step decode_from
    index_of step_for
accepted_run = refl

recovery_run :
    (verify_for_session (services_at 60000) world 1 9 (codes " dddd-eeee-ffff")).1
    ≡ ok (record { used_recovery_code = true; recovery_codes_remaining = 1 })
unfolding verify_for_session decide commit verify_totp
recovery_run = refl

spent_run : (verify_for_session (services_at 60000) world 1 9 (codes "000001")).1 ≡ err rejected
unfolding verify_for_session decide commit verify_totp matching_step code_for_step decode_from
    index_of step_for
spent_run = refl

abbrev attempts : List Attempt
attempts =
    record { services = services_at 60000; user = 1; session_id = 9; code = codes "000002" }
    ∷ record { services = services_at 60000; user = 1; session_id = 8; code = codes "000002" }
    ∷ record { services = services_at 90000; user = 1; session_id = 7; code = codes "000004" }
    ∷ []

attempts_run : accepted_steps world 1 attempts ≡ 2 ∷ 4 ∷ []
unfolding accepted_steps verify_for_session decide commit verify_totp matching_step code_for_step
    decode_from index_of step_for
attempts_run = refl

accepted_steps-Ascends_example : Ascends (last_of (world.users 1)) (accepted_steps world 1 attempts)
accepted_steps-Ascends_example = accepted_steps-Ascends attempts world 1

abbrev ann_loaded : LoadedSecret
ann_loaded = record {
  secret = codes "MFRA";
  enabled = true;
  last_used_step = some 1;
  recovery_codes = codes "AAAA-BBBB-CCCC" ∷ codes "DDDD-EEEE-FFFF" ∷ [];
  password_hash = some (codes "pw");
}

ann_decide : decide (services_at 60000) world 1 (codes "000002") ≡ accept_step 2 ann_loaded
unfolding decide verify_totp matching_step code_for_step decode_from index_of step_for
ann_decide = refl

ann_only :
    (s : ℕ)
    → step_for 60000 ≤ s + 1
    → s ≤ step_for 60000 + 1
    → code_for_step toy_hmac (codes "MFRA") s ≡ ok (normal (codes "000002"))
    → s ≡ 2
unfolding step_for code_for_step decode_from index_of
ann_only zero low high h = absurd (omega arith)
ann_only (suc zero) low high h = ground arith
ann_only (suc (suc zero)) low high h = omega arith
ann_only (suc (suc (suc zero))) low high h = ground arith
ann_only (suc (suc (suc (suc s)))) low high h = absurd (omega arith)

ann_recovery :
    match_recovery_code (services_at 60000) (codes "000002") ann_loaded.recovery_codes ≡ none
unfolding match_recovery_code
ann_recovery = refl

overlap-accepts_twice_example :
    let (w1, alone) = verify_for_session (services_at 60000) world 1 9 (codes "000002") in
    let (_, one, two) = overlap (services_at 60000) world 1 9 8 (codes "000002") in
    let v : Verified = record { used_recovery_code = false; recovery_codes_remaining = 2 } in
    (alone ≡ ok v)
    × ((verify_for_session (services_at 60000) w1 1 8 (codes "000002")).1 ≡ err rejected)
    × (one ≡ ok v)
    × (two ≡ ok v)
overlap-accepts_twice_example =
    overlap-accepts_twice (services_at 60000) world 1 9 8 (codes "000002") 2 ann_loaded ann_decide
      (record { started = omega arith; only = ann_only; no_recovery = ann_recovery })

confirm_wrong_code :
    (confirm_enrolment
      (services_at 60000)
      (record world { users = λ k. some (record ann { enabled = false }) })
      1
      none
      (codes "1")
      []).1
    ≡ err rejected
unfolding confirm_enrolment verify_totp
confirm_wrong_code = refl

begin_enabled : (begin_enrolment (services_at 60000) world 1 (codes "A")).0 ≡ world
unfolding begin_enrolment
begin_enabled = refl

disable_wrong_password :
    (disable (services_at 60000) world 1 (codes "px") (codes "000002")).1 ≡ err rejected
unfolding disable
disable_wrong_password = refl
