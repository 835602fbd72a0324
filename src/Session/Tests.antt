-- ===== src/Session/Tests.antt =====
-- Rotation and the race on concrete sessions.
use whatsapp_email_assistant.Common.{ℕ, ◌≡◌, refl, false, none, some, List, [], ◌∷◌, ◌++◌, length}
use whatsapp_email_assistant.Session.{
  Session, Store, rotate, read, issue, finish, find_by_hash, create,
}
use whatsapp_email_assistant.Session.Race.{Event, login, present, replace, settle, step, run}
use whatsapp_email_assistant.Session.Narrows.{is_live}
use whatsapp_email_assistant.Session.Usable.{no_sessions, one_usable_token}

-- User 1 signs in: session 10 of family 5, whose token has the hash 100.
abbrev signed_in : Store
unfolding create issue
signed_in = (create no_sessions.store 1 5 1000 0 10 100).0

abbrev first_row : Session
first_row = record {
  user_id = 1;
  family_id = 5;
  refresh_token_hash = 100;
  expires_at = 1000;
  revoked_at = none;
  replaced_by_id = none;
  mfa_satisfied_at = none;
  last_used_at = none;
}

abbrev used_row : Session
used_row = record first_row { replaced_by_id = some 11; last_used_at = some 50 }

abbrev rotated : Store
unfolding create issue rotate
rotated = (rotate signed_in 100 1000 50 11 101).0

-- Two requests present one token at the same time, and both issue a replacement.
abbrev theft : List Event
theft =
    login 1 5 1000 0 10 100
    ∷ present 0 100 50
    ∷ present 1 100 50
    ∷ replace 0 1000 51 11 101
    ∷ replace 1 1000 52 12 102
    ∷ settle 0 53
    ∷ []

-- The first one wins; then the second one revokes the family, the winner's session included.
theft_signs_both_out :
    let s = run no_sessions (theft ++ settle 1 54 ∷ []) in
    (is_live (s.store.rows 10) ≡ false)
    × (is_live (s.store.rows 11) ≡ false)
    × (is_live (s.store.rows 12) ≡ false)
    × (length s.store.audit ≡ 1)
unfolding run step read find_by_hash issue create finish
theft_signs_both_out = (refl, refl, refl, refl)

one_usable_token_example : ◌≡◌ {A = ℕ} 11 11
unfolding run step read find_by_hash issue create finish
one_usable_token_example =
    one_usable_token theft 11 11 (record first_row { refresh_token_hash = 101; expires_at = 1051 })
      (record first_row { refresh_token_hash = 101; expires_at = 1051 }) refl refl refl refl refl
      refl refl
