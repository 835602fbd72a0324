-- ===== src/OauthState/Tests.antt =====
-- A state that is signed and checked, and paths after the flow.
use whatsapp_email_assistant.Common.{
  ◌≡◌, refl, Option, none, some, ◌++◌, reverse, arith, if◌then◌else◌, Text, codes, text_eq,
}
use whatsapp_email_assistant.AppError.{ok}
use whatsapp_email_assistant.OauthState.{
  google, OauthState, is_uuid, reject, create_oauth_state, verify_oauth_state, safe_return_path,
  settings_accounts,
}
use whatsapp_email_assistant.OauthState.Laws.{
  verify_oauth_state-Signed, verify-create_oauth_state, Signed,
}

abbrev ana : Text
ana = codes "3f2504e0-4f89-41d3-9a0c-0305e82c3301"

abbrev ana_state : OauthState
ana_state = record {
  user_id = some ana;
  provider = some google;
  return_to = some (codes "/mail");
  issued_at = some 1700;
  nonce = some (codes "n0nce");
}

abbrev sign : Text → Text → Text
sign payload key = reverse (key ++ payload)

abbrev to_payload : OauthState → Text
to_payload state = codes "payload"

abbrev from_payload : Text → Option OauthState
from_payload t = if text_eq t (codes "payload") then some ana_state else none

-- Signed with another key.
forged :
    verify_oauth_state sign to_payload from_payload
      (some (codes "payload.daolyapyek"))
      (codes "other")
      1700000
    ≡ reject
unfolding verify_oauth_state
forged = refl

other_site : safe_return_path (some (codes "//evil.com")) settings_accounts ≡ settings_accounts
unfolding safe_return_path
other_site = refl

stays : safe_return_path (some (codes "/inbox?x=1")) settings_accounts ≡ codes "/inbox?x=1"
unfolding safe_return_path
stays = refl

verify_oauth_state-Signed_example :
    Signed sign to_payload from_payload (codes "payload.daolyapyek") (codes "key") 1700500 ana_state
unfolding verify_oauth_state is_uuid
verify_oauth_state-Signed_example =
    verify_oauth_state-Signed sign to_payload from_payload (codes "payload.daolyapyek")
      (codes "key") 1700500 ana_state refl

verify-create_oauth_state_example :
    (raw : Text) × (create_oauth_state sign to_payload from_payload ana google
        (some (codes "/mail"))
        (codes "key")
        1700400
        (codes "n0nce")
      ≡ ok raw)
    × (verify_oauth_state sign to_payload from_payload (some raw) (codes "key") 2300000
        ≡ ok ana_state)
unfolding is_uuid
verify-create_oauth_state_example =
    verify-create_oauth_state sign to_payload from_payload ana google (some (codes "/mail"))
      (codes "key") (codes "n0nce") 1700400 2300000 refl refl refl refl (ground arith)
      (ground arith)
