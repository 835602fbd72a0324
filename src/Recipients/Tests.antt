-- ===== src/Recipients/Tests.antt =====
-- Reading recipients.
use whatsapp_email_assistant.Common.{◌≡◌, refl, none, some, [], ◌∷◌, map, Text, codes}
use whatsapp_email_assistant.AppError.{ok, err}
use whatsapp_email_assistant.Recipients.Clean.{AreClean, parse_recipient_list-AreClean}
use whatsapp_email_assistant.Recipients.Again.{bare, listed}
use whatsapp_email_assistant.Recipients.Roundtrip.{addresses_of, parse_recipient_list-again}
use whatsapp_email_assistant.Recipients.{
  EmailAddress, parse_recipient_list, parse_recipient, parse_parts, split_addresses, is_address,
  match_named, lowercase_domain, has_control_character, refuse,
}

abbrev typed : Text
typed = codes " \"Chen, Bo\" <Bo@ACME.com>; ann@x.org, bo@acme.com"

two_people :
    parse_recipient_list typed 10
    ≡ ok (
        (record { address = codes "Bo@acme.com"; name = some (codes "Chen, Bo") })
        ∷ (record { address = codes "ann@x.org"; name = none })
        ∷ [])
unfolding parse_recipient_list parse_recipient parse_parts split_addresses is_address match_named
    lowercase_domain has_control_character
two_people = refl

-- The example of the comment on parseRecipientList is refused.
comma_in_a_name :
    parse_recipient_list (codes "Chen, Alice <alice@x.com>") 10
    ≡ err (refuse (codes "“Chen” is not an email address I can send to."))
unfolding parse_recipient_list parse_recipient parse_parts split_addresses is_address match_named
    lowercase_domain has_control_character
comma_in_a_name = refl

abbrev bo : EmailAddress
bo = record { address = codes "Bo@acme.com"; name = some (codes "Chen, Bo") }

abbrev ann : EmailAddress
ann = record { address = codes "ann@x.org"; name = none }

-- A header in a display name.
injection :
    parse_recipient_list (codes "Al\r\nBcc: x@evil.com <al@acme.com>") 10
    ≡ err (refuse (codes "That list has something odd in it."))
unfolding parse_recipient_list has_control_character
injection = refl

parse_recipient_list-AreClean_example : AreClean [] 10 (bo ∷ ann ∷ [])
parse_recipient_list-AreClean_example =
    parse_recipient_list-AreClean typed 10 (bo ∷ ann ∷ []) two_people

parse_recipient_list-again_example :
    parse_recipient_list (listed (addresses_of (bo ∷ ann ∷ []))) 10 ≡ ok (map bare (bo ∷ ann ∷ []))
parse_recipient_list-again_example = parse_recipient_list-again typed 10 bo (ann ∷ []) two_people
