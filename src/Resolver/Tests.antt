-- ===== src/Resolver/Tests.antt =====
-- Runs of the resolution, and the theorems about it on a chat with two senders.
use whatsapp_email_assistant.Common.{◌≡◌, refl, none, some, List, [], ◌∷◌, Text, codes}
use whatsapp_email_assistant.ActionPayload.{decode_action_payload, decode_parts}
use whatsapp_email_assistant.Threading.{unseen}
use whatsapp_email_assistant.Resolver.{
  ResolutionCandidate, InboundMessage, ResolutionContext, resolved, tapped, is_hit, match_by_name,
  resolve,
}
use whatsapp_email_assistant.Resolver.Evidence.{Evidence}

abbrev from_sender : Text → Text → Text → ResolutionCandidate
from_sender id address name = record {
  email_message_id = id;
  from_address = address;
  from_name = some name;
  subject = codes "Hi";
  received_at = 0;
  aliases = [];
}

abbrev recent : List ResolutionCandidate
recent =
    from_sender (codes "m1") (codes "Sarah@acme.com") (codes "Sarah Chen")
    ∷ from_sender (codes "m2") (codes "sam@x.org") (codes "Samantha Fox")
    ∷ from_sender (codes "m3") (codes "sarah@acme.com") (codes "Sarah Chen")
    ∷ []

abbrev quiet : InboundMessage
quiet = record { context_id = none; interactive_id = none }

abbrev asking : Text → ResolutionContext
asking name = record {
  delivery_lookup = λ _. none;
  active_email_message_id = none;
  active_state_expires_at = none;
  recent = recent;
  named_target = some name;
  now = 100;
}

-- A part of a word is no match.
samanth_run : match_by_name (codes "samanth") recent ≡ []
unfolding match_by_name unseen is_hit
samanth_run = refl

tap_run :
    resolve (record quiet { interactive_id = some (codes "act:reply:m2") }) (asking (codes "sarah"))
    ≡ resolved (codes "m2") 2 (tapped (codes "reply"))
unfolding resolve decode_action_payload decode_parts
tap_run = refl
