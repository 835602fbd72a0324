-- ===== src/ActionPayload/Tests.antt =====
-- Runs of the action payloads, and the theorems about them on a button of a card.
use whatsapp_email_assistant.Common.{◌≡◌, refl, false, none, some, Text, codes}
use whatsapp_email_assistant.AppError.{ok}
use whatsapp_email_assistant.ActionPayload.{
  ActionPayload, encode_action_payload, decode_action_payload, decode_parts, requires_confirmation,
}

abbrev translate_button : ActionPayload
translate_button = record {
  action = codes "translate";
  target_id = codes "7b3f-01";
  arg = some (codes "es");
}

encode_run : encode_action_payload translate_button ≡ ok (codes "act:translate:7b3f-01:es")
unfolding encode_action_payload
encode_run = refl

decode_extra_part : decode_action_payload (codes "act:reply:1:2:3") ≡ none
unfolding decode_action_payload decode_parts
decode_extra_part = refl

decode_empty_arg : decode_action_payload (codes "act:reply:1:") ≡ none
unfolding decode_action_payload decode_parts
decode_empty_arg = refl

confirm_delete_acts : requires_confirmation (codes "confirm_delete") ≡ false
unfolding requires_confirmation
confirm_delete_acts = refl

abbrev undo_id : Text
undo_id = codes "act:undo:last"

decode_run :
    decode_action_payload undo_id
    ≡ some (record { action = codes "undo"; target_id = codes "last"; arg = none })
unfolding decode_action_payload decode_parts
decode_run = refl
