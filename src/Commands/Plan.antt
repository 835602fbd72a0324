-- ===== src/Commands/Plan.antt =====
-- apps/worker/src/services/response-planner.ts: the types of a plan.
use whatsapp_email_assistant.Common.{Bool, Option, none, some, ◌++◌, String, Text, codes}
use whatsapp_email_assistant.Undo.{MailOperation}
use whatsapp_email_assistant.Resolver.{Resolution}
use whatsapp_email_assistant.Commands.{CommandIntent, Payload, PendingCompose}

pub data PlannedEffect : Type 0 where
  mutate : MailOperation → PlannedEffect
  reply_with : (body : Text) (reply_all : Bool) (subject : Option Text) → PlannedEffect
  summarize speak attachments undo discard_files : PlannedEffect
  translate move_to snooze_until : Text → PlannedEffect
  file_under : (add remove : Option Text) → PlannedEffect
  compose : PendingCompose → PlannedEffect
  draft : (instruction : Option Text) → PlannedEffect

pub data FollowUp : Type 0 where
  nothing await_confirmation await_reply_text queue_send queue_action queue_query : FollowUp

pub record PlannedResponse : Type 0 where
  pub payload : Payload
  pub follow_up : FollowUp
  pub effect : Option PlannedEffect
  pub email_message_id : Option Text

-- `send_from` is the id and the address of the mailbox that was chosen.
pub record PlanContext : Type 0 where
  pub intent : CommandIntent
  pub resolution : Resolution
  pub subject : Option Text
  pub looks_like_reply_body : Bool
  pub raw_text : Text
  pub send_from : Option (Text × Text)

abbrev pub named : Option Text → String → Text
named none other = codes other
named (some s) other = s

abbrev pub starred : String → Text → String → Payload
starred before s behind = Payload.text (codes before ++ s ++ codes behind)

abbrev pub no_effect : Payload → FollowUp → Option Text → PlannedResponse
no_effect payload follow_up email = record {
  payload = payload;
  follow_up = follow_up;
  effect = none;
  email_message_id = email;
}

abbrev pub with_effect : Payload → FollowUp → PlannedEffect → Option Text → PlannedResponse
with_effect payload follow_up effect email = record {
  payload = payload;
  follow_up = follow_up;
  effect = some effect;
  email_message_id = email;
}
