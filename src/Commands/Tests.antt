-- ===== src/Commands/Tests.antt =====
-- A chat over services that keep a log, and the theorems about it on one conversation.
use whatsapp_email_assistant.Common.{
  ℕ, ◌+◌, ◌*◌, ◌≡◌, refl, true, false, Option, none, some, List, [], ◌∷◌, ◌++◌, arith,
  if◌then◌else◌, Text, codes, text_eq,
}
use whatsapp_email_assistant.AppError.{ok, err, unknown}
use whatsapp_email_assistant.ActionPayload.{decode_action_payload, decode_parts}
use whatsapp_email_assistant.Resolver.{resolved, continuing, resolve}
use whatsapp_email_assistant.Undo.Taps.{PayloadAction, action_text, interpret_tap}
use whatsapp_email_assistant.Commands.{
  ComposeIntent, CommandIntent, ParsedCommand, reply_with, Conversation, Services, State, Message,
  MessageType, staged, say,
}
use whatsapp_email_assistant.Commands.Overlap.{
  confirmation, finish_confirmation, overlap-composes_twice,
}
use whatsapp_email_assistant.Commands.Chat.{
  read_pending, window_ms, touch_conversation, take_pending_action, set_pending_action,
}
use whatsapp_email_assistant.Commands.Attempt.{attempt, operation_kind}
use whatsapp_email_assistant.Commands.Plan.{mutate, PlanContext}
use whatsapp_email_assistant.Commands.Planner.{plan}
use whatsapp_email_assistant.Commands.Compose.{plan_compose, join_with, non_empty}
use whatsapp_email_assistant.Commands.Taps.{carry_out_send, tap_email, handle_tap, replied}
use whatsapp_email_assistant.Commands.Plans.{carry_out_plan, carry_out_planned}
use whatsapp_email_assistant.Commands.Handle.{
  needs_confirmation, handle_text, run_plan, resolution_of, normalize_verification_code,
}
use whatsapp_email_assistant.Commands.Inbound.{handle_known, handle_voice_note, handle_file, tap_of}
use whatsapp_email_assistant.Commands.Slot.{pending_of, EmptyOr, handle_tap-EmptyOr}
use whatsapp_email_assistant.Commands.Spent.{IsLive, SendsNothing, confirm-sends_once}
use whatsapp_email_assistant.Commands.Expiry.{expiring, handle_known-ignores_expiry}
use whatsapp_email_assistant.Commands.Asks.{IsSound, plan-IsSound}
use whatsapp_email_assistant.Commands.Honest.{IsHonest, called, carry_out_planned-IsHonest}
use whatsapp_email_assistant.Undo.{MailOperation}
use whatsapp_email_assistant.Commands.Told.{bcc_of, plan_compose-hides}

abbrev Log : Type 0
Log = List Text

abbrev log : Log → Text → Log
log s t = s ++ t ∷ []

abbrev command : CommandIntent → ParsedCommand
command intent = record { intent = intent; source = codes "rules"; looks_like_reply_body = false }

abbrev parsed : Text → ParsedCommand
parsed t =
    if text_eq t (codes "cancel")
    then command CommandIntent.cancel
    else if text_eq t (codes "delete")
    then command (CommandIntent.delete none)
    else if text_eq t (codes "draft a no")
    then command (CommandIntent.draft none)
    else command (CommandIntent.unknown t)

abbrev services : Services Log
services = record {
  parse_command = parsed;
  parse_recipient_list = λ t. ok (t ∷ []);
  find_subject = λ s email. if text_eq email (codes "gone") then none else some (codes "Lunch");
  find_email_by_delivery = λ s id. none;
  find_recent_candidates = λ s. [];
  pick_mailbox = λ s hint. ok (codes "acc", codes "me@x.org");
  resolve_recipient = λ s t. ok t;
  hash_verification_code = λ c. c;
  record_inbound = λ s m. s;
  record_resolution = λ s id note failed. s;
  redeem_phone_code = λ s c. (s, ok true);
  flush_deferred = λ s at. s;
  reply = λ s input. (s, ok tt);
  compose_reply = λ s email body all subject. (log s (codes "reply " ++ body), ok 1);
  compose_forward = λ s email recipient. (log s (codes "forward " ++ recipient), ok 0);
  compose_new = λ s request. (log s (codes "new " ++ request.body), ok 2);
  apply = λ s email operation. (log s (operation_kind operation), ok tt);
  cancel_snooze = λ s email. s;
  record_undo = λ s email note. s;
  undo = λ s. (s, ok (codes "Stopped it"));
  discard_staged = λ s. (s, ok 0);
  deliver_attachments = λ s email. (s, ok 0);
  apply_label = λ s email add remove. (s, ok ([], []));
  snooze_until = λ s email until. (s, ok until);
  move_to = λ s email folder. (s, ok folder);
  summarize_email = λ s email. (s, ok []);
  translate_email = λ s email language. (s, ok []);
  record_aloud = λ s email. (s, ok []);
  draft_reply = λ s email instruction. (s, ok (codes "No, thank you."));
  answer_query = λ s intent. (s, ok none);
  transcribe = λ s id. (s, err unknown);
  stage_file = λ s m. (s, ok (staged 1));
}

-- A draft reply to `m1` that was offered at 1000.
abbrev offered : Conversation
offered = record {
  active_email_message_id = some (codes "m1");
  pending = some (reply_with (codes "m1") (codes "No, thank you."));
  expires_at = 1000 + window_ms;
  last_inbound_at = 1000;
}

abbrev chat : State Log
chat = record { conversation = some offered; services = [] }

abbrev message_at : ℕ → Option Text → Option Text → Message
message_at at words button = record {
  id = codes "wamid.9";
  type = MessageType.text;
  media = none;
  text = words;
  context_id = none;
  interactive_id = button;
  timestamp = at;
}

-- The draft is asked for, confirmed and confirmed again: one reply is composed.
abbrev asked : State Log
asked =
    (handle_known services 1000
      (record chat { conversation = some (record offered { pending = none }) })
      (message_at 1000 (some (codes "draft a no")) none)).0

abbrev confirmed : State Log → State Log
confirmed st =
    (handle_known services 2000 st (message_at 2000 none (some (codes "act:confirm_send:m1")))).0

confirmed_run : (confirmed (confirmed asked)).services ≡ codes "reply No, thank you." ∷ []
unfolding handle_known handle_voice_note handle_file tap_of decode_action_payload decode_parts
    action_text handle_text run_plan resolution_of resolve carry_out_planned carry_out_plan plan
    needs_confirmation handle_tap tap_email carry_out_send interpret_tap replied attempt
    touch_conversation take_pending_action set_pending_action
confirmed_run = refl

handle_tap-EmptyOr_example :
    EmptyOr
      (pending_of
        (handle_tap services 2000 chat
          (message_at 2000 none none)
          PayloadAction.archive
          (codes "m1")).0.conversation)
      (pending_of chat.conversation)
handle_tap-EmptyOr_example =
    handle_tap-EmptyOr services 2000 chat (message_at 2000 none none) PayloadAction.archive
      (codes "m1")

live : IsLive 2000 (message_at 2000 none none) chat.conversation
live = record { in_time = omega arith; unexpired = λ d e. ground (arith, e) }

confirm-sends_once_example :
    let st1 =
      (handle_tap services 2000 chat
        (message_at 2000 none none)
        PayloadAction.confirm_send
        (codes "m1")).0 in
    SendsNothing services st1 (message_at 2001 none none) (
      handle_tap services 2001 st1
        (message_at 2001 none none)
        PayloadAction.confirm_send
        (codes "m2"))
confirm-sends_once_example =
    confirm-sends_once services 2000 chat (message_at 2000 none none) (codes "m1") live refl 2001
      (message_at 2001 none none) (codes "m2")

overlap-composes_twice_example :
    let target = codes "m1" in
    let first = confirmation services 2000 chat target in
    let second = finish_confirmation services first target (read_pending 2001 chat.conversation) in
    (second.services ≡ codes "reply No, thank you." ∷ codes "reply No, thank you." ∷ [])
    × ((confirmation services 2001 first target).services ≡ codes "reply No, thank you." ∷ [])
unfolding read_pending
overlap-composes_twice_example =
    overlap-composes_twice services 2000 2001 chat
      (reply_with (codes "m1") (codes "No, thank you.")) refl refl refl

abbrev a_day : ℕ
a_day = 86400000

-- The confirmation is a day old.
handle_known-ignores_expiry_example :
    (handle_known services a_day (expiring services offered [] 1000) (message_at a_day none none)
      ≡ handle_known services a_day
          (expiring services offered [] (2 * a_day))
          (message_at a_day none none))
    × ((take_pending_action a_day
          (touch_conversation a_day none ((expiring services offered [] 1000).conversation))).1
        ≡ some (reply_with (codes "m1") (codes "No, thank you.")))
handle_known-ignores_expiry_example =
    handle_known-ignores_expiry services a_day offered [] (message_at a_day none none)
      (reply_with (codes "m1") (codes "No, thank you.")) 1000 (2 * a_day) refl (omega arith)

abbrev cancel : Message
cancel = message_at 2000 (some (codes "cancel")) none

abbrev context : CommandIntent → PlanContext
context intent = record {
  intent = intent;
  resolution = resolved (codes "m1") 3 continuing;
  subject = some (codes "Lunch");
  looks_like_reply_body = false;
  raw_text = [];
  send_from = none;
}

plan-IsSound_example :
    IsSound
      (needs_confirmation (CommandIntent.delete none))
      (plan (λ t. ok (t ∷ [])) (context (CommandIntent.delete none)))
plan-IsSound_example = plan-IsSound (λ t. ok (t ∷ [])) (context (CommandIntent.delete none))

abbrev email_to : Option Text → ComposeIntent
email_to bcc = record {
  to =
      codes
        "alice.anderson@engineering.acme.com, bob.benson@engineering.acme.com, carol.chen@engineering.acme.com";
  cc = none;
  bcc = bcc;
  sender = none;
  subject = none;
  body = some (codes "Hello");
}

plan_compose-hides_example :
    let changed =
      plan_compose
        (λ t. ok (t ∷ []))
        (record (email_to none) { bcc = some (codes "eve@x.org") })
        none in
    (changed.payload ≡ (plan_compose (λ t. ok (t ∷ [])) (email_to none) none).payload)
    × (bcc_of changed.effect ≡ non_empty (join_with (codes ", ") (codes "eve@x.org" ∷ [])))
plan_compose-hides_example =
    plan_compose-hides (λ t. ok (t ∷ [])) (email_to none) none (some (codes "eve@x.org"))
      ((email_to none).to ∷ []) [] [] (codes "eve@x.org" ∷ []) b'H' (codes "ello") refl refl refl
      refl refl (omega arith)

code_run : normalize_verification_code (some (codes " abcd-2345 ")) ≡ some (codes "ABCD2345")
unfolding normalize_verification_code
code_run = refl

no_code_run : normalize_verification_code (some (codes "abcd-1345")) ≡ none
unfolding normalize_verification_code
no_code_run = refl

abbrev provider_down : Services Log
provider_down = record services {
  apply = λ s email operation. (log s (codes "tried"), err unknown);
}

carry_out_planned-IsHonest_example :
    IsHonest chat.conversation
      (called provider_down [] (codes "m1") (mutate MailOperation.archive))
      (carry_out_planned provider_down chat
        (some (codes "m1"))
        (some (mutate MailOperation.archive))
        (say "Archived."))
carry_out_planned-IsHonest_example =
    carry_out_planned-IsHonest provider_down chat b'm' (codes "1") (mutate MailOperation.archive)
      (say "Archived.")
