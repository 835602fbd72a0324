-- ===== src/Commands/Handle.antt =====
-- A message from start to end: who sent it, the voice note and the file, and the typed command.
use whatsapp_email_assistant.Common.{
  ℕ, Bool, true, false, not, ◌&&◌, ◌||◌, Option, none, some, ◌++◌, leb, ◌==◌, if◌then◌else◌, length,
  all, filter, count, Text, codes, is_space, trim, to_upper,
}
use whatsapp_email_assistant.AppError.{Result, ok, err, ◌>>=◌, AppError, app_error_from}
use whatsapp_email_assistant.Resolver.{Resolution, resolved, filled, or_blank, resolve}
use whatsapp_email_assistant.Commands.{
  ComposeIntent, CommandIntent, ParsedCommand, Payload, forward_to, Conversation, Services, State,
  Answer, Failure, code, Message, MessageType, image, document, audio, video, Media, ReplyKind,
  command_response, reply_confirmation, error, typed,
}
use whatsapp_email_assistant.Commands.Attempt.{
  generic_failure, failed_with, attempt, user_facing_failure,
}
use whatsapp_email_assistant.Commands.Chat.{touch_conversation, set_pending_action}
use whatsapp_email_assistant.Commands.Plan.{PlannedResponse}
use whatsapp_email_assistant.Commands.Planner.{plan}
use whatsapp_email_assistant.Commands.Taps.{keeping, shown, replied}
use whatsapp_email_assistant.Commands.Plans.{carry_out_planned}

-- `needsConfirmation` of the command parser.
unfoldable pub needs_confirmation : CommandIntent → Bool
needs_confirmation (CommandIntent.delete _) = true
needs_confirmation (CommandIntent.forward _ _) = true
needs_confirmation (CommandIntent.compose _) = true
needs_confirmation _ = false

-- `namedTargetOf`.
abbrev pub named_target_of : CommandIntent → Option Text
named_target_of (CommandIntent.reply _ target _ _) = target
named_target_of (CommandIntent.archive target) = target
named_target_of (CommandIntent.delete target) = target
named_target_of (CommandIntent.summarize target) = target
named_target_of _ = none

-- `MailboxQueryService.handles`.
abbrev pub is_query : CommandIntent → Bool
is_query (CommandIntent.search _) = true
is_query (CommandIntent.question _) = true
is_query CommandIntent.list_mailboxes = true
is_query CommandIntent.list_labels = true
is_query CommandIntent.list_folders = true
is_query CommandIntent.list_today = true
is_query CommandIntent.list_unread = true
is_query CommandIntent.list_urgent = true
is_query CommandIntent.list_deadlines = true
is_query _ = false

-- `normalizeVerificationCode`: eight characters of `[2-9A-HJ-NP-Z]`, once spaces and dashes are gone.
abbrev pub code_char : ℕ → Bool
code_char c =
    (leb b'2' c && leb c b'9')
    || (leb b'A' c && leb c b'H')
    || (leb b'J' c && leb c b'N')
    || (leb b'P' c && leb c b'Z')

abbrev pub cleaned : Text → Text
cleaned s = filter (λ c. not (is_space c || c == b'-')) (to_upper (trim s))

unfoldable pub normalize_verification_code : Option Text → Option Text
normalize_verification_code none = none
normalize_verification_code (some text) =
    if (length (cleaned text) == 8) && all code_char (cleaned text)
    then some (cleaned text)
    else none

abbrev pub is_voice_note : MessageType → Option Media → Bool
is_voice_note audio (some media) = media.voice
is_voice_note type media = false

-- `AttachmentStagingService.isFile`.
abbrev pub is_file : MessageType → Option Media → Bool
is_file type none = false
is_file image (some media) = true
is_file document (some media) = true
is_file video (some media) = true
is_file audio (some media) = not media.voice
is_file type (some media) = false

abbrev pub media_id : Option Media → Option Text
media_id none = none
media_id (some media) = filled (some media.id)

-- `describeHeld`.
abbrev pub describe_held : ℕ → Text
describe_held count =
    (if count == 1
      then codes "Got it — I'm holding that file."
      else codes "Got it — I'm holding " ++ shown count ++ codes " files.")
    ++ codes " The next email you send will carry "
    ++ (if count == 1 then codes "it" else codes "them")
    ++ codes
        ".\n\nTry _reply saying here it is_, or _email alice@acme.com saying here it is_. Say _drop the files_ to forget "
    ++ (if count == 1 then codes "it" else codes "them")
    ++ codes "."

abbrev pub failure_of : AppError → Answer
failure_of e = failed_with (user_facing_failure e) (code e.code)

abbrev pub or_generic : Option Payload → Payload
or_generic none = Payload.text generic_failure
or_generic (some payload) = payload

abbrev pub active_of : Option Conversation → Option Text
active_of none = none
active_of (some c) = c.active_email_message_id

abbrev pub expiry_of : Option Conversation → Option ℕ
expiry_of none = none
expiry_of (some c) = some c.expires_at

abbrev pub confirmation_kind : CommandIntent → ReplyKind
confirmation_kind intent =
    if needs_confirmation intent then reply_confirmation else command_response

-- What was settled on is remembered.
abbrev pub touched_by : Message → Resolution → Option Conversation → Option Conversation
touched_by message (resolved email _ _) c = touch_conversation message.timestamp (some email) c
touched_by message _ c = c

module _ {S : Type 0} where
  abbrev pub noted_typed : Services S → State S → Message → ParsedCommand → Option Failure → State S
  noted_typed svc st message parsed failed = record st {
    services =
        svc.record_resolution st.services message.id (typed parsed.intent parsed.source) failed;
  }

  -- The answer is noted, then sent.
  abbrev pub answer_with :
      Services S
      → Message
      → ParsedCommand
      → ReplyKind
      → Option Text
      → State S × Answer
      → State S × Result (Unit {0})
  answer_with svc message parsed kind email (st, answer) =
      replied svc (noted_typed svc st message parsed answer.failed) answer.payload kind email

  -- `answerQuery`.
  abbrev pub answer_query :
      Services S → State S → Message → ParsedCommand → State S × Result (Unit {0})
  answer_query svc st message parsed =
      answer_with svc message parsed command_response none
        (keeping st.conversation (attempt (svc.answer_query st.services parsed.intent) or_generic))

  -- Which email the message is about.
  unfoldable pub resolution_of : Services S → ℕ → State S → Message → CommandIntent → Resolution
  resolution_of svc now st message intent =
      resolve (record { context_id = message.context_id; interactive_id = message.interactive_id })
        (record {
          delivery_lookup = svc.find_email_by_delivery st.services;
          active_email_message_id = active_of st.conversation;
          active_state_expires_at = expiry_of st.conversation;
          recent = svc.find_recent_candidates st.services;
          named_target = named_target_of intent;
          now = now;
        })

  -- The mailbox to send from, and the addresses behind the names, for a new email.
  abbrev pub prepared_compose :
      Services S → S → ComposeIntent → Result (CommandIntent × Option (Text × Text))
  prepared_compose svc s intent = svc.pick_mailbox s intent.sender >>= λ chosen.
      svc.resolve_recipient s intent.to >>= λ to.
      ok (CommandIntent.compose (record intent { to = to }), some chosen)

  abbrev pub prepared :
      Services S → S → CommandIntent → Result (CommandIntent × Option (Text × Text))
  prepared svc s (CommandIntent.compose intent) = prepared_compose svc s intent
  prepared svc s intent = ok (intent, none)

  abbrev pub subject_of : Services S → S → Resolution → Option Text
  subject_of svc s (resolved email _ _) = filled (svc.find_subject s email)
  subject_of svc s _ = none

  abbrev pub touched : State S → Message → Resolution → State S
  touched st message resolution = record st {
    conversation = touched_by message resolution st.conversation;
  }

  -- A forward is kept for the tap once its email is known.
  abbrev pub keep_forward : State S → CommandIntent → Resolution → State S
  keep_forward st (CommandIntent.forward recipient _) (resolved email _ _) = record st {
    conversation = set_pending_action (forward_to email recipient) st.conversation;
  }
  keep_forward st intent resolution = st

  abbrev pub planned_for :
      Services S → S → Message → ParsedCommand → Resolution → Option (Text × Text) → PlannedResponse
  planned_for svc s message parsed resolution send_from = plan svc.parse_recipient_list (record {
    intent = parsed.intent;
    resolution = resolution;
    subject = subject_of svc s resolution;
    looks_like_reply_body = parsed.looks_like_reply_body;
    raw_text = or_blank message.text;
    send_from = send_from;
  })

  -- The plan is carried out, then answered.
  unfoldable pub run_plan :
      Services S
      → State S
      → Message
      → ParsedCommand
      → Resolution
      → Option (Text × Text)
      → State S × Result (Unit {0})
  run_plan svc st message parsed resolution send_from =
      let planned = planned_for svc st.services message parsed resolution send_from in
      let ready = keep_forward (touched st message resolution) parsed.intent resolution in
      answer_with svc message parsed (confirmation_kind parsed.intent) planned.email_message_id
        (carry_out_planned svc ready planned.email_message_id planned.effect planned.payload)

  abbrev pub run_prepared :
      Services S
      → State S
      → Message
      → ParsedCommand
      → Resolution
      → Result (CommandIntent × Option (Text × Text))
      → State S × Result (Unit {0})
  run_prepared svc st message parsed resolution (err e) =
      answer_with svc message parsed error none (st, failure_of (app_error_from e))
  run_prepared svc st message parsed resolution (ok (intent, send_from)) =
      run_plan svc st message (record parsed { intent = intent }) resolution send_from

  -- `handleText`. The named target and the resolution are those of the intent as it was typed.
  unfoldable pub handle_text : Services S → ℕ → State S → Message → State S × Result (Unit {0})
  handle_text svc now st message =
      let parsed = svc.parse_command (or_blank message.text) in
      if is_query parsed.intent
      then answer_query svc st message parsed
      else run_prepared svc st message parsed (resolution_of svc now st message parsed.intent)
          (prepared svc st.services parsed.intent)
