-- ===== src/Commands/Inbound.antt =====
-- A message as it arrives: the unknown number, the voice note, the file, and then the command.
use whatsapp_email_assistant.Common.{
  ℕ, Bool, true, Option, none, some, List, [], ◌∷◌, ◌++◌, if◌then◌else◌, find, count, Text, codes,
  text_eq, trim,
}
use whatsapp_email_assistant.AppError.{Result, ok, err, app_error_from}
use whatsapp_email_assistant.ActionPayload.{ActionPayload, decode_action_payload}
use whatsapp_email_assistant.Resolver.{filled, or_blank}
use whatsapp_email_assistant.Undo.Taps.{PayloadAction, action_text}
use whatsapp_email_assistant.Commands.{
  Payload, Services, State, Failure, because, code, Message, command_response, error,
  StagingOutcome, staged, duplicate, refused, voice_note, stage_file, say,
}
use whatsapp_email_assistant.Commands.Attempt.{user_facing_failure, after}
use whatsapp_email_assistant.Commands.Chat.{touch_conversation}
use whatsapp_email_assistant.Commands.Taps.{replied, handle_tap}
use whatsapp_email_assistant.Commands.Handle.{
  normalize_verification_code, is_voice_note, is_file, media_id, describe_held, handle_text,
}

abbrev pub actions : List PayloadAction
actions =
    PayloadAction.reply ∷ PayloadAction.reply_yes ∷ PayloadAction.reply_no ∷ PayloadAction.archive
    ∷ PayloadAction.delete ∷ PayloadAction.confirm_delete ∷ PayloadAction.confirm_send
    ∷ PayloadAction.forward ∷ PayloadAction.summarize ∷ PayloadAction.translate
    ∷ PayloadAction.read_aloud ∷ PayloadAction.mark_read ∷ PayloadAction.mark_important
    ∷ PayloadAction.open_thread ∷ PayloadAction.cancel ∷ PayloadAction.undo ∷ PayloadAction.more
    ∷ []

abbrev pub pressed : Option ActionPayload → Option (PayloadAction × Text)
pressed none = none
pressed (some p) = elim (find (λ a. text_eq (action_text a) p.action) actions) [
  | none ↦ none
  | some action ↦ some (action, p.target_id)
]

-- The button of a message, if it is one of ours.
unfoldable pub tap_of : Option Text → Option (PayloadAction × Text)
tap_of none = none
tap_of (some id) = pressed (decode_action_payload id)

abbrev pub refusal : StagingOutcome → Option Failure
refusal (refused _) = some (because (codes "refused"))
refusal _ = none

abbrev pub first_failure : Option Failure → Option Failure → Option Failure
first_failure (some f) g = some f
first_failure none g = g

-- A refusal that a failed staging amounts to.
abbrev pub staging_outcome : Result StagingOutcome → StagingOutcome × Option Failure
staging_outcome (ok outcome) = (outcome, none)
staging_outcome (err e) =
    (refused (user_facing_failure (app_error_from e)), some (code ((app_error_from e).code)))

module _ {S : Type 0} where
  -- What goes on after an answer that was sent.
  abbrev pub and_then {ℓ} : {A : Type ℓ} → State S × Result (Unit {0}) → A → State S × Result A
  and_then (st, ok _) a = (st, ok a)
  and_then (st, err e) a = (st, err e)

  abbrev pub heard :
      Services S → State S → Message → S × Result Text → State S × Result (Option Message)
  heard svc st message (s, err e) =
      let failure = app_error_from e in
      and_then
        (replied svc
          (record st {
            services = svc.record_resolution s message.id voice_note (some (code failure.code));
          })
          (Payload.text (user_facing_failure failure)) error none)
        none
  heard svc st message (s, ok transcript) =
      and_then
        (replied svc (record st { services = s })
          (Payload.text (codes "I heard: _" ++ transcript ++ codes "_")) command_response none)
        (some (record message { text = some transcript }))

  abbrev pub hear : Services S → State S → Message → Option Text → State S × Result (Option Message)
  hear svc st message none = (st, ok none)
  hear svc st message (some id) = heard svc st message (svc.transcribe st.services id)

  -- `handleVoiceNote`: the message as it was said, unless it has been answered.
  unfoldable pub handle_voice_note :
      Services S → State S → Message → State S × Result (Option Message)
  handle_voice_note svc st message =
      let spoken = hear svc st message (media_id message.media) in
      if is_voice_note message.type message.media then spoken else (st, ok (some message))

  abbrev pub answer_file :
      Services S → State S → Message → StagingOutcome → State S × Result (Option Message)
  answer_file svc st message duplicate = (st, ok none)
  answer_file svc st message (refused reason) =
      and_then (replied svc st (Payload.text reason) error none) none
  answer_file svc st message (staged count) = elim (trim (or_blank message.text)) [
    | [] ↦ and_then (replied svc st (Payload.text (describe_held count)) command_response none) none
    | ◌∷◌ c s ↦ (st, ok (some message))
  ]

  abbrev pub file_staged :
      Services S → State S → Message → S × Result StagingOutcome → State S × Result (Option Message)
  file_staged svc st message (s, r) =
      let (outcome, failed) = staging_outcome r in
      answer_file svc
        (record st {
          services =
              svc.record_resolution s message.id stage_file
                (first_failure failed (refusal outcome));
        })
        message outcome

  -- `handleFile`: a caption is a command still.
  unfoldable pub handle_file : Services S → State S → Message → State S × Result (Option Message)
  handle_file svc st message =
      let held = file_staged svc st message (svc.stage_file st.services message) in
      if is_file message.type message.media then held else (st, ok (some message))

  abbrev pub handle_file_of :
      Services S → State S → Option Message → State S × Result (Option Message)
  handle_file_of svc st none = (st, ok none)
  handle_file_of svc st (some message) = handle_file svc st message

  abbrev pub handle_tap_or_text :
      Services S
      → ℕ
      → State S
      → Message
      → Option (PayloadAction × Text)
      → State S × Result (Unit {0})
  handle_tap_or_text svc now st message (some (action, target)) =
      handle_tap svc now st message action target
  handle_tap_or_text svc now st message none = handle_text svc now st message

  abbrev pub handle_command :
      Services S → ℕ → State S → Option Message → State S × Result (Unit {0})
  handle_command svc now st none = (st, ok tt)
  handle_command svc now st (some message) =
      handle_tap_or_text svc now st message (tap_of (filled message.interactive_id))

  -- What `handle` does for a known sender, once the message is recorded and the conversation
  -- touched.
  abbrev pub handle_touched : Services S → ℕ → State S → Message → State S × Result (Unit {0})
  handle_touched svc now st message =
      after (after (handle_voice_note svc st message) (handle_file_of svc)) (handle_command svc now)

  unfoldable pub handle_known : Services S → ℕ → State S → Message → State S × Result (Unit {0})
  handle_known svc now st message =
      handle_touched svc now
        (record {
          conversation = touch_conversation message.timestamp none st.conversation;
          services = svc.flush_deferred (svc.record_inbound st.services message) message.timestamp;
        })
        message

  abbrev pub greet : Services S → State S → S × Result Bool → State S × Result (Unit {0})
  greet svc st (s, ok true) =
      replied svc (record st { services = s })
        (say "You're connected. I'll send your email here — reply to any message to answer it.")
        command_response none
  greet svc st (s, _) = (record st { services = s }, ok tt)

  abbrev pub verify_phone : Services S → State S → Option Text → State S × Result (Unit {0})
  verify_phone svc st none = (st, ok tt)
  verify_phone svc st (some c) =
      greet svc st (svc.redeem_phone_code st.services (svc.hash_verification_code c))

  -- A number with no account: the only message that is read is a verification code.
  unfoldable pub handle_unknown : Services S → State S → Message → State S × Result (Unit {0})
  handle_unknown svc st message =
      verify_phone svc (record st { services = svc.record_inbound st.services message })
        (normalize_verification_code message.text)
