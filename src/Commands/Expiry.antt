-- ===== src/Commands/Expiry.antt =====
-- What becomes of a confirmation that is old, or that the user has declined in words.
use whatsapp_email_assistant.Common.{
  ℕ, ◌+◌, ◌<◌, ◌≡◌, refl, Bool, false, Option, none, some, arith, leb, Text,
}
use whatsapp_email_assistant.Resolver.{or_blank, Resolution, resolved, ambiguous, unresolved}
use whatsapp_email_assistant.Commands.{
  CommandIntent, ParsedCommand, PendingSend, Conversation, Services, State, Message,
  command_response, say,
}
use whatsapp_email_assistant.Commands.Chat.{window_ms, touch_conversation, take_pending_action}
use whatsapp_email_assistant.Commands.Planner.{plan}
use whatsapp_email_assistant.Commands.Plans.{carry_out_planned}
use whatsapp_email_assistant.Commands.Taps.{replied}
use whatsapp_email_assistant.Commands.Handle.{
  handle_text, run_plan, resolution_of, touched, noted_typed, needs_confirmation,
}
use whatsapp_email_assistant.Commands.Inbound.{handle_known}
use whatsapp_email_assistant.Commands.Slot.{pending_of, pending_of-touch_conversation}

module _ {S : Type 0} (svc : Services S) where
  -- A conversation that expires at the given time, with the services' state.
  abbrev pub expiring : Conversation → S → (at : ℕ) → State S
  expiring c s at = record { conversation = some (record c { expires_at = at }); services = s }

  -- When the conversation expires makes no difference to any message of its user. And a
  -- confirmation that is pending is there to be taken, however long ago it expired, when the
  -- message is handled within half an hour of its own time: the message itself has moved the expiry.
  pub handle_known-ignores_expiry :
      (now : ℕ) (c : Conversation) (s : S) (message : Message) (p : PendingSend)
      (long_ago later : ℕ)
      → c.pending ≡ some p
      → now < message.timestamp + window_ms
      → (handle_known svc now (expiring c s long_ago) message
          ≡ handle_known svc now (expiring c s later) message)
        × ((take_pending_action now
              (touch_conversation message.timestamp none ((expiring c s long_ago).conversation))).1
            ≡ some p)
  unfolding handle_known touch_conversation take_pending_action
  handle_known-ignores_expiry now c s message p long_ago later e early =
      (refl, rw (e, unexpired now message.timestamp early) refl)
    where
      unexpired : (now at : ℕ) → now < at + window_ms → leb (at + window_ms) now ≡ false
      unexpired now at h = ground (arith, h)

  touched_keeps :
      (st : State S) (message : Message) (r : Resolution)
      → pending_of (touched st message r).conversation ≡ pending_of st.conversation
  touched_keeps st message (resolved email _ _) =
      pending_of-touch_conversation message.timestamp (some email) st.conversation
  touched_keeps st message (ambiguous _ _) = refl
  touched_keeps st message (unresolved _) = refl

  -- A typed cancellation is answered "Cancelled. Nothing was sent.", whatever email it is about,
  -- and leaves what was pending where it was.
  pub typed_cancel-keeps_pending :
      (now : ℕ) (st : State S) (message : Message) (source : Text) (like_reply : Bool)
      → let parsed : ParsedCommand = record {
        intent = CommandIntent.cancel;
        source = source;
        looks_like_reply_body = like_reply;
      } in
        svc.parse_command (or_blank message.text) ≡ parsed
        → let r = handle_text svc now st message in
          (pending_of r.0.conversation ≡ pending_of st.conversation)
          × ((c : Option Conversation) × (r
                ≡ replied svc
                    (noted_typed svc (record st { conversation = c }) message parsed none)
                    (say "Cancelled. Nothing was sent.")
                    command_response
                    none))
  unfolding handle_text run_plan replied carry_out_planned plan needs_confirmation
  typed_cancel-keeps_pending now st message source like_reply e =
      let r = resolution_of svc now st message CommandIntent.cancel in
      (rw e (touched_keeps st message r), ((touched st message r).conversation, rw e refl))
