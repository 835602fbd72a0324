-- ===== src/Commands/Spent.antt =====
-- A confirmation is spent once: a second one that comes after it composes nothing.
use whatsapp_email_assistant.Common.{
  ℕ, ◌+◌, ◌<◌, ◌≡◌, refl, ◌∙◌, ◌≢◌, inl, inr, Bool, true, false, ◌||◌, Option, none, some, arith,
  leb, Bool-cases, Option-cases, Text, codes, text_eq,
}
use whatsapp_email_assistant.AppError.{Result, app_error, not_found}
use whatsapp_email_assistant.Undo.Taps.{PayloadAction, action_text, interpret_tap}
use whatsapp_email_assistant.Commands.{
  Payload, Conversation, Services, State, Failure, because, Message, ReplyKind, command_response,
  reply_confirmation,
}
use whatsapp_email_assistant.Commands.Chat.{window_ms, touch_conversation}
use whatsapp_email_assistant.Commands.Attempt.{user_facing_failure}
use whatsapp_email_assistant.Commands.Taps.{
  compose_target, expired_confirmation, carry_out_send, carry_out_compose_tap, replied, noted,
  tap_email, handle_tap,
}
use whatsapp_email_assistant.Commands.Slot.{
  pending_of, pending_of-touch_conversation, take_pending_action_live, take_pending_action_empty,
}

-- The conversation was touched by the message, less than the window ago.
pub record IsLive (now : ℕ) (message : Message) (c : Option Conversation) : Type 0 where
  pub in_time : now < message.timestamp + window_ms
  pub unexpired : (d : Conversation) → c ≡ some d → leb d.expires_at now ≡ false

abbrev pub is_some : Option Text → Bool
is_some none = false
is_some (some t) = true

module _ {S : Type 0} (svc : Services S) where
  -- What the worker says without anything being sent: the tap is noted as failed, then answered.
  pub record SendsNothing (st : State S) (message : Message) (r : State S × Result (Unit {0}))
      : Type 0 where
    pub conversation : Option Conversation
    pub why : Failure
    pub said : Text
    pub kind : ReplyKind
    pub email : Option Text
    pub only_answers :
        r
        ≡ replied svc
            (noted svc
              (record { conversation = conversation; services = st.services })
              message
              PayloadAction.confirm_send
              (some why))
            (Payload.text said)
            kind
            email

  -- A confirmation with nothing pending composes nothing.
  confirm_empty-SendsNothing :
      (now : ℕ) (st : State S) (message : Message) (target : Text)
      → pending_of st.conversation ≡ none
      → SendsNothing st message (handle_tap svc now st message PayloadAction.confirm_send target)
  unfolding handle_tap carry_out_compose_tap tap_email carry_out_send action_text interpret_tap
  confirm_empty-SendsNothing now st message target empty =
      elim (Bool-cases (text_eq target compose_target)) [
        | inl t ↦ record {
          conversation = st.conversation;
          why = because (codes "no pending compose");
          said = expired_confirmation;
          kind = reply_confirmation;
          email = none;
          only_answers = rw (t, take_pending_action_empty now st.conversation empty) refl;
        }
        | inr f ↦ elim (Option-cases (svc.find_subject st.services target)) [
          | inl e ↦ record {
            conversation = st.conversation;
            why = because (codes "gone");
            said = user_facing_failure (app_error not_found none none);
            kind = command_response;
            email = none;
            only_answers = rw (f, e) refl;
          }
          | inr (subject, e) ↦ record {
            conversation = touch_conversation message.timestamp (some target) st.conversation;
            why = because (codes "no pending send");
            said = expired_confirmation;
            kind = command_response;
            email = some target;
            only_answers =
                rw
                  (
                    f,
                    e,
                    take_pending_action_empty now
                        (touch_conversation message.timestamp (some target) st.conversation)
                        (pending_of-touch_conversation message.timestamp (some target)
                            st.conversation
                          ∙ empty),
                  )
                  refl;
          }
        ]
      ]

  touched_unexpired :
      (now : ℕ) (message : Message) (active : Option Text) (c : Option Conversation)
      → now < message.timestamp + window_ms
      → (d : Conversation) → touch_conversation message.timestamp active c ≡ some d
      → leb d.expires_at now ≡ false
  unfolding touch_conversation
  touched_unexpired now message active none early d e = ground (arith, early, e)
  touched_unexpired now message active (some c) early d e = ground (arith, early, e)

  -- Whether the target is the new email or an email that is still there.
  abbrev pub is_found : State S → Text → Bool
  is_found st target =
      text_eq target compose_target || is_some (svc.find_subject st.services target)

  -- A confirmation in time spends the slot, whatever becomes of the email.
  confirm-spends :
      (now : ℕ) (st : State S) (message : Message) (target : Text)
      → IsLive now message st.conversation
      → is_found st target ≡ true
      → pending_of (handle_tap svc now st message PayloadAction.confirm_send target).0.conversation
        ≡ none
  unfolding handle_tap carry_out_compose_tap tap_email carry_out_send action_text interpret_tap
      replied
  confirm-spends now st message target live found =
      elim (Bool-cases (text_eq target compose_target)) [
        | inl t ↦ rw t (take_pending_action_live now st.conversation live.unexpired)
        | inr f ↦ elim (Option-cases (svc.find_subject st.services target)) [
          | inl e ↦ absurd (false≢true (rw (e, f) at found))
          | inr (subject, e) ↦
              rw (f, e)
                (take_pending_action_live now
                  (touch_conversation message.timestamp (some target) st.conversation)
                  (touched_unexpired now message (some target) st.conversation live.in_time))
        ]
      ]
    where
      false≢true : false ≢ true
      false≢true h = ground arith

  -- Of two confirmations that are handled one after the other, the second composes nothing. When the
  -- button of an email that is still there, or of the new email, confirms in time, then a second
  -- confirmation that is begun once the first has been handled, of whichever email and however
  -- late, is noted as failed and answered, and that is all the services see of it. It makes no
  -- difference whether the first composed anything or failed.
  pub confirm-sends_once :
      (now : ℕ) (st : State S) (message : Message) (target : Text)
      → IsLive now message st.conversation
      → is_found st target ≡ true
      → (later : ℕ) (second : Message) (other : Text)
      → let st1 = (handle_tap svc now st message PayloadAction.confirm_send target).0 in
        SendsNothing st1 second (handle_tap svc later st1 second PayloadAction.confirm_send other)
  confirm-sends_once now st message target live found later second other =
      confirm_empty-SendsNothing later _ second other
        (confirm-spends now st message target live found)
