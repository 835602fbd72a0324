-- ===== src/Commands/Slot.antt =====
-- The slot of the pending confirmation: what a button press leaves in it.
use whatsapp_email_assistant.Common.{
  ℕ, ◌≡◌, refl, ◌⊎◌, inl, inr, false, Option, none, some, leb, Bool-cases, Option-cases, Text,
  text_eq,
}
use mathlib.Core.Path.{subst}
use whatsapp_email_assistant.Undo.Taps.{
  PayloadAction, TapEffect, mutate, canned_reply, confirm, confirm_sending, await_reply_text,
  undo_last, acknowledge, unavailable, interpret_tap,
}
use whatsapp_email_assistant.Commands.{
  Payload, PendingSend, Conversation, Services, State, Message, ReplyKind,
}
use whatsapp_email_assistant.Commands.Chat.{
  touch_conversation, take_pending_action, clear_active_thread,
}
use whatsapp_email_assistant.Commands.Taps.{
  compose_target, carry_out_send, carry_out_compose_tap, carry_out_tap, replied, tap_email,
  handle_tap, is_cancel,
}

abbrev pub pending_of : Option Conversation → Option PendingSend
pending_of none = none
pending_of (some c) = c.pending

pub pending_of-touch_conversation :
    (at : ℕ) (active : Option Text) (c : Option Conversation)
    → pending_of (touch_conversation at active c) ≡ pending_of c
unfolding touch_conversation
pending_of-touch_conversation at active none = refl
pending_of-touch_conversation at active (some c) = refl

-- A slot that is empty, or as it was.
abbrev pub EmptyOr : Option PendingSend → Option PendingSend → Type 0
EmptyOr after before = (after ≡ none) ⊎ (after ≡ before)

take_pending_action-EmptyOr :
    (now : ℕ) (c : Option Conversation)
    → EmptyOr (pending_of (take_pending_action now c).0) (pending_of c)
unfolding take_pending_action
take_pending_action-EmptyOr now none = inl refl
take_pending_action-EmptyOr now (some c) = elim (Bool-cases (leb c.expires_at now)) [
  | inl t ↦ inr (rw t refl)
  | inr f ↦ elim (Option-cases c.pending) [
    | inl e ↦ inl (rw (f, e) refl)
    | inr (p, e) ↦ inl (rw (f, e) refl)
  ]
]

-- What is live is spent.
pub take_pending_action_live :
    (now : ℕ) (c : Option Conversation)
    → ((d : Conversation) → c ≡ some d → leb d.expires_at now ≡ false)
    → pending_of (take_pending_action now c).0 ≡ none
unfolding take_pending_action
take_pending_action_live now none live = refl
take_pending_action_live now (some c) live = elim (Option-cases c.pending) [
  | inl e ↦ rw (live c refl, e) refl
  | inr (p, e) ↦ rw (live c refl, e) refl
]

-- Nothing is taken from an empty slot.
pub take_pending_action_empty :
    (now : ℕ) (c : Option Conversation)
    → pending_of c ≡ none
    → take_pending_action now c ≡ (c, none)
unfolding take_pending_action
take_pending_action_empty now none e = refl
take_pending_action_empty now (some c) e = elim (Bool-cases (leb c.expires_at now)) [
  | inl t ↦ rw t refl
  | inr f ↦ rw (f, e) refl
]

pending_of-clear_active_thread :
    (c : Option Conversation) → pending_of (clear_active_thread c) ≡ none
unfolding clear_active_thread
pending_of-clear_active_thread none = refl
pending_of-clear_active_thread (some c) = refl

module _ {S : Type 0} (svc : Services S) where
  carry_out_send-EmptyOr :
      (now : ℕ) (st : State S) (email : Text)
      → EmptyOr
          (pending_of (carry_out_send svc now st email).0.conversation)
          (pending_of st.conversation)
  unfolding carry_out_send
  carry_out_send-EmptyOr now st email = take_pending_action-EmptyOr now st.conversation

  carry_out_tap-EmptyOr :
      (now : ℕ) (st : State S) (email subject : Text) (effect : TapEffect)
      → EmptyOr
          (pending_of (carry_out_tap svc now st email subject effect).0.conversation)
          (pending_of st.conversation)
  carry_out_tap-EmptyOr now st email subject (mutate operation said) = inr refl
  carry_out_tap-EmptyOr now st email subject (canned_reply body) = inr refl
  carry_out_tap-EmptyOr now st email subject confirm = inr refl
  carry_out_tap-EmptyOr now st email subject confirm_sending = carry_out_send-EmptyOr now st email
  carry_out_tap-EmptyOr now st email subject await_reply_text = inr refl
  carry_out_tap-EmptyOr now st email subject undo_last = inr refl
  carry_out_tap-EmptyOr now st email subject (acknowledge message) = inr refl
  carry_out_tap-EmptyOr now st email subject (unavailable capability) = inr refl

  conversation-replied :
      (st : State S) (payload : Payload) (kind : ReplyKind) (email : Option Text)
      → (replied svc st payload kind email).0.conversation ≡ st.conversation
  unfolding replied
  conversation-replied st payload kind email = refl

  tap_email-EmptyOr :
      (now : ℕ) (st : State S) (message : Message) (action : PayloadAction) (email subject : Text)
      → EmptyOr
          (pending_of (tap_email svc now st message action email subject).0.conversation)
          (pending_of st.conversation)
  unfolding tap_email
  tap_email-EmptyOr now st message action email subject =
      let c = touch_conversation message.timestamp (some email) st.conversation in
      let touched = record st { conversation = c } in
      elim (Bool-cases (is_cancel action)) [
        | inl t ↦ inl (rw t (pending_of-clear_active_thread _))
        | inr f ↦ rw f (
            subst (EmptyOr _)
              (pending_of-touch_conversation message.timestamp (some email) st.conversation)
              (carry_out_tap-EmptyOr now touched email subject (interpret_tap action)))
      ]

  carry_out_compose_tap-EmptyOr :
      (now : ℕ) (st : State S) (action : PayloadAction)
      → EmptyOr
          (pending_of (carry_out_compose_tap svc now st action).0.conversation)
          (pending_of st.conversation)
  unfolding carry_out_compose_tap
  carry_out_compose_tap-EmptyOr now st action = take_pending_action-EmptyOr now st.conversation

  -- No button press puts anything into the slot of the pending confirmation: whatever is pressed,
  -- for a new email or for an email that may be gone, the slot is empty afterwards or as it was.
  pub handle_tap-EmptyOr :
      (now : ℕ) (st : State S) (message : Message) (action : PayloadAction) (target : Text)
      → EmptyOr
          (pending_of (handle_tap svc now st message action target).0.conversation)
          (pending_of st.conversation)
  unfolding handle_tap replied
  handle_tap-EmptyOr now st message action target =
      elim (Bool-cases (text_eq target compose_target)) [
        | inl t ↦ rw t (carry_out_compose_tap-EmptyOr now st action)
        | inr f ↦ elim (Option-cases (svc.find_subject st.services target)) [
          | inl e ↦ rw (f, e) (inr refl)
          | inr (subject, e) ↦ rw (f, e) (tap_email-EmptyOr now st message action target subject)
        ]
      ]
