-- ===== src/Commands/Overlap.antt =====
-- Two confirmations at once: each reads the slot before the other has cleared it.
use whatsapp_email_assistant.Common.{
  ℕ, ◌≡◌, refl, ap, ◌∙◌, inl, inr, leb, Bool-cases, true, false, not, Bool, Option, none, some, [],
  ◌∷◌, arith, if◌then◌else◌, Text, text_eq, text_eq_refl,
}
use whatsapp_email_assistant.AppError.{Result, ok, err}
use whatsapp_email_assistant.Undo.Taps.{PayloadAction, action_text}
use whatsapp_email_assistant.Commands.{
  Payload, PendingSend, forward_to, reply_with, compose_to, Conversation, Services, State,
}
use whatsapp_email_assistant.Commands.Chat.{read_pending, clear_pending, take_pending_action}
use whatsapp_email_assistant.Commands.Attempt.{attempt}
use whatsapp_email_assistant.Commands.Taps.{
  compose_target, target_of, request_of, compose_request, finish_send, finish_compose_tap,
  carry_out_send, carry_out_compose_tap,
}

-- A forward with a recipient, a reply with a body, or a new email.
abbrev pub is_sendable : PendingSend → Bool
is_sendable (forward_to email []) = false
is_sendable (forward_to email (_ ∷ _)) = not (text_eq email compose_target)
is_sendable (reply_with email []) = false
is_sendable (reply_with email (_ ∷ _)) = not (text_eq email compose_target)
is_sendable (compose_to p) = true

read_pending-clear_pending :
    (now : ℕ) (c : Option Conversation) → read_pending now (clear_pending c) ≡ none
unfolding read_pending clear_pending
read_pending-clear_pending now none = refl
read_pending-clear_pending now (some c) = elim (Bool-cases (leb c.expires_at now)) [
  | inl t ↦ rw t refl
  | inr f ↦ rw f refl
]

module _ {S : Type 0} (svc : Services S) where
  -- What composing the pending email does to the services.
  abbrev pub composed : S → PendingSend → S
  composed s (forward_to email recipient) = (svc.compose_forward s email recipient).0
  composed s (reply_with email body) = (svc.compose_reply s email body false none).0
  composed s (compose_to p) = (compose_request svc s (request_of svc p)).0

  -- What a confirmation does from what it found in the slot, and as a whole.
  abbrev pub finish_confirmation : State S → Text → Option PendingSend → State S
  finish_confirmation st target found =
      if text_eq target compose_target
      then (finish_compose_tap svc st PayloadAction.confirm_send found).0
      else (finish_send svc st target found).0

  abbrev pub confirmation : ℕ → State S → Text → State S
  confirmation now st target =
      if text_eq target compose_target
      then (carry_out_compose_tap svc now st PayloadAction.confirm_send).0
      else (carry_out_send svc now st target).0

  confirmation-finish_confirmation :
      (now : ℕ) (st : State S) (target : Text)
      → confirmation now st target
        ≡ finish_confirmation st target (read_pending now st.conversation)
  unfolding finish_send finish_compose_tap carry_out_send carry_out_compose_tap take_pending_action
  confirmation-finish_confirmation now st target = refl

  attempt-state :
      {A : Type 0} (call : S × Result A) (on_success : A → Payload)
      → (attempt call on_success).0 ≡ call.0
  unfolding attempt
  attempt-state (s, ok a) on_success = refl
  attempt-state (s, err e) on_success = refl

  finish-composed :
      (st : State S) (p : PendingSend)
      → is_sendable p ≡ true
      → (finish_confirmation st (target_of p) (some p)).services ≡ composed st.services p
  unfolding finish_send finish_compose_tap action_text attempt
  finish-composed st (forward_to email []) h = ground arith
  finish-composed st (forward_to email (c ∷ r)) h =
      let other : text_eq email compose_target ≡ false = ground arith in
      rw (other, text_eq_refl email)
        (attempt-state (svc.compose_forward st.services email (c ∷ r)) _)
  finish-composed st (reply_with email []) h = ground arith
  finish-composed st (reply_with email (c ∷ r)) h =
      let other : text_eq email compose_target ≡ false = ground arith in
      rw (other, text_eq_refl email)
        (attempt-state (svc.compose_reply st.services email (c ∷ r) false none) _)
  finish-composed st (compose_to p) h =
      attempt-state (compose_request svc st.services (request_of svc p)) _

  finish-spends :
      (st : State S) (target : Text) (p : PendingSend)
      → (finish_confirmation st target (some p)).conversation ≡ clear_pending st.conversation
  unfolding finish_send finish_compose_tap
  finish-spends st target p = elim (Bool-cases (text_eq target compose_target)) [
    | inl t ↦ rw t refl
    | inr f ↦ rw f refl
  ]

  finish-none :
      (st : State S) (target : Text) → (finish_confirmation st target none).services ≡ st.services
  unfolding finish_send finish_compose_tap action_text
  finish-none st target = elim (Bool-cases (text_eq target compose_target)) [
    | inl t ↦ rw t refl
    | inr f ↦ rw f refl
  ]

  -- Two confirmations of the same pending email have it composed twice, by two calls of the service,
  -- when each reads the slot before the other has cleared it; the second calls for nothing when it
  -- reads the slot afterwards. The email is a forward with a recipient, a reply with a body, or a new
  -- email.
  pub overlap-composes_twice :
      (now later : ℕ) (st : State S) (p : PendingSend)
      → is_sendable p ≡ true
      → read_pending now st.conversation ≡ some p
      → read_pending later st.conversation ≡ some p
      → let first = confirmation now st (target_of p) in
        let second = finish_confirmation first (target_of p) (read_pending later st.conversation) in
        (second.services ≡ composed (composed st.services p) p)
        × ((confirmation later first (target_of p)).services ≡ composed st.services p)
  overlap-composes_twice now later st p sendable early late =
      let target = target_of p in
      let first = confirmation now st target in
      let taken : first ≡ finish_confirmation st target (some p) =
        confirmation-finish_confirmation now st target ∙ ap (finish_confirmation st target) early in
      let once : first.services ≡ composed st.services p =
        ap (λ x. x.services) taken ∙ finish-composed st p sendable in
      let found_none : read_pending later first.conversation ≡ none =
        ap (λ x. read_pending later x.conversation) taken
        ∙ ap (read_pending later) (finish-spends st target p)
        ∙ read_pending-clear_pending later st.conversation in
      (
        ap (λ x. (finish_confirmation first target x).services) late
            ∙ finish-composed first p sendable
            ∙ ap (λ s. composed s p) once,
        ap (λ x. x.services) (confirmation-finish_confirmation later first target)
            ∙ ap (λ x. (finish_confirmation first target x).services) found_none
            ∙ finish-none first target
            ∙ once,
      )
