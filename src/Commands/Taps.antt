-- ===== src/Commands/Taps.antt =====
-- Button presses: what is carried out for one, and what was pending for it.
use whatsapp_email_assistant.Common.{
  ℕ, zero, suc, ◌+◌, ◌/◌, ◌%◌, Bool, true, false, not, Option, none, some, List, [], ◌∷◌, ◌++◌, ltb,
  ◌==◌, if◌then◌else◌, count, Text, codes, text_eq,
}
use whatsapp_email_assistant.AppError.{Result, ok, err, ◌>>=◌, app_error, not_found}
use whatsapp_email_assistant.Resolver.{filled}
use whatsapp_email_assistant.Undo.Taps.{
  PayloadAction, action_text, TapEffect, mutate, canned_reply, confirm, confirm_sending,
  await_reply_text, undo_last, acknowledge, unavailable, interpret_tap,
}
use whatsapp_email_assistant.Commands.{
  Payload, PendingCompose, ComposeRequest, PendingSend, forward_to, reply_with, compose_to,
  Conversation, Services, State, Answer, Failure, because, Message, ReplyKind, command_response,
  reply_confirmation, sent_draft, tapped, say,
}
use whatsapp_email_assistant.Commands.Attempt.{
  generic_failure, failed_with, attempt, after, dealt_with, remember, operation_kind,
  user_facing_failure,
}
use whatsapp_email_assistant.Commands.Chat.{
  touch_conversation, take_pending_action, spent_slot, clear_active_thread,
}
use whatsapp_email_assistant.Commands.Compose.{build_delete_confirmation}

-- `COMPOSE_TARGET`.
abbrev pub compose_target : Text
compose_target = codes "compose"

abbrev pub expired_confirmation : Text
expired_confirmation =
    codes "That confirmation has expired. Ask me again and I'll set it up once more."

-- The email that a pending confirmation names.
abbrev pub target_of : PendingSend → Text
target_of (forward_to email _) = email
target_of (reply_with email _) = email
target_of (compose_to _) = compose_target

abbrev pub said : Text → Answer
said t = record { payload = Payload.text t; failed = none }

abbrev pub digits : ℕ → ℕ → Text
digits zero n = []
digits (suc fuel) n =
    let before = digits fuel (n / 10) in (if ltb n 10 then [] else before) ++ (48 + n % 10) ∷ []

-- A number in a text.
abbrev pub shown : ℕ → Text
shown n = digits (suc n) n

abbrev pub with_attachments : ℕ → Text
with_attachments count =
    if count == 0
    then []
    else if count == 1
    then codes ", with its attachment"
    else codes ", with its " ++ shown count ++ codes " attachments"

abbrev pub not_sent : PayloadAction → Text
not_sent PayloadAction.reply =
    codes "Nothing sent. Send it again with the wording you want — _email alice@acme.com saying …_"
not_sent _ = codes "Cancelled. Nothing was sent."

abbrev pub effect_kind : TapEffect → ReplyKind
effect_kind confirm = reply_confirmation
effect_kind _ = command_response

abbrev pub is_cancel : PayloadAction → Bool
is_cancel PayloadAction.cancel = true
is_cancel _ = false

module _ {S : Type 0} where
  -- The conversation is not touched by what the services do.
  abbrev pub keeping : Option Conversation → S × Answer → State S × Answer
  keeping conversation (s, answer) = (record { conversation = conversation; services = s }, answer)

  abbrev pub send_pending : Services S → S → PendingSend → S × Answer
  send_pending svc s (forward_to email []) =
      (s, failed_with generic_failure (because (codes "pending forward has no recipient")))
  send_pending svc s (forward_to email (c ∷ recipient)) =
      attempt (svc.compose_forward s email (c ∷ recipient)) (λ count.
        Payload.text
          (codes "Forwarding to " ++ (c ∷ recipient) ++ with_attachments count ++ codes "…"))
  send_pending svc s (reply_with email []) =
      (s, failed_with generic_failure (because (codes "pending reply has no body")))
  send_pending svc s (reply_with email (c ∷ body)) =
      attempt (svc.compose_reply s email (c ∷ body) false none) (λ _. say "Sending…")
  send_pending svc s (compose_to compose) =
      (s, failed_with generic_failure (because (codes "unknown pending kind")))

  abbrev pub no_pending : S → Text → S × Answer
  no_pending s why = (s, failed_with expired_confirmation (because why))

  abbrev pub send_taken : Services S → S → Text → Option PendingSend → S × Answer
  send_taken svc s email none = no_pending s (codes "no pending send")
  send_taken svc s email (some p) =
      if not (text_eq (target_of p) email)
      then no_pending s (codes "no pending send")
      else send_pending svc s p

  -- `carryOutSend`: what is pending is spent, whatever comes of it.
  unfoldable pub carry_out_send : Services S → ℕ → State S → Text → State S × Answer
  carry_out_send svc now st email =
      let (conversation, pending) = take_pending_action now st.conversation in
      keeping conversation (send_taken svc st.services email pending)

  -- The same from the first call of `takePendingAction` on, for what that call found.
  unfoldable pub finish_send : Services S → State S → Text → Option PendingSend → State S × Answer
  finish_send svc st email pending =
      keeping (spent_slot pending st.conversation) (send_taken svc st.services email pending)

  abbrev pub parsed : Services S → Text → Result (List Text)
  parsed svc list = svc.parse_recipient_list list

  abbrev pub parsed_copies : Services S → Option Text → Result (List Text)
  parsed_copies svc none = ok []
  parsed_copies svc (some list) = svc.parse_recipient_list list

  -- The lists are parsed again, and all must be readable.
  abbrev pub request_of : Services S → PendingCompose → Result ComposeRequest
  request_of svc p = parsed svc p.to >>= λ to. parsed_copies svc (filled p.cc) >>= λ cc.
      parsed_copies svc (filled p.bcc) >>= λ bcc. ok (record {
        to = to;
        cc = cc;
        bcc = bcc;
        account_id = filled p.account_id;
        subject = p.subject;
        body = p.body;
      })

  abbrev pub compose_request : Services S → S → Result ComposeRequest → S × Result ℕ
  compose_request svc s (err e) = (s, err e)
  compose_request svc s (ok request) = after (svc.compose_new s request) (λ s1 draft.
      (svc.record_undo s1 compose_target (sent_draft (codes "compose") draft), ok draft))

  abbrev pub compose_taken : Services S → S → Option PendingSend → S × Answer
  compose_taken svc s (some (compose_to p)) =
      attempt (compose_request svc s (request_of svc p))
        (λ _. Payload.text (codes "Sending to " ++ p.to ++ codes "…"))
  compose_taken svc s _ = no_pending s (codes "no pending compose")

  abbrev pub compose_or_give_up : Services S → S → PayloadAction → Option PendingSend → S × Answer
  compose_or_give_up svc s action pending =
      if text_eq (action_text action) (codes "confirm_send")
      then compose_taken svc s pending
      else (s, said (not_sent action))

  -- `carryOutComposeTap`: any button but the confirmation gives the email up.
  unfoldable pub carry_out_compose_tap : Services S → ℕ → State S → PayloadAction → State S × Answer
  carry_out_compose_tap svc now st action =
      let (conversation, pending) = take_pending_action now st.conversation in
      keeping conversation (compose_or_give_up svc st.services action pending)

  -- The same from the first call of `takePendingAction` on, for what that call found.
  unfoldable pub finish_compose_tap :
      Services S → State S → PayloadAction → Option PendingSend → State S × Answer
  finish_compose_tap svc st action pending =
      keeping (spent_slot pending st.conversation)
        (compose_or_give_up svc st.services action pending)

  abbrev pub carry_out_tap :
      Services S → ℕ → State S → (email subject : Text) → TapEffect → State S × Answer
  carry_out_tap svc now st email subject (mutate operation confirmation) = keeping st.conversation (
      attempt
        (after (svc.apply st.services email operation) (λ s _.
          let verb = operation_kind operation in
          (remember svc (dealt_with svc s email verb) email verb operation, ok tt)))
        (λ _. Payload.text confirmation))
  carry_out_tap svc now st email subject (canned_reply body) = keeping st.conversation (
      attempt
        (after (svc.compose_reply st.services email body false none) (λ s draft.
          let s1 = dealt_with svc s email (codes "reply") in
          (svc.record_undo s1 email (sent_draft (codes "reply") draft), ok tt)))
        (λ _. Payload.text (codes "Sending: “" ++ body ++ codes "”")))
  carry_out_tap svc now st email subject confirm =
      (st, record { payload = build_delete_confirmation email subject; failed = none })
  carry_out_tap svc now st email subject confirm_sending = carry_out_send svc now st email
  carry_out_tap svc now st email subject undo_last =
      keeping st.conversation (attempt (svc.undo st.services) Payload.text)
  carry_out_tap svc now st email subject await_reply_text =
      (st, said (codes "What would you like to say? Just type it here."))
  carry_out_tap svc now st email subject (acknowledge message) = (st, said message)
  carry_out_tap svc now st email subject (unavailable capability) = (
    st,
    said (
        codes "I can't "
        ++ capability
        ++ codes " yet — that part isn't finished. Try *reply*, *archive* or *delete*."),
  )

  -- The answer is the last step of a message.
  unfoldable pub replied :
      Services S → State S → Payload → ReplyKind → Option Text → State S × Result (Unit {0})
  replied svc st payload kind email =
      let (s, r) =
        svc.reply st.services
          (record { payload = payload; kind = kind; email_message_id = email }) in
      (record st { services = s }, r)

  abbrev pub noted : Services S → State S → Message → PayloadAction → Option Failure → State S
  noted svc st message action failed = record st {
    services = svc.record_resolution st.services message.id (tapped (action_text action)) failed;
  }

  -- The conversation after a tap on a button of an email.
  unfoldable pub tap_email :
      Services S → ℕ → State S → Message → PayloadAction → (email subject : Text) → State S × Answer
  tap_email svc now st message action email subject =
      let touched = touch_conversation message.timestamp (some email) st.conversation in
      let (st1, answer) =
        carry_out_tap svc now (record st { conversation = touched }) email subject
          (interpret_tap action) in
      let st2 = noted svc st1 message action answer.failed in
      (
        if is_cancel action
            then record st2 { conversation = clear_active_thread st2.conversation }
            else st2,
        answer,
      )

  abbrev pub handle_email_tap :
      Services S
      → ℕ
      → State S
      → Message
      → PayloadAction
      → Text
      → Option Text
      → State S × Result (Unit {0})
  handle_email_tap svc now st message action email none =
      replied svc (noted svc st message action (some (because (codes "gone"))))
        (Payload.text (user_facing_failure (app_error not_found none none))) command_response none
  handle_email_tap svc now st message action email (some subject) =
      let (st1, answer) = tap_email svc now st message action email subject in
      replied svc st1 answer.payload (effect_kind (interpret_tap action)) (some email)

  -- `handleComposeTap`.
  abbrev pub handle_compose_tap :
      Services S → ℕ → State S → Message → PayloadAction → State S × Result (Unit {0})
  handle_compose_tap svc now st message action =
      let (st1, answer) = carry_out_compose_tap svc now st action in
      replied svc (noted svc st1 message action answer.failed) answer.payload reply_confirmation
        none

  -- `handleTap`, for the target of the button.
  unfoldable pub handle_tap :
      Services S → ℕ → State S → Message → PayloadAction → Text → State S × Result (Unit {0})
  handle_tap svc now st message action target =
      if text_eq target compose_target
      then handle_compose_tap svc now st message action
      else handle_email_tap svc now st message action target (svc.find_subject st.services target)
