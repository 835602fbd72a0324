-- ===== src/Commands/Plans.antt =====
-- Carrying out what was planned for a typed command, and the email's words that await a tap.
use whatsapp_email_assistant.Common.{
  ℕ, Option, none, some, List, [], ◌∷◌, ◌++◌, String, ◌==◌, if◌then◌else◌, count, Text, codes,
}
use whatsapp_email_assistant.AppError.{Result, ok, err}
use whatsapp_email_assistant.Builders.{clamp}
use whatsapp_email_assistant.Undo.{MailOperation}
use whatsapp_email_assistant.Commands.{
  Payload, draft_confirmation, voice, reply_with, compose_to, Conversation, Services, State, Answer,
  because, inverse, sent_draft, labels_changed, snoozed, say,
}
use whatsapp_email_assistant.Commands.Attempt.{
  generic_failure, failed_with, attempt, after, dealt_with, remember, operation_kind,
}
use whatsapp_email_assistant.Commands.Chat.{set_pending_action}
use whatsapp_email_assistant.Commands.Plan.{
  PlannedEffect, mutate, summarize, speak, attachments, undo, discard_files, translate, move_to,
  snooze_until, file_under, compose, draft,
}
use whatsapp_email_assistant.Commands.Compose.{join_with}
use whatsapp_email_assistant.Commands.Taps.{keeping, shown}

abbrev pub count_of_files : ℕ → Payload
count_of_files count =
    if count == 0
    then say "That email has no attachments."
    else if count == 1
    then say "Sending the file…"
    else Payload.text (codes "Sending " ++ shown count ++ codes " files…")

abbrev pub count_dropped : ℕ → Payload
count_dropped count =
    if count == 0
    then say "I wasn't holding any files."
    else if count == 1
    then say "Dropped it. I'm not holding any files now."
    else Payload.text (codes "Dropped " ++ shown count ++ codes " files. I'm not holding any now.")

abbrev pub labels_line : String → List Text → List Text
labels_line verb [] = []
labels_line verb (l ∷ ls) =
    (codes verb ++ codes " *" ++ join_with (codes "*, *") (l ∷ ls) ++ codes "*.") ∷ []

abbrev pub filing : List Text × List Text → Payload
filing (added, removed) =
    Payload.text
      (join_with (codes " ") (labels_line "Filed under" added ++ labels_line "Took off" removed))

abbrev pub generic : String → Answer
generic why = failed_with generic_failure (because (codes why))

module _ {S : Type 0} where
  -- The draft is written down before it is offered.
  abbrev pub offer_draft : Option Conversation → Text → S × Result Text → State S × Answer
  offer_draft conversation email (s, ok body) = (
    record { conversation = set_pending_action (reply_with email body) conversation; services = s },
    record { payload = draft_confirmation email (clamp body 1024); failed = none },
  )
  offer_draft conversation email (s, err e) =
      keeping conversation (attempt {A = Text} (s, err e) Payload.text)

  -- The plans that name an email.
  abbrev pub carry_out_for :
      Services S → State S → Text → PlannedEffect → Payload → State S × Answer
  carry_out_for svc st email (mutate operation) intended = keeping st.conversation (
      attempt
        (after (svc.apply st.services email operation) (λ s _.
          let verb = operation_kind operation in
          (remember svc (dealt_with svc s email verb) email verb operation, ok tt)))
        (λ _. intended))
  carry_out_for svc st email (PlannedEffect.reply_with body reply_all subject) intended =
      keeping st.conversation (
        attempt
          (after (svc.compose_reply st.services email body reply_all subject) (λ s id.
            let s1 = dealt_with svc s email (codes "reply") in
            (svc.record_undo s1 email (sent_draft (codes "reply") id), ok tt)))
          (λ _. intended))
  carry_out_for svc st email attachments intended =
      keeping st.conversation (attempt (svc.deliver_attachments st.services email) count_of_files)
  carry_out_for svc st email (file_under add remove) intended = keeping st.conversation (
      attempt
        (after (svc.apply_label st.services email add remove)
          (λ s changed. (svc.record_undo s email (labels_changed changed.1 changed.0), ok changed)))
        filing)
  carry_out_for svc st email (snooze_until until) intended = keeping st.conversation (
      attempt
        (after (svc.snooze_until st.services email until)
          (λ s description. (svc.record_undo s email snoozed, ok description)))
        (λ d. Payload.text (codes "Put down until *" ++ d ++ codes "*. I'll bring it back then.")))
  carry_out_for svc st email (move_to folder) intended = keeping st.conversation (
      attempt
        (after (svc.move_to st.services email folder) (λ s landed. (
          svc.record_undo (dealt_with svc s email (codes "move")) email
              (inverse (codes "move") MailOperation.unarchive),
          ok landed,
        )))
        (λ landed. Payload.text (codes "Moved to *" ++ landed ++ codes "*.")))
  carry_out_for svc st email summarize intended =
      keeping st.conversation (attempt (svc.summarize_email st.services email) Payload.text)
  carry_out_for svc st email (translate language) intended =
      keeping st.conversation
        (attempt (svc.translate_email st.services email language) Payload.text)
  carry_out_for svc st email speak intended =
      keeping st.conversation (attempt (svc.record_aloud st.services email) voice)
  carry_out_for svc st email (draft instruction) intended =
      offer_draft st.conversation email (svc.draft_reply st.services email instruction)
  carry_out_for svc st email (compose _) intended = (st, generic "compose reached carryOutPlan")
  carry_out_for svc st email undo intended = (st, generic "no target")
  carry_out_for svc st email discard_files intended = (st, generic "no target")

  abbrev pub carry_out_target :
      Services S → State S → Option Text → PlannedEffect → Payload → State S × Answer
  carry_out_target svc st none effect intended = (st, generic "no target")
  carry_out_target svc st (some []) effect intended = (st, generic "no target")
  carry_out_target svc st (some (c ∷ email)) effect intended =
      carry_out_for svc st (c ∷ email) effect intended

  -- `carryOutPlan`: an undo and the files in hand need no email.
  unfoldable pub carry_out_plan :
      Services S → State S → Option Text → PlannedEffect → Payload → State S × Answer
  carry_out_plan svc st email (compose _) intended = (st, generic "compose reached carryOutPlan")
  carry_out_plan svc st email undo intended =
      keeping st.conversation (attempt (svc.undo st.services) Payload.text)
  carry_out_plan svc st email discard_files intended =
      keeping st.conversation (attempt (svc.discard_staged st.services) count_dropped)
  carry_out_plan svc st email effect intended = carry_out_target svc st email effect intended

  -- What `handleText` does with the plan: a composed email is kept for the tap, the rest is done.
  unfoldable pub carry_out_planned :
      Services S → State S → Option Text → Option PlannedEffect → Payload → State S × Answer
  carry_out_planned svc st email none payload = (st, record { payload = payload; failed = none })
  carry_out_planned svc st email (some (compose p)) payload = (
    record st { conversation = set_pending_action (compose_to p) st.conversation },
    record { payload = payload; failed = none },
  )
  carry_out_planned svc st email (some effect) payload = carry_out_plan svc st email effect payload
