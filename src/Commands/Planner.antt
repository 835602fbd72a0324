-- ===== src/Commands/Planner.antt =====
-- apps/worker/src/services/response-planner.ts: what is said and what is to be done for an intent
-- and the email it is about. What a confirmation shows is its payload's text.
use whatsapp_email_assistant.Common.{
  Bool, true, false, Option, none, some, List, ◌∷◌, ◌++◌, String, if◌then◌else◌, Text, codes,
}
use whatsapp_email_assistant.AppError.{Result}
use whatsapp_email_assistant.Builders.{clamp}
use whatsapp_email_assistant.Undo.{MailOperation}
use whatsapp_email_assistant.Resolver.{
  Basis, no_recent_from, Resolution, resolved, ambiguous, unresolved, filled,
}
use whatsapp_email_assistant.Commands.{
  CommandIntent, Payload, help_text, forward_confirmation, disambiguation, say,
}
use whatsapp_email_assistant.Commands.Plan.{
  PlannedEffect, FollowUp, PlannedResponse, PlanContext, named, starred, no_effect, with_effect,
  mutate, reply_with, summarize, speak, attachments, undo, discard_files, translate, move_to,
  snooze_until, file_under, draft, nothing, await_confirmation, await_reply_text, queue_send,
  queue_action, queue_query,
}
use whatsapp_email_assistant.Commands.Compose.{build_delete_confirmation, plan_compose}

-- The commands that need no email.
abbrev pub plan_untargeted :
    (Text → Result (List Text)) → CommandIntent → Option (Text × Text) → Option PlannedResponse
plan_untargeted parse CommandIntent.help send_from = some (no_effect help_text nothing none)
plan_untargeted parse CommandIntent.cancel send_from =
    some (no_effect (say "Cancelled. Nothing was sent.") nothing none)
plan_untargeted parse (CommandIntent.compose intent) send_from =
    some (plan_compose parse intent send_from)
plan_untargeted parse CommandIntent.undo send_from =
    some (with_effect (say "Taking that back…") queue_query undo none)
plan_untargeted parse CommandIntent.discard_files send_from =
    some (with_effect (say "Dropping them…") queue_query discard_files none)
plan_untargeted parse _ send_from = none

abbrev pub replies : CommandIntent → Bool
replies (CommandIntent.reply _ _ _ _) = true
replies CommandIntent.reply_affirmative = true
replies _ = false

abbrev pub explain_nothing_found : CommandIntent → Basis → Text
explain_nothing_found intent (no_recent_from name) =
    codes "I couldn't find a recent email from " ++ (b'"' ∷ name) ++ (b'"' ∷ codes ".")
explain_nothing_found intent _ =
    if replies intent
    then codes
        "I'm not sure which email you're replying to. Reply directly to one of my messages and I'll pick it up."
    else codes "There's no recent email for me to act on."

abbrev pub answered :
    Text → String → Option Text → String → FollowUp → PlannedEffect → PlannedResponse
answered email before subject behind follow_up effect =
    with_effect (starred before (named subject "this email") behind) follow_up effect (some email)

abbrev pub queued : Text → String → FollowUp → PlannedEffect → PlannedResponse
queued email s follow_up effect = with_effect (say s) follow_up effect (some email)

abbrev pub replying : Bool → Option Text → Option Text → Payload
replying reply_all subject (some new) = starred "Replying under *" new "*…"
replying reply_all subject none =
    if reply_all
    then starred "Replying to everyone on *" (named subject "this email") "*…"
    else starred "Sending your reply to *" (named subject "this email") "*…"

abbrev pub plan_reply : PlanContext → Text → Option Text → Bool → Option Text → PlannedResponse
plan_reply ctx email none reply_all new =
    no_effect
      (starred "What would you like to say to *" (named ctx.subject "this email")
        "*? Just type it here.")
      await_reply_text (some email)
plan_reply ctx email (some body) reply_all new =
    with_effect (replying reply_all ctx.subject new) queue_send (reply_with body reply_all new)
      (some email)

abbrev pub no_match : PlannedResponse
no_match = no_effect (say "I didn't catch that. Send *help* to see what I understand.") nothing none

-- The cases from `get_attachment` on.
abbrev pub plan_rest : PlanContext → Text → CommandIntent → PlannedResponse
plan_rest ctx email CommandIntent.get_attachment =
    queued email "Fetching the files…" queue_action attachments
plan_rest ctx email (CommandIntent.summarize _) = queued email "Reading it…" queue_query summarize
plan_rest ctx email (CommandIntent.translate language) =
    queued email "Translating…" queue_query (translate language)
plan_rest ctx email (CommandIntent.draft instruction) =
    queued email "Writing something…" queue_query (draft (filled instruction))
plan_rest ctx email (CommandIntent.read_aloud _) = queued email "Recording it…" queue_query speak
plan_rest ctx email CommandIntent.send =
    no_effect (say "There's no draft waiting to send.") nothing none
plan_rest ctx email (CommandIntent.unknown _) =
    if ctx.looks_like_reply_body
    then answered email "Sending that as your reply to *" ctx.subject "*…" queue_send
        (reply_with ctx.raw_text false none)
    else no_effect
        (say "I didn't catch that. Try *reply*, *archive*, *delete*, or just type your reply.")
        nothing (some email)
plan_rest ctx email _ = no_match

-- `planForEmail`.
abbrev pub plan_for_email : PlanContext → Text → CommandIntent → PlannedResponse
plan_for_email ctx email (CommandIntent.delete _) =
    no_effect (build_delete_confirmation email (named ctx.subject "this email")) await_confirmation
      (some email)
plan_for_email ctx email (CommandIntent.forward recipient _) =
    no_effect
      (forward_confirmation email (
        clamp
          (codes "*"
            ++ named ctx.subject "This email"
            ++ codes "*\n\nForward to "
            ++ recipient
            ++ codes "?")
          1024))
      await_confirmation (some email)
plan_for_email ctx email (CommandIntent.reply body _ reply_all new) =
    plan_reply ctx email (filled body) reply_all (filled new)
plan_for_email ctx email CommandIntent.reply_affirmative =
    answered email "Replying to *" ctx.subject "*…" queue_send
      (reply_with (codes "Yes, that works for me.") false none)
plan_for_email ctx email CommandIntent.reply_negative =
    answered email "Replying to *" ctx.subject "*…" queue_send
      (reply_with (codes "No, that doesn't work for me.") false none)
plan_for_email ctx email (CommandIntent.archive _) =
    with_effect (starred "Archived *" (named ctx.subject "that email") "*.") queue_action
      (mutate MailOperation.archive) (some email)
plan_for_email ctx email (CommandIntent.mark_read read) =
    queued email (if read then "Marked as read." else "Marked as unread.") queue_action
      (mutate (MailOperation.mark_read read))
plan_for_email ctx email (CommandIntent.mark_important important) =
    queued email (if important then "Starred." else "Unstarred.") queue_action
      (mutate (MailOperation.star important))
plan_for_email ctx email (CommandIntent.mark_spam is_spam) =
    queued email
      (if is_spam
        then "Moved to spam. Future mail from them may go there too."
        else "Moved back to your inbox, and marked as not spam so it doesn't happen again.")
      queue_action (mutate (MailOperation.spam is_spam))
plan_for_email ctx email (CommandIntent.move to) = queued email "Moving…" queue_query (move_to to)
plan_for_email ctx email (CommandIntent.label add remove) =
    queued email "Filing…" queue_query (file_under (filled add) (filled remove))
plan_for_email ctx email (CommandIntent.snooze until) =
    queued email "Putting it down…" queue_query (snooze_until until)
plan_for_email ctx email intent = plan_rest ctx email intent

abbrev pub plan_resolved : PlanContext → Resolution → PlannedResponse
plan_resolved ctx (ambiguous options _) = no_effect (disambiguation options) await_confirmation none
plan_resolved ctx (unresolved basis) =
    no_effect (Payload.text (explain_nothing_found ctx.intent basis)) nothing none
plan_resolved ctx (resolved email _ _) = plan_for_email ctx email ctx.intent

abbrev pub or_plan : Option PlannedResponse → PlannedResponse → PlannedResponse
or_plan (some planned) other = planned
or_plan none other = other

-- `plan`.
unfoldable pub plan : (Text → Result (List Text)) → PlanContext → PlannedResponse
plan parse ctx =
    or_plan (plan_untargeted parse ctx.intent ctx.send_from) (plan_resolved ctx ctx.resolution)
