-- ===== src/Commands/Asks.antt =====
-- What a plan may do: a verb that cannot be taken back only asks, and a plan's parts fit together.
use whatsapp_email_assistant.Common.{
  ◌≡◌, refl, sym, ◌∙◌, ◌≢◌, inl, inr, Bool, true, false, Option, none, some, List, [], ◌∷◌, arith,
  Bool-cases, Text, trim,
}
use whatsapp_email_assistant.AppError.{Result, ok, err, ◌>>=◌}
use whatsapp_email_assistant.Resolver.{
  Resolution, resolved, ambiguous, unresolved, filled, or_blank,
}
use whatsapp_email_assistant.Commands.{ComposeIntent, CommandIntent}
use whatsapp_email_assistant.Commands.Plan.{
  PlannedEffect, undo, discard_files, compose, FollowUp, queue_send, queue_action, queue_query,
  PlannedResponse, PlanContext,
}
use whatsapp_email_assistant.Commands.Compose.{copies_of, plan_compose, compose_to, compose_body}
use whatsapp_email_assistant.Commands.Planner.{
  plan_untargeted, plan_reply, plan_for_email, plan_resolved, or_plan, plan,
}
use whatsapp_email_assistant.Commands.Handle.{needs_confirmation}

abbrev pub is_queued : FollowUp → Bool
is_queued queue_send = true
is_queued queue_action = true
is_queued queue_query = true
is_queued _ = false

-- An effect that is carried out before the answer, and one that is only kept for the tap.
abbrev pub acts : Option PlannedEffect → Bool
acts none = false
acts (some (compose _)) = false
acts (some _) = true

abbrev pub names_email : Option Text → Bool
names_email none = false
names_email (some email) = true

abbrev pub needs_email : Option PlannedEffect → Bool
needs_email none = false
needs_email (some undo) = false
needs_email (some discard_files) = false
needs_email (some (compose _)) = false
needs_email (some _) = true

-- A plan acts exactly when it is queued, never if a tap is needed first, and on an email when it
-- needs one.
pub record IsSound (confirmed_first : Bool) (planned : PlannedResponse) : Type 0 where
  pub queued : is_queued planned.follow_up ≡ acts planned.effect
  pub only_asks : confirmed_first ≡ true → acts planned.effect ≡ false
  pub has_email : needs_email planned.effect ≡ true → names_email planned.email_message_id ≡ true

false≢true : false ≢ true
false≢true h = ground arith

compose_body-IsSound :
    (send_from : Option (Text × Text)) (intent : ComposeIntent)
    (lists : List Text × List Text × List Text) (body : Text)
    → IsSound true (compose_body send_from intent lists body)
compose_body-IsSound send_from intent lists [] = record {
  queued = refl;
  only_asks = λ _. refl;
  has_email = λ h. absurd (false≢true h);
}
compose_body-IsSound send_from intent lists (c ∷ body) = record {
  queued = refl;
  only_asks = λ _. refl;
  has_email = λ h. absurd (false≢true h);
}

plan_compose-IsSound :
    (parse : Text → Result (List Text)) (intent : ComposeIntent) (send_from : Option (Text × Text))
    → IsSound true (plan_compose parse intent send_from)
unfolding plan_compose
plan_compose-IsSound parse intent send_from = addressed (
    parse intent.to >>= λ recipients. copies_of parse (filled intent.cc) >>= λ copies.
    copies_of parse (filled intent.bcc) >>= λ blind. ok (recipients, copies, blind))
  where
    addressed :
        (r : Result (List Text × List Text × List Text))
        → IsSound true (compose_to send_from intent r)
    addressed (err e) = record {
      queued = refl;
      only_asks = λ _. refl;
      has_email = λ h. absurd (false≢true h);
    }
    addressed (ok lists) = compose_body-IsSound send_from intent lists (trim (or_blank intent.body))

asks-IsSound :
    (confirmed_first : Bool) (planned : PlannedResponse)
    → is_queued planned.follow_up ≡ false
    → planned.effect ≡ none
    → IsSound confirmed_first planned
asks-IsSound confirmed_first planned e f = record {
  queued = rw f e;
  only_asks = λ _. rw f refl;
  has_email = λ h. absurd (false≢true (rw f at h));
}

does-IsSound :
    (planned : PlannedResponse)
    → is_queued planned.follow_up ≡ true
    → acts planned.effect ≡ true
    → names_email planned.email_message_id ≡ true
    → IsSound false planned
does-IsSound planned e f g = record {
  queued = e ∙ sym f;
  only_asks = λ h. absurd (false≢true h);
  has_email = λ _. g;
}

plan_reply-IsSound :
    (ctx : PlanContext) (email : Text) (body : Option Text) (reply_all : Bool) (new : Option Text)
    → IsSound false (plan_reply ctx email body reply_all new)
plan_reply-IsSound ctx email none reply_all new = asks-IsSound _ _ refl refl
plan_reply-IsSound ctx email (some body) reply_all new = does-IsSound _ refl refl refl

plan_for_email-IsSound :
    (ctx : PlanContext) (email : Text) (intent : CommandIntent)
    → IsSound (needs_confirmation intent) (plan_for_email ctx email intent)
unfolding needs_confirmation
plan_for_email-IsSound ctx email (CommandIntent.reply body target reply_all new) =
    plan_reply-IsSound ctx email (filled body) reply_all (filled new)
plan_for_email-IsSound ctx email CommandIntent.reply_affirmative = does-IsSound _ refl refl refl
plan_for_email-IsSound ctx email CommandIntent.reply_negative = does-IsSound _ refl refl refl
plan_for_email-IsSound ctx email CommandIntent.get_attachment = does-IsSound _ refl refl refl
plan_for_email-IsSound ctx email (CommandIntent.archive x) = does-IsSound _ refl refl refl
plan_for_email-IsSound ctx email (CommandIntent.summarize x) = does-IsSound _ refl refl refl
plan_for_email-IsSound ctx email (CommandIntent.read_aloud x) = does-IsSound _ refl refl refl
plan_for_email-IsSound ctx email (CommandIntent.mark_read x) = does-IsSound _ refl refl refl
plan_for_email-IsSound ctx email (CommandIntent.mark_important x) = does-IsSound _ refl refl refl
plan_for_email-IsSound ctx email (CommandIntent.mark_spam x) = does-IsSound _ refl refl refl
plan_for_email-IsSound ctx email (CommandIntent.move x) = does-IsSound _ refl refl refl
plan_for_email-IsSound ctx email (CommandIntent.snooze x) = does-IsSound _ refl refl refl
plan_for_email-IsSound ctx email (CommandIntent.translate x) = does-IsSound _ refl refl refl
plan_for_email-IsSound ctx email (CommandIntent.draft x) = does-IsSound _ refl refl refl
plan_for_email-IsSound ctx email (CommandIntent.label add remove) = does-IsSound _ refl refl refl
plan_for_email-IsSound ctx email CommandIntent.discard_files = asks-IsSound _ _ refl refl
plan_for_email-IsSound ctx email CommandIntent.send = asks-IsSound _ _ refl refl
plan_for_email-IsSound ctx email CommandIntent.cancel = asks-IsSound _ _ refl refl
plan_for_email-IsSound ctx email CommandIntent.undo = asks-IsSound _ _ refl refl
plan_for_email-IsSound ctx email CommandIntent.help = asks-IsSound _ _ refl refl
plan_for_email-IsSound ctx email CommandIntent.list_mailboxes = asks-IsSound _ _ refl refl
plan_for_email-IsSound ctx email CommandIntent.list_labels = asks-IsSound _ _ refl refl
plan_for_email-IsSound ctx email CommandIntent.list_folders = asks-IsSound _ _ refl refl
plan_for_email-IsSound ctx email CommandIntent.list_today = asks-IsSound _ _ refl refl
plan_for_email-IsSound ctx email CommandIntent.list_unread = asks-IsSound _ _ refl refl
plan_for_email-IsSound ctx email CommandIntent.list_urgent = asks-IsSound _ _ refl refl
plan_for_email-IsSound ctx email CommandIntent.list_deadlines = asks-IsSound _ _ refl refl
plan_for_email-IsSound ctx email (CommandIntent.compose x) = asks-IsSound _ _ refl refl
plan_for_email-IsSound ctx email (CommandIntent.delete x) = asks-IsSound _ _ refl refl
plan_for_email-IsSound ctx email (CommandIntent.search x) = asks-IsSound _ _ refl refl
plan_for_email-IsSound ctx email (CommandIntent.question x) = asks-IsSound _ _ refl refl
plan_for_email-IsSound ctx email (CommandIntent.forward recipient target) =
    asks-IsSound _ _ refl refl
plan_for_email-IsSound ctx email (CommandIntent.unknown x) =
    elim (Bool-cases ctx.looks_like_reply_body) [
      | inl e ↦ rw e (does-IsSound _ refl refl refl)
      | inr e ↦ rw e (asks-IsSound _ _ refl refl)
    ]

plan_resolved-IsSound :
    (ctx : PlanContext) (resolution : Resolution)
    → IsSound (needs_confirmation ctx.intent) (plan_resolved ctx resolution)
plan_resolved-IsSound ctx (ambiguous options basis) = asks-IsSound _ _ refl refl
plan_resolved-IsSound ctx (unresolved basis) = asks-IsSound _ _ refl refl
plan_resolved-IsSound ctx (resolved email rank basis) = plan_for_email-IsSound ctx email ctx.intent

or_plan-IsSound :
    (parse : Text → Result (List Text)) (intent : CommandIntent) (send_from : Option (Text × Text))
    (other : PlannedResponse)
    → IsSound (needs_confirmation intent) other
    → IsSound (needs_confirmation intent) (or_plan (plan_untargeted parse intent send_from) other)
unfolding needs_confirmation
or_plan-IsSound parse CommandIntent.help send_from other sound = asks-IsSound _ _ refl refl
or_plan-IsSound parse CommandIntent.cancel send_from other sound = asks-IsSound _ _ refl refl
or_plan-IsSound parse (CommandIntent.compose intent) send_from other sound =
    plan_compose-IsSound parse intent send_from
or_plan-IsSound parse CommandIntent.undo send_from other sound = record {
  queued = refl;
  only_asks = λ h. absurd (false≢true h);
  has_email = λ h. absurd (false≢true h);
}
or_plan-IsSound parse CommandIntent.discard_files send_from other sound = record {
  queued = refl;
  only_asks = λ h. absurd (false≢true h);
  has_email = λ h. absurd (false≢true h);
}
or_plan-IsSound parse CommandIntent.reply_affirmative send_from other sound = sound
or_plan-IsSound parse CommandIntent.reply_negative send_from other sound = sound
or_plan-IsSound parse CommandIntent.get_attachment send_from other sound = sound
or_plan-IsSound parse CommandIntent.send send_from other sound = sound
or_plan-IsSound parse CommandIntent.list_mailboxes send_from other sound = sound
or_plan-IsSound parse CommandIntent.list_labels send_from other sound = sound
or_plan-IsSound parse CommandIntent.list_folders send_from other sound = sound
or_plan-IsSound parse CommandIntent.list_today send_from other sound = sound
or_plan-IsSound parse CommandIntent.list_unread send_from other sound = sound
or_plan-IsSound parse CommandIntent.list_urgent send_from other sound = sound
or_plan-IsSound parse CommandIntent.list_deadlines send_from other sound = sound
or_plan-IsSound parse (CommandIntent.archive x) send_from other sound = sound
or_plan-IsSound parse (CommandIntent.summarize x) send_from other sound = sound
or_plan-IsSound parse (CommandIntent.read_aloud x) send_from other sound = sound
or_plan-IsSound parse (CommandIntent.mark_read x) send_from other sound = sound
or_plan-IsSound parse (CommandIntent.mark_important x) send_from other sound = sound
or_plan-IsSound parse (CommandIntent.mark_spam x) send_from other sound = sound
or_plan-IsSound parse (CommandIntent.move x) send_from other sound = sound
or_plan-IsSound parse (CommandIntent.snooze x) send_from other sound = sound
or_plan-IsSound parse (CommandIntent.translate x) send_from other sound = sound
or_plan-IsSound parse (CommandIntent.draft x) send_from other sound = sound
or_plan-IsSound parse (CommandIntent.delete x) send_from other sound = sound
or_plan-IsSound parse (CommandIntent.search x) send_from other sound = sound
or_plan-IsSound parse (CommandIntent.question x) send_from other sound = sound
or_plan-IsSound parse (CommandIntent.unknown x) send_from other sound = sound
or_plan-IsSound parse (CommandIntent.label x y) send_from other sound = sound
or_plan-IsSound parse (CommandIntent.forward x y) send_from other sound = sound
or_plan-IsSound parse (CommandIntent.reply x y z w) send_from other sound = sound

-- Whatever the command and whatever email it is about: something is carried out exactly when the
-- plan says that it is queued; a delete, a forward and a new email are only asked about; and what
-- acts on an email names one.
pub plan-IsSound :
    (parse : Text → Result (List Text)) (ctx : PlanContext)
    → IsSound (needs_confirmation ctx.intent) (plan parse ctx)
unfolding plan
plan-IsSound parse ctx =
    or_plan-IsSound parse ctx.intent ctx.send_from (plan_resolved ctx ctx.resolution)
      (plan_resolved-IsSound ctx ctx.resolution)
