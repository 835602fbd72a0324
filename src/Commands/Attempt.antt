-- ===== src/Commands/Attempt.antt =====
-- Trying an action, and what is recorded or said of it, in
-- apps/worker/src/processors/commands.processor.ts.
use whatsapp_email_assistant.Common.{
  none, some, List, [], ◌∷◌, if◌then◌else◌, Text, codes, mem_text,
}
use whatsapp_email_assistant.AppError.{
  Result, ok, err, AppError, app_error_from, ErrorCode, not_found, conflict, provider_unauthorized,
  provider_rate_limited, payload_too_large, bad_request,
}
use whatsapp_email_assistant.Undo.{MailOperation, inverse_of}
use whatsapp_email_assistant.Commands.{Payload, Services, Answer, Failure, code, inverse}

abbrev pub generic_failure : Text
generic_failure = codes "Something went wrong and I couldn't do that. Please try again."

abbrev pub failure_for : ErrorCode → Text
failure_for not_found =
    codes "I couldn't find that email any more — it may have been deleted or moved."
failure_for conflict = codes "That email is already in your trash."
failure_for provider_unauthorized =
    codes "I lost access to your mailbox. Please reconnect it and try again."
failure_for provider_rate_limited =
    codes "Your mail provider is rate-limiting us. Try again in a minute."
failure_for payload_too_large = codes "That email's attachments are too large to forward."
failure_for bad_request = codes "I didn't have enough to go on there."
failure_for _ = generic_failure

unfoldable pub user_facing_failure : AppError → Text
user_facing_failure e =
    if e.has_specific_public_message then e.public_message else failure_for e.code

abbrev pub dealt_with_verbs : List Text
dealt_with_verbs =
    codes "archive" ∷ codes "delete" ∷ codes "spam" ∷ codes "reply" ∷ codes "move" ∷ []

-- The `kind` of an operation, which serves as the verb.
abbrev pub operation_kind : MailOperation → Text
operation_kind MailOperation.archive = codes "archive"
operation_kind MailOperation.unarchive = codes "unarchive"
operation_kind MailOperation.restore = codes "restore"
operation_kind (MailOperation.delete _) = codes "delete"
operation_kind (MailOperation.mark_read _) = codes "markRead"
operation_kind (MailOperation.star _) = codes "star"
operation_kind (MailOperation.label _ _) = codes "label"
operation_kind (MailOperation.move _) = codes "move"
operation_kind (MailOperation.spam _) = codes "spam"

abbrev pub failed_with : Text → Failure → Answer
failed_with said why = record { payload = Payload.text said; failed = some why }

module _ {S : Type 0} where
  abbrev pub after {ℓ κ} :
      {A : Type ℓ} {B : Type κ} → S × Result A → (S → A → S × Result B) → S × Result B
  after (s, ok a) k = k s a
  after (s, err e) k = (s, err e)

  -- `attempt`: the message is picked by what happened.
  unfoldable pub attempt : {A : Type 0} → S × Result A → (A → Payload) → S × Answer
  attempt (s, ok a) on_success = (s, record { payload = on_success a; failed = none })
  attempt (s, err e) on_success =
      (s, failed_with (user_facing_failure (app_error_from e)) (code ((app_error_from e).code)))

  unfoldable pub dealt_with : Services S → S → Text → (verb : Text) → S
  dealt_with svc s id verb = if mem_text verb dealt_with_verbs then svc.cancel_snooze s id else s

  -- `remember`: an operation with no inverse records nothing.
  unfoldable pub remember : Services S → S → Text → (verb : Text) → MailOperation → S
  remember svc s id verb operation = elim (inverse_of operation) [
    | none ↦ s
    | some back ↦ svc.record_undo s id (inverse verb back)
  ]
