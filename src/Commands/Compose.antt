-- ===== src/Commands/Compose.antt =====
-- apps/worker/src/services/response-planner.ts: the plan for a new email, and the confirmations of
-- packages/whatsapp/src/builders.ts.
use whatsapp_email_assistant.Common.{
  Option, none, some, List, [], ◌∷◌, ◌++◌, String, Text, codes, trim,
}
use whatsapp_email_assistant.AppError.{Result, ok, err, ◌>>=◌, app_error_from}
use whatsapp_email_assistant.Builders.{clamp}
use whatsapp_email_assistant.Resolver.{filled, or_blank}
use whatsapp_email_assistant.Commands.{
  ComposeIntent, Payload, delete_confirmation, compose_confirmation,
}
use whatsapp_email_assistant.Commands.Plan.{
  PlannedResponse, named, no_effect, with_effect, compose, nothing, await_confirmation,
}

-- `buildDeleteConfirmation` and `buildSendConfirmation`, without the headings.
abbrev pub build_delete_confirmation : (email subject : Text) → Payload
build_delete_confirmation email subject = delete_confirmation email (
    clamp (codes "*" ++ clamp subject 150 ++ codes "*\n\nThis moves it to trash in your mailbox.")
      1024)

unfoldable pub build_send_confirmation : (recipient preview : Text) → Payload
build_send_confirmation recipient preview =
    compose_confirmation
      (clamp (codes "*To:* " ++ clamp recipient 100 ++ codes "\n\n" ++ preview) 1024)

abbrev pub line_of : String → Text → List Text
line_of label [] = []
line_of label (c ∷ s) = (codes label ++ (c ∷ s)) ∷ []

abbrev pub sender_line : Option (Text × Text) → List Text
sender_line none = []
sender_line (some (id, address)) = (codes "*From:* " ++ address) ∷ []

abbrev pub sender_id : Option (Text × Text) → Option Text
sender_id none = none
sender_id (some (id, address)) = some id

-- `join(', ')` and `join('\n')`.
abbrev pub join_with : Text → List Text → Text
join_with separator [] = []
join_with separator (x ∷ []) = x
join_with separator (x ∷ y ∷ ys) = x ++ separator ++ join_with separator (y ∷ ys)

abbrev pub copies_of : (Text → Result (List Text)) → Option Text → Result (List Text)
copies_of parse none = ok []
copies_of parse (some cc) = parse cc

abbrev pub subject_or_none : Text → Text
subject_or_none [] = codes "(no subject)"
subject_or_none (c ∷ s) = c ∷ s

abbrev pub non_empty : Text → Option Text
non_empty [] = none
non_empty (c ∷ s) = some (c ∷ s)

abbrev pub first_of : List Text → Text
first_of [] = []
first_of (x ∷ xs) = x

abbrev pub ask_for_body : ComposeIntent → List Text → PlannedResponse
ask_for_body intent recipients =
    no_effect
      (Payload.text (
        codes "I have the address. What should the email say?\n\nTry: _email "
        ++ first_of recipients
        ++ codes " about "
        ++ named intent.subject "the invoice"
        ++ codes " saying …_"))
      nothing none

-- The confirmation names everyone who will receive the email, and the mailbox it is sent from.
abbrev pub confirm_compose :
    Option (Text × Text) → (to cc bcc subject body : Text) → PlannedResponse
confirm_compose send_from to cc bcc subject body =
    with_effect
      (build_send_confirmation
        (join_with (codes "\n")
          (to ∷ line_of "*Cc:* " cc ++ line_of "*Bcc:* " bcc ++ sender_line send_from))
        (codes "*Subject:* " ++ subject ++ codes "\n\n" ++ body))
      await_confirmation
      (compose (record {
        to = to;
        cc = non_empty cc;
        bcc = non_empty bcc;
        account_id = sender_id send_from;
        subject = subject;
        body = body;
      }))
      none

abbrev pub compose_body :
    Option (Text × Text)
    → ComposeIntent
    → List Text × List Text × List Text
    → Text
    → PlannedResponse
compose_body send_from intent (recipients, copies, blind) [] = ask_for_body intent recipients
compose_body send_from intent (recipients, copies, blind) (c ∷ body) =
    confirm_compose send_from (join_with (codes ", ") recipients) (join_with (codes ", ") copies)
      (join_with (codes ", ") blind) (subject_or_none (trim (or_blank intent.subject))) (c ∷ body)

abbrev pub compose_to :
    Option (Text × Text)
    → ComposeIntent
    → Result (List Text × List Text × List Text)
    → PlannedResponse
compose_to send_from intent (err e) =
    no_effect (Payload.text ((app_error_from e).public_message)) nothing none
compose_to send_from intent (ok addressed) =
    compose_body send_from intent addressed (trim (or_blank intent.body))

-- `planCompose`, for a given parser of recipient lists.
unfoldable pub plan_compose :
    (Text → Result (List Text)) → ComposeIntent → Option (Text × Text) → PlannedResponse
plan_compose parse intent send_from = compose_to send_from intent (
    parse intent.to >>= λ recipients. copies_of parse (filled intent.cc) >>= λ copies.
    copies_of parse (filled intent.bcc) >>= λ blind. ok (recipients, copies, blind))
