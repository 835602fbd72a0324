-- ===== src/Commands/Told.antt =====
-- What the user is told: of whom a new email goes to, and of what was undone.
use whatsapp_email_assistant.Common.{
  ℕ, ◌<◌, ◌≡◌, refl, sym, true, false, Option, none, some, List, [], ◌∷◌, ◌++◌, append_assoc,
  append-nil, length, Text, codes, trim,
}
use whatsapp_email_assistant.AppError.{Result, ok}
use whatsapp_email_assistant.Builders.Clamp.{clamp-hides}
use whatsapp_email_assistant.Resolver.{filled, or_blank}
use whatsapp_email_assistant.Undo.{MailOperation, describe_undo, inverse_of}
use whatsapp_email_assistant.Commands.{ComposeIntent, Services, inverse}
use whatsapp_email_assistant.Commands.Attempt.{operation_kind, remember}
use whatsapp_email_assistant.Commands.Plan.{PlannedEffect, compose}
use whatsapp_email_assistant.Commands.Compose.{
  join_with, copies_of, build_send_confirmation, plan_compose, non_empty,
}

abbrev rest_of : Text → List Text → Text
rest_of separator [] = []
rest_of separator (y ∷ ys) = separator ++ join_with separator (y ∷ ys)

join_with-rest_of :
    (separator x : Text) (ys : List Text) → join_with separator (x ∷ ys) ≡ x ++ rest_of separator ys
join_with-rest_of separator x [] = sym (append-nil x)
join_with-rest_of separator x (y ∷ ys) = append_assoc x separator (join_with separator (y ∷ ys))

build_send_confirmation-hides :
    (to preview : Text) (lines others : List Text)
    → 100 < length to
    → build_send_confirmation (join_with (codes "\n") (to ∷ lines)) preview
      ≡ build_send_confirmation (join_with (codes "\n") (to ∷ others)) preview
unfolding build_send_confirmation
build_send_confirmation-hides to preview lines others long =
    rw
      (
        join_with-rest_of (codes "\n") to lines,
        join_with-rest_of (codes "\n") to others,
        clamp-hides 100 to (rest_of (codes "\n") lines) (rest_of (codes "\n") others) long,
      )
      refl

abbrev pub bcc_of : Option PlannedEffect → Option Text
bcc_of (some (compose p)) = p.bcc
bcc_of _ = none

-- When the addresses that a new email is to are more than a hundred characters, the confirmation
-- that the user reads is the same whatever the blind copies are, and so does not show them; but
-- the email that it confirms has them all.
pub plan_compose-hides :
    (parse : Text → Result (List Text)) (intent : ComposeIntent) (send_from : Option (Text × Text))
    (bcc : Option Text) (recipients copies blind others : List Text) (c : ℕ) (body : Text)
    → parse intent.to ≡ ok recipients
    → copies_of parse (filled intent.cc) ≡ ok copies
    → copies_of parse (filled intent.bcc) ≡ ok blind
    → copies_of parse (filled bcc) ≡ ok others
    → trim (or_blank intent.body) ≡ c ∷ body
    → 100 < length (join_with (codes ", ") recipients)
    → let changed = plan_compose parse (record intent { bcc = bcc }) send_from in
      (changed.payload ≡ (plan_compose parse intent send_from).payload)
      × (bcc_of changed.effect ≡ non_empty (join_with (codes ", ") others))
unfolding plan_compose
plan_compose-hides parse intent send_from bcc recipients copies blind others c body to cc b o w
      long =
    (
      rw (to, cc, b, o, w)
          (build_send_confirmation-hides (join_with (codes ", ") recipients) _ _ _ long),
      rw (to, cc, o, w) refl,
    )

-- Taking a star off, or mail out of spam, is recorded with the same verb as putting it on or in.
-- So undoing it says that the star is off, or the mail out of spam, when it is just now on or in.
pub remember-says_opposite :
    {S : Type 0} (svc : Services S) (s : S) (email : Text)
    → let unstar = MailOperation.star false in
      let not_spam = MailOperation.spam false in
      (remember svc s email (operation_kind unstar) unstar
        ≡ svc.record_undo s email (inverse (codes "star") (MailOperation.star true)))
      × (describe_undo (operation_kind unstar) ≡ codes "Unstarred.")
      × (remember svc s email (operation_kind not_spam) not_spam
          ≡ svc.record_undo s email (inverse (codes "spam") (MailOperation.spam true)))
      × (describe_undo (operation_kind not_spam) ≡ codes "Out of spam and back in your inbox.")
unfolding remember describe_undo inverse_of
remember-says_opposite svc s email = (refl, refl, refl, refl)
