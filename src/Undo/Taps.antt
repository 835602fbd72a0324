-- ===== src/Undo/Taps.antt =====
-- apps/worker/src/services/tap-interpreter.ts: what a button press means, and that what it does at
-- once can be taken back.
use whatsapp_email_assistant.Common.{
  ◌≡◌, refl, sym, ap, ◌∙◌, ◌≢◌, Bool, true, false, ◌&&◌, some, arith, Text, codes,
}
use whatsapp_email_assistant.ActionPayload.{requires_confirmation}
use whatsapp_email_assistant.Undo.{MailOperation, inverse_of}

pub data PayloadAction : Type 0 where
  reply reply_yes reply_no archive delete confirm_delete confirm_send forward : PayloadAction
  summarize translate read_aloud mark_read mark_important : PayloadAction
  open_thread cancel undo more : PayloadAction

unfoldable pub action_text : PayloadAction → Text
action_text PayloadAction.reply = codes "reply"
action_text PayloadAction.reply_yes = codes "reply_yes"
action_text PayloadAction.reply_no = codes "reply_no"
action_text PayloadAction.archive = codes "archive"
action_text PayloadAction.delete = codes "delete"
action_text PayloadAction.confirm_delete = codes "confirm_delete"
action_text PayloadAction.confirm_send = codes "confirm_send"
action_text PayloadAction.forward = codes "forward"
action_text PayloadAction.summarize = codes "summarize"
action_text PayloadAction.translate = codes "translate"
action_text PayloadAction.read_aloud = codes "read_aloud"
action_text PayloadAction.mark_read = codes "mark_read"
action_text PayloadAction.mark_important = codes "mark_important"
action_text PayloadAction.open_thread = codes "open_thread"
action_text PayloadAction.cancel = codes "cancel"
action_text PayloadAction.undo = codes "undo"
action_text PayloadAction.more = codes "more"

pub data TapEffect : Type 0 where
  mutate : MailOperation → Text → TapEffect
  canned_reply : Text → TapEffect
  confirm confirm_sending await_reply_text undo_last : TapEffect
  acknowledge : Text → TapEffect
  unavailable : Text → TapEffect

unfoldable pub interpret_tap : PayloadAction → TapEffect
interpret_tap PayloadAction.confirm_delete =
    mutate (MailOperation.delete false) (codes "Deleted. It is in your trash if you need it back.")
interpret_tap PayloadAction.archive = mutate MailOperation.archive (codes "Archived.")
interpret_tap PayloadAction.mark_read =
    mutate (MailOperation.mark_read true) (codes "Marked as read.")
interpret_tap PayloadAction.mark_important = mutate (MailOperation.star true) (codes "Starred.")
interpret_tap PayloadAction.delete = confirm
interpret_tap PayloadAction.reply = await_reply_text
interpret_tap PayloadAction.reply_yes = canned_reply (codes "Yes, that works for me.")
interpret_tap PayloadAction.reply_no = canned_reply (codes "No, that doesn't work for me.")
interpret_tap PayloadAction.cancel = acknowledge (codes "Cancelled. Nothing was sent.")
interpret_tap PayloadAction.open_thread =
    acknowledge (codes "Got it. What would you like to do — *reply*, *archive*, or *delete*?")
interpret_tap PayloadAction.confirm_send = confirm_sending
interpret_tap PayloadAction.forward = unavailable (codes "forward from a button")
interpret_tap PayloadAction.summarize = acknowledge (codes "Type _summarise_ and I’ll do it.")
interpret_tap PayloadAction.translate =
    acknowledge (codes "Type _translate to spanish_ — any language works.")
interpret_tap PayloadAction.read_aloud =
    acknowledge (codes "Type _read it aloud_ and I’ll record it.")
interpret_tap PayloadAction.undo = undo_last
interpret_tap PayloadAction.more = unavailable (codes "show more")

-- The effects that reach the mailbox or a correspondent at once.
unfoldable pub acts_at_once : TapEffect → Bool
acts_at_once (mutate _ _) = true
acts_at_once (canned_reply _) = true
acts_at_once confirm_sending = true
acts_at_once _ = false

abbrev deletes : MailOperation → Bool
deletes (MailOperation.delete _) = true
deletes _ = false

unfoldable pub is_confirmed_delete : PayloadAction → Bool
is_confirmed_delete PayloadAction.confirm_delete = true
is_confirmed_delete _ = false

-- What a tap does to the mailbox can be undone, and deletes only if the tap confirms a deletion;
-- and a verb that asks for a confirmation does nothing at once.
unfoldable pub IsCautious : PayloadAction → TapEffect → Type 0
IsCautious action effect =
    ((operation : MailOperation) (said : Text)
      → effect ≡ mutate operation said
      → ((inverse : MailOperation) × (inverse_of operation ≡ some inverse))
        × (deletes operation ≡ is_confirmed_delete action))
    × (requires_confirmation (action_text action) ≡ true → acts_at_once effect ≡ false)

mutate-injective :
    (o p : MailOperation) (s t : Text) → Path TapEffect (mutate o s) (mutate p t) → o ≡ p
mutate-injective o p s t h = ground arith

mutate-IsCautious :
    (action : PayloadAction) (operation inverse : MailOperation) (said : Text)
    → inverse_of operation ≡ some inverse
    → deletes operation ≡ is_confirmed_delete action
    → requires_confirmation (action_text action) ≡ false
    → IsCautious action (mutate operation said)
unfolding IsCautious
mutate-IsCautious action operation inverse said undone confirmed at_once = (
  λ o s h.
      let same = mutate-injective operation o said s h in
      ((inverse, ap inverse_of (sym same) ∙ undone), ap deletes (sym same) ∙ confirmed),
  λ asks. absurd (true≢false (sym asks ∙ at_once)),
)
  where
    true≢false : true ≢ false
    true≢false h = ground arith

abbrev is_mutate : TapEffect → Bool
is_mutate (mutate _ _) = true
is_mutate _ = false

other-IsCautious :
    (action : PayloadAction) (effect : TapEffect)
    → is_mutate effect ≡ false
    → (requires_confirmation (action_text action) && acts_at_once effect) ≡ false
    → IsCautious action effect
unfolding IsCautious
other-IsCautious action effect other quiet = (
  λ o s h. absurd (true≢false (sym (ap is_mutate h) ∙ other)),
  λ asks. sym (ap (λ b. b && acts_at_once effect) asks) ∙ quiet,
)
  where
    true≢false : true ≢ false
    true≢false h = ground arith

-- Whatever button is tapped: what the tap does to the mailbox can be undone, it deletes only if it
-- confirms a deletion, and a verb that asks for a confirmation does nothing at once.
pub interpret_tap-IsCautious : (action : PayloadAction) → IsCautious action (interpret_tap action)
unfolding interpret_tap action_text acts_at_once inverse_of is_confirmed_delete
    requires_confirmation
interpret_tap-IsCautious PayloadAction.confirm_delete =
    mutate-IsCautious _ _ MailOperation.restore _ refl refl refl
interpret_tap-IsCautious PayloadAction.archive =
    mutate-IsCautious _ _ MailOperation.unarchive _ refl refl refl
interpret_tap-IsCautious PayloadAction.mark_read =
    mutate-IsCautious _ _ (MailOperation.mark_read false) _ refl refl refl
interpret_tap-IsCautious PayloadAction.mark_important =
    mutate-IsCautious _ _ (MailOperation.star false) _ refl refl refl
interpret_tap-IsCautious PayloadAction.reply = other-IsCautious _ _ refl refl
interpret_tap-IsCautious PayloadAction.reply_yes = other-IsCautious _ _ refl refl
interpret_tap-IsCautious PayloadAction.reply_no = other-IsCautious _ _ refl refl
interpret_tap-IsCautious PayloadAction.delete = other-IsCautious _ _ refl refl
interpret_tap-IsCautious PayloadAction.confirm_send = other-IsCautious _ _ refl refl
interpret_tap-IsCautious PayloadAction.forward = other-IsCautious _ _ refl refl
interpret_tap-IsCautious PayloadAction.summarize = other-IsCautious _ _ refl refl
interpret_tap-IsCautious PayloadAction.translate = other-IsCautious _ _ refl refl
interpret_tap-IsCautious PayloadAction.read_aloud = other-IsCautious _ _ refl refl
interpret_tap-IsCautious PayloadAction.open_thread = other-IsCautious _ _ refl refl
interpret_tap-IsCautious PayloadAction.cancel = other-IsCautious _ _ refl refl
interpret_tap-IsCautious PayloadAction.undo = other-IsCautious _ _ refl refl
interpret_tap-IsCautious PayloadAction.more = other-IsCautious _ _ refl refl
