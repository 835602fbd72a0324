-- ===== src/Undo/Tests.antt =====
-- Runs of undo, and the theorems about it on an archived email and on a queued draft.
use whatsapp_email_assistant.Common.{
  ◌≡◌, refl, false, none, some, List, [], ◌∷◌, ◌==◌, if◌then◌else◌, codes,
}
use whatsapp_email_assistant.AppError.{ok, err}
use whatsapp_email_assistant.Draft.{Draft, queued, Kind}
use whatsapp_email_assistant.Undo.{
  MailOperation, inverse_of, UndoableAction, Mailbox, Slot, take_last_action, undo, undo_fresh,
  nothing_to_undo,
}
use whatsapp_email_assistant.Undo.Laws.{undo-once}

-- A mailbox that keeps the operations it was asked for.
abbrev log : Mailbox (List MailOperation)
log = record {
  apply = λ m user message operation. (operation ∷ m, ok tt);
  cancel_snooze = λ m user message. (m, ok tt);
  apply_labels = λ m user message change. (m, ok ([], []));
}

abbrev draft_row : Draft
draft_row = record {
  user_id = 1;
  account_id = 1;
  kind = Kind.new;
  to = codes "ann@x.org" ∷ [];
  cc = [];
  bcc = [];
  subject = codes "Hi";
  body_cipher = codes "See you";
  in_reply_to = none;
  references = [];
  provider_thread_id = none;
  in_reply_to_message_id = none;
  idempotency_key = 7;
  status = queued;
  sent_at = none;
  sent_provider_message_id = none;
  failure_reason = none;
}

abbrev archived : UndoableAction
archived = record {
  email_message_id = 5;
  verb = codes "archive";
  operation = some MailOperation.unarchive;
  labels = none;
  snooze = false;
  draft_id = none;
  at = some 1000;
}

abbrev sending : UndoableAction
sending = record archived { operation = none; draft_id = some 2 }

abbrev slot_of : UndoableAction → Slot (List MailOperation)
slot_of action = record {
  db = record {
    drafts = λ k. if 2 == k then some draft_row else none;
    staged = [];
    phone_number = λ _. none;
    last_inbound_at = λ _. none;
  };
  last_action = λ u. if 1 == u then some action else none;
  mail = [];
}

undo_archive : (undo log (slot_of archived) 1 2000).0.mail ≡ MailOperation.unarchive ∷ []
unfolding undo take_last_action undo_fresh
undo_archive = refl

inverse_run : inverse_of MailOperation.archive ≡ some MailOperation.unarchive
unfolding inverse_of
inverse_run = refl

undo-once_example :
    let s' = (undo log (slot_of archived) 1 2000).0 in
    undo log s' 1 3000 ≡ (s', err nothing_to_undo)
undo-once_example = undo-once log (slot_of archived) 1 2000 3000
