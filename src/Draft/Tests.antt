-- ===== src/Draft/Tests.antt =====
-- Drafts, workers and services on concrete inputs.
use whatsapp_email_assistant.Common.{
  ◌+◌, ◌≤◌, ◌≡◌, refl, inr, true, false, none, some, List, [], ◌∷◌, codes,
}
use whatsapp_email_assistant.AppError.{
  known, ok, err, app_error, app_error_from, provider_unauthorized, provider_error,
  validation_failed,
}
use whatsapp_email_assistant.Window.{is_window_open}
use whatsapp_email_assistant.Draft.{
  Draft, queued, Kind, forward, ClaimedDraft, StagedAttachment, Db, claimed, cancel_if_queued,
  create_for_send, list_for_draft, claim_for_sending, mark_sent, mark_failed, put,
}
use whatsapp_email_assistant.Draft.Send.{
  Services, World, OutboundAttachment, deliver, handle, run_job, collect_attachments, claim, reply,
  on_sent, on_error,
}
use whatsapp_email_assistant.Draft.Claims.{sends, SettlesOnce}
use whatsapp_email_assistant.Draft.Race.{Event, create, start, finish, cancel, step, run}
use whatsapp_email_assistant.Draft.Once.{idle, sent_at_most_once}
use whatsapp_email_assistant.Draft.Undone.{cancelled_never_sent}
use whatsapp_email_assistant.Draft.Faults.{
  Unconfirmed, load_failure_strands, Unconfirmed-sends_twice,
}
use whatsapp_email_assistant.Draft.Errors.{Fails, failed_attempt}

-- A reply of user 1, from account 3 and without files.
abbrev draft_row : Draft
draft_row = record {
  user_id = 1;
  account_id = 3;
  kind = Kind.reply;
  to = codes "ann@acme.com" ∷ [];
  cc = [];
  bcc = [];
  subject = codes "Re: Lunch";
  body_cipher = codes "See you";
  in_reply_to = none;
  references = [];
  provider_thread_id = none;
  in_reply_to_message_id = some 9;
  idempotency_key = 77;
  status = queued;
  sent_at = none;
  sent_provider_message_id = none;
  failure_reason = none;
}

abbrev photo : StagedAttachment
photo = record {
  user_id = 1;
  whatsapp_media_id = 40;
  whatsapp_message_id = 41;
  filename = codes "photo.jpg";
  mime_type = codes "image/jpeg";
  size_bytes = 1000;
  draft_id = none;
  expires_at = 500;
}

abbrev no_drafts : Db
no_drafts = record {
  drafts = λ _. none;
  staged = [];
  phone_number = λ _. some (codes "+254700000000");
  last_inbound_at = λ _. some 0;
}

abbrev one_draft : Db
one_draft = record no_drafts { drafts = put 2 draft_row (λ _. none) }

abbrev world_of : Db → World
world_of db = record { db = db; outbox = []; chat = []; reauth_required = [] }

-- Services that work.
abbrev good : Services
good = record {
  now = 100;
  decrypt_body = λ t. ok t;
  load_account = λ _. ok tt;
  find_for_forward = λ m. some (m + 1);
  get_message = λ _. ok (
      record { attachment_id = 1; filename = codes "invoice.pdf"; is_inline = false }
      ∷ record { attachment_id = 2; filename = codes "logo.png"; is_inline = true }
      ∷ []);
  get_attachment = λ _ _. ok (codes "bytes");
  fetch_media = λ _. ok (codes "bytes");
  send = λ _. ok 500;
  arrives_unheard = λ _. false;
  send_whatsapp = λ _ _. ok 600;
}

abbrev meta_down : Services
meta_down = record good { send_whatsapp = λ _ _. err (known (app_error provider_error none none)) }

abbrev disconnected : Services
disconnected = record good {
  load_account = λ _. err (known (app_error provider_unauthorized none (some false)));
}

abbrev refusing : Services
refusing = record good { send = λ _. err (known (app_error validation_failed none none)) }

good-SettlesOnce : SettlesOnce good
good-SettlesOnce = (λ phone notice e h. cc, λ m e h a. cc)

-- One job is delivered to two workers, with an undo too late.
abbrev twice_delivered : List Event
twice_delivered =
    create 2 10 draft_row
    ∷ start 0 1 2 good
    ∷ start 1 1 2 good
    ∷ finish 0 good
    ∷ cancel 1 2
    ∷ start 1 1 2 good
    ∷ finish 1 good
    ∷ []

twice_delivered_once : sends 2 (run (idle no_drafts) twice_delivered).world ≡ 1
unfolding run step claim claim_for_sending deliver collect_attachments list_for_draft on_sent
    mark_sent reply create_for_send cancel_if_queued
twice_delivered_once = refl

sent_at_most_once_example : sends 2 (run (idle no_drafts) twice_delivered).world ≤ 1
sent_at_most_once_example =
    sent_at_most_once 2 no_drafts twice_delivered
      (tt, (tt, (tt, (good-SettlesOnce, (tt, (tt, (good-SettlesOnce, tt)))))))

cancelled_never_sent_example :
    sends 2
      (run
        (step (run (idle no_drafts) (create 2 10 draft_row ∷ [])) (cancel 1 2))
        twice_delivered).world
    ≡ 0
unfolding run step create_for_send cancel_if_queued
cancelled_never_sent_example =
    cancelled_never_sent 2 1 no_drafts (create 2 10 draft_row ∷ []) twice_delivered (tt, tt) refl

load_failure_strands_example :
    handle good (handle disconnected (world_of one_draft) 1 2).0 1 2
    ≡ ((handle disconnected (world_of one_draft) 1 2).0, ok tt)
load_failure_strands_example =
    (load_failure_strands disconnected (world_of one_draft) 1 2 draft_row good refl refl refl refl
      refl).4

meta_down-Unconfirmed :
    Unconfirmed meta_down
      (world_of one_draft)
      1
      2
      draft_row
      (codes "See you")
      (known (app_error provider_error none none))
unfolding list_for_draft is_window_open app_error app_error_from
meta_down-Unconfirmed = record {
  there = refl;
  own = refl;
  waiting = refl;
  plain = refl;
  no_files = refl;
  readable = refl;
  loaded = refl;
  provider_id = 500;
  taken = refl;
  open_window = refl;
  failing = refl;
  asks_again = refl;
}

Unconfirmed-sends_twice_example :
    sends 2 (handle meta_down (handle meta_down (world_of one_draft) 1 2).0 1 2).0 ≡ 2
Unconfirmed-sends_twice_example =
    Unconfirmed-sends_twice meta_down (world_of one_draft) 1 2 draft_row (codes "See you")
      (known (app_error provider_error none none)) meta_down-Unconfirmed

-- The job's three attempts send three copies.
three_copies :
    sends 2 (run_job (meta_down ∷ meta_down ∷ meta_down ∷ []) (world_of one_draft) 1 2).0 ≡ 3
unfolding run_job handle claim claim_for_sending deliver collect_attachments list_for_draft on_sent
    on_error mark_sent mark_failed reply app_error_from app_error
three_copies = refl

abbrev held_draft : ClaimedDraft
held_draft = claimed one_draft 1 2 draft_row (codes "See you")

refusing-Fails :
    Fails refusing (world_of one_draft) 1 held_draft (known (app_error validation_failed none none))
unfolding collect_attachments list_for_draft
refusing-Fails = (refl, inr ([], refl, refl, refl))

failed_attempt_example :
    (deliver refusing (world_of one_draft) 1 held_draft).1
    ≡ err (known (app_error_from (known (app_error validation_failed none none))))
failed_attempt_example =
    (failed_attempt refusing (world_of one_draft) 1 held_draft
      (known (app_error validation_failed none none)) draft_row refusing-Fails refl refl).0

abbrev forwarded : ClaimedDraft
forwarded = record held_draft { kind = forward }

abbrev with_photo : Db
with_photo = record one_draft { staged = record photo { draft_id = some 2 } ∷ [] }

abbrev sent_files : List OutboundAttachment
sent_files =
    record { filename = codes "invoice.pdf"; content = codes "bytes" }
    ∷ record { filename = codes "photo.jpg"; content = codes "bytes" }
    ∷ []
