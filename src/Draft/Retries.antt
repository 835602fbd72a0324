-- ===== src/Draft/Retries.antt =====
-- A draft whose provider is down twice before it answers, and one whose responses are lost.
use whatsapp_email_assistant.Common.{
  ℕ, ◌≡◌, refl, inr, true, false, Option, none, some, List, [], ◌∷◌, codes,
}
use whatsapp_email_assistant.AppError.{ok, err, known, app_error, app_error_from, provider_error}
use whatsapp_email_assistant.Draft.{
  Draft, queued, Kind, sent, ClaimedDraft, StagedAttachment, Db, list_for_draft, put,
}
use whatsapp_email_assistant.Draft.Send.{
  Services, World, OutboundAttachment, completed, exhausted, run_job, collect_attachments,
  collect_staged, forwarded_from, collect_from,
}
use whatsapp_email_assistant.Draft.Claims.{sends}
use whatsapp_email_assistant.Draft.Unheard.{Unheard, repeated, run_job-sends_each_time}
use whatsapp_email_assistant.Draft.Eventually.{IsOutage, IsUp, Waits, status_of, run_job-sends}

abbrev waiting : Draft
waiting = record {
  user_id = 1;
  account_id = 3;
  kind = Kind.reply;
  to = codes "ann@acme.com" ∷ [];
  cc = [];
  bcc = [];
  subject = codes "Re: Lunch";
  body_cipher = codes "See you";
  in_reply_to = none;
  references = [];
  provider_thread_id = none;
  in_reply_to_message_id = some 9;
  idempotency_key = 77;
  status = queued;
  sent_at = none;
  sent_provider_message_id = none;
  failure_reason = none;
}

abbrev world : World
world = record {
  db = record {
    drafts = put 2 waiting (λ _. none);
    staged = [];
    phone_number = λ _. some (codes "+254700000000");
    last_inbound_at = λ _. some 0;
  };
  outbox = [];
  chat = [];
  reauth_required = [];
}

abbrev good : Services
good = record {
  now = 100;
  decrypt_body = λ t. ok t;
  load_account = λ _. ok tt;
  find_for_forward = λ m. none;
  get_message = λ _. ok [];
  get_attachment = λ _ _. ok (codes "bytes");
  fetch_media = λ _. ok (codes "bytes");
  send = λ _. ok 500;
  arrives_unheard = λ _. false;
  send_whatsapp = λ _ _. ok 600;
}

abbrev down : Services
down = record good { send = λ _. err (known (app_error provider_error none none)) }

staged_fetched :
    (l : List StagedAttachment)
    → (files : List OutboundAttachment) × (collect_staged good l ≡ ok files)
      × (collect_staged down l ≡ ok files)
unfolding collect_staged
staged_fetched [] = ([], refl, refl)
staged_fetched (f ∷ l) =
    let (files, e, d) = staged_fetched l in
    (
      record { filename = f.filename; content = codes "bytes" } ∷ files,
      rw (e, collect_staged) refl,
      rw (d, collect_staged) refl,
    )

no_forwarded :
    (kind : Kind) (m : Option ℕ)
    → (forwarded_from good kind m ≡ ok []) × (forwarded_from down kind m ≡ ok [])
unfolding forwarded_from collect_from
no_forwarded Kind.reply m = (refl, refl)
no_forwarded Kind.new m = (refl, refl)
no_forwarded Kind.forward none = (refl, refl)
no_forwarded Kind.forward (some m) = (refl, refl)

collected :
    (db : Db) (c : ClaimedDraft)
    → (files : List OutboundAttachment) × (collect_attachments good db 1 c ≡ ok files)
      × (collect_attachments down db 1 c ≡ ok files)
unfolding collect_attachments
collected db c =
    let (g, h) = no_forwarded c.kind c.in_reply_to_message_id in
    let (files, e, d) = staged_fetched (list_for_draft db 1 c.id) in
    (files, rw (g, e, collect_attachments) refl, rw (h, d, collect_attachments) refl)

outage : IsOutage 1 (codes "See you") 3 down
unfolding app_error app_error_from
outage = record {
  readable = (codes "See you", refl);
  cause = known (app_error provider_error none none);
  retryable = refl;
  fails = λ w c _. let (files, _, d) = collected w.db c in (refl, inr (files, d, refl, refl));
}

up : IsUp 1 (codes "See you") 3 good
up = record {
  readable = (codes "See you", refl);
  loads = refl;
  collects = λ db c. let (files, e, _) = collected db c in (files, e);
  takes = λ m. (500, refl);
  tells = λ phone notice. (600, refl);
}

waits : Waits world 1 2 (codes "See you") 3
waits = record {
  row = waiting;
  there = refl;
  own = refl;
  waiting = refl;
  same_body = refl;
  same_account = refl;
}

run_job-sends_example :
    let (v, end) = run_job (down ∷ down ∷ good ∷ []) world 1 2 in
    (end ≡ completed) × (status_of (v.db.drafts 2) ≡ some sent) × (sends 2 v ≡ 1)
run_job-sends_example =
    run_job-sends 1 2 (codes "See you") 3 (down ∷ down ∷ []) good [] world (outage, (outage, tt)) up
      waits

-- The request goes out, and its response is lost.
abbrev cut_off : Services
cut_off = record down { arrives_unheard = λ _. true }

cut_off-Unheard :
    Unheard cut_off world 1 2 waiting (codes "See you") (known (app_error provider_error none none))
unfolding app_error app_error_from list_for_draft
cut_off-Unheard = record {
  there = refl;
  own = refl;
  waiting = refl;
  plain = refl;
  no_files = refl;
  readable = refl;
  loaded = refl;
  not_heard = refl;
  arrives = refl;
  asks_again = refl;
}

run_job-sends_each_time_example :
    let (v, end) = run_job (repeated 3 cut_off) world 1 2 in (end ≡ exhausted) × (sends 2 v ≡ 3)
run_job-sends_each_time_example =
    run_job-sends_each_time cut_off 1 2 (codes "See you")
      (known (app_error provider_error none none)) 3 world waiting cut_off-Unheard
