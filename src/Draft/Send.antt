-- ===== src/Draft/Send.antt =====
-- apps/worker/src/processors/send.processor.ts, with `reply` of services/outbound.service.ts, and
-- the retry rule of processors/base.processor.ts.
use whatsapp_email_assistant.Common.{
  ℕ, Bool, true, false, Option, none, some, List, [], ◌∷◌, ◌++◌, if◌then◌else◌, length, Text, codes,
}
use whatsapp_email_assistant.AppError.{
  Thrown, known, Result, ok, err, ◌>>=◌, app_error_from, ErrorCode, provider_unauthorized,
}
use whatsapp_email_assistant.Window.{is_window_open}
use whatsapp_email_assistant.Draft.{
  StagedAttachment, ClaimedDraft, Kind, forward, Db, Claim, gone, held, threw, claim_for_sending,
  list_for_draft, mark_sent, mark_failed,
}

pub record RemoteAttachment : Type 0 where
  pub attachment_id : ℕ
  pub filename : Text
  pub is_inline : Bool

pub record OutboundAttachment : Type 0 where
  pub filename : Text
  pub content : Text

pub record OutboundMessage : Type 0 where
  pub to : List Text
  pub cc : List Text
  pub bcc : List Text
  pub subject : Text
  pub body_text : Text
  pub attachments : List OutboundAttachment
  pub in_reply_to : Option Text
  pub references : List Text
  pub provider_thread_id : Option ℕ
  pub idempotency_key : ℕ

-- What is said in the chat: `Sent to … with … files.`, or `I couldn't send that. …`.
pub data Notice : Type 0 where
  sent_to : Text → ℕ → Notice
  could_not_send : Text → Notice

pub data Delivery : Type 0 where
  delivered undelivered : Notice → Delivery

-- The services that one attempt meets: the mailbox, the mail provider, Meta's API, the key
-- service, and the clock. A send can fail although the message arrives, as when the response to the
-- request is lost.
pub record Services : Type 0 where
  pub now : ℕ
  pub decrypt_body : Text → Result Text
  pub load_account : ℕ → Result (Unit {0})
  pub find_for_forward : ℕ → Option ℕ
  pub get_message : ℕ → Result (List RemoteAttachment)
  pub get_attachment : ℕ → ℕ → Result Text
  pub fetch_media : ℕ → Result Text
  pub send : OutboundMessage → Result ℕ
  pub arrives_unheard : OutboundMessage → Bool
  pub send_whatsapp : Text → Notice → Result ℕ

-- The database, and what has left the system: the emails that a provider took, newest first, each
-- with its draft; the chat messages tried; and the accounts marked as needing a new consent.
pub record World : Type 0 where
  pub db : Db
  pub outbox : List (ℕ × OutboundMessage)
  pub chat : List Delivery
  pub reauth_required : List ℕ

-- The loop over the original's files that are not inline.
unfoldable pub collect_remote :
    Services → ℕ → List RemoteAttachment → Result (List OutboundAttachment)
collect_remote svc original [] = ok []
collect_remote svc original (a ∷ rest) =
    let others = collect_remote svc original rest in
    if a.is_inline then others else do
      content ← svc.get_attachment original a.attachment_id
      collected ← others
      ok (record { filename = a.filename; content = content } ∷ collected)

unfoldable pub collect_from : Services → Option ℕ → Result (List OutboundAttachment)
unfolding collect_remote
collect_from svc none = ok []
collect_from svc (some original) = do
  attachments ← svc.get_message original
  collect_remote svc original attachments

unfoldable pub forwarded_from : Services → Kind → Option ℕ → Result (List OutboundAttachment)
unfolding collect_from
forwarded_from svc forward (some email_message_id) =
    collect_from svc (svc.find_for_forward email_message_id)
forwarded_from svc _ _ = ok []

unfoldable pub collect_staged : Services → List StagedAttachment → Result (List OutboundAttachment)
collect_staged svc [] = ok []
collect_staged svc (f ∷ rest) = do
  content ← svc.fetch_media f.whatsapp_media_id
  collected ← collect_staged svc rest
  ok (record { filename = f.filename; content = content } ∷ collected)

unfoldable pub collect_attachments :
    Services → Db → ℕ → ClaimedDraft → Result (List OutboundAttachment)
unfolding forwarded_from collect_staged
collect_attachments svc db user draft = do
  forwarded ← forwarded_from svc draft.kind draft.in_reply_to_message_id
  files ← collect_staged svc (list_for_draft db user draft.id)
  ok (forwarded ++ files)

abbrev pub message_of : ClaimedDraft → List OutboundAttachment → OutboundMessage
message_of draft attachments = record {
  to = draft.to;
  cc = draft.cc;
  bcc = draft.bcc;
  subject = draft.subject;
  body_text = draft.body_text;
  attachments = attachments;
  in_reply_to = draft.in_reply_to;
  references = draft.references;
  provider_thread_id = draft.provider_thread_id;
  idempotency_key = draft.idempotency_key;
}

-- `OutboundService.reply`: nothing is sent outside the window; what is tried is recorded.
unfoldable pub reply : Services → World → ClaimedDraft → Notice → World × Result (Unit {0})
unfolding is_window_open
reply svc w draft notice =
    let tried =
      elim (svc.send_whatsapp draft.phone_number notice) as (λ _. World × Result (Unit {0})) [
        | ok _ ↦ (record w { chat = delivered notice ∷ w.chat }, ok tt)
        | err e ↦ (record w { chat = undelivered notice ∷ w.chat }, err (known (app_error_from e)))
      ] in
    if is_window_open draft.last_inbound_at svc.now then tried else (w, ok tt)

abbrev pub first_or_them : List Text → Text
first_or_them [] = codes "them"
first_or_them (a ∷ _) = a

abbrev is_unauthorized : ErrorCode → Bool
is_unauthorized provider_unauthorized = true
is_unauthorized _ = false

-- The `catch` block: release or fail the draft, note a lost consent, and tell the user.
unfoldable pub on_error : Services → World → ℕ → ClaimedDraft → Thrown → World × Result (Unit {0})
unfolding app_error_from
on_error svc w user draft thrown =
    let error = app_error_from thrown in
    let w1 = record w {
      db = mark_failed w.db user draft.id error.public_message error.retryable;
    } in
    let w2 =
      if is_unauthorized error.code
      then record w1 { reauth_required = draft.account_id ∷ w1.reauth_required }
      else w1 in
    let told = (reply svc w2 draft (could_not_send error.public_message)).0 in
    (if error.retryable then w2 else told, err (known error))

-- The `try` block after the send: record it, and confirm it in the chat.
unfoldable pub on_sent :
    Services → World → ℕ → ClaimedDraft → OutboundMessage → ℕ → World × Result (Unit {0})
on_sent svc w user draft message provider_message_id =
    let w1 = record w {
      db = mark_sent w.db user draft.id provider_message_id svc.now;
      outbox = (draft.id, message) ∷ w.outbox;
    } in
    reply svc w1 draft (sent_to (first_or_them draft.to) (length message.attachments))

abbrev pub catching :
    Services → ℕ → ClaimedDraft → World × Result (Unit {0}) → World × Result (Unit {0})
catching svc user draft (w, ok _) = (w, ok tt)
catching svc user draft (w, err e) = on_error svc w user draft e

-- A message that is out, whatever is known of it here.
abbrev pub with_sent : World → ClaimedDraft → OutboundMessage → World
with_sent w draft message = record w { outbox = (draft.id, message) ∷ w.outbox }

unfoldable pub send_with :
    Services
    → World
    → ℕ
    → ClaimedDraft
    → Result (List OutboundAttachment)
    → World × Result (Unit {0})
send_with svc w user draft (err e) = (w, err e)
send_with svc w user draft (ok attachments) =
    let message = message_of draft attachments in
    elim (svc.send message) [
      | ok id ↦ on_sent svc w user draft message id
      | err e ↦ (if svc.arrives_unheard message then with_sent w draft message else w, err e)
    ]

-- `handle` from the claim on. The account is loaded outside the `try`.
unfoldable pub deliver : Services → World → ℕ → ClaimedDraft → World × Result (Unit {0})
unfolding send_with
deliver svc w user draft = elim (svc.load_account draft.account_id) [
  | err e ↦ (w, err e)
  | ok _ ↦
      catching svc user draft (send_with svc w user draft (collect_attachments svc w.db user draft))
]

unfoldable pub claim : Services → World → ℕ → ℕ → World × Claim
claim svc w user id =
    let (db', c) = claim_for_sending svc.decrypt_body w.db user id in (record w { db = db' }, c)

-- `SendProcessor.handle`.
abbrev after_claim : Services → ℕ → World × Claim → World × Result (Unit {0})
after_claim svc user (w, gone) = (w, ok tt)
after_claim svc user (w, threw e) = (w, err e)
after_claim svc user (w, held draft) = deliver svc w user draft

unfoldable pub handle : Services → World → ℕ → ℕ → World × Result (Unit {0})
handle svc w user id = after_claim svc user (claim svc w user id)

-- What becomes of a job: `startWorker` discards it on an error that is not retryable, and the
-- queue tries again otherwise, once for each element of the list.
pub data JobEnd : Type 0 where
  completed discarded exhausted : JobEnd

unfoldable pub run_job : List Services → World → ℕ → ℕ → World × JobEnd
run_job [] w user id = (w, exhausted)
run_job (svc ∷ rest) w user id =
    let (w', r) = handle svc w user id in
    let again = run_job rest w' user id in
    elim r [
      | ok _ ↦ (w', completed)
      | err e ↦ if (app_error_from e).retryable then again else (w', discarded)
    ]
