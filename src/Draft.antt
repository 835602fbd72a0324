-- ===== src/Draft.antt =====
-- apps/worker/src/repositories/draft.repository.ts and staged-attachment.repository.ts: the rows of
-- drafts and staged files, and the conditional writes on them. `forUser` pins row-level security to
-- one user, so that a query sees that user's rows only. Times are milliseconds, ids are numbers.
pub mod Send
pub mod Claims
pub mod Race
pub mod Once
pub mod Undone
pub mod Eventually
pub mod Faults
pub mod Unheard
pub mod Errors
mod Tests
mod Retries
pub mod Staging
use whatsapp_email_assistant.Common.{
  ℕ, zero, suc, ◌+◌, ◌-◌, ◌*◌, ◌/◌, ◌%◌, ◌≤◌, ◌<◌, ◌≡◌, refl, sym, ap, ap₂, ◌∙◌, ◌≡⟨◌⟩◌, ◌∎, ◌≢◌,
  ◌↔◌, ◌⊎◌, inl, inr, Bool, true, false, not, ◌&&◌, ◌||◌, Option, none, some, List, [], ◌∷◌, ◌++◌,
  map, reverse, append_assoc, append-nil, arith, String, ltb, leb, ◌==◌, if◌then◌else◌, ==_iff,
  ==_refl, leb→le, ltb→lt, and→both, Bool-cases, Option-cases, length, take, drop, get_elem?, all,
  any, filter, find, count, length-append, count-append, all-append, length-filter, All, All-append,
  Text, codes, text_eq, text_eq_iff, text_eq_refl, mem_text, is_digit, is_upper, is_lower, is_alnum,
  is_space, trim, to_lower, starts_with, ends_with,
}
use whatsapp_email_assistant.AppError.{Thrown, Result, ok, err}

pub data Status : Type 0 where
  composing awaiting_confirmation queued sending sent failed cancelled : Status

pub data Kind : Type 0 where
  reply forward new : Kind

pub record StagedAttachment : Type 0 where
  pub user_id : ℕ
  pub whatsapp_media_id : ℕ
  pub whatsapp_message_id : ℕ
  pub filename : Text
  pub mime_type : Text
  pub size_bytes : ℕ
  pub draft_id : Option ℕ
  pub expires_at : ℕ

pub record Draft : Type 0 where
  pub user_id : ℕ
  pub account_id : ℕ
  pub kind : Kind
  pub to : List Text
  pub cc : List Text
  pub bcc : List Text
  pub subject : Text
  pub body_cipher : Text
  pub in_reply_to : Option Text
  pub references : List Text
  pub provider_thread_id : Option ℕ
  pub in_reply_to_message_id : Option ℕ
  pub idempotency_key : ℕ
  pub status : Status
  pub sent_at : Option ℕ
  pub sent_provider_message_id : Option ℕ
  pub failure_reason : Option Text

pub record ClaimedDraft : Type 0 where
  pub id : ℕ
  pub account_id : ℕ
  pub kind : Kind
  pub to : List Text
  pub cc : List Text
  pub bcc : List Text
  pub subject : Text
  pub body_text : Text
  pub in_reply_to : Option Text
  pub references : List Text
  pub provider_thread_id : Option ℕ
  pub in_reply_to_message_id : Option ℕ
  pub idempotency_key : ℕ
  pub phone_number : Text
  pub last_inbound_at : Option ℕ

pub record Db : Type 0 where
  pub drafts : ℕ → Option Draft
  pub staged : List StagedAttachment
  pub phone_number : ℕ → Option Text
  pub last_inbound_at : ℕ → Option ℕ

abbrev pub put : ℕ → Draft → (ℕ → Option Draft) → ℕ → Option Draft
put id row rows k = if id == k then some row else rows k

abbrev pub is_queued : Status → Bool
is_queued queued = true
is_queued _ = false

-- The write `updateMany({ where: { id, status: 'queued' } })`: the new rows, and the row that
-- matched.
abbrev if_queued : ℕ → Draft → Bool
if_queued user row = (row.user_id == user) && is_queued row.status

unfoldable pub queued_row : ℕ → Option Draft → Option Draft
queued_row user none = none
queued_row user (some row) = if if_queued user row then some row else none

abbrev pub set_status : Status → Draft → Draft
set_status s row = record row { status = s }

abbrev write : Db → ℕ → Draft → Db
write db id row = record db { drafts = put id row db.drafts }

abbrev or_empty : Option Text → Text
or_empty none = []
or_empty (some t) = t

abbrev pub claimed : Db → ℕ → ℕ → Draft → Text → ClaimedDraft
claimed db user id row body_text = record {
  id = id;
  account_id = row.account_id;
  kind = row.kind;
  to = row.to;
  cc = row.cc;
  bcc = row.bcc;
  subject = row.subject;
  body_text = body_text;
  in_reply_to = row.in_reply_to;
  references = row.references;
  provider_thread_id = row.provider_thread_id;
  in_reply_to_message_id = row.in_reply_to_message_id;
  idempotency_key = row.idempotency_key;
  phone_number = or_empty (db.phone_number user);
  last_inbound_at = db.last_inbound_at user;
}

pub data Claim : Type 0 where
  gone : Claim
  held : ClaimedDraft → Claim
  threw : Thrown → Claim

-- `claimForSending`. The decryption runs inside the transaction, so that its failure rolls the
-- claim back.
abbrev claim_with : Db → ℕ → ℕ → Draft → Result Text → Db × Claim
claim_with db user id row (ok body_text) =
    (write db id (set_status sending row), held (claimed db user id row body_text))
claim_with db user id row (err e) = (db, threw e)

unfoldable pub claim_for_sending : (Text → Result Text) → Db → ℕ → ℕ → Db × Claim
unfolding queued_row
claim_for_sending decrypt db user id = elim (queued_row user (db.drafts id)) [
  | none ↦ (db, gone)
  | some row ↦ claim_with db user id row (decrypt row.body_cipher)
]

unfoldable pub cancel_if_queued : Db → ℕ → ℕ → Db × Bool
unfolding queued_row
cancel_if_queued db user id = elim (queued_row user (db.drafts id)) [
  | none ↦ (db, false)
  | some row ↦ (write db id (set_status cancelled row), true)
]

-- `update({ where: { id } })`. The row is there: a claim has read it, and nothing deletes drafts.
abbrev update : Db → ℕ → ℕ → (Draft → Draft) → Db
update db user id f = elim (db.drafts id) [
  | none ↦ db
  | some row ↦ if row.user_id == user then write db id (f row) else db
]

unfoldable pub mark_sent : Db → ℕ → ℕ → ℕ → ℕ → Db
mark_sent db user id provider_message_id now = update db user id λ row. record row {
  status = sent;
  sent_at = some now;
  sent_provider_message_id = some provider_message_id;
}

unfoldable pub mark_failed : Db → ℕ → ℕ → Text → Bool → Db
mark_failed db user id reason retryable = update db user id λ row. record row {
  status = if retryable then queued else failed;
  failure_reason = some reason;
}

-- `where: { userId, draftId: null, expiresAt: { gt: now } }`.
abbrev is_unclaimed : Option ℕ → Bool
is_unclaimed none = true
is_unclaimed (some _) = false

abbrev pub is_pending : ℕ → ℕ → StagedAttachment → Bool
is_pending user now f = (f.user_id == user) && is_unclaimed f.draft_id && ltb now f.expires_at

-- `stage`: a redelivered webhook names a WhatsApp message that is there already.
unfoldable pub stage : Db → StagedAttachment → Db × Bool
stage db f =
    if any (λ g. (g.user_id == f.user_id) && (g.whatsapp_message_id == f.whatsapp_message_id))
      db.staged
    then (db, false)
    else (record db { staged = db.staged ++ record f { draft_id = none } ∷ [] }, true)

unfoldable pub list_pending : Db → ℕ → ℕ → List StagedAttachment
list_pending db user now = filter (is_pending user now) db.staged

unfoldable pub claim_for_draft : ℕ → ℕ → ℕ → List StagedAttachment → List StagedAttachment
claim_for_draft user id now [] = []
claim_for_draft user id now (f ∷ fs) =
    (if is_pending user now f then record f { draft_id = some id } else f)
    ∷ claim_for_draft user id now fs

abbrev pub carried_by : Option ℕ → ℕ → Bool
carried_by none id = false
carried_by (some d) id = d == id

unfoldable pub list_for_draft : Db → ℕ → ℕ → List StagedAttachment
list_for_draft db user id = filter (λ f. (f.user_id == user) && carried_by f.draft_id id) db.staged

unfoldable pub discard_pending : Db → ℕ → ℕ → Db × ℕ
discard_pending db user now = (
  record db { staged = filter (λ f. not (is_pending user now f)) db.staged },
  count (is_pending user now) db.staged,
)

-- `createForSend`: the id and the key are fresh UUIDs, and the row arrives with status `queued`.
-- The number is the count of files that the draft picked up.
unfoldable pub create_for_send : Db → ℕ → ℕ → Draft → Db × ℕ
unfolding claim_for_draft
create_for_send db id now input = (
  record db {
    drafts = put id (set_status queued input) db.drafts;
    staged = claim_for_draft input.user_id id now db.staged;
  },
  count (is_pending input.user_id now) db.staged,
)
