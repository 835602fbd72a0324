-- ===== src/Commands.antt =====
-- apps/worker/src/processors/commands.processor.ts and the conversation of
-- apps/worker/src/repositories/inbox.repository.ts: what a message in the chat makes the assistant
-- do. The state is one user's: the conversation, and that of the services, which are an interface.
pub mod Chat
pub mod Attempt
pub mod Plan
pub mod Compose
pub mod Planner
pub mod Taps
pub mod Plans
pub mod Handle
pub mod Inbound
pub mod Slot
pub mod Spent
pub mod Overlap
pub mod Expiry
pub mod Asks
pub mod Honest
pub mod Told
mod Tests
use whatsapp_email_assistant.Common.{
  ℕ, zero, suc, ◌+◌, ◌-◌, ◌*◌, ◌/◌, ◌%◌, ◌^◌, ◌≤◌, ◌<◌, ◌≡◌, refl, sym, ap, ap₂, ◌∙◌, ◌≡⟨◌⟩◌, ◌∎,
  ◌≢◌, ◌↔◌, ◌⊎◌, inl, inr, Bool, true, false, not, ◌&&◌, ◌||◌, Option, none, some, List, [], ◌∷◌,
  ◌++◌, map, reverse, append_assoc, append-nil, arith, String, ltb, leb, ◌==◌, if◌then◌else◌,
  ==_iff, ==_refl, leb→le, ltb→lt, and→both, Bool-cases, Option-cases, length, take, drop,
  get_elem?, all, any, filter, find, count, length-append, count-append, all-append, length-filter,
  All, All-append, Text, codes, text_eq, text_eq_iff, text_eq_refl, mem_text, is_digit, is_upper,
  is_lower, is_alnum, is_space, trim, to_lower, starts_with, ends_with, ℕ_discrete, join, split,
  lacks, split-join, join-split, split-nonempty, split-before, split-lacks, to_upper, upper_code,
  trim_start, trim_end, lower_code,
}
use whatsapp_email_assistant.AppError.{
  Result, ok, err, Thrown, AppError, app_error, app_error_from, ErrorCode, not_found, conflict,
  provider_unauthorized, provider_rate_limited, payload_too_large, bad_request,
}
use whatsapp_email_assistant.Resolver.{ResolutionCandidate}
use whatsapp_email_assistant.Undo.{MailOperation, inverse_of}

-- The intents of packages/shared/src/types/ai.ts.
pub record ComposeIntent : Type 0 where
  pub to : Text
  pub cc : Option Text
  pub bcc : Option Text
  pub sender : Option Text
  pub subject : Option Text
  pub body : Option Text

pub data CommandIntent : Type 0 where
  reply : (body target : Option Text) (reply_all : Bool) (subject : Option Text) → CommandIntent
  reply_affirmative reply_negative : CommandIntent
  draft : Option Text → CommandIntent
  compose : ComposeIntent → CommandIntent
  get_attachment discard_files send cancel undo help : CommandIntent
  archive delete summarize read_aloud : Option Text → CommandIntent
  forward : (recipient : Text) → Option Text → CommandIntent
  mark_read mark_important mark_spam : Bool → CommandIntent
  label : (add remove : Option Text) → CommandIntent
  move snooze translate search question unknown : Text → CommandIntent
  list_mailboxes list_labels list_folders : CommandIntent
  list_today list_unread list_urgent list_deadlines : CommandIntent

pub record ParsedCommand : Type 0 where
  pub intent : CommandIntent
  pub source : Text
  pub looks_like_reply_body : Bool

-- What is said in the chat.
pub data Payload : Type 0 where
  text : Text → Payload
  help_text : Payload
  delete_confirmation : (email body : Text) → Payload
  forward_confirmation : (email body : Text) → Payload
  draft_confirmation : (email body : Text) → Payload
  compose_confirmation : (body : Text) → Payload
  disambiguation : List ResolutionCandidate → Payload
  voice : (media_id : Text) → Payload

-- The details that `setPendingAction` keeps under the one key `awaiting_send_confirmation`.
pub record PendingCompose : Type 0 where
  pub to : Text
  pub cc : Option Text
  pub bcc : Option Text
  pub account_id : Option Text
  pub subject : Text
  pub body : Text

-- What the composer is given.
pub record ComposeRequest : Type 0 where
  pub to : List Text
  pub cc : List Text
  pub bcc : List Text
  pub account_id : Option Text
  pub subject : Text
  pub body : Text

pub data PendingSend : Type 0 where
  forward_to : (email recipient : Text) → PendingSend
  reply_with : (email body : Text) → PendingSend
  compose_to : PendingCompose → PendingSend

pub record Conversation : Type 0 where
  pub active_email_message_id : Option Text
  pub pending : Option PendingSend
  pub expires_at : ℕ
  pub last_inbound_at : ℕ

-- What `undos.record` is given besides the email.
pub data UndoNote : Type 0 where
  inverse : (verb : Text) → MailOperation → UndoNote
  sent_draft : (verb : Text) (draft_id : ℕ) → UndoNote
  labels_changed : (added removed : List Text) → UndoNote
  snoozed : UndoNote

pub data ReplyKind : Type 0 where
  command_response reply_confirmation error : ReplyKind

pub record ReplyInput : Type 0 where
  pub payload : Payload
  pub kind : ReplyKind
  pub email_message_id : Option Text

pub data StagingOutcome : Type 0 where
  staged : (pending_count : ℕ) → StagingOutcome
  duplicate : StagingOutcome
  refused : (reason : Text) → StagingOutcome

pub data MessageType : Type 0 where
  text image document audio video sticker : MessageType
  location contacts interactive button reaction order system unknown : MessageType

pub record Media : Type 0 where
  pub id : Text
  pub voice : Bool

pub record Message : Type 0 where
  pub id : Text
  pub type : MessageType
  pub media : Option Media
  pub text : Option Text
  pub context_id : Option Text
  pub interactive_id : Option Text
  pub timestamp : ℕ

-- Why something was not done, for the record of the resolution.
pub data Failure : Type 0 where
  code : ErrorCode → Failure
  because : Text → Failure

-- What `recordResolution` says of a message: the intent and the source.
pub data ResolutionNote : Type 0 where
  typed : CommandIntent → (source : Text) → ResolutionNote
  tapped : (action : Text) → ResolutionNote
  voice_note stage_file : ResolutionNote

-- The services behind the processor. A failure that the processor or the service swallows is part
-- of the state.
pub record Services (S : Type 0) : Type 0 where
  pub parse_command : Text → ParsedCommand
  pub parse_recipient_list : Text → Result (List Text)
  pub find_subject : S → Text → Option Text
  pub find_email_by_delivery : S → Text → Option Text
  pub find_recent_candidates : S → List ResolutionCandidate
  pub pick_mailbox : S → Option Text → Result (Text × Text)
  pub resolve_recipient : S → Text → Result Text
  pub hash_verification_code : Text → Text
  pub record_inbound : S → Message → S
  pub record_resolution : S → (message : Text) → ResolutionNote → Option Failure → S
  pub redeem_phone_code : S → (code_hash : Text) → S × Result Bool
  pub flush_deferred : S → ℕ → S
  pub reply : S → ReplyInput → S × Result (Unit {0})
  pub compose_reply :
      S → (email body : Text) → (reply_all : Bool) → (subject : Option Text) → S × Result ℕ
  pub compose_forward : S → (email recipient : Text) → S × Result ℕ
  pub compose_new : S → ComposeRequest → S × Result ℕ
  pub apply : S → Text → MailOperation → S × Result (Unit {0})
  pub cancel_snooze : S → Text → S
  pub record_undo : S → Text → UndoNote → S
  pub undo : S → S × Result Text
  pub discard_staged : S → S × Result ℕ
  pub deliver_attachments : S → Text → S × Result ℕ
  pub apply_label : S → Text → (add remove : Option Text) → S × Result (List Text × List Text)
  pub snooze_until : S → (email until : Text) → S × Result Text
  pub move_to : S → (email folder : Text) → S × Result Text
  pub summarize_email : S → Text → S × Result Text
  pub translate_email : S → (email language : Text) → S × Result Text
  pub record_aloud : S → Text → S × Result Text
  pub draft_reply : S → Text → Option Text → S × Result Text
  pub answer_query : S → CommandIntent → S × Result (Option Payload)
  pub transcribe : S → Text → S × Result Text
  pub stage_file : S → Message → S × Result StagingOutcome

pub record State (S : Type 0) : Type 0 where
  pub conversation : Option Conversation
  pub services : S

-- What comes of an action: the message for the user, and why it failed if it did.
pub record Answer : Type 0 where
  pub payload : Payload
  pub failed : Option Failure

abbrev pub say : String → Payload
say s = Payload.text (codes s)
