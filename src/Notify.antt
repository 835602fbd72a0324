-- ===== src/Notify.antt =====
-- The backlog of notifications, apps/worker/src/repositories/message.repository.ts: which messages
-- a user is still owed. `forUser` is the row-level policy: a query sees the rows of its user alone.
pub mod Digest
pub mod Handle
pub mod Laws
pub mod Receipts
pub mod Owed
pub mod Lost
mod Tests
use whatsapp_email_assistant.Common.{
  ℕ, zero, suc, ◌+◌, ◌-◌, ◌*◌, ◌/◌, ◌%◌, ◌^◌, ◌≤◌, ◌<◌, ◌≡◌, refl, sym, ap, ap₂, ◌∙◌, ◌≡⟨◌⟩◌, ◌∎,
  ◌≢◌, ◌↔◌, ◌⊎◌, inl, inr, Bool, true, false, not, ◌&&◌, ◌||◌, Option, none, some, List, [], ◌∷◌,
  ◌++◌, map, reverse, append_assoc, append-nil, arith, String, ltb, leb, ◌==◌, if◌then◌else◌,
  ==_iff, ==_refl, leb→le, ltb→lt, and→both, Bool-cases, Option-cases, length, take, drop,
  get_elem?, all, any, filter, find, count, length-append, count-append, all-append, length-filter,
  All, All-append, Text, codes, text_eq, text_eq_iff, text_eq_refl, mem_text, is_digit, is_upper,
  is_lower, is_alnum, is_space, trim, to_lower, starts_with, ends_with, ℕ_discrete, join, split,
  lacks, split-join, join-split, split-nonempty, split-before, split-lacks, to_upper, upper_code,
  trim_start, trim_end, lower_code,
}
use whatsapp_email_assistant.Window.{EmailPriority, normal, DeliveryPreferences}

-- `email_messages` with its analysis, as far as notifications read them.
pub record EmailMessage : Type 0 where
  pub id : ℕ
  pub user_id : ℕ
  pub subject : Text
  pub from_address : Text
  pub from_name : Option Text
  pub received_at : ℕ
  pub priority : Option EmailPriority
  pub category : Option Text
  pub is_archived : Bool
  pub is_spam : Bool
  pub deleted_at : Option ℕ
  pub notify_deferred_at : Option ℕ

pub record ConversationState : Type 0 where
  pub last_inbound_at : Option ℕ
  pub last_digest_at : Option ℕ

pub record User : Type 0 where
  pub phone_number : Option Text
  pub phone_verified : Bool
  pub timezone : Text
  pub locale : Text

pub record Tables : Type 0 where
  pub messages : List EmailMessage
  pub preferences : ℕ → Option DeliveryPreferences
  pub states : ℕ → Option ConversationState
  pub users : ℕ → Option User

abbrev pub is_set : Option ℕ → Bool
is_set none = false
is_set (some _) = true

abbrev pub is_message : ℕ → ℕ → EmailMessage → Bool
is_message user id m = (m.user_id == user) && (m.id == id)

-- The `where` of findDeferred and of countDeferred.
abbrev pub is_owed : ℕ → EmailMessage → Bool
is_owed user m =
    (m.user_id == user)
    && (is_set m.notify_deferred_at
        && (not m.is_archived && (not m.is_spam && not (is_set m.deleted_at))))

abbrev pub update_many : (EmailMessage → Bool) → (EmailMessage → EmailMessage) → Tables → Tables
update_many p f t = record t { messages = map (λ m. if p m then f m else m) t.messages }

unfoldable pub find_for_notification : Tables → ℕ → ℕ → Option EmailMessage
find_for_notification t user id = find (is_message user id) t.messages

abbrev pub deferred : ℕ → EmailMessage → EmailMessage
deferred now m = record m { notify_deferred_at = some now }

abbrev pub not_deferred : EmailMessage → EmailMessage
not_deferred m = record m { notify_deferred_at = none }

unfoldable pub mark_deferred : Tables → ℕ → ℕ → ℕ → Tables
mark_deferred t user id now =
    update_many (λ m. is_message user id m && not (is_set m.notify_deferred_at)) (deferred now) t

abbrev pub mem : ℕ → List ℕ → Bool
mem a ids = any (λ b. a == b) ids

unfoldable pub mark_notified : Tables → ℕ → List ℕ → Tables
mark_notified t user ids = update_many (λ m. (m.user_id == user) && mem m.id ids) not_deferred t

-- `orderBy: { receivedAt: 'asc' }`.
abbrev pub insert_message : EmailMessage → List EmailMessage → List EmailMessage
insert_message m [] = m ∷ []
insert_message m (n ∷ ms) =
    let rest = insert_message m ms in
    if leb m.received_at n.received_at then m ∷ n ∷ ms else n ∷ rest

abbrev pub by_received_at : List EmailMessage → List EmailMessage
by_received_at [] = []
by_received_at (m ∷ ms) = insert_message m (by_received_at ms)

abbrev pub deferred_limit : ℕ
deferred_limit = 20

unfoldable pub find_deferred : Tables → ℕ → List EmailMessage
find_deferred t user = take deferred_limit (by_received_at (filter (is_owed user) t.messages))

unfoldable pub count_deferred : Tables → ℕ → ℕ
count_deferred t user = count (is_owed user) t.messages

unfoldable pub record_digest_sent : Tables → ℕ → ℕ → Tables
record_digest_sent t user now = record t {
  states = λ u.
      if u == user
      then elim (t.states u) [
        | none ↦ none
        | some s ↦ some (record s { last_digest_at = some now })
      ]
      else t.states u;
}

pub record DeliveryContext : Type 0 where
  pub preferences : Option DeliveryPreferences
  pub state : Option ConversationState
  pub user : Option User

abbrev pub deliverable : User → User
deliverable u = if u.phone_verified then u else record u { phone_number = none }

unfoldable pub find_delivery_context : Tables → ℕ → DeliveryContext
find_delivery_context t user = record {
  preferences = t.preferences user;
  state = t.states user;
  user = elim (t.users user) [ none ↦ none | some u ↦ some (deliverable u) ];
}
