-- ===== src/Resolver.antt =====
-- apps/worker/src/services/thread-resolver.ts: which email a WhatsApp message is about. The sentence
-- of a basis is named by a constructor. An empty text is no text, as in the code's tests.
pub mod Evidence
mod Tests
use whatsapp_email_assistant.Common.{
  ℕ, zero, suc, ◌+◌, ◌-◌, ◌*◌, ◌/◌, ◌%◌, ◌^◌, ◌≤◌, ◌<◌, ◌≡◌, refl, sym, ap, ap₂, ◌∙◌, ◌≡⟨◌⟩◌, ◌∎,
  ◌≢◌, ◌↔◌, ◌⊎◌, inl, inr, Bool, true, false, not, ◌&&◌, ◌||◌, Option, none, some, List, [], ◌∷◌,
  ◌++◌, map, reverse, append_assoc, append-nil, arith, String, ltb, leb, ◌==◌, if◌then◌else◌,
  ==_iff, ==_refl, leb→le, ltb→lt, and→both, Bool-cases, Option-cases, length, take, drop,
  get_elem?, all, any, filter, find, count, length-append, count-append, all-append, length-filter,
  All, All-append, Text, codes, text_eq, text_eq_iff, text_eq_refl, mem_text, is_digit, is_upper,
  is_lower, is_alnum, is_space, trim, to_lower, starts_with, ends_with, ℕ_discrete, join, split,
  lacks, split-join, join-split, split-nonempty, split-before, split-lacks, to_upper, upper_code,
  trim_start, trim_end, lower_code,
}
use whatsapp_email_assistant.ActionPayload.{ActionPayload, decode_action_payload}
use whatsapp_email_assistant.Threading.{unseen}

pub record ResolutionCandidate : Type 0 where
  pub email_message_id : Text
  pub from_address : Text
  pub from_name : Option Text
  pub subject : Text
  pub received_at : ℕ
  pub aliases : List Text

-- The ids that the message carries, if any.
pub record InboundMessage : Type 0 where
  pub context_id : Option Text
  pub interactive_id : Option Text

pub record ResolutionContext : Type 0 where
  pub delivery_lookup : Text → Option Text
  pub active_email_message_id : Option Text
  pub active_state_expires_at : Option ℕ
  pub recent : List ResolutionCandidate
  pub named_target : Option Text
  pub now : ℕ

pub data Basis : Type 0 where
  replied_directly : Basis
  tapped : Text → Basis
  continuing only_one_recent : Basis
  matched_one : Text → Basis
  matched_many : Text → ℕ → Basis
  no_recent_from : Text → Basis
  no_recent nothing_identified : Basis

pub data Resolution : Type 0 where
  resolved : Text → ℕ → Basis → Resolution
  ambiguous : List ResolutionCandidate → Basis → Resolution
  unresolved : Basis → Resolution

abbrev pub filled : Option Text → Option Text
filled none = none
filled (some []) = none
filled (some (c ∷ s)) = some (c ∷ s)

abbrev pub or_blank : Option Text → Text
or_blank none = []
or_blank (some t) = t

-- The words of `split(/\s+/)` that are not empty.
abbrev pub add_letter : ℕ → List Text → List Text
add_letter c [] = (c ∷ []) ∷ []
add_letter c (w ∷ ws) = (c ∷ w) ∷ ws

abbrev pub parts_of : Text → List Text
parts_of [] = [] ∷ []
parts_of (c ∷ s) = let rest = parts_of s in if is_space c then [] ∷ rest else add_letter c rest

-- `address.split('@')[0]`.
abbrev pub local_part : Text → Text
local_part [] = []
local_part (c ∷ s) = let rest = local_part s in if c == b'@' then [] else c ∷ rest

abbrev pub address_of : ResolutionCandidate → Text
address_of c = to_lower c.from_address

-- The test of `matchByName` on one candidate, for a needle that is trimmed and in lower case. An
-- empty part of the name is never the needle.
unfoldable pub is_hit : Text → ResolutionCandidate → Bool
is_hit needle c =
    let name = to_lower (or_blank c.from_name) in
    text_eq (address_of c) needle
    || mem_text needle (map to_lower c.aliases)
    || text_eq name needle
    || mem_text needle (parts_of name)
    || text_eq (local_part (address_of c)) needle

abbrev match_needle : Text → List ResolutionCandidate → List ResolutionCandidate
match_needle [] candidates = []
match_needle (c ∷ s) candidates = unseen address_of [] (filter (is_hit (c ∷ s)) candidates)

-- `matchByName`: of each correspondent the first email.
unfoldable pub match_by_name : Text → List ResolutionCandidate → List ResolutionCandidate
match_by_name target candidates = match_needle (to_lower (trim target)) candidates

abbrev pub is_expired : Option ℕ → ℕ → Bool
is_expired none now = false
is_expired (some at) now = leb at now

-- Rank 4 and below, with a name and without.
abbrev pub by_matches : Text → List ResolutionCandidate → Resolution
by_matches target [] = unresolved (no_recent_from target)
by_matches target (c ∷ []) = resolved c.email_message_id 4 (matched_one target)
by_matches target (c ∷ d ∷ cs) =
    ambiguous (take 10 (c ∷ d ∷ cs)) (matched_many target (length (c ∷ d ∷ cs)))

abbrev pub by_recent : List ResolutionCandidate → Resolution
by_recent [] = unresolved no_recent
by_recent (c ∷ []) = resolved c.email_message_id 4 only_one_recent
by_recent (c ∷ d ∷ cs) = ambiguous (take 10 (c ∷ d ∷ cs)) nothing_identified

abbrev pub by_name : ResolutionContext → Option Text → Resolution
by_name ctx none = by_recent ctx.recent
by_name ctx (some target) = by_matches target (match_by_name target ctx.recent)

-- Rank 3.
abbrev pub by_state : ResolutionContext → Option Text → Resolution
by_state ctx none = by_name ctx (filled ctx.named_target)
by_state ctx (some id) =
    if not (is_expired ctx.active_state_expires_at ctx.now)
    then resolved id 3 continuing
    else by_name ctx (filled ctx.named_target)

-- Rank 2.
abbrev pub by_tap : ResolutionContext → Option ActionPayload → Resolution
by_tap ctx (some payload) = resolved payload.target_id 2 (tapped payload.action)
by_tap ctx none = by_state ctx (filled ctx.active_email_message_id)

abbrev pub decoded : Option Text → Option ActionPayload
decoded none = none
decoded (some id) = decode_action_payload id

-- Rank 1.
abbrev pub by_reply : InboundMessage → ResolutionContext → Option Text → Resolution
by_reply message ctx (some id) = resolved id 1 replied_directly
by_reply message ctx none = by_tap ctx (decoded (filled message.interactive_id))

abbrev pub looked_up : ResolutionContext → Option Text → Option Text
looked_up ctx none = none
looked_up ctx (some id) = filled (ctx.delivery_lookup id)

-- `ThreadResolver.resolve`.
unfoldable pub resolve : InboundMessage → ResolutionContext → Resolution
unfolding match_by_name
resolve message ctx = by_reply message ctx (looked_up ctx (filled message.context_id))
