-- ===== src/RateLimit.antt =====
-- apps/api/src/common/rate-limit.ts: requests counted per client in fixed windows. Redis is the
-- parameter `exec`: the transaction of INCR and EXPIRE on a key, at an instant.
pub mod Laws
mod Tests
use whatsapp_email_assistant.Common.{
  ℕ, zero, suc, ◌+◌, ◌-◌, ◌*◌, ◌/◌, ◌%◌, ◌≤◌, ◌<◌, ◌≡◌, refl, sym, ap, ap₂, ◌∙◌, ◌≡⟨◌⟩◌, ◌∎, ◌≢◌,
  ◌↔◌, ◌⊎◌, inl, inr, Bool, true, false, not, ◌&&◌, ◌||◌, Option, none, some, List, [], ◌∷◌, ◌++◌,
  map, reverse, append_assoc, append-nil, arith, String, ltb, leb, ◌==◌, if◌then◌else◌, ==_iff,
  ==_refl, leb→le, ltb→lt, and→both, Bool-cases, Option-cases, length, take, drop, get_elem?, all,
  any, filter, find, count, length-append, count-append, all-append, length-filter, All, All-append,
  Text, codes, text_eq, text_eq_iff, text_eq_refl, mem_text, is_digit, is_upper, is_lower, is_alnum,
  is_space, trim, to_lower, starts_with, ends_with, ℕ_discrete, join, split, lacks, split-join,
  join-split, split-nonempty,
}

pub data RateLimitScope : Type 0 where
  global auth webhook : RateLimitScope

abbrev pub window_seconds : ℕ
window_seconds = 60

-- The parts of the key, which `:` joins in the code; neither the scope nor the window holds one.
pub record Key : Type 0 where
  pub scope : RateLimitScope
  pub subject : Text
  pub window : ℕ

abbrev subject_of : RateLimitScope → Text → Text
subject_of RateLimitScope.webhook identifier = codes "all"
subject_of _ identifier = identifier

unfoldable pub rate_limit_key : RateLimitScope → Text → ℕ → Key
rate_limit_key scope identifier now = record {
  scope = scope;
  subject = subject_of scope identifier;
  window = now / (window_seconds * 1000);
}

unfoldable pub window_reset_seconds : ℕ → ℕ
window_reset_seconds now = window_seconds - (now / 1000) % window_seconds

-- `headers['x-forwarded-for']`.
pub data Forwarded : Type 0 where
  absent : Forwarded
  one : Text → Forwarded
  several : List Text → Forwarded

abbrev raw_of : Forwarded → Text
raw_of absent = []
raw_of (one t) = t
raw_of (several ts) = join b',' ts

abbrev pub is_filled : Text → Bool
is_filled [] = false
is_filled (_ ∷ _) = true

abbrev pub hops : Text → List Text
hops raw = filter is_filled (map trim (split b',' raw))

abbrev pub last_of : List Text → Option Text
last_of [] = none
last_of (t ∷ []) = some t
last_of (t ∷ u ∷ ts) = last_of (u ∷ ts)

abbrev or_socket : Option Text → Option Text → Text
or_socket (some nearest) socket = nearest
or_socket none (some socket) = socket
or_socket none none = codes "unknown"

-- An absent header and an empty one have no hop.
unfoldable pub client_address : Forwarded → Option Text → Text
client_address forwarded socket_address =
    or_socket (last_of (hops (raw_of forwarded))) socket_address

-- What the transaction comes to: a count, or one of the failures.
pub data Reply : Type 0 where
  counted : ℕ → Reply
  discarded incr_failed not_a_number disconnected : Reply

pub record RateLimitDecision : Type 0 where
  pub allowed : Bool
  pub count : ℕ
  pub limit : ℕ
  pub reset_seconds : ℕ

module _ {S : Type 0} (exec : S → ℕ → Key → S × Reply) where
  abbrev pub decide : ℕ → ℕ → S × Reply → S × RateLimitDecision
  decide limit reset (s, counted n) =
      (s, record { allowed = leb n limit; count = n; limit = limit; reset_seconds = reset })
  decide limit reset (s, _) =
      (s, record { allowed = true; count = 0; limit = limit; reset_seconds = reset })

  abbrev pub consume_with : Option ℕ → S → RateLimitScope → Text → ℕ → S × RateLimitDecision
  consume_with none s scope identifier now =
      (s, record { allowed = true; count = 0; limit = 0; reset_seconds = window_reset_seconds now })
  consume_with (some zero) s scope identifier now =
      (s, record { allowed = true; count = 0; limit = 0; reset_seconds = window_reset_seconds now })
  consume_with (some (suc limit)) s scope identifier now =
      decide (suc limit) (window_reset_seconds now)
        (exec s now (rate_limit_key scope identifier now))

  -- `consume`: a limit that is not finite is `none`, and a negative one counts as 0.
  unfoldable pub consume :
      (RateLimitScope → Option ℕ) → S → RateLimitScope → Text → ℕ → S × RateLimitDecision
  consume limits s scope identifier now = consume_with (limits scope) s scope identifier now
