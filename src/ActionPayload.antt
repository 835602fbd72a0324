-- ===== src/ActionPayload.antt =====
-- packages/shared/src/utils/action-payload.ts: the ids on WhatsApp buttons and list rows. A verb is
-- its text; TypeScript's union of verbs is the list `valid_actions`.
pub mod Laws
mod Tests
use whatsapp_email_assistant.Common.{
  ℕ, zero, suc, ◌+◌, ◌-◌, ◌*◌, ◌/◌, ◌%◌, ◌≤◌, ◌<◌, ◌≡◌, refl, sym, ap, ap₂, ◌∙◌, ◌≡⟨◌⟩◌, ◌∎, ◌≢◌,
  ◌↔◌, ◌⊎◌, inl, inr, Bool, true, false, not, ◌&&◌, ◌||◌, Option, none, some, List, [], ◌∷◌, ◌++◌,
  map, reverse, append_assoc, append-nil, arith, String, ltb, leb, ◌==◌, if◌then◌else◌, ==_iff,
  ==_refl, leb→le, ltb→lt, and→both, Bool-cases, Option-cases, length, take, drop, get_elem?, all,
  any, filter, find, count, length-append, count-append, all-append, length-filter, All, All-append,
  Text, codes, text_eq, text_eq_iff, text_eq_refl, mem_text, is_digit, is_upper, is_lower, is_alnum,
  is_space, trim, to_lower, starts_with, ends_with, ℕ_discrete, join, split, lacks, split-join,
  join-split, split-nonempty,
}
use whatsapp_email_assistant.AppError.{Result, ok, err, Thrown, known, app_error, bad_request}

abbrev pub action_payload_prefix : Text
action_payload_prefix = codes "act"

abbrev pub max_payload_length : ℕ
max_payload_length = 256

abbrev pub valid_actions : List Text
valid_actions =
    codes "reply"
    ∷ codes "reply_yes"
    ∷ codes "reply_no"
    ∷ codes "archive"
    ∷ codes "delete"
    ∷ codes "confirm_delete"
    ∷ codes "confirm_send"
    ∷ codes "forward"
    ∷ codes "summarize"
    ∷ codes "translate"
    ∷ codes "read_aloud"
    ∷ codes "mark_read"
    ∷ codes "mark_important"
    ∷ codes "open_thread"
    ∷ codes "cancel"
    ∷ codes "undo"
    ∷ codes "more"
    ∷ []

pub record ActionPayload : Type 0 where
  pub action : Text
  pub target_id : Text
  pub arg : Option Text

abbrev pub id_char : ℕ → Bool
id_char c = is_alnum c || c == b'_' || c == b'-'

abbrev pub arg_char : ℕ → Bool
arg_char c = is_alnum c || c == b'_' || c == b'.' || c == b'-'

-- `SAFE_ID` and `SAFE_ARG`: between 1 and so many characters, all of the class.
abbrev pub safe_id : Text → Bool
safe_id s = leb 1 (length s) && leb (length s) 64 && all id_char s

abbrev pub safe_arg : Text → Bool
safe_arg s = leb 1 (length s) && leb (length s) 32 && all arg_char s

abbrev pub safe_or_absent : Option Text → Bool
safe_or_absent none = true
safe_or_absent (some a) = safe_arg a

-- `if (payload.arg)`: an empty one is left out.
abbrev pub arg_part : Option Text → List Text
arg_part none = []
arg_part (some []) = []
arg_part (some (c ∷ a)) = (c ∷ a) ∷ []

abbrev pub refused : Result Text
refused = err (known (app_error bad_request none none))

abbrev pub encoded : ActionPayload → Text
encoded p = join b':' (action_payload_prefix ∷ p.action ∷ p.target_id ∷ arg_part p.arg)

unfoldable pub encode_action_payload : ActionPayload → Result Text
encode_action_payload p =
    if not (mem_text p.action valid_actions)
    then refused
    else if not (safe_id p.target_id)
    then refused
    else if not (safe_or_absent p.arg)
    then refused
    else if ltb max_payload_length (length (encoded p))
    then refused
    else ok (encoded p)

-- The guards on the three or four parts.
abbrev pub decode_fields : Text → Text → Text → Option Text → Option ActionPayload
decode_fields prefix action target_id arg =
    if not (text_eq prefix action_payload_prefix)
    then none
    else if not (mem_text action valid_actions)
    then none
    else if not (safe_id target_id)
    then none
    else if not (safe_or_absent arg)
    then none
    else some (record { action = action; target_id = target_id; arg = arg })

unfoldable pub decode_parts : List Text → Option ActionPayload
decode_parts (prefix ∷ action ∷ target_id ∷ []) = decode_fields prefix action target_id none
decode_parts (prefix ∷ action ∷ target_id ∷ arg ∷ []) =
    decode_fields prefix action target_id (some arg)
decode_parts _ = none

unfoldable pub decode_action_payload : Text → Option ActionPayload
unfolding decode_parts
decode_action_payload raw =
    if ltb max_payload_length (length raw) then none else decode_parts (split b':' raw)

-- `requiresConfirmation`.
unfoldable pub requires_confirmation : Text → Bool
requires_confirmation action = text_eq action (codes "delete") || text_eq action (codes "forward")
