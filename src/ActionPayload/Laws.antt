-- ===== src/ActionPayload/Laws.antt =====
-- Encoding and decoding action payloads.
use whatsapp_email_assistant.Common.{
  ℕ, ◌≤◌, ◌≡◌, refl, sym, ap, ◌∙◌, ◌≢◌, ◌↔◌, inl, inr, Bool, true, false, not, ◌&&◌, Option, none,
  some, List, [], ◌∷◌, ◌++◌, arith, ltb, leb, if◌then◌else◌, leb→le, and→both, Bool-cases, length,
  all, length-append, Text, text_eq, text_eq_iff, mem_text, join, split, lacks, split-join,
  join-split,
}
use whatsapp_email_assistant.AppError.{Result, ok}
use whatsapp_email_assistant.ActionPayload.{
  ActionPayload, action_payload_prefix, valid_actions, safe_id, safe_arg, safe_or_absent, id_char,
  arg_char, arg_part, refused, encoded, encode_action_payload, decode_fields, decode_parts,
  decode_action_payload, max_payload_length,
}

mem_text-all :
    (p : Text → Bool) (t : Text) (ts : List Text)
    → mem_text t ts ≡ true
    → all p ts ≡ true
    → p t ≡ true
mem_text-all p t [] h k = ground arith
mem_text-all p t (s ∷ ss) h k = elim (Bool-cases (text_eq s t)) [
  | inl e ↦ rw (sym ((text_eq_iff s t).0 e)) (and→both (p s) (all p ss) k).0
  | inr e ↦ mem_text-all p t ss (ground arith) (and→both (p s) (all p ss) k).1
]

abbrev is_verb : Text → Bool
is_verb t = lacks b':' t && leb (length t) 14

verb-lacks : (t : Text) → mem_text t valid_actions ≡ true → (lacks b':' t ≡ true) × (length t ≤ 14)
verb-lacks t h =
    let both = and→both _ _ (mem_text-all is_verb t valid_actions h refl) in
    (both.0, leb→le (length t) 14 both.1)

id_char-lacks : (s : Text) → all id_char s ≡ true → lacks b':' s ≡ true
id_char-lacks [] h = refl
id_char-lacks (c ∷ s) h = ground (arith, id_char-lacks s)

arg_char-lacks : (s : Text) → all arg_char s ≡ true → lacks b':' s ≡ true
arg_char-lacks [] h = refl
arg_char-lacks (c ∷ s) h = ground (arith, arg_char-lacks s)

-- A known verb, a safe id, and a safe argument if there is one.
unfoldable pub is_valid : ActionPayload → Bool
is_valid p = mem_text p.action valid_actions && safe_id p.target_id && safe_or_absent p.arg

valid-parts :
    (p : ActionPayload)
    → is_valid p ≡ true
    → (mem_text p.action valid_actions ≡ true)
      × (safe_id p.target_id ≡ true)
      × (safe_or_absent p.arg ≡ true)
unfolding is_valid
valid-parts p h =
    let (front, arg) =
      and→both (mem_text p.action valid_actions && safe_id p.target_id) (safe_or_absent p.arg) h in
    let (verb, id) = and→both (mem_text p.action valid_actions) (safe_id p.target_id) front in
    (verb, id, arg)

safe_id-facts : (s : Text) → safe_id s ≡ true → (lacks b':' s ≡ true) × (length s ≤ 64)
safe_id-facts s h = (id_char-lacks s (ground arith), ground arith)

safe_arg-facts : (s : Text) → safe_arg s ≡ true → (lacks b':' s ≡ true) × (length s ≤ 32)
safe_arg-facts s h = (arg_char-lacks s (ground arith), ground arith)

safe_arg-empty : safe_arg [] ≢ true
safe_arg-empty h = ground arith

abbrev parts_of : Text → Text → Option Text → List Text
parts_of action target_id arg = action_payload_prefix ∷ action ∷ target_id ∷ arg_part arg

-- The parts of a valid payload lack the separator, and their lengths are bounded.
parts_of-lacks :
    (action target_id : Text) (arg : Option Text)
    → lacks b':' action ≡ true
    → lacks b':' target_id ≡ true
    → safe_or_absent arg ≡ true
    → all (lacks b':') (parts_of action target_id arg) ≡ true
parts_of-lacks action target_id none v i h = rw (v, i) refl
parts_of-lacks action target_id (some []) v i h = rw (v, i) refl
parts_of-lacks action target_id (some (c ∷ a)) v i h = rw (v, i, (safe_arg-facts (c ∷ a) h).0) refl

parts_of-short :
    (action target_id : Text) (arg : Option Text)
    → length action ≤ 14
    → length target_id ≤ 64
    → safe_or_absent arg ≡ true
    → length (join b':' (parts_of action target_id arg)) ≤ max_payload_length
parts_of-short action target_id none v i h =
    rw (length-append action (b':' ∷ target_id)) (omega (arith, v, i))
parts_of-short action target_id (some []) v i h =
    rw (length-append action (b':' ∷ target_id)) (omega (arith, v, i))
parts_of-short action target_id (some (c ∷ a)) v i h =
    let l = (safe_arg-facts (c ∷ a) h).1 in
    rw
      (
        length-append action (b':' ∷ target_id ++ b':' ∷ c ∷ a),
        length-append target_id (b':' ∷ c ∷ a),
      )
      (omega (arith, v, i, l))

le→not-ltb : (a b : ℕ) → a ≤ b → ltb b a ≡ false
le→not-ltb a b h = ground arith

-- A valid payload is encoded: it is never too long.
encode-valid : (p : ActionPayload) → is_valid p ≡ true → encode_action_payload p ≡ ok (encoded p)
unfolding encode_action_payload
encode-valid p h =
    let (verb, id, arg) = valid-parts p h in
    let short =
      parts_of-short p.action p.target_id p.arg (verb-lacks p.action verb).1
        (safe_id-facts p.target_id id).1 arg in
    let fits : ltb max_payload_length (length (encoded p)) ≡ false = le→not-ltb _ _ short in
    rw (verb, id, arg, fits) refl

refused-unless :
    (a b c d : Bool) (r : Result Text)
    → (a && b && c) ≡ false
    → (if not a
        then refused
        else if not b
        then refused
        else if not c
        then refused
        else if d
        then refused
        else r)
      ≡ refused
refused-unless a b c d r h = ground arith

encode-invalid : (p : ActionPayload) → is_valid p ≡ false → encode_action_payload p ≡ refused
unfolding encode_action_payload is_valid
encode-invalid p h =
    refused-unless (mem_text p.action valid_actions) (safe_id p.target_id) (safe_or_absent p.arg)
      (ltb max_payload_length (length (encoded p))) (ok (encoded p)) h

refused≢ok : (s : Text) → refused ≢ ok s
refused≢ok s h = ground arith

-- Encoding succeeds exactly for a known verb with a safe id and a safe argument, if any: no payload is
-- refused for its length.
pub encode-refuses_iff :
    (p : ActionPayload) → ((s : Text) × (encode_action_payload p ≡ ok s)) ↔ (is_valid p ≡ true)
encode-refuses_iff p = (
  λ (s, e). elim (Bool-cases (is_valid p)) [
    | inl v ↦ v
    | inr f ↦ absurd (refused≢ok s (sym (encode-invalid p f) ∙ e))
  ],
  λ v. (encoded p, encode-valid p v),
)

decode-valid :
    (action target_id : Text) (arg : Option Text)
    → mem_text action valid_actions ≡ true
    → safe_id target_id ≡ true
    → safe_or_absent arg ≡ true
    → decode_parts (parts_of action target_id arg)
      ≡ some (record { action = action; target_id = target_id; arg = arg })
unfolding decode_parts
decode-valid action target_id none v i a = rw (v, i) refl
decode-valid action target_id (some []) v i a = ground arith
decode-valid action target_id (some (c ∷ s)) v i a = rw (v, i, a) refl

encoded-length :
    (p : ActionPayload) → is_valid p ≡ true → ltb max_payload_length (length (encoded p)) ≡ false
encoded-length p h =
    let (verb, id, arg) = valid-parts p h in
    le→not-ltb (length (encoded p)) max_payload_length (
      parts_of-short p.action p.target_id p.arg (verb-lacks p.action verb).1
        (safe_id-facts p.target_id id).1 arg)

decode-encoded :
    (p : ActionPayload) → is_valid p ≡ true → decode_action_payload (encoded p) ≡ some p
unfolding decode_action_payload
decode-encoded p h =
    let (verb, id, arg) = valid-parts p h in
    rw
      (
        encoded-length p h,
        split-join b':' action_payload_prefix (p.action ∷ p.target_id ∷ arg_part p.arg) (
            parts_of-lacks p.action p.target_id p.arg (verb-lacks p.action verb).0
              (safe_id-facts p.target_id id).0 arg),
      )
      (decode-valid p.action p.target_id p.arg verb id arg)

ok-injective : (s t : Text) → Path (Result Text) (ok s) (ok t) → s ≡ t
ok-injective s t h = ground arith

-- Whatever payload is encoded, its id decodes to the same payload.
pub decode-encode :
    (p : ActionPayload) (s : Text)
    → encode_action_payload p ≡ ok s
    → decode_action_payload s ≡ some p
decode-encode p s h =
    let v = (encode-refuses_iff p).0 (s, h) in
    let same = ok-injective (encoded p) s (sym (encode-valid p v) ∙ h) in
    rw (sym same) (decode-encoded p v)

guards-passed :
    (a b c d : Bool) (p q : ActionPayload)
    → (if not a
        then none
        else if not b
        then none
        else if not c
        then none
        else if not d
        then none
        else some q)
      ≡ some p
    → (a ≡ true) × ((b && c && d) ≡ true) × (p ≡ q)
guards-passed a b c d p q h = ground arith

decode_fields-valid :
    (prefix action target_id : Text) (arg : Option Text) (p : ActionPayload)
    → decode_fields prefix action target_id arg ≡ some p
    → (prefix ≡ action_payload_prefix)
      × (is_valid p ≡ true)
      × (p ≡ record { action = action; target_id = target_id; arg = arg })
unfolding is_valid
decode_fields-valid prefix action target_id arg p h =
    let q : ActionPayload = record { action = action; target_id = target_id; arg = arg } in
    let (same, valid, e) =
      guards-passed (text_eq prefix action_payload_prefix) (mem_text action valid_actions)
        (safe_id target_id) (safe_or_absent arg) p q h in
    ((text_eq_iff prefix action_payload_prefix).0 same, rw e valid, e)

decode_parts-valid :
    (parts : List Text) (p : ActionPayload)
    → decode_parts parts ≡ some p
    → (is_valid p ≡ true) × (join b':' parts ≡ encoded p)
unfolding decode_parts
decode_parts-valid (x ∷ a ∷ t ∷ []) p h =
    let (same, valid, e) = decode_fields-valid x a t none p h in
    (valid, rw same (sym (ap encoded e)))
decode_parts-valid (x ∷ a ∷ t ∷ [] ∷ []) p h =
    let (_, valid, e) = decode_fields-valid x a t (some []) p h in
    let (_, _, arg) = valid-parts p valid in
    absurd (safe_arg-empty (sym (ap (λ q. safe_or_absent q.arg) e) ∙ arg))
decode_parts-valid (x ∷ a ∷ t ∷ (c ∷ g) ∷ []) p h =
    let (same, valid, e) = decode_fields-valid x a t (some (c ∷ g)) p h in
    (valid, rw same (sym (ap encoded e)))
decode_parts-valid _ p h = ground arith

-- An id that decodes to a payload is the one that this payload encodes to.
pub encode-decode :
    (s : Text) (p : ActionPayload)
    → decode_action_payload s ≡ some p
    → encode_action_payload p ≡ ok s
unfolding decode_action_payload
encode-decode s p h =
    let (v, same) = decode_parts-valid (split b':' s) p (ground arith) in
    rw (sym (join-split b':' s), same) (encode-valid p v)
