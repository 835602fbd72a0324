-- ===== src/Threading.antt =====
-- packages/mail/src/threading.ts: the headers that put a reply into its thread, and who it goes to.
-- A list of ids stands for the `Set` of those seen.
pub mod References
pub mod Recipients
pub mod Subject
mod Tests
use whatsapp_email_assistant.Common.{
  lower_code, trim_start, is_digit, zero, suc, text_eq, ℕ, zero, suc, ◌+◌, ◌-◌, ◌*◌, ◌/◌, ◌%◌, ◌≤◌,
  ◌<◌, ◌≡◌, refl, sym, ap, ap₂, ◌∙◌, ◌≡⟨◌⟩◌, ◌∎, ◌≢◌, ◌↔◌, ◌⊎◌, inl, inr, Bool, true, false, not,
  ◌&&◌, ◌||◌, Option, none, some, List, [], ◌∷◌, ◌++◌, map, reverse, append_assoc, append-nil,
  arith, String, ltb, leb, ◌==◌, if◌then◌else◌, ==_iff, ==_refl, leb→le, ltb→lt, and→both,
  Bool-cases, Option-cases, length, take, drop, get_elem?, all, any, filter, find, count,
  length-append, count-append, all-append, length-filter, All, All-append, Text, codes, text_eq,
  text_eq_iff, text_eq_refl, mem_text, is_digit, is_upper, is_lower, is_alnum, is_space, trim,
  to_lower, starts_with, ends_with, ℕ_discrete, join, split, lacks, split-join, join-split,
  split-nonempty,
}

abbrev pub max_references_length : ℕ
max_references_length = 900

abbrev pub keep_recent : ℕ
keep_recent = 5

abbrev pub is_empty : Text → Bool
is_empty [] = true
is_empty (_ ∷ _) = false

-- `replace(/^<+/, '')`, and `replace(/>+$/, '')` on the reversed text.
abbrev pub drop_leading : ℕ → Text → Text
drop_leading x [] = []
drop_leading x (c ∷ s) = let rest = drop_leading x s in if c == x then rest else c ∷ s

abbrev pub drop_trailing : ℕ → Text → Text
drop_trailing x s = reverse (drop_leading x (reverse s))

abbrev bracketed : Text → Text
bracketed [] = []
bracketed (c ∷ s) = b'<' ∷ c ∷ s ++ b'>' ∷ []

-- `normalizeMessageId`; an absent header is an empty one.
unfoldable pub normalize_message_id : Text → Text
normalize_message_id raw = bracketed (trim (drop_trailing b'>' (drop_leading b'<' (trim raw))))

-- The loops that skip an element whose key was seen, and note the keys of the others.
unfoldable pub unseen {ℓ} : {A : Type ℓ} → (A → Text) → List Text → List A → List A
unseen key seen [] = []
unseen key seen (x ∷ xs) = elim (mem_text (key x) seen) [
  | true ↦ unseen key seen xs
  | false ↦ x ∷ unseen key (key x ∷ seen) xs
]

-- The chain of ancestors: ids that are not empty, each once, in the order of the header.
unfoldable pub ancestors : List Text → List Text
ancestors references =
    unseen (λ id. id) [] (filter (λ id. not (is_empty id)) (map normalize_message_id references))

-- `if (parentId && !seen.has(parentId)) chain.push(parentId)`.
unfoldable pub chain_of : Text → List Text → List Text
unfolding ancestors
chain_of parent references =
    let chain = ancestors references in
    if not (is_empty parent) && not (mem_text parent chain) then chain ++ parent ∷ [] else chain

-- The test of the loop in `trimReferences`.
abbrev pub is_over_long : List Text → Bool
is_over_long chain =
    ltb max_references_length (length (join 32 chain)) && ltb (keep_recent + 1) (length chain)

-- What the loop leaves of the chain behind its root: each pass drops its first.
unfoldable pub trim_behind : Text → List Text → List Text
trim_behind root [] = []
trim_behind root (x ∷ rest) =
    let trimmed = trim_behind root rest in
    if is_over_long (root ∷ x ∷ rest) then trimmed else x ∷ rest

unfoldable pub trim_references : List Text → List Text
unfolding trim_behind
trim_references [] = []
trim_references (root ∷ rest) =
    if leb (length (root ∷ rest)) (keep_recent + 1)
    then root ∷ rest
    else root ∷ trim_behind root rest

-- The words of `PREFIX_RE`, and of the pattern in `buildForwardSubject`.
abbrev pub reply_words : List Text
reply_words =
    codes "re"
    ∷ codes "aw"
    ∷ codes "sv"
    ∷ codes "vs"
    ∷ codes "antw"
    ∷ codes "res"
    ∷ codes "odp"
    ∷ codes "回复"
    ∷ codes "回覆"
    ∷ codes "rif"
    ∷ []

abbrev pub forward_words : List Text
forward_words = codes "fwd" ∷ codes "fw" ∷ codes "wg" ∷ codes "tr" ∷ codes "vs" ∷ codes "enc" ∷ []

-- What follows the word, in any case of its letters.
abbrev pub after_letters : Text → Text → Option Text
after_letters [] s = some s
after_letters (w ∷ ws) [] = none
after_letters (w ∷ ws) (c ∷ s) =
    let rest = after_letters ws s in if lower_code c == w then rest else none

-- What follows `[`, digits and `]`; the flag tells whether a digit was seen.
abbrev pub after_digits : Bool → Text → Option Text
after_digits seen [] = none
after_digits seen (c ∷ s) =
    let rest = after_digits true s in
    if is_digit c then rest else if seen && c == b']' then some s else none

abbrev pub after_counter : Text → Text
after_counter [] = []
after_counter (c ∷ s) =
    if c == b'[' then (elim (after_digits false s) [ none ↦ c ∷ s | some t ↦ t ]) else c ∷ s

abbrev pub after_colon : Text → Option Text
after_colon [] = none
after_colon (c ∷ s) = if c == b':' then some (trim_start s) else none

abbrev pub after_word : Text → Option Text
after_word s = after_colon (trim_start (after_counter (trim_start s)))

-- What follows the first prefix with one of the words. A counter that matches is never given back:
-- its bracket is no colon.
abbrev pub after_prefix : List Text → Text → Option Text
after_prefix [] s = none
after_prefix (w ∷ ws) s =
    let rest = after_prefix ws s in
    elim (after_letters w s) [
      | none ↦ rest
      | some t ↦ elim (after_word t) [ none ↦ rest | some u ↦ some u ]
    ]

abbrev or_same : Text → Option Text → Text
or_same s none = s
or_same s (some t) = t

-- `result.replace(PREFIX_RE, '')`.
unfoldable pub strip_prefix : Text → Text
strip_prefix s = or_same s (after_prefix reply_words (trim_start s))

unfoldable pub strip_passes : ℕ → Text → Text
unfolding strip_prefix
strip_passes zero s = s
strip_passes (suc n) s =
    let next = strip_prefix s in
    let rest = strip_passes n next in if text_eq next s then s else rest

unfoldable pub strip_reply_prefixes : Text → Text
unfolding strip_passes
strip_reply_prefixes subject = trim (strip_passes 10 (trim subject))

abbrev pub with_re : Text → Text
with_re [] = codes "Re:"
with_re (c ∷ s) = codes "Re: " ++ c ∷ s

unfoldable pub build_reply_subject : Text → Text
unfolding strip_reply_prefixes
build_reply_subject subject = with_re (strip_reply_prefixes subject)

abbrev or_no_subject : Text → Text
or_no_subject [] = codes "(no subject)"
or_no_subject (c ∷ s) = c ∷ s

abbrev forwarded : Text → Option Text → Text
forwarded subject (some _) = trim subject
forwarded subject none = codes "Fwd: " ++ or_no_subject (strip_reply_prefixes subject)

unfoldable pub build_forward_subject : Text → Text
build_forward_subject subject = forwarded subject (after_prefix forward_words (trim subject))

-- `buildReplyHeaders`.
pub record ThreadHeaders : Type 0 where
  pub in_reply_to : Text
  pub references : List Text
  pub subject : Text

unfoldable pub build_reply_headers : Text → List Text → Text → ThreadHeaders
unfolding trim_references chain_of build_reply_subject
build_reply_headers message_id_header references subject =
    let parent = normalize_message_id message_id_header in
    record {
      in_reply_to = parent;
      references = trim_references (chain_of parent references);
      subject = build_reply_subject subject;
    }

pub record EmailAddress : Type 0 where
  pub address : Text
  pub name : Option Text

pub record Original : Type 0 where
  pub from : EmailAddress
  pub reply_to : Option EmailAddress
  pub to : List EmailAddress
  pub cc : List EmailAddress

abbrev pub primary_of : Original → Option EmailAddress → EmailAddress
primary_of original none = original.from
primary_of original (some r) = r

abbrev pub address_key : EmailAddress → Text
address_key r = to_lower r.address

unfoldable pub resolve_reply_recipients :
    Original → Text → Bool → List EmailAddress × List EmailAddress
unfolding unseen
resolve_reply_recipients original self_address reply_all =
    let primary = primary_of original original.reply_to in
    let self = to_lower (trim self_address) in
    if not reply_all then (primary ∷ [], []) else (
      primary ∷ [],
      unseen address_key (self ∷ address_key primary ∷ []) (original.to ++ original.cc),
    )
