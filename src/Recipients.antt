-- ===== src/Recipients.antt =====
-- packages/mail/src/recipients.ts: reading the addresses that an email is to go to. The regular
-- expressions are written out as matchers.
pub mod Address
pub mod Lower
pub mod Clean
pub mod Again
pub mod Roundtrip
mod Tests
use whatsapp_email_assistant.Common.{
  ℕ, zero, suc, ◌+◌, ◌-◌, ◌*◌, ◌/◌, ◌%◌, ◌^◌, ◌≤◌, ◌<◌, ◌≡◌, refl, sym, ap, ap₂, ◌∙◌, ◌≡⟨◌⟩◌, ◌∎,
  ◌≢◌, ◌↔◌, ◌⊎◌, inl, inr, Bool, true, false, not, ◌&&◌, ◌||◌, Option, none, some, List, [], ◌∷◌,
  ◌++◌, map, reverse, append_assoc, append-nil, arith, String, ltb, leb, ◌==◌, if◌then◌else◌,
  ==_iff, ==_refl, leb→le, ltb→lt, and→both, Bool-cases, Option-cases, length, take, drop,
  get_elem?, all, any, filter, find, count, length-append, count-append, all-append, length-filter,
  All, All-append, Text, codes, text_eq, text_eq_iff, text_eq_refl, mem_text, is_digit, is_upper,
  is_lower, is_alnum, is_space, trim, to_lower, starts_with, ends_with, ℕ_discrete, join, split,
  lacks, split-join, join-split, split-nonempty, split-before, split-lacks, to_upper, upper_code,
  trim_start, trim_end, lower_code,
}
use whatsapp_email_assistant.AppError.{
  Result, ok, err, ◌>>=◌, Thrown, known, app_error, ErrorCode, validation_failed,
}
use whatsapp_email_assistant.Commands.Taps.{shown}

pub record EmailAddress : Type 0 where
  pub address : Text
  pub name : Option Text

-- C0, DEL and the two separators of lines.
abbrev pub is_control : ℕ → Bool
is_control c = leb c 31 || (c == 127 || (c == 8232 || c == 8233))

unfoldable pub has_control_character : Text → Bool
has_control_character value = any is_control value

abbrev pub is_filled : Text → Bool
is_filled [] = false
is_filled (_ ∷ _) = true

abbrev pub is_atext : ℕ → Bool
is_atext c = is_alnum c || any (λ d. c == d) (codes "!#$%&'*+/=?^_`{|}~-")

abbrev pub is_atom : Text → Bool
is_atom s = is_filled s && all is_atext s

abbrev pub is_letter : ℕ → Bool
is_letter c = is_upper c || is_lower c

abbrev pub is_inner : ℕ → Bool
is_inner c = is_alnum c || c == b'-'

-- `(?:[A-Za-z0-9-]*[A-Za-z0-9])?`.
abbrev pub is_label_rest : Text → Bool
is_label_rest [] = true
is_label_rest (c ∷ []) = is_alnum c
is_label_rest (c ∷ d ∷ s) = is_inner c && is_label_rest (d ∷ s)

abbrev pub is_label : Text → Bool
is_label [] = false
is_label (c ∷ s) = is_alnum c && is_label_rest s

abbrev pub is_tld : Text → Bool
is_tld s = leb 2 (length s) && all is_letter s

-- At least one label, and the last part.
abbrev pub are_labels : List Text → Bool
are_labels [] = false
are_labels (tld ∷ []) = is_tld tld
are_labels (l ∷ m ∷ ms) = is_label l && are_labels (m ∷ ms)

abbrev pub is_domain_of : List Text → Bool
is_domain_of (l ∷ m ∷ ms) = are_labels (l ∷ m ∷ ms)
is_domain_of _ = false

abbrev pub is_address_of : List Text → Bool
is_address_of (local ∷ domain ∷ []) =
    all is_atom (split b'.' local) && is_domain_of (split b'.' domain)
is_address_of _ = false

-- `ADDRESS`.
unfoldable pub is_address : Text → Bool
is_address s = is_address_of (split b'@' s)

-- `([^<>]+)>$`.
abbrev pub closed : Text → Option Text
closed [] = none
closed (c ∷ []) = none
closed (c ∷ d ∷ []) =
    if not (c == b'<') && not (c == b'>') && d == b'>' then some (c ∷ []) else none
closed (c ∷ d ∷ e ∷ s) = elim (closed (d ∷ e ∷ s)) [
  | none ↦ none
  | some inner ↦ if not (c == b'<') && not (c == b'>') then some (c ∷ inner) else none
]

abbrev pub opened : Text → Option Text
opened [] = none
opened (c ∷ s) = if c == b'<' then closed s else none

-- `NAMED`: the shortest name, of at most `fuel` more characters.
abbrev pub named_from : ℕ → Text → Text → Option (Text × Text)
named_from zero name s = none
named_from (suc fuel) name [] = none
named_from (suc fuel) name (c ∷ s) =
    let rest = named_from fuel (name ++ c ∷ []) s in
    elim (opened (trim_start s)) [ some a ↦ some (name ++ c ∷ [], a) | none ↦ rest ]

unfoldable pub match_named : Text → Option (Text × Text)
match_named raw = named_from 80 [] raw

abbrev pub drop_quote : Text → Text
drop_quote [] = []
drop_quote (c ∷ s) = if c == b'"' then s else c ∷ s

abbrev pub drop_last_quote : Text → Text
drop_last_quote [] = []
drop_last_quote (c ∷ []) = if c == b'"' then [] else c ∷ []
drop_last_quote (c ∷ d ∷ s) = c ∷ drop_last_quote (d ∷ s)

abbrev pub address_part : Text → Option (Text × Text) → Text
address_part raw none = trim raw
address_part raw (some (name, address)) = trim address

abbrev pub name_part : Option (Text × Text) → Text
name_part none = []
name_part (some (name, address)) = drop_last_quote (drop_quote (trim name))

-- Of an address, which has one `@`.
unfoldable pub lowercase_domain : Text → Text
lowercase_domain [] = []
lowercase_domain (c ∷ s) =
    let rest = lowercase_domain s in if c == b'@' && lacks b'@' s then c ∷ to_lower s else c ∷ rest

abbrev pub max_address_chars : ℕ
max_address_chars = 254

abbrev pub clamp_60 : Text → Text
clamp_60 value = if ltb 60 (length value) then take 57 value ++ 8230 ∷ [] else value

abbrev pub refuse : Text → Thrown
refuse public_message = known (app_error validation_failed (some public_message) (some false))

abbrev pub optional : Text → Option Text
optional [] = none
optional (c ∷ s) = some (c ∷ s)

abbrev pub accept : Text → Text → Result EmailAddress
accept address name =
    if ltb max_address_chars (length address)
    then err (refuse (codes "That address is too long to be real."))
    else if not (is_address address)
    then err
        (refuse (codes "“" ++ clamp_60 address ++ codes "” is not an email address I can send to."))
    else ok (record { address = lowercase_domain address; name = optional name })

abbrev pub parse_trimmed : Text → Result EmailAddress
parse_trimmed raw =
    if not (is_filled raw)
    then err (refuse (codes "Who should I send it to?"))
    else if has_control_character raw
    then err (refuse (codes "That address has something odd in it."))
    else accept (address_part raw (match_named raw)) (name_part (match_named raw))

unfoldable pub parse_recipient : Text → Result EmailAddress
parse_recipient input = parse_trimmed (trim input)

abbrev pub toggled : ℕ → Bool → Bool
toggled c quoted = if c == b'"' then not quoted else quoted

abbrev pub depth_after : ℕ → Bool → ℕ → ℕ
depth_after c quoted depth =
    if c == b'"' || quoted
    then depth
    else if c == b'<'
    then suc depth
    else if c == b'>'
    then depth - 1
    else depth

abbrev pub is_separator : ℕ → Bool
is_separator c = c == b',' || c == b';'

-- A character goes to the front of the first part.
abbrev pub onto_part : ℕ → List Text → List Text
onto_part c [] = (c ∷ []) ∷ []
onto_part c (p ∷ ps) = (c ∷ p) ∷ ps

abbrev pub split_from : ℕ → Bool → Text → List Text
split_from depth quoted [] = [] ∷ []
split_from depth quoted (c ∷ s) =
    let d = depth_after c quoted depth in
    let q = toggled c quoted in
    let rest = split_from d q s in
    if is_separator c && (d == 0 && not q) then [] ∷ rest else onto_part c rest

unfoldable pub split_addresses : Text → List Text
split_addresses input = split_from 0 false input

-- The loop, with the keys that it has seen.
unfoldable pub parse_parts : List Text → List Text → Result (List EmailAddress)
parse_parts seen [] = ok []
parse_parts seen (part ∷ parts) = elim (parse_recipient part) [
  | err e ↦ err e
  | ok r ↦
      let key = to_lower r.address in
      elim (mem_text key seen) [
        | true ↦ parse_parts seen parts
        | false ↦ elim (parse_parts (key ∷ seen) parts) [ err e ↦ err e | ok rs ↦ ok (r ∷ rs) ]
      ]
]

abbrev pub parse_bounded : ℕ → List Text → Result (List EmailAddress)
parse_bounded max [] = err (refuse (codes "Who should I send it to?"))
parse_bounded max (p ∷ ps) =
    if ltb max (length (p ∷ ps))
    then err (
        refuse (
          codes "That is "
          ++ shown (length (p ∷ ps))
          ++ codes " recipients — I can send to at most "
          ++ shown max
          ++ codes " at once."))
    else parse_parts [] (p ∷ ps)

unfoldable pub parse_recipient_list : Text → ℕ → Result (List EmailAddress)
parse_recipient_list input max =
    let raw = trim input in
    if has_control_character raw
    then err (refuse (codes "That list has something odd in it."))
    else parse_bounded max (filter (λ p. is_filled (trim p)) (split_addresses raw))
