-- ===== src/Recipients/Clean.antt =====
-- What is accepted as a recipient.
use whatsapp_email_assistant.Common.{
  ℕ, zero, suc, ◌≤◌, ◌≡◌, refl, ◌∙◌, inl, inr, Bool, true, false, not, Option, none, some, List, [],
  ◌∷◌, ◌++◌, arith, ltb, and→both, Bool-cases, Option-cases, length, all, filter, all-append, All,
  Text, mem_text, is_space, trim, to_lower, trim_start, trim_end,
}
use whatsapp_email_assistant.AppError.{ok, Result-cases}
use whatsapp_email_assistant.Recipients.{
  EmailAddress, is_control, has_control_character, is_filled, is_address, opened, named_from,
  match_named, drop_quote, drop_last_quote, address_part, name_part, lowercase_domain,
  max_address_chars, optional, accept, parse_recipient, split_addresses, parse_parts, parse_bounded,
  parse_recipient_list,
}
use whatsapp_email_assistant.Recipients.Lower.{
  is_address-lowercase_domain, lowercase_domain-again, length-lowercase_domain,
}

-- An address that is read as it stands, and a name that cannot end a header.
pub record IsClean (r : EmailAddress) : Type 0 where
  pub is_one : is_address r.address ≡ true
  pub domain_lowered : lowercase_domain r.address ≡ r.address
  pub is_short : length r.address ≤ max_address_chars
  pub name_safe : (n : Text) → r.name ≡ some n → has_control_character n ≡ false

module _ (p : ℕ → Bool) where
  all-trim_start : (s : Text) → all p s ≡ true → all p (trim_start s) ≡ true
  all-trim_start [] h = refl
  all-trim_start (c ∷ s) h =
      let (a, b) = and→both (p c) (all p s) h in
      elim (Bool-cases (is_space c)) [ inl e ↦ rw e (all-trim_start s b) | inr e ↦ rw e h ]

  all-trim_end : (s : Text) → all p s ≡ true → all p (trim_end s) ≡ true
  all-trim_end [] h = refl
  all-trim_end (c ∷ s) h =
      let (a, b) = and→both (p c) (all p s) h in ends (trim_end s) refl (all-trim_end s b) a
    where
      ends :
          (t : Text)
          → trim_end s ≡ t
          → all p t ≡ true
          → p c ≡ true
          → all p (trim_end (c ∷ s)) ≡ true
      ends [] e k q = rw e (ground arith)
      ends (d ∷ t) e k q = rw (e, q) k

  all-drop_quote : (s : Text) → all p s ≡ true → all p (drop_quote s) ≡ true
  all-drop_quote [] h = refl
  all-drop_quote (c ∷ s) h = ground arith

  all-drop_last_quote : (s : Text) → all p s ≡ true → all p (drop_last_quote s) ≡ true
  all-drop_last_quote [] h = refl
  all-drop_last_quote (c ∷ []) h = ground arith
  all-drop_last_quote (c ∷ d ∷ s) h =
      let (a, b) = and→both (p c) (all p (d ∷ s)) h in rw a (all-drop_last_quote (d ∷ s) b)

  all-named_from :
      (fuel : ℕ) (name s n a : Text)
      → all p name ≡ true
      → all p s ≡ true
      → named_from fuel name s ≡ some (n, a)
      → all p n ≡ true
  all-named_from zero name s n a h k e = ground arith
  all-named_from (suc fuel) name [] n a h k e = ground arith
  all-named_from (suc fuel) name (c ∷ s) n a h k e =
      let (x, y) = and→both (p c) (all p s) k in
      let longer : all p (name ++ c ∷ []) ≡ true = all-append p name (c ∷ []) ∙ rw (h, x) refl in
      elim (Option-cases (opened (trim_start s))) [
        | inl o ↦ all-named_from fuel (name ++ c ∷ []) s n a longer y (rw (o, named_from) at e)
        | inr (b, o) ↦ ground (arith, longer, rw (o, named_from) at e)
      ]

abbrev is_harmless : ℕ → Bool
is_harmless c = not (is_control c)

safe-all : (s : Text) → has_control_character s ≡ false → all is_harmless s ≡ true
unfolding has_control_character
safe-all [] h = refl
safe-all (c ∷ s) h = ground (arith, safe-all s)

all-safe : (s : Text) → all is_harmless s ≡ true → has_control_character s ≡ false
unfolding has_control_character
all-safe [] h = refl
all-safe (c ∷ s) h = ground (arith, all-safe s)

name_part-safe :
    (raw : Text) → all is_harmless raw ≡ true → all is_harmless (name_part (match_named raw)) ≡ true
unfolding match_named
name_part-safe raw h = of_match (match_named raw) refl
  where
    of_match :
        (o : Option (Text × Text)) → match_named raw ≡ o → all is_harmless (name_part o) ≡ true
    of_match none e = refl
    of_match (some (n, a)) e = all-drop_last_quote is_harmless (drop_quote (trim n)) (
        all-drop_quote is_harmless (trim n) (
          all-trim_end is_harmless (trim_start n)
            (all-trim_start is_harmless n (all-named_from is_harmless 80 [] raw n a refl h e))))

optional-some : (s n : Text) → optional s ≡ some n → s ≡ n
optional-some [] n h = ground arith
optional-some (c ∷ s) n h = ground arith

accept-IsClean :
    (address name : Text) (r : EmailAddress)
    → all is_harmless name ≡ true
    → accept address name ≡ ok r
    → IsClean r
accept-IsClean address name r safe h = elim (Bool-cases (ltb max_address_chars (length address))) [
  | inl l ↦ ground arith
  | inr l ↦ elim (Bool-cases (is_address address)) [
    | inr a ↦ ground arith
    | inl a ↦
        let same : r ≡ record { address = lowercase_domain address; name = optional name } =
          ground arith in
        rw same (record {
          is_one = is_address-lowercase_domain address a;
          domain_lowered = lowercase_domain-again address a;
          is_short = rw (length-lowercase_domain address) (ground arith);
          name_safe = λ n e. all-safe n (rw (optional-some name n e) at safe);
        })
  ]
]

pub parse_recipient-IsClean :
    (input : Text) (r : EmailAddress) → parse_recipient input ≡ ok r → IsClean r
unfolding parse_recipient
parse_recipient-IsClean input r h =
    let raw = trim input in
    elim (Bool-cases (is_filled raw)) [
      | inr f ↦ ground arith
      | inl f ↦ elim (Bool-cases (has_control_character raw)) [
        | inl c ↦ ground arith
        | inr c ↦
            accept-IsClean (address_part raw (match_named raw)) (name_part (match_named raw)) r
              (name_part-safe raw (safe-all raw c)) (rw (f, parse_recipient, c) at h)
      ]
    ]

-- Nobody is listed twice, nor is anyone seen before.
abbrev pub Fresh : List Text → List EmailAddress → Type 0
Fresh seen [] = Unit
Fresh seen (r ∷ rs) =
    (mem_text (to_lower r.address) seen ≡ false) × Fresh (to_lower r.address ∷ seen) rs

pub record AreClean (seen : List Text) (most : ℕ) (rs : List EmailAddress) : Type 0 where
  pub each : All IsClean rs
  pub fresh : Fresh seen rs
  pub few : length rs ≤ most

parse_parts-AreClean :
    (seen parts : List Text) (rs : List EmailAddress)
    → parse_parts seen parts ≡ ok rs
    → AreClean seen (length parts) rs
unfolding parse_parts
parse_parts-AreClean seen [] rs h =
    rw (let e : rs ≡ [] = ground arith in e) (record { each = tt; fresh = tt; few = omega arith })
parse_parts-AreClean seen (part ∷ parts) rs h = elim (Result-cases (parse_recipient part)) [
  | inr (x, e) ↦ ground arith
  | inl (r, e) ↦ elim (Bool-cases (mem_text (to_lower r.address) seen)) [
    | inl m ↦
        let v = parse_parts-AreClean seen parts rs (rw (e, parse_parts, m) at h) in
        record { each = v.each; fresh = v.fresh; few = omega (arith, v.few) }
    | inr m ↦ elim (Result-cases (parse_parts (to_lower r.address ∷ seen) parts)) [
      | inr (x, k) ↦ ground arith
      | inl (qs, k) ↦
          let v = parse_parts-AreClean (to_lower r.address ∷ seen) parts qs k in
          let same : rs ≡ r ∷ qs = ground arith in
          rw same (record {
            each = (parse_recipient-IsClean part r e, v.each);
            fresh = (m, v.fresh);
            few = omega (arith, v.few);
          })
    ]
  ]
]

-- Whatever is typed, what is accepted as the recipients is at most as many as are allowed, no two of
-- them alike but for letter case; each is an address that the code accepts as it stands, of at most
-- 254 characters, and no name holds a character that could end a header.
pub parse_recipient_list-AreClean :
    (input : Text) (max : ℕ) (rs : List EmailAddress)
    → parse_recipient_list input max ≡ ok rs
    → AreClean [] max rs
unfolding parse_recipient_list
parse_recipient_list-AreClean input max rs h =
    elim (Bool-cases (has_control_character (trim input))) [
      | inl c ↦ ground arith
      | inr c ↦
          of_parts (filter (λ p. is_filled (trim p)) (split_addresses (trim input)))
            (rw (c, parse_recipient_list) at h)
    ]
  where
    of_parts : (ps : List Text) → parse_bounded max ps ≡ ok rs → AreClean [] max rs
    of_parts [] k = ground arith
    of_parts (p ∷ ps) k = elim (Bool-cases (ltb max (length (p ∷ ps)))) [
      | inl l ↦ ground arith
      | inr l ↦
          let v = parse_parts-AreClean [] (p ∷ ps) rs (rw l at k) in
          record { each = v.each; fresh = v.fresh; few = ground (arith, v.few) }
    ]
