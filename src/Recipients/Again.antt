-- ===== src/Recipients/Again.antt =====
-- Texts of plain characters: what trimming, splitting and the name pattern do to them.
use whatsapp_email_assistant.Common.{
  ℕ, zero, suc, ◌≡◌, refl, ap, ◌∙◌, true, false, none, List, [], ◌∷◌, ◌++◌, map, append_assoc,
  arith, ltb, and→both, length, all, filter, All, Text, codes, is_space, trim, trim_start, trim_end,
}
use whatsapp_email_assistant.AppError.{ok}
use whatsapp_email_assistant.Commands.Compose.{join_with}
use whatsapp_email_assistant.Recipients.{
  EmailAddress, has_control_character, is_filled, is_address, opened, named_from, match_named,
  max_address_chars, parse_recipient, onto_part, split_from,
}
use whatsapp_email_assistant.Recipients.Address.{
  is_mark, is_plain, is_plain-splits, is_mark-none, is_address-is_plain,
}
use whatsapp_email_assistant.Recipients.Clean.{IsClean}

abbrev pub Plain : Text → Type 0
Plain s = all is_plain s ≡ true

Plain-head : (c : ℕ) (s : Text) → Plain (c ∷ s) → is_plain c ≡ true
Plain-head c s h = (and→both (is_plain c) (all is_plain s) h).0

Plain-tail : (c : ℕ) (s : Text) → Plain (c ∷ s) → Plain s
Plain-tail c s h = (and→both (is_plain c) (all is_plain s) h).1

trim_start-Plain : (s : Text) → Plain s → trim_start s ≡ s
trim_start-Plain [] h = refl
trim_start-Plain (c ∷ s) h =
    let (keeps, _, _) = is_plain-splits c (Plain-head c s h) in rw keeps refl

trim_end-Plain : (s : Text) → Plain s → trim_end s ≡ s
trim_end-Plain [] h = refl
trim_end-Plain (c ∷ []) h =
    let (keeps, _, _) = is_plain-splits c (Plain-head c [] h) in rw keeps refl
trim_end-Plain (c ∷ d ∷ s) h = rw (trim_end-Plain (d ∷ s) (Plain-tail c (d ∷ s) h)) refl

pub trim-Plain : (s : Text) → Plain s → trim s ≡ s
trim-Plain s h = rw (trim_start-Plain s h) (trim_end-Plain s h)

control-Plain : (s : Text) → Plain s → has_control_character s ≡ false
unfolding has_control_character
control-Plain [] h = refl
control-Plain (c ∷ s) h =
    let (_, first, _) = is_plain-splits c (Plain-head c s h) in
    rw first (control-Plain s (Plain-tail c s h))

opened-Plain : (s : Text) → Plain s → opened s ≡ none
opened-Plain [] h = refl
opened-Plain (c ∷ s) h =
    let (_, _, unmarked) = is_plain-splits c (Plain-head c s h) in
    let (_, first, _, _) = is_mark-none c unmarked in rw first refl

named_from-Plain : (fuel : ℕ) (name s : Text) → Plain s → named_from fuel name s ≡ none
named_from-Plain zero name s h = refl
named_from-Plain (suc fuel) name [] h = refl
named_from-Plain (suc fuel) name (c ∷ s) h =
    let b = Plain-tail c s h in
    rw (named_from, trim_start-Plain s b, opened-Plain s b)
      (named_from-Plain fuel (name ++ c ∷ []) s b)

abbrev pub bare : EmailAddress → EmailAddress
bare r = record { address = r.address; name = none }

is_address-filled : (s : Text) → is_address s ≡ true → is_filled s ≡ true
unfolding is_address
is_address-filled [] h = ground arith
is_address-filled (c ∷ s) h = refl

pub parse_recipient-clean :
    (r : EmailAddress) (input : Text)
    → IsClean r
    → trim input ≡ r.address
    → parse_recipient input ≡ ok (bare r)
unfolding parse_recipient match_named
parse_recipient-clean r input v e =
    let p = is_address-is_plain r.address v.is_one in
    let short : ltb max_address_chars (length r.address) ≡ false = ground (arith, v.is_short) in
    rw
      (
        e,
        parse_recipient,
        is_address-filled r.address v.is_one,
        control-Plain r.address p,
        named_from-Plain 80 [] r.address p,
        trim-Plain r.address p,
        short,
        v.is_one,
        v.domain_lowered,
      )
      refl

split_from-step :
    (c : ℕ) (s : Text)
    → is_mark c ≡ false
    → split_from 0 false (c ∷ s) ≡ onto_part c (split_from 0 false s)
split_from-step c s h =
    let (separates, opens, closes, quotes) = is_mark-none c h in
    rw (separates, quotes, opens, closes) refl

split_from-Plain : (s : Text) → Plain s → split_from 0 false s ≡ s ∷ []
split_from-Plain [] h = refl
split_from-Plain (c ∷ s) h =
    let (_, _, unmarked) = is_plain-splits c (Plain-head c s h) in
    split_from-step c s unmarked ∙ ap (onto_part c) (split_from-Plain s (Plain-tail c s h))

split_from-comma :
    (a s : Text) → Plain a → split_from 0 false (a ++ b',' ∷ s) ≡ a ∷ split_from 0 false s
split_from-comma [] s h = refl
split_from-comma (c ∷ a) s h =
    let (_, _, unmarked) = is_plain-splits c (Plain-head c a h) in
    split_from-step c (a ++ b',' ∷ s) unmarked
    ∙ ap (onto_part c) (split_from-comma a s (Plain-tail c a h))

abbrev pub spaced : Text → Text
spaced s = 32 ∷ s

-- What planCompose writes: `join(', ')`.
abbrev pub listed : List Text → Text
listed ps = join_with (codes ", ") ps

listed-cons : (a b : Text) (bs : List Text) → listed (a ∷ b ∷ bs) ≡ a ++ b',' ∷ 32 ∷ listed (b ∷ bs)
listed-cons a b bs = append_assoc a (codes ", ") (listed (b ∷ bs))

pub split_from-listed :
    (a : Text) (ps : List Text)
    → All Plain (a ∷ ps)
    → split_from 0 false (listed (a ∷ ps)) ≡ a ∷ map spaced ps
split_from-listed a [] (h, _) = split_from-Plain a h
split_from-listed a (b ∷ bs) (h, k) =
    ap (split_from 0 false) (listed-cons a b bs)
    ∙ split_from-comma a (32 ∷ listed (b ∷ bs)) h
    ∙ ap (λ r. a ∷ r)
        (split_from-step 32 (listed (b ∷ bs)) refl ∙ ap (onto_part 32) (split_from-listed b bs k))

trim_end-append :
    (s : Text) (d : ℕ) (t : Text) → trim_end (d ∷ t) ≡ d ∷ t → trim_end (s ++ d ∷ t) ≡ s ++ d ∷ t
trim_end-append [] d t h = h
trim_end-append (c ∷ []) d t h = rw (trim_end, h) refl
trim_end-append (c ∷ e ∷ s) d t h = rw (trim_end, trim_end-append (e ∷ s) d t h) refl

-- Addresses, none of which is empty.
abbrev pub Filled : Text → Type 0
Filled s = (c : ℕ) × (t : Text) × (s ≡ c ∷ t) × Plain s

listed-starts :
    (a : Text) (ps : List Text)
    → Filled a
    → (c : ℕ) × (t : Text) × (listed (a ∷ ps) ≡ c ∷ t) × (is_space c ≡ false)
listed-starts a [] (c, t, e, p) =
    let (solid, _, _) = is_plain-splits c (Plain-head c t (rw e at p)) in (c, t, e, solid)
listed-starts a (b ∷ bs) (c, t, e, p) =
    let (solid, _, _) = is_plain-splits c (Plain-head c t (rw e at p)) in
    (c, t ++ codes ", " ++ listed (b ∷ bs), ap (λ x. x ++ codes ", " ++ listed (b ∷ bs)) e, solid)

listed-ends :
    (a : Text) (ps : List Text) → All Filled (a ∷ ps) → trim_end (listed (a ∷ ps)) ≡ listed (a ∷ ps)
listed-ends a [] ((c, t, e, p), _) = trim_end-Plain a p
listed-ends a (b ∷ bs) (h, (k, l)) =
    let (c, t, e, _) = listed-starts b bs k in
    let rest = listed-ends b bs (k, l) in
    let tail : trim_end (44 ∷ 32 ∷ listed (b ∷ bs)) ≡ 44 ∷ 32 ∷ listed (b ∷ bs) =
      rw e (trim_end-append (44 ∷ 32 ∷ []) c t (rw e at rest)) in
    rw (listed-cons a b bs) (trim_end-append a 44 (32 ∷ listed (b ∷ bs)) tail)

pub trim-listed :
    (a : Text) (ps : List Text) → All Filled (a ∷ ps) → trim (listed (a ∷ ps)) ≡ listed (a ∷ ps)
trim-listed a ps (h, k) =
    let (c, t, e, solid) = listed-starts a ps h in
    let starts : trim_start (listed (a ∷ ps)) ≡ listed (a ∷ ps) = rw (e, solid) refl in
    rw starts (listed-ends a ps (h, k))

control-append :
    (s t : Text)
    → has_control_character s ≡ false
    → has_control_character t ≡ false
    → has_control_character (s ++ t) ≡ false
unfolding has_control_character
control-append [] t h k = k
control-append (c ∷ s) t h k = ground (arith, control-append s t)

pub control-listed :
    (a : Text) (ps : List Text)
    → All Plain (a ∷ ps)
    → has_control_character (listed (a ∷ ps)) ≡ false
unfolding has_control_character
control-listed a [] (h, _) = control-Plain a h
control-listed a (b ∷ bs) (h, k) = rw (listed-cons a b bs) (
    control-append a (44 ∷ 32 ∷ listed (b ∷ bs)) (control-Plain a h)
      (control-append (44 ∷ 32 ∷ []) (listed (b ∷ bs)) refl (control-listed b bs k)))

Filled-trim :
    (s : Text) → Filled s → (is_filled (trim s) ≡ true) × (is_filled (trim (spaced s)) ≡ true)
Filled-trim s (c, t, e, p) =
    let same : trim s ≡ c ∷ t = trim-Plain s p ∙ e in (rw same refl, rw same refl)

filter-spaced :
    (ps : List Text)
    → All Filled ps
    → filter (λ p. is_filled (trim p)) (map spaced ps) ≡ map spaced ps
filter-spaced [] h = refl
filter-spaced (a ∷ ps) (h, k) = let (_, f) = Filled-trim a h in rw (f, filter-spaced ps k) refl

pub filter-parts :
    (a : Text) (ps : List Text)
    → All Filled (a ∷ ps)
    → filter (λ p. is_filled (trim p)) (a ∷ map spaced ps) ≡ a ∷ map spaced ps
filter-parts a ps (h, k) = let (f, _) = Filled-trim a h in rw (f, filter-spaced ps k) refl
