-- ===== src/Phone/Canonical.antt =====
-- A normalised number is in canonical form, which neither normalising nor Meta's form changes.
use whatsapp_email_assistant.Common.{
  ℕ, ◌≡◌, refl, sym, ap, ◌∙◌, inl, inr, Bool, true, false, ◌||◌, Option, some, [], ◌∷◌, arith, ◌==◌,
  and→both, Bool-cases, all, Text, codes, is_digit, is_space, trim, starts_with, trim_start,
  trim_end,
}
use whatsapp_email_assistant.Phone.{
  is_e164, is_filler, without_filler, with_plus, checked, national, is_digits, normalized,
  normalize_phone, to_whatsapp_format, from_whatsapp_format,
}

checked-is_e164 : (s p : Text) → checked s ≡ some p → (is_e164 p ≡ true) × (s ≡ p)
checked-is_e164 s p h = elim (Bool-cases (is_e164 s)) [
  | inl e ↦ let same : s ≡ p = ground arith in (rw (sym same) e, same)
  | inr e ↦ ground arith
]

normalized-is_e164 : (cc : Option Text) (s p : Text) → normalized cc s ≡ some p → is_e164 p ≡ true
normalized-is_e164 cc s p h = elim (Bool-cases (starts_with s (codes "+"))) [
  | inl e ↦ (checked-is_e164 s p (rw (normalized, e) at h)).0
  | inr e ↦ elim (Bool-cases (is_digits s)) [
    | inr d ↦ ground arith
    | inl d ↦ (checked-is_e164 (national cc s) p (rw (normalized, e, d) at h)).0
  ]
]

-- The characters of a canonical number.
abbrev is_kept : ℕ → Bool
is_kept c = is_digit c || c == b'+'

kept-solid : (c : ℕ) → is_kept c ≡ true → (is_space c ≡ false) × (is_filler c ≡ false)
kept-solid c h = (ground arith, ground arith)

digits-kept : (s : Text) → all is_digit s ≡ true → all is_kept s ≡ true
digits-kept [] h = refl
digits-kept (c ∷ s) h = ground (arith, digits-kept s)

-- A canonical number is a plus and digits.
e164-shape : (p : Text) → is_e164 p ≡ true → (s : Text) × (p ≡ b'+' ∷ s) × (all is_kept p ≡ true)
unfolding is_e164
e164-shape [] h = ground arith
e164-shape (x ∷ []) h = ground arith
e164-shape (x ∷ c ∷ s) h =
    let plus : x ≡ b'+' = ground arith in
    let digits : all is_digit s ≡ true = ground arith in
    let first : is_kept c ≡ true = ground arith in
    (c ∷ s, ap (λ y. y ∷ c ∷ s) plus, rw (plus, first) (digits-kept s digits))

kept_head : (c : ℕ) (s : Text) → all is_kept (c ∷ s) ≡ true → is_kept c ≡ true
kept_head c s h = (and→both (is_kept c) (all is_kept s) h).0

kept_tail : (c : ℕ) (s : Text) → all is_kept (c ∷ s) ≡ true → all is_kept s ≡ true
kept_tail c s h = (and→both (is_kept c) (all is_kept s) h).1

trim_start-kept : (s : Text) → all is_kept s ≡ true → trim_start s ≡ s
trim_start-kept [] h = refl
trim_start-kept (c ∷ s) h = let (a, _) = kept-solid c (kept_head c s h) in rw a refl

trim_end-kept : (s : Text) → all is_kept s ≡ true → trim_end s ≡ s
trim_end-kept [] h = refl
trim_end-kept (c ∷ []) h = let (a, _) = kept-solid c (kept_head c [] h) in rw a refl
trim_end-kept (c ∷ d ∷ s) h = rw (trim_end-kept (d ∷ s) (kept_tail c (d ∷ s) h)) refl

without_filler-kept : (s : Text) → all is_kept s ≡ true → without_filler s ≡ s
without_filler-kept [] h = refl
without_filler-kept (c ∷ s) h =
    let (_, b) = kept-solid c (kept_head c s h) in
    rw (b, without_filler-kept s (kept_tail c s h)) refl

canonical-normalize_phone :
    (p : Text) (cc : Option Text) → is_e164 p ≡ true → normalize_phone p cc ≡ some p
unfolding normalize_phone
canonical-normalize_phone p cc h =
    let (s, e, kept) = e164-shape p h in
    let cleaned : without_filler (trim p) ≡ b'+' ∷ s =
      rw (trim_start-kept p kept, trim_end-kept p kept) (without_filler-kept p kept) ∙ e in
    let valid : is_e164 (b'+' ∷ s) ≡ true = rw e at h in
    rw (cleaned, normalize_phone, normalized, valid) (ap some (sym e))

whatsapp-forms : (p : Text) → is_e164 p ≡ true → from_whatsapp_format (to_whatsapp_format p) ≡ p
unfolding to_whatsapp_format from_whatsapp_format is_e164
whatsapp-forms [] h = ground arith
whatsapp-forms (x ∷ []) h = ground arith
whatsapp-forms (x ∷ c ∷ s) h =
    let plus : x ≡ b'+' = ground arith in
    let other : (c == b'+') ≡ false = ground arith in rw (plus, other) refl

-- Whatever is typed, a number that it is normalised to is in canonical form: normalising it again,
-- with any calling code or none, leaves it as it is, and so does turning it into Meta's form and back.
pub normalize_phone-canonical :
    (input : Text) (cc dd : Option Text) (p : Text)
    → normalize_phone input cc ≡ some p
    → (is_e164 p ≡ true)
      × (normalize_phone p dd ≡ some p)
      × (from_whatsapp_format (to_whatsapp_format p) ≡ p)
unfolding normalize_phone
normalize_phone-canonical input cc dd p h =
    let valid = normalized-is_e164 cc (with_plus cc (without_filler (trim input))) p h in
    (valid, canonical-normalize_phone p dd valid, whatsapp-forms p valid)
