-- ===== src/Recipients/Lower.antt =====
-- An address stays one when its domain is put in lower case, which a second time changes nothing.
use whatsapp_email_assistant.Common.{
  ℕ, suc, ◌≡◌, refl, sym, ap, ap₂, ◌∙◌, inl, inr, true, false, not, ◌&&◌, List, [], ◌∷◌, ◌++◌, map,
  arith, leb, ◌==◌, and→both, Bool-cases, length, all, Text, is_alnum, to_lower, join, split, lacks,
  split-join, join-split, split-nonempty, lower_code,
}
use whatsapp_email_assistant.Recipients.{
  is_atom, is_letter, is_inner, is_label_rest, is_label, is_tld, are_labels, is_domain_of,
  is_address, lowercase_domain,
}
use whatsapp_email_assistant.Recipients.Address.{is_address-Parts}

split_pieces_lack : (c : ℕ) (s : Text) → all (lacks c) (split c s) ≡ true
split_pieces_lack c [] = refl
split_pieces_lack c (x ∷ s) =
    let (p, ps, e) = split-nonempty c s in
    let rest : all (lacks c) (p ∷ ps) ≡ true = rw e at (split_pieces_lack c s) in
    elim (Bool-cases (x == c)) [ inl k ↦ rw (k, e) rest | inr k ↦ rw (k, e) (ground arith) ]

lower_code-alnum : (c : ℕ) → is_alnum c ≡ true → is_alnum (lower_code c) ≡ true
lower_code-alnum c h = ground arith

lower_code-inner : (c : ℕ) → is_inner c ≡ true → is_inner (lower_code c) ≡ true
lower_code-inner c h = ground arith

lower_code-letter : (c : ℕ) → is_letter c ≡ true → is_letter (lower_code c) ≡ true
lower_code-letter c h = ground arith

lower_code-again : (c : ℕ) → lower_code (lower_code c) ≡ lower_code c
lower_code-again c = ground arith

pub to_lower-again : (s : Text) → to_lower (to_lower s) ≡ to_lower s
to_lower-again [] = refl
to_lower-again (c ∷ s) = ap₂ ◌∷◌ (lower_code-again c) (to_lower-again s)

lacks-to_lower : (s : Text) → lacks b'@' s ≡ true → lacks b'@' (to_lower s) ≡ true
lacks-to_lower [] h = refl
lacks-to_lower (c ∷ s) h =
    let (a, b) = and→both (not (c == b'@')) (lacks b'@' s) h in
    let first : not (lower_code c == b'@') ≡ true = ground arith in
    rw (first, lacks-to_lower s b) refl

is_dot : (c : ℕ) → (lower_code c == b'.') ≡ (c == b'.')
is_dot c = ground arith

split-to_lower : (s : Text) → split b'.' (to_lower s) ≡ map to_lower (split b'.' s)
split-to_lower [] = refl
split-to_lower (c ∷ s) =
    let (p, ps, e) = split-nonempty b'.' s in
    let rest : split b'.' (to_lower s) ≡ map to_lower (p ∷ ps) =
      split-to_lower s ∙ ap (map to_lower) e in
    elim (Bool-cases (c == b'.')) [
      | inl k ↦ rw (is_dot c, k, e, rest) refl
      | inr k ↦ rw (is_dot c, k, e, rest) refl
    ]

length-to_lower : (s : Text) → length (to_lower s) ≡ length s
length-to_lower [] = refl
length-to_lower (c ∷ s) = ap suc (length-to_lower s)

is_label_rest-to_lower : (s : Text) → is_label_rest s ≡ true → is_label_rest (to_lower s) ≡ true
is_label_rest-to_lower [] h = refl
is_label_rest-to_lower (c ∷ []) h = lower_code-alnum c h
is_label_rest-to_lower (c ∷ d ∷ s) h =
    let (a, b) = and→both (is_inner c) (is_label_rest (d ∷ s)) h in
    rw (lower_code-inner c a) (is_label_rest-to_lower (d ∷ s) b)

is_label-to_lower : (s : Text) → is_label s ≡ true → is_label (to_lower s) ≡ true
is_label-to_lower [] h = h
is_label-to_lower (c ∷ s) h =
    let (a, b) = and→both (is_alnum c) (is_label_rest s) h in
    rw (lower_code-alnum c a) (is_label_rest-to_lower s b)

all_letters-to_lower : (s : Text) → all is_letter s ≡ true → all is_letter (to_lower s) ≡ true
all_letters-to_lower [] h = refl
all_letters-to_lower (c ∷ s) h =
    let (a, b) = and→both (is_letter c) (all is_letter s) h in
    rw (lower_code-letter c a) (all_letters-to_lower s b)

is_tld-to_lower : (s : Text) → is_tld s ≡ true → is_tld (to_lower s) ≡ true
is_tld-to_lower s h =
    let (a, b) = and→both (leb 2 (length s)) (all is_letter s) h in
    rw (length-to_lower s, a) (all_letters-to_lower s b)

are_labels-to_lower : (ls : List Text) → are_labels ls ≡ true → are_labels (map to_lower ls) ≡ true
are_labels-to_lower [] h = h
are_labels-to_lower (tld ∷ []) h = is_tld-to_lower tld h
are_labels-to_lower (l ∷ m ∷ ms) h =
    let (a, b) = and→both (is_label l) (are_labels (m ∷ ms)) h in
    rw (is_label-to_lower l a) (are_labels-to_lower (m ∷ ms) b)

is_domain_of-to_lower :
    (ls : List Text) → is_domain_of ls ≡ true → is_domain_of (map to_lower ls) ≡ true
is_domain_of-to_lower [] h = h
is_domain_of-to_lower (l ∷ []) h = h
is_domain_of-to_lower (l ∷ m ∷ ms) h = are_labels-to_lower (l ∷ m ∷ ms) h

lowercase_domain-parts :
    (local domain : Text)
    → lacks b'@' local ≡ true
    → lacks b'@' domain ≡ true
    → lowercase_domain (local ++ b'@' ∷ domain) ≡ local ++ b'@' ∷ to_lower domain
unfolding lowercase_domain
lowercase_domain-parts [] domain h k = rw k refl
lowercase_domain-parts (c ∷ local) domain h k =
    let (a, b) = and→both (not (c == b'@')) (lacks b'@' local) h in
    let other : (c == b'@') ≡ false = ground arith in
    rw (other, lowercase_domain-parts local domain b k) refl

-- What putting the domain in lower case does to an address.
pub record Lowered (s : Text) : Type 0 where
  pub front : Text
  pub back : Text
  pub before : s ≡ front ++ b'@' ∷ back
  pub after : lowercase_domain s ≡ front ++ b'@' ∷ to_lower back
  pub front_lacks : lacks b'@' front ≡ true
  pub back_lacks : lacks b'@' back ≡ true
  pub front_atoms : all is_atom (split b'.' front) ≡ true
  pub back_labels : is_domain_of (split b'.' back) ≡ true

pub is_address-Lowered : (s : Text) → is_address s ≡ true → Lowered s
is_address-Lowered s h =
    let v = is_address-Parts s h in
    let none_inside : all (lacks b'@') (v.local ∷ v.domain ∷ []) ≡ true =
      rw v.splits at (split_pieces_lack b'@' s) in
    let (a, b) = and→both (lacks b'@' v.local) (lacks b'@' v.domain && true) none_inside in
    let c = (and→both (lacks b'@' v.domain) true b).0 in
    let whole : s ≡ v.local ++ b'@' ∷ v.domain =
      sym (join-split b'@' s) ∙ ap (join b'@') v.splits in
    record {
      front = v.local;
      back = v.domain;
      before = whole;
      after = ap lowercase_domain whole ∙ lowercase_domain-parts v.local v.domain a c;
      front_lacks = a;
      back_lacks = c;
      front_atoms = v.atoms;
      back_labels = v.labels;
    }

pub is_address-lowercase_domain :
    (s : Text) → is_address s ≡ true → is_address (lowercase_domain s) ≡ true
unfolding is_address
is_address-lowercase_domain s h =
    let v = is_address-Lowered s h in
    let parts : split b'@' (v.front ++ b'@' ∷ to_lower v.back) ≡ v.front ∷ to_lower v.back ∷ [] =
      split-join b'@' v.front (to_lower v.back ∷ [])
        (rw (v.front_lacks, lacks-to_lower v.back v.back_lacks) refl) in
    rw (v.after, parts, v.front_atoms, split-to_lower v.back)
      (is_domain_of-to_lower (split b'.' v.back) v.back_labels)

pub lowercase_domain-again :
    (s : Text) → is_address s ≡ true → lowercase_domain (lowercase_domain s) ≡ lowercase_domain s
lowercase_domain-again s h =
    let v = is_address-Lowered s h in
    rw v.after (
      lowercase_domain-parts v.front (to_lower v.back) v.front_lacks
        (lacks-to_lower v.back v.back_lacks)
      ∙ ap (λ t. v.front ++ b'@' ∷ t) (to_lower-again v.back))

pub length-lowercase_domain : (s : Text) → length (lowercase_domain s) ≡ length s
unfolding lowercase_domain
length-lowercase_domain [] = refl
length-lowercase_domain (c ∷ s) = elim (Bool-cases (c == b'@' && lacks b'@' s)) [
  | inl e ↦ rw e (ap suc (length-to_lower s))
  | inr e ↦ rw e (ap suc (length-lowercase_domain s))
]
