-- ===== src/Recipients/Address.antt =====
-- What an address holds, and how its domain is put in lower case.
use whatsapp_email_assistant.Common.{
  ℕ, ◌≡◌, refl, sym, ap, ◌∙◌, inl, inr, Bool, true, false, not, ◌&&◌, ◌||◌, List, [], ◌∷◌, ◌++◌,
  arith, ◌==◌, and→both, Bool-cases, all, any, all-append, Text, codes, is_alnum, is_space,
  ℕ_discrete, join, split, join-split,
}
use whatsapp_email_assistant.Recipients.{
  is_atext, is_atom, is_letter, is_inner, is_label_rest, is_label, is_tld, are_labels, is_domain_of,
  is_address_of, is_address, is_control, is_filled, is_separator,
}

-- What a list of addresses is written with.
abbrev pub is_mark : ℕ → Bool
is_mark c = c == b',' || (c == b';' || (c == b'<' || (c == b'>' || c == b'"')))

-- None of these, nor white space or a control character.
abbrev pub is_plain : ℕ → Bool
is_plain c = not (is_space c) && (not (is_control c) && not (is_mark c))

not-true : (b : Bool) → not b ≡ true → b ≡ false
not-true true h = ground arith
not-true false h = refl

pub is_plain-splits :
    (c : ℕ)
    → is_plain c ≡ true
    → (is_space c ≡ false) × (is_control c ≡ false) × (is_mark c ≡ false)
is_plain-splits c h =
    let (a, b) = and→both (not (is_space c)) (not (is_control c) && not (is_mark c)) h in
    let (d, e) = and→both (not (is_control c)) (not (is_mark c)) b in
    (not-true (is_space c) a, not-true (is_control c) d, not-true (is_mark c) e)

pub is_mark-none :
    (c : ℕ)
    → is_mark c ≡ false
    → (is_separator c ≡ false)
      × ((c == b'<') ≡ false)
      × ((c == b'>') ≡ false)
      × ((c == b'"') ≡ false)
is_mark-none c h = (ground arith, ground arith, ground arith, ground arith)

is_alnum-is_plain : (c : ℕ) → is_alnum c ≡ true → is_plain c ≡ true
is_alnum-is_plain c h = ground arith

one_of-is_plain :
    (c : ℕ) (l : Text) → all is_plain l ≡ true → any (λ d. c == d) l ≡ true → is_plain c ≡ true
one_of-is_plain c [] h k = ground arith
one_of-is_plain c (d ∷ l) h k = elim (ℕ_discrete c d) [
  | yes e ↦ rw e (and→both _ _ h).0
  | no e ↦ one_of-is_plain c l (and→both _ _ h).1 (ground arith)
]

is_atext-is_plain : (c : ℕ) → is_atext c ≡ true → is_plain c ≡ true
is_atext-is_plain c h = elim (Bool-cases (is_alnum c)) [
  | inl e ↦ is_alnum-is_plain c e
  | inr e ↦ one_of-is_plain c (codes "!#$%&'*+/=?^_`{|}~-") refl (rw e at h)
]

is_inner-is_plain : (c : ℕ) → is_inner c ≡ true → is_plain c ≡ true
is_inner-is_plain c h = elim (Bool-cases (is_alnum c)) [
  | inl e ↦ is_alnum-is_plain c e
  | inr e ↦ one_of-is_plain c (codes "-") refl (ground arith)
]

module _ (p q : ℕ → Bool) (k : (c : ℕ) → p c ≡ true → q c ≡ true) where
  all_weaker : (s : Text) → all p s ≡ true → all q s ≡ true
  all_weaker [] h = refl
  all_weaker (c ∷ s) h = let (a, b) = and→both _ _ h in rw (k c a) (all_weaker s b)

is_label_rest-is_plain : (s : Text) → is_label_rest s ≡ true → all is_plain s ≡ true
is_label_rest-is_plain [] h = refl
is_label_rest-is_plain (c ∷ []) h = rw (is_alnum-is_plain c h) refl
is_label_rest-is_plain (c ∷ d ∷ s) h =
    let (a, b) = and→both _ _ h in rw (is_inner-is_plain c a) (is_label_rest-is_plain (d ∷ s) b)

is_label-is_plain : (s : Text) → is_label s ≡ true → all is_plain s ≡ true
is_label-is_plain [] h = refl
is_label-is_plain (c ∷ s) h =
    let (a, b) = and→both _ _ h in rw (is_alnum-is_plain c a) (is_label_rest-is_plain s b)

is_tld-is_plain : (s : Text) → is_tld s ≡ true → all is_plain s ≡ true
is_tld-is_plain s h =
    all_weaker is_letter is_plain (λ c k. is_alnum-is_plain c (ground arith)) s (and→both _ _ h).1

are_labels-is_plain : (ls : List Text) → are_labels ls ≡ true → all (all is_plain) ls ≡ true
are_labels-is_plain [] h = refl
are_labels-is_plain (tld ∷ []) h = rw (is_tld-is_plain tld h) refl
are_labels-is_plain (l ∷ m ∷ ms) h =
    let (a, b) = and→both _ _ h in rw (is_label-is_plain l a) (are_labels-is_plain (m ∷ ms) b)

are_atoms-is_plain : (ls : List Text) → all is_atom ls ≡ true → all (all is_plain) ls ≡ true
are_atoms-is_plain [] h = refl
are_atoms-is_plain (l ∷ ls) h =
    let (a, b) = and→both (is_atom l) (all is_atom ls) h in
    rw
      (all_weaker is_atext is_plain is_atext-is_plain l
        (and→both (is_filled l) (all is_atext l) a).1)
      (are_atoms-is_plain ls b)

all-join :
    (p : ℕ → Bool) (c : ℕ) (ls : List Text)
    → p c ≡ true
    → all (all p) ls ≡ true
    → all p (join c ls) ≡ true
all-join p c [] k h = refl
all-join p c (l ∷ []) k h = (and→both _ _ h).0
all-join p c (l ∷ m ∷ ls) k h =
    let (a, b) = and→both (all p l) (all (all p) (m ∷ ls)) h in
    all-append p l (c ∷ join c (m ∷ ls)) ∙ rw (a, k) (all-join p c (m ∷ ls) k b)

is_domain_of-are_labels : (ls : List Text) → is_domain_of ls ≡ true → are_labels ls ≡ true
is_domain_of-are_labels [] h = h
is_domain_of-are_labels (l ∷ []) h = ground arith
is_domain_of-are_labels (l ∷ m ∷ ms) h = h

-- The parts of an address.
pub record Parts (s : Text) : Type 0 where
  pub local : Text
  pub domain : Text
  pub splits : split b'@' s ≡ local ∷ domain ∷ []
  pub atoms : all is_atom (split b'.' local) ≡ true
  pub labels : is_domain_of (split b'.' domain) ≡ true

pub is_address-Parts : (s : Text) → is_address s ≡ true → Parts s
unfolding is_address
is_address-Parts s h = of_split (split b'@' s) refl h
  where
    of_split : (ps : List Text) → split b'@' s ≡ ps → is_address_of ps ≡ true → Parts s
    of_split [] e k = ground arith
    of_split (l ∷ []) e k = ground arith
    of_split (l ∷ d ∷ []) e k = record {
      local = l;
      domain = d;
      splits = e;
      atoms = (and→both _ _ k).0;
      labels = (and→both _ _ k).1;
    }
    of_split (l ∷ d ∷ x ∷ xs) e k = ground arith

pub is_address-is_plain : (s : Text) → is_address s ≡ true → all is_plain s ≡ true
is_address-is_plain s h =
    let v = is_address-Parts s h in
    let local_plain : all is_plain v.local ≡ true = rw (join-split b'.' v.local) at (
      all-join is_plain b'.' (split b'.' v.local) refl
        (are_atoms-is_plain (split b'.' v.local) v.atoms)) in
    let domain_plain : all is_plain v.domain ≡ true = rw (join-split b'.' v.domain) at (
      all-join is_plain b'.' (split b'.' v.domain) refl (
        are_labels-is_plain (split b'.' v.domain)
          (is_domain_of-are_labels (split b'.' v.domain) v.labels))) in
    let whole : s ≡ v.local ++ b'@' ∷ v.domain =
      sym (join-split b'@' s) ∙ ap (join b'@') v.splits in
    rw whole (all-append is_plain v.local (b'@' ∷ v.domain) ∙ rw (local_plain, domain_plain) refl)
