-- ===== src/Threading/Subject.antt =====
-- The subject of a reply: one prefix, however often the thread is answered.
use whatsapp_email_assistant.Common.{
  ℕ, suc, ◌<◌, ◌≡◌, refl, sym, ap, ◌∙◌, ◌⊎◌, inl, inr, false, List, [], ◌∷◌, arith, Bool-cases,
  length, Text, text_eq, text_eq_refl, is_space, trim,
}
use whatsapp_email_assistant.Common.{trim_start, trim_end}
use whatsapp_email_assistant.Threading.{
  strip_prefix, strip_passes, strip_reply_prefixes, with_re, build_reply_subject,
}

List-cases {ℓ} : {A : Type ℓ} (l : List A) → (l ≡ []) ⊎ ((a : A) × (rest : List A) × (l ≡ a ∷ rest))
List-cases [] = inl refl
List-cases (a ∷ rest) = inr (a, rest, refl)

trim_start-twice : (s : Text) → trim_start (trim_start s) ≡ trim_start s
trim_start-twice [] = refl
trim_start-twice (c ∷ s) = elim (Bool-cases (is_space c)) [
  | inl e ↦ rw e (trim_start-twice s)
  | inr e ↦ rw (e, e) refl
]

trim_end-twice : (s : Text) → trim_end (trim_end s) ≡ trim_end s
trim_end-twice [] = refl
trim_end-twice (c ∷ s) = elim (List-cases (trim_end s)) [
  | inl e ↦ elim (Bool-cases (is_space c)) [ inl f ↦ rw (e, f) refl | inr f ↦ rw (e, f, f) refl ]
  | inr (d, t, e) ↦
      let again : trim_end (d ∷ t) ≡ d ∷ t = sym (ap trim_end e) ∙ trim_end-twice s ∙ e in
      rw (e, again) refl
]

trim_start-head : (s : Text) (c : ℕ) (t : Text) → trim_start s ≡ c ∷ t → is_space c ≡ false
trim_start-head [] c t h = ground arith
trim_start-head (d ∷ s) c t h = elim (Bool-cases (is_space d)) [
  | inl e ↦ trim_start-head s c t (ground arith)
  | inr e ↦ ground arith
]

-- Trimming the end keeps a first character that is no space.
trim_end-start :
    (c : ℕ) (s : Text) → is_space c ≡ false → trim_start (trim_end (c ∷ s)) ≡ trim_end (c ∷ s)
trim_end-start c s h = elim (List-cases (trim_end s)) [
  | inl e ↦ rw (e, h, h) refl
  | inr (d, t, e) ↦ rw (e, h) refl
]

trim-twice : (s : Text) → trim (trim s) ≡ trim s
trim-twice s = elim (List-cases (trim_start s)) [
  | inl e ↦ rw e refl
  | inr (c, t, e) ↦ rw (e, trim_end-start c t (trim_start-head s c t e)) (trim_end-twice (c ∷ t))
]

text_eq-longer : (t : Text) (a : ℕ) (s : Text) → length t < length s → text_eq t s ≡ false
text_eq-longer [] a [] h = ground arith
text_eq-longer [] a (d ∷ s) h = refl
text_eq-longer (c ∷ t) a [] h = ground arith
text_eq-longer (c ∷ t) a (d ∷ s) h = ground (arith, text_eq-longer t a s)

strip-with_re : (c : ℕ) (t : Text) → is_space c ≡ false → strip_prefix (with_re (c ∷ t)) ≡ c ∷ t
unfolding strip_prefix
strip-with_re c t h = rw h refl

strip_passes-none : (n : ℕ) (t : Text) → strip_prefix t ≡ t → strip_passes (suc n) t ≡ t
unfolding strip_passes
strip_passes-none n t h = rw (h, text_eq_refl t) refl

strip_passes-with_re :
    (c : ℕ) (t : Text)
    → is_space c ≡ false
    → strip_prefix (c ∷ t) ≡ c ∷ t
    → strip_passes 10 (with_re (c ∷ t)) ≡ c ∷ t
unfolding strip_passes
strip_passes-with_re c t h k =
    let differ : text_eq (c ∷ t) (with_re (c ∷ t)) ≡ false =
      text_eq-longer (c ∷ t) 0 (with_re (c ∷ t)) (omega arith) in
    rw (strip-with_re c t h, differ) (strip_passes-none 8 (c ∷ t) k)

trim-start : (s : Text) → trim_start (trim s) ≡ trim s
trim-start s = elim (List-cases (trim_start s)) [
  | inl e ↦ rw e refl
  | inr (c, t, e) ↦ rw e (trim_end-start c t (trim_start-head s c t e))
]

trim-with_re : (c : ℕ) (t : Text) → trim (c ∷ t) ≡ c ∷ t → trim_end (c ∷ t) ≡ c ∷ t
trim-with_re c t h = sym (ap trim_end h) ∙ trim_end-twice (trim_start (c ∷ t)) ∙ h

trim_end-with_re :
    (c : ℕ) (t : Text) → trim_end (c ∷ t) ≡ c ∷ t → trim (with_re (c ∷ t)) ≡ with_re (c ∷ t)
trim_end-with_re c t h = rw h refl

strip_reply-with_re :
    (t : Text) → trim t ≡ t → strip_prefix t ≡ t → strip_reply_prefixes (with_re t) ≡ t
unfolding strip_reply_prefixes strip_passes strip_prefix
strip_reply-with_re [] h k = refl
strip_reply-with_re (c ∷ t) h k =
    let solid : is_space c ≡ false =
      trim_start-head (c ∷ t) c t (ap trim_start (sym h) ∙ trim-start (c ∷ t) ∙ h) in
    rw (trim_end-with_re c t (trim-with_re c t h), strip_passes-with_re c t solid k) h

-- Answering an answer keeps its subject, with its one `Re:`, if stripping the original's subject
-- left no reply prefix in front.
pub build_reply_subject-again :
    (subject : Text)
    → strip_prefix (strip_reply_prefixes subject) ≡ strip_reply_prefixes subject
    → build_reply_subject (build_reply_subject subject) ≡ build_reply_subject subject
unfolding build_reply_subject strip_reply_prefixes
build_reply_subject-again subject h = ap with_re (
    strip_reply-with_re (strip_reply_prefixes subject) (trim-twice (strip_passes 10 (trim subject)))
      h)
