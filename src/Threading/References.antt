-- ===== src/Threading/References.antt =====
-- The `References` of a reply: its chain holds every ancestor once, and is trimmed behind its root.
use whatsapp_email_assistant.Common.{
  ◌+◌, ◌≤◌, ◌≡◌, refl, sym, ap, ◌∙◌, ◌≢◌, ◌⊎◌, inl, inr, true, false, Option, none, some, List, [],
  ◌∷◌, ◌++◌, arith, leb, Bool-cases, length, drop, Text, mem_text,
}
use whatsapp_email_assistant.Threading.{
  keep_recent, is_empty, normalize_message_id, ancestors, chain_of, is_over_long, trim_behind,
  trim_references, build_reply_headers,
}

-- How a chain was trimmed: its root stays, and so does an end of what follows it; five ids behind
-- the root stay if any was dropped; the result fits; and nothing was dropped from a chain that did.
pub record IsTrimming (root : Text) (rest : List Text) (trimmed : List Text) : Type 0 where
  pub dropped : List Text
  pub kept : List Text
  pub whole : trimmed ≡ root ∷ kept
  pub parts : rest ≡ dropped ++ kept
  pub recent : (dropped ≡ []) ⊎ (keep_recent ≤ length kept)
  pub fits : is_over_long trimmed ≡ false
  pub needed :
      (before : List Text) (last : Text) (after : List Text)
      → dropped ≡ before ++ last ∷ after
      → is_over_long (root ∷ last ∷ after ++ kept) ≡ true

over_long-many :
    (root x : Text) (rest : List Text) → is_over_long (root ∷ x ∷ rest) ≡ true → 5 ≤ length rest
over_long-many root x rest h = ground arith

no_empty_append :
    (before : List Text) (last : Text) (after : List Text) → [] ≢ before ++ last ∷ after
no_empty_append [] last after h = ground arith
no_empty_append (b ∷ before) last after h = ground arith

whole-IsTrimming :
    (root : Text) (rest : List Text)
    → is_over_long (root ∷ rest) ≡ false
    → IsTrimming root rest (root ∷ rest)
whole-IsTrimming root rest h = record {
  dropped = [];
  kept = rest;
  whole = refl;
  parts = refl;
  recent = inl refl;
  fits = h;
  needed = λ before last after e. absurd (no_empty_append before last after e);
}

module _ (root x : Text) (rest trimmed : List Text) where
  needed-step :
      (over : is_over_long (root ∷ x ∷ rest) ≡ true) (t : IsTrimming root rest trimmed)
      (before : List Text) (last : Text) (after : List Text)
      → x ∷ t.dropped ≡ before ++ last ∷ after
      → is_over_long (root ∷ last ∷ after ++ t.kept) ≡ true
  needed-step over t [] last after e =
      sym (ap is_over_long (ap (λ l. root ∷ x ∷ l) t.parts ∙ ap (λ l. root ∷ l ++ t.kept) e)) ∙ over
  needed-step over t (b ∷ before) last after e = t.needed before last after (ap (drop 1) e)

  recent-step :
      (over : is_over_long (root ∷ x ∷ rest) ≡ true) (t : IsTrimming root rest trimmed)
      → keep_recent ≤ length t.kept
  recent-step over t = elim t.recent [
    | inl e ↦
        let same : rest ≡ t.kept = t.parts ∙ ap (λ d. d ++ t.kept) e in
        omega (arith, ap length same, over_long-many root x rest over)
    | inr h ↦ h
  ]

  drop-IsTrimming :
      is_over_long (root ∷ x ∷ rest) ≡ true
      → IsTrimming root rest trimmed
      → IsTrimming root (x ∷ rest) trimmed
  drop-IsTrimming over t = record {
    dropped = x ∷ t.dropped;
    kept = t.kept;
    whole = t.whole;
    parts = ap (λ l. x ∷ l) t.parts;
    recent = inr (recent-step over t);
    fits = t.fits;
    needed = needed-step over t;
  }

trim_behind-IsTrimming :
    (root : Text) (rest : List Text) → IsTrimming root rest (root ∷ trim_behind root rest)
unfolding trim_behind
trim_behind-IsTrimming root [] = whole-IsTrimming root [] (ground arith)
trim_behind-IsTrimming root (x ∷ rest) = elim (Bool-cases (is_over_long (root ∷ x ∷ rest))) [
  | inl e ↦ rw e (
      drop-IsTrimming root x rest (root ∷ trim_behind root rest) e
        (trim_behind-IsTrimming root rest))
  | inr e ↦ rw e (whole-IsTrimming root (x ∷ rest) e)
]

-- Trimming a chain of ancestors keeps its root and an end of the rest: at least five ids, if it
-- drops any. The result fits into 900 characters or has at most six ids, and every chain from
-- which an id was dropped did neither.
pub trim_references-IsTrimming :
    (root : Text) (rest : List Text) → IsTrimming root rest (trim_references (root ∷ rest))
unfolding trim_references
trim_references-IsTrimming root rest =
    elim (Bool-cases (leb (length (root ∷ rest)) (keep_recent + 1))) [
      | inl e ↦ rw e (whole-IsTrimming root rest (short-fits (root ∷ rest) e))
      | inr e ↦ rw e (trim_behind-IsTrimming root rest)
    ]
  where
    short-fits : (c : List Text) → leb (length c) 6 ≡ true → is_over_long c ≡ false
    short-fits c e = ground arith

-- The last of a list.
abbrev pub last_of : List Text → Option Text
last_of [] = none
last_of (t ∷ []) = some t
last_of (t ∷ u ∷ ts) = last_of (u ∷ ts)

last_of-append :
    (ts : List Text) (u : Text) (us : List Text) → last_of (ts ++ u ∷ us) ≡ last_of (u ∷ us)
last_of-append [] u us = refl
last_of-append (t ∷ []) u us = refl
last_of-append (t ∷ t' ∷ ts) u us = last_of-append (t' ∷ ts) u us

last_of-kept :
    (root : Text) (dropped kept : List Text)
    → (dropped ≡ []) ⊎ (keep_recent ≤ length kept)
    → last_of (root ∷ kept) ≡ last_of (root ∷ dropped ++ kept)
last_of-kept root dropped kept (inl e) = rw e refl
last_of-kept root dropped [] (inr h) = ground arith
last_of-kept root dropped (k ∷ kept) (inr h) = sym (last_of-append (root ∷ dropped) k kept)

trim_references-last : (chain : List Text) → last_of (trim_references chain) ≡ last_of chain
unfolding trim_references
trim_references-last [] = refl
trim_references-last (root ∷ rest) =
    let t = trim_references-IsTrimming root rest in
    ap last_of t.whole
    ∙ last_of-kept root t.dropped t.kept t.recent
    ∙ sym (ap (λ l. last_of (root ∷ l)) t.parts)

-- A reply names its parent in `In-Reply-To`; and if the original has an id of its own that its
-- `References` do not hold, this id is the last of the reply's, however long the chain was.
pub build_reply_headers-parent :
    (message_id_header : Text) (references : List Text) (subject : Text)
    → let parent = normalize_message_id message_id_header in
      let headers = build_reply_headers message_id_header references subject in
      is_empty parent ≡ false
      → mem_text parent (ancestors references) ≡ false
      → (headers.in_reply_to ≡ parent) × (last_of headers.references ≡ some parent)
unfolding build_reply_headers chain_of
build_reply_headers-parent header references subject present new =
    let parent = normalize_message_id header in
    let pushed : chain_of parent references ≡ ancestors references ++ parent ∷ [] =
      rw (present, new) refl in
    (
      refl,
      trim_references-last (chain_of parent references)
          ∙ ap last_of pushed
          ∙ last_of-append (ancestors references) parent [],
    )
