-- ===== src/Phone/Proof.antt =====
-- A number is linked only by a message from it with a code that its user asked for in time.
use whatsapp_email_assistant.Common.{
  ℕ, ◌+◌, ◌<◌, ◌≡◌, sym, inl, inr, Bool, true, none, some, List, [], ◌∷◌, arith, ◌==◌, Bool-cases,
  Option-cases, find, All, Text,
}
use whatsapp_email_assistant.Phone.{normalize_phone}
use whatsapp_email_assistant.Phone.Verification.{
  User, code_ttl_ms, generate_code, normalize_code, update_user, holds_code, is_taken, is_issued,
  with_code, linked, unlinked, start, redeem, redeem_for, redeem_normalized, redeem_phone_code,
  unlink,
}

-- What happens, with the user, the draws, the code's hash and the number, and the time.
pub data Event : Type 0 where
  asks : ℕ → List ℕ → ℕ → Event
  sends_hash : ℕ → Text → ℕ → Event
  sends_code : Text → Text → ℕ → Event
  unlinks : ℕ → Event

module _ (hash_code : Text → ℕ) where
  unfoldable pub step : List User → Event → List User
  step rows (asks user draws now) = (start hash_code rows user draws now).0
  step rows (sends_hash hash phone now) = (redeem_phone_code rows hash phone now).0
  step rows (sends_code raw_code raw_phone now) = (redeem hash_code rows raw_code raw_phone now).0
  step rows (unlinks user) = unlink rows user

  -- The latest event comes first.
  unfoldable pub after : List User → List Event → List User
  after rows [] = rows
  after rows (e ∷ es) = step (after rows es) e

  -- The user was given a code with this hash, which lasts until then.
  pub data Issued (user hash until : ℕ) : List Event → Type 0 where
    by_asking :
        (draws : List ℕ) (now : ℕ) (es : List Event)
        → hash_code (generate_code draws) ≡ hash
        → now + code_ttl_ms ≡ until
        → Issued user hash until (asks user draws now ∷ es)
    before :
        (e : Event) (es : List Event) → Issued user hash until es → Issued user hash until (e ∷ es)

  -- A message from this number carried such a code in time.
  pub data Proven (user : ℕ) (phone : Text) : List Event → Type 0 where
    by_sending :
        (hash until now : ℕ) (es : List Event)
        → now < until
        → Issued user hash until es
        → Proven user phone (sends_hash hash phone now ∷ es)
    by_code :
        (raw_code raw_phone code : Text) (until now : ℕ) (es : List Event)
        → normalize_code raw_code ≡ some code
        → normalize_phone raw_phone none ≡ some phone
        → now < until
        → Issued user (hash_code code) until es
        → Proven user phone (sends_code raw_code raw_phone now ∷ es)
    earlier : (e : Event) (es : List Event) → Proven user phone es → Proven user phone (e ∷ es)

  -- What each row owes to the events.
  pub record Justified (es : List Event) (u : User) : Type 0 where
    pub number_proven : (p : Text) → u.phone_number ≡ some p → Proven u.id p es
    pub code_issued :
        (h t : ℕ) → u.code_hash ≡ some h → u.code_expires_at ≡ some t → Issued u.id h t es

  later-Justified : (e : Event) (es : List Event) (u : User) → Justified es u → Justified (e ∷ es) u
  later-Justified e es u v = record {
    number_proven = λ p h. earlier e es (v.number_proven p h);
    code_issued = λ h t f g. before e es (v.code_issued h t f g);
  }

  all-later :
      (e : Event) (es : List Event) (us : List User)
      → All (Justified es) us
      → All (Justified (e ∷ es)) us
  all-later e es [] h = tt
  all-later e es (u ∷ us) (v, h) = (later-Justified e es u v, all-later e es us h)

  update-Justified :
      (id : ℕ) (f : User → User) (e : Event) (es : List Event) (us : List User)
      → ((u : User) → u.id ≡ id → Justified es u → Justified (e ∷ es) (f u))
      → All (Justified es) us
      → All (Justified (e ∷ es)) (update_user id f us)
  update-Justified id f e es [] k h = tt
  update-Justified id f e es (u ∷ us) k (v, h) = (
    elim (Bool-cases (u.id == id)) [
      | inl q ↦ rw q (k u (ground arith) v)
      | inr q ↦ rw q (later-Justified e es u v)
    ],
    update-Justified id f e es us k h,
  )

  -- The row that a code is found on.
  find-Justified :
      (p : User → Bool) (es : List Event) (us : List User) (u : User)
      → All (Justified es) us
      → find p us ≡ some u
      → Justified es u × (p u ≡ true)
  find-Justified p es [] u h e = ground arith
  find-Justified p es (x ∷ us) u (v, h) e = elim (Bool-cases (p x)) [
    | inl q ↦ let same : x ≡ u = ground arith in (rw same at v, rw same at q)
    | inr q ↦ find-Justified p es us u h (ground arith)
  ]

  holds_code-live :
      (hash now : ℕ) (u : User)
      → holds_code hash now u ≡ true
      → (t : ℕ) × (u.code_hash ≡ some hash) × (u.code_expires_at ≡ some t) × (now < t)
  holds_code-live hash now u h = elim (Option-cases u.code_hash) [
    | inl e ↦ ground arith
    | inr (k, e) ↦ elim (Option-cases u.code_expires_at) [
      | inl f ↦ ground arith
      | inr (t, f) ↦ (t, ground arith, f, ground arith)
    ]
  ]

  linked-Justified :
      (e : Event) (es : List Event) (phone : Text) (u x : User)
      → Proven u.id phone (e ∷ es)
      → x.id ≡ u.id
      → Justified (e ∷ es) (linked phone x)
  linked-Justified e es phone u x v same = record {
    number_proven = λ p h. let q : phone ≡ p = ground arith in rw (sym q, same) v;
    code_issued = λ h t f g. ground arith;
  }

  link-Justified :
      (e : Event) (es : List Event) (phone : Text) (u : User) (us : List User)
      → Proven u.id phone (e ∷ es)
      → All (Justified es) us
      → All (Justified (e ∷ es)) (update_user u.id (linked phone) us)
  link-Justified e es phone u us v h =
      update-Justified u.id (linked phone) e es us
        (λ x same _. linked-Justified e es phone u x v same) h

  asks-Justified :
      (user : ℕ) (draws : List ℕ) (now : ℕ) (es : List Event) (u : User)
      → u.id ≡ user
      → Justified es u
      → Justified
          (asks user draws now ∷ es)
          (with_code (hash_code (generate_code draws)) (now + code_ttl_ms) u)
  asks-Justified user draws now es u same v = record {
    number_proven = λ p h. earlier _ es (v.number_proven p h);
    code_issued = λ h t f g. rw same (by_asking draws now es (ground arith) (ground arith));
  }

  unlinked-Justified : (e : Event) (es : List Event) (u : User) → Justified (e ∷ es) (unlinked u)
  unlinked-Justified e es u = record {
    number_proven = λ p h. ground arith;
    code_issued = λ h t f g. ground arith;
  }

  hash-Justified :
      (hash : ℕ) (phone : Text) (now : ℕ) (es : List Event) (us : List User)
      → All (Justified es) us
      → All (Justified (sends_hash hash phone now ∷ es)) (redeem_phone_code us hash phone now).0
  unfolding redeem_phone_code
  hash-Justified hash phone now es us h = elim (Option-cases (find (holds_code hash now) us)) [
    | inl e ↦ rw (redeem_phone_code, e) (all-later _ es us h)
    | inr (u, e) ↦ elim (Bool-cases (is_taken u.id phone us)) [
      | inl k ↦ rw (redeem_phone_code, e, k) (all-later _ es us h)
      | inr k ↦
          let (v, held) = find-Justified (holds_code hash now) es us u h e in
          let (t, f, g, early) = holds_code-live hash now u held in
          rw (redeem_phone_code, e, k)
            (link-Justified (sends_hash hash phone now) es phone u us
              (by_sending hash t now es early (v.code_issued hash t f g)) h)
    ]
  ]

  code-Justified :
      (raw_code raw_phone : Text) (now : ℕ) (es : List Event) (us : List User)
      → All (Justified es) us
      → All
          (Justified (sends_code raw_code raw_phone now ∷ es))
          (redeem hash_code us raw_code raw_phone now).0
  unfolding redeem
  code-Justified raw_code raw_phone now es us h = elim (Option-cases (normalize_code raw_code)) [
    | inl n ↦ rw (redeem, n) (all-later _ es us h)
    | inr (code, n) ↦ elim (Option-cases (normalize_phone raw_phone none)) [
      | inl m ↦ rw (redeem, n, m) (all-later _ es us h)
      | inr (phone, m) ↦ elim (Option-cases (find (holds_code (hash_code code) now) us)) [
        | inl e ↦ rw (redeem, n, m, redeem_normalized, e) (all-later _ es us h)
        | inr (u, e) ↦ elim (Bool-cases (is_taken u.id phone us)) [
          | inl k ↦ rw (redeem, n, m, redeem_normalized, e, redeem_for, k) (all-later _ es us h)
          | inr k ↦
              let (v, held) = find-Justified (holds_code (hash_code code) now) es us u h e in
              let (t, f, g, early) = holds_code-live (hash_code code) now u held in
              rw (redeem, n, m, redeem_normalized, e, redeem_for, k)
                (link-Justified (sends_code raw_code raw_phone now) es phone u us
                  (by_code raw_code raw_phone code t now es n m early
                    (v.code_issued (hash_code code) t f g))
                  h)
        ]
      ]
    ]
  ]

  step-Justified :
      (e : Event) (es : List Event) (us : List User)
      → All (Justified es) us
      → All (Justified (e ∷ es)) (step us e)
  unfolding step start unlink
  step-Justified (asks user draws now) es us h =
      elim (Bool-cases (is_issued user (hash_code (generate_code draws)) us)) [
        | inl k ↦ rw (step, start, k) (all-later _ es us h)
        | inr k ↦
            rw (step, start, k)
              (update-Justified user _ (asks user draws now) es us
                (λ u same v. asks-Justified user draws now es u same v) h)
      ]
  step-Justified (sends_hash hash phone now) es us h = hash-Justified hash phone now es us h
  step-Justified (sends_code raw_code raw_phone now) es us h =
      code-Justified raw_code raw_phone now es us h
  step-Justified (unlinks user) es us h =
      update-Justified user unlinked (unlinks user) es us
        (λ u _ _. unlinked-Justified (unlinks user) es u) h

  -- Nobody has a number or a code yet.
  abbrev pub Unlinked : List User → Type 0
  Unlinked us = All (λ u. (u.phone_number ≡ none) × (u.code_hash ≡ none)) us

  Unlinked-start : (us : List User) → Unlinked us → All (Justified []) us
  Unlinked-start [] h = tt
  Unlinked-start (u ∷ us) ((p, c), h) = (
    record { number_proven = λ q e. ground arith; code_issued = λ k t f g. ground arith },
    Unlinked-start us h,
  )

  -- However people ask for codes, send messages and unlink, every number that is on an account was
  -- put there by a message from that number, with a code that the account's user had asked for, and
  -- before this code ran out. At the start nobody has a number or a code.
  pub after-Justified :
      (us : List User) (es : List Event) → Unlinked us → All (Justified es) (after us es)
  unfolding after
  after-Justified us [] h = Unlinked-start us h
  after-Justified us (e ∷ es) h = step-Justified e es (after us es) (after-Justified us es h)
