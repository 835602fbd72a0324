-- ===== src/Reminders/Laws.antt =====
-- One live snooze per message: what every operation keeps.
use whatsapp_email_assistant.Common.{
  ℕ, suc, ◌<◌, ◌≡◌, refl, sym, ap, ap₂, ◌∙◌, ◌≢◌, ◌⊎◌, inl, inr, Bool, true, false, Option, none,
  some, List, [], ◌∷◌, ◌++◌, map, arith, ◌==◌, if◌then◌else◌, and→both, Bool-cases, Option-cases,
  count, All, Text,
}
use mathlib.Core.Bool.{true≢false}
use whatsapp_email_assistant.Reminders.{
  Reminder, Table, Faults, create, claim, release, cancel_for, fire, is_live, snoozes, is_row,
  claimable, update_many, cancelled, sent, unsent, stopped_by, is_none,
}

-- Two rows with ids of their own that are not live snoozes of one message.
pub record Apart (r s : Reminder) : Type 0 where
  pub ids : (r.user_id ≡ s.user_id) → r.id ≢ s.id
  pub one : (u m : ℕ) → snoozes u m r ≡ true → snoozes u m s ≡ false

abbrev pub Pairwise : List Reminder → Type 0
Pairwise [] = Unit
Pairwise (r ∷ rows) = All (Apart r) rows × Pairwise rows

abbrev pub Known : ℕ → List Reminder → Type 0
Known n rows = All (λ r. r.id < n) rows

pub record IsSound (t : Table) : Type 0 where
  pub apart : Pairwise t.rows
  pub known : Known t.next_id t.rows

-- `s` is `r` with the same id, and live at most where `r` is.
pub record Dims (r s : Reminder) : Type 0 where
  pub id_same : s.id ≡ r.id
  pub user_same : s.user_id ≡ r.user_id
  pub none_revived : (u m : ℕ) → snoozes u m r ≡ false → snoozes u m s ≡ false

Dims-Apart : (r s r1 s1 : Reminder) → Dims r r1 → Dims s s1 → Apart r s → Apart r1 s1
Dims-Apart r s r1 s1 d e a = record {
  ids = λ h k. a.ids (sym d.user_same ∙ h ∙ e.user_same) (sym d.id_same ∙ k ∙ e.id_same);
  one = λ u m h. ground (arith, a.one u m, d.none_revived u m, e.none_revived u m);
}

module _ (f : Reminder → Reminder) (dims : (r : Reminder) → Dims r (f r)) where
  map-All-Apart :
      (r : Reminder) (rows : List Reminder) → All (Apart r) rows → All (Apart (f r)) (map f rows)
  map-All-Apart r [] h = tt
  map-All-Apart r (s ∷ rows) (a, h) =
      (Dims-Apart r s (f r) (f s) (dims r) (dims s) a, map-All-Apart r rows h)

  map-Pairwise : (rows : List Reminder) → Pairwise rows → Pairwise (map f rows)
  map-Pairwise [] h = tt
  map-Pairwise (r ∷ rows) (a, h) = (map-All-Apart r rows a, map-Pairwise rows h)

  map-Known : (n : ℕ) (rows : List Reminder) → Known n rows → Known n (map f rows)
  map-Known n [] h = tt
  map-Known n (r ∷ rows) (a, h) = (ground (arith, (dims r).id_same), map-Known n rows h)

  pub map-IsSound : (t : Table) → IsSound t → IsSound (record t { rows = map f t.rows })
  map-IsSound t v = record {
    apart = map-Pairwise t.rows v.apart;
    known = map-Known t.next_id t.rows v.known;
  }

cancelled-Dims :
    (p : Reminder → Bool) (now : ℕ) (r : Reminder) → Dims r (if p r then cancelled now r else r)
cancelled-Dims p now r = elim (Bool-cases (p r)) [
  | inl e ↦ rw e (record { id_same = refl; user_same = refl; none_revived = λ u m h. ground arith })
  | inr e ↦ rw e (record { id_same = refl; user_same = refl; none_revived = λ u m h. h })
]

sent-Dims : (p : Reminder → Bool) (now : ℕ) (r : Reminder) → Dims r (if p r then sent now r else r)
sent-Dims p now r = elim (Bool-cases (p r)) [
  | inl e ↦ rw e (record { id_same = refl; user_same = refl; none_revived = λ u m h. ground arith })
  | inr e ↦ rw e (record { id_same = refl; user_same = refl; none_revived = λ u m h. h })
]

pub cancel_for-IsSound :
    (t : Table) (user message now : ℕ) → IsSound t → IsSound (cancel_for t user message now).0
unfolding cancel_for
cancel_for-IsSound t user message now v =
    map-IsSound _ (cancelled-Dims (snoozes user message) now) t v

pub claim-IsSound : (t : Table) (user id now : ℕ) → IsSound t → IsSound (claim t user id now).0
unfolding claim
claim-IsSound t user id now v = map-IsSound _ (sent-Dims (claimable user id) now) t v

-- Two rows apart never answer to one id.
not_same_row :
    (r s : Reminder) (user id : ℕ) → Apart r s → is_row user id r ≡ true → is_row user id s ≡ false
not_same_row r s user id a h = elim (Bool-cases (is_row user id s)) [
  | inr e ↦ e
  | inl e ↦ absurd (a.ids (ground arith) (ground arith))
]

pub no_row :
    (r : Reminder) (rows : List Reminder) (user id : ℕ)
    → All (Apart r) rows
    → is_row user id r ≡ true
    → All (λ s. is_row user id s ≡ false) rows
no_row r [] user id h k = tt
no_row r (s ∷ rows) user id (a, h) k = (not_same_row r s user id a k, no_row r rows user id h k)

pub count-no_row :
    (rows : List Reminder) (user id : ℕ)
    → All (λ s. is_row user id s ≡ false) rows
    → count (claimable user id) rows ≡ 0
count-no_row [] user id h = refl
count-no_row (s ∷ rows) user id (e, h) = ground (arith, count-no_row rows user id h)

abbrev pub claimed_rows : ℕ → ℕ → ℕ → List Reminder → List Reminder
claimed_rows user id now rows = update_many (claimable user id) (sent now) rows

abbrev pub released_rows : ℕ → ℕ → List Reminder → List Reminder
released_rows user id rows = update_many (is_row user id) unsent rows

is_none→none {ℓ} : {A : Type ℓ} (o : Option A) → is_none o ≡ true → o ≡ none
is_none→none none h = refl
is_none→none (some x) h = absurd (true≢false (sym h))

unsent-sent : (r : Reminder) (now : ℕ) → is_live r ≡ true → unsent (sent now r) ≡ r
unsent-sent r now h =
    ap (λ o. record r { sent_at = o }) (sym (is_none→none r.sent_at (and→both _ _ h).0))

-- Claiming a live row and releasing it leaves it as it was, and so does a row that neither touches.
restored :
    (r : Reminder) (user id now : ℕ)
    → (is_row user id r ≡ false) ⊎ (is_live r ≡ true)
    → released_rows user id (claimed_rows user id now (r ∷ [])) ≡ r ∷ []
restored r user id now (inl e) = rw (e, e) refl
restored r user id now (inr l) = elim (Bool-cases (is_row user id r)) [
  | inl e ↦ ground (arith, unsent-sent r now l)
  | inr e ↦ rw (e, e) refl
]

untouched :
    (rows : List Reminder) (user id now : ℕ)
    → All (λ s. is_row user id s ≡ false) rows
    → released_rows user id (claimed_rows user id now rows) ≡ rows
untouched [] user id now h = refl
untouched (s ∷ rows) user id now (e, h) =
    ap₂ ◌++◌ (restored s user id now (inl e)) (untouched rows user id now h)

pub release-claim :
    (rows : List Reminder) (user id now : ℕ)
    → Pairwise rows
    → count (claimable user id) rows ≡ 1
    → released_rows user id (claimed_rows user id now rows) ≡ rows
release-claim [] user id now v h = refl
release-claim (r ∷ rows) user id now (a, v) h = elim (Bool-cases (is_row user id r)) [
  | inl e ↦ elim (Bool-cases (is_live r)) [
    | inl l ↦
        ap₂ ◌++◌ (restored r user id now (inr l))
          (untouched rows user id now (no_row r rows user id a e))
    | inr l ↦ ground (arith, count-no_row rows user id (no_row r rows user id a e))
  ]
  | inr e ↦
      ap₂ ◌++◌ (restored r user id now (inl e)) (release-claim rows user id now v (ground arith))
]

cancelled-none :
    (r : Reminder) (user message now : ℕ)
    → snoozes user message (if snoozes user message r then cancelled now r else r) ≡ false
cancelled-none r user message now = elim (Bool-cases (snoozes user message r)) [
  | inl e ↦ rw e (ground arith)
  | inr e ↦ rw e e
]

new-Apart :
    (n : Reminder) (user message now : ℕ) (rows : List Reminder)
    → ((u m : ℕ) → snoozes u m n ≡ true → (u ≡ user) × (m ≡ message))
    → Known n.id rows
    → All (Apart n) (update_many (snoozes user message) (cancelled now) rows)
new-Apart n user message now [] only h = tt
new-Apart n user message now (r ∷ rows) only (k, h) = (
  record {
    ids = λ _ e.
        let same = (cancelled-Dims (snoozes user message) now r).id_same in ground (arith, same);
    one = λ u m e. let (p, q) = only u m e in rw (p, q) (cancelled-none r user message now);
  },
  new-Apart n user message now rows only h,
)

Known-suc : (n : ℕ) (rows : List Reminder) → Known n rows → Known (suc n) rows
Known-suc n [] h = tt
Known-suc n (r ∷ rows) (k, h) = (ground arith, Known-suc n rows h)

pub create-IsSound :
    (t : Table) (user message at : ℕ) (reason : Text) (now : ℕ)
    → IsSound t
    → IsSound (create t user message at reason now).0
unfolding create
create-IsSound t user message at reason now v =
    let dims = cancelled-Dims (snoozes user message) now in
    record {
      apart = (
        new-Apart _ user message now t.rows (λ u m h. (ground arith, ground arith)) v.known,
        map-Pairwise _ dims t.rows v.apart,
      );
      known = (ground arith, Known-suc _ _ (map-Known _ dims t.next_id t.rows v.known));
    }

pub fire-IsSound :
    (f : Faults) (t : Table) (user id now : ℕ) → IsSound t → IsSound (fire f t user id now).0
unfolding fire claim release
fire-IsSound f t user id now v = elim (Bool-cases (count (claimable user id) t.rows == 1)) [
  | inr e ↦ rw (e, fire) (claim-IsSound t user id now v)
  | inl e ↦ elim (Option-cases (stopped_by f)) [
    | inl s ↦ rw (e, s, fire) (claim-IsSound t user id now v)
    | inr (x, s) ↦ elim (Bool-cases f.releases) [
      | inr r ↦ rw (e, s, fire, r) (claim-IsSound t user id now v)
      | inl r ↦
          rw (e, s, fire, r)
            (record {
              apart = rw (release-claim t.rows user id now v.apart (ground arith)) v.apart;
              known = rw (release-claim t.rows user id now v.apart (ground arith)) v.known;
            })
    ]
  ]
]
