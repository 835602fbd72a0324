-- ===== src/Reminders/Once.antt =====
-- A reminder comes back at most once.
use whatsapp_email_assistant.Common.{
  ℕ, ◌≤◌, ◌<◌, ◌≡◌, refl, sym, ◌∙◌, ◌⊎◌, inl, inr, Bool, true, false, ◌&&◌, List, [], ◌∷◌, map,
  arith, ◌==◌, if◌then◌else◌, Bool-cases, Option-cases, count, All,
}
use whatsapp_email_assistant.Reminders.{
  Reminder, DueReminder, fire_all, Table, Faults, Fired, returned, not_claimed, failed, create,
  claim, release, cancel_for, fire, claimable, cancelled, sent, stopped_by,
}
use whatsapp_email_assistant.Reminders.Laws.{
  Known, IsSound, claim-IsSound, release-claim, claimed_rows,
}
use whatsapp_email_assistant.Reminders.Refines.{
  Op, snooze_op, cancel_op, fire_op, step, run, returned_ids, noted, empty_table, run-refines,
  step-IsSound,
}

abbrev is_pair : ℕ → ℕ → ℕ × ℕ → Bool
is_pair user id (u, i) = (u == user) && (i == id)

abbrev pub times_returned : ℕ → ℕ → List (ℕ × ℕ) → ℕ
times_returned user id ids = count (is_pair user id) ids

-- The rows that a firing leaves: with the reminder claimed, or as they were.
fire-rows :
    (f : Faults) (t : Table) (user id now : ℕ)
    → IsSound t
    → ((fire f t user id now).0.next_id ≡ t.next_id)
      × (((fire f t user id now).0.rows ≡ claimed_rows user id now t.rows)
          ⊎ ((fire f t user id now).0.rows ≡ t.rows))
unfolding fire claim release
fire-rows f t user id now v = elim (Bool-cases (count (claimable user id) t.rows == 1)) [
  | inr e ↦ rw (e, fire) (refl, inl refl)
  | inl e ↦ elim (Option-cases (stopped_by f)) [
    | inl s ↦ rw (e, s, fire) (refl, inl refl)
    | inr (x, s) ↦ elim (Bool-cases f.releases) [
      | inr r ↦ rw (e, s, fire, r) (refl, inl refl)
      | inl r ↦
          rw (e, s, fire, r) (refl, inr (release-claim t.rows user id now v.apart (ground arith)))
    ]
  ]
]

-- It returns only what it claims.
fire-returned :
    (f : Faults) (t : Table) (user id now : ℕ)
    → (fire f t user id now).1 ≡ returned
    → ((fire f t user id now).0.rows ≡ claimed_rows user id now t.rows)
      × (count (claimable user id) t.rows ≡ 1)
unfolding fire claim
fire-returned f t user id now h = elim (Bool-cases (count (claimable user id) t.rows == 1)) [
  | inr e ↦ ground arith
  | inl e ↦ elim (Option-cases (stopped_by f)) [
    | inl s ↦ rw (e, s, fire) (refl, ground arith)
    | inr (x, s) ↦ ground arith
  ]
]

module _ (user id : ℕ) where
  abbrev Unclaimable : List Reminder → Type 0
  Unclaimable rows = All (λ r. claimable user id r ≡ false) rows

  record IsSpent (t : Table) : Type 0 where
    unclaimable : Unclaimable t.rows
    given : id < t.next_id

  map-Unclaimable :
      (g : Reminder → Reminder)
      → ((r : Reminder) → claimable user id r ≡ false → claimable user id (g r) ≡ false)
      → (rows : List Reminder) → Unclaimable rows
      → Unclaimable (map g rows)
  map-Unclaimable g k [] h = tt
  map-Unclaimable g k (r ∷ rows) (a, h) = (k r a, map-Unclaimable g k rows h)

  cancelled-claimable :
      (p : Reminder → Bool) (now : ℕ) (r : Reminder)
      → claimable user id r ≡ false
      → claimable user id (if p r then cancelled now r else r) ≡ false
  cancelled-claimable p now r h = elim (Bool-cases (p r)) [
    | inl e ↦ rw e (ground arith)
    | inr e ↦ rw e h
  ]

  sent-claimable :
      (p : Reminder → Bool) (now : ℕ) (r : Reminder)
      → claimable user id r ≡ false
      → claimable user id (if p r then sent now r else r) ≡ false
  sent-claimable p now r h = elim (Bool-cases (p r)) [
    | inl e ↦ rw e (ground arith)
    | inr e ↦ rw e h
  ]

  claimed-Unclaimable :
      (now : ℕ) (rows : List Reminder) → Unclaimable (claimed_rows user id now rows)
  claimed-Unclaimable now [] = tt
  claimed-Unclaimable now (r ∷ rows) = (
    elim (Bool-cases (claimable user id r)) [ inl e ↦ rw e (ground arith) | inr e ↦ rw e e ],
    claimed-Unclaimable now rows,
  )

  step-IsSpent : (t : Table) (o : Op) → IsSound t → IsSpent t → IsSpent (step t o)
  unfolding step create cancel_for
  step-IsSpent t (snooze_op u m at reason now) v s = record {
    unclaimable = (
      ground (arith, s.given),
      map-Unclaimable _ (cancelled-claimable _ now) t.rows s.unclaimable,
    );
    given = ground (arith, s.given);
  }
  step-IsSpent t (cancel_op u m now) v s = record {
    unclaimable = map-Unclaimable _ (cancelled-claimable _ now) t.rows s.unclaimable;
    given = s.given;
  }
  step-IsSpent t (fire_op f u i now) v s =
      let (same, left) = fire-rows f t u i now v in
      record {
        unclaimable = elim left [
          | inl e ↦ rw e (map-Unclaimable _ (sent-claimable _ now) t.rows s.unclaimable)
          | inr e ↦ rw e s.unclaimable
        ];
        given = rw same s.given;
      }

  count-Known :
      (rows : List Reminder) (n : ℕ) → Known n rows → count (claimable user id) rows ≡ 1 → id < n
  count-Known [] n h e = ground arith
  count-Known (r ∷ rows) n (k, h) e = elim (Bool-cases (claimable user id r)) [
    | inl c ↦ ground arith
    | inr c ↦ count-Known rows n h (ground arith)
  ]

  count-Unclaimable : (rows : List Reminder) → Unclaimable rows → count (claimable user id) rows ≡ 0
  count-Unclaimable [] h = refl
  count-Unclaimable (r ∷ rows) (a, h) = rw a (count-Unclaimable rows h)

  times-noted :
      (p : ℕ × ℕ) (fired : Fired) (rest : List (ℕ × ℕ))
      → (fired ≡ returned → is_pair user id p ≡ false)
      → times_returned user id (noted p fired rest) ≡ times_returned user id rest
  times-noted p returned rest h = rw (h refl) refl
  times-noted p not_claimed rest h = refl
  times-noted p (failed _) rest h = refl

  times-noted_one :
      (p : ℕ × ℕ) (fired : Fired) (rest : List (ℕ × ℕ))
      → times_returned user id rest ≡ 0
      → times_returned user id (noted p fired rest) ≤ 1
  times-noted_one p returned rest h = ground (arith, h)
  times-noted_one p not_claimed rest h = ground (arith, h)
  times-noted_one p (failed _) rest h = ground (arith, h)

  -- A reminder that is spent never comes back.
  spent_never_returns :
      (os : List Op) (t : Table)
      → IsSound t
      → IsSpent t
      → times_returned user id (returned_ids t os) ≡ 0
  unfolding returned_ids
  spent_never_returns [] t v s = refl
  spent_never_returns (snooze_op u m at reason now ∷ os) t v s =
      spent_never_returns os _ (step-IsSound t _ v) (step-IsSpent t _ v s)
  spent_never_returns (cancel_op u m now ∷ os) t v s =
      spent_never_returns os _ (step-IsSound t _ v) (step-IsSpent t _ v s)
  spent_never_returns (fire_op f u i now ∷ os) t v s =
      times-noted _ _ _ (λ h. elim (Bool-cases (is_pair user id (u, i))) [
        | inr e ↦ e
        | inl e ↦
            let (_, one) = fire-returned f t u i now h in
            let p : u ≡ user = ground arith in
            let q : i ≡ id = ground arith in
            ground (arith, rw (p, q) at one, count-Unclaimable t.rows s.unclaimable)
      ])
      ∙ spent_never_returns os _ (step-IsSound t _ v) (step-IsSpent t _ v s)

  returned-IsSpent :
      (f : Faults) (t : Table) (now : ℕ)
      → IsSound t
      → (fire f t user id now).1 ≡ returned
      → IsSpent (step t (fire_op f user id now))
  unfolding step
  returned-IsSpent f t now v h =
      let (left, one) = fire-returned f t user id now h in
      record {
        unclaimable = rw left (claimed-Unclaimable now t.rows);
        given = rw (fire-rows f t user id now v).0 (count-Known t.rows t.next_id v.known one);
      }

returned-split : (x : Fired) → (x ≡ returned) ⊎ (x ≡ returned → ⊥)
returned-split returned = inl refl
returned-split not_claimed = inr (λ h. ground arith)
returned-split (failed _) = inr (λ h. ground arith)

sound-returns_once :
    (user id : ℕ) (os : List Op) (t : Table)
    → IsSound t
    → times_returned user id (returned_ids t os) ≤ 1
unfolding returned_ids
sound-returns_once user id [] t v = omega arith
sound-returns_once user id (snooze_op u m at reason now ∷ os) t v =
    sound-returns_once user id os _ (step-IsSound t _ v)
sound-returns_once user id (cancel_op u m now ∷ os) t v =
    sound-returns_once user id os _ (step-IsSound t _ v)
sound-returns_once user id (fire_op f u i now ∷ os) t v =
    let later = sound-returns_once user id os _ (step-IsSound t (fire_op f u i now) v) in
    elim (Bool-cases (is_pair user id (u, i))) [
      | inr e ↦ rw (times-noted user id (u, i) _ _ (λ _. e)) later
      | inl e ↦ elim (returned-split (fire f t u i now).1) [
        | inr k ↦ rw (times-noted user id (u, i) _ _ (λ h. absurd (k h))) later
        | inl h ↦
            let p : u ≡ user = ground arith in
            let q : i ≡ id = ground arith in
            times-noted_one user id (u, i) _ _
              (spent_never_returns user id os _ (step-IsSound t _ v)
                (rw (sym p, sym q) (returned-IsSpent u i f t now v h)))
      ]
    ]

-- In any sequence of snoozes, cancellations and firings, whatever fails, each reminder brings its
-- message back at most once.
pub returns_at_most_once :
    (os : List Op) (user id : ℕ) → times_returned user id (returned_ids empty_table os) ≤ 1
returns_at_most_once os user id =
    sound-returns_once user id os empty_table (record { apart = tt; known = tt })

-- A worker that stops between the claim and the delivery swallows the reminder: whatever sweeps
-- follow, it never comes back.
pub claim-swallows :
    (before after : List Op) (user id now : ℕ)
    → (claim (run empty_table before) user id now).1 ≡ true
    → times_returned user id (returned_ids (claim (run empty_table before) user id now).0 after) ≡ 0
unfolding claim
claim-swallows before after user id now h =
    let t = run empty_table before in
    let (v, _) = run-refines before in
    spent_never_returns user id after _ (claim-IsSound t user id now v) (record {
      unclaimable = claimed-Unclaimable user id now t.rows;
      given = count-Known user id t.rows t.next_id v.known (ground arith);
    })

-- A sweep is a sequence of firings.
pub fire_all-run :
    (f : ℕ → Faults) (t : Table) (user now : ℕ) (due : List DueReminder)
    → (fire_all f t user now due).0
      ≡ run t (map (λ d. fire_op (f d.reminder_id) user d.reminder_id now) due)
unfolding fire_all run step
fire_all-run f t user now [] = refl
fire_all-run f t user now (d ∷ due) =
    fire_all-run f (fire (f d.reminder_id) t user d.reminder_id now).0 user now due
