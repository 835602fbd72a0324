-- ===== src/Reminders/Refines.antt =====
-- What the rows of reminders promise: for each message, when it comes back, if at all.
use whatsapp_email_assistant.Common.{
  ℕ, suc, ◌≡◌, refl, sym, ap, ◌∙◌, inl, inr, Bool, true, false, not, ◌&&◌, ◌||◌, Option, none, some,
  List, [], ◌∷◌, arith, ◌==◌, if◌then◌else◌, and→both, Bool-cases, Option-cases, count, All, Text,
}
use whatsapp_email_assistant.Reminders.{
  Reminder, Table, Faults, Fired, returned, not_claimed, failed, create, claim, release, cancel_for,
  fire, snoozes, is_row, claimable, update_many, cancelled, stopped_by, is_none,
}
use whatsapp_email_assistant.Reminders.Laws.{
  Apart, Pairwise, IsSound, cancel_for-IsSound, create-IsSound, fire-IsSound, release-claim,
  count-no_row, claimed_rows, no_row,
}

-- The abstract agenda: for each user and message, the reminder that will bring it back and when.
pub record Agenda : Type 0 where
  pub returns : ℕ → ℕ → Option (ℕ × ℕ)
  pub next : ℕ

pub data Op : Type 0 where
  snooze_op : ℕ → ℕ → ℕ → Text → ℕ → Op
  cancel_op : ℕ → ℕ → ℕ → Op
  fire_op : Faults → ℕ → ℕ → ℕ → Op

abbrev pub set_entry : ℕ → ℕ → Option (ℕ × ℕ) → (ℕ → ℕ → Option (ℕ × ℕ)) → ℕ → ℕ → Option (ℕ × ℕ)
set_entry user message o returns u m = if (u == user) && (m == message) then o else returns u m

-- An entry once reminder `id` of `user` is gone.
abbrev pub without : ℕ → ℕ → ℕ → Option (ℕ × ℕ) → Option (ℕ × ℕ)
without user id u none = none
without user id u (some (i, at)) = if (u == user) && (i == id) then none else some (i, at)

-- A firing that fails leaves the reminder in place, unless putting it back fails too.
abbrev pub uses_up : Faults → Bool
uses_up f = is_none (stopped_by f) || not f.releases

unfoldable pub plan_step : Agenda → Op → Agenda
plan_step a (snooze_op user message at reason now) = record {
  returns = set_entry user message (some (a.next, at)) a.returns;
  next = suc a.next;
}
plan_step a (cancel_op user message now) = record a {
  returns = set_entry user message none a.returns;
}
plan_step a (fire_op f user id now) = record a {
  returns = λ u m. if uses_up f then without user id u (a.returns u m) else a.returns u m;
}

unfoldable pub step : Table → Op → Table
step t (snooze_op user message at reason now) = (create t user message at reason now).0
step t (cancel_op user message now) = (cancel_for t user message now).0
step t (fire_op f user id now) = (fire f t user id now).0

unfoldable pub run : Table → List Op → Table
run t [] = t
run t (o ∷ os) = run (step t o) os

unfoldable pub plan_run : Agenda → List Op → Agenda
plan_run a [] = a
plan_run a (o ∷ os) = plan_run (plan_step a o) os

-- What the rows hold of a message.
abbrev pub entry : List Reminder → ℕ → ℕ → Option (ℕ × ℕ)
entry [] u m = none
entry (r ∷ rows) u m =
    let rest = entry rows u m in if snoozes u m r then some (r.id, r.remind_at) else rest

entry-cancelled :
    (rows : List Reminder) (user message now u m : ℕ)
    → entry (update_many (snoozes user message) (cancelled now) rows) u m
      ≡ set_entry user message none (entry rows) u m
entry-cancelled [] user message now u m = ground arith
entry-cancelled (r ∷ rows) user message now u m = elim (Bool-cases (snoozes user message r)) [
  | inl e ↦ rw e (ground (arith, entry-cancelled rows user message now u m))
  | inr e ↦ rw e (ground (arith, entry-cancelled rows user message now u m))
]

entry-Apart :
    (r : Reminder) (rows : List Reminder) (u m : ℕ)
    → All (Apart r) rows
    → snoozes u m r ≡ true
    → entry rows u m ≡ none
entry-Apart r [] u m h k = refl
entry-Apart r (s ∷ rows) u m (a, h) k = rw (a.one u m k) (entry-Apart r rows u m h k)

entry-no_row :
    (rows : List Reminder) (user id now u m : ℕ)
    → All (λ s. is_row user id s ≡ false) rows
    → (entry (claimed_rows user id now rows) u m ≡ entry rows u m)
      × (without user id u (entry rows u m) ≡ entry rows u m)
entry-no_row [] user id now u m h = (refl, refl)
entry-no_row (s ∷ rows) user id now u m (e, h) =
    let (p, q) = entry-no_row rows user id now u m h in (ground (arith, p), ground (arith, q))

entry-claimed :
    (rows : List Reminder) (user id now u m : ℕ)
    → Pairwise rows
    → entry (claimed_rows user id now rows) u m ≡ without user id u (entry rows u m)
entry-claimed [] user id now u m v = refl
entry-claimed (r ∷ rows) user id now u m (a, v) = elim (Bool-cases (claimable user id r)) [
  | inl e ↦
      let (p, q) = entry-no_row rows user id now u m (no_row r rows user id a (and→both _ _ e).0) in
      elim (Bool-cases (snoozes u m r)) [
        | inl s ↦ ground (arith, p, entry-Apart r rows u m a s)
        | inr s ↦ ground (arith, p, q)
      ]
  | inr e ↦ ground (arith, entry-claimed rows user id now u m v)
]

pub record Keeps (t : Table) (a : Agenda) : Type 0 where
  pub sound : IsSound t
  pub same_next : t.next_id ≡ a.next
  pub same_entry : (u m : ℕ) → entry t.rows u m ≡ a.returns u m

missed :
    (rows : List Reminder) (user id now : ℕ)
    → Pairwise rows
    → (count (claimable user id) rows == 1) ≡ false
    → claimed_rows user id now rows ≡ rows
missed [] user id now v h = refl
missed (r ∷ rows) user id now (a, v) h = elim (Bool-cases (claimable user id r)) [
  | inl e ↦ ground (arith, count-no_row rows user id (no_row r rows user id a (and→both _ _ e).0))
  | inr e ↦ rw (e, missed rows user id now v (ground arith)) refl
]

fire-entry :
    (f : Faults) (t : Table) (user id now u m : ℕ)
    → IsSound t
    → ((fire f t user id now).0.next_id ≡ t.next_id)
      × (entry (fire f t user id now).0.rows u m
          ≡ (if uses_up f then without user id u (entry t.rows u m) else entry t.rows u m))
unfolding fire claim release
fire-entry f t user id now u m v =
    let taken = entry-claimed t.rows user id now u m v.apart in
    elim (Bool-cases (count (claimable user id) t.rows == 1)) [
      | inr e ↦
          let unchanged = missed t.rows user id now v.apart e in
          elim (Bool-cases (uses_up f)) [
            | inl b ↦ rw (e, fire, b) (refl, taken)
            | inr b ↦ rw (e, fire, b) (refl, ap (λ rows. entry rows u m) unchanged)
          ]
      | inl e ↦ elim (Option-cases (stopped_by f)) [
        | inl s ↦ rw (e, s, fire) (refl, taken)
        | inr (x, s) ↦ elim (Bool-cases f.releases) [
          | inr r ↦ rw (e, s, fire, r) (refl, taken)
          | inl r ↦
              rw (e, s, fire, r, release-claim t.rows user id now v.apart (ground arith))
                (refl, refl)
        ]
      ]
    ]

fire-Keeps :
    (f : Faults) (t : Table) (a : Agenda) (user id now : ℕ)
    → Keeps t a
    → Keeps (step t (fire_op f user id now)) (plan_step a (fire_op f user id now))
unfolding step plan_step
fire-Keeps f t a user id now k = record {
  sound = fire-IsSound f t user id now k.sound;
  same_next = (fire-entry f t user id now 0 0 k.sound).0 ∙ k.same_next;
  same_entry = λ u m. rw (sym (k.same_entry u m)) (fire-entry f t user id now u m k.sound).1;
}

pub step-Keeps : (t : Table) (a : Agenda) (o : Op) → Keeps t a → Keeps (step t o) (plan_step a o)
unfolding step plan_step create cancel_for
step-Keeps t a (snooze_op user message at reason now) k = record {
  sound = create-IsSound t user message at reason now k.sound;
  same_next = ap suc k.same_next;
  same_entry = λ u m.
      ground (arith, entry-cancelled t.rows user message now u m, k.same_entry u m, k.same_next);
}
step-Keeps t a (cancel_op user message now) k = record {
  sound = cancel_for-IsSound t user message now k.sound;
  same_next = k.same_next;
  same_entry = λ u m. ground (arith, entry-cancelled t.rows user message now u m, k.same_entry u m);
}
step-Keeps t a (fire_op f user id now) k = fire-Keeps f t a user id now k

run-Keeps : (t : Table) (a : Agenda) (os : List Op) → Keeps t a → Keeps (run t os) (plan_run a os)
unfolding run plan_run
run-Keeps t a [] k = k
run-Keeps t a (o ∷ os) k = run-Keeps (step t o) (plan_step a o) os (step-Keeps t a o k)

abbrev pub empty_table : Table
empty_table = record { rows = []; next_id = 0 }

abbrev pub nothing_planned : Agenda
nothing_planned = record { returns = λ u m. none; next = 0 }

-- After any sequence of snoozes, cancellations and firings, however the mailbox, the queue and the
-- database fail, the rows give each message at most one reminder, and it is the one, with the time,
-- that the agenda gives: that of its last snooze, unless it was cancelled since, or was fired and
-- either returned or could not be put back.
pub run-refines :
    (os : List Op)
    → IsSound (run empty_table os)
      × ((u m : ℕ)
          → entry (run empty_table os).rows u m ≡ (plan_run nothing_planned os).returns u m)
run-refines os =
    let k = run-Keeps empty_table nothing_planned os (record {
      sound = record { apart = tt; known = tt };
      same_next = refl;
      same_entry = λ u m. refl;
    }) in
    (k.sound, k.same_entry)

abbrev pub noted : ℕ × ℕ → Fired → List (ℕ × ℕ) → List (ℕ × ℕ)
noted p returned rest = p ∷ rest
noted p not_claimed rest = rest
noted p (failed _) rest = rest

-- The reminders that were fired and returned, with their users, in order.
unfoldable pub returned_ids : Table → List Op → List (ℕ × ℕ)
returned_ids t [] = []
returned_ids t (fire_op f user id now ∷ os) =
    noted (user, id) (fire f t user id now).1 (returned_ids (step t (fire_op f user id now)) os)
returned_ids t (o ∷ os) = returned_ids (step t o) os

pub step-IsSound : (t : Table) (o : Op) → IsSound t → IsSound (step t o)
unfolding step
step-IsSound t (snooze_op user message at reason now) v =
    create-IsSound t user message at reason now v
step-IsSound t (cancel_op user message now) v = cancel_for-IsSound t user message now v
step-IsSound t (fire_op f user id now) v = fire-IsSound f t user id now v
