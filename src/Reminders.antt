-- ===== src/Reminders.antt =====
-- apps/worker/src/repositories/reminder.repository.ts and apps/worker/src/services/snooze.service.ts:
-- messages put down until later. `forUser` is the row-level policy: an update sees the rows of its
-- user alone. The mailbox, the queue and the reading of a time are parameters.
pub mod Laws
pub mod Refines
pub mod Once
mod Tests
use whatsapp_email_assistant.Common.{
  ℕ, zero, suc, ◌+◌, ◌-◌, ◌*◌, ◌/◌, ◌%◌, ◌^◌, ◌≤◌, ◌<◌, ◌≡◌, refl, sym, ap, ap₂, ◌∙◌, ◌≡⟨◌⟩◌, ◌∎,
  ◌≢◌, ◌↔◌, ◌⊎◌, inl, inr, Bool, true, false, not, ◌&&◌, ◌||◌, Option, none, some, List, [], ◌∷◌,
  ◌++◌, map, reverse, append_assoc, append-nil, arith, String, ltb, leb, ◌==◌, if◌then◌else◌,
  ==_iff, ==_refl, leb→le, ltb→lt, and→both, Bool-cases, Option-cases, length, take, drop,
  get_elem?, all, any, filter, find, count, length-append, count-append, all-append, length-filter,
  All, All-append, Text, codes, text_eq, text_eq_iff, text_eq_refl, mem_text, is_digit, is_upper,
  is_lower, is_alnum, is_space, trim, to_lower, starts_with, ends_with, ℕ_discrete, join, split,
  lacks, split-join, join-split, split-nonempty, split-before, split-lacks, to_upper, upper_code,
  trim_start, trim_end, lower_code,
}
use whatsapp_email_assistant.AppError.{
  Result, ok, err, Thrown, known, app_error, ErrorCode, bad_request,
}

pub record Reminder : Type 0 where
  pub id : ℕ
  pub user_id : ℕ
  pub email_message_id : Option ℕ
  pub remind_at : ℕ
  pub reason : Text
  pub sent_at : Option ℕ
  pub cancelled_at : Option ℕ

-- The table, and the next id that it gives out.
pub record Table : Type 0 where
  pub rows : List Reminder
  pub next_id : ℕ

pub record DueReminder : Type 0 where
  pub reminder_id : ℕ
  pub message_id : ℕ

abbrev pub is_none {ℓ} : {A : Type ℓ} → Option A → Bool
is_none none = true
is_none (some _) = false

abbrev pub names : ℕ → Option ℕ → Bool
names m none = false
names m (some k) = k == m

-- `sentAt: null, cancelledAt: null`.
abbrev pub is_live : Reminder → Bool
is_live r = is_none r.sent_at && is_none r.cancelled_at

abbrev pub snoozes : ℕ → ℕ → Reminder → Bool
snoozes user message r = (r.user_id == user) && (names message r.email_message_id && is_live r)

abbrev pub is_row : ℕ → ℕ → Reminder → Bool
is_row user id r = (r.user_id == user) && (r.id == id)

abbrev pub claimable : ℕ → ℕ → Reminder → Bool
claimable user id r = is_row user id r && is_live r

abbrev pub update_many : (Reminder → Bool) → (Reminder → Reminder) → List Reminder → List Reminder
update_many p f rows = map (λ r. if p r then f r else r) rows

abbrev pub cancelled : ℕ → Reminder → Reminder
cancelled now r = record r { cancelled_at = some now }

abbrev pub sent : ℕ → Reminder → Reminder
sent now r = record r { sent_at = some now }

abbrev pub unsent : Reminder → Reminder
unsent r = record r { sent_at = none }

unfoldable pub create : Table → ℕ → ℕ → ℕ → Text → ℕ → Table × ℕ
create t user message at reason now = (
  record {
    rows =
        (record {
          id = t.next_id;
          user_id = user;
          email_message_id = some message;
          remind_at = at;
          reason = reason;
          sent_at = none;
          cancelled_at = none;
        })
        ∷ update_many (snoozes user message) (cancelled now) t.rows;
    next_id = suc t.next_id;
  },
  t.next_id,
)

-- `orderBy: { remindAt: 'asc' }`.
abbrev pub insert_row : Reminder → List Reminder → List Reminder
insert_row r [] = r ∷ []
insert_row r (s ∷ rows) =
    let rest = insert_row r rows in if leb r.remind_at s.remind_at then r ∷ s ∷ rows else s ∷ rest

abbrev pub by_remind_at : List Reminder → List Reminder
by_remind_at [] = []
by_remind_at (r ∷ rows) = insert_row r (by_remind_at rows)

abbrev pub is_due : ℕ → ℕ → Reminder → Bool
is_due user now r =
    (r.user_id == user) && (leb r.remind_at now && (is_live r && not (is_none r.email_message_id)))

abbrev due_of : Reminder → Option ℕ → List DueReminder
due_of r none = []
due_of r (some message) = record { reminder_id = r.id; message_id = message } ∷ []

abbrev pub to_due : List Reminder → List DueReminder
to_due [] = []
to_due (r ∷ rows) = due_of r r.email_message_id ++ to_due rows

unfoldable pub find_due_for : Table → ℕ → ℕ → ℕ → List DueReminder
find_due_for t user now limit = to_due (take limit (by_remind_at (filter (is_due user now) t.rows)))

unfoldable pub list_pending : Table → ℕ → ℕ → ℕ → List Reminder
list_pending t user now limit =
    take limit (
      by_remind_at (filter (λ r. (r.user_id == user) && (is_live r && ltb now r.remind_at)) t.rows))

unfoldable pub claim : Table → ℕ → ℕ → ℕ → Table × Bool
claim t user id now = (
  record t { rows = update_many (claimable user id) (sent now) t.rows },
  count (claimable user id) t.rows == 1,
)

unfoldable pub release : Table → ℕ → ℕ → Table
release t user id = record t { rows = update_many (is_row user id) unsent t.rows }

unfoldable pub cancel_for : Table → ℕ → ℕ → ℕ → Table × ℕ
cancel_for t user message now = (
  record t { rows = update_many (snoozes user message) (cancelled now) t.rows },
  count (snoozes user message) t.rows,
)

-- What the mailbox, the queue and the database do to one attempt.
pub record Faults : Type 0 where
  pub mailbox : Option Thrown
  pub queue : Option Thrown
  pub releases : Bool

pub data Fired : Type 0 where
  not_claimed returned : Fired
  failed : Thrown → Fired

-- `mailbox.apply` and then `enqueue`: what stops the two, if anything does.
abbrev pub stopped_by : Faults → Option Thrown
stopped_by f = elim f.mailbox [ some e ↦ some e | none ↦ f.queue ]

abbrev put_back : Faults → Table → ℕ → ℕ → Table
put_back f t user id = if f.releases then release t user id else t

unfoldable pub fire : Faults → Table → ℕ → ℕ → ℕ → Table × Fired
fire f t user id now =
    let (t1, claimed) = claim t user id now in
    elim claimed [
      | false ↦ (t1, not_claimed)
      | true ↦ elim (stopped_by f) [
        | none ↦ (t1, returned)
        | some e ↦ (put_back f t1 user id, failed e)
      ]
    ]

-- One user's part of `sweepReminders`: a failure of one is logged and counted, and the rest go on.
unfoldable pub fire_all : (ℕ → Faults) → Table → ℕ → ℕ → List DueReminder → Table × List (ℕ × Fired)
fire_all f t user now [] = (t, [])
fire_all f t user now (d ∷ due) =
    let (t1, fired) = fire (f d.reminder_id) t user d.reminder_id now in
    let (t2, all_fired) = fire_all f t1 user now due in (t2, (d.reminder_id, fired) ∷ all_fired)

abbrev pub reminders_per_user : ℕ
reminders_per_user = 10

unfoldable pub sweep_user : (ℕ → Faults) → Table → ℕ → ℕ → Table × List (ℕ × Fired)
sweep_user f t user now = fire_all f t user now (find_due_for t user now reminders_per_user)

abbrev pub unreadable : Text → Thrown
unreadable until = known (
    app_error bad_request
      (some (
        codes "I couldn't work out when “"
        ++ trim until
        ++ codes
            "” is. Try _snooze until tomorrow_, _snooze for 2 hours_, or _snooze until Monday 9am_."))
      (some false))

abbrev pub timezone_of : Option Text → Text
timezone_of none = codes "UTC"
timezone_of (some []) = codes "UTC"
timezone_of (some (c ∷ cs)) = c ∷ cs

-- `parse` is parseSnoozeTime. The reminder is written, and then the message is archived.
unfoldable pub snooze :
    (Text → ℕ → Text → Option (Text × ℕ))
    → Option Thrown
    → Table
    → Option Text
    → ℕ
    → ℕ
    → Text
    → ℕ
    → Table × Result (Text × ℕ)
snooze parse archives t zone user message until now = elim (parse until now (timezone_of zone)) [
  | none ↦ (t, err (unreadable until))
  | some (description, at) ↦ elim archives [
    | some e ↦ ((create t user message at (codes "snooze") now).0, err e)
    | none ↦ ((create t user message at (codes "snooze") now).0, ok (description, at))
  ]
]
