-- ===== src/Watches.antt =====
-- apps/worker/src/repositories/watch.repository.ts and the schedule of
-- apps/worker/src/services/watch-schedule.ts: mailbox subscriptions, with the renewal of
-- apps/worker/src/processors/sync.processor.ts. The expiry of a subscription is kept twice, on the
-- account and on the route that the sweeps read. The mail provider is a parameter.
pub mod Renew
pub mod Laws
pub mod Runs
pub mod Reach
mod Tests
use whatsapp_email_assistant.Common.{
  ℕ, zero, suc, ◌+◌, ◌-◌, ◌*◌, ◌/◌, ◌%◌, ◌^◌, ◌≤◌, ◌<◌, ◌≡◌, refl, sym, ap, ap₂, ◌∙◌, ◌≡⟨◌⟩◌, ◌∎,
  ◌≢◌, ◌↔◌, ◌⊎◌, inl, inr, Bool, true, false, not, ◌&&◌, ◌||◌, Option, none, some, List, [], ◌∷◌,
  ◌++◌, map, reverse, append_assoc, append-nil, arith, String, ltb, leb, ◌==◌, if◌then◌else◌,
  ==_iff, ==_refl, leb→le, ltb→lt, and→both, Bool-cases, Option-cases, length, take, drop,
  get_elem?, all, any, filter, find, count, length-append, count-append, all-append, length-filter,
  All, All-append, Text, codes, text_eq, text_eq_iff, text_eq_refl, mem_text, is_digit, is_upper,
  is_lower, is_alnum, is_space, trim, to_lower, starts_with, ends_with, ℕ_discrete, join, split,
  lacks, split-join, join-split, split-nonempty, split-before, split-lacks, to_upper, upper_code,
  trim_start, trim_end, lower_code,
}
use whatsapp_email_assistant.AppError.{ErrorCode}

pub data Status : Type 0 where
  active : Status
  reauth_required : Status

pub record Account : Type 0 where
  pub owner_id : ℕ
  pub status : Status
  pub sync_cursor : Option Text
  pub watch_expires_at : Option ℕ
  pub watch_subscription_id : Option Text
  pub polling_since : Option ℕ
  pub consecutive_failures : ℕ
  pub last_error_code : Option ErrorCode
  pub last_error_at : Option ℕ

pub data Provider : Type 0 where
  gmail outlook microsoft365 imap : Provider

-- A row of `provider_account_routes`, which no tenant owns.
pub record Route : Type 0 where
  pub account_id : ℕ
  pub route_user_id : ℕ
  pub provider : Provider
  pub route_expires_at : Option ℕ
  pub created_at : ℕ

pub record Tables : Type 0 where
  pub accounts : ℕ → Option Account
  pub routes : List Route

pub record DueWatch : Type 0 where
  pub due_user_id : ℕ
  pub due_account_id : ℕ
  pub expires_at : Option ℕ

abbrev pub is_gmail : Provider → Bool
is_gmail gmail = true
is_gmail _ = false

abbrev pub lapses_before : ℕ → Option ℕ → Bool
lapses_before horizon none = true
lapses_before horizon (some at) = ltb at horizon

-- `{ sort: 'asc', nulls: 'first' }`.
abbrev pub expires_first : Option ℕ → Option ℕ → Bool
expires_first none o = true
expires_first (some a) none = false
expires_first (some a) (some b) = leb a b

module _ (before : Route → Route → Bool) where
  abbrev pub insert_route : Route → List Route → List Route
  insert_route r [] = r ∷ []
  insert_route r (s ∷ routes) =
      let rest = insert_route r routes in if before r s then r ∷ s ∷ routes else s ∷ rest

  abbrev pub sort_routes : List Route → List Route
  sort_routes [] = []
  sort_routes (r ∷ routes) = insert_route r (sort_routes routes)

abbrev pub to_due : Route → DueWatch
to_due r = record {
  due_user_id = r.route_user_id;
  due_account_id = r.account_id;
  expires_at = r.route_expires_at;
}

abbrev pub hour_ms : ℕ
hour_ms = 3600000

unfoldable pub find_due : Tables → ℕ → ℕ → ℕ → List DueWatch
find_due t now horizon_hours limit = map to_due (
    take limit (
      sort_routes (λ a b. expires_first a.route_expires_at b.route_expires_at)
        (filter
          (λ r.
            is_gmail r.provider && lapses_before (now + horizon_hours * hour_ms) r.route_expires_at)
          t.routes)))

abbrev pub is_unset : Option ℕ → Bool
is_unset none = true
is_unset (some _) = false

unfoldable pub find_without_watch : Tables → ℕ → List DueWatch
find_without_watch t limit = map to_due (
    take limit (
      sort_routes (λ a b. leb a.created_at b.created_at)
        (filter (λ r. is_gmail r.provider && is_unset r.route_expires_at) t.routes)))

-- `forUser` and `where: { id }`: the account, if it is the user's.
abbrev pub account_of : Tables → ℕ → ℕ → Option Account
account_of t user id = elim (t.accounts id) [
  | none ↦ none
  | some a ↦ if a.owner_id == user then some a else none
]

abbrev pub put : ℕ → Account → (ℕ → Option Account) → ℕ → Option Account
put id a accounts = λ k. if k == id then some a else accounts k

abbrev pub expire_routes : ℕ → Option ℕ → List Route → List Route
expire_routes id at routes =
    map (λ r. if r.account_id == id then record r { route_expires_at = at } else r) routes

-- `account?.syncCursor ? {} : { syncCursor: cursor }`.
abbrev pub kept_cursor : Option Text → Text → Option Text
kept_cursor none cursor = some cursor
kept_cursor (some []) cursor = some cursor
kept_cursor (some (c ∷ cs)) cursor = some (c ∷ cs)

abbrev pub kept_subscription : Option Text → Option Text → Option Text
kept_subscription (some (c ∷ cs)) old = some (c ∷ cs)
kept_subscription _ old = old

-- `none` is Prisma's error for an update of a row that is not there.
unfoldable pub record_renewed : Tables → ℕ → ℕ → ℕ → Text → Option Text → Option Tables
record_renewed t user id expires_at cursor subscription_id = elim (account_of t user id) [
  | none ↦ none
  | some a ↦ some (record {
    accounts =
        put id
          (record a {
            status = active;
            watch_expires_at = some expires_at;
            polling_since = none;
            consecutive_failures = 0;
            sync_cursor = kept_cursor a.sync_cursor cursor;
            watch_subscription_id = kept_subscription subscription_id a.watch_subscription_id;
          })
          t.accounts;
    routes = expire_routes id (some expires_at) t.routes;
  })
]

unfoldable pub record_unavailable : Tables → ℕ → ℕ → ErrorCode → ℕ → Option Tables
record_unavailable t user id code now = elim (account_of t user id) [
  | none ↦ none
  | some a ↦ some (record {
    accounts =
        put id
          (record a {
            watch_expires_at = none;
            polling_since = some now;
            last_error_code = some code;
            last_error_at = some now;
          })
          t.accounts;
    routes = expire_routes id none t.routes;
  })
]

unfoldable pub record_renewal_failure : Tables → ℕ → ℕ → ErrorCode → ℕ → Option Tables
record_renewal_failure t user id code now = elim (account_of t user id) [
  | none ↦ none
  | some a ↦ some (record t {
    accounts =
        put id
          (record a {
            consecutive_failures = suc a.consecutive_failures;
            last_error_code = some code;
            last_error_at = some now;
          })
          t.accounts;
  })
]

unfoldable pub drop_route : Tables → ℕ → Tables
drop_route t id = record t { routes = filter (λ r. not (r.account_id == id)) t.routes }

abbrev pub renewal_horizon_hours : ℕ
renewal_horizon_hours = 48

-- The bucket of the job's id: the hour of the expiry, or that of the sweep.
unfoldable pub renewal_bucket : Option ℕ → ℕ → ℕ
renewal_bucket none sweep_at = sweep_at / hour_ms
renewal_bucket (some due_at) sweep_at = due_at / hour_ms

unfoldable pub is_due : Option ℕ → ℕ → ℕ → Bool
is_due none now horizon_hours = true
is_due (some at) now horizon_hours = ltb at (now + horizon_hours * hour_ms)
