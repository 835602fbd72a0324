-- ===== src/Watches/Renew.antt =====
-- `renew` of apps/worker/src/processors/sync.processor.ts, with markReauthRequired of
-- apps/worker/src/services/account.service.ts. The loading of the account and the provider's answer
-- are parameters.
use whatsapp_email_assistant.Common.{
  ℕ, Bool, true, false, Option, none, some, List, [], ◌∷◌, if◌then◌else◌, Text,
}
use whatsapp_email_assistant.AppError.{
  known, unknown, Result, ok, err, AppError, app_error_from, ErrorCode, not_found,
  provider_unauthorized, dependency_unavailable,
}
use whatsapp_email_assistant.Watches.{
  reauth_required, Tables, account_of, put, record_renewed, record_unavailable,
  record_renewal_failure, drop_route,
}

pub record WatchHandle : Type 0 where
  pub handle_expires_at : ℕ
  pub cursor_value : Text
  pub subscription_id : Option Text

-- The provider's answer and the clock; `load` has its own.
pub record Services : Type 0 where
  pub load : Result (Unit {0})
  pub renew_watch : Result WatchHandle
  pub now : ℕ

abbrev pub is_unreachable : ErrorCode → Bool
is_unreachable not_found = true
is_unreachable provider_unauthorized = true
is_unreachable _ = false

unfoldable pub mark_reauth_required : Tables → ℕ → ℕ → ErrorCode → ℕ → Option Tables
mark_reauth_required t user id reason now = elim (account_of t user id) [
  | none ↦ none
  | some a ↦ some (record t {
    accounts =
        put id
          (record a {
            status = reauth_required;
            last_error_code = some reason;
            last_error_at = some now;
          })
          t.accounts;
  })
]

-- A write that may find no row, which Prisma answers with an error.
abbrev pub written :
    Tables → Option Tables → (Tables → Tables × Result (Unit {0})) → Tables × Result (Unit {0})
written t none f = (t, err unknown)
written t (some u) f = f u

abbrev pub or_same : Tables → Option Tables → Tables
or_same t none = t
or_same t (some u) = u

pub data Failure : Type 0 where
  unauthorized unavailable other : Failure

abbrev pub failure_of : ErrorCode → Failure
failure_of provider_unauthorized = Failure.unauthorized
failure_of dependency_unavailable = Failure.unavailable
failure_of _ = Failure.other

-- The second `catch`.
abbrev pub renewal_failed : Tables → ℕ → ℕ → AppError → ℕ → Tables × Result (Unit {0})
renewal_failed t user id e now = elim (failure_of e.code) [
  | Failure.unauthorized ↦
      written t (mark_reauth_required t user id e.code now) (λ u. (drop_route u id, ok tt))
  | Failure.unavailable ↦ written t (record_unavailable t user id e.code now) (λ u. (u, ok tt))
  | Failure.other ↦ (or_same t (record_renewal_failure t user id e.code now), err (known e))
]

abbrev pub renew_loaded : Services → Tables → ℕ → ℕ → Tables × Result (Unit {0})
renew_loaded svc t user id = elim svc.renew_watch [
  | err x ↦ renewal_failed t user id (app_error_from x) svc.now
  | ok h ↦ elim (record_renewed t user id h.handle_expires_at h.cursor_value h.subscription_id) [
    | none ↦ renewal_failed t user id (app_error_from unknown) svc.now
    | some u ↦ (u, ok tt)
  ]
]

unfoldable pub renew : Services → Tables → ℕ → ℕ → Tables × Result (Unit {0})
renew svc t user id = elim svc.load [
  | ok _ ↦ renew_loaded svc t user id
  | err x ↦
      if is_unreachable (app_error_from x).code
      then (drop_route t id, ok tt)
      else (t, err (known (app_error_from x)))
]

pub record Renewal : Type 0 where
  pub svc : Services
  pub user : ℕ
  pub account : ℕ

-- The renewals of a queue, one after the other, whatever each comes to.
unfoldable pub run_renewals : Tables → List Renewal → Tables
run_renewals t [] = t
run_renewals t (r ∷ rs) = run_renewals (renew r.svc t r.user r.account).0 rs
