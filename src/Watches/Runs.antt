-- ===== src/Watches/Runs.antt =====
-- Renewals one after the other.
use whatsapp_email_assistant.Common.{
  ℕ, ◌≡◌, refl, inl, inr, List, [], ◌∷◌, Bool-cases, Option-cases,
}
use whatsapp_email_assistant.AppError.{unknown, Result-cases, AppError, app_error_from}
use whatsapp_email_assistant.Watches.{
  Tables, record_renewed, record_unavailable, record_renewal_failure,
}
use whatsapp_email_assistant.Watches.Renew.{
  Services, is_unreachable, mark_reauth_required, Failure, failure_of, renewal_failed, renew_loaded,
  renew, Renewal, run_renewals,
}
use whatsapp_email_assistant.Watches.Laws.{
  Agree, KeepsCursors, Keeps, same-Keeps, drop_route-Keeps, record_renewed-Keeps,
  record_unavailable-Keeps, record_renewal_failure-Keeps, mark_reauth_required-Keeps,
}

renewal_failed-Keeps :
    (t : Tables) (user id : ℕ) (e : AppError) (now : ℕ) → Keeps t (renewal_failed t user id e now).0
renewal_failed-Keeps t user id e now = by_failure (failure_of e.code) refl
  where
    by_failure : (f : Failure) → failure_of e.code ≡ f → Keeps t (renewal_failed t user id e now).0
    by_failure Failure.unauthorized q =
        elim (Option-cases (mark_reauth_required t user id e.code now)) [
          | inl h ↦ rw (q, renewal_failed, h) (same-Keeps t)
          | inr (u, h) ↦
              rw (q, renewal_failed, h)
                (drop_route-Keeps t u id (mark_reauth_required-Keeps t u user id e.code now h))
        ]
    by_failure Failure.unavailable q =
        elim (Option-cases (record_unavailable t user id e.code now)) [
          | inl h ↦ rw (q, renewal_failed, h) (same-Keeps t)
          | inr (u, h) ↦
              rw (q, renewal_failed, h) (record_unavailable-Keeps t u user id e.code now h)
        ]
    by_failure Failure.other q = elim (Option-cases (record_renewal_failure t user id e.code now)) [
      | inl h ↦ rw (q, renewal_failed, h) (same-Keeps t)
      | inr (u, h) ↦
          rw (q, renewal_failed, h) (record_renewal_failure-Keeps t u user id e.code now h)
    ]

renew-Keeps : (svc : Services) (t : Tables) (user id : ℕ) → Keeps t (renew svc t user id).0
unfolding renew
renew-Keeps svc t user id = elim (Result-cases svc.load) [
  | inr (x, l) ↦ elim (Bool-cases (is_unreachable (app_error_from x).code)) [
    | inl b ↦ rw (l, renew, b) (drop_route-Keeps t t id (same-Keeps t))
    | inr b ↦ rw (l, renew, b) (same-Keeps t)
  ]
  | inl (_, l) ↦ elim (Result-cases svc.renew_watch) [
    | inr (x, r) ↦
        rw (l, renew, r, renew_loaded) (renewal_failed-Keeps t user id (app_error_from x) svc.now)
    | inl (h, r) ↦
        elim (Option-cases
          (record_renewed t user id h.handle_expires_at h.cursor_value h.subscription_id)) [
            | inl n ↦
                rw (l, renew, r, renew_loaded, n)
                  (renewal_failed-Keeps t user id (app_error_from unknown) svc.now)
            | inr (u, n) ↦
                rw (l, renew, r, renew_loaded, n) (record_renewed-Keeps t u user id _ _ _ n)
          ]
  ]
]

run-Keeps : (t : Tables) (rs : List Renewal) → Keeps t (run_renewals t rs)
unfolding run_renewals
run-Keeps t [] = same-Keeps t
run-Keeps t (r ∷ rs) =
    let first = renew-Keeps r.svc t r.user r.account in
    let later = run-Keeps (renew r.svc t r.user r.account).0 rs in
    record {
      agree = λ h. later.agree (first.agree h);
      cursors =
          λ k x xs a e c. let (b, f, d) = first.cursors k x xs a e c in later.cursors k x xs b f d;
    }

-- Where each route has the expiry of its account, it still has it after any renewals, whether they
-- succeed or fail, and however.
pub run_renewals-Agree : (t : Tables) (rs : List Renewal) → Agree t → Agree (run_renewals t rs)
run_renewals-Agree t rs h = (run-Keeps t rs).agree h

-- No renewal moves the position up to which a mailbox has been read: an account that has a cursor is
-- still there with this cursor after any renewals.
pub run_renewals-KeepsCursors :
    (t : Tables) (rs : List Renewal) → KeepsCursors t.accounts (run_renewals t rs).accounts
run_renewals-KeepsCursors t rs = (run-Keeps t rs).cursors
