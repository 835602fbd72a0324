-- ===== src/Watches/Tests.antt =====
-- Two mailboxes, one of which is not Gmail's, and the theorems on them.
use whatsapp_email_assistant.Common.{
  ℕ, ◌≡◌, refl, none, some, List, [], ◌∷◌, map, arith, ltb, if◌then◌else◌, codes,
}
use whatsapp_email_assistant.AppError.{
  ok, err, known, app_error, app_error_from, dependency_unavailable,
}
use whatsapp_email_assistant.Watches.{
  active, Account, Route, Tables, Provider, gmail, outlook, find_due, find_without_watch,
  record_renewed, record_unavailable,
}
use whatsapp_email_assistant.Watches.Renew.{Services, Renewal, run_renewals, renew}
use whatsapp_email_assistant.Watches.Laws.{Agree, KeepsCursors}
use whatsapp_email_assistant.Watches.Runs.{run_renewals-Agree, run_renewals-KeepsCursors}
use whatsapp_email_assistant.Watches.Reach.{NotFor, sweeps-miss_others}

abbrev mailbox : Account
mailbox = record {
  owner_id = 1;
  status = active;
  sync_cursor = some (codes "77");
  watch_expires_at = some 9000;
  watch_subscription_id = none;
  polling_since = none;
  consecutive_failures = 0;
  last_error_code = none;
  last_error_at = none;
}

abbrev route_to : ℕ → Provider → Route
route_to id provider = record {
  account_id = id;
  route_user_id = 1;
  provider = provider;
  route_expires_at = some 9000;
  created_at = 10;
}

abbrev both : Tables
both = record {
  accounts = λ k. if ltb k 3 then some mailbox else none;
  routes = route_to 1 gmail ∷ route_to 2 outlook ∷ [];
}

abbrev renewed : Services
renewed = record {
  load = ok tt;
  renew_watch =
      ok (record { handle_expires_at = 700000; cursor_value = codes "99"; subscription_id = none });
  now = 9500;
}

abbrev no_pubsub : Services
no_pubsub = record renewed {
  renew_watch = err (known (app_error dependency_unavailable none none));
}

abbrev night : List Renewal
night =
    (record { svc = no_pubsub; user = 1; account = 1 })
    ∷ (record { svc = renewed; user = 1; account = 1 })
    ∷ []

-- Only the first mailbox is found, though both have lapsed.
only_gmail :
    find_due both 9500 48 500
    ≡ (record { due_user_id = 1; due_account_id = 1; expires_at = some 9000 }) ∷ []
unfolding find_due
only_gmail = refl

after_night :
    map (λ r. r.route_expires_at) (run_renewals both night).routes ≡ some 700000 ∷ some 9000 ∷ []
unfolding run_renewals renew record_renewed record_unavailable app_error_from
after_night = refl

run_renewals-Agree_example : Agree (run_renewals both night)
run_renewals-Agree_example =
    run_renewals-Agree both night (λ a h. ground arith, (λ a h. ground arith, tt))

run_renewals-KeepsCursors_example : KeepsCursors both.accounts (run_renewals both night).accounts
run_renewals-KeepsCursors_example = run_renewals-KeepsCursors both night

sweeps-miss_others_example :
    NotFor 2 (find_due both 9500 48 500) × NotFor 2 (find_without_watch both 500)
sweeps-miss_others_example =
    sweeps-miss_others both 2 9500 48 500 (λ h. ground arith, (λ h. refl, tt))
