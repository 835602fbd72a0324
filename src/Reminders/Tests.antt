-- ===== src/Reminders/Tests.antt =====
-- Runs of snoozes and firings, and the theorems on them.
use whatsapp_email_assistant.Common.{
  ℕ, ◌≤◌, ◌≡◌, refl, true, none, some, List, [], ◌∷◌, take, drop, count, codes,
}
use whatsapp_email_assistant.AppError.{known, app_error, dependency_unavailable}
use whatsapp_email_assistant.Reminders.{
  fire_all, Faults, returned, create, claim, release, fire, sweep_user, find_due_for, snoozes,
}
use whatsapp_email_assistant.Reminders.Refines.{
  Op, step, snooze_op, fire_op, run, plan_run, returned_ids, empty_table, nothing_planned, entry,
  run-refines,
}
use whatsapp_email_assistant.Reminders.Laws.{IsSound}
use whatsapp_email_assistant.Reminders.Once.{returns_at_most_once, times_returned, claim-swallows}

abbrev healthy : Faults
healthy = record { mailbox = none; queue = none; releases = true }

abbrev down : Faults
down = record healthy { mailbox = some (known (app_error dependency_unavailable none none)) }

-- Two messages put down, one of them twice; the other's first firing fails, its second works.
abbrev evening : List Op
evening =
    snooze_op 1 7 900 (codes "snooze") 10
    ∷ snooze_op 1 8 500 (codes "snooze") 11
    ∷ snooze_op 1 7 600 (codes "snooze") 12
    ∷ fire_op down 1 1 600
    ∷ fire_op healthy 1 1 610
    ∷ fire_op healthy 1 1 610
    ∷ []

evening_entries :
    (entry (run empty_table evening).rows 1 7 ≡ some (2, 600))
    × (entry (run empty_table evening).rows 1 8 ≡ none)
    × (returned_ids empty_table evening ≡ (1, 1) ∷ [])
unfolding run step create fire claim release returned_ids
evening_entries = (refl, refl, refl)

-- A sweep brings back what is due, soonest first, and nothing twice.
evening_sweep :
    (sweep_user (λ _. healthy) (run empty_table (take 3 evening)) 1 550).1 ≡ (1, returned) ∷ []
unfolding sweep_user fire_all find_due_for run step create fire claim
evening_sweep = refl

-- A firing that fails after its message was put down again leaves two live reminders.
late_release :
    count
      (snoozes 1 7)
      (release
        (create
          (claim (run empty_table (take 1 evening)) 1 0 900).0
          1
          7
          2000
          (codes "snooze")
          901).0
        1
        0).rows
    ≡ 2
unfolding run step create claim release
late_release = refl

run-refines_example :
    IsSound (run empty_table evening)
    × ((u m : ℕ)
        → entry (run empty_table evening).rows u m ≡ (plan_run nothing_planned evening).returns u m)
run-refines_example = run-refines evening

returns_at_most_once_example : times_returned 1 1 (returned_ids empty_table evening) ≤ 1
returns_at_most_once_example = returns_at_most_once evening 1 1

claim-swallows_example :
    times_returned 1 1
      (returned_ids (claim (run empty_table (take 3 evening)) 1 1 600).0 (drop 4 evening))
    ≡ 0
unfolding run step create claim
claim-swallows_example = claim-swallows (take 3 evening) (drop 4 evening) 1 1 600 refl
