-- ===== src/Sweeps/Digests.antt =====
-- apps/worker/src/services/digest-schedule.ts: when a scheduled digest is due. `formatIn`, which asks
-- `Intl` for the parts of an instant in a zone, is a parameter.
use whatsapp_email_assistant.Common.{
  ℕ, ◌+◌, ◌*◌, Bool, true, false, not, ◌&&◌, Option, none, some, List, [], ◌∷◌, ltb, leb, ◌==◌,
  if◌then◌else◌, Text,
}
use whatsapp_email_assistant.Window.{parse_hh_mm}

-- The hour is already taken modulo 24.
pub record Parts : Type 0 where
  pub year : ℕ
  pub month : ℕ
  pub day : ℕ
  pub hour : ℕ
  pub minute : ℕ

-- The same regular expression and bounds as those of the quiet hours.
unfoldable pub parse_time : Text → Option ℕ
parse_time value = parse_hh_mm value

abbrev pub minutes_of : Parts → ℕ
minutes_of p = p.hour * 60 + p.minute

abbrev pub same_date : Parts → Parts → Bool
same_date a b = (a.day == b.day) && ((a.month == b.month) && (a.year == b.year))

abbrev pub reached : ℕ → Option ℕ → Bool
reached scheduled none = false
reached scheduled (some last_local) = leb scheduled last_local

-- Whether one of the times makes a digest due.
abbrev pub makes_due : ℕ → Bool → Option ℕ → Option ℕ → Bool
makes_due local same_day last_local none = false
makes_due local same_day last_local (some scheduled) =
    not (ltb local scheduled) && not (same_day && reached scheduled last_local)

unfoldable pub due_at : ℕ → Bool → Option ℕ → List Text → Bool
due_at local same_day last_local [] = false
due_at local same_day last_local (time ∷ times) =
    let rest = due_at local same_day last_local times in
    if makes_due local same_day last_local (parse_time time) then true else rest

module _ (format_in : ℕ → Text → Option Parts) where
  unfoldable pub local_minutes : ℕ → Text → Option ℕ
  local_minutes at zone = elim (format_in at zone) [ none ↦ none | some p ↦ some (minutes_of p) ]

  unfoldable pub is_same_local_day : ℕ → ℕ → Text → Bool
  is_same_local_day a b zone = elim (format_in a zone) [
    | none ↦ false
    | some p ↦ elim (format_in b zone) [ none ↦ false | some q ↦ same_date p q ]
  ]

  abbrev pub last_minutes : Option ℕ → Text → Option ℕ
  last_minutes none zone = none
  last_minutes (some last) zone = local_minutes last zone

  abbrev pub last_same_day : Option ℕ → ℕ → Text → Bool
  last_same_day none now zone = false
  last_same_day (some last) now zone = is_same_local_day last now zone

  unfoldable pub is_digest_due : List Text → Text → Option ℕ → ℕ → Bool
  is_digest_due times zone last_digest_at now = elim (local_minutes now zone) [
    | none ↦ false
    | some local ↦
        due_at local (last_same_day last_digest_at now zone) (last_minutes last_digest_at zone)
          times
  ]
