-- ===== src/Window/Quiet.antt =====
-- Quiet hours as an arc of the clock's circle.
use whatsapp_email_assistant.Common.{
  ℕ, ◌+◌, ◌-◌, ◌%◌, ◌<◌, ◌≡◌, ◌↔◌, inl, inr, true, some, [], ◌∷◌, Text, arith, Option-cases, trim,
}
use whatsapp_email_assistant.Window.{
  DeliveryPreferences, in_quiet_hours, in_range, Intl, parse_hh_mm, hh_mm, minutes_of_day_in_zone,
}

hh_mm-lt : (s : Text) (m : ℕ) → hh_mm s ≡ some m → m < 1440
unfolding hh_mm
hh_mm-lt (h ∷ c ∷ m ∷ n ∷ []) r e = ground arith
hh_mm-lt (g ∷ h ∷ c ∷ m ∷ n ∷ []) r e = ground arith
hh_mm-lt _ r e = cc

parse_hh_mm-lt : (s : Text) (m : ℕ) → parse_hh_mm s ≡ some m → m < 1440
unfolding parse_hh_mm
parse_hh_mm-lt s m e = hh_mm-lt (trim s) m e

-- `Intl` formats a minute below 60.
abbrev pub FormatsMinutes : Intl → Type 0
FormatsMinutes intl = (t : ℕ) (zone : Text) (h m : ℕ) → intl t zone ≡ some (h, m) → m < 60

minutes_of_day_in_zone-lt :
    (intl : Intl)
    → FormatsMinutes intl
    → (t : ℕ) (zone : Text) → minutes_of_day_in_zone intl t zone < 1440
unfolding minutes_of_day_in_zone
minutes_of_day_in_zone-lt intl f t zone = elim (Option-cases (intl t zone)) [
  | inl e ↦ rw (e, minutes_of_day_in_zone) (omega arith)
  | inr (hm, e) ↦ rw (e, minutes_of_day_in_zone) (omega (arith, f t zone hm.0 hm.1 e))
]

-- How far along the circle of 1440 minutes `m` lies after `start`.
abbrev pub after : ℕ → ℕ → ℕ
after start m = (m + 1440 - start) % 1440

in_range_iff :
    (start end m : ℕ)
    → start < 1440
    → end < 1440
    → m < 1440
    → (in_range start end m ≡ true) ↔ (after start m < after start end)
in_range_iff start end m hs he hm = ground arith

-- With two readable ends, the quiet hours are the minutes of the arc from the start up to the
-- end, whether or not it crosses midnight; two equal ends mean no quiet hours at all. `Intl` is
-- taken to format minutes below 60.
pub in_quiet_hours-arc :
    (intl : Intl)
    → FormatsMinutes intl
    → (now : ℕ) (p : DeliveryPreferences) (start end : ℕ)
    → parse_hh_mm p.quiet_hours_start ≡ some start
    → parse_hh_mm p.quiet_hours_end ≡ some end
    → (in_quiet_hours intl now p ≡ true)
      ↔ (after start (minutes_of_day_in_zone intl now p.timezone) < after start end)
unfolding in_quiet_hours
in_quiet_hours-arc intl f now p start end hs he =
    rw (hs, he)
      (in_range_iff start end (minutes_of_day_in_zone intl now p.timezone)
        (parse_hh_mm-lt p.quiet_hours_start start hs) (parse_hh_mm-lt p.quiet_hours_end end he)
        (minutes_of_day_in_zone-lt intl f now p.timezone))
