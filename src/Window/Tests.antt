-- ===== src/Window/Tests.antt =====
-- The window and the delivery policy on concrete inputs.
use whatsapp_email_assistant.Common.{
  ℕ, ◌+◌, ◌-◌, ◌*◌, ◌/◌, ◌%◌, ◌<◌, ◌≡◌, refl, ◌↔◌, true, none, some, [], ◌∷◌, arith, if◌then◌else◌,
  codes, text_eq,
}
use whatsapp_email_assistant.Window.{
  WindowDecision, evaluate_window, DeliveryPreferences, DeliveryCandidate, send_now, send_template,
  defer, decide_delivery, instant, high, normal, matches_sender, quiet_hours, in_quiet_hours, Intl,
  parse_hh_mm, minutes_of_day_in_zone,
}
use whatsapp_email_assistant.Window.Quiet.{FormatsMinutes, in_quiet_hours-arc, after}

-- A formatter that knows UTC only.
abbrev utc : Intl
utc t zone = if text_eq zone (codes "UTC") then some (t / 3600000 % 24, t / 60000 % 60) else none

utc-FormatsMinutes : FormatsMinutes utc
utc-FormatsMinutes t zone h m e = ground arith

abbrev prefs : DeliveryPreferences
prefs = record {
  mode = instant;
  minimum_priority = normal;
  quiet_hours_enabled = true;
  quiet_hours_start = codes "22:00";
  quiet_hours_end = codes "7:00";
  timezone = codes "UTC";
  muted_categories = codes "newsletter" ∷ [];
  muted_senders = codes "@spam.example" ∷ [];
}

abbrev mail : DeliveryCandidate
mail = record { priority = high; category = codes "work"; from_address = codes "Ann@acme.com " }

-- Noon and half past eleven at night, on the first day.
abbrev noon : ℕ
noon = 12 * 3600000

abbrev late : ℕ
late = 23 * 3600000 + 30 * 60000

abbrev window_at : ℕ → WindowDecision
window_at now = evaluate_window (some (now - 3600000)) now

noon_sends : decide_delivery utc mail prefs (window_at noon) noon ≡ send_now
unfolding decide_delivery evaluate_window in_quiet_hours matches_sender
noon_sends = refl

late_waits : decide_delivery utc mail prefs (window_at late) late ≡ defer quiet_hours
unfolding decide_delivery evaluate_window in_quiet_hours matches_sender
late_waits = refl

domain_muted : matches_sender (codes "Bob@SPAM.example") (codes " @spam.example") ≡ true
unfolding matches_sender
domain_muted = refl

closed_template : decide_delivery utc mail prefs (evaluate_window none noon) noon ≡ send_template
unfolding decide_delivery evaluate_window in_quiet_hours matches_sender
closed_template = refl

in_quiet_hours-arc_example :
    (in_quiet_hours utc late prefs ≡ true)
    ↔ (after 1320 (minutes_of_day_in_zone utc late (codes "UTC")) < after 1320 420)
unfolding parse_hh_mm
in_quiet_hours-arc_example = in_quiet_hours-arc utc utc-FormatsMinutes late prefs 1320 420 refl refl
