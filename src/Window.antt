-- ===== src/Window.antt =====
-- packages/whatsapp/src/session-window.ts: Meta's 24-hour window and the delivery policy.
-- A `Date` is its number of milliseconds since the epoch.
pub mod Laws
pub mod Quiet
mod Tests
use whatsapp_email_assistant.Common.{
  ℕ, suc, ◌+◌, ◌-◌, ◌*◌, ◌/◌, ◌%◌, ◌≤◌, ◌<◌, ◌≡◌, refl, ◌≢◌, ◌↔◌, ◌⊎◌, inl, inr, Bool, true, false,
  not, ◌&&◌, ◌||◌, Option, none, some, List, [], ◌∷◌, ◌++◌, ltb, leb, ◌==◌, if◌then◌else◌, any,
  Text, codes, text_eq, mem_text, is_digit, trim, to_lower, starts_with, ends_with,
}

pub data SendMode : Type 0 where
  free_form template_only : SendMode

pub record WindowDecision : Type 0 where
  pub mode : SendMode
  pub remaining_ms : ℕ
  pub closing_soon : Bool

abbrev pub session_window_ms : ℕ
session_window_ms = 24 * 60 * 60 * 1000

abbrev pub closing_soon_ms : ℕ
closing_soon_ms = 30 * 60 * 1000

abbrev closed_window : WindowDecision
closed_window = record { mode = template_only; remaining_ms = 0; closing_soon = false }

-- `Math.max(0, a - b)` is the truncated difference.
open_window : ℕ → WindowDecision
open_window remaining = if leb remaining 0 then closed_window else record {
  mode = free_form;
  remaining_ms = remaining;
  closing_soon = leb remaining closing_soon_ms;
}

unfoldable pub evaluate_window : Option ℕ → ℕ → WindowDecision
unfolding open_window
evaluate_window none now = closed_window
evaluate_window (some last_inbound_at) now =
    let elapsed = now - last_inbound_at in open_window (session_window_ms - elapsed)

abbrev pub is_free_form : SendMode → Bool
is_free_form free_form = true
is_free_form template_only = false

unfoldable pub is_window_open : Option ℕ → ℕ → Bool
unfolding evaluate_window
is_window_open last now = is_free_form (evaluate_window last now).mode

pub data NotificationMode : Type 0 where
  instant digest priority_only off : NotificationMode

pub data EmailPriority : Type 0 where
  urgent high normal low : EmailPriority

pub record DeliveryPreferences : Type 0 where
  pub mode : NotificationMode
  pub minimum_priority : EmailPriority
  pub quiet_hours_enabled : Bool
  pub quiet_hours_start : Text
  pub quiet_hours_end : Text
  pub timezone : Text
  pub muted_categories : List Text
  pub muted_senders : List Text

pub record DeliveryCandidate : Type 0 where
  pub priority : EmailPriority
  pub category : Text
  pub from_address : Text

pub data SuppressReason : Type 0 where
  muted_category muted_sender below_priority switched_off : SuppressReason

pub data DeferReason : Type 0 where
  digest_mode quiet_hours window_closed : DeferReason

pub data DeliveryAction : Type 0 where
  send_now send_template : DeliveryAction
  defer : DeferReason → DeliveryAction
  suppress : SuppressReason → DeliveryAction

abbrev pub priority_rank : EmailPriority → ℕ
priority_rank low = 0
priority_rank normal = 1
priority_rank high = 2
priority_rank urgent = 3

abbrev pub is_off : NotificationMode → Bool
is_off off = true
is_off _ = false

abbrev pub is_digest : NotificationMode → Bool
is_digest digest = true
is_digest _ = false

abbrev pub is_priority_only : NotificationMode → Bool
is_priority_only priority_only = true
is_priority_only _ = false

abbrev pub is_urgent : EmailPriority → Bool
is_urgent urgent = true
is_urgent _ = false

abbrev pub is_high : EmailPriority → Bool
is_high high = true
is_high _ = false

abbrev pub is_empty : Text → Bool
is_empty [] = true
is_empty (_ ∷ _) = false

pub matches_sender : Text → Text → Bool
matches_sender address muted =
    let a = to_lower (trim address) in
    let m = to_lower (trim muted) in
    if is_empty m then false else if starts_with m (codes "@") then ends_with a m else text_eq a m

-- The two groups of `/^(\d{1,2}):(\d{2})$/`, once they are digits.
abbrev in_day : ℕ → ℕ → Option ℕ
in_day hours mins = if ltb 23 hours || ltb 59 mins then none else some (hours * 60 + mins)

abbrev digit_value : ℕ → ℕ
digit_value c = c - b'0'

hh_mm : Text → Option ℕ
hh_mm (h ∷ c ∷ m ∷ n ∷ []) =
    if is_digit h && c == b':' && is_digit m && is_digit n
    then in_day (digit_value h) (digit_value m * 10 + digit_value n)
    else none
hh_mm (g ∷ h ∷ c ∷ m ∷ n ∷ []) =
    if is_digit g && is_digit h && c == b':' && is_digit m && is_digit n
    then in_day (digit_value g * 10 + digit_value h) (digit_value m * 10 + digit_value n)
    else none
hh_mm _ = none

unfoldable pub parse_hh_mm : Text → Option ℕ
unfolding hh_mm
parse_hh_mm value = hh_mm (trim value)

-- `Intl.DateTimeFormat` gives the hour and the minute of an instant in a zone, or throws.
abbrev pub Intl : Type 0
Intl = ℕ → Text → Option (ℕ × ℕ)

-- The test of `inQuietHours`, once both ends are read.
abbrev pub in_range : ℕ → ℕ → ℕ → Bool
in_range start end minutes =
    if start == end
    then false
    else if ltb start end
    then leb start minutes && ltb minutes end
    else leb start minutes || ltb minutes end

abbrev between : Option ℕ → Option ℕ → ℕ → Bool
between (some start) (some end) minutes = in_range start end minutes
between _ _ minutes = false

module _ (intl : Intl) where
  unfoldable pub minutes_of_day_in_zone : ℕ → Text → ℕ
  minutes_of_day_in_zone date timezone = elim (intl date timezone) [
    | some (hour, minute) ↦ hour % 24 * 60 + minute
    | none ↦ date / 3600000 % 24 * 60 + date / 60000 % 60
  ]

  unfoldable pub in_quiet_hours : ℕ → DeliveryPreferences → Bool
  unfolding parse_hh_mm minutes_of_day_in_zone
  in_quiet_hours now prefs =
      let minutes = minutes_of_day_in_zone now prefs.timezone in
      between (parse_hh_mm prefs.quiet_hours_start) (parse_hh_mm prefs.quiet_hours_end) minutes

  unfoldable pub decide_delivery :
      DeliveryCandidate → DeliveryPreferences → WindowDecision → ℕ → DeliveryAction
  decide_delivery candidate prefs window now =
      if is_off prefs.mode
      then suppress switched_off
      else if any (matches_sender candidate.from_address) prefs.muted_senders
      then suppress muted_sender
      else if mem_text candidate.category prefs.muted_categories
      then suppress muted_category
      else if is_priority_only prefs.mode
          && ltb (priority_rank candidate.priority) (priority_rank prefs.minimum_priority)
      then suppress below_priority
      else if is_digest prefs.mode
      then defer digest_mode
      else if prefs.quiet_hours_enabled
          && not (is_urgent candidate.priority)
          && in_quiet_hours now prefs
      then defer quiet_hours
      else if is_free_form window.mode
      then send_now
      else if is_urgent candidate.priority || is_high candidate.priority
      then send_template
      else defer window_closed
