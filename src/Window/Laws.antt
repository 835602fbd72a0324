-- ===== src/Window/Laws.antt =====
-- What the window and the delivery policy of session-window.ts promise.
use whatsapp_email_assistant.Common.{
  ℕ, ◌+◌, ◌-◌, ◌≤◌, ◌<◌, ◌≡◌, ◌≢◌, ◌↔◌, ◌⊎◌, Bool, true, false, Option, some, List, [], ◌∷◌, any,
  Text, arith, mem_text, All, text_eq_iff,
}
use whatsapp_email_assistant.Window.{
  free_form, template_only, WindowDecision, session_window_ms, closing_soon_ms, evaluate_window,
  is_window_open, DeliveryPreferences, DeliveryCandidate, send_now, send_template, decide_delivery,
  priority_rank, matches_sender, in_quiet_hours, Intl, off, digest, priority_only, urgent, high,
}

-- The window is open exactly while less than 24 hours have passed since the last inbound message;
-- what remains is then the time to its end, never more than 24 hours even if the clock is behind,
-- and it closes soon exactly when at most 30 minutes remain. A closed window reports no time left.
pub evaluate_window_exact :
    (last now : ℕ)
    → let d = evaluate_window (some last) now in
      ((d.mode ≡ free_form) ↔ (now < last + session_window_ms))
      × (d.remaining_ms ≤ session_window_ms)
      × (last ≤ now → d.remaining_ms ≡ last + session_window_ms - now)
      × (now ≤ last → d.remaining_ms ≡ session_window_ms)
      × ((d.closing_soon ≡ true) ↔ ((0 < d.remaining_ms) × (d.remaining_ms ≤ closing_soon_ms)))
unfolding evaluate_window
evaluate_window_exact last now = ground arith

-- A closed window stays closed until another message comes in, and one that comes in opens it.
pub window_closes_for_good :
    (last : Option ℕ) (now later : ℕ)
    → is_window_open last now ≡ false
    → now ≤ later
    → (is_window_open last later ≡ false) × (is_window_open (some later) later ≡ true)
unfolding is_window_open
window_closes_for_good last now later h le = ground arith

-- The policy lets a candidate through at `now`.
abbrev pub MaySend : Intl → DeliveryCandidate → DeliveryPreferences → ℕ → Type 0
MaySend intl c p now =
    (p.mode ≢ off)
    × All (λ m. matches_sender c.from_address m ≡ false) p.muted_senders
    × All (λ m. c.category ≢ m) p.muted_categories
    × (p.mode ≡ priority_only → priority_rank p.minimum_priority ≤ priority_rank c.priority)
    × (p.mode ≢ digest)
    × (p.quiet_hours_enabled ≡ true → in_quiet_hours intl now p ≡ true → c.priority ≡ urgent)

any-false_iff :
    {A : Type 0} (f : A → Bool) (l : List A) → (any f l ≡ false) ↔ All (λ m. f m ≡ false) l
any-false_iff f [] = ground arith
any-false_iff f (x ∷ l) = ground (arith, any-false_iff f l)

mem_text-false_iff : (t : Text) (l : List Text) → (mem_text t l ≡ false) ↔ All (λ m. t ≢ m) l
mem_text-false_iff t [] = ground arith
mem_text-false_iff t (x ∷ l) = ground (arith, mem_text-false_iff t l, text_eq_iff x t)

module _ (intl : Intl) (c : DeliveryCandidate) (p : DeliveryPreferences) (w : WindowDecision)
    (now : ℕ) where
  -- A message is sent free-form exactly when the policy lets it through and the window is open.
  pub decide_delivery-send_now_iff :
      (decide_delivery intl c p w now ≡ send_now) ↔ (MaySend intl c p now × (w.mode ≡ free_form))
  unfolding decide_delivery
  decide_delivery-send_now_iff = ground (
    arith,
    any-false_iff (matches_sender c.from_address) p.muted_senders,
    mem_text-false_iff c.category p.muted_categories,
  )

  -- A billable template goes out exactly when the policy lets the message through, the window is
  -- closed, and the priority is urgent or high.
  pub decide_delivery-send_template_iff : (decide_delivery intl c p w now ≡ send_template) ↔ (
      MaySend intl c p now
      × (w.mode ≡ template_only)
      × ((c.priority ≡ urgent) ⊎ (c.priority ≡ high)))
  unfolding decide_delivery
  decide_delivery-send_template_iff = ground (
    arith,
    any-false_iff (matches_sender c.from_address) p.muted_senders,
    mem_text-false_iff c.category p.muted_categories,
  )
