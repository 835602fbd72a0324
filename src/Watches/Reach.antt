-- ===== src/Watches/Reach.antt =====
-- Which mailboxes the sweeps reach.
use whatsapp_email_assistant.Common.{
  ℕ, zero, suc, ◌≡◌, ◌≢◌, inl, inr, Bool, false, ◌&&◌, List, [], ◌∷◌, map, arith, Bool-cases, take,
  filter, All,
}
use whatsapp_email_assistant.Watches.{
  Route, Tables, DueWatch, is_gmail, insert_route, sort_routes, to_due, find_due,
  find_without_watch,
}

-- Accounts whose routes are all of another provider than Gmail.
abbrev pub Elsewhere : ℕ → List Route → Type 0
Elsewhere id routes = All (λ r. r.account_id ≡ id → is_gmail r.provider ≡ false) routes

abbrev pub NotFor : ℕ → List DueWatch → Type 0
NotFor id watches = All (λ d. d.due_account_id ≢ id) watches

abbrev NotOf : ℕ → List Route → Type 0
NotOf id routes = All (λ r. r.account_id ≢ id) routes

module _ (before : Route → Route → Bool) (id : ℕ) where
  insert-NotOf :
      (r : Route) (routes : List Route)
      → r.account_id ≢ id
      → NotOf id routes
      → NotOf id (insert_route before r routes)
  insert-NotOf r [] k h = (k, tt)
  insert-NotOf r (s ∷ routes) k (l, h) = elim (Bool-cases (before r s)) [
    | inl e ↦ rw e (k, (l, h))
    | inr e ↦ rw e (l, insert-NotOf r routes k h)
  ]

  sort-NotOf : (routes : List Route) → NotOf id routes → NotOf id (sort_routes before routes)
  sort-NotOf [] h = tt
  sort-NotOf (r ∷ routes) (k, h) =
      insert-NotOf r (sort_routes before routes) k (sort-NotOf routes h)

filter-NotOf :
    (id : ℕ) (p : Route → Bool) (routes : List Route)
    → Elsewhere id routes
    → NotOf id (filter (λ r. is_gmail r.provider && p r) routes)
filter-NotOf id p [] h = tt
filter-NotOf id p (r ∷ routes) (k, h) = elim (Bool-cases (is_gmail r.provider && p r)) [
  | inr e ↦ rw e (filter-NotOf id p routes h)
  | inl e ↦ rw e (λ q. ground (arith, k q), filter-NotOf id p routes h)
]

take-NotFor :
    (id limit : ℕ) (routes : List Route)
    → NotOf id routes
    → NotFor id (map to_due (take limit routes))
take-NotFor id zero routes h = tt
take-NotFor id (suc n) [] h = tt
take-NotFor id (suc n) (r ∷ routes) (k, h) = (k, take-NotFor id n routes h)

-- A mailbox of another provider than Gmail is neither renewed nor polled: no sweep finds it, at any
-- time and however long ago its subscription lapsed.
pub sweeps-miss_others :
    (t : Tables) (id now horizon_hours limit : ℕ)
    → Elsewhere id t.routes
    → NotFor id (find_due t now horizon_hours limit) × NotFor id (find_without_watch t limit)
unfolding find_due find_without_watch
sweeps-miss_others t id now horizon_hours limit h = (
  take-NotFor id limit _ (sort-NotOf _ id _ (filter-NotOf id _ t.routes h)),
  take-NotFor id limit _ (sort-NotOf _ id _ (filter-NotOf id _ t.routes h)),
)
