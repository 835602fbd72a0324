-- ===== src/Sweeps/Tests.antt =====
-- A sweep in which a user arrives between two pages.
use whatsapp_email_assistant.Common.{
  ℕ, ◌/◌, ◌%◌, ◌<◌, ◌≡◌, refl, inl, inr, Bool, true, false, Option, none, some, List, [], ◌∷◌,
  arith, ltb, if◌then◌else◌, Bool-cases, map, Text, codes,
}
use whatsapp_email_assistant.Sweeps.{find_user_ids, sweep_users}
use whatsapp_email_assistant.Sweeps.Order.{mem, Distinct, Ascends}
use whatsapp_email_assistant.Window.{parse_hh_mm}
use whatsapp_email_assistant.Sweeps.Digests.{
  Parts, is_digest_due, due_at, local_minutes, is_same_local_day, parse_time,
}
use whatsapp_email_assistant.Sweeps.Pages.{sweep_users-ends}

-- Whether the newcomer has arrived, and whose turn came, the last one first.
record Log : Type 0 where
  arrived : Bool
  turns_had : List ℕ

abbrev users_of : Log → List ℕ
users_of s = if s.arrived then 5 ∷ 1 ∷ 4 ∷ 2 ∷ [] else 5 ∷ 1 ∷ 2 ∷ []

abbrev take_turn : Log → ℕ → Log
take_turn s u = record s { turns_had = u ∷ s.turns_had }

abbrev arrive : Log → Log
arrive s = record s { arrived = true }

abbrev quiet : Log
quiet = record { arrived = false; turns_had = [] }

two_pages :
    sweep_users users_of take_turn arrive 2 4 quiet none
    ≡ some (1 ∷ 2 ∷ 4 ∷ 5 ∷ [], record { arrived = true; turns_had = 5 ∷ 4 ∷ 2 ∷ 1 ∷ [] })
unfolding sweep_users find_user_ids
two_pages = refl

users_of-Distinct : (s : Log) → Distinct (users_of s)
users_of-Distinct s = elim (Bool-cases s.arrived) [
  | inl e ↦ rw e (refl, (refl, (refl, (refl, tt))))
  | inr e ↦ rw e (refl, (refl, (refl, tt)))
]

users_of-below : (s : Log) (u : ℕ) → mem u (users_of s) ≡ true → u < 6
users_of-below s u h = elim (Bool-cases s.arrived) [ inl e ↦ ground arith | inr e ↦ ground arith ]

sweep_users-ends_example :
    (seen : List ℕ) × (final : Log) × (sweep_users users_of take_turn arrive 2 8 quiet none
      ≡ some (seen, final))
    × Ascends none seen
    × ((u : ℕ) → ((t : Log) → mem u (users_of t) ≡ true) → mem u seen ≡ true)
sweep_users-ends_example =
    sweep_users-ends users_of take_turn arrive 2 6 users_of-Distinct users_of-below quiet
      (omega arith)

-- A zone in which an instant is a minute of the 24th of August, and nothing else is a time.
abbrev one_day : ℕ → Text → Option Parts
one_day at zone =
    if ltb at 1440
    then some (record { year = 2026; month = 8; day = 24; hour = at / 60; minute = at % 60 })
    else none

abbrev twice_a_day : List Text
twice_a_day = codes "08:00" ∷ codes "18:30" ∷ []

abbrev ticks : List ℕ
ticks = 470 ∷ 485 ∷ 500 ∷ 1100 ∷ 1115 ∷ 1130 ∷ []

-- After a digest on another day, and after one at 08:10.
due_ticks :
    (map (is_digest_due one_day twice_a_day (codes "UTC") (some 5000)) ticks
      ≡ false ∷ true ∷ true ∷ true ∷ true ∷ true ∷ [])
    × (map (is_digest_due one_day twice_a_day (codes "UTC") (some 490)) ticks
        ≡ false ∷ false ∷ false ∷ false ∷ true ∷ true ∷ [])
unfolding is_digest_due due_at local_minutes is_same_local_day parse_time parse_hh_mm
due_ticks = (refl, refl)
