-- ===== src/Sweeps.antt =====
-- The sweeps over all users of apps/worker/src/processors/sync.processor.ts: the loop that purge,
-- sweepReminders, sweepDigests and sweepEmbeddings share, with the query of
-- apps/worker/src/repositories/retention.repository.ts. What one user's turn does is a parameter
-- here, and so is what the rest of the system does to the tables in between.
pub mod Order
pub mod Pages
pub mod Turns
pub mod Purge
pub mod Digests
mod Tests
mod PurgeTests
use whatsapp_email_assistant.Common.{
  ℕ, zero, suc, ◌+◌, ◌-◌, ◌*◌, ◌/◌, ◌%◌, ◌^◌, ◌≤◌, ◌<◌, ◌≡◌, refl, sym, ap, ap₂, ◌∙◌, ◌≡⟨◌⟩◌, ◌∎,
  ◌≢◌, ◌↔◌, ◌⊎◌, inl, inr, Bool, true, false, not, ◌&&◌, ◌||◌, Option, none, some, List, [], ◌∷◌,
  ◌++◌, map, reverse, append_assoc, append-nil, arith, String, ltb, leb, ◌==◌, if◌then◌else◌,
  ==_iff, ==_refl, leb→le, ltb→lt, and→both, Bool-cases, Option-cases, length, take, drop,
  get_elem?, all, any, filter, find, count, length-append, count-append, all-append, length-filter,
  All, All-append, Text, codes, text_eq, text_eq_iff, text_eq_refl, mem_text, is_digit, is_upper,
  is_lower, is_alnum, is_space, trim, to_lower, starts_with, ends_with, ℕ_discrete, join, split,
  lacks, split-join, join-split, split-nonempty, split-before, split-lacks, to_upper, upper_code,
  trim_start, trim_end, lower_code,
}

-- `id: { gt: afterId }`, where there is an `afterId`.
abbrev pub is_after : Option ℕ → ℕ → Bool
is_after none id = true
is_after (some c) id = ltb c id

abbrev pub insert_id : ℕ → List ℕ → List ℕ
insert_id a [] = a ∷ []
insert_id a (b ∷ ids) = let rest = insert_id a ids in if ltb a b then a ∷ b ∷ ids else b ∷ rest

-- `orderBy: { id: 'asc' }`.
abbrev pub by_id : List ℕ → List ℕ
by_id [] = []
by_id (a ∷ ids) = insert_id a (by_id ids)

-- `users` is the table's primary key. findUsersNeedingBackfill is the same query on the users that
-- still need it.
unfoldable pub find_user_ids : List ℕ → ℕ → Option ℕ → List ℕ
find_user_ids users limit after_id = take limit (by_id (filter (is_after after_id) users))

-- `batch.at(-1)`, the cursor staying as it was for an empty batch.
abbrev pub last_or : Option ℕ → List ℕ → Option ℕ
last_or c [] = c
last_or c (a ∷ ids) = last_or (some a) ids

module _ {S : Type 0} (users : S → List ℕ) (turn : S → ℕ → S) (others : S → S) (limit : ℕ) where
  abbrev pub turns : S → List ℕ → S
  turns s [] = s
  turns s (id ∷ ids) = turns (turn s id) ids

  -- The loop, with fuel: the users whose turn came, in order, and the state it ends in. `others` is
  -- what happens between two pages.
  unfoldable pub sweep_users : ℕ → S → Option ℕ → Option (List ℕ × S)
  sweep_users zero s cursor = none
  sweep_users (suc fuel) s cursor = elim (find_user_ids (users s) limit cursor) [
    | [] ↦ some ([], s)
    | id ∷ ids ↦
        let rest = sweep_users fuel (others (turns s (id ∷ ids))) (last_or cursor (id ∷ ids)) in
        if ltb (length (id ∷ ids)) limit
        then some (id ∷ ids, turns s (id ∷ ids))
        else elim rest [ none ↦ none | some (seen, t) ↦ some ((id ∷ ids) ++ seen, t) ]
  ]
