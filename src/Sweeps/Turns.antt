-- ===== src/Sweeps/Turns.antt =====
-- What the sweeps of apps/worker/src/processors/sync.processor.ts do for one user, with the queries of
-- apps/worker/src/repositories/retention.repository.ts and search.repository.ts. A job that is put
-- into a queue is given with what its id is made of.
use whatsapp_email_assistant.Common.{
  ℕ, suc, ◌+◌, ◌*◌, ◌/◌, Bool, true, false, not, ◌&&◌, Option, none, some, List, [], ◌∷◌, ◌++◌, map,
  ltb, leb, ◌==◌, if◌then◌else◌, take, any, filter, count, Text, codes,
}
use whatsapp_email_assistant.Sweeps.{find_user_ids}
use whatsapp_email_assistant.Sweeps.Digests.{Parts, is_digest_due}

-- `email_messages`, as far as the sweeps read them.
pub record StoredMessage : Type 0 where
  pub id : ℕ
  pub user_id : ℕ
  pub received_at : ℕ
  pub body_text_cipher : Option Text
  pub body_html_cipher : Option Text
  pub body_dek : Option Text
  pub body_key_version : Option Text
  pub body_purged_at : Option ℕ
  pub notify_deferred_at : Option ℕ
  pub is_archived : Bool
  pub is_spam : Bool
  pub deleted_at : Option ℕ
  pub has_embedding : Bool

abbrev pub is_null {ℓ} : {A : Type ℓ} → Option A → Bool
is_null none = true
is_null (some _) = false

abbrev pub is_stale : ℕ → ℕ → StoredMessage → Bool
is_stale user older_than m =
    (m.user_id == user)
    && (ltb m.received_at older_than
        && (is_null m.body_purged_at && not (is_null m.body_text_cipher)))

module _ (before : StoredMessage → StoredMessage → Bool) where
  abbrev pub insert_message : StoredMessage → List StoredMessage → List StoredMessage
  insert_message m [] = m ∷ []
  insert_message m (n ∷ ms) =
      let rest = insert_message m ms in if before m n then m ∷ n ∷ ms else n ∷ rest

  abbrev pub sort_messages : List StoredMessage → List StoredMessage
  sort_messages [] = []
  sort_messages (m ∷ ms) = insert_message m (sort_messages ms)

abbrev pub oldest_first : StoredMessage → StoredMessage → Bool
oldest_first m n = leb m.received_at n.received_at

abbrev pub newest_first : StoredMessage → StoredMessage → Bool
newest_first m n = leb n.received_at m.received_at

abbrev pub ids_of : List StoredMessage → List ℕ
ids_of ms = map (λ m. m.id) ms

abbrev pub erased : ℕ → StoredMessage → StoredMessage
erased now m = record m {
  body_text_cipher = none;
  body_html_cipher = none;
  body_dek = none;
  body_key_version = none;
  body_purged_at = some now;
}

abbrev pub is_in : ℕ → List ℕ → Bool
is_in a ids = any (λ b. a == b) ids

-- The ids of the stale messages of one pass.
abbrev pub stale_ids : List StoredMessage → ℕ → ℕ → ℕ → List ℕ
stale_ids ms user older_than limit =
    ids_of (take limit (sort_messages oldest_first (filter (is_stale user older_than) ms)))

unfoldable pub purge_bodies : List StoredMessage → ℕ → ℕ → ℕ → ℕ → List StoredMessage × ℕ
purge_bodies ms user older_than limit now =
    let ids = stale_ids ms user older_than limit in
    (
      map (λ m. if (m.user_id == user) && is_in m.id ids then erased now m else m) ms,
      count (λ m. (m.user_id == user) && is_in m.id ids) ms,
    )

abbrev pub purge_rows_per_user : ℕ
purge_rows_per_user = 1000

-- What purge has done so far: the messages, and how many bodies and users it has counted.
pub record Purged : Type 0 where
  pub messages : List StoredMessage
  pub bodies : ℕ
  pub users_seen : ℕ

unfoldable pub purge_turn : ℕ → ℕ → Purged → ℕ → Purged
purge_turn older_than now p user =
    let (ms, cleared) = purge_bodies p.messages user older_than purge_rows_per_user now in
    record { messages = ms; bodies = p.bodies + cleared; users_seen = suc p.users_seen }

pub record DigestCandidate : Type 0 where
  pub deferred : ℕ
  pub timezone : Text
  pub digest_times : List Text
  pub last_digest_at : Option ℕ

abbrev pub is_waiting : ℕ → StoredMessage → Bool
is_waiting user m =
    (m.user_id == user)
    && (not (is_null m.notify_deferred_at)
        && (not m.is_archived && (not m.is_spam && is_null m.deleted_at)))

abbrev pub or_else {ℓ} : {A : Type ℓ} → Option A → A → A
or_else none y = y
or_else (some x) y = x

-- The zone, the times and the last digest are those of the user's rows, where there are such.
unfoldable pub digest_candidate :
    List StoredMessage → ℕ → Option Text → Option (List Text) → Option ℕ → Option DigestCandidate
digest_candidate ms user zone times last =
    let waiting = count (is_waiting user) ms in
    if waiting == 0
    then none
    else some (record {
      deferred = waiting;
      timezone = or_else zone (codes "UTC");
      digest_times = or_else times [];
      last_digest_at = last;
    })

abbrev pub digest_sweep_interval_ms : ℕ
digest_sweep_interval_ms = 15 * 60000

-- The digest job of one user, with the number in its id, if one is queued.
unfoldable pub digest_turn :
    (ℕ → Text → Option Parts) → Option DigestCandidate → ℕ → ℕ → Option (ℕ × ℕ)
digest_turn format_in none user now = none
digest_turn format_in (some c) user now =
    if is_digest_due format_in c.digest_times c.timezone c.last_digest_at now
    then some (user, now / digest_sweep_interval_ms)
    else none

unfoldable pub find_unembedded : List StoredMessage → ℕ → ℕ → ℕ → List ℕ
find_unembedded ms user limit since = ids_of (
    take limit (
      sort_messages newest_first (
        filter
          (λ m.
            (m.user_id == user)
            && (is_null m.deleted_at && (leb since m.received_at && not m.has_embedding)))
          ms)))

-- A row of `users`, for the backfill.
pub record BackfillUser : Type 0 where
  pub owner_id : ℕ
  pub backfilled_at : Option ℕ
  pub removed_at : Option ℕ

unfoldable pub find_users_needing_backfill : List BackfillUser → ℕ → Option ℕ → List ℕ
find_users_needing_backfill users limit after_id =
    find_user_ids
      (map (λ u. u.owner_id) (filter (λ u. is_null u.backfilled_at && is_null u.removed_at) users))
      limit after_id

unfoldable pub mark_backfilled : List BackfillUser → ℕ → ℕ → List BackfillUser
mark_backfilled users user now =
    map (λ u. if u.owner_id == user then record u { backfilled_at = some now } else u) users

abbrev pub backfill_batch_per_user : ℕ
backfill_batch_per_user = 50

-- The users and the messages for which an embedding is queued.
unfoldable pub embedding_turn :
    Bool
    → List StoredMessage
    → ℕ
    → ℕ
    → List BackfillUser × List (ℕ × ℕ)
    → ℕ
    → List BackfillUser × List (ℕ × ℕ)
embedding_turn over_budget ms since now (users, queued) user =
    if over_budget
    then (users, queued)
    else elim (find_unembedded ms user backfill_batch_per_user since) [
      | [] ↦ (mark_backfilled users user now, queued)
      | m ∷ pending ↦ (users, queued ++ map (λ k. (user, k)) (m ∷ pending))
    ]
