-- ===== src/Session/Rotation.antt =====
-- One rotation, undisturbed, and what becomes of a token that is presented again.
use whatsapp_email_assistant.Common.{ℕ, ◌+◌, ◌<◌, ◌≡◌, ◌≢◌, ◌⊎◌, false, none, some, ◌∷◌, arith}
use whatsapp_email_assistant.Session.{
  Session, Store, issued, refused, rejected, rotate, find_by_hash,
}

abbrev pub IsSpent : Session → Type 0
IsSpent r = (r.replaced_by_id ≢ none) ⊎ (r.revoked_at ≢ none)

module _ (s : Store) (hash ttl now new_id new_hash id : ℕ) (r : Session) where
  -- Presenting a token that was rotated or revoked before is refused, issues nothing, and revokes
  -- every session of its family that was not revoked yet; the sessions of every other family stay as
  -- they are, and the detection is the newest entry of the audit trail.
  pub rotate-spent :
      find_by_hash s hash ≡ some (id, r)
      → IsSpent r
      → let (t, out) = rotate s hash ttl now new_id new_hash in
        (out ≡ refused rejected)
        × ((k : ℕ) (q : Session)
            → s.rows k ≡ some q
            → q.user_id ≡ r.user_id
            → q.family_id ≡ r.family_id
            → (q.revoked_at ≡ none → t.rows k ≡ some (record q { revoked_at = some now }))
              × (q.revoked_at ≢ none → t.rows k ≡ some q))
        × ((k : ℕ) (q : Session)
            → s.rows k ≡ some q
            → q.family_id ≢ r.family_id
            → t.rows k ≡ some q)
        × (t.audit
            ≡ record { user_id = r.user_id; family_id = r.family_id; concurrent = false } ∷ s.audit)
  unfolding rotate
  rotate-spent f p = (
    ground arith,
    λ k q e u g. (λ n. ground arith, λ n. ground arith),
    λ k q e g. ground arith,
    ground arith,
  )

  -- A token that is neither spent nor expired is exchanged for one of the same family and the same
  -- second factor, valid for the configured time. Its row then names its replacement, the row of the
  -- replacement is new and unused, and every other row stays as it is.
  pub rotate-fresh :
      find_by_hash s hash ≡ some (id, r)
      → r.replaced_by_id ≡ none
      → r.revoked_at ≡ none
      → now < r.expires_at
      → s.rows new_id ≡ none
      → let (t, out) = rotate s hash ttl now new_id new_hash in
        (out
          ≡ issued (record {
            session_id = new_id;
            family_id = r.family_id;
            expires_at = now + ttl;
            mfa_satisfied_at = r.mfa_satisfied_at;
          }))
        × (t.rows id ≡ some (record r { replaced_by_id = some new_id; last_used_at = some now }))
        × (find_by_hash t new_hash
            ≡ some (
              new_id,
              record {
                user_id = r.user_id;
                family_id = r.family_id;
                refresh_token_hash = new_hash;
                expires_at = now + ttl;
                revoked_at = none;
                replaced_by_id = none;
                mfa_satisfied_at = r.mfa_satisfied_at;
                last_used_at = none;
              },
            ))
        × ((k : ℕ) → k ≢ id → k ≢ new_id → t.rows k ≡ s.rows k)
  unfolding rotate
  rotate-fresh f p q l fresh = (ground arith, ground arith, ground arith, λ k a b. ground arith)
