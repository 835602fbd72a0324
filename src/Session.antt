-- ===== src/Session.antt =====
-- apps/api/src/auth/session.service.ts: refresh tokens, their rotation, and reuse detection. A
-- token's hash, ids and times are numbers; `hash_token` of @wea/crypto is applied before the calls
-- here. `forUser` lets a query see one user's rows only.
pub mod Rotation
pub mod Race
pub mod Narrows
pub mod OneLive
pub mod Usable
mod Tests
use whatsapp_email_assistant.Common.{
  ℕ, zero, suc, ◌+◌, ◌-◌, ◌*◌, ◌/◌, ◌%◌, ◌≤◌, ◌<◌, ◌≡◌, refl, sym, ap, ap₂, ◌∙◌, ◌≡⟨◌⟩◌, ◌∎, ◌≢◌,
  ◌↔◌, ◌⊎◌, inl, inr, Bool, true, false, not, ◌&&◌, ◌||◌, Option, none, some, List, [], ◌∷◌, ◌++◌,
  map, reverse, append_assoc, append-nil, arith, String, ltb, leb, ◌==◌, if◌then◌else◌, ==_iff,
  ==_refl, leb→le, ltb→lt, and→both, Bool-cases, Option-cases, length, take, drop, get_elem?, all,
  any, filter, find, count, length-append, count-append, all-append, length-filter, All, All-append,
  Text, codes, text_eq, text_eq_iff, text_eq_refl, mem_text, is_digit, is_upper, is_lower, is_alnum,
  is_space, trim, to_lower, starts_with, ends_with, ℕ_discrete,
}
use whatsapp_email_assistant.AppError.{AppError, app_error, unauthenticated}

pub record Session : Type 0 where
  pub user_id : ℕ
  pub family_id : ℕ
  pub refresh_token_hash : ℕ
  pub expires_at : ℕ
  pub revoked_at : Option ℕ
  pub replaced_by_id : Option ℕ
  pub mfa_satisfied_at : Option ℕ
  pub last_used_at : Option ℕ

-- An entry of the audit trail: a reuse was detected in this family of this user.
pub record ReuseDetected : Type 0 where
  pub user_id : ℕ
  pub family_id : ℕ
  pub concurrent : Bool

-- `by_hash` is the unique index on the token's hash.
pub record Store : Type 0 where
  pub rows : ℕ → Option Session
  pub by_hash : ℕ → Option ℕ
  pub tokens_valid_from : ℕ → Option ℕ
  pub audit : List ReuseDetected

pub record IssuedSession : Type 0 where
  pub session_id : ℕ
  pub family_id : ℕ
  pub expires_at : ℕ
  pub mfa_satisfied_at : Option ℕ

abbrev pub is_unset : Option ℕ → Bool
is_unset none = true
is_unset (some _) = false

-- `where: { id, … }` and `where: { familyId, … }`: a write to the rows that pass a test.
abbrev pub update_many : (ℕ → Session → Bool) → (Session → Session) → Store → Store
update_many test f s = record s {
  rows = λ k. elim (s.rows k) [ none ↦ none | some r ↦ some (if test k r then f r else r) ];
}

abbrev revoked : ℕ → Session → Session
revoked now r = record r { revoked_at = some now }

unfoldable pub revoke_family : Store → ℕ → ℕ → ℕ → Store
revoke_family s user family now =
    update_many (λ _ r. (r.user_id == user) && (r.family_id == family) && is_unset r.revoked_at)
      (revoked now) s

unfoldable pub revoke : Store → ℕ → ℕ → ℕ → Store
revoke s user hash now =
    update_many
      (λ _ r. (r.user_id == user) && (r.refresh_token_hash == hash) && is_unset r.revoked_at)
      (revoked now) s

unfoldable pub revoke_all : Store → ℕ → ℕ → Store
revoke_all s user now =
    let s1 = update_many (λ _ r. (r.user_id == user) && is_unset r.revoked_at) (revoked now) s in
    record s1 { tokens_valid_from = λ u. if user == u then some now else s.tokens_valid_from u }

unfoldable pub mark_mfa_satisfied : Store → ℕ → ℕ → ℕ → Store
mark_mfa_satisfied s user session_id at =
    update_many (λ k r. (k == session_id) && (r.user_id == user) && is_unset r.revoked_at)
      (λ r. record r { mfa_satisfied_at = some at }) s

-- What `listActive` selects.
unfoldable pub is_active : ℕ → ℕ → Session → Bool
is_active user now r =
    (r.user_id == user)
    && is_unset r.revoked_at
    && is_unset r.replaced_by_id
    && ltb now r.expires_at

-- `issue`, with the fresh id and the hash of the fresh token.
unfoldable pub issue :
    Store → (user family : ℕ) → Option ℕ → (ttl now id hash : ℕ) → Store × IssuedSession
issue s user family mfa ttl now id hash = (
  record s {
    rows = λ k.
        if id == k
        then some (record {
          user_id = user;
          family_id = family;
          refresh_token_hash = hash;
          expires_at = now + ttl;
          revoked_at = none;
          replaced_by_id = none;
          mfa_satisfied_at = mfa;
          last_used_at = none;
        })
        else s.rows k;
    by_hash = λ h. if hash == h then some id else s.by_hash h;
  },
  record { session_id = id; family_id = family; expires_at = now + ttl; mfa_satisfied_at = mfa },
)

unfoldable pub create : Store → (user family ttl now id hash : ℕ) → Store × IssuedSession
create s user family ttl now id hash = issue s user family none ttl now id hash

-- `rejected`: one error for every reason.
abbrev pub rejected : AppError
rejected =
    app_error unauthenticated (some (codes "Your session has expired. Please sign in again."))
      (some false)

-- The row of a token's hash, with its id.
unfoldable pub find_by_hash : Store → ℕ → Option (ℕ × Session)
find_by_hash s hash = elim (s.by_hash hash) [
  | none ↦ none
  | some id ↦ elim (s.rows id) [ none ↦ none | some r ↦ some (id, r) ]
]

-- The part of `rotate` before anything is issued.
pub data Reading : Type 0 where
  unknown expired : Reading
  reused : Session → Reading
  rotatable : ℕ → Session → Reading

abbrev reading_of : ℕ → ℕ → Session → Reading
reading_of now id r =
    if not (is_unset r.replaced_by_id) || not (is_unset r.revoked_at)
    then reused r
    else if leb r.expires_at now
    then expired
    else rotatable id r

unfoldable pub read : Store → (hash now : ℕ) → Reading
unfolding find_by_hash
read s hash now = elim (find_by_hash s hash) [ none ↦ unknown | some (id, r) ↦ reading_of now id r ]

-- The family is revoked, and the detection goes into the audit trail.
unfoldable pub on_reuse : Store → Session → Bool → ℕ → Store
unfolding revoke_family
on_reuse s session concurrent now =
    let s1 = revoke_family s session.user_id session.family_id now in
    record s1 {
      audit =
          record {
            user_id = session.user_id;
            family_id = session.family_id;
            concurrent = concurrent;
          }
          ∷ s.audit;
    }

abbrev can_claim : Session → Session → Bool
can_claim session r =
    (r.user_id == session.user_id) && is_unset r.replaced_by_id && is_unset r.revoked_at

abbrev claims_row : Option Session → Session → Bool
claims_row none session = false
claims_row (some r) session = can_claim session r

-- The conditional write that marks the presented token as rotated; whether it changed a row.
unfoldable pub claim : Store → ℕ → Session → ℕ → ℕ → Store × Bool
claim s id session new_id now = (
  update_many (λ k r. (k == id) && can_claim session r)
      (λ r. record r { replaced_by_id = some new_id; last_used_at = some now }) s,
  claims_row (s.rows id) session,
)

-- The end of `rotate`, with what its conditional write came to.
unfoldable pub finish : Store → ℕ → Session → ℕ → ℕ → Store × Bool
unfolding claim on_reuse
finish s id session new_id now =
    let (s1, won) = claim s id session new_id now in
    if won then (s1, true) else (on_reuse s1 session true now, false)

pub data Rotated : Type 0 where
  issued : IssuedSession → Rotated
  refused : AppError → Rotated

abbrev after_reading : Store → (ttl now new_id new_hash : ℕ) → Reading → Store × Rotated
after_reading s ttl now new_id new_hash unknown = (s, refused rejected)
after_reading s ttl now new_id new_hash expired = (s, refused rejected)
after_reading s ttl now new_id new_hash (reused r) = (on_reuse s r false now, refused rejected)
after_reading s ttl now new_id new_hash (rotatable id r) =
    let (s1, new) = issue s r.user_id r.family_id r.mfa_satisfied_at ttl now new_id new_hash in
    let (s2, won) = finish s1 id r new_id now in (s2, if won then issued new else refused rejected)

-- `rotate`, undisturbed.
unfoldable pub rotate : Store → (hash ttl now new_id new_hash : ℕ) → Store × Rotated
unfolding read issue finish
rotate s hash ttl now new_id new_hash = after_reading s ttl now new_id new_hash (read s hash now)
