-- ===== src/Draft/Staging.antt =====
-- Files that the user sent into the chat, and the one draft that carries each.
use whatsapp_email_assistant.Common.{
  ℕ, ◌≤◌, ◌≡◌, refl, sym, ◌≢◌, Bool, not, ◌&&◌, some, List, [], ◌∷◌, map, arith, ◌==◌, length,
  filter, count, All,
}
use whatsapp_email_assistant.Draft.{
  StagedAttachment, Draft, Db, list_pending, is_pending, claim_for_draft, list_for_draft,
  discard_pending, create_for_send, carried_by,
}

-- The pending files of `user`, as draft `id` carries them once it has claimed them.
abbrev attach : ℕ → StagedAttachment → StagedAttachment
attach id f = record f { draft_id = some id }

abbrev as_carried : ℕ → List StagedAttachment → List StagedAttachment
as_carried id = map (attach id)

-- No file names draft `id` yet, as its id is fresh.
abbrev pub IsFresh : ℕ → List StagedAttachment → Type 0
IsFresh id = All λ f. f.draft_id ≢ some id

abbrev carries : ℕ → ℕ → StagedAttachment → Bool
carries user id f = (f.user_id == user) && carried_by f.draft_id id

list-claim :
    (user id now : ℕ) (l : List StagedAttachment)
    → IsFresh id l
    → filter (carries user id) (claim_for_draft user id now l)
      ≡ as_carried id (filter (is_pending user now) l)
unfolding claim_for_draft
list-claim user id now [] h = refl
list-claim user id now (f ∷ l) h = ground (arith, list-claim user id now l)

pending-claim :
    (user id now later : ℕ) (l : List StagedAttachment)
    → now ≤ later
    → filter (is_pending user later) (claim_for_draft user id now l) ≡ []
unfolding claim_for_draft
pending-claim user id now later [] h = refl
pending-claim user id now later (f ∷ l) h = ground (arith, pending-claim user id now later l)

others-claim :
    (user id now other d : ℕ) (l : List StagedAttachment)
    → d ≢ id
    → filter (carries other d) (claim_for_draft user id now l) ≡ filter (carries other d) l
unfolding claim_for_draft
others-claim user id now other d [] h = refl
others-claim user id now other d (f ∷ l) h = ground (arith, others-claim user id now other d l)

length-filter-count :
    (p : StagedAttachment → Bool) (l : List StagedAttachment) → length (filter p l) ≡ count p l
length-filter-count p [] = refl
length-filter-count p (f ∷ l) = ground (arith, length-filter-count p l)

-- A draft with a fresh id picks up exactly its user's pending files, in the order in which they were
-- sent, and reports their number; afterwards nothing is pending for this user any more, and what any
-- other draft carries is what it carried before.
pub create-claims_pending :
    (db : Db) (id now later : ℕ) (input : Draft)
    → IsFresh id db.staged
    → now ≤ later
    → let (db', n) = create_for_send db id now input in
      (list_for_draft db' input.user_id id ≡ as_carried id (list_pending db input.user_id now))
      × (n ≡ length (list_pending db input.user_id now))
      × (list_pending db' input.user_id later ≡ [])
      × ((other d : ℕ) → d ≢ id → list_for_draft db' other d ≡ list_for_draft db other d)
unfolding create_for_send list_for_draft list_pending
create-claims_pending db id now later input fresh le = (
  list-claim input.user_id id now db.staged fresh,
  sym (length-filter-count (is_pending input.user_id now) db.staged),
  pending-claim input.user_id id now later db.staged le,
  λ other d h. others-claim input.user_id id now other d db.staged h,
)

discard-kept :
    (user now other id : ℕ) (l : List StagedAttachment)
    → filter (carries other id) (filter (λ f. not (is_pending user now f)) l)
      ≡ filter (carries other id) l
discard-kept user now other id [] = refl
discard-kept user now other id (f ∷ l) = ground (arith, discard-kept user now other id l)

discard-gone :
    (user now : ℕ) (l : List StagedAttachment)
    → filter (is_pending user now) (filter (λ f. not (is_pending user now f)) l) ≡ []
discard-gone user now [] = refl
discard-gone user now (f ∷ l) = ground (arith, discard-gone user now l)

-- Dropping the pending files leaves none pending, counts those that were, and takes no file from any
-- draft.
pub discard_pending-exact :
    (db : Db) (user now : ℕ)
    → let (db', n) = discard_pending db user now in
      (list_pending db' user now ≡ [])
      × (n ≡ length (list_pending db user now))
      × ((other id : ℕ) → list_for_draft db' other id ≡ list_for_draft db other id)
unfolding discard_pending list_pending list_for_draft
discard_pending-exact db user now = (
  discard-gone user now db.staged,
  sym (length-filter-count (is_pending user now) db.staged),
  λ other id. discard-kept user now other id db.staged,
)
