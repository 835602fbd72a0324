-- ===== src/Session/Narrows.antt =====
-- Writes that keep every row in its family and revive none: all of the session service but a new
-- row. The end of a refresh wins its row or revokes the family.
use whatsapp_email_assistant.Common.{
  ℕ, ◌≡◌, refl, ◌∙◌, inl, inr, Bool, true, false, ◌&&◌, Option, none, some, arith, ◌==◌, Bool-cases,
}
use whatsapp_email_assistant.Session.{
  Session, Store, finish, on_reuse, revoke, revoke_family, revoke_all, mark_mfa_satisfied, is_unset,
  claim,
}
use whatsapp_email_assistant.Session.Race.{is_row}

abbrev pub in_family : ℕ → Option Session → Bool
in_family f none = false
in_family f (some r) = r.family_id == f

-- A row whose token still works, but for its expiry.
abbrev pub is_live : Option Session → Bool
is_live none = false
is_live (some r) = is_unset r.revoked_at && is_unset r.replaced_by_id

-- A write that keeps every row in its family, and revives none.
pub record Narrows (s t : Store) : Type 0 where
  pub family_same : (f k : ℕ) → in_family f (t.rows k) ≡ in_family f (s.rows k)
  pub rows_same : (k : ℕ) → is_row (t.rows k) ≡ is_row (s.rows k)
  pub none_revived : (k : ℕ) → is_live (t.rows k) ≡ true → is_live (s.rows k) ≡ true

pub revoke-Narrows : (s : Store) (user hash now : ℕ) → Narrows s (revoke s user hash now)
unfolding revoke
revoke-Narrows s user hash now = record {
  family_same = λ f k. ground arith;
  rows_same = λ k. ground arith;
  none_revived = λ k h. ground arith;
}

pub revoke_family-Narrows :
    (s : Store) (user family now : ℕ) → Narrows s (revoke_family s user family now)
unfolding revoke_family
revoke_family-Narrows s user family now = record {
  family_same = λ f k. ground arith;
  rows_same = λ k. ground arith;
  none_revived = λ k h. ground arith;
}

pub revoke_all-Narrows : (s : Store) (user now : ℕ) → Narrows s (revoke_all s user now)
unfolding revoke_all
revoke_all-Narrows s user now = record {
  family_same = λ f k. ground arith;
  rows_same = λ k. ground arith;
  none_revived = λ k h. ground arith;
}

pub mark_mfa-Narrows : (s : Store) (user id now : ℕ) → Narrows s (mark_mfa_satisfied s user id now)
unfolding mark_mfa_satisfied
mark_mfa-Narrows s user id now = record {
  family_same = λ f k. ground arith;
  rows_same = λ k. ground arith;
  none_revived = λ k h. ground arith;
}

pub on_reuse-Narrows :
    (s : Store) (r : Session) (c : Bool) (now : ℕ) → Narrows s (on_reuse s r c now)
unfolding on_reuse
on_reuse-Narrows s r c now =
    let n = revoke_family-Narrows s r.user_id r.family_id now in
    record { family_same = n.family_same; rows_same = n.rows_same; none_revived = n.none_revived }

pub claim-Narrows :
    (s : Store) (id : ℕ) (r : Session) (new now : ℕ) → Narrows s (claim s id r new now).0
unfolding claim
claim-Narrows s id r new now = record {
  family_same = λ f k. ground arith;
  rows_same = λ k. ground arith;
  none_revived = λ k h. ground arith;
}

pub Narrows-trans : {s t u : Store} → Narrows s t → Narrows t u → Narrows s u
Narrows-trans a b = record {
  family_same = λ f k. b.family_same f k ∙ a.family_same f k;
  rows_same = λ k. b.rows_same k ∙ a.rows_same k;
  none_revived = λ k h. a.none_revived k (b.none_revived k h);
}

pub in_family_unique :
    (f g : ℕ) (o : Option Session) → in_family f o ≡ true → in_family g o ≡ true → f ≡ g
in_family_unique f g none p q = cc
in_family_unique f g (some r) p q = ground arith

-- What the last part of a refresh does: it wins the row and uses it up, or it revokes the family.
pub data Finishes (s : Store) (sid : ℕ) (r : Session) (t : Store) : Bool → Type 0 where
  won :
      Narrows s t
      → is_live (s.rows sid) ≡ true
      → is_live (t.rows sid) ≡ false
      → Finishes s sid r t true
  lost : Narrows s t → Finishes s sid r t false

pub finish-Finishes :
    (s : Store) (sid : ℕ) (r : Session) (id now : ℕ)
    → Finishes s sid r (finish s sid r id now).0 (finish s sid r id now).1
unfolding finish
finish-Finishes s sid r id now = elim (Bool-cases (claim s sid r id now).1) [
  | inl w ↦ rw (w, finish) (won (claim-Narrows s sid r id now) (used w).0 (used w).1)
  | inr l ↦
      rw (l, finish)
        (lost (
          Narrows-trans (claim-Narrows s sid r id now)
            (on_reuse-Narrows (claim s sid r id now).0 r true now)))
]
  where
    used :
        (claim s sid r id now).1 ≡ true
        → (is_live (s.rows sid) ≡ true) × (is_live ((claim s sid r id now).0.rows sid) ≡ false)
    used w = unfold claim in ground arith

pub in_family-is_row : (f : ℕ) (o : Option Session) → in_family f o ≡ true → is_row o ≡ true
in_family-is_row f none p = cc
in_family-is_row f (some r) p = refl
