-- ===== src/Session/OneLive.antt =====
-- A family never has two usable tokens, in any interleaving of refreshes.
use whatsapp_email_assistant.Common.{
  ℕ, ◌≡◌, sym, ◌∙◌, Bool, true, false, arith, if◌then◌else◌, ℕ_discrete,
}
use whatsapp_email_assistant.Session.{Session, Store, issue, create}
use whatsapp_email_assistant.Session.Race.{idle, reading, issuing, System, mark, at, is_row}
use whatsapp_email_assistant.Session.Narrows.{
  in_family, is_live, Narrows, in_family_unique, Finishes, won, lost, in_family-is_row,
}

module _ (F : ℕ) where
  -- What holds of family `F` between two steps.
  pub record OneLive (s : System) : Type 0 where
    pub alone :
        (i j : ℕ)
        → s.given i ≡ true
        → s.given j ≡ true
        → in_family F (s.store.rows i) ≡ true
        → in_family F (s.store.rows j) ≡ true
        → is_live (s.store.rows i) ≡ true
        → is_live (s.store.rows j) ≡ true
        → i ≡ j
    pub known : (k : ℕ) → in_family F (s.store.rows k) ≡ true → s.families F ≡ true
    pub real : (k : ℕ) → s.given k ≡ true → is_row (s.store.rows k) ≡ true
    pub reads :
        (k sid : ℕ) (r : Session)
        → s.stage k ≡ reading sid r
        → (s.given sid ≡ true) × (in_family r.family_id (s.store.rows sid) ≡ true)
    pub issues :
        (k sid id : ℕ) (r : Session)
        → s.stage k ≡ issuing sid r id
        → (s.given sid ≡ true)
          × (s.given id ≡ false)
          × (in_family r.family_id (s.store.rows sid) ≡ true)
          × (in_family r.family_id (s.store.rows id) ≡ true)
    pub apart :
        (j k a b id : ℕ) (p q : Session)
        → s.stage j ≡ issuing a p id
        → s.stage k ≡ issuing b q id
        → j ≡ k

  pub narrow-OneLive :
      (s : System) (t : Store) → OneLive s → Narrows s.store t → OneLive (record s { store = t })
  narrow-OneLive s t v n = record {
    alone = λ i j gi gj fi fj li lj. ground (
      arith,
      v.alone i j,
      n.family_same F i,
      n.family_same F j,
      n.none_revived i,
      n.none_revived j,
    );
    known = λ k h. ground (arith, v.known k, n.family_same F k);
    real = λ k h. ground (arith, v.real k, n.rows_same k);
    reads = λ k sid r e. ground (arith, v.reads k sid r e, n.family_same r.family_id sid);
    issues = λ k sid id r e.
        ground (
          arith,
          v.issues k sid id r e,
          n.family_same r.family_id sid,
          n.family_same r.family_id id,
        );
    apart = v.apart;
  }

module _ (F : ℕ) where
  -- The winner's own token was the family's one usable token.
  no_other :
      (s : System) (worker sid id j : ℕ) (r : Session) (t : Store)
      → OneLive F s
      → s.stage worker ≡ issuing sid r id
      → Narrows s.store t
      → is_live (s.store.rows sid) ≡ true
      → is_live (t.rows sid) ≡ false
      → in_family F (t.rows id) ≡ true
      → s.given j ≡ true
      → in_family F (t.rows j) ≡ true
      → is_live (t.rows j) ≡ true
      → ⊥
  no_other s worker sid id j r t v e n was isnt fid gj fj lj =
      let (given_sid, _, fam_sid, fam_id) = v.issues worker sid id r e in
      let own : r.family_id ≡ F =
        in_family_unique r.family_id F (s.store.rows id) fam_id (sym (n.family_same F id) ∙ fid) in
      let same : j ≡ sid =
        v.alone j sid gj given_sid (sym (n.family_same F j) ∙ fj) (rw own at fam_sid)
          (n.none_revived j lj) was in
      ground arith

  pub settle-OneLive :
      (s : System) (worker now sid id : ℕ) (r : Session) (t : Store) (b : Bool)
      → OneLive F s
      → s.stage worker ≡ issuing sid r id
      → Finishes s.store sid r t b
      → OneLive F (record s {
        store = t;
        stage = at worker idle s.stage;
        given = if b then mark id s.given else s.given;
      })
  settle-OneLive s worker now sid id r t true v e (won n was isnt) = record {
    alone = λ i j gi gj fi fj li lj. elim (ℕ_discrete id i) [
      | yes p ↦ elim (ℕ_discrete id j) [
        | yes q ↦ sym p ∙ q
        | no q ↦
            absurd (no_other s worker sid id j r t v e n was isnt (rw p fi) (ground arith) fj lj)
      ]
      | no p ↦ elim (ℕ_discrete id j) [
        | yes q ↦
            absurd (no_other s worker sid id i r t v e n was isnt (rw q fj) (ground arith) fi li)
        | no q ↦ ground (
          arith,
          v.alone i j,
          n.family_same F i,
          n.family_same F j,
          n.none_revived i,
          n.none_revived j,
        )
      ]
    ];
    known = λ k h. ground (arith, v.known k, n.family_same F k);
    real = λ k h. ground (
      arith,
      v.real k,
      v.issues worker sid id r e,
      n.rows_same k,
      n.rows_same id,
      in_family-is_row r.family_id (s.store.rows id),
    );
    reads = λ k a q h. ground (arith, v.reads k a q, n.family_same q.family_id a);
    issues = λ k a b q h. ground (
      arith,
      v.issues k a b q,
      v.apart k worker a sid b q r,
      n.family_same q.family_id a,
      n.family_same q.family_id b,
    );
    apart = λ j k a b i p q g h. ground (arith, v.apart j k a b i p q);
  }
  settle-OneLive s worker now sid id r t false v e (lost n) = record {
    alone = λ i j gi gj fi fj li lj. ground (
      arith,
      v.alone i j,
      n.family_same F i,
      n.family_same F j,
      n.none_revived i,
      n.none_revived j,
    );
    known = λ k h. ground (arith, v.known k, n.family_same F k);
    real = λ k h. ground (arith, v.real k, n.rows_same k);
    reads = λ k a q h. ground (arith, v.reads k a q, n.family_same q.family_id a);
    issues = λ k a b q h.
        ground (arith, v.issues k a b q, n.family_same q.family_id a, n.family_same q.family_id b);
    apart = λ j k a b i p q g h. ground (arith, v.apart j k a b i p q);
  }

  pub replace-OneLive :
      (s : System) (worker ttl now id hash sid : ℕ) (r : Session)
      → OneLive F s
      → s.stage worker ≡ reading sid r
      → is_row (s.store.rows id) ≡ false
      → OneLive F (record s {
        store = (issue s.store r.user_id r.family_id r.mfa_satisfied_at ttl now id hash).0;
        stage = at worker (issuing sid r id) s.stage;
      })
  unfolding issue
  replace-OneLive s worker ttl now id hash sid r v e fresh = record {
    alone = λ i j gi gj fi fj li lj. ground (arith, v.alone i j, v.real i, v.real j);
    known = λ k h. ground (arith, v.known k, v.known sid, v.reads worker sid r e);
    real = λ k h. ground (arith, v.real k);
    reads = λ k a q h. ground (arith, v.reads k a q, v.real a);
    issues = λ k a b q h. ground (
      arith,
      v.issues k a b q,
      v.reads worker sid r e,
      v.real id,
      v.real a,
      in_family-is_row q.family_id (s.store.rows b),
    );
    apart = λ j k a b i p q g h. ground (
      arith,
      v.apart j k a b i p q,
      v.issues j a i p,
      v.issues k b i q,
      in_family-is_row p.family_id (s.store.rows i),
      in_family-is_row q.family_id (s.store.rows i),
    );
  }

  pub login-OneLive :
      (s : System) (user family ttl now id hash : ℕ)
      → OneLive F s
      → s.families family ≡ false
      → is_row (s.store.rows id) ≡ false
      → OneLive F (record s {
        store = (create s.store user family ttl now id hash).0;
        given = mark id s.given;
        families = mark family s.families;
      })
  unfolding create issue
  login-OneLive s user family ttl now id hash v unused fresh = record {
    alone = λ i j gi gj fi fj li lj. ground (arith, v.alone i j, v.known i, v.known j);
    known = λ k h. ground (arith, v.known k);
    real = λ k h. ground (arith, v.real k);
    reads = λ k a q h. ground (arith, v.reads k a q, v.real a);
    issues = λ k a b q h.
        ground (arith, v.issues k a b q, v.real a, in_family-is_row q.family_id (s.store.rows b));
    apart = v.apart;
  }

  pub present-OneLive :
      (s : System) (worker id : ℕ) (r : Session)
      → OneLive F s
      → s.given id ≡ true
      → in_family r.family_id (s.store.rows id) ≡ true
      → OneLive F (record s { stage = at worker (reading id r) s.stage })
  present-OneLive s worker id r v g f = record {
    alone = v.alone;
    known = v.known;
    real = v.real;
    reads = λ k a q h. ground (arith, v.reads k a q);
    issues = λ k a b q h. ground (arith, v.issues k a b q);
    apart = λ j k a b i p q e h. ground (arith, v.apart j k a b i p q);
  }

  pub crash-OneLive :
      (s : System) (worker : ℕ)
      → OneLive F s
      → OneLive F (record s { stage = at worker idle s.stage })
  crash-OneLive s worker v = record {
    alone = v.alone;
    known = v.known;
    real = v.real;
    reads = λ k a q h. ground (arith, v.reads k a q);
    issues = λ k a b q h. ground (arith, v.issues k a b q);
    apart = λ j k a b i p q e h. ground (arith, v.apart j k a b i p q);
  }
