-- ===== src/Session/Usable.antt =====
-- The steps of the race keep one usable token to a family; so does every run.
use whatsapp_email_assistant.Common.{
  ℕ, ◌≡◌, refl, sym, inl, inr, true, false, ◌||◌, none, some, List, [], ◌∷◌, arith, ==_iff, ==_refl,
  Bool-cases,
}
use whatsapp_email_assistant.Session.{
  Session, Store, Reading, unknown, expired, reused, rotatable, read, finish, on_reuse,
  find_by_hash,
}
use whatsapp_email_assistant.Session.Race.{
  Stage, idle, reading, issuing, System, Event, login, present, replace, settle, sign_out,
  sign_out_family, sign_out_everywhere, second_factor, crash, presented, replaced, settled,
  logged_in, step, run, is_row,
}
use whatsapp_email_assistant.Session.Narrows.{
  in_family, is_live, revoke-Narrows, revoke_family-Narrows, revoke_all-Narrows, mark_mfa-Narrows,
  on_reuse-Narrows, finish-Finishes,
}
use whatsapp_email_assistant.Session.OneLive.{
  OneLive, narrow-OneLive, settle-OneLive, replace-OneLive, login-OneLive, present-OneLive,
  crash-OneLive,
}

read-rotatable :
    (s : Store) (hash now id : ℕ) (r : Session)
    → read s hash now ≡ rotatable id r
    → in_family r.family_id (s.rows id) ≡ true
unfolding read find_by_hash
read-rotatable s hash now id r e = ground arith

module _ (F : ℕ) where
  presented-OneLive :
      (s : System) (worker now : ℕ) (x : Reading)
      → OneLive F s
      → ((id : ℕ) (r : Session)
          → x ≡ rotatable id r
          → in_family r.family_id (s.store.rows id) ≡ true)
      → OneLive F (presented s worker now x)
  presented-OneLive s worker now unknown v h = v
  presented-OneLive s worker now expired v h = v
  presented-OneLive s worker now (reused r) v h =
      narrow-OneLive F s (on_reuse s.store r false now) v (on_reuse-Narrows s.store r false now)
  presented-OneLive s worker now (rotatable id r) v h = elim (Bool-cases (s.given id)) [
    | inl g ↦ rw g (present-OneLive F s worker id r v g (h id r refl))
    | inr g ↦ rw g v
  ]

  replaced-OneLive :
      (s : System) (worker ttl now id hash : ℕ) (t : Stage)
      → s.stage worker ≡ t
      → OneLive F s
      → OneLive F (replaced s worker ttl now id hash t)
  replaced-OneLive s worker ttl now id hash (reading sid r) e v =
      elim (Bool-cases (is_row (s.store.rows id))) [
        | inl g ↦ rw g v
        | inr g ↦ rw g (replace-OneLive F s worker ttl now id hash sid r v e g)
      ]
  replaced-OneLive s worker ttl now id hash idle e v = v
  replaced-OneLive s worker ttl now id hash (issuing sid r n) e v = v

  settled-OneLive :
      (s : System) (worker now : ℕ) (t : Stage)
      → s.stage worker ≡ t
      → OneLive F s
      → OneLive F (settled s worker now t)
  settled-OneLive s worker now (issuing sid r id) e v =
      settle-OneLive F s worker now sid id r (finish s.store sid r id now).0
        (finish s.store sid r id now).1 v e (finish-Finishes s.store sid r id now)
  settled-OneLive s worker now idle e v = v
  settled-OneLive s worker now (reading sid r) e v = v

  logged_in-OneLive :
      (s : System) (user family ttl now id hash : ℕ)
      → OneLive F s
      → OneLive F (logged_in s user family ttl now id hash)
  logged_in-OneLive s user family ttl now id hash v =
      elim (Bool-cases (s.families family || is_row (s.store.rows id))) [
        | inl g ↦ rw g v
        | inr g ↦
            rw g (login-OneLive F s user family ttl now id hash v (ground arith) (ground arith))
      ]

  step-OneLive : (s : System) (e : Event) → OneLive F s → OneLive F (step s e)
  unfolding step
  step-OneLive s (login user family ttl now id hash) v =
      logged_in-OneLive s user family ttl now id hash v
  step-OneLive s (present worker hash now) v =
      presented-OneLive s worker now (read s.store hash now) v (read-rotatable s.store hash now)
  step-OneLive s (replace worker ttl now id hash) v =
      replaced-OneLive s worker ttl now id hash (s.stage worker) refl v
  step-OneLive s (settle worker now) v = settled-OneLive s worker now (s.stage worker) refl v
  step-OneLive s (sign_out user hash now) v =
      narrow-OneLive F s _ v (revoke-Narrows s.store user hash now)
  step-OneLive s (sign_out_family user family now) v =
      narrow-OneLive F s _ v (revoke_family-Narrows s.store user family now)
  step-OneLive s (sign_out_everywhere user now) v =
      narrow-OneLive F s _ v (revoke_all-Narrows s.store user now)
  step-OneLive s (second_factor user sid now) v =
      narrow-OneLive F s _ v (mark_mfa-Narrows s.store user sid now)
  step-OneLive s (crash worker) v = crash-OneLive F s worker v

  run-OneLive : (s : System) (es : List Event) → OneLive F s → OneLive F (run s es)
  unfolding run
  run-OneLive s [] v = v
  run-OneLive s (e ∷ es) v = run-OneLive (step s e) es (step-OneLive s e v)

abbrev pub no_sessions : System
no_sessions = record {
  store = record {
    rows = λ _. none;
    by_hash = λ _. none;
    tokens_valid_from = λ _. none;
    audit = [];
  };
  stage = λ _. idle;
  given = λ _. false;
  families = λ _. false;
}

-- However refreshes, logins, sign-outs and crashes interleave, two sessions of one family whose tokens
-- were both given out, and which are neither revoked nor replaced, are one and the same session.
pub one_usable_token :
    (es : List Event) (i j : ℕ) (r q : Session)
    → (run no_sessions es).given i ≡ true
    → (run no_sessions es).given j ≡ true
    → (run no_sessions es).store.rows i ≡ some r
    → (run no_sessions es).store.rows j ≡ some q
    → r.family_id ≡ q.family_id
    → is_live (some r) ≡ true
    → is_live (some q) ≡ true
    → i ≡ j
one_usable_token es i j r q gi gj ri rj f lr lq =
    v.alone i j gi gj (rw ri (==_refl r.family_id))
      (rw rj ((==_iff q.family_id r.family_id).1 (sym f))) (rw ri lr) (rw rj lq)
  where
    v : OneLive r.family_id (run no_sessions es)
    v = run-OneLive r.family_id no_sessions es (record {
      alone = λ i j gi gj fi fj li lj. cc;
      known = λ k h. cc;
      real = λ k h. cc;
      reads = λ k a q h. cc;
      issues = λ k a b q h. cc;
      apart = λ j k a b i p q e h. cc;
    })
