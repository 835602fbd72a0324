-- ===== src/Session/Race.antt =====
-- Logins, refreshes, sign-outs and crashes as interleaved steps. A refresh reads its row, issues a
-- replacement, and then writes conditionally; anything may happen between these.
use whatsapp_email_assistant.Common.{
  ℕ, Bool, true, false, ◌||◌, Option, none, some, List, [], ◌∷◌, ◌==◌, if◌then◌else◌,
}
use whatsapp_email_assistant.Session.{
  Session, Store, Reading, unknown, expired, reused, rotatable, read, issue, create, finish,
  on_reuse, revoke, revoke_family, revoke_all, mark_mfa_satisfied,
}

pub data Stage : Type 0 where
  idle : Stage
  reading : ℕ → Session → Stage
  issuing : ℕ → Session → ℕ → Stage

-- `given` says which sessions' tokens have left the service, and `families` which family ids are
-- in use. A token is presented only after it was given to somebody.
pub record System : Type 0 where
  pub store : Store
  pub stage : ℕ → Stage
  pub given : ℕ → Bool
  pub families : ℕ → Bool

pub data Event : Type 0 where
  login : (user family ttl now id hash : ℕ) → Event
  present : (worker hash now : ℕ) → Event
  replace : (worker ttl now id hash : ℕ) → Event
  settle : (worker now : ℕ) → Event
  sign_out : (user hash now : ℕ) → Event
  sign_out_family : (user family now : ℕ) → Event
  sign_out_everywhere : (user now : ℕ) → Event
  second_factor : (user session_id now : ℕ) → Event
  crash : (worker : ℕ) → Event

abbrev pub mark : ℕ → (ℕ → Bool) → ℕ → Bool
mark n f k = if n == k then true else f k

abbrev pub at : ℕ → Stage → (ℕ → Stage) → ℕ → Stage
at worker t f k = if worker == k then t else f k

abbrev pub is_row : Option Session → Bool
is_row none = false
is_row (some _) = true

abbrev pub presented : System → ℕ → ℕ → Reading → System
presented s worker now unknown = s
presented s worker now expired = s
presented s worker now (reused r) = record s { store = on_reuse s.store r false now }
presented s worker now (rotatable id r) =
    if s.given id then record s { stage = at worker (reading id r) s.stage } else s

-- A fresh id names no row.
abbrev pub replaced : System → (worker ttl now id hash : ℕ) → Stage → System
replaced s worker ttl now id hash (reading sid r) =
    if is_row (s.store.rows id) then s else record s {
      store = (issue s.store r.user_id r.family_id r.mfa_satisfied_at ttl now id hash).0;
      stage = at worker (issuing sid r id) s.stage;
    }
replaced s worker ttl now id hash _ = s

abbrev pub settled : System → (worker now : ℕ) → Stage → System
settled s worker now (issuing sid r id) =
    let (store', won) = finish s.store sid r id now in
    record s {
      store = store';
      stage = at worker idle s.stage;
      given = if won then mark id s.given else s.given;
    }
settled s worker now _ = s

abbrev pub logged_in : System → (user family ttl now id hash : ℕ) → System
logged_in s user family ttl now id hash =
    if s.families family || is_row (s.store.rows id) then s else record s {
      store = (create s.store user family ttl now id hash).0;
      given = mark id s.given;
      families = mark family s.families;
    }

unfoldable pub step : System → Event → System
step s (login user family ttl now id hash) = logged_in s user family ttl now id hash
step s (present worker hash now) = presented s worker now (read s.store hash now)
step s (replace worker ttl now id hash) = replaced s worker ttl now id hash (s.stage worker)
step s (settle worker now) = settled s worker now (s.stage worker)
step s (sign_out user hash now) = record s { store = revoke s.store user hash now }
step s (sign_out_family user family now) = record s {
  store = revoke_family s.store user family now;
}
step s (sign_out_everywhere user now) = record s { store = revoke_all s.store user now }
step s (second_factor user session_id now) = record s {
  store = mark_mfa_satisfied s.store user session_id now;
}
step s (crash worker) = record s { stage = at worker idle s.stage }

unfoldable pub run : System → List Event → System
run s [] = s
run s (e ∷ es) = run (step s e) es
