-- ===== src/Draft/Race.antt =====
-- Send workers, undo and compose as interleaved steps. A worker first claims and later delivers, and
-- may stop in between; a job may be delivered to several workers, and any number of times.
use whatsapp_email_assistant.Common.{ℕ, Option, none, some, List, [], ◌∷◌, ◌==◌, if◌then◌else◌}
use whatsapp_email_assistant.Draft.{
  Draft, ClaimedDraft, Claim, held, cancel_if_queued, create_for_send,
}
use whatsapp_email_assistant.Draft.Send.{Services, World, deliver, claim}

-- The claim that each worker holds, with the user of its job.
pub record System : Type 0 where
  pub world : World
  pub workers : ℕ → Option (ℕ × ClaimedDraft)

pub data Event : Type 0 where
  create : (id now : ℕ) → Draft → Event
  start : (worker user id : ℕ) → Services → Event
  finish : (worker : ℕ) → Services → Event
  cancel : (user id : ℕ) → Event
  crash : (worker : ℕ) → Event

abbrev pub assign :
    ℕ → Option (ℕ × ClaimedDraft) → (ℕ → Option (ℕ × ClaimedDraft)) → ℕ → Option (ℕ × ClaimedDraft)
assign worker c ws k = if worker == k then c else ws k

abbrev pub take_claim : System → ℕ → ℕ → World × Claim → System
take_claim s worker user (w, held c) = record {
  world = w;
  workers = assign worker (some (user, c)) s.workers;
}
take_claim s worker user (w, _) = record s { world = w }

-- A fresh id names no row; a busy worker takes no second job.
unfoldable pub step : System → Event → System
step s (create id now input) = elim (s.world.db.drafts id) [
  | none ↦ record s {
    world = record (s.world) { db = (create_for_send s.world.db id now input).0 };
  }
  | some _ ↦ s
]
step s (start worker user id svc) = elim (s.workers worker) [
  | none ↦ take_claim s worker user (claim svc s.world user id)
  | some _ ↦ s
]
step s (finish worker svc) = elim (s.workers worker) [
  | none ↦ s
  | some (user, c) ↦ record {
    world = (deliver svc s.world user c).0;
    workers = assign worker none s.workers;
  }
]
step s (cancel user id) = record s {
  world = record (s.world) { db = (cancel_if_queued s.world.db user id).0 };
}
step s (crash worker) = record s { workers = assign worker none s.workers }

unfoldable pub run : System → List Event → System
run s [] = s
run s (e ∷ es) = run (step s e) es
