-- ===== src/Draft/Undone.antt =====
-- A draft that was taken back before a worker claimed it.
use whatsapp_email_assistant.Common.{
  ℕ, ◌≡◌, ◌∙◌, ◌≢◌, inl, inr, Bool, true, false, Option, none, some, List, [], ◌∷◌, arith,
  Option-cases, All,
}
use whatsapp_email_assistant.Draft.{
  Draft, Status, cancelled, ClaimedDraft, Db, Claim, gone, held, threw, cancel_if_queued,
  create_for_send,
}
use whatsapp_email_assistant.Draft.Send.{World, claim}
use whatsapp_email_assistant.Draft.Claims.{sends, deliver-Ends}
use whatsapp_email_assistant.Draft.Race.{
  System, Event, create, start, finish, cancel, crash, take_claim, step, run,
}
use whatsapp_email_assistant.Draft.Once.{
  SentOnce, Ends-frame, Claims, missed, took, claim-Claims, SettlesEach, idle, idle-run-SentOnce,
}

abbrev cancelled_status : Status → Bool
cancelled_status cancelled = true
cancelled_status _ = false

abbrev is_cancelled : Option Draft → Bool
is_cancelled none = false
is_cancelled (some row) = cancelled_status row.status

module _ (d : ℕ) where
  record TakenBack (s : System) : Type 0 where
    cancelled_row : is_cancelled (s.world.db.drafts d) ≡ true
    nothing_sent : sends d s.world ≡ 0
    unheld : (k u : ℕ) (c : ClaimedDraft) → s.workers k ≡ some (u, c) → c.id ≢ d

  take-TakenBack :
      (s : System) (worker user id : ℕ) (r : World × Claim)
      → TakenBack s
      → Claims s.world user id r
      → TakenBack (take_claim s worker user r)
  take-TakenBack s worker user id (w, gone) v (missed p q) = rw p v
  take-TakenBack s worker user id (w, threw x) v (missed p q) = rw p v
  take-TakenBack s worker user id (w, held c) v (missed p q) = ground arith
  take-TakenBack s worker user id (w, gone) v (took row c p q t i db o h) = ground arith
  take-TakenBack s worker user id (w, threw x) v (took row c p q t i db o h) = ground arith
  take-TakenBack s worker user id (w, held b) v (took row c p q t i db o h) = record {
    cancelled_row = ground (arith, v.cancelled_row);
    nothing_sent = ground (arith, v.nothing_sent);
    unheld = λ k u x e f. ground (arith, v.unheld k u x, v.cancelled_row);
  }

  step-TakenBack : (s : System) (e : Event) → TakenBack s → TakenBack (step s e)
  unfolding step cancel_if_queued create_for_send
  step-TakenBack s (create id now input) v = elim (Option-cases (s.world.db.drafts id)) [
    | inl p ↦
        rw (p, step)
          (record {
            cancelled_row = ground (arith, v.cancelled_row);
            nothing_sent = v.nothing_sent;
            unheld = v.unheld;
          })
    | inr (row, p) ↦ rw (p, step) v
  ]
  step-TakenBack s (start worker user id svc) v = elim (Option-cases (s.workers worker)) [
    | inl p ↦
        rw (p, step)
          (take-TakenBack s worker user id (claim svc s.world user id) v
            (claim-Claims svc s.world user id))
    | inr (busy, p) ↦ rw (p, step) v
  ]
  step-TakenBack s (finish worker svc) v = elim (Option-cases (s.workers worker)) [
    | inl p ↦ rw (p, step) v
    | inr ((user, c), p) ↦
        let (row_same, sends_same) =
          Ends-frame d (deliver-Ends svc s.world user c) (v.unheld worker user c p) in
        rw (p, step)
          (record {
            cancelled_row = rw row_same v.cancelled_row;
            nothing_sent = sends_same ∙ v.nothing_sent;
            unheld = λ k u x e f. ground (arith, v.unheld k u x);
          })
  ]
  step-TakenBack s (cancel user id) v = record {
    cancelled_row = ground (arith, v.cancelled_row);
    nothing_sent = v.nothing_sent;
    unheld = v.unheld;
  }
  step-TakenBack s (crash worker) v = record {
    cancelled_row = v.cancelled_row;
    nothing_sent = v.nothing_sent;
    unheld = λ k u x e f. ground (arith, v.unheld k u x);
  }

  run-TakenBack : (s : System) (es : List Event) → TakenBack s → TakenBack (run s es)
  unfolding run
  run-TakenBack s [] v = v
  run-TakenBack s (e ∷ es) v = run-TakenBack (step s e) es (step-TakenBack s e v)

  cancel-TakenBack :
      (s : System) (user : ℕ)
      → SentOnce d s
      → (cancel_if_queued s.world.db user d).1 ≡ true
      → TakenBack (step s (cancel user d))
  unfolding step cancel_if_queued
  cancel-TakenBack s user v h = record {
    cancelled_row = ground arith;
    nothing_sent = ground (arith, v.spent, v.once);
    unheld = λ k u x e f. ground (arith, v.holder k u x);
  }

-- Once a cancel has reported that it held the draft back, no provider ever takes it, whatever the
-- workers and the remaining jobs do afterwards. Until then neither a send whose email arrives nor
-- its confirmation by Meta fails in a way that asks for another attempt.
pub cancelled_never_sent :
    (d user : ℕ) (db : Db) (before after : List Event)
    → All SettlesEach before
    → (cancel_if_queued (run (idle db) before).world.db user d).1 ≡ true
    → sends d (run (step (run (idle db) before) (cancel user d)) after).world ≡ 0
cancelled_never_sent d user db before after k h =
    (run-TakenBack d _ after (
      cancel-TakenBack d (run (idle db) before) user (idle-run-SentOnce d db before k)
        h)).nothing_sent
