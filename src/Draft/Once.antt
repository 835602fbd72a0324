-- ===== src/Draft/Once.antt =====
-- No draft is sent twice, in any interleaving, while nothing fails retryably once an email is out.
use whatsapp_email_assistant.Common.{
  ℕ, ◌≤◌, ◌≡◌, refl, ◌≢◌, ◌⊎◌, inl, inr, true, Option, none, some, List, [], ◌∷◌, arith,
  Option-cases, All, ℕ_discrete,
}
use whatsapp_email_assistant.AppError.{Thrown, Result-cases}
use whatsapp_email_assistant.Draft.{
  Draft, sending, queued, ClaimedDraft, Db, Claim, gone, held, threw, claim_for_sending,
  cancel_if_queued, create_for_send, mark_sent, mark_failed, queued_row, put, set_status, claimed,
}
use whatsapp_email_assistant.Draft.Send.{Services, World, deliver, claim}
use whatsapp_email_assistant.Draft.Claims.{
  sends, is_spent, is_sending_by, SettlesOnce, Ends, stranded, unsent, unheard, confirmed,
  unconfirmed, deliver-Ends,
}
use whatsapp_email_assistant.Draft.Race.{
  System, Event, create, start, finish, cancel, crash, assign, take_claim, step, run,
}

abbrev pub SettlesEach : Event → Type 0
SettlesEach (finish worker svc) = SettlesOnce svc
SettlesEach _ = Unit

module _ (d : ℕ) where
  -- Another draft's attempt leaves this one alone.
  pub Ends-frame :
      {svc : Services} {w v : World} {user : ℕ} {c : ClaimedDraft}
      → Ends svc w user c v
      → c.id ≢ d
      → (v.db.drafts d ≡ w.db.drafts d) × (sends d v ≡ sends d w)
  unfolding mark_sent mark_failed
  Ends-frame (stranded e p q) h = rw q (refl, refl)
  Ends-frame (unsent reason retryable p o) h = ground arith
  Ends-frame (unheard m reason retryable b p o) h = ground arith
  Ends-frame (confirmed m id p o) h = ground arith
  Ends-frame (unconfirmed m id reason retryable b p o) h = ground arith

  -- An attempt that holds the claim sends at most once, and then the draft is spent.
  Ends-own :
      {svc : Services} {w v : World} {user : ℕ} {c : ClaimedDraft}
      → Ends svc w user c v
      → c.id ≡ d
      → is_sending_by user (w.db.drafts d) ≡ true
      → sends d w ≡ 0
      → SettlesOnce svc
      → (sends d v ≤ 1) × (1 ≤ sends d v → is_spent (v.db.drafts d) ≡ true)
  unfolding mark_sent mark_failed
  Ends-own (stranded e p q) h i z k = ground arith
  Ends-own (unsent reason retryable p o) h i z k = ground arith
  Ends-own (unheard m reason retryable b p o) h i z k = ground (arith, b k.1)
  Ends-own (confirmed m id p o) h i z k = ground arith
  Ends-own (unconfirmed m id reason retryable b p o) h i z k = ground (arith, b k.0)

-- What one claim does: nothing, or it takes a queued row of the user to `sending`.
pub data Claims (w : World) (user id : ℕ) (r : World × Claim) : Type 0 where
  missed : r.0 ≡ w → (r.1 ≡ gone) ⊎ ((e : Thrown) × (r.1 ≡ threw e)) → Claims w user id r
  took :
      (row : Draft) (c : ClaimedDraft)
      → w.db.drafts id ≡ some row
      → row.user_id ≡ user
      → row.status ≡ queued
      → c.id ≡ id
      → r.0.db.drafts ≡ put id (set_status sending row) w.db.drafts
      → r.0.outbox ≡ w.outbox
      → r.1 ≡ held c
      → Claims w user id r

claim_row :
    (svc : Services) (w : World) (user id : ℕ) (row : Draft)
    → w.db.drafts id ≡ some row
    → row.user_id ≡ user
    → row.status ≡ queued
    → Claims w user id (claim svc w user id)
unfolding claim claim_for_sending
claim_row svc w user id row p q s = elim (Result-cases (svc.decrypt_body row.body_cipher)) [
  | inl (t, e) ↦
      took row (claimed w.db user id row t) p q s refl (ground arith) (ground arith) (ground arith)
  | inr (x, e) ↦ missed (ground arith) (inr (x, ground arith))
]

queued_row_inv :
    (user : ℕ) (o : Option Draft) (row : Draft)
    → queued_row user o ≡ some row
    → (o ≡ some row) × (row.user_id ≡ user) × (row.status ≡ queued)
unfolding queued_row
queued_row_inv user none row e = ground arith
queued_row_inv user (some r) row e = ground arith

pub claim-Claims :
    (svc : Services) (w : World) (user id : ℕ) → Claims w user id (claim svc w user id)
unfolding claim claim_for_sending
claim-Claims svc w user id = elim (Option-cases (queued_row user (w.db.drafts id))) [
  | inl e ↦ missed (ground arith) (inl (ground arith))
  | inr (row, e) ↦
      let (p, q, t) = queued_row_inv user (w.db.drafts id) row e in
      claim_row svc w user id row p q t
]

module _ (d : ℕ) where
  -- What holds of draft `d` between two steps: one send at most, and then it is spent; a claim on
  -- it is held by one worker, for the row's user, while the row is `sending` and nothing is sent.
  pub record SentOnce (s : System) : Type 0 where
    pub once : sends d s.world ≤ 1
    pub spent : 1 ≤ sends d s.world → is_spent (s.world.db.drafts d) ≡ true
    pub holder :
        (k u : ℕ) (c : ClaimedDraft)
        → s.workers k ≡ some (u, c)
        → c.id ≡ d
        → (is_sending_by u (s.world.db.drafts d) ≡ true) × (sends d s.world ≡ 0)
    pub alone :
        (j k u v : ℕ) (b c : ClaimedDraft)
        → s.workers j ≡ some (u, b)
        → s.workers k ≡ some (v, c)
        → b.id ≡ d
        → c.id ≡ d
        → j ≡ k

  take-SentOnce :
      (s : System) (worker user id : ℕ) (r : World × Claim)
      → SentOnce s
      → Claims s.world user id r
      → SentOnce (take_claim s worker user r)
  take-SentOnce s worker user id (w, gone) v (missed p q) = rw p v
  take-SentOnce s worker user id (w, threw x) v (missed p q) = rw p v
  take-SentOnce s worker user id (w, held c) v (missed p q) = ground arith
  take-SentOnce s worker user id (w, gone) v (took row c p q t i db o h) = ground arith
  take-SentOnce s worker user id (w, threw x) v (took row c p q t i db o h) = ground arith
  take-SentOnce s worker user id (w, held b) v (took row c p q t i db o h) = record {
    once = ground (arith, v.once);
    spent = λ n. ground (arith, v.spent, v.once);
    holder = λ k u x e f. ground (arith, v.holder k u x, v.spent);
    alone =
        λ j k u z x y e f g h'. ground (arith, v.alone j k u z x y, v.holder j u x, v.holder k z y);
  }

  release-SentOnce :
      (s : System) (worker user : ℕ) (c : ClaimedDraft) (svc : Services) (w : World)
      → SentOnce s
      → s.workers worker ≡ some (user, c)
      → Ends svc s.world user c w
      → SettlesOnce svc
      → SentOnce (record { world = w; workers = assign worker none s.workers })
  release-SentOnce s worker user c svc w v busy ends k = elim (ℕ_discrete c.id d) [
    | yes own ↦
        let (sending_, none_yet) = v.holder worker user c busy own in
        let (once', spent') = Ends-own d ends own sending_ none_yet k in
        record {
          once = once';
          spent = spent';
          holder = λ j u x e f. ground (arith, v.alone j worker u user x c);
          alone = λ i j u z x y e f g h. ground (arith, v.alone i j u z x y);
        }
    | no other ↦
        let (row_same, sends_same) = Ends-frame d ends other in
        record {
          once = ground (arith, v.once);
          spent = λ n. ground (arith, v.spent);
          holder = λ j u x e f. ground (arith, v.holder j u x);
          alone = λ i j u z x y e f g h. ground (arith, v.alone i j u z x y);
        }
  ]

  create-SentOnce :
      (s : System) (id now : ℕ) (input : Draft)
      → SentOnce s
      → s.world.db.drafts id ≡ none
      → SentOnce (record s {
        world = record (s.world) { db = (create_for_send s.world.db id now input).0 };
      })
  unfolding create_for_send
  create-SentOnce s id now input v p = record {
    once = v.once;
    spent = λ n. ground (arith, v.spent n);
    holder = λ j u x e f. ground (arith, v.holder j u x);
    alone = v.alone;
  }

  cancel-SentOnce :
      (s : System) (user id : ℕ)
      → SentOnce s
      → SentOnce
          (record s { world = record (s.world) { db = (cancel_if_queued s.world.db user id).0 } })
  unfolding cancel_if_queued
  cancel-SentOnce s user id v = record {
    once = v.once;
    spent = λ n. ground (arith, v.spent n);
    holder = λ j u x e f. ground (arith, v.holder j u x);
    alone = v.alone;
  }

  step-SentOnce : (s : System) (e : Event) → SentOnce s → SettlesEach e → SentOnce (step s e)
  unfolding step
  step-SentOnce s (create id now input) v k = elim (Option-cases (s.world.db.drafts id)) [
    | inl p ↦ rw (p, step) (create-SentOnce s id now input v p)
    | inr (row, p) ↦ rw (p, step) v
  ]
  step-SentOnce s (start worker user id svc) v k = elim (Option-cases (s.workers worker)) [
    | inl p ↦
        rw (p, step)
          (take-SentOnce s worker user id (claim svc s.world user id) v
            (claim-Claims svc s.world user id))
    | inr (busy, p) ↦ rw (p, step) v
  ]
  step-SentOnce s (finish worker svc) v k = elim (Option-cases (s.workers worker)) [
    | inl p ↦ rw (p, step) v
    | inr ((user, c), p) ↦
        rw (p, step)
          (release-SentOnce s worker user c svc (deliver svc s.world user c).0 v p
            (deliver-Ends svc s.world user c) k)
  ]
  step-SentOnce s (cancel user id) v k = cancel-SentOnce s user id v
  step-SentOnce s (crash worker) v k = record {
    once = v.once;
    spent = v.spent;
    holder = λ j u x e f. ground (arith, v.holder j u x);
    alone = λ i j u z x y e f g h. ground (arith, v.alone i j u z x y);
  }

  run-SentOnce :
      (s : System) (es : List Event) → SentOnce s → All SettlesEach es → SentOnce (run s es)
  unfolding run
  run-SentOnce s [] v k = v
  run-SentOnce s (e ∷ es) v (k, ks) = run-SentOnce (step s e) es (step-SentOnce s e v k) ks

-- A system in which nothing was sent yet and no worker is busy.
abbrev pub idle : Db → System
idle db = record {
  world = record { db = db; outbox = []; chat = []; reauth_required = [] };
  workers = λ _. none;
}

pub idle-run-SentOnce :
    (d : ℕ) (db : Db) (es : List Event) → All SettlesEach es → SentOnce d (run (idle db) es)
idle-run-SentOnce d db es k =
    run-SentOnce d (idle db) es
      (record {
        once = omega arith;
        spent = λ n. absurd (omega arith);
        holder = λ j u x e f. cc;
        alone = λ i j u z x y e f g h. cc;
      })
      k

-- However the workers interleave, and however often a job is delivered, retried, cancelled or cut
-- short, a provider takes at most one email of a draft, on two conditions: no send of a provider
-- fails in a way that asks for another attempt although the email arrives, and neither does Meta on
-- the message that confirms a sent email.
pub sent_at_most_once :
    (d : ℕ) (db : Db) (es : List Event) → All SettlesEach es → sends d (run (idle db) es).world ≤ 1
sent_at_most_once d db es k = (idle-run-SentOnce d db es k).once
