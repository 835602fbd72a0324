-- ===== src/Draft/Errors.antt =====
-- How an attempt that has not sent anything ends, and which files a sent email carries.
use whatsapp_email_assistant.Common.{
  ℕ, ◌≡◌, refl, ap, ◌≢◌, ◌⊎◌, inl, inr, true, false, not, some, List, [], ◌∷◌, ◌++◌, map, arith,
  if◌then◌else◌, filter, Text,
}
use whatsapp_email_assistant.AppError.{
  Thrown, known, ok, err, app_error_from, Result-cases, provider_unauthorized,
}
use whatsapp_email_assistant.Window.{is_window_open}
use whatsapp_email_assistant.Draft.{
  Draft, failed, queued, forward, ClaimedDraft, Db, mark_failed, list_for_draft, StagedAttachment,
}
use whatsapp_email_assistant.Draft.Send.{
  Services, World, delivered, undelivered, could_not_send, OutboundAttachment, RemoteAttachment,
  deliver, reply, on_error, collect_attachments, message_of, collect_remote, collect_staged,
  collect_from, forwarded_from, send_with,
}
use whatsapp_email_assistant.Draft.Claims.{on_error_frame}

-- Nothing can be sent: the files cannot be had, or the send fails and the message does not arrive.
abbrev pub Fails : Services → World → ℕ → ClaimedDraft → Thrown → Type 0
Fails svc w user c e =
    (svc.load_account c.account_id ≡ ok tt)
    × ((collect_attachments svc w.db user c ≡ err e)
        ⊎ ((files : List OutboundAttachment) × (collect_attachments svc w.db user c ≡ ok files)
            × (svc.send (message_of c files) ≡ err e)
            × (svc.arrives_unheard (message_of c files) ≡ false)))

module _ (svc : Services) (w : World) (user : ℕ) (c : ClaimedDraft) (e : Thrown) (row : Draft) where
  deliver_failing : Fails svc w user c e → deliver svc w user c ≡ on_error svc w user c e
  unfolding deliver
  deliver_failing (l, inl p) = rw (l, p, deliver)
  deliver_failing (l, inr (files, p, q, a)) = rw (l, p, send_with, q, a, deliver) refl

  -- An attempt that fails after its account is loaded and before the provider takes the email sends
  -- nothing and throws the error on. It leaves the draft `queued` if the error can be retried, and
  -- `failed` if not, with the error's public message as the reason; exactly an error that cannot be
  -- retried is told in the chat, while the window is open; and a lost consent marks the account.
  pub failed_attempt :
      Fails svc w user c e
      → w.db.drafts c.id ≡ some row
      → row.user_id ≡ user
      → let x = app_error_from e in
        let (v, r) = deliver svc w user c in
        (r ≡ err (known x))
        × (v.outbox ≡ w.outbox)
        × (v.db.drafts c.id
            ≡ some (record row {
              status = if x.retryable then queued else failed;
              failure_reason = some x.public_message;
            }))
        × (x.retryable ≡ true → v.chat ≡ w.chat)
        × (x.retryable ≡ false
            → is_window_open c.last_inbound_at svc.now ≡ true
            → (v.chat ≡ delivered (could_not_send x.public_message) ∷ w.chat)
              ⊎ (v.chat ≡ undelivered (could_not_send x.public_message) ∷ w.chat))
        × (x.code ≡ provider_unauthorized → v.reauth_required ≡ c.account_id ∷ w.reauth_required)
        × (x.code ≢ provider_unauthorized → v.reauth_required ≡ w.reauth_required)
  unfolding on_error reply mark_failed
  failed_attempt f p q = rw (deliver_failing f) (
    refl,
    (on_error_frame svc w user c e).1,
    ground (arith, on_error_frame svc w user c e),
    ground arith,
    ground arith,
    ground arith,
    ground arith,
  )

abbrev pub names : List OutboundAttachment → List Text
names = map λ a. a.filename

-- The names of the original's files that are not shown inline, and of the staged files.
abbrev pub wanted_remote : List RemoteAttachment → List Text
wanted_remote l = map (λ a. a.filename) (filter (λ a. not a.is_inline) l)

abbrev pub wanted_staged : List StagedAttachment → List Text
wanted_staged = map λ f. f.filename

collect_remote-names :
    (svc : Services) (o : ℕ) (l : List RemoteAttachment) (files : List OutboundAttachment)
    → collect_remote svc o l ≡ ok files
    → names files ≡ wanted_remote l
unfolding collect_remote
collect_remote-names svc o [] files e = ground arith
collect_remote-names svc o (a ∷ l) files e = elim (Result-cases (collect_remote svc o l)) [
  | inl (rest, p) ↦ ground (arith, collect_remote-names svc o l rest p)
  | inr (x, p) ↦ ground arith
]

collect_staged-names :
    (svc : Services) (l : List StagedAttachment) (files : List OutboundAttachment)
    → collect_staged svc l ≡ ok files
    → names files ≡ wanted_staged l
unfolding collect_staged
collect_staged-names svc [] files e = ground arith
collect_staged-names svc (f ∷ l) files e = elim (Result-cases (collect_staged svc l)) [
  | inl (rest, p) ↦ ground (arith, collect_staged-names svc l rest p)
  | inr (x, p) ↦ ground arith
]

names-append : (xs ys : List OutboundAttachment) → names (xs ++ ys) ≡ names xs ++ names ys
names-append [] ys = refl
names-append (x ∷ xs) ys = ap (◌∷◌ x.filename) (names-append xs ys)

-- A forward that gets as far as the provider carries every file of the original that is not shown
-- inline, then every file staged for the draft, in order: a file that cannot be fetched fails the
-- attempt instead.
pub forward_carries_every_file :
    (svc : Services) (db : Db) (user : ℕ) (c : ClaimedDraft) (m o : ℕ) (l : List RemoteAttachment)
    (files : List OutboundAttachment)
    → c.kind ≡ forward
    → c.in_reply_to_message_id ≡ some m
    → svc.find_for_forward m ≡ some o
    → svc.get_message o ≡ ok l
    → collect_attachments svc db user c ≡ ok files
    → names files ≡ wanted_remote l ++ wanted_staged (list_for_draft db user c.id)
unfolding collect_attachments forwarded_from collect_from
forward_carries_every_file svc db user c m o l files k r f g e =
    elim (Result-cases (collect_remote svc o l)) [
      | inr (x, p) ↦ ground arith
      | inl (remote, p) ↦ elim (Result-cases (collect_staged svc (list_for_draft db user c.id))) [
        | inr (x, q) ↦ ground arith
        | inl (local, q) ↦ ground (
          arith,
          collect_remote-names svc o l remote p,
          collect_staged-names svc (list_for_draft db user c.id) local q,
          names-append remote local,
        )
      ]
    ]
