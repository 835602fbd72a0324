-- ===== src/Lib.antt =====
-- The WhatsApp email assistant reads a user's mailboxes and lets the user answer from WhatsApp. An
-- API takes sign-ins and webhooks, a worker runs the jobs that these put into queues, and packages
-- hold what both share. This library models the parts that decide whether an email is sent, once and
-- only if it should be, and who may act.
--
-- * AppError (packages/shared/src/errors/app-error.ts): the error codes, their status, whether a job
--   is tried again, and `Result`, the outcome of a call that may throw.
-- * Window (packages/whatsapp/src/session-window.ts): WhatsApp's window of 24 hours and the policy on
--   notifications. Window/Laws is about the window and the policy, Window/Quiet about quiet hours.
-- * Draft (apps/worker/src/repositories/draft.repository.ts and staged-attachment.repository.ts): the
--   rows of drafts and staged files with their conditional writes. Draft/Send is the send worker
--   (apps/worker/src/processors/send.processor.ts), the reply in the chat
--   (apps/worker/src/services/outbound.service.ts) and the retries of a job
--   (apps/worker/src/processors/base.processor.ts). Draft/Race runs several workers as steps on the
--   shared rows; Draft/Claims, Draft/Once and Draft/Undone are about every order of steps.
--   Draft/Errors, Draft/Faults and Draft/Unheard are about failing attempts, Draft/Eventually about
--   the retries of a job, Draft/Staging about files.
-- * Session (apps/api/src/auth/session.service.ts): refresh tokens. Session/Rotation is about a
--   rotation that nothing disturbs, Session/Race cuts it at its database calls, and
--   Session/Narrows, Session/OneLive and Session/Usable are about every order of steps.
-- * Undo (apps/worker/src/services/undo.service.ts, and the slot of the last action in
--   apps/worker/src/repositories/inbox.repository.ts): it calls `cancel_if_queued` of Draft, which
--   competes with the claim of the send worker. Undo/Taps is the table of button presses
--   (apps/worker/src/services/tap-interpreter.ts), which yields the operations that Undo inverts.
-- * ActionPayload (packages/shared/src/utils/action-payload.ts): the ids of these buttons.
-- * JobKey (packages/shared/src/utils/job-key.ts): the ids of queue jobs, which deduplicate them.
-- * Threading (packages/mail/src/threading.ts): the headers and recipients of a reply.
-- * Recipients (packages/mail/src/recipients.ts): reading the addresses that an email is to go to.
--   Recipients/Address and Recipients/Lower are about one address, Recipients/Clean about what is
--   accepted, Recipients/Again and Recipients/Roundtrip about reading it again.
-- * RateLimit (apps/api/src/common/rate-limit.ts): requests counted in windows of a minute, over a
--   Redis that is a parameter.
-- * Phone (packages/shared/src/utils/phone.ts): phone numbers. Phone/Verification is
--   apps/api/src/auth/phone-verification.service.ts with redeemPhoneCode of
--   apps/worker/src/repositories/inbox.repository.ts, which link a number to an account;
--   Phone/Canonical is about the form of a number, Phone/Proof about who can link one.
-- * OauthState (apps/api/src/oauth/oauth-state.ts): the signed state of a consent flow, and the path
--   the user is sent to afterwards. OauthState/Laws is about both.
-- * Totp (packages/crypto/src/totp.ts): one-time passwords and base32, over a digest that is a
--   parameter. Totp/Window is about what a code has to be.
-- * TwoFactor (apps/api/src/auth/two-factor.service.ts, and matchRecoveryCode of
--   packages/crypto/src/passwords.ts): the second factor of a sign-in, which marks the session of
--   Session. TwoFactor/Enrolment is turning it on and off; TwoFactor/Steps is about one sign-in
--   after another, TwoFactor/Overlap about two at once.
-- * Resolver (apps/worker/src/services/thread-resolver.ts): which email a message is about.
-- * Builders (packages/whatsapp/src/builders.ts): cutting a text to what WhatsApp shows.
-- * Commands (apps/worker/src/processors/commands.processor.ts, and the conversation of
--   apps/worker/src/repositories/inbox.repository.ts): what a message in the chat does.
--   Commands/Chat is the conversation, Commands/Attempt what is said of a failure. Commands/Plan,
--   Commands/Compose and Commands/Planner are apps/worker/src/services/response-planner.ts,
--   Commands/Taps the button presses (with the table of Undo/Taps and the ids of ActionPayload),
--   Commands/Plans and Commands/Handle the typed commands (with Resolver), and Commands/Inbound
--   `handle` itself. Their services are an interface. Commands/Slot, Commands/Spent,
--   Commands/Overlap and Commands/Expiry are about the confirmation that is pending, Commands/Asks
--   about the plans, Commands/Honest and Commands/Told about what is said.
-- * Reminders (apps/worker/src/repositories/reminder.repository.ts and
--   apps/worker/src/services/snooze.service.ts): messages put down until later, with one user's part
--   of the sweep. Reminders/Refines compares the rows with an agenda of which message comes back
--   when, Reminders/Once counts how often one does.
-- * Notify (apps/worker/src/repositories/message.repository.ts): the backlog of notifications.
--   Notify/Digest is buildDigest of packages/whatsapp/src/builders.ts, Notify/Handle
--   apps/worker/src/processors/notify.processor.ts with the reply of
--   apps/worker/src/services/outbound.service.ts; it decides with Window, and a reminder that fires
--   forces it. Notify/Owed and Notify/Lost are about what becomes of a message. Notify/Receipts is
--   applyDeliveryReceipt of apps/worker/src/repositories/inbox.repository.ts, over the rows of
--   `whatsapp_deliveries`.
-- * Sweeps (apps/worker/src/processors/sync.processor.ts and
--   apps/worker/src/repositories/retention.repository.ts): the loop over all users. Sweeps/Turns is
--   what purge, sweepDigests and sweepEmbeddings do for one user (with the backfill queries of
--   apps/worker/src/repositories/search.repository.ts), and Sweeps/Digests is
--   apps/worker/src/services/digest-schedule.ts. Sweeps/Order and Sweeps/Pages are about the loop,
--   Sweeps/Purge about erasing.
-- * Watches (apps/worker/src/repositories/watch.repository.ts and
--   apps/worker/src/services/watch-schedule.ts): mailbox subscriptions. Watches/Renew is the renewal
--   of apps/worker/src/processors/sync.processor.ts; Watches/Laws and Watches/Runs are about renewals
--   one after the other, Watches/Reach about the sweeps.
-- * Common (no code of its own): lists, texts and Boolean tests, in children named for these.
--
-- How the code is rendered: a text is the list of its UTF-16 codes, and letter case is that of ASCII.
-- A `Date` is a number of milliseconds, an id or a hash a number. A table is a function from ids to
-- rows or a list of them; `forUser`, which pins row-level security, is a test of the row's user. One
-- call of the database is one step; it is taken to answer. A call that may throw returns a `Result`.
-- A chat message is handled in one go; Commands/Overlap cuts a confirmation where it has read the
-- slot. What is not in the repository, or not modelled, is a parameter: the mail provider with its
-- adapter, whose send can fail although the email arrives, Meta, decryption and the loading of an
-- account (`Services` of Draft/Send), the time zones of `Intl` (Window), and fresh ids and hashes, the
-- HMAC of a state and its JSON, HMAC-SHA1 and the encryption of a secret (Totp, TwoFactor). The
-- mailbox, label and snooze services of an undo are an interface of Undo, those of a chat message one of Commands, where the
-- command parser and the parser of recipient lists are functions. Fuel is needed three times: to
-- write out five bits at a time, with as many rounds as there are bits, to write a number, with as
-- many as the number, and for the pages of a sweep, with two more than the ids can number; the other
-- loops recurse on lists, and the retries of a job on the list of its attempts. The ten passes that
-- strip a subject and the 80 characters of a recipient's name are the code's own bounds.
--
-- Not modelled: logging and metrics, the prompts and calls of the AI models, the adapters of mail
-- providers and of Meta, MIME, encryption, the web client and the deployment, which are I/O, glue or
-- libraries; the command parser, forwarding and ingestion, which have rules of their own that are
-- left open here; of Threading the parsing of a `References` header, which is a regular expression
-- search; and of Totp the enrolment URI and the making of a secret.
mod Common
pub mod AppError
pub mod Window
pub mod Draft
pub mod Session
pub mod JobKey
pub mod ActionPayload
pub mod Undo
pub mod Reminders
pub mod Notify
pub mod Sweeps
pub mod Watches
pub mod Threading
pub mod Recipients
pub mod RateLimit
pub mod Phone
pub mod OauthState
pub mod Totp
pub mod TwoFactor
pub mod Resolver
pub mod Builders
pub mod Commands
