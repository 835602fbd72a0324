-- ===== src/Notify/Handle.antt =====
-- apps/worker/src/processors/notify.processor.ts, with `reply` of
-- apps/worker/src/services/outbound.service.ts. Meta's API, the tables of deliveries and the clock
-- are parameters of a job; a card is the message that it shows, a template what it is filled with.
use whatsapp_email_assistant.Common.{
  ℕ, Bool, true, false, not, ◌&&◌, Option, none, some, List, [], ◌∷◌, map, if◌then◌else◌, Text,
  codes,
}
use whatsapp_email_assistant.AppError.{
  Thrown, known, Result, ok, err, app_error, app_error_from, bad_request,
}
use whatsapp_email_assistant.Window.{
  normal, instant, DeliveryPreferences, DeliveryCandidate, DeliveryAction, send_now, send_template,
  defer, suppress, evaluate_window, is_free_form, is_window_open, decide_delivery, Intl,
}
use whatsapp_email_assistant.Notify.{
  EmailMessage, Tables, User, DeliveryContext, find_for_notification, mark_deferred, mark_notified,
  find_deferred, count_deferred, record_digest_sent, find_delivery_context,
}
use whatsapp_email_assistant.Notify.Digest.{ListPayload, build_digest, to_item, or_else, nonempty}

pub data Payload : Type 0 where
  card : EmailMessage → Payload
  digest_list : ListPayload → Payload
  new_email_template : EmailMessage → Text → Payload
  digest_template : ℕ → Text → Payload

abbrev pub is_template : Payload → Bool
is_template (new_email_template _ _) = true
is_template (digest_template _ _) = true
is_template _ = false

-- What Meta took, newest first: for which user, to which number, what, and when.
pub record Sent : Type 0 where
  pub for_user : ℕ
  pub phone : Text
  pub payload : Payload
  pub at : ℕ

pub record World : Type 0 where
  pub tables : Tables
  pub outbox : List Sent

-- What one job meets: the clock when it starts and when it replies, Meta's answer, whether the
-- delivery is recorded, whether the backlog is written, and whether the time of the digest is.
pub record Circumstances : Type 0 where
  pub now : ℕ
  pub reply_at : ℕ
  pub meta : Option Thrown
  pub recorded : Option Thrown
  pub written : Option Thrown
  pub digest_written : Option Thrown

abbrev pub only_templates : Thrown
only_templates = known (app_error bad_request none (some false))

abbrev pub rethrown : Thrown → Thrown
rethrown e = known (app_error_from e)

-- What `reply` comes to once the checks are past.
abbrev pub deliver : Circumstances → World → Sent → World × Result (Unit {0})
deliver c w s = elim c.meta [
  | some e ↦ (w, err (rethrown e))
  | none ↦ (
    record w { outbox = s ∷ w.outbox },
    elim c.recorded [ none ↦ ok tt | some e ↦ err (rethrown e) ],
  )
]

unfoldable pub reply :
    Circumstances → World → ℕ → Text → Payload → Option ℕ → Bool → World × Result (Unit {0})
reply c w user phone payload last_inbound_at allow_outside_window =
    if allow_outside_window && not (is_template payload)
    then (w, err only_templates)
    else if not allow_outside_window && not (is_window_open last_inbound_at c.reply_at)
    then (w, ok tt)
    else deliver c w (record { for_user = user; phone = phone; payload = payload; at = c.reply_at })

-- A write that may fail.
abbrev pub write : Option Thrown → World → Tables → World × Result (Unit {0})
write failure w t = elim failure [ none ↦ (record w { tables = t }, ok tt) | some e ↦ (w, err e) ]

-- What follows a call that did not throw.
abbrev pub and_then :
    World × Result (Unit {0}) → (World → World × Result (Unit {0})) → World × Result (Unit {0})
and_then (w, ok _) f = f w
and_then (w, err e) f = (w, err e)

abbrev pub last_inbound : DeliveryContext → Option ℕ
last_inbound d = elim d.state [ none ↦ none | some s ↦ s.last_inbound_at ]

-- `if (!user?.phoneNumber)`.
abbrev pub reachable : DeliveryContext → Option (User × Text)
reachable d = elim d.user [
  | none ↦ none
  | some u ↦ elim (nonempty u.phone_number) [ none ↦ none | some p ↦ some (u, p) ]
]

abbrev pub send_digest_to :
    Circumstances
    → World
    → ℕ
    → DeliveryContext
    → User × Text
    → List EmailMessage
    → World × Result (Unit {0})
send_digest_to c w user d (u, phone) [] = (w, ok tt)
send_digest_to c w user d (u, phone) (m ∷ ms) =
    if is_free_form (evaluate_window (last_inbound d) c.now).mode
    then and_then
        (reply c w user phone (digest_list (build_digest (map to_item (m ∷ ms)))) (last_inbound d)
          false)
        (λ v.
          and_then (write c.written v (mark_notified v.tables user (map (λ n. n.id) (m ∷ ms))))
            (λ x. write c.digest_written x (record_digest_sent x.tables user c.now)))
    else and_then
        (reply c w user phone (digest_template (count_deferred w.tables user) u.locale)
          (last_inbound d) true)
        (λ v. write c.digest_written v (record_digest_sent v.tables user c.now))

unfoldable pub send_digest : Circumstances → World → ℕ → World × Result (Unit {0})
send_digest c w user =
    let d = find_delivery_context w.tables user in
    elim (reachable d) [
      | none ↦ (w, ok tt)
      | some up ↦ send_digest_to c w user d up (find_deferred w.tables user)
    ]

abbrev pub default_preferences : Text → DeliveryPreferences
default_preferences zone = record {
  mode = instant;
  minimum_priority = normal;
  quiet_hours_enabled = false;
  quiet_hours_start = codes "22:00";
  quiet_hours_end = codes "07:00";
  timezone = zone;
  muted_categories = [];
  muted_senders = [];
}

-- The user's preferences, each with its default; the zone is the user's.
abbrev pub preferences_of : DeliveryContext → User → DeliveryPreferences
preferences_of d u = elim d.preferences [
  | none ↦ default_preferences u.timezone
  | some p ↦ record p { timezone = u.timezone }
]

abbrev pub candidate_of : EmailMessage → DeliveryCandidate
candidate_of m = record {
  priority = or_else m.priority normal;
  category = or_else m.category (codes "other");
  from_address = m.from_address;
}

abbrev pub carry_out :
    Circumstances
    → World
    → ℕ
    → EmailMessage
    → DeliveryContext
    → User × Text
    → DeliveryAction
    → World × Result (Unit {0})
carry_out c w user m d (u, phone) (suppress reason) = (w, ok tt)
carry_out c w user m d (u, phone) (defer reason) =
    write c.written w (mark_deferred w.tables user m.id c.now)
carry_out c w user m d (u, phone) send_template =
    and_then (reply c w user phone (new_email_template m u.locale) (last_inbound d) true)
      (λ v. write c.written v (mark_deferred v.tables user m.id c.now))
carry_out c w user m d (u, phone) send_now =
    and_then (reply c w user phone (card m) (last_inbound d) false)
      (λ v. write c.written v (mark_notified v.tables user (m.id ∷ [])))

module _ (intl : Intl) where
  abbrev pub action_for :
      Circumstances → EmailMessage → DeliveryContext → User → Bool → DeliveryAction
  action_for c m d u force =
      if force
      then send_now
      else decide_delivery intl (candidate_of m) (preferences_of d u)
          (evaluate_window (last_inbound d) c.now) c.now

  unfoldable pub notify_one : Circumstances → World → ℕ → ℕ → Bool → World × Result (Unit {0})
  notify_one c w user id force = elim (find_for_notification w.tables user id) [
    | none ↦ (w, ok tt)
    | some m ↦
        let d = find_delivery_context w.tables user in
        elim (reachable d) [
          | none ↦ (w, ok tt)
          | some up ↦ carry_out c w user m d up (action_for c m d up.0 force)
        ]
  ]

pub data Job : Type 0 where
  notify_email : ℕ → ℕ → Bool → Job
  send_digest_job : ℕ → Job

abbrev pub user_of : Job → ℕ
user_of (notify_email user id force) = user
user_of (send_digest_job user) = user

-- `handle`, but for the delivery receipts.
unfoldable pub handle : Intl → Circumstances → World → Job → World × Result (Unit {0})
handle intl c w (notify_email user id force) = notify_one intl c w user id force
handle intl c w (send_digest_job user) = send_digest c w user
