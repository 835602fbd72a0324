-- ===== src/Notify/Tests.antt =====
-- Notifications of a user with a verified number, and the theorems on them.
use whatsapp_email_assistant.Common.{
  ℕ, suc, ◌+◌, ◌*◌, ◌≡◌, refl, true, false, none, some, List, [], ◌∷◌, map, ◌==◌, if◌then◌else◌,
  take, codes, Text, Option, text_eq,
}
use whatsapp_email_assistant.AppError.{ok}
use whatsapp_email_assistant.Window.{
  urgent, normal, Intl, is_window_open, evaluate_window, decide_delivery, session_window_ms,
}
use whatsapp_email_assistant.Notify.{
  EmailMessage, User, find_for_notification, find_deferred, find_delivery_context, mark_notified,
  count_deferred, record_digest_sent, mem,
}
use whatsapp_email_assistant.Notify.Digest.{build_digest, to_item, list_row_count}
use whatsapp_email_assistant.Notify.Handle.{
  digest_list, World, Circumstances, reply, notify_one, send_digest, handle, notify_email,
}
use whatsapp_email_assistant.Phone.{from_whatsapp_format}
use whatsapp_email_assistant.Notify.Receipts.{
  delivered, read, reported, Delivery, StatusUpdate, receipted, apply_delivery_receipt,
}
use whatsapp_email_assistant.Notify.Laws.{IsSafe, handle-IsSafe}
use whatsapp_email_assistant.Notify.Owed.{Accounted, notify_one-Accounted}
use whatsapp_email_assistant.Notify.Lost.{
  IsCleared, forced-drops, send_digest-clears_unshown, ids_of,
}

abbrev email : ℕ → EmailMessage
email n = record {
  id = n;
  user_id = 1;
  subject = codes "Invoice";
  from_address = codes "ann@x.org";
  from_name = some (codes "Ann");
  received_at = 100 + n;
  priority = some urgent;
  category = none;
  is_archived = false;
  is_spam = false;
  deleted_at = none;
  notify_deferred_at = none;
}

abbrev waiting_email : ℕ → EmailMessage
waiting_email n = record (email n) { notify_deferred_at = some 500; priority = some normal }

abbrev owner : User
owner = record {
  phone_number = some (codes "+254700000001");
  phone_verified = true;
  timezone = codes "UTC";
  locale = codes "en";
}

abbrev twelve : List EmailMessage
twelve = map waiting_email (12 ∷ 11 ∷ 10 ∷ 9 ∷ 8 ∷ 7 ∷ 6 ∷ 5 ∷ 4 ∷ 3 ∷ 2 ∷ 1 ∷ [])

abbrev world_of : List EmailMessage → World
world_of ms = record {
  tables = record {
    messages = ms;
    preferences = λ u. none;
    states = λ u.
        if u == 1
        then some (record { last_inbound_at = some 1000; last_digest_at = none })
        else none;
    users = λ u. if u == 1 then some owner else none;
  };
  outbox = [];
}

abbrev clear_at : ℕ → Circumstances
clear_at t = record {
  now = t;
  reply_at = suc t;
  meta = none;
  recorded = none;
  written = none;
  digest_written = none;
}

abbrev utc : Intl
utc at zone = none

abbrev two_days : ℕ
two_days = session_window_ms * 2

-- Twelve messages wait: ten are shown, and none waits afterwards.
digest_of_twelve :
    let r = send_digest (clear_at 2000) (world_of twelve) 1 in
    (map (λ s. s.phone) r.0.outbox ≡ codes "+254700000001" ∷ []) × (count_deferred r.0.tables 1 ≡ 0)
unfolding send_digest reply find_deferred find_delivery_context mark_notified count_deferred
    record_digest_sent is_window_open evaluate_window
digest_of_twelve = (refl, refl)

forced_at_night :
    (notify_one utc (clear_at two_days) (world_of (email 3 ∷ [])) 1 3 true).0.outbox ≡ []
unfolding notify_one reply find_for_notification find_delivery_context is_window_open
    evaluate_window
forced_at_night = refl

abbrev read_delivery : Delivery
read_delivery = record {
  id = 5;
  user_id = 1;
  phone_number = codes "+254700000001";
  whatsapp_message_id = some (codes "wamid.1");
  email_message_id = some 3;
  status = reported read;
  sent_at = some 10;
  delivered_at = none;
  read_at = some 30;
  failed_at = none;
  error_code = none;
  error_message = none;
}

abbrev late_receipt : Text → StatusUpdate
late_receipt number = record {
  message_id = codes "wamid.1";
  recipient = number;
  new_status = delivered;
  timestamp = 20;
  error = none;
}

abbrev owner_of : Text → Option ℕ
owner_of number = if text_eq number (codes "+254700000001") then some 1 else none

-- The time that a late receipt reports is kept, and its status takes the place of a later one.
delivered_after_read :
    (apply_delivery_receipt owner_of (read_delivery ∷ []) (late_receipt (codes "254700000001"))).0
    ≡ record read_delivery { status = reported delivered; delivered_at = some 20 } ∷ []
unfolding apply_delivery_receipt receipted from_whatsapp_format
delivered_after_read = refl

receipt_for_others :
    (apply_delivery_receipt owner_of (read_delivery ∷ []) (late_receipt (codes "254700000002"))).0
    ≡ read_delivery ∷ []
unfolding apply_delivery_receipt from_whatsapp_format
receipt_for_others = refl

handle-IsSafe_example :
    IsSafe
      (clear_at 2000)
      1
      (world_of (email 3 ∷ []))
      (handle utc (clear_at 2000) (world_of (email 3 ∷ [])) (notify_email 1 3 false)).0
handle-IsSafe_example =
    handle-IsSafe utc (clear_at 2000) (world_of (email 3 ∷ [])) (notify_email 1 3 false)

notify_one-Accounted_example :
    Accounted utc
      (clear_at 2000)
      (world_of (email 3 ∷ []))
      (notify_one utc (clear_at 2000) (world_of (email 3 ∷ [])) 1 3 false).0
      1
      3
unfolding notify_one reply find_for_notification find_delivery_context is_window_open
    evaluate_window decide_delivery
notify_one-Accounted_example =
    notify_one-Accounted utc (clear_at 2000) (world_of (email 3 ∷ [])) _ 1 3 (λ h. refl) refl

forced-drops_example :
    let r = notify_one utc (clear_at two_days) (world_of (email 3 ∷ [])) 1 3 true in
    (r.1 ≡ ok tt) × (r.0.outbox ≡ []) × IsCleared r.0.tables 1 3
unfolding find_for_notification find_delivery_context is_window_open evaluate_window
forced-drops_example =
    forced-drops utc (clear_at two_days) (world_of (email 3 ∷ [])) 1 3 (email 3) owner
      (codes "+254700000001") refl refl refl refl

send_digest-clears_unshown_example :
    let r = send_digest (clear_at 2000) (world_of twelve) 1 in
    let waiting = find_deferred (world_of twelve).tables 1 in
    let shown = build_digest (map to_item waiting) in
    (r.1 ≡ ok tt)
    × (r.0.outbox
        ≡ (record {
          for_user = 1;
          phone = codes "+254700000001";
          payload = digest_list shown;
          at = 2001;
        })
          ∷ [])
    × (map (λ row. row.opens) shown.rows ≡ ids_of (take list_row_count waiting))
    × ((id : ℕ) → mem id (ids_of waiting) ≡ true → IsCleared r.0.tables 1 id)
unfolding find_deferred find_delivery_context is_window_open evaluate_window
send_digest-clears_unshown_example =
    send_digest-clears_unshown (clear_at 2000) (world_of twelve) 1 owner (codes "+254700000001")
      (waiting_email 1) (map waiting_email (2 ∷ 3 ∷ 4 ∷ 5 ∷ 6 ∷ 7 ∷ 8 ∷ 9 ∷ 10 ∷ 11 ∷ 12 ∷ [])) refl
      refl
      (record {
        open_first = refl;
        open_then = refl;
        meta_takes = refl;
        is_recorded = refl;
        is_written = refl;
        digest_is_written = refl;
      })
