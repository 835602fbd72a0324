-- ===== src/Commands/Chat.antt =====
-- apps/worker/src/repositories/inbox.repository.ts: the conversation of a user.
use whatsapp_email_assistant.Common.{
  ℕ, ◌+◌, ◌*◌, Option, none, some, [], ◌∷◌, leb, if◌then◌else◌, Text,
}
use whatsapp_email_assistant.Commands.{Conversation, PendingSend}

abbrev pub window_ms : ℕ
window_ms = 30 * 60000

abbrev pub new_active : Option Text → Option Text → Option Text
new_active none old = old
new_active (some []) old = old
new_active (some (c ∷ id)) old = some (c ∷ id)

-- `touchConversation`: an upsert, which moves the expiry and keeps the pending action.
unfoldable pub touch_conversation :
    ℕ → (active : Option Text) → Option Conversation → Option Conversation
touch_conversation at active none = some (record {
  active_email_message_id = new_active active none;
  pending = none;
  expires_at = at + window_ms;
  last_inbound_at = at;
})
touch_conversation at active (some c) = some (record c {
  active_email_message_id = new_active active c.active_email_message_id;
  expires_at = at + window_ms;
  last_inbound_at = at;
})

unfoldable pub set_pending_action : PendingSend → Option Conversation → Option Conversation
set_pending_action p none = none
set_pending_action p (some c) = some (record c { pending = some p })

-- The first call of `takePendingAction`, with its tests: nothing is found once the conversation has
-- expired.
unfoldable pub read_pending : ℕ → Option Conversation → Option PendingSend
read_pending now none = none
read_pending now (some c) = if leb c.expires_at now then none else c.pending

-- Its second call, whose count of updated rows nobody looks at.
unfoldable pub clear_pending : Option Conversation → Option Conversation
clear_pending none = none
clear_pending (some c) = some (record c { pending = none })

-- What `takePendingAction` leaves, for what its first call found.
abbrev pub spent_slot : Option PendingSend → Option Conversation → Option Conversation
spent_slot none c = c
spent_slot (some p) c = clear_pending c

-- `takePendingAction`, when no other message is handled between its two calls.
unfoldable pub take_pending_action :
    ℕ → Option Conversation → Option Conversation × Option PendingSend
unfolding read_pending clear_pending
take_pending_action now c = let p = read_pending now c in (spent_slot p c, p)

unfoldable pub clear_active_thread : Option Conversation → Option Conversation
clear_active_thread none = none
clear_active_thread (some c) = some (record c { active_email_message_id = none; pending = none })
