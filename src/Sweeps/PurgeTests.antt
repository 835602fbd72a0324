-- ===== src/Sweeps/PurgeTests.antt =====
-- A purge over two users, and an embedding backfill.
use whatsapp_email_assistant.Common.{
  ℕ, ◌≡◌, refl, false, none, some, List, [], ◌∷◌, map, arith, if◌then◌else◌, codes,
}
use whatsapp_email_assistant.Sweeps.{sweep_users, find_user_ids}
use whatsapp_email_assistant.Sweeps.Turns.{
  StoredMessage, Purged, is_stale, erased, purge_bodies, purge_turn, find_unembedded,
  embedding_turn,
}
use whatsapp_email_assistant.Sweeps.Purge.{purge_bodies-exact}

abbrev mail : ℕ → ℕ → ℕ → StoredMessage
mail id user received = record {
  id = id;
  user_id = user;
  received_at = received;
  body_text_cipher = some (codes "x");
  body_html_cipher = none;
  body_dek = some (codes "k");
  body_key_version = some (codes "1");
  body_purged_at = none;
  notify_deferred_at = none;
  is_archived = false;
  is_spam = false;
  deleted_at = none;
  has_embedding = false;
}

abbrev inbox : List StoredMessage
inbox = mail 1 7 100 ∷ mail 2 7 900 ∷ mail 3 8 200 ∷ mail 4 7 50 ∷ []

abbrev before_purge : Purged
before_purge = record { messages = inbox; bodies = 0; users_seen = 0 }

whole_purge :
    sweep_users (λ _. 8 ∷ 7 ∷ []) (purge_turn 500 1000) (λ p. p) 500 2 before_purge none
    ≡ some (
      7 ∷ 8 ∷ [],
      record {
        messages =
            erased 1000 (mail 1 7 100)
            ∷ mail 2 7 900
            ∷ erased 1000 (mail 3 8 200)
            ∷ erased 1000 (mail 4 7 50)
            ∷ [];
        bodies = 3;
        users_seen = 2;
      },
    )
unfolding sweep_users find_user_ids purge_turn purge_bodies
whole_purge = refl

backfill :
    embedding_turn false inbox 80 1000
      ((record { owner_id = 7; backfilled_at = none; removed_at = none }) ∷ [], [])
      7
    ≡ (
      (record { owner_id = 7; backfilled_at = none; removed_at = none }) ∷ [],
      (7, 2) ∷ (7, 1) ∷ [],
    )
unfolding embedding_turn find_unembedded
backfill = refl

purge_bodies-exact_example :
    purge_bodies inbox 7 500 2 1000
    ≡ (map (λ m. if is_stale 7 500 m then erased 1000 m else m) inbox, 2)
purge_bodies-exact_example =
    purge_bodies-exact inbox 7 500 2 1000 (refl, (refl, (refl, (refl, tt)))) (omega arith)
