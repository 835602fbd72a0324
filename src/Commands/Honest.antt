-- ===== src/Commands/Honest.antt =====
-- What the user is told when something fails, and that nothing follows the call that failed.
use whatsapp_email_assistant.Common.{ℕ, ◌≡◌, refl, ap, ◌∙◌, Option, none, some, ◌∷◌, arith, Text}
use whatsapp_email_assistant.AppError.{Result, ok, err, AppError, app_error_from}
use whatsapp_email_assistant.Commands.{
  Payload, Conversation, Services, State, Answer, Failure, code,
}
use whatsapp_email_assistant.Commands.Attempt.{attempt, after, user_facing_failure}
use whatsapp_email_assistant.Commands.Plan.{
  PlannedEffect, mutate, summarize, speak, attachments, undo, discard_files, translate, move_to,
  snooze_until, file_under, compose, draft,
}
use whatsapp_email_assistant.Commands.Taps.{keeping}
use whatsapp_email_assistant.Commands.Plans.{offer_draft, carry_out_plan, carry_out_planned}

abbrev pub failed_as : Option AppError → Option Failure
failed_as none = none
failed_as (some e) = some (code e.code)

module _ {S : Type 0} where
  -- The state that a call leaves, and why it failed if it did.
  abbrev pub outcome : {A : Type 0} → S × Result A → S × Option AppError
  outcome (s, ok a) = (s, none)
  outcome (s, err e) = (s, some (app_error_from e))

  -- The answer tells of a failure exactly if there was one, in the words for it; and after a failure
  -- nothing is different but what the failed call itself did.
  pub record IsHonest (c : Option Conversation) (called : S × Option AppError)
      (r : State S × Answer) : Type 0 where
    pub told : r.1.failed ≡ failed_as called.1
    pub in_words :
        (e : AppError) → called.1 ≡ some e → r.1.payload ≡ Payload.text (user_facing_failure e)
    pub only_the_call :
        (e : AppError) → called.1 ≡ some e → r.0 ≡ record { conversation = c; services = called.0 }

  failed-IsHonest :
      (c : Option Conversation) (s : S) (e : AppError) (r : State S × Answer)
      → r ≡ (
        record { conversation = c; services = s },
        record { payload = Payload.text (user_facing_failure e); failed = some (code e.code) },
      )
      → IsHonest c (s, some e) r
  failed-IsHonest c s e r p = record {
    told = ap (λ x. x.1.failed) p;
    in_words = λ f q.
        ap (λ x. x.1.payload) p
        ∙ ap (λ x. Payload.text (user_facing_failure x)) (some-injective e f q);
    only_the_call = λ f q. ap (λ x. x.0) p;
  }
    where
      some-injective : (e f : AppError) → Path (Option AppError) (some e) (some f) → e ≡ f
      some-injective e f q = ground arith

  done-IsHonest :
      (c : Option Conversation) (s : S) (r : State S × Answer)
      → r.1.failed ≡ none
      → IsHonest c (s, none) r
  done-IsHonest c s r p = record {
    told = p;
    in_words = λ e q. absurd (none≢some e q);
    only_the_call = λ e q. absurd (none≢some e q);
  }
    where
      none≢some : (e : AppError) → Path (Option AppError) none (some e) → ⊥
      none≢some e q = ground arith

  attempt-IsHonest :
      {A : Type 0} (c : Option Conversation) (call : S × Result A) (on_success : A → Payload)
      → IsHonest c (outcome call) (keeping c (attempt call on_success))
  unfolding attempt
  attempt-IsHonest c (s, ok a) on_success = done-IsHonest c s _ refl
  attempt-IsHonest c (s, err e) on_success = failed-IsHonest c s (app_error_from e) _ refl

  -- An action that goes on only after its first call, and then does not fail.
  attempt-after-IsHonest :
      {A B : Type 0} (c : Option Conversation) (call : S × Result A) (next : S → A → S)
      (result : S → A → B) (on_success : B → Payload)
      → IsHonest c
          (outcome call)
          (keeping c (attempt (after call (λ s a. (next s a, ok (result s a)))) on_success))
  unfolding attempt
  attempt-after-IsHonest c (s, ok a) next result on_success = done-IsHonest c s _ refl
  attempt-after-IsHonest c (s, err e) next result on_success =
      failed-IsHonest c s (app_error_from e) _ refl

  offer_draft-IsHonest :
      (c : Option Conversation) (email : Text) (call : S × Result Text)
      → IsHonest c (outcome call) (offer_draft c email call)
  unfolding attempt
  offer_draft-IsHonest c email (s, ok body) = done-IsHonest c s _ refl
  offer_draft-IsHonest c email (s, err e) = failed-IsHonest c s (app_error_from e) _ refl

  module _ (svc : Services S) where
    -- The call on which an effect depends; a new email depends on none before its tap.
    abbrev pub called : S → Text → PlannedEffect → S × Option AppError
    called s email (mutate operation) = outcome (svc.apply s email operation)
    called s email (PlannedEffect.reply_with body reply_all subject) =
        outcome (svc.compose_reply s email body reply_all subject)
    called s email summarize = outcome (svc.summarize_email s email)
    called s email speak = outcome (svc.record_aloud s email)
    called s email attachments = outcome (svc.deliver_attachments s email)
    called s email undo = outcome (svc.undo s)
    called s email discard_files = outcome (svc.discard_staged s)
    called s email (translate language) = outcome (svc.translate_email s email language)
    called s email (move_to folder) = outcome (svc.move_to s email folder)
    called s email (snooze_until until) = outcome (svc.snooze_until s email until)
    called s email (file_under add remove) = outcome (svc.apply_label s email add remove)
    called s email (compose p) = (s, none)
    called s email (draft instruction) = outcome (svc.draft_reply s email instruction)

    -- Whatever is planned for an email, the answer says that it is done only if the call it depends
    -- on did not fail, and gives the sentence for the failure otherwise. After a failure the
    -- conversation is as it was, with what was pending in it, and the services are as the failed call
    -- left them, with whatever it did before it failed: none of the calls that follow a success, to
    -- record what can be undone or to forget a snooze, is made.
    pub carry_out_planned-IsHonest :
        (st : State S) (c : ℕ) (id : Text) (effect : PlannedEffect) (payload : Payload)
        → IsHonest st.conversation
            (called st.services (c ∷ id) effect)
            (carry_out_planned svc st (some (c ∷ id)) (some effect) payload)
    unfolding carry_out_planned carry_out_plan
    carry_out_planned-IsHonest st c id (mutate operation) payload =
        attempt-after-IsHonest st.conversation (svc.apply st.services (c ∷ id) operation) _ _ _
    carry_out_planned-IsHonest st c id (PlannedEffect.reply_with body reply_all subject) payload =
        attempt-after-IsHonest st.conversation
          (svc.compose_reply st.services (c ∷ id) body reply_all subject) _ _ _
    carry_out_planned-IsHonest st c id summarize payload =
        attempt-IsHonest st.conversation (svc.summarize_email st.services (c ∷ id)) _
    carry_out_planned-IsHonest st c id speak payload =
        attempt-IsHonest st.conversation (svc.record_aloud st.services (c ∷ id)) _
    carry_out_planned-IsHonest st c id attachments payload =
        attempt-IsHonest st.conversation (svc.deliver_attachments st.services (c ∷ id)) _
    carry_out_planned-IsHonest st c id undo payload =
        attempt-IsHonest st.conversation (svc.undo st.services) _
    carry_out_planned-IsHonest st c id discard_files payload =
        attempt-IsHonest st.conversation (svc.discard_staged st.services) _
    carry_out_planned-IsHonest st c id (translate language) payload =
        attempt-IsHonest st.conversation (svc.translate_email st.services (c ∷ id) language) _
    carry_out_planned-IsHonest st c id (move_to folder) payload =
        attempt-after-IsHonest st.conversation (svc.move_to st.services (c ∷ id) folder) _ _ _
    carry_out_planned-IsHonest st c id (snooze_until until) payload =
        attempt-after-IsHonest st.conversation (svc.snooze_until st.services (c ∷ id) until) _ _ _
    carry_out_planned-IsHonest st c id (file_under add remove) payload =
        attempt-after-IsHonest st.conversation (svc.apply_label st.services (c ∷ id) add remove) _ _
          _
    carry_out_planned-IsHonest st c id (compose p) payload =
        done-IsHonest st.conversation st.services _ refl
    carry_out_planned-IsHonest st c id (draft instruction) payload =
        offer_draft-IsHonest st.conversation (c ∷ id)
          (svc.draft_reply st.services (c ∷ id) instruction)
