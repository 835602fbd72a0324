-- ===== src/Resolver/Evidence.antt =====
-- What stands behind a resolution: a message is resolved only for a reason, and asks otherwise.
use whatsapp_email_assistant.Common.{
  ℕ, ◌≡◌, refl, ◌⊎◌, true, false, none, some, List, [], ◌∷◌, All, Text, trim, to_lower,
}
use whatsapp_email_assistant.ActionPayload.{ActionPayload}
use whatsapp_email_assistant.Resolver.{
  ResolutionCandidate, InboundMessage, ResolutionContext, Basis, continuing, Resolution, resolved,
  filled, address_of, is_hit, is_expired, decoded, looked_up, resolve,
}

-- Every recent email that the name fits is from the sender of this one.
pub record IsOnlyMatch (needle : Text) (recent : List ResolutionCandidate) (c : ResolutionCandidate)
    : Type 0 where
  pub fits : is_hit needle c ≡ true
  pub no_other : All (λ d. is_hit needle d ≡ true → address_of d ≡ address_of c) recent

-- Nothing of a higher rank: no delivery that leads to an email, no button, and no conversation, or
-- one that is over.
pub record IsOpen (message : InboundMessage) (ctx : ResolutionContext) : Type 0 where
  pub no_delivery : looked_up ctx (filled message.context_id) ≡ none
  pub no_button : decoded (filled message.interactive_id) ≡ none
  pub no_conversation :
      (filled ctx.active_email_message_id ≡ none)
      ⊎ (is_expired ctx.active_state_expires_at ctx.now ≡ true)

-- The grounds, each with its rank.
pub data Evidence (message : InboundMessage) (ctx : ResolutionContext) (id : Text)
    : ℕ → Type 0 where
  by_delivery : looked_up ctx (filled message.context_id) ≡ some id → Evidence message ctx id 1
  by_button :
      (payload : ActionPayload)
      → looked_up ctx (filled message.context_id) ≡ none
      → decoded (filled message.interactive_id) ≡ some payload
      → payload.target_id ≡ id
      → Evidence message ctx id 2
  by_conversation :
      looked_up ctx (filled message.context_id) ≡ none
      → decoded (filled message.interactive_id) ≡ none
      → filled ctx.active_email_message_id ≡ some id
      → is_expired ctx.active_state_expires_at ctx.now ≡ false
      → Evidence message ctx id 3
  by_sender :
      (target : Text) (c : ResolutionCandidate)
      → IsOpen message ctx
      → filled ctx.named_target ≡ some target
      → IsOnlyMatch (to_lower (trim target)) ctx.recent c
      → c.email_message_id ≡ id
      → Evidence message ctx id 4
  by_default :
      (c : ResolutionCandidate)
      → IsOpen message ctx
      → filled ctx.named_target ≡ none
      → ctx.recent ≡ c ∷ []
      → c.email_message_id ≡ id
      → Evidence message ctx id 4

module _ (message : InboundMessage) (ctx : ResolutionContext) (id : Text) (rank : ℕ)
    (basis : Basis) where
  abbrev Resolves : Resolution → Type 0
  Resolves r = r ≡ resolved id rank basis

  abbrev Found : Type 0
  Found = Evidence message ctx id rank

-- A reply to a message of ours that leads to no email is taken to be about the conversation that
-- goes on, whichever email that is about.
pub unmapped_reply-continues :
    (message : InboundMessage) (ctx : ResolutionContext) (quoted id : Text)
    → filled message.context_id ≡ some quoted
    → filled (ctx.delivery_lookup quoted) ≡ none
    → filled message.interactive_id ≡ none
    → filled ctx.active_email_message_id ≡ some id
    → is_expired ctx.active_state_expires_at ctx.now ≡ false
    → resolve message ctx ≡ resolved id 3 continuing
unfolding resolve
unmapped_reply-continues message ctx quoted id q l t a e = rw (q, l, t, a, e) refl
