-- ===== src/AppError.antt =====
-- packages/shared/src/errors/app-error.ts: the error taxonomy. The engineers' message, the context
-- and the cause only reach logs and are left out.
use whatsapp_email_assistant.Common.{
  ℕ, ◌≡◌, refl, ◌⊎◌, inl, inr, Bool, true, false, Option, none, some, Text, codes,
}

pub data ErrorCode : Type 0 where
  bad_request validation_failed unauthenticated invalid_credentials : ErrorCode
  two_factor_required forbidden not_found conflict payload_too_large : ErrorCode
  rate_limited quota_exceeded payment_required provider_error : ErrorCode
  provider_unauthorized provider_rate_limited whatsapp_session_expired : ErrorCode
  ai_unavailable ai_invalid_output internal dependency_unavailable encryption_failure : ErrorCode

pub status : ErrorCode → ℕ
status bad_request = 400
status validation_failed = 422
status unauthenticated = 401
status invalid_credentials = 401
status two_factor_required = 401
status forbidden = 403
status not_found = 404
status conflict = 409
status payload_too_large = 413
status rate_limited = 429
status quota_exceeded = 429
status payment_required = 402
status provider_error = 502
status provider_unauthorized = 401
status provider_rate_limited = 429
status whatsapp_session_expired = 409
status ai_unavailable = 503
status ai_invalid_output = 502
status internal = 500
status dependency_unavailable = 503
status encryption_failure = 500

-- The set `RETRYABLE`.
pub retryable_code : ErrorCode → Bool
retryable_code provider_error = true
retryable_code provider_rate_limited = true
retryable_code rate_limited = true
retryable_code ai_unavailable = true
retryable_code dependency_unavailable = true
retryable_code internal = true
retryable_code _ = false

pub generic_public_message : ErrorCode → Text
generic_public_message bad_request = codes "That request was not valid."
generic_public_message validation_failed = codes "Some of the information provided was not valid."
generic_public_message unauthenticated = codes "Please sign in to continue."
generic_public_message invalid_credentials = codes "That email or password is incorrect."
generic_public_message two_factor_required = codes "Enter your two-factor code to continue."
generic_public_message forbidden = codes "You don't have access to this."
generic_public_message not_found = codes "We could not find that."
generic_public_message conflict = codes "That conflicts with something that already exists."
generic_public_message payload_too_large = codes "That is too large to send."
generic_public_message rate_limited = codes "That's a lot of requests — please slow down."
generic_public_message quota_exceeded = codes "You've reached your plan's limit."
generic_public_message payment_required = codes "This feature needs an active subscription."
generic_public_message provider_error =
    codes "Your email provider had a problem. We will retry shortly."
generic_public_message provider_unauthorized =
    codes "We lost access to your mailbox. Please reconnect it."
generic_public_message provider_rate_limited =
    codes "Your email provider is rate limiting us. We will retry shortly."
generic_public_message whatsapp_session_expired =
    codes "Send us a WhatsApp message first so we can reply."
generic_public_message ai_unavailable =
    codes "The assistant is briefly unavailable. Your email is unaffected."
generic_public_message ai_invalid_output =
    codes "The assistant returned something we could not use."
generic_public_message internal = codes "Something went wrong on our side."
generic_public_message dependency_unavailable =
    codes "A service we depend on is unavailable. We will retry shortly."
generic_public_message encryption_failure = codes "Something went wrong on our side."

pub record AppError : Type 0 where
  pub code : ErrorCode
  pub status_code : ℕ
  pub public_message : Text
  pub has_specific_public_message : Bool
  pub retryable : Bool

abbrev or_else {ℓ} : {A : Type ℓ} → Option A → A → A
or_else none b = b
or_else (some a) b = a

abbrev is_given {ℓ} : {A : Type ℓ} → Option A → Bool
is_given none = false
is_given (some _) = true

-- `new AppError(code, …, { publicMessage, retryable })`.
unfoldable pub app_error : ErrorCode → Option Text → Option Bool → AppError
unfolding status retryable_code generic_public_message
app_error code public_message retryable = record {
  code = code;
  status_code = status code;
  public_message = or_else public_message (generic_public_message code);
  has_specific_public_message = is_given public_message;
  retryable = or_else retryable (retryable_code code);
}

-- What a `catch` receives: an `AppError`, or anything else.
pub data Thrown : Type 0 where
  known : AppError → Thrown
  unknown : Thrown

-- `AppError.from(err)`.
unfoldable pub app_error_from : Thrown → AppError
unfolding app_error
app_error_from (known e) = e
app_error_from unknown = app_error internal none none

-- The outcome of a call that may throw.
pub data Result {ℓ} (A : Type ℓ) : Type ℓ where
  ok : A → Result A
  err : Thrown → Result A

infixl 5 ◌>>=◌
abbrev pub ◌>>=◌ {ℓ κ} : {A : Type ℓ} {B : Type κ} → Result A → (A → Result B) → Result B
ok a >>= f = f a
err e >>= f = err e

pub Result-cases {ℓ} :
    {A : Type ℓ} (r : Result A) → ((a : A) × (r ≡ ok a)) ⊎ ((e : Thrown) × (r ≡ err e))
Result-cases (ok a) = inl (a, refl)
Result-cases (err e) = inr (e, refl)
