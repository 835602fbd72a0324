-- ===== src/RateLimit/Tests.antt =====
-- Runs of the limiter, and the theorems about it over a store that counts.
use whatsapp_email_assistant.Common.{
  ℕ, suc, ◌≤◌, ◌≡◌, refl, Option, none, some, List, [], ◌∷◌, arith, codes,
}
use whatsapp_email_assistant.RateLimit.{
  RateLimitScope, Key, rate_limit_key, several, absent, client_address, Reply, counted, consume,
}
use whatsapp_email_assistant.RateLimit.Laws.{Request, IsCounter, admitted, admitted-limit}

address_run :
    client_address (several (codes "1.1.1.1, 2.2.2.2" ∷ codes " 3.3.3.3 " ∷ [])) none
    ≡ codes "3.3.3.3"
unfolding client_address
address_run = refl

no_address : client_address absent none ≡ codes "unknown"
unfolding client_address
no_address = refl

-- A store with one counter for all keys, which no limiter would want, but which only grows.
abbrev count_all : ℕ → ℕ → Key → ℕ × Reply
count_all s now key = (suc s, counted (suc s))

abbrev total : ℕ → Key → ℕ
total s key = s

count_all-IsCounter : IsCounter count_all total
count_all-IsCounter = record {
  grows = λ s now k j same. omega arith;
  counts = λ s now k n e. ground arith;
}

abbrev three_a_minute : RateLimitScope → Option ℕ
three_a_minute scope = some 3

abbrev sign_in : Request
sign_in = record { scope = RateLimitScope.auth; identifier = codes "3.3.3.3"; now = 61500 }

abbrev sign_ins : List Request
sign_ins = sign_in ∷ sign_in ∷ sign_in ∷ sign_in ∷ sign_in ∷ []

abbrev auth_key : Key
auth_key = record { scope = RateLimitScope.auth; subject = codes "3.3.3.3"; window = 1 }

sign_in-key : rate_limit_key sign_in.scope sign_in.identifier sign_in.now ≡ auth_key
unfolding rate_limit_key
sign_in-key = refl

three_pass : admitted count_all three_a_minute 0 sign_ins ≡ 3
unfolding admitted consume
three_pass = refl

admitted-limit_example : admitted count_all three_a_minute 0 sign_ins ≤ 3
admitted-limit_example =
    admitted-limit count_all three_a_minute total count_all-IsCounter auth_key 2 refl 0 sign_ins
      (sign_in-key, (sign_in-key, (sign_in-key, (sign_in-key, (sign_in-key, tt)))))
