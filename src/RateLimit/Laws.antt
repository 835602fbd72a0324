-- ===== src/RateLimit/Laws.antt =====
-- The bound of a window, its end, and the address that a request counts against.
use whatsapp_email_assistant.Common.{
  ℕ, suc, ◌+◌, ◌-◌, ◌/◌, ◌≤◌, ◌<◌, ◌≡◌, refl, sym, ap, ◌∙◌, ◌↔◌, inl, inr, true, ◌&&◌, Option, some,
  List, [], ◌∷◌, ◌++◌, map, arith, ltb, if◌then◌else◌, Bool-cases, filter, All, Text, trim, split,
  lacks, split-before, split-lacks,
}
use whatsapp_email_assistant.RateLimit.{
  RateLimitScope, Key, rate_limit_key, window_reset_seconds, one, is_filled, hops, last_of,
  client_address, Reply, counted, decide, consume,
}

-- `Retry-After` names the first second of the next window: it lies between 1 and 60 seconds ahead,
-- and the window changes then and not before.
pub window_reset_seconds-exact :
    (now : ℕ)
    → (1 ≤ window_reset_seconds now)
      × (window_reset_seconds now ≤ 60)
      × ((later : ℕ)
          → now ≤ later
          → ((later / 60000 ≡ now / 60000)
              ↔ (later / 1000 < now / 1000 + window_reset_seconds now)))
unfolding window_reset_seconds
window_reset_seconds-exact now =
    (omega arith, omega arith, λ later h. (λ e. omega arith, λ e. omega arith))

last_of-snoc : (ts : List Text) (t : Text) → last_of (ts ++ t ∷ []) ≡ some t
last_of-snoc [] t = refl
last_of-snoc (u ∷ []) t = refl
last_of-snoc (u ∷ v ∷ ts) t = last_of-snoc (v ∷ ts) t

hops-append :
    (xs ys : List Text)
    → filter is_filled (map trim (xs ++ ys))
      ≡ filter is_filled (map trim xs) ++ filter is_filled (map trim ys)
hops-append [] ys = refl
hops-append (x ∷ xs) ys = elim (Bool-cases (is_filled (trim x))) [
  | inl e ↦ rw (e, hops-append xs ys) refl
  | inr e ↦ rw (e, hops-append xs ys) refl
]

-- Whatever a client writes into `X-Forwarded-For`: the address that the nearest proxy appends to it
-- is the one that the request counts against.
pub client_address-spoof :
    (spoof address : Text) (socket : Option Text)
    → lacks b',' address ≡ true
    → is_filled (trim address) ≡ true
    → client_address (one (spoof ++ b',' ∷ address)) socket ≡ trim address
unfolding client_address
client_address-spoof spoof address socket h k =
    let parts : hops (spoof ++ b',' ∷ address) ≡ hops spoof ++ trim address ∷ [] =
      rw
        (
          split-before b',' spoof address,
          split-lacks b',' address h,
          hops-append (split b',' spoof) (address ∷ []),
          k,
        )
        refl in
    rw (parts, last_of-snoc (hops spoof) (trim address)) refl

-- A request: its scope, its client, and when it comes.
pub record Request : Type 0 where
  pub scope : RateLimitScope
  pub identifier : Text
  pub now : ℕ

-- What is documented of Redis: until its window ends a counter is never set back, and the count
-- that an increment returns is above the one before it and not above the one after it. Other
-- clients may increment in between.
pub record IsCounter {S : Type 0} (exec : S → ℕ → Key → S × Reply) (count_of : S → Key → ℕ)
    : Type 0 where
  pub grows :
      (s : S) (now : ℕ) (k j : Key)
      → j.window ≡ now / 60000
      → count_of s j ≤ count_of (exec s now k).0 j
  pub counts :
      (s : S) (now : ℕ) (k : Key) (n : ℕ)
      → (exec s now k).1 ≡ counted n
      → (count_of s k < n) × (n ≤ count_of (exec s now k).0 k)

module _ {S : Type 0} (exec : S → ℕ → Key → S × Reply) (limits : RateLimitScope → Option ℕ) where
  -- How many of the requests go through with a count of their own, as against a limiter that does
  -- not count or is out of order.
  unfoldable pub admitted : S → List Request → ℕ
  admitted s [] = 0
  admitted s (r ∷ rs) =
      let (s', d) = consume exec limits s r.scope r.identifier r.now in
      let rest = admitted s' rs in if d.allowed && ltb 0 d.count then suc rest else rest

  module _ (count_of : S → Key → ℕ) (redis : IsCounter exec count_of) (key : Key) (limit : ℕ)
      (limited : limits key.scope ≡ some (suc limit)) where
    consume-limited :
        (s : S) (r : Request)
        → rate_limit_key r.scope r.identifier r.now ≡ key
        → consume exec limits s r.scope r.identifier r.now
          ≡ decide exec (suc limit) (window_reset_seconds r.now) (exec s r.now key)
    unfolding consume rate_limit_key
    consume-limited s r same =
        let here : limits r.scope ≡ some (suc limit) = ap (λ k. limits k.scope) same ∙ limited in
        rw (here, same) refl

    decide-step :
        (s : S) (reset rest : ℕ) (p : S × Reply)
        → count_of s key ≤ count_of p.0 key
        → ((n : ℕ) → p.1 ≡ counted n → (count_of s key < n) × (n ≤ count_of p.0 key))
        → let (s', d) = decide exec (suc limit) reset p in
          rest ≤ suc limit - count_of s' key
          → (if d.allowed && ltb 0 d.count then suc rest else rest) ≤ suc limit - count_of s key
    decide-step s reset rest (s', counted n) grown counts h =
        let (above, below) = counts n refl in ground arith
    decide-step s reset rest (s', Reply.discarded) grown counts h = ground arith
    decide-step s reset rest (s', Reply.incr_failed) grown counts h = ground arith
    decide-step s reset rest (s', Reply.not_a_number) grown counts h = ground arith
    decide-step s reset rest (s', Reply.disconnected) grown counts h = ground arith

    admitted-bound :
        (rs : List Request)
        → All (λ r. rate_limit_key r.scope r.identifier r.now ≡ key) rs
        → (s : S) → admitted s rs ≤ suc limit - count_of s key
    unfolding admitted rate_limit_key
    admitted-bound [] all_same s = omega arith
    admitted-bound (r ∷ rs) (same, all_same) s = rw (consume-limited s r same) (
        decide-step s (window_reset_seconds r.now) _ (exec s r.now key)
          (redis.grows s r.now key key (sym (ap (λ k. k.window) same))) (redis.counts s r.now key)
          (admitted-bound rs all_same _))

  -- Of the requests that count against one key, so of one client in one scope and window, at most
  -- the limit go through with a count, while Redis keeps its counters until the window ends. A
  -- request that Redis cannot count goes through and is not among them.
  pub admitted-limit :
      (count_of : S → Key → ℕ) (redis : IsCounter exec count_of) (key : Key) (limit : ℕ)
      → limits key.scope ≡ some (suc limit)
      → (s : S) (rs : List Request) → All (λ r. rate_limit_key r.scope r.identifier r.now ≡ key) rs
      → admitted s rs ≤ suc limit
  admitted-limit count_of redis key limit limited s rs same =
      let bound = admitted-bound count_of redis key limit limited rs same s in omega (arith, bound)
