-- ===== src/Watches/Laws.antt =====
-- Renewals in any order keep the two expiries equal and never move a cursor.
use whatsapp_email_assistant.Common.{
  ℕ, ◌≡◌, refl, sym, ap, ◌∙◌, inl, inr, Bool, Option, none, some, List, [], ◌∷◌, arith, ◌==◌,
  ==_refl, Bool-cases, Option-cases, filter, All, Text, ℕ_discrete,
}
use whatsapp_email_assistant.AppError.{ErrorCode}
use whatsapp_email_assistant.Watches.{
  Account, Route, Tables, account_of, put, expire_routes, kept_cursor, record_renewed,
  record_unavailable, record_renewal_failure, drop_route,
}
use whatsapp_email_assistant.Watches.Renew.{mark_reauth_required}

-- The expiry on a route is that of its account.
abbrev pub Agrees : (ℕ → Option Account) → Route → Type 0
Agrees accounts r =
    (a : Account) → accounts r.account_id ≡ some a → r.route_expires_at ≡ a.watch_expires_at

abbrev pub Agree : Tables → Type 0
Agree t = All (Agrees t.accounts) t.routes

account_of-some :
    (t : Tables) (user id : ℕ) (a : Account)
    → account_of t user id ≡ some a
    → t.accounts id ≡ some a
account_of-some t user id a h = elim (Option-cases (t.accounts id)) [
  | inl e ↦ ground arith
  | inr (b, e) ↦ ground arith
]

some-injective {ℓ} : {A : Type ℓ} (x y : A) → some x ≡ some y → x ≡ y
some-injective x y h = ground arith

both_set :
    (accounts : ℕ → Option Account) (id : ℕ) (new : Account) (at : Option ℕ) (routes : List Route)
    → new.watch_expires_at ≡ at
    → All (Agrees accounts) routes
    → All (Agrees (put id new accounts)) (expire_routes id at routes)
both_set accounts id new at [] w h = tt
both_set accounts id new at (r ∷ routes) w (k, h) = (
  elim (Bool-cases (r.account_id == id)) [
    | inl e ↦ rw e (λ a f. ground (arith, w))
    | inr e ↦ rw e (λ a f. k a (rw e at f))
  ],
  both_set accounts id new at routes w h,
)

kept :
    (accounts : ℕ → Option Account) (id : ℕ) (old new : Account) (routes : List Route)
    → accounts id ≡ some old
    → new.watch_expires_at ≡ old.watch_expires_at
    → All (Agrees accounts) routes
    → All (Agrees (put id new accounts)) routes
kept accounts id old new [] f w h = tt
kept accounts id old new (r ∷ routes) f w (k, h) = (
  λ a g. elim (ℕ_discrete r.account_id id) [
    | yes e ↦ k old (rw e f) ∙ sym w ∙ ground arith
    | no e ↦ k a (ground arith)
  ],
  kept accounts id old new routes f w h,
)

dropped :
    (accounts : ℕ → Option Account) (p : Route → Bool) (routes : List Route)
    → All (Agrees accounts) routes
    → All (Agrees accounts) (filter p routes)
dropped accounts p [] h = tt
dropped accounts p (r ∷ routes) (k, h) = elim (Bool-cases (p r)) [
  | inl e ↦ rw e (k, dropped accounts p routes h)
  | inr e ↦ rw e (dropped accounts p routes h)
]

-- The account is still there, with the cursor it had.
abbrev pub KeepsCursors : (ℕ → Option Account) → (ℕ → Option Account) → Type 0
KeepsCursors before after =
    (k x : ℕ) (xs : Text) (a : Account)
    → before k ≡ some a
    → a.sync_cursor ≡ some (x ∷ xs)
    → (b : Account) × (after k ≡ some b) × (b.sync_cursor ≡ some (x ∷ xs))

put-KeepsCursors :
    (accounts : ℕ → Option Account) (id : ℕ) (old new : Account)
    → accounts id ≡ some old
    → ((x : ℕ) (xs : Text) → old.sync_cursor ≡ some (x ∷ xs) → new.sync_cursor ≡ some (x ∷ xs))
    → KeepsCursors accounts (put id new accounts)
put-KeepsCursors accounts id old new f keep k x xs a e c = elim (ℕ_discrete k id) [
  | yes p ↦
      let same : old ≡ a = some-injective old a (sym f ∙ ap accounts (sym p) ∙ e) in
      (new, rw p (rw (==_refl id) refl), keep x xs (rw same c))
  | no p ↦ (a, ground arith, c)
]

pub record Keeps (t u : Tables) : Type 0 where
  pub agree : Agree t → Agree u
  pub cursors : KeepsCursors t.accounts u.accounts

pub same-Keeps : (t : Tables) → Keeps t t
same-Keeps t = record { agree = λ h. h; cursors = λ k x xs a e c. (a, e, c) }

pub drop_route-Keeps : (t u : Tables) (id : ℕ) → Keeps t u → Keeps t (drop_route u id)
unfolding drop_route
drop_route-Keeps t u id v = record {
  agree = λ h. dropped u.accounts _ u.routes (v.agree h);
  cursors = v.cursors;
}

kept_cursor-some :
    (o : Option Text) (cursor : Text) (x : ℕ) (xs : Text)
    → o ≡ some (x ∷ xs)
    → kept_cursor o cursor ≡ some (x ∷ xs)
kept_cursor-some o cursor x xs h = rw h refl

pub record_renewed-Keeps :
    (t u : Tables) (user id expires_at : ℕ) (cursor : Text) (sub : Option Text)
    → record_renewed t user id expires_at cursor sub ≡ some u
    → Keeps t u
unfolding record_renewed
record_renewed-Keeps t u user id expires_at cursor sub h =
    elim (Option-cases (account_of t user id)) [
      | inl e ↦ ground arith
      | inr (a, e) ↦ rw (sym (some-injective _ u (rw (e, record_renewed) at h))) (record {
        agree = both_set t.accounts id _ (some expires_at) t.routes refl;
        cursors =
            put-KeepsCursors t.accounts id a _ (account_of-some t user id a e)
              (λ x xs c. kept_cursor-some a.sync_cursor cursor x xs c);
      })
    ]

pub record_unavailable-Keeps :
    (t u : Tables) (user id : ℕ) (code : ErrorCode) (now : ℕ)
    → record_unavailable t user id code now ≡ some u
    → Keeps t u
unfolding record_unavailable
record_unavailable-Keeps t u user id code now h = elim (Option-cases (account_of t user id)) [
  | inl e ↦ ground arith
  | inr (a, e) ↦ rw (sym (some-injective _ u (rw (e, record_unavailable) at h))) (record {
    agree = both_set t.accounts id _ none t.routes refl;
    cursors = put-KeepsCursors t.accounts id a _ (account_of-some t user id a e) (λ x xs c. c);
  })
]

pub record_renewal_failure-Keeps :
    (t u : Tables) (user id : ℕ) (code : ErrorCode) (now : ℕ)
    → record_renewal_failure t user id code now ≡ some u
    → Keeps t u
unfolding record_renewal_failure
record_renewal_failure-Keeps t u user id code now h = elim (Option-cases (account_of t user id)) [
  | inl e ↦ ground arith
  | inr (a, e) ↦ rw (sym (some-injective _ u (rw (e, record_renewal_failure) at h))) (record {
    agree = kept t.accounts id a _ t.routes (account_of-some t user id a e) refl;
    cursors = put-KeepsCursors t.accounts id a _ (account_of-some t user id a e) (λ x xs c. c);
  })
]

pub mark_reauth_required-Keeps :
    (t u : Tables) (user id : ℕ) (code : ErrorCode) (now : ℕ)
    → mark_reauth_required t user id code now ≡ some u
    → Keeps t u
unfolding mark_reauth_required
mark_reauth_required-Keeps t u user id code now h = elim (Option-cases (account_of t user id)) [
  | inl e ↦ ground arith
  | inr (a, e) ↦ rw (sym (some-injective _ u (rw (e, mark_reauth_required) at h))) (record {
    agree = kept t.accounts id a _ t.routes (account_of-some t user id a e) refl;
    cursors = put-KeepsCursors t.accounts id a _ (account_of-some t user id a e) (λ x xs c. c);
  })
]
