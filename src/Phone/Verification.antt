-- ===== src/Phone/Verification.antt =====
-- apps/api/src/auth/phone-verification.service.ts, and redeemPhoneCode of
-- apps/worker/src/repositories/inbox.repository.ts: linking a phone to an account by a code that is
-- sent from it. The random draws and the hash are parameters; the table is its rows, of which the
-- database keeps each number and each live code unique.
use whatsapp_email_assistant.Common.{
  ℕ, zero, suc, ◌+◌, ◌*◌, Bool, true, false, not, ◌&&◌, ◌||◌, Option, none, some, List, [], ◌∷◌,
  ◌++◌, map, ltb, leb, ◌==◌, if◌then◌else◌, length, all, any, filter, find, Text, codes, text_eq,
  is_space, trim, to_upper,
}
use whatsapp_email_assistant.AppError.{
  Result, ok, err, Thrown, known, unknown, app_error, conflict, not_found,
}
use whatsapp_email_assistant.Phone.{normalize_phone}

pub record User : Type 0 where
  pub id : ℕ
  pub phone_number : Option Text
  pub phone_verified : Bool
  pub code_hash : Option ℕ
  pub code_expires_at : Option ℕ
  pub deleted_at : Option ℕ

abbrev pub code_ttl_ms : ℕ
code_ttl_ms = 10 * 60000

abbrev pub alphabet : Text
alphabet = codes "23456789ABCDEFGHJKMNPQRSTVWXYZ"

abbrev pub letter_at : ℕ → Text → Text
letter_at i [] = []
letter_at zero (c ∷ s) = c ∷ []
letter_at (suc i) (c ∷ s) = letter_at i s

-- The draws are those of `randomInt`, eight of them.
unfoldable pub generate_code : List ℕ → Text
generate_code [] = []
generate_code (d ∷ draws) = letter_at d alphabet ++ generate_code draws

-- `[2-9A-HJ-NP-Z]`.
abbrev pub is_code_letter : ℕ → Bool
is_code_letter c =
    (leb b'2' c && leb c b'9')
    || ((leb b'A' c && leb c b'H') || ((leb b'J' c && leb c b'N') || (leb b'P' c && leb c b'Z')))

abbrev pub cleaned : Text → Text
cleaned raw = filter (λ c. not (is_space c || c == b'-')) (to_upper (trim raw))

unfoldable pub normalize_code : Text → Option Text
normalize_code raw =
    if length (cleaned raw) == 8 && all is_code_letter (cleaned raw)
    then some (cleaned raw)
    else none

abbrev pub update_user : ℕ → (User → User) → List User → List User
update_user id f rows = map (λ u. if u.id == id then f u else u) rows

abbrev pub holds_code : ℕ → ℕ → User → Bool
holds_code hash now u = elim u.code_hash [
  | none ↦ false
  | some h ↦
      h == hash
      && (elim u.code_expires_at [ none ↦ false | some at ↦ ltb now at ]
          && elim u.deleted_at [ none ↦ true | some _ ↦ false ])
]

abbrev pub has_number : Text → User → Bool
has_number phone u = elim u.phone_number [ none ↦ false | some p ↦ text_eq p phone ]

-- The unique index on numbers: whether another user has this one.
abbrev pub is_taken : ℕ → Text → List User → Bool
is_taken id phone rows = any (λ u. not (u.id == id) && has_number phone u) rows

abbrev pub has_hash : ℕ → User → Bool
has_hash hash u = elim u.code_hash [ none ↦ false | some h ↦ h == hash ]

-- The unique index on the hashes of codes.
abbrev pub is_issued : ℕ → ℕ → List User → Bool
is_issued id hash rows = any (λ u. not (u.id == id) && has_hash hash u) rows

abbrev pub with_code : ℕ → ℕ → User → User
with_code hash expires_at u = record u { code_hash = some hash; code_expires_at = some expires_at }

abbrev pub linked : Text → User → User
linked phone u = record u {
  phone_number = some phone;
  phone_verified = true;
  code_hash = none;
  code_expires_at = none;
}

abbrev pub unlinked : User → User
unlinked u = record u {
  phone_number = none;
  phone_verified = false;
  code_hash = none;
  code_expires_at = none;
}

abbrev pub number_conflict : Thrown
number_conflict = known (
    app_error conflict
      (some (
        codes
          "That number is already connected to a different account. Disconnect it there first."))
      (some false))

module _ (hash_code : Text → ℕ) where
  -- A clash of codes is an error of the database.
  unfoldable pub start : List User → ℕ → List ℕ → ℕ → List User × Result (Text × ℕ)
  start rows user draws now =
      let code = generate_code draws in
      if is_issued user (hash_code code) rows then (rows, err unknown) else (
        update_user user (with_code (hash_code code) (now + code_ttl_ms)) rows,
        ok (code, now + code_ttl_ms),
      )

  abbrev pub redeem_for : List User → Text → Option User → List User × Result (Option (ℕ × Text))
  redeem_for rows phone none = (rows, ok none)
  redeem_for rows phone (some u) =
      if is_taken u.id phone rows
      then (rows, err number_conflict)
      else (update_user u.id (linked phone) rows, ok (some (u.id, phone)))

  abbrev pub redeem_normalized :
      List User → Option Text → Option Text → ℕ → List User × Result (Option (ℕ × Text))
  redeem_normalized rows none phone now = (rows, ok none)
  redeem_normalized rows (some code) none now = (rows, ok none)
  redeem_normalized rows (some code) (some phone) now =
      redeem_for rows phone (find (holds_code (hash_code code) now) rows)

  unfoldable pub redeem : List User → Text → Text → ℕ → List User × Result (Option (ℕ × Text))
  redeem rows raw_code raw_phone now =
      redeem_normalized rows (normalize_code raw_code) (normalize_phone raw_phone none) now

-- The worker's: it has the hash and the number, and says nothing of a number that is taken.
abbrev pub redeem_code_for : List User → Text → Option User → List User × Option ℕ
redeem_code_for rows phone none = (rows, none)
redeem_code_for rows phone (some u) =
    if is_taken u.id phone rows
    then (rows, none)
    else (update_user u.id (linked phone) rows, some u.id)

unfoldable pub redeem_phone_code : List User → ℕ → Text → ℕ → List User × Option ℕ
redeem_phone_code rows hash phone now = redeem_code_for rows phone (find (holds_code hash now) rows)

unfoldable pub unlink : List User → ℕ → List User
unlink rows user = update_user user unlinked rows

pub record PhoneStatus : Type 0 where
  pub number : Option Text
  pub verified : Bool
  pub code_pending : Bool

unfoldable pub status : List User → ℕ → ℕ → Result PhoneStatus
status rows user now = elim (find (λ u. u.id == user) rows) [
  | none ↦ err (known (app_error not_found none none))
  | some u ↦ ok (record {
    number = u.phone_number;
    verified = u.phone_verified;
    code_pending = elim u.code_expires_at [ none ↦ false | some at ↦ ltb now at ];
  })
]
