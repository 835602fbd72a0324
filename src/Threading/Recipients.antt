-- ===== src/Threading/Recipients.antt =====
-- Elements are kept once by their key, and the recipients of a reply to all.
use whatsapp_email_assistant.Common.{
  ◌≡◌, refl, sym, ap, ◌∙◌, ◌≢◌, inl, inr, Bool, true, false, not, ◌&&◌, ◌||◌, List, [], ◌∷◌, ◌++◌,
  map, arith, Bool-cases, Text, text_eq, text_eq_iff, text_eq_refl, mem_text, trim, to_lower,
}
use whatsapp_email_assistant.Threading.{
  unseen, Original, primary_of, address_key, resolve_reply_recipients,
}

-- No key twice.
abbrev pub distinct : List Text → Bool
distinct [] = true
distinct (t ∷ ts) = not (mem_text t ts) && distinct ts

true≢false : true ≢ false
true≢false h = ground arith

-- A member of a list and another text that is not differ.
text_eq-member :
    (t u : Text) (ts : List Text)
    → mem_text t ts ≡ true
    → mem_text u ts ≡ false
    → (text_eq u t ≡ false) × (text_eq t u ≡ false)
text_eq-member t u ts h k =
    (apart u t λ e. ap (λ v. mem_text v ts) e, apart t u λ e. ap (λ v. mem_text v ts) (sym e))
  where
    apart : (v w : Text) → ((v ≡ w) → mem_text u ts ≡ mem_text t ts) → text_eq v w ≡ false
    apart v w f = elim (Bool-cases (text_eq v w)) [
      | inl e ↦ absurd (true≢false (sym h ∙ sym (f ((text_eq_iff v w).0 e)) ∙ k))
      | inr e ↦ e
    ]

module _ {ℓ} {A : Type ℓ} (key : A → Text) where
  unseen-skip :
      (seen : List Text) (x : A) (xs : List A)
      → mem_text (key x) seen ≡ true
      → unseen key seen (x ∷ xs) ≡ unseen key seen xs
  unfolding unseen
  unseen-skip seen x xs h = rw (h, unseen) refl

  unseen-keep :
      (seen : List Text) (x : A) (xs : List A)
      → mem_text (key x) seen ≡ false
      → unseen key seen (x ∷ xs) ≡ x ∷ unseen key (key x ∷ seen) xs
  unfolding unseen
  unseen-keep seen x xs h = rw (h, unseen) refl

  pub unseen-avoids :
      (seen : List Text) (xs : List A) (t : Text)
      → mem_text t seen ≡ true
      → mem_text t (map key (unseen key seen xs)) ≡ false
  unfolding unseen
  unseen-avoids seen [] t h = refl
  unseen-avoids seen (x ∷ xs) t h = elim (Bool-cases (mem_text (key x) seen)) [
    | inl e ↦ rw (unseen-skip seen x xs e) (unseen-avoids seen xs t h)
    | inr e ↦
        let (other, _) = text_eq-member t (key x) seen h e in
        let later : mem_text t (key x ∷ seen) ≡ true = rw (h, other) refl in
        rw (unseen-keep seen x xs e, other) (unseen-avoids (key x ∷ seen) xs t later)
  ]

  pub unseen-distinct :
      (seen : List Text) (xs : List A) → distinct (map key (unseen key seen xs)) ≡ true
  unfolding unseen
  unseen-distinct seen [] = refl
  unseen-distinct seen (x ∷ xs) = elim (Bool-cases (mem_text (key x) seen)) [
    | inl e ↦ rw (unseen-skip seen x xs e) (unseen-distinct seen xs)
    | inr e ↦
        let here : mem_text (key x) (key x ∷ seen) ≡ true = rw (text_eq_refl (key x)) refl in
        rw
          (
            unseen-keep seen x xs e,
            unseen-avoids (key x ∷ seen) xs (key x) here,
            unseen-distinct (key x ∷ seen) xs,
          )
          refl
  ]

  -- Every key is kept, unless it was seen before.
  pub unseen_complete :
      (seen : List Text) (xs : List A) (t : Text)
      → mem_text t (map key xs) ≡ true
      → mem_text t seen ≡ false
      → mem_text t (map key (unseen key seen xs)) ≡ true
  unseen_complete seen [] t h k = ground arith
  unseen_complete seen (x ∷ xs) t h k = elim (Bool-cases (mem_text (key x) seen)) [
    | inl e ↦
        let (_, other) = text_eq-member (key x) t seen e k in
        rw (unseen-skip seen x xs e)
          (unseen_complete seen xs t (sym (ap (λ b. b || mem_text t (map key xs)) other) ∙ h) k)
    | inr e ↦ elim (Bool-cases (text_eq (key x) t)) [
      | inl same ↦ rw (unseen-keep seen x xs e, same) refl
      | inr other ↦
          rw (unseen-keep seen x xs e, other)
            (unseen_complete (key x ∷ seen) xs t
              (sym (ap (λ b. b || mem_text t (map key xs)) other) ∙ h) (rw (other, k) refl))
    ]
  ]

-- A reply to all goes to the primary correspondent; its copies go to no address twice, neither to
-- the user nor to the primary correspondent, and to everyone else among the original's recipients.
pub reply_all-recipients :
    (original : Original) (self_address : Text)
    → let primary = primary_of original original.reply_to in
      let self = to_lower (trim self_address) in
      let (to, cc) = resolve_reply_recipients original self_address true in
      (to ≡ primary ∷ [])
      × (distinct (map address_key cc) ≡ true)
      × (mem_text self (map address_key cc) ≡ false)
      × (mem_text (address_key primary) (map address_key cc) ≡ false)
      × ((t : Text)
          → mem_text t (map address_key (original.to ++ original.cc)) ≡ true
          → text_eq self t ≡ false
          → text_eq (address_key primary) t ≡ false
          → mem_text t (map address_key cc) ≡ true)
unfolding resolve_reply_recipients
reply_all-recipients original self_address =
    let primary = address_key (primary_of original original.reply_to) in
    let self = to_lower (trim self_address) in
    let seen = self ∷ primary ∷ [] in
    let all_of_them = original.to ++ original.cc in
    (
      refl,
      unseen-distinct address_key seen all_of_them,
      unseen-avoids address_key seen all_of_them self (rw (text_eq_refl self) refl),
      unseen-avoids address_key seen all_of_them primary (ground (arith, text_eq_refl primary)),
      λ t h not_self not_primary.
          unseen_complete address_key seen all_of_them t h (rw (not_self, not_primary) refl),
    )
