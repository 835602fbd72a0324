-- ===== src/Recipients/Roundtrip.antt =====
-- The recipients, listed as their addresses, are read again as the same.
use whatsapp_email_assistant.Common.{
  ℕ, suc, ◌≡◌, refl, ap, true, false, List, [], ◌∷◌, map, arith, ltb, length, All, Text, mem_text,
  to_lower,
}
use whatsapp_email_assistant.AppError.{ok}
use whatsapp_email_assistant.Recipients.{
  EmailAddress, is_address, parse_recipient, split_addresses, parse_parts, parse_recipient_list,
}
use whatsapp_email_assistant.Recipients.Address.{is_address-is_plain}
use whatsapp_email_assistant.Recipients.Clean.{IsClean, Fresh, parse_recipient_list-AreClean}
use whatsapp_email_assistant.Recipients.Again.{
  Plain, trim-Plain, bare, parse_recipient-clean, spaced, listed, split_from-listed, Filled,
  trim-listed, control-listed, filter-parts,
}

abbrev pub addresses_of : List EmailAddress → List Text
addresses_of rs = map (λ r. r.address) rs

first_of : (s : Text) → is_address s ≡ true → (c : ℕ) × (t : Text) × (s ≡ c ∷ t)
unfolding is_address
first_of [] h = ground arith
first_of (c ∷ t) h = (c, t, refl)

clean-Filled : (rs : List EmailAddress) → All IsClean rs → All Filled (addresses_of rs)
clean-Filled [] h = tt
clean-Filled (r ∷ rs) (v, h) =
    let (c, t, e) = first_of r.address v.is_one in
    ((c, t, e, is_address-is_plain r.address v.is_one), clean-Filled rs h)

clean-Plain : (rs : List EmailAddress) → All IsClean rs → All Plain (addresses_of rs)
clean-Plain [] h = tt
clean-Plain (r ∷ rs) (v, h) = (is_address-is_plain r.address v.is_one, clean-Plain rs h)

parse_parts-cons :
    (seen parts : List Text) (part : Text) (r : EmailAddress) (qs : List EmailAddress)
    → parse_recipient part ≡ ok (bare r)
    → mem_text (to_lower r.address) seen ≡ false
    → parse_parts (to_lower r.address ∷ seen) parts ≡ ok qs
    → parse_parts seen (part ∷ parts) ≡ ok (bare r ∷ qs)
unfolding parse_parts
parse_parts-cons seen parts part r qs e m k = rw (e, parse_parts, m, k) refl

parse_parts-spaced :
    (seen : List Text) (rs : List EmailAddress)
    → All IsClean rs
    → Fresh seen rs
    → parse_parts seen (map spaced (addresses_of rs)) ≡ ok (map bare rs)
unfolding parse_parts
parse_parts-spaced seen [] h f = refl
parse_parts-spaced seen (r ∷ rs) (v, h) (m, f) =
    parse_parts-cons seen (map spaced (addresses_of rs)) (spaced r.address) r (map bare rs)
      (parse_recipient-clean r (spaced r.address) v
        (trim-Plain r.address (is_address-is_plain r.address v.is_one)))
      m (parse_parts-spaced (to_lower r.address ∷ seen) rs h f)

length-parts : (rs : List EmailAddress) → length (map spaced (addresses_of rs)) ≡ length rs
length-parts [] = refl
length-parts (r ∷ rs) = ap suc (length-parts rs)

-- Recipients that were accepted, written as a list of their addresses with a comma and a space
-- between them, are read again as the same addresses in the same order, without the names.
pub parse_recipient_list-again :
    (input : Text) (max : ℕ) (r : EmailAddress) (rs : List EmailAddress)
    → parse_recipient_list input max ≡ ok (r ∷ rs)
    → parse_recipient_list (listed (addresses_of (r ∷ rs))) max ≡ ok (map bare (r ∷ rs))
unfolding parse_recipient_list split_addresses
parse_recipient_list-again input max r rs h =
    let v = parse_recipient_list-AreClean input max (r ∷ rs) h in
    let (one, others) = v.each in
    let (new, fresh) = v.fresh in
    let filled = clean-Filled (r ∷ rs) v.each in
    let plain = clean-Plain (r ∷ rs) v.each in
    let few : ltb max (suc (length (map spaced (addresses_of rs)))) ≡ false =
      ground (arith, length-parts rs, v.few) in
    rw
      (
        trim-listed r.address (addresses_of rs) filled,
        parse_recipient_list,
        control-listed r.address (addresses_of rs) plain,
        split_addresses,
        split_from-listed r.address (addresses_of rs) plain,
        filter-parts r.address (addresses_of rs) filled,
        few,
      )
      (parse_parts-cons [] (map spaced (addresses_of rs)) r.address r (map bare rs)
        (parse_recipient-clean r r.address one
          (trim-Plain r.address (is_address-is_plain r.address one.is_one)))
        new (parse_parts-spaced (to_lower r.address ∷ []) rs others fresh))
