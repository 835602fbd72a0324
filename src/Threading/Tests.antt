-- ===== src/Threading/Tests.antt =====
-- Runs of the threading rules, and the theorems about them on a reply in a thread.
use whatsapp_email_assistant.Common.{
  ◌≡◌, refl, true, false, none, List, [], ◌∷◌, ◌++◌, map, Text, codes, text_eq, mem_text, trim,
  to_lower,
}
use whatsapp_email_assistant.Threading.{
  is_empty, normalize_message_id, ancestors, trim_references, build_reply_headers, EmailAddress,
  Original, primary_of, address_key, resolve_reply_recipients, unseen, chain_of,
}
use whatsapp_email_assistant.Threading.{
  strip_prefix, strip_passes, strip_reply_prefixes, build_reply_subject, build_forward_subject,
}
use whatsapp_email_assistant.Threading.Recipients.{distinct, reply_all-recipients}

normalize_run : normalize_message_id (codes " a@x> ") ≡ codes "<a@x>"
unfolding normalize_message_id
normalize_run = refl

abbrev thread : List Text
thread = codes "<r@x>" ∷ codes "a@x" ∷ codes "<r@x>" ∷ codes "<>" ∷ []

headers_run :
    (build_reply_headers (codes "p@x") thread (codes "RE: Re[2]: Hi")).references
    ≡ codes "<r@x>" ∷ codes "<a@x>" ∷ codes "<p@x>" ∷ []
unfolding build_reply_headers trim_references chain_of ancestors unseen normalize_message_id
headers_run = refl

parent_present : is_empty (normalize_message_id (codes "p@x")) ≡ false
unfolding normalize_message_id
parent_present = refl

parent_new : mem_text (normalize_message_id (codes "p@x")) (ancestors thread) ≡ false
unfolding ancestors unseen normalize_message_id
parent_new = refl

abbrev person : Text → EmailAddress
person a = record { address = a; name = none }

abbrev original : Original
original = record {
  from = person (codes "ann@x");
  reply_to = none;
  to = person (codes "Me@x") ∷ person (codes "bob@x") ∷ [];
  cc = person (codes "Bob@x") ∷ person (codes "ANN@x") ∷ [];
}

reply_all_run :
    resolve_reply_recipients original (codes " me@x") true
    ≡ (person (codes "ann@x") ∷ [], person (codes "bob@x") ∷ [])
unfolding resolve_reply_recipients unseen
reply_all_run = refl

reply_all-recipients_example :
    let primary = primary_of original original.reply_to in
    let self = to_lower (trim (codes " me@x")) in
    let (to, cc) = resolve_reply_recipients original (codes " me@x") true in
    (to ≡ primary ∷ [])
    × (distinct (map address_key cc) ≡ true)
    × (mem_text self (map address_key cc) ≡ false)
    × (mem_text (address_key primary) (map address_key cc) ≡ false)
    × ((t : Text)
        → mem_text t (map address_key (original.to ++ original.cc)) ≡ true
        → text_eq self t ≡ false
        → text_eq (address_key primary) t ≡ false
        → mem_text t (map address_key cc) ≡ true)
reply_all-recipients_example = reply_all-recipients original (codes " me@x")

abbrev stacked : Text
stacked = codes " RE: Aw: Re[2] : 回复: Hi "

subject_run : build_reply_subject stacked ≡ codes "Re: Hi"
unfolding build_reply_subject strip_reply_prefixes strip_passes strip_prefix
subject_run = refl

forward_run : build_forward_subject (codes "Re: ") ≡ codes "Fwd: (no subject)"
unfolding build_forward_subject strip_reply_prefixes strip_passes strip_prefix
forward_run = refl

forward_again : build_forward_subject (codes "FW: Hi") ≡ codes "FW: Hi"
unfolding build_forward_subject
forward_again = refl

stacked_stripped : strip_prefix (strip_reply_prefixes stacked) ≡ strip_reply_prefixes stacked
unfolding strip_reply_prefixes strip_passes strip_prefix
stacked_stripped = refl
