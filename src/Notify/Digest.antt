-- ===== src/Notify/Digest.antt =====
-- buildDigest of packages/whatsapp/src/builders.ts: the list that shows what is waiting. A row's id
-- is the message that a tap on it opens.
use whatsapp_email_assistant.Common.{
  ℕ, ◌-◌, Bool, ◌||◌, Option, none, some, List, [], ◌∷◌, ◌++◌, map, ltb, ◌==◌, if◌then◌else◌,
  length, take, count, Text, codes, join,
}
use whatsapp_email_assistant.Window.{EmailPriority, normal, is_urgent, is_high}
use whatsapp_email_assistant.Builders.{clamp}
use whatsapp_email_assistant.Commands.Taps.{shown}
use whatsapp_email_assistant.Notify.{EmailMessage}

pub record DigestItem : Type 0 where
  pub email_message_id : ℕ
  pub from_name : Option Text
  pub from_address : Text
  pub subject : Text
  pub priority : EmailPriority

pub record ListRow : Type 0 where
  pub opens : ℕ
  pub title : Text
  pub description : Text

pub record ListPayload : Type 0 where
  pub header : Text
  pub body : Text
  pub button_text : Text
  pub section_title : Text
  pub rows : List ListRow

abbrev pub list_row_count : ℕ
list_row_count = 10

abbrev pub or_else {ℓ} : {A : Type ℓ} → Option A → A → A
or_else none y = y
or_else (some x) y = x

abbrev pub subject_or : Text → Text
subject_or [] = codes "(no subject)"
subject_or (c ∷ s) = c ∷ s

abbrev pub digest_row : DigestItem → ListRow
digest_row item = record {
  opens = item.email_message_id;
  title = clamp (or_else item.from_name item.from_address) 24;
  description = clamp (subject_or item.subject) 72;
}

abbrev pub needs_attention : DigestItem → Bool
needs_attention i = is_urgent i.priority || is_high i.priority

abbrev pub plural : ℕ → Text
plural n = if n == 1 then [] else codes "s"

abbrev urgent_line : ℕ → List Text
urgent_line n =
    if ltb 0 n
    then (shown n ++ codes " need" ++ (if n == 1 then codes "s" else []) ++ codes " attention.")
      ∷ []
    else []

abbrev overflow_line : ℕ → ℕ → List Text
overflow_line rows n =
    if ltb 0 n
    then (codes "Showing the first "
        ++ shown rows
        ++ codes "; "
        ++ shown n
        ++ codes " more waiting.")
      ∷ []
    else []

abbrev pub body_lines : List DigestItem → ℕ → List Text
body_lines items rows =
    (codes "You have *"
        ++ shown (length items)
        ++ codes "* new email"
        ++ plural (length items)
        ++ codes ".")
      ∷ urgent_line (count needs_attention items)
    ++ overflow_line rows (length items - rows)

unfoldable pub build_digest : List DigestItem → ListPayload
build_digest items =
    let rows = map digest_row (take list_row_count items) in
    record {
      header = clamp (codes "Your emails") 60;
      body = clamp (join 10 (body_lines items (length rows))) 1024;
      button_text = clamp (codes "View emails") 20;
      section_title = codes "Recent";
      rows = rows;
    }

abbrev pub nonempty : Option Text → Option Text
nonempty none = none
nonempty (some []) = none
nonempty (some (c ∷ cs)) = some (c ∷ cs)

abbrev pub to_item : EmailMessage → DigestItem
to_item m = record {
  email_message_id = m.id;
  from_name = nonempty m.from_name;
  from_address = m.from_address;
  subject = m.subject;
  priority = or_else m.priority normal;
}
