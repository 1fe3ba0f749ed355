-- ===== src/Vcard/Contact.antt =====
-- internal/vcard/contact.go: the contact of a form, read from a card and written to it. Formatting an
-- instant is package time's, and a new random UID is a parameter.
pub mod Names
use edav.Base.{
  ℕ, Bool, true, false, not, ◌&&◌, ◌||◌, List, [], ◌∷◌, ◌++◌, Option, none, some, ◌==◌,
  if◌then◌else◌, ◌>>=◌, map,
}
use edav.Base.Bytes.{Bytes, codes, filename_byte}
use edav.Base.Time.{trim_space}
use edav.ContentLine.Escape.{escape_component, split_structured}
use edav.ContentLine.Lines.{crlf}
use edav.ContentLine.Document.{is_empty}
use edav.ContentLine.Edit.{value, raw_value}
use edav.Vcard.{
  Card, CardResult, card, failed, Property, parse, bytes, values, set_card, set_raw_card, set_all,
  touch,
}

pub record Contact : Type 0 where
  pub uid : Bytes
  pub formatted_name : Bytes
  pub family_name : Bytes
  pub given_name : Bytes
  pub organisation : Bytes
  pub title : Bytes
  pub note : Bytes
  pub phones : List Property
  pub emails : List Property
  pub url : Bytes

abbrev pub first_or_empty : List Bytes → Bytes
first_or_empty [] = []
first_or_empty (p ∷ ps) = p

abbrev pub second_or_empty : List Bytes → Bytes
second_or_empty [] = []
second_or_empty (p ∷ ps) = first_or_empty ps

-- `firstField`.
unfoldable pub first_field : Bytes → Bytes
first_field s = first_or_empty (split_structured s)

-- The family and the given name of a raw N.
unfoldable pub read_names : Bytes → Bytes × Bytes
read_names [] = ([], [])
read_names (c ∷ n) =
    let parts = split_structured (c ∷ n) in (first_or_empty parts, second_or_empty parts)

abbrev pub card_value : Card → Bytes → Bytes
card_value v name = value v.doc v.span name

unfoldable pub contact_of : Card → Contact
unfolding first_field read_names
contact_of v = record {
  uid = card_value v (codes "UID");
  formatted_name = card_value v (codes "FN");
  family_name = (read_names (raw_value v.doc v.span (codes "N"))).0;
  given_name = (read_names (raw_value v.doc v.span (codes "N"))).1;
  organisation = first_field (raw_value v.doc v.span (codes "ORG"));
  title = card_value v (codes "TITLE");
  note = card_value v (codes "NOTE");
  phones = values v (codes "TEL");
  emails = values v (codes "EMAIL");
  url = card_value v (codes "URL");
}

-- `ReadContact`.
unfoldable pub read_contact : Bytes → Option Contact
unfolding contact_of
read_contact raw = elim (parse raw) [ failed e ↦ none | card v ↦ some (contact_of v) ]

unfoldable pub is_valid : Contact → Bool
is_valid c = not (
    is_empty (trim_space c.formatted_name)
    && (is_empty (trim_space c.given_name) && is_empty (trim_space c.family_name)))

unfoldable pub display_name : Contact → Bytes
display_name c =
    if is_empty c.formatted_name
    then trim_space (c.given_name ++ b' ' ∷ c.family_name)
    else c.formatted_name

unfoldable pub normalise : Contact → Contact
unfolding display_name
normalise c = if is_empty c.formatted_name then record c { formatted_name = display_name c } else c

unfoldable pub structured_name : Bytes → Bytes → Bytes
structured_name family given =
    if is_empty family && is_empty given
    then []
    else escape_component family ++ (b';' ∷ (escape_component given ++ codes ";;;"))

-- The loop over the fields behind the first one.
unfoldable pub escaped_rest : List Bytes → Bytes
escaped_rest [] = []
escaped_rest (part ∷ parts) = b';' ∷ (escape_component part ++ escaped_rest parts)

abbrev pub rest_of : List Bytes → List Bytes
rest_of [] = []
rest_of (p ∷ ps) = ps

unfoldable pub organisation_value : Bytes → Bytes → Bytes
unfolding escaped_rest
organisation_value [] existing = []
organisation_value (c ∷ organisation) existing =
    escape_component (c ∷ organisation) ++ escaped_rest (rest_of (split_structured existing))

unfoldable pub non_blank : List Property → List Property
non_blank [] = []
non_blank (p ∷ ps) = elim (is_empty (trim_space p.value)) [
  | true ↦ non_blank ps
  | false ↦ p ∷ non_blank ps
]

unfoldable pub write_names : Card → Contact → Card
unfolding structured_name
write_names v c =
    set_raw_card (set_card v (codes "FN") c.formatted_name) (codes "N")
      (structured_name c.family_name c.given_name)

unfoldable pub write_texts : Card → Contact → Card
write_texts v c =
    set_card (set_card (set_card v (codes "TITLE") c.title) (codes "NOTE") c.note) (codes "URL")
      c.url

unfoldable pub write_lists : Card → Contact → Card
unfolding non_blank
write_lists v c =
    set_all (set_all v (codes "TEL") (non_blank c.phones)) (codes "EMAIL") (non_blank c.emails)

unfoldable pub write_organisation : Card → Contact → Card
unfolding organisation_value
write_organisation v c =
    set_raw_card v (codes "ORG")
      (organisation_value c.organisation (raw_value v.doc v.span (codes "ORG")))

-- `Filename`.
unfoldable pub filename : Bytes → Bytes
unfolding filename_byte
filename uid = map filename_byte uid ++ codes ".vcf"

-- What `Apply` does to the card, in front of the stamp.
unfoldable pub write_contact : Card → Contact → Card
unfolding write_names write_texts write_lists write_organisation normalise
write_contact v c =
    let named = normalise c in
    write_organisation (write_lists (write_texts (write_names v named) named) named) named

module _ {Instant : Type 0} (format_utc : Instant → Bytes) where
  -- `Apply`.
  unfoldable pub apply : Bytes → Contact → Instant → Option Bytes
  unfolding is_valid write_contact
  apply raw c now = elim (parse raw) [
    | failed e ↦ none
    | card v ↦ if is_valid c then bytes (touch format_utc (write_contact v c) now) else none
  ]

  -- `New`, with the UID that `NewUID` would give.
  unfoldable pub new_card : Bytes → Contact → Instant → Option Bytes
  unfolding is_valid apply
  new_card random_uid c now =
      let uid = if is_empty c.uid then random_uid else c.uid in
      if is_valid c
      then apply
          (codes "BEGIN:VCARD"
            ++ crlf
            ++ codes "VERSION:3.0"
            ++ crlf
            ++ codes "UID:"
            ++ uid
            ++ crlf
            ++ codes "END:VCARD"
            ++ crlf)
          c now
      else none
