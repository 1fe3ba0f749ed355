-- ===== src/Tests/Contact.antt =====
-- Names with a semicolon, and a card with a group of lines.
use edav.Base.{[], ◌∷◌, ◌++◌, map, ◌≡◌, refl, List, false, true}
use edav.Base.Bytes.{Bytes, codes}
use edav.ContentLine.Document.{Line}
use edav.Vcard.{Card, set_all}
use edav.Vcard.Contact.{read_names, structured_name}
use edav.Vcard.Contact.Names.{read_names-structured_name}

read_names-structured_name_example :
    read_names (structured_name (codes "a;b") (codes "c")) ≡ (codes "a;b", codes "c")
read_names-structured_name_example = read_names-structured_name (codes "a;b") (codes "c")

abbrev line : Bytes → Bytes → Bytes → Line
line group name value = record {
  raw = [];
  eol = [];
  group = group;
  name = name;
  params = [];
  value = value;
  dirty = false;
  added = true;
}

-- A label, a number, a number in the group of the label, and a note.
abbrev grouped : Card
grouped = record {
  doc =
      line [] (codes "BEGIN") (codes "VCARD")
      ∷ line (codes "g") (codes "X-LABEL") []
      ∷ line [] (codes "TEL") (codes "1")
      ∷ line (codes "g") (codes "TEL") (codes "2")
      ∷ line [] (codes "NOTE") []
      ∷ line [] (codes "END") (codes "VCARD")
      ∷ [];
  span = record { start = 1; end = 5 };
}

-- Taking away both numbers takes the note and leaves a number.
set_all_test :
    map (λ (l : Line). l.name) (set_all grouped (codes "TEL") []).doc
    ≡ codes "BEGIN" ∷ codes "TEL" ∷ codes "END" ∷ []
unfolding set_all edav.Vcard.remove_rest edav.ContentLine.Edit.find_all
    edav.ContentLine.Edit.find_all_from edav.Base.Bytes.equal edav.Base.Bytes.to_upper
    edav.ContentLine.Edit.contains edav.ContentLine.Edit.count_name edav.ContentLine.Edit.remove
    edav.Vcard.write_values edav.ContentLine.Edit.remove_loop
set_all_test = refl
