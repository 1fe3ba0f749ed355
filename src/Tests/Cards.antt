-- ===== src/Tests/Cards.antt =====
-- Edits of a card and request paths at concrete inputs.
use edav.Base.{none, some, ◌≡◌, refl}
use edav.Base.Bytes.{Bytes, codes}
use edav.ContentLine.Document.{parse}
use edav.ContentLine.Edit.{Span, find, delete}
use edav.ContentLine.Edit.Delete.{find-delete}
use edav.Vcard.{Card, values, set_all}
use edav.Vcard.Unchanged.{set_all-values}
use edav.Dav.Paths.{Resource, address_object, slash}
use edav.Dav.Paths
use edav.Dav.Paths.RoundTrip.{IsNamed, path_of, parse-path_of}

-- A card with a group and two telephone numbers.
abbrev text : Bytes
text =
    codes "BEGIN:VCARD\nVERSION:4.0\nitem1.TEL;TYPE=cell:1\nitem1.X-ABLabel:own\nTEL:2\nEND:VCARD\n"

abbrev all : Span
all = record { start = 1; end = 5 }

abbrev sample : Card
sample = record { doc = parse text; span = all }

find-delete_example :
    find
      (delete (parse text) all (codes "tel")).0
      (delete (parse text) all (codes "tel")).1
      (codes "tel")
    ≡ none
find-delete_example = find-delete (parse text) all (codes "tel")

set_all-values_example : set_all sample (codes "TEL") (values sample (codes "TEL")) ≡ sample
set_all-values_example = set_all-values sample (codes "TEL")

abbrev contact : Resource
contact = address_object (codes "ann") (codes "home") (codes "1.vcf")

contact-IsNamed : IsNamed contact
contact-IsNamed = (
  record { filled = cc; no_slash = refl },
  record { filled = cc; no_slash = refl },
  record { filled = cc; no_slash = refl },
)

parse-path_of_example : Paths.parse (codes "/dav") (path_of (codes "/dav") contact) ≡ some contact
parse-path_of_example = parse-path_of (codes "/dav") contact contact-IsNamed
