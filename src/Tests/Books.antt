-- ===== src/Tests/Books.antt =====
-- A user at the address books, beside another account with a calendar.
use edav.Base.{Option, none, some, ◌≡◌, refl}
use edav.Base.Bytes.{Bytes, codes}
use edav.Storage.Objects.{object_by_uri}
use edav.Dav.Books.{put_address_object, delete_address_object}
use edav.Dav.Books.Isolation.{address_books_isolated}
use edav.Tests.Calendars.{ann, database, read_tag, itself}

abbrev card_path : Bytes
card_path = codes "/dav/addressbooks/ann/friends/1.vcf"

abbrev named : Bytes → Option (Bytes × Bytes)
named raw = some (raw, raw)

address_books_isolated_example :
    (object_by_uri
        (put_address_object read_tag named itself
          (codes "/dav")
          9
          database
          (some ann)
          card_path
          (codes "new")
          none).0
        2
        (codes "1.ics")
      ≡ object_by_uri database 2 (codes "1.ics"))
    × (object_by_uri
          (delete_address_object (codes "/dav") 9 database (some ann) card_path).0
          2
          (codes "1.ics")
        ≡ object_by_uri database 2 (codes "1.ics"))
address_books_isolated_example =
    address_books_isolated read_tag named itself (codes "/dav") 9 database ann card_path
      (codes "new") none 2 (codes "1.ics") (refl, tt) refl
