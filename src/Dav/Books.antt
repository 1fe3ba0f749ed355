-- ===== src/Dav/Books.antt =====
-- internal/dav/carddav.go: the CardDAV backend, as the shared operations of the two backends on address
-- books. Parsing vCards, here the UID and the FN of `cardIndex`, and entity tags and the hash of the bytes
-- are parameters; a request for some properties only, which parses the stored bytes, is not modelled.
pub mod Isolation
use edav.Base.{ℕ, false, List, [], ◌∷◌, Option, none, some}
use edav.Base.Bytes.{Bytes, codes}
use edav.Storage.{Collection, User, Database}
use edav.Storage
use edav.Dav.Paths.{
  Resource, address_book, address_object, address_book_path, address_book_home_path,
  address_object_path,
}
use edav.Dav.Sync.{encode_sync_token}
use edav.Dav.Backend.{
  Outcome, done, and_then, PutOptions, Bounds, StoredObject, put_at, get_at, delete_at,
}
use edav.Dav.Backend.Collections.{
  user_from, CollectionView, NewCollection, SyncResponse, create_at, list_at, get_collection_at,
  list_objects_at, sync_at, delete_collection_at,
}

-- What a path of the right kind names.
abbrev pub address_book_name : Resource → Option Bytes
address_book_name (address_book username uri) = some uri
address_book_name _ = none

abbrev pub address_object_names : Resource → Option (Bytes × Bytes)
address_object_names (address_object username uri object) = some (uri, object)
address_object_names _ = none

-- `card` reads the UID and the FN of a vCard; a card without a UID is refused.
unfoldable pub card_index : (Bytes → Option (Bytes × Bytes)) → Bytes → Option (Bytes × Bytes)
card_index card raw = elim (card raw) [
  | none ↦ none
  | some values ↦ elim values.0 [ [] ↦ none | c ∷ uid ↦ some (c ∷ uid, values.1) ]
]

-- The columns that `PutAddressObject` fills in.
abbrev pub card_bounds : Bytes × Bytes → Bounds
card_bounds values = record {
  uid = values.0;
  component_type = codes "VCARD";
  summary = values.1;
  start = none;
  end = none;
  recurring = false;
}

unfoldable pub index_card : (Bytes → Option (Bytes × Bytes)) → Bytes → Option Bounds
index_card card raw = elim (card_index card raw) [
  | none ↦ none
  | some values ↦ some (card_bounds values)
]

-- `addressBook`.
unfoldable pub address_book_view : Bytes → Bytes → Collection → CollectionView
address_book_view prefix username c = record {
  path = address_book_path prefix username c.uri;
  name = c.display_name;
  description = c.description;
  timezone = [];
  sync_token = encode_sync_token c.sync_seq;
}

unfoldable pub address_book_home_set_path : Bytes → Option User → Outcome Bytes
address_book_home_set_path prefix u =
    and_then (user_from u) (λ v. done (address_book_home_path prefix v.username))

unfoldable pub list_address_books : Bytes → Database → Option User → Outcome (List CollectionView)
unfolding address_book_view
list_address_books = list_at Storage.addressbook address_book_view

unfoldable pub get_address_book : Bytes → Database → Option User → Bytes → Outcome CollectionView
unfolding address_book_view
get_address_book = get_collection_at address_book_name Storage.addressbook address_book_view

unfoldable pub create_address_book :
    Bytes → ℕ → Database → Option User → NewCollection → Database × Outcome (Unit {0})
create_address_book prefix now db u new =
    create_at address_book_name Storage.addressbook prefix now db u (record new { timezone = [] })

unfoldable pub delete_address_book :
    Bytes → Database → Option User → Bytes → Database × Outcome (Unit {0})
delete_address_book = delete_collection_at address_book_name Storage.addressbook

unfoldable pub get_address_object : Bytes → Database → Option User → Bytes → Outcome StoredObject
get_address_object = get_at address_object_names Storage.addressbook address_object_path

unfoldable pub list_address_objects :
    Bytes → Database → Option User → Bytes → Outcome (List StoredObject)
list_address_objects = list_objects_at address_book_name Storage.addressbook address_object_path

unfoldable pub sync_address_book :
    Bytes → Database → Option User → Bytes → Option (Bytes × ℕ) → Outcome SyncResponse
sync_address_book = sync_at address_book_name Storage.addressbook address_object_path

unfoldable pub put_address_object :
    (Bytes → Option Bytes)
    → (Bytes → Option (Bytes × Bytes))
    → (Bytes → Bytes)
    → Bytes
    → ℕ
    → Database
    → Option User
    → Bytes
    → Bytes
    → Option PutOptions
    → Database × Outcome StoredObject
unfolding index_card
put_address_object parse_etag card =
    put_at address_object_names Storage.addressbook address_object_path parse_etag (index_card card)

unfoldable pub delete_address_object :
    Bytes → ℕ → Database → Option User → Bytes → Database × Outcome (Unit {0})
delete_address_object = delete_at address_object_names Storage.addressbook
