-- ===== src/Dav/Books/Isolation.antt =====
-- internal/dav/carddav.go: what a user does to the address books of other accounts.
use edav.Base.{ℕ, false, Option, some, ◌≡◌}
use edav.Base.Bytes.{Bytes}
use edav.Storage.{User, Database}
use edav.Storage
use edav.Storage.Objects.{object_by_uri}
use edav.Storage.Users.{is_owned}
use edav.Storage.History.{ObjectIds}
use edav.Dav.Paths.{address_object_path}
use edav.Dav.Backend.{PutOptions}
use edav.Dav.Backend.Isolation.{put_at-ne, delete_at-ne}
use edav.Dav.Books.{address_object_names, index_card, put_address_object, delete_address_object}

module _ (parse_etag : Bytes → Option Bytes) (card : Bytes → Option (Bytes × Bytes))
    (etag_for : Bytes → Bytes) where
  -- A user who writes to any path or deletes any object of the address books, with any bytes and
  -- conditions, changes no object of a collection that is not the user's own, if the ids of the objects
  -- are distinct.
  pub address_books_isolated :
      (prefix : Bytes) (now : ℕ) (db : Database) (v : User) (path raw : Bytes)
      (opts : Option PutOptions) (cid' : ℕ) (uri' : Bytes)
      → ObjectIds db
      → is_owned db v.id cid' ≡ false
      → (object_by_uri
            (put_address_object parse_etag card etag_for prefix now db (some v) path raw opts).0
            cid'
            uri'
          ≡ object_by_uri db cid' uri')
        × (object_by_uri (delete_address_object prefix now db (some v) path).0 cid' uri'
            ≡ object_by_uri db cid' uri')
  unfolding put_address_object delete_address_object
  address_books_isolated prefix now db v path raw opts cid' uri' ids foreign = (
    put_at-ne address_object_path parse_etag (index_card card) etag_for address_object_names
        Storage.addressbook prefix now db v path raw opts cid' uri' ids foreign,
    delete_at-ne address_object_names Storage.addressbook prefix now db v path cid' uri' ids
        foreign,
  )
