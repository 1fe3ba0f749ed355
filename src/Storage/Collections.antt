-- ===== src/Storage/Collections.antt =====
-- internal/storage/collections.go.
use edav.Base.{
  ℕ, Bool, true, false, not, ◌&&◌, ◌||◌, List, [], ◌∷◌, ◌++◌, Option, none, some, ◌==◌,
  if◌then◌else◌, any, keep,
}
use edav.Base.Bytes.{Bytes, equal, leb_bytes}
use edav.Base.Decimal.{format_int}
use edav.Base.Rows.{select, update, delete, sort_by, next_id}
use edav.Storage.{
  not_found, conflict, constraint, Result, ok, err, CollectionType, calendar, addressbook, unknown,
  Collection, User, Database,
}

abbrev pub is_empty : Bytes → Bool
is_empty [] = true
is_empty (c ∷ s) = false

-- `typ == …` on collection types.
unfoldable pub same_type : CollectionType → CollectionType → Bool
same_type calendar calendar = true
same_type addressbook addressbook = true
same_type (unknown a) (unknown b) = equal a b
same_type _ _ = false

unfoldable pub is_known : CollectionType → Bool
is_known calendar = true
is_known addressbook = true
is_known (unknown s) = false

unfoldable pub ctag_for : ℕ → Bytes
ctag_for seq = format_int seq

unfoldable pub collection_by_id : Database → ℕ → Option Collection
collection_by_id db id = select (λ c. c.id == id) db.collections

unfoldable pub collection_by_uri : Database → ℕ → Bytes → Option Collection
collection_by_uri db owner uri = select (λ c. c.owner_id == owner && equal c.uri uri) db.collections

-- The row that `CreateCollection` inserts.
abbrev pub new_collection : ℕ → ℕ → Collection → Collection
new_collection id now c = record c {
  id = id;
  ctag = ctag_for 0;
  sync_seq = 0;
  created_at = now;
  updated_at = now;
}

-- `CreateCollection`: the checks, the unique index on owner and URI, and the reference to the owner.
unfoldable pub create_collection : ℕ → Database → Collection → Database × Result Collection
unfolding is_known
create_collection now db c =
    let id = next_id (λ (r : Collection). r.id) db.collections in
    let row = new_collection id now c in
    if not (is_known c.type) || is_empty c.uri
    then (db, err constraint)
    else if any (λ r. r.owner_id == c.owner_id && equal r.uri c.uri) db.collections
    then (db, err conflict)
    else if not (any (λ (u : User). u.id == c.owner_id) db.users)
    then (db, err constraint)
    else (record db { collections = db.collections ++ row ∷ [] }, ok row)

-- `ListCollections`: `none` for an empty type.
unfoldable pub list_collections : Database → ℕ → Option CollectionType → List Collection
unfolding same_type
list_collections db owner none =
    sort_by (λ a b. leb_bytes a.uri b.uri) (keep (λ c. c.owner_id == owner) db.collections)
list_collections db owner (some typ) =
    sort_by (λ a b. leb_bytes a.uri b.uri)
      (keep (λ c. c.owner_id == owner && same_type c.type typ) db.collections)

-- `checkAffected`: no row means that the thing is not there.
abbrev pub check_affected : Bool → Database → Database → Database × Result (Unit {0})
check_affected affected db db' = if affected then (db', ok tt) else (db, err not_found)

unfoldable pub update_collection : ℕ → Database → Collection → Database × Result (Unit {0})
update_collection now db c =
    check_affected (any (λ (r : Collection). r.id == c.id) db.collections) db (record db {
      collections =
          update (λ r. r.id == c.id)
            (λ r. record r {
              display_name = c.display_name;
              description = c.description;
              color = c.color;
              timezone = c.timezone;
              updated_at = now;
            })
            db.collections;
    })

-- `DeleteCollection`: the rows of objects and changes go with it (`ON DELETE CASCADE`).
unfoldable pub delete_collection : Database → ℕ → Database × Result (Unit {0})
delete_collection db id =
    check_affected (any (λ (r : Collection). r.id == id) db.collections) db (record db {
      collections = delete (λ r. r.id == id) db.collections;
      objects = delete (λ o. o.collection_id == id) db.objects;
      changes = delete (λ ch. ch.collection_id == id) db.changes;
    })
