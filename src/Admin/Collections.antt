-- ===== src/Admin/Collections.antt =====
-- internal/admin/collections.go: the handlers that change collections. A request is the `{id}` of its path and
-- the values of its form; pages are left out.
pub mod Derived
use edav.Base.{ℕ, Bool, true, false, ◌&&◌, [], ◌∷◌, Option, none, some, if◌then◌else◌, ◌>>=◌}
use edav.Base.Bytes.{Bytes, codes, equal}
use edav.Base.Time.{trim_space}
use edav.Storage.{CollectionType, unknown, Collection, User, Database}
use edav.Storage
use edav.Storage.Users.{user_by_id}
use edav.Storage.Collections.{
  is_empty, is_known, collection_by_id, create_collection, update_collection, delete_collection,
}
use edav.Admin.Slugs.{slugify, matches_slug, free_slug}
use edav.Admin.Accounts.{Reply, missing, rejected, replied}
use edav.Admin.Objects.{path_id, stored}

pub record CollectionForm : Type 0 where
  pub uri : Bytes
  pub display_name : Bytes
  pub description : Bytes
  pub color : Bytes
  pub type : Bytes

-- `user` and `collection`: the row that the path names.
unfoldable pub user_at : Database → Bytes → Option User
unfolding path_id user_by_id
user_at db id = path_id id >>= user_by_id db

unfoldable pub collection_at : Database → Bytes → Option Collection
unfolding path_id collection_by_id
collection_at db id = path_id id >>= collection_by_id db

unfoldable pub collection_type : Bytes → CollectionType
collection_type s =
    if equal s (codes "calendar")
    then Storage.calendar
    else if equal s (codes "addressbook")
    then Storage.addressbook
    else unknown s

-- The slug that the form asks for: derived from the name when it is left blank.
unfoldable pub asked_slug : CollectionForm → Bytes
asked_slug form = elim (trim_space form.uri) [
  | [] ↦ slugify (trim_space form.display_name)
  | c ∷ uri ↦ c ∷ uri
]

-- A derived slug is numbered until it is free.
unfoldable pub given_slug : Database → ℕ → CollectionForm → Bytes
unfolding asked_slug
given_slug db owner form =
    if is_empty (trim_space form.uri) then free_slug db owner (asked_slug form) else asked_slug form

abbrev pub asked_collection : Database → User → CollectionForm → Collection
asked_collection db subject form = record {
  id = 0;
  owner_id = subject.id;
  type = collection_type form.type;
  uri = given_slug db subject.id form;
  display_name = trim_space form.display_name;
  description = [];
  color = [];
  timezone = [];
  ctag = [];
  sync_seq = 0;
  created_at = 0;
  updated_at = 0;
}

-- `createCollection`.
unfoldable pub create_for : ℕ → Database → Bytes → CollectionForm → Database × Reply
unfolding asked_slug given_slug collection_type user_at
create_for now db id form = elim (user_at db id) [
  | none ↦ (db, missing)
  | some subject ↦
      if is_known (collection_type form.type) && matches_slug (asked_slug form)
      then replied (create_collection now db (asked_collection db subject form))
      else (db, rejected)
]

-- `updateCollection`.
unfoldable pub update_at : ℕ → Database → Bytes → CollectionForm → Database × Reply
unfolding collection_at
update_at now db id form = elim (collection_at db id) [
  | none ↦ (db, missing)
  | some c ↦ stored (
      update_collection now db (record c {
        display_name = trim_space form.display_name;
        description = trim_space form.description;
        color = trim_space form.color;
      }))
]

-- `deleteCollection`.
unfoldable pub remove_at : Database → Bytes → Database × Reply
unfolding collection_at
remove_at db id = elim (collection_at db id) [
  | none ↦ (db, missing)
  | some c ↦ stored (delete_collection db c.id)
]
