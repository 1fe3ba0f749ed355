-- ===== src/Dav/Backend.antt =====
-- What the two backends of internal/dav (carddav.go, caldav.go) share: resolving a path for the user of a
-- request, conditional headers, and reading, writing and deleting one object. Each backend fixes the kind
-- of path (`names`), the type of collection and the builder of paths (`object_path`). Entity tags, the
-- index of an object's text and the hash of its bytes are parameters.
pub mod Isolation
pub mod ReadBack
pub mod Collections
use edav.Base.{
  ℕ, Bool, true, false, not, List, [], ◌∷◌, ◌++◌, Option, none, some, if◌then◌else◌, length,
}
use edav.Base.Bytes.{Bytes, equal, equal_fold}
use edav.Storage.{
  StorageError, not_found, conflict, constraint, Result, ok, err, CollectionType, Collection,
  Object, User, Database,
}
use edav.Storage
use edav.Storage.Collections.{same_type, collection_by_uri, create_collection, delete_collection}
use edav.Storage.Objects.{object_by_uri, put_object, delete_object}
use edav.Dav.Paths.{
  Resource, root, principal, address_book_home, address_book, address_object, calendar_home,
  calendar, calendar_object, calendar_object_path, parse,
}

pub data Outcome {ℓ} (A : Type ℓ) : Type ℓ where
  done : A → Outcome A
  status : ℕ → Outcome A
  failure : StorageError → Outcome A

abbrev pub and_then {ℓ κ} : {A : Type ℓ} {B : Type κ} → Outcome A → (A → Outcome B) → Outcome B
and_then (done a) f = f a
and_then (status n) f = status n
and_then (failure e) f = failure e

-- `notFoundIfMissing`.
unfoldable pub not_found_if_missing {ℓ} : {A : Type ℓ} → Result A → Outcome A
not_found_if_missing (ok a) = done a
not_found_if_missing (err not_found) = status 404
not_found_if_missing (err conflict) = failure conflict
not_found_if_missing (err constraint) = failure constraint

-- `res.User`, which is empty for the root.
abbrev pub user_of : Resource → Option Bytes
user_of root = none
user_of (principal u) = some u
user_of (address_book_home u) = some u
user_of (calendar_home u) = some u
user_of (address_book u c) = some u
user_of (calendar u c) = some u
user_of (address_object u c o) = some u
user_of (calendar_object u c o) = some u

abbrev pub is_others : Resource → User → Bool
is_others r u = elim (user_of r) [ none ↦ false | some name ↦ not (equal_fold name u.username) ]

-- `resolve`, for the user of the request's context.
unfoldable pub resolve : Bytes → Option User → Bytes → Outcome (User × Resource)
resolve prefix none path = status 401
resolve prefix (some u) path = elim (parse prefix path) [
  | none ↦ status 404
  | some r ↦ if is_others r u then status 403 else done (u, r)
]

unfoldable pub collection_of_type : Database → ℕ → Bytes → CollectionType → Outcome Collection
collection_of_type db owner uri typ = elim (collection_by_uri db owner uri) [
  | none ↦ status 404
  | some c ↦ if same_type c.type typ then done c else status 404
]

-- `PutCalendarObjectOptions`: an unset header is empty.
pub record PutOptions : Type 0 where
  pub if_none_match : Bytes
  pub if_match : Bytes

-- `recurrence.Bounds`.
pub record Bounds : Type 0 where
  pub uid : Bytes
  pub component_type : Bytes
  pub summary : Bytes
  pub start : Option ℕ
  pub end : Option ℕ
  pub recurring : Bool

-- `caldav.CalendarObject` and `carddav.AddressObject`, without the parsed object.
pub record StoredObject : Type 0 where
  pub path : Bytes
  pub mod_time : ℕ
  pub content_length : ℕ
  pub etag : Bytes
  pub raw : Bytes

-- The first argument is the builder of the object's path.
unfoldable pub view :
    (Bytes → Bytes → Bytes → Bytes → Bytes) → Bytes → Bytes → Collection → Object → StoredObject
view object_path prefix username c o = record {
  path = object_path prefix username c.uri o.uri;
  mod_time = o.updated_at;
  content_length = length o.raw;
  etag = o.etag;
  raw = o.raw;
}

abbrev pub indexed : ℕ → Bytes → Bytes → Bounds → Object
indexed cid uri raw b = record {
  id = 0;
  collection_id = cid;
  uri = uri;
  etag = [];
  raw = raw;
  uid = b.uid;
  component_type = b.component_type;
  display_name = b.summary;
  start_at = b.start;
  end_at = b.end;
  recurring = b.recurring;
  created_at = 0;
  updated_at = 0;
}

abbrev pub as_outcome {ℓ} : {A : Type ℓ} → Result A → Outcome A
as_outcome (ok a) = done a
as_outcome (err e) = failure e

module _ (parse_etag : Bytes → Option Bytes) where
  -- `MatchETag`; `none` is a malformed tag.
  unfoldable pub match_etag : Bytes → Bytes → Option Bool
  match_etag value [] = some false
  match_etag value (c ∷ etag) =
      if equal value (b'*' ∷ [])
      then some true
      else elim (parse_etag value) [ none ↦ none | some t ↦ some (equal t (c ∷ etag)) ]

  unfoldable pub check_if_match : Bytes → Option Object → Option ℕ
  check_if_match value none = some 412
  check_if_match value (some o) = elim (match_etag value o.etag) [
    | none ↦ some 400
    | some matches ↦ if matches then none else some 412
  ]

  -- `checkCalendarPreconditions`: the status of the refusal, if there is one.
  unfoldable pub check_preconditions : Option PutOptions → Option Object → Option ℕ
  check_preconditions none existing = none
  check_preconditions (some opts) existing = elim opts.if_none_match [
    | c ∷ s ↦ elim existing [ none ↦ none | some o ↦ some 412 ]
    | [] ↦ elim opts.if_match [ [] ↦ none | c ∷ s ↦ check_if_match (c ∷ s) existing ]
  ]

module _ (object_path : Bytes → Bytes → Bytes → Bytes → Bytes) (parse_etag : Bytes → Option Bytes)
    (index : Bytes → Option Bounds) (etag_for : Bytes → Bytes) where
  -- A write behind the lookup of the collection: `existing` is what was read for the conditions.
  unfoldable pub put_in :
      Bytes
      → ℕ
      → Database
      → User
      → Collection
      → Bytes
      → Option Object
      → Bytes
      → Option PutOptions
      → Database × Outcome StoredObject
  put_in prefix now db u c uri existing raw opts =
      elim (check_preconditions parse_etag opts existing) [
        | some n ↦ (db, status n)
        | none ↦ elim (index raw) [
          | none ↦ (db, status 400)
          | some b ↦
              let (db', result) = put_object etag_for now db (indexed c.id uri raw b) in
              (
                db',
                and_then (as_outcome result) (λ o. done (view object_path prefix u.username c o)),
              )
        ]
      ]

module _ (names : Resource → Option (Bytes × Bytes)) (typ : CollectionType) where
  -- The collection that a path of an object names, and the object's name.
  unfoldable pub object_target :
      Database → ℕ → User → Resource → Outcome (User × Collection × Bytes)
  object_target db wrong_kind v r = elim (names r) [
    | none ↦ status wrong_kind
    | some (uri, object) ↦ and_then (collection_of_type db v.id uri typ) (λ c. done (v, c, object))
  ]

  unfoldable pub resolve_object :
      Bytes → Database → Option User → Bytes → ℕ → Outcome (User × Collection × Bytes)
  resolve_object prefix db u path wrong_kind =
      and_then (resolve prefix u path) (λ (v, r). object_target db wrong_kind v r)

  -- `DeleteAddressObject`, and what `DeleteCalendarObject` does for an object.
  unfoldable pub delete_at :
      Bytes → ℕ → Database → Option User → Bytes → Database × Outcome (Unit {0})
  delete_at prefix now db u path = elim (resolve_object prefix db u path 403) [
    | done target ↦
        let (db', result) = delete_object now db target.1.id target.2 in
        (db', not_found_if_missing result)
    | status n ↦ (db, status n)
    | failure e ↦ (db, failure e)
  ]

  module _ (object_path : Bytes → Bytes → Bytes → Bytes → Bytes) where
    unfoldable pub get_at : Bytes → Database → Option User → Bytes → Outcome StoredObject
    get_at prefix db u path = and_then (resolve_object prefix db u path 404) (λ (v, c, uri).
        elim (object_by_uri db c.id uri) [
          | none ↦ status 404
          | some o ↦ done (view object_path prefix v.username c o)
        ])

    module _ (parse_etag : Bytes → Option Bytes) (index : Bytes → Option Bounds)
        (etag_for : Bytes → Bytes) where
      unfoldable pub put_at :
          Bytes
          → ℕ
          → Database
          → Option User
          → Bytes
          → Bytes
          → Option PutOptions
          → Database × Outcome StoredObject
      put_at prefix now db u path raw opts = elim (resolve_object prefix db u path 403) [
        | done (v, c, uri) ↦
            put_in object_path parse_etag index etag_for prefix now db v c uri
              (object_by_uri db c.id uri) raw opts
        | status n ↦ (db, status n)
        | failure e ↦ (db, failure e)
      ]
