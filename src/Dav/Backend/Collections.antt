-- ===== src/Dav/Backend/Collections.antt =====
-- internal/dav: what the two backends share on collections: finding, listing, making and deleting one, its
-- objects, and its changes. `name` gives the collection's part of a path of the right kind.
use edav.Base.{ℕ, List, [], Option, none, some, map}
use edav.Base.Bytes.{Bytes}
use edav.Storage.{
  not_found, conflict, constraint, Result, ok, err, CollectionType, Collection, User, Database,
}
use edav.Storage.Collections.{list_collections, create_collection, delete_collection}
use edav.Storage.Objects.{list_objects}
use edav.Dav.Paths.{Resource, principal_path}
use edav.Dav.Sync.{SyncChanges, SyncError, invalid_token, storage, synced, failed, collect_sync}
use edav.Dav.Backend.{
  Outcome, done, status, failure, and_then, as_outcome, resolve, collection_of_type, StoredObject,
  view,
}

-- `userFrom`.
unfoldable pub user_from : Option User → Outcome User
user_from none = status 401
user_from (some u) = done u

-- `CurrentUserPrincipal`.
unfoldable pub current_user_principal : Bytes → Option User → Outcome Bytes
current_user_principal prefix u =
    and_then (user_from u) (λ v. done (principal_path prefix v.username))

-- A calendar or an address book as a client sees it; the sizes and components that are constants are left
-- out.
pub record CollectionView : Type 0 where
  pub path : Bytes
  pub name : Bytes
  pub description : Bytes
  pub timezone : Bytes
  pub sync_token : Bytes

-- What a client asks for when it makes a collection.
pub record NewCollection : Type 0 where
  pub path : Bytes
  pub name : Bytes
  pub description : Bytes
  pub timezone : Bytes

abbrev pub requested : CollectionType → ℕ → Bytes → NewCollection → Collection
requested typ owner uri new = record {
  id = 0;
  owner_id = owner;
  type = typ;
  uri = uri;
  display_name = new.name;
  description = new.description;
  color = [];
  timezone = new.timezone;
  ctag = [];
  sync_seq = 0;
  created_at = 0;
  updated_at = 0;
}

-- A collection that is there already is `405 Method Not Allowed`.
unfoldable pub created_or_conflict {ℓ} : {A : Type ℓ} → Result A → Outcome (Unit {0})
created_or_conflict (ok a) = done tt
created_or_conflict (err conflict) = status 405
created_or_conflict (err not_found) = failure not_found
created_or_conflict (err constraint) = failure constraint

pub record SyncResponse : Type 0 where
  pub updated : List StoredObject
  pub deleted : List Bytes
  pub sync_token : Bytes

-- `syncTokenError`: an unusable token is `403 Forbidden` with a precondition, any other error itself.
unfoldable pub sync_token_error {ℓ} : {A : Type ℓ} → SyncError → Outcome A
sync_token_error invalid_token = status 403
sync_token_error (storage e) = failure e

module _ (typ : CollectionType)
    (collection_view : Bytes → Bytes → Collection → CollectionView) where
  unfoldable pub list_at : Bytes → Database → Option User → Outcome (List CollectionView)
  list_at prefix db u =
      and_then (user_from u)
        (λ v. done (map (collection_view prefix v.username) (list_collections db v.id (some typ))))

module _ (object_path : Bytes → Bytes → Bytes → Bytes → Bytes) where
  unfoldable pub sync_response : Bytes → Bytes → Collection → SyncChanges → SyncResponse
  sync_response prefix username c changes = record {
    updated = map (view object_path prefix username c) changes.updated;
    deleted = map (object_path prefix username c.uri) changes.deleted;
    sync_token = changes.token;
  }

abbrev since : Option (Bytes × ℕ) → Bytes × ℕ
since none = ([], 0)
since (some query) = query

module _ (name : Resource → Option Bytes) (typ : CollectionType) where
  unfoldable pub collection_target : Database → ℕ → User → Resource → Outcome (User × Collection)
  collection_target db wrong_kind v r = elim (name r) [
    | none ↦ status wrong_kind
    | some uri ↦ and_then (collection_of_type db v.id uri typ) (λ c. done (v, c))
  ]

  -- `resolveCalendar` and `resolveAddressBook`.
  unfoldable pub resolve_collection :
      Bytes → Database → Option User → Bytes → Outcome (User × Collection)
  resolve_collection prefix db u path =
      and_then (resolve prefix u path) (λ (v, r). collection_target db 404 v r)

  unfoldable pub create_at :
      Bytes → ℕ → Database → Option User → NewCollection → Database × Outcome (Unit {0})
  create_at prefix now db u new = elim (resolve prefix u new.path) [
    | done target ↦ elim (name target.1) [
      | none ↦ (db, status 403)
      | some uri ↦
          let (db', result) = create_collection now db (requested typ target.0.id uri new) in
          (db', created_or_conflict result)
    ]
    | status n ↦ (db, status n)
    | failure e ↦ (db, failure e)
  ]

  unfoldable pub delete_collection_at :
      Bytes → Database → Option User → Bytes → Database × Outcome (Unit {0})
  delete_collection_at prefix db u path = elim (resolve_collection prefix db u path) [
    | done target ↦ let (db', result) = delete_collection db target.1.id in (db', as_outcome result)
    | status n ↦ (db, status n)
    | failure e ↦ (db, failure e)
  ]

  module _ (collection_view : Bytes → Bytes → Collection → CollectionView) where
    unfoldable pub get_collection_at :
        Bytes → Database → Option User → Bytes → Outcome CollectionView
    get_collection_at prefix db u path =
        and_then (resolve_collection prefix db u path)
          (λ (v, c). done (collection_view prefix v.username c))

  module _ (object_path : Bytes → Bytes → Bytes → Bytes → Bytes) where
    unfoldable pub list_objects_at :
        Bytes → Database → Option User → Bytes → Outcome (List StoredObject)
    list_objects_at prefix db u path =
        and_then (resolve_collection prefix db u path)
          (λ (v, c). done (map (view object_path prefix v.username c) (list_objects db c.id)))

    -- `SyncCollection`; without a query the token is empty and there is no limit.
    unfoldable pub sync_at :
        Bytes → Database → Option User → Bytes → Option (Bytes × ℕ) → Outcome SyncResponse
    sync_at prefix db u path query = and_then (resolve_collection prefix db u path) (λ (v, c).
        elim (collect_sync db c (since query).0 (since query).1) [
          | failed e ↦ sync_token_error e
          | synced changes ↦ done (sync_response object_path prefix v.username c changes)
        ])
