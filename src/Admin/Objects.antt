-- ===== src/Admin/Objects.antt =====
-- internal/admin/admin.go, events.go and contacts.go: what the handlers of events and of contacts share. A
-- request is the `{id}` and `{uri}` of its path and the values of its form; pages are left out.
pub mod Written
use edav.Base.{ℕ, zero, suc, Bool, true, false, [], ◌∷◌, Option, none, some, if◌then◌else◌, ◌>>=◌}
use edav.Base.Bytes.{Bytes}
use edav.Base.Decimal.{parse_int}
use edav.Base.Int.{pos, negsuc}
use edav.Storage.{
  not_found, conflict, constraint, Result, ok, err, CollectionType, Collection, Object, Database,
}
use edav.Storage.Collections.{collection_by_id, same_type}
use edav.Storage.Objects.{object_by_uri, put_object, delete_object}
use edav.Dav.Backend.{Bounds, indexed}
use edav.Admin.Accounts.{Reply, missing, rejected, failed, redirected}

-- `pathID`.
unfoldable pub path_id : Bytes → Option ℕ
path_id s = elim (parse_int s) [
  | none ↦ none
  | some k ↦ elim k [ pos n ↦ elim n [ zero ↦ none | suc m ↦ some (suc m) ] | negsuc n ↦ none ]
]

-- `calendarOf` and `addressBookOf`.
unfoldable pub collection_of : CollectionType → Database → Bytes → Option Collection
unfolding path_id
collection_of typ db id =
    path_id id
    >>= (λ k. collection_by_id db k >>= (λ c. if same_type c.type typ then some c else none))

-- The reply to a write, whose errors are all `fail`.
abbrev pub stored {ℓ} : {A : Type ℓ} → Database × Result A → Database × Reply
stored (db, ok a) = (db, redirected)
stored (db, err e) = (db, failed)

abbrev pub removed {ℓ} : {A : Type ℓ} → Database × Result A → Database × Reply
removed (db, ok a) = (db, redirected)
removed (db, err not_found) = (db, missing)
removed (db, err conflict) = (db, failed)
removed (db, err constraint) = (db, failed)

module _ (index : Bytes → Option Bounds) (etag_for : Bytes → Bytes) where
  -- `storeEvent` and `storeContact`, by the columns that each derives from the text.
  unfoldable pub store : ℕ → Database → Collection → Bytes → Bytes → Database × Reply
  store now db c uri raw = elim (index raw) [
    | none ↦ (db, failed)
    | some b ↦ stored (put_object etag_for now db (indexed c.id uri raw b))
  ]

  module _ (typ : CollectionType) where
    -- The handlers of a new object, whose text and name the form gives if it can be read.
    unfoldable pub create_in : ℕ → Database → Bytes → Option Bytes → Bytes → Database × Reply
    create_in now db id text uri = elim (collection_of typ db id) [
      | none ↦ (db, missing)
      | some c ↦ elim text [ none ↦ (db, rejected) | some raw ↦ store now db c uri raw ]
    ]

    -- The handlers of an edit, which is applied to the stored text.
    unfoldable pub update_in :
        (Bytes → Option Bytes) → ℕ → Database → Bytes → Bytes → Database × Reply
    update_in edit now db id uri = elim (collection_of typ db id) [
      | none ↦ (db, missing)
      | some c ↦ elim (object_by_uri db c.id uri) [
        | none ↦ (db, missing)
        | some o ↦ elim (edit o.raw) [ none ↦ (db, rejected) | some raw ↦ store now db c o.uri raw ]
      ]
    ]

unfoldable pub delete_in : CollectionType → ℕ → Database → Bytes → Bytes → Database × Reply
delete_in typ now db id uri = elim (collection_of typ db id) [
  | none ↦ (db, missing)
  | some c ↦ removed (delete_object now db c.id uri)
]
