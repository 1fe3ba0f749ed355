-- ===== src/Storage.antt =====
-- internal/storage: the SQLite tables (migrations/0001, 0002) and the errors of the storage layer.
-- A failure of the driver itself, such as a full disk, is not modelled.
pub mod Collections
pub mod Users
pub mod Sessions
pub mod Objects
pub mod Changes
pub mod History
pub mod Integrity
use edav.Base.{ℕ, Bool, List, Option}
use edav.Base.Bytes.{Bytes}

-- `constraint` is any other constraint of the schema that a statement violates.
pub data StorageError : Type 0 where
  not_found conflict constraint : StorageError

pub data Result {ℓ} (A : Type ℓ) : Type ℓ where
  ok : A → Result A
  err : StorageError → Result A

pub data CollectionType : Type 0 where
  calendar addressbook : CollectionType
  unknown : Bytes → CollectionType

pub record Collection : Type 0 where
  pub id : ℕ
  pub owner_id : ℕ
  pub type : CollectionType
  pub uri : Bytes
  pub display_name : Bytes
  pub description : Bytes
  pub color : Bytes
  pub timezone : Bytes
  pub ctag : Bytes
  pub sync_seq : ℕ
  pub created_at : ℕ
  pub updated_at : ℕ

-- Instants are seconds, counted from the beginning of the year 0 as in Base/Time, so that none is negative.
pub record Object : Type 0 where
  pub id : ℕ
  pub collection_id : ℕ
  pub uri : Bytes
  pub etag : Bytes
  pub raw : Bytes
  pub uid : Bytes
  pub component_type : Bytes
  pub display_name : Bytes
  pub start_at : Option ℕ
  pub end_at : Option ℕ
  pub recurring : Bool
  pub created_at : ℕ
  pub updated_at : ℕ

pub data ChangeType : Type 0 where
  created updated deleted : ChangeType

-- A row of `object_changes`.
pub record ChangeRow : Type 0 where
  pub id : ℕ
  pub collection_id : ℕ
  pub seq : ℕ
  pub object_uri : Bytes
  pub change_type : ChangeType
  pub created_at : ℕ

pub record User : Type 0 where
  pub id : ℕ
  pub username : Bytes
  pub display_name : Bytes
  pub email : Bytes
  pub password_hash : Bytes
  pub is_admin : Bool
  pub created_at : ℕ
  pub updated_at : ℕ

pub record Session : Type 0 where
  pub token : Bytes
  pub user_id : ℕ
  pub csrf_token : Bytes
  pub created_at : ℕ
  pub expires_at : ℕ

-- The database: one list of rows for each table, in the order of insertion.
pub record Database : Type 0 where
  pub users : List User
  pub collections : List Collection
  pub objects : List Object
  pub changes : List ChangeRow
  pub sessions : List Session
