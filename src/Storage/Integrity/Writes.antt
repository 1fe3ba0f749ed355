-- ===== src/Storage/Integrity/Writes.antt =====
-- internal/storage: any calls of the storage layer, one after the other, from the empty database on.
use edav.Base.{ℕ, []}
use edav.Base.Bytes.{Bytes}
use edav.Storage.{Collection, Object, User, Session, Database}
use edav.Storage.Collections.{create_collection, update_collection, delete_collection}
use edav.Storage.Users.{create_user, update_user, set_password, delete_user, ensure_admin}
use edav.Storage.Sessions.{
  create_session, delete_session, session_by_token, delete_user_sessions, delete_expired_sessions,
}
use edav.Storage.Objects.{put_object, delete_object}
use edav.Storage.Integrity.{Integrity}
use edav.Storage.Integrity.Rows.{
  create_collection-Integrity, update_collection-Integrity, delete_collection-Integrity,
}
use edav.Storage.Integrity.Accounts.{
  create_user-Integrity, update_user-Integrity, set_password-Integrity, delete_user-Integrity,
  ensure_admin-Integrity, create_session-Integrity, delete_session-Integrity,
  session_by_token-Integrity, delete_user_sessions-Integrity, delete_expired_sessions-Integrity,
}
use edav.Storage.Integrity.Log.{put_object-Integrity, delete_object-Integrity}

-- The database that the migrations leave behind.
abbrev pub empty_database : Database
empty_database = record { users = []; collections = []; objects = []; changes = []; sessions = [] }

-- A call of the storage layer that writes.
pub data Call : Type 0 where
  user_created user_updated : ℕ → User → Call
  password_set : ℕ → ℕ → Bytes → Call
  admin_ensured : ℕ → Bytes → Bytes → Call
  user_deleted : ℕ → Call
  collection_created collection_updated : ℕ → Collection → Call
  collection_deleted : ℕ → Call
  object_put : ℕ → Object → Call
  object_deleted : ℕ → ℕ → Bytes → Call
  session_created : Session → Call
  session_deleted : Bytes → Call
  session_read : ℕ → Bytes → Call
  user_sessions_deleted expired_sessions_deleted : ℕ → Call

module _ (etag_for : Bytes → Bytes) where
  -- The database behind a call, whether it succeeds or not.
  unfoldable pub called : Call → Database → Database
  called (user_created now u) db = (create_user now db u).0
  called (user_updated now u) db = (update_user now db u).0
  called (password_set now id hash) db = (set_password now db id hash).0
  called (admin_ensured now name hash) db = (ensure_admin now db name hash).0
  called (user_deleted id) db = (delete_user db id).0
  called (collection_created now c) db = (create_collection now db c).0
  called (collection_updated now c) db = (update_collection now db c).0
  called (collection_deleted id) db = (delete_collection db id).0
  called (object_put now o) db = (put_object etag_for now db o).0
  called (object_deleted now cid uri) db = (delete_object now db cid uri).0
  called (session_created s) db = (create_session db s).0
  called (session_deleted token) db = (delete_session db token).0
  called (session_read now token) db = (session_by_token now db token).0
  called (user_sessions_deleted id) db = delete_user_sessions db id
  called (expired_sessions_deleted now) db = (delete_expired_sessions db now).0

  called-Integrity : (call : Call) (db : Database) → Integrity db → Integrity (called call db)
  unfolding called
  called-Integrity (user_created now u) db = create_user-Integrity now db u
  called-Integrity (user_updated now u) db = update_user-Integrity now db u
  called-Integrity (password_set now id hash) db = set_password-Integrity now db id hash
  called-Integrity (admin_ensured now name hash) db = ensure_admin-Integrity now db name hash
  called-Integrity (user_deleted id) db = delete_user-Integrity db id
  called-Integrity (collection_created now c) db = create_collection-Integrity now db c
  called-Integrity (collection_updated now c) db = update_collection-Integrity now db c
  called-Integrity (collection_deleted id) db = delete_collection-Integrity db id
  called-Integrity (object_put now o) db = put_object-Integrity etag_for now db o
  called-Integrity (object_deleted now cid uri) db = delete_object-Integrity now db cid uri
  called-Integrity (session_created s) db = create_session-Integrity db s
  called-Integrity (session_deleted token) db = delete_session-Integrity db token
  called-Integrity (session_read now token) db = session_by_token-Integrity now db token
  called-Integrity (user_sessions_deleted id) db = delete_user_sessions-Integrity db id
  called-Integrity (expired_sessions_deleted now) db = delete_expired_sessions-Integrity db now

  -- What calls lead to, the last of them first.
  pub data Reached : Database → Type 0 where
    migrated : Reached empty_database
    behind : {db : Database} (call : Call) → Reached db → Reached (called call db)

  -- Whatever calls are made, one after the other and whether they succeed or not, the database keeps its
  -- unique keys and its references, and no number in the change log is ahead of its collection.
  pub Reached-Integrity : {db : Database} → Reached db → Integrity db
  Reached-Integrity migrated = record {
    user_ids = tt;
    usernames = tt;
    collection_ids = tt;
    places = tt;
    owners = tt;
    object_ids = tt;
    uris = tt;
    collections = tt;
    numbers = tt;
    counts = tt;
    tokens = tt;
    accounts = tt;
  }
  Reached-Integrity (behind {db} call r) = called-Integrity call db (Reached-Integrity r)
