-- ===== src/Storage/Integrity/Accounts.antt =====
-- internal/storage/users.go and sessions.go: every write keeps the keys and the references.
use edav.Base.{
  ℕ, Bool, true, false, ◌&&◌, [], ◌∷◌, ◌++◌, ◌==◌, any, ◌≡◌, refl, arith, inl, inr, Option-cases,
  leb,
}
use edav.Base.Bytes.{Bytes, equal, equal_fold, equal_fold_comm}
use edav.Base.Rows.{
  update, delete, next_id, DistinctIds-delete, DistinctIds-update, DistinctIds-insert,
}
use edav.Base.Keys.{
  Distinct, Distinct-delete, Distinct-snoc, Distinct-update, Distinct-rename, Refers-parents,
  Refers-delete, Refers-cascade, Refers-snoc, any-update, any-snoc, any-delete_other, any_none,
}
use edav.Storage.{Collection, User, Session, Database}
use edav.Storage.Users.{
  create_user, update_user, set_password, delete_user, ensure_admin, is_owned, admin_user,
  user_by_username,
}
use edav.Storage.Sessions.{
  create_session, delete_session, session_by_token, delete_user_sessions, delete_expired_sessions,
}
use edav.Storage.Integrity.{same_name, same_token, owned_by, signed_in, Integrity}
use edav.Storage.Integrity.Rows.{removed_collections}

inserted_user :
    (db : Database) (row : User)
    → row.id ≡ next_id (λ (r : User). r.id) db.users
    → any (λ r. same_name r row) db.users ≡ false
    → Integrity db
    → Integrity (record db { users = db.users ++ row ∷ [] })
inserted_user db row e free w = record {
  user_ids = DistinctIds-insert (λ (r : User). r.id) db.users row e w.user_ids;
  usernames = Distinct-snoc same_name db.users row free w.usernames;
  collection_ids = w.collection_ids;
  places = w.places;
  owners =
      Refers-parents owned_by db.users (db.users ++ row ∷ [])
        (λ c. any-snoc (owned_by c) db.users row) db.collections w.owners;
  object_ids = w.object_ids;
  uris = w.uris;
  collections = w.collections;
  numbers = w.numbers;
  counts = w.counts;
  tokens = w.tokens;
  accounts =
      Refers-parents signed_in db.users (db.users ++ row ∷ [])
        (λ s. any-snoc (signed_in s) db.users row) db.sessions w.accounts;
}

pub create_user-Integrity :
    (now : ℕ) (db : Database) (u : User) → Integrity db → Integrity (create_user now db u).0
unfolding create_user
create_user-Integrity now db u w =
    let row : User = record u {
      id = next_id (λ (r : User). r.id) db.users;
      created_at = now;
      updated_at = now;
    } in
    ground (arith, w, inserted_user db row refl)

-- A write to accounts that leaves their ids alone and their names different.
updated_users :
    (db : Database) (q : User → Bool) (f : User → User)
    → ((u : User) → (f u).id ≡ u.id)
    → Distinct same_name (update q f db.users)
    → Integrity db
    → Integrity (record db { users = update q f db.users })
updated_users db q f i d w = record {
  user_ids = DistinctIds-update (λ (r : User). r.id) q f i db.users w.user_ids;
  usernames = d;
  collection_ids = w.collection_ids;
  places = w.places;
  owners =
      Refers-parents owned_by db.users (update q f db.users)
        (λ c. any-update (owned_by c) q f (λ u e. rw (i u) e) db.users) db.collections w.owners;
  object_ids = w.object_ids;
  uris = w.uris;
  collections = w.collections;
  numbers = w.numbers;
  counts = w.counts;
  tokens = w.tokens;
  accounts =
      Refers-parents signed_in db.users (update q f db.users)
        (λ s. any-update (signed_in s) q f (λ u e. rw (i u) e) db.users) db.sessions w.accounts;
}

pub set_password-Integrity :
    (now : ℕ) (db : Database) (id : ℕ) (hash : Bytes)
    → Integrity db
    → Integrity (set_password now db id hash).0
unfolding set_password
set_password-Integrity now db id hash w =
    let f = λ (r : User). record r { password_hash = hash; updated_at = now } in
    ground (
      arith,
      w,
      updated_users db (λ r. r.id == id) f (λ _. refl)
          (Distinct-update same_name (λ r. r.id == id) f (λ _ _. refl) (λ _ _. refl) db.users
            w.usernames)
          w,
    )

pub update_user-Integrity :
    (now : ℕ) (db : Database) (u : User) → Integrity db → Integrity (update_user now db u).0
unfolding update_user
update_user-Integrity now db u w =
    let f = λ (r : User). record r {
      username = u.username;
      display_name = u.display_name;
      email = u.email;
      is_admin = u.is_admin;
      updated_at = now;
    } in
    let new = λ (r : User). equal_fold r.username u.username in
    ground (
      arith,
      w,
      updated_users db (λ r. r.id == u.id) f (λ _. refl),
      Distinct-rename (λ (r : User). r.id) same_name f new u.id
          (λ r s. equal_fold_comm u.username s.username) (λ r s. refl) db.users,
    )

pub ensure_admin-Integrity :
    (now : ℕ) (db : Database) (username hash : Bytes)
    → Integrity db
    → Integrity (ensure_admin now db username hash).0
unfolding ensure_admin
ensure_admin-Integrity now db username hash w = elim (Option-cases (user_by_username db username)) [
  | inl e ↦ rw (ensure_admin, e) (create_user-Integrity now db (admin_user username hash) w)
  | inr (u, e) ↦
      rw (ensure_admin, e)
        (ground (arith, w, update_user-Integrity now db (record u { is_admin = true }) w))
]

-- An account that goes, when no collection of its is left, with its sessions.
removed_user :
    (db : Database) (id : ℕ) {db' : Database}
    → db'.users ≡ db.users
    → db'.sessions ≡ db.sessions
    → db'.collections ≡ delete (λ c. c.owner_id == id) db.collections
    → Integrity db
    → Integrity db'
    → Integrity (record db' {
      users = delete (λ u. u.id == id) db.users;
      sessions = delete (λ s. s.user_id == id) db.sessions;
    })
removed_user db id {db'} same_users same_sessions gone w r = record {
  user_ids = DistinctIds-delete (λ (r : User). r.id) (λ u. u.id == id) db.users w.user_ids;
  usernames = Distinct-delete same_name (λ u. u.id == id) db.users w.usernames;
  collection_ids = r.collection_ids;
  places = r.places;
  owners = rw gone (
      Refers-cascade owned_by db.users (delete (λ u. u.id == id) db.users) (λ c. c.owner_id == id)
        (λ c e.
          any-delete_other (owned_by c) (λ u. u.id == id) db.users
            (any_none (λ (u : User). u.id == id && owned_by c u) (λ u. ground arith) db.users))
        db.collections w.owners);
  object_ids = r.object_ids;
  uris = r.uris;
  collections = r.collections;
  numbers = r.numbers;
  counts = r.counts;
  tokens = Distinct-delete same_token (λ s. s.user_id == id) db.sessions w.tokens;
  accounts =
      Refers-cascade signed_in db.users (delete (λ u. u.id == id) db.users) (λ s. s.user_id == id)
        (λ s e.
          any-delete_other (signed_in s) (λ u. u.id == id) db.users
            (any_none (λ (u : User). u.id == id && signed_in s u) (λ u. ground arith) db.users))
        db.sessions w.accounts;
}

pub delete_user-Integrity :
    (db : Database) (id : ℕ) → Integrity db → Integrity (delete_user db id).0
unfolding delete_user
delete_user-Integrity db id w =
    let owned = λ (c : Collection). c.owner_id == id in
    let rest = removed_collections db owned (is_owned db id) (λ k e. e) w in
    ground (arith, w, removed_user db id refl refl refl w rest)

removed_sessions :
    (db : Database) (q : Session → Bool)
    → Integrity db
    → Integrity (record db { sessions = delete q db.sessions })
removed_sessions db q w = record {
  user_ids = w.user_ids;
  usernames = w.usernames;
  collection_ids = w.collection_ids;
  places = w.places;
  owners = w.owners;
  object_ids = w.object_ids;
  uris = w.uris;
  collections = w.collections;
  numbers = w.numbers;
  counts = w.counts;
  tokens = Distinct-delete same_token q db.sessions w.tokens;
  accounts = Refers-delete signed_in db.users q db.sessions w.accounts;
}

inserted_session :
    (db : Database) (s : Session)
    → any (λ r. same_token r s) db.sessions ≡ false
    → any (signed_in s) db.users ≡ true
    → Integrity db
    → Integrity (record db { sessions = db.sessions ++ s ∷ [] })
inserted_session db s free here w = record {
  user_ids = w.user_ids;
  usernames = w.usernames;
  collection_ids = w.collection_ids;
  places = w.places;
  owners = w.owners;
  object_ids = w.object_ids;
  uris = w.uris;
  collections = w.collections;
  numbers = w.numbers;
  counts = w.counts;
  tokens = Distinct-snoc same_token db.sessions s free w.tokens;
  accounts = Refers-snoc signed_in db.users db.sessions s here w.accounts;
}

pub create_session-Integrity :
    (db : Database) (s : Session) → Integrity db → Integrity (create_session db s).0
unfolding create_session
create_session-Integrity db s w = ground (arith, w, inserted_session db s)

pub delete_session-Integrity :
    (db : Database) (token : Bytes) → Integrity db → Integrity (delete_session db token).0
unfolding delete_session
delete_session-Integrity db token w =
    ground (arith, w, removed_sessions db (λ s. equal s.token token) w)

pub session_by_token-Integrity :
    (now : ℕ) (db : Database) (token : Bytes)
    → Integrity db
    → Integrity (session_by_token now db token).0
unfolding session_by_token
session_by_token-Integrity now db token w = ground (arith, w, delete_session-Integrity db token w)

pub delete_user_sessions-Integrity :
    (db : Database) (id : ℕ) → Integrity db → Integrity (delete_user_sessions db id)
unfolding delete_user_sessions
delete_user_sessions-Integrity db id = removed_sessions db (λ s. s.user_id == id)

pub delete_expired_sessions-Integrity :
    (db : Database) (now : ℕ) → Integrity db → Integrity (delete_expired_sessions db now).0
unfolding delete_expired_sessions
delete_expired_sessions-Integrity db now = removed_sessions db (λ s. leb s.expires_at now)
