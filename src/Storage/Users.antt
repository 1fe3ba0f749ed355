-- ===== src/Storage/Users.antt =====
-- internal/storage/users.go: accounts. `now` is `time.Now().Unix()`.
use edav.Base.{
  ℕ, Bool, true, not, ◌&&◌, List, ◌∷◌, [], ◌++◌, Option, none, some, ◌==◌, if◌then◌else◌, any,
}
use edav.Base.Bytes.{Bytes, equal_fold, leb_bytes, to_lower}
use edav.Base.Rows.{select, update, delete, sort_by, next_id}
use edav.Storage.{conflict, Result, ok, err, Collection, Object, ChangeRow, User, Database}
use edav.Storage.Collections.{check_affected}

unfoldable pub user_by_id : Database → ℕ → Option User
user_by_id db id = select (λ u. u.id == id) db.users

-- `WHERE username = ? COLLATE NOCASE`.
unfoldable pub user_by_username : Database → Bytes → Option User
user_by_username db username = select (λ u. equal_fold u.username username) db.users

unfoldable pub list_users : Database → List User
list_users db = sort_by (λ a b. leb_bytes (to_lower a.username) (to_lower b.username)) db.users

-- The unique index, kept by `CreateUser`.
unfoldable pub create_user : ℕ → Database → User → Database × Result User
create_user now db u =
    let id = next_id (λ (r : User). r.id) db.users in
    let row : User = record u { id = id; created_at = now; updated_at = now } in
    if any (λ r. equal_fold r.username u.username) db.users
    then (db, err conflict)
    else (record db { users = db.users ++ row ∷ [] }, ok row)

-- The row whose id is given is the one that changes; another row with the name is a conflict.
unfoldable pub update_user : ℕ → Database → User → Database × Result (Unit {0})
update_user now db u =
    if any (λ (r : User). r.id == u.id) db.users
      && any (λ (r : User). not (r.id == u.id) && equal_fold r.username u.username) db.users
    then (db, err conflict)
    else check_affected (any (λ (r : User). r.id == u.id) db.users) db (record db {
      users =
          update (λ r. r.id == u.id)
            (λ r. record r {
              username = u.username;
              display_name = u.display_name;
              email = u.email;
              is_admin = u.is_admin;
              updated_at = now;
            })
            db.users;
    })

unfoldable pub set_password : ℕ → Database → ℕ → Bytes → Database × Result (Unit {0})
set_password now db id password_hash =
    check_affected (any (λ (r : User). r.id == id) db.users) db (record db {
      users =
          update (λ r. r.id == id)
            (λ r. record r { password_hash = password_hash; updated_at = now }) db.users;
    })

-- Whether a collection is one of the owner's: its objects and changes go with it.
abbrev pub is_owned : Database → ℕ → ℕ → Bool
is_owned db owner collection =
    any (λ (c : Collection). c.owner_id == owner && c.id == collection) db.collections

-- `DeleteUser`, with the rows that `ON DELETE CASCADE` takes.
unfoldable pub delete_user : Database → ℕ → Database × Result (Unit {0})
delete_user db id = check_affected (any (λ (r : User). r.id == id) db.users) db (record db {
  users = delete (λ r. r.id == id) db.users;
  collections = delete (λ c. c.owner_id == id) db.collections;
  objects = delete (λ (o : Object). is_owned db id o.collection_id) db.objects;
  changes = delete (λ (ch : ChangeRow). is_owned db id ch.collection_id) db.changes;
  sessions = delete (λ s. s.user_id == id) db.sessions;
})

abbrev pub admin_user : Bytes → Bytes → User
admin_user username password_hash = record {
  id = 0;
  username = username;
  display_name = username;
  email = [];
  password_hash = password_hash;
  is_admin = true;
  created_at = 0;
  updated_at = 0;
}

unfoldable pub ensure_admin : ℕ → Database → Bytes → Bytes → Database × Result User
ensure_admin now db username password_hash = elim (user_by_username db username) [
  | none ↦ create_user now db (admin_user username password_hash)
  | some u ↦
      if u.is_admin
      then (db, ok u)
      else let promoted : User = record u { is_admin = true } in
        let (db', done) = update_user now db promoted in
        elim done [ ok _ ↦ (db', ok promoted) | err e ↦ (db', err e) ]
]
