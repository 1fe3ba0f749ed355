-- ===== src/Admin/Accounts.antt =====
-- internal/admin/users.go: the handlers that change accounts. `current` is the user of the session, which
-- RequireSession has put into the request; hashing a password is a parameter, and the pages are left out.
pub mod Rows
pub mod Administrator
pub mod Revoked
use edav.Base.{
  ℕ, Bool, true, false, not, ◌&&◌, ◌||◌, [], ◌∷◌, Option, none, some, ◌==◌, ltb, leb, if◌then◌else◌,
  any, length,
}
use edav.Base.Bytes.{Bytes, codes, equal}
use edav.Base.Time.{trim_space}
use edav.Storage.{not_found, conflict, constraint, Result, ok, err, User, Database}
use edav.Storage.Users.{user_by_id, create_user, update_user, set_password, delete_user}
use edav.Storage.Sessions.{delete_user_sessions}

pub record Form : Type 0 where
  pub username : Bytes
  pub display_name : Bytes
  pub email : Bytes
  pub password : Bytes
  pub is_admin : Bytes

-- What the handler answers: 404, 422, 403, 500, or a redirect.
pub data Reply : Type 0 where
  missing rejected forbidden failed redirected : Reply

abbrev pub min_password_len : ℕ
min_password_len = 8

-- `strings.ContainsAny` of the bytes that a path segment cannot have.
abbrev pub is_unsafe : ℕ → Bool
is_unsafe c =
    c == b'/' || (c == b'\\' || (c == b'?' || (c == b'#' || (c == b'%' || (c == b' ' || c == 9)))))

unfoldable pub is_username : Bytes → Bool
is_username [] = false
is_username (c ∷ s) = leb (length (c ∷ s)) 64 && not (any is_unsafe (c ∷ s))

-- The reply to a write, and the database after it.
abbrev pub replied {ℓ} : {A : Type ℓ} → Database × Result A → Database × Reply
replied (db, ok a) = (db, redirected)
replied (db, err conflict) = (db, rejected)
replied (db, err not_found) = (db, failed)
replied (db, err constraint) = (db, failed)

abbrev pub new_user : Form → Bytes → User
new_user form hash = record {
  id = 0;
  username = trim_space form.username;
  display_name = trim_space form.display_name;
  email = trim_space form.email;
  password_hash = hash;
  is_admin = false;
  created_at = 0;
  updated_at = 0;
}

-- An account's own administrator flag is not changed.
unfoldable pub updated_user : User → User → Form → User
updated_user current subject form = record subject {
  username = trim_space form.username;
  display_name = trim_space form.display_name;
  email = trim_space form.email;
  is_admin = if current.id == subject.id then subject.is_admin else equal form.is_admin (codes "1");
}

unfoldable pub update_account : ℕ → Database → User → ℕ → Form → Database × Reply
unfolding updated_user
update_account now db current id form = elim (user_by_id db id) [
  | none ↦ (db, missing)
  | some subject ↦
      if is_username (trim_space form.username)
      then replied (update_user now db (updated_user current subject form))
      else (db, rejected)
]

unfoldable pub delete_account : Database → User → ℕ → Database × Reply
delete_account db current id = elim (user_by_id db id) [
  | none ↦ (db, missing)
  | some subject ↦
      if current.id == subject.id then (db, forbidden) else replied (delete_user db subject.id)
]

-- The requests that change accounts.
pub data Action : Type 0 where
  creates : Form → Action
  updates : ℕ → Form → Action
  resets : ℕ → Bytes → Action
  removes : ℕ → Action

unfoldable pub after_password : Database × Result (Unit {0}) → ℕ → Database × Reply
after_password (db, err e) id = (db, failed)
after_password (db, ok done) id = (delete_user_sessions db id, redirected)

module _ (hash_password : Bytes → Option Bytes) where
  unfoldable pub create_account : ℕ → Database → Form → Database × Reply
  create_account now db form =
      if is_username (trim_space form.username) && leb min_password_len (length form.password)
      then elim (hash_password form.password) [
        | none ↦ (db, failed)
        | some hash ↦ replied (create_user now db (new_user form hash))
      ]
      else (db, rejected)

  -- With the new password, the sessions of the account end.
  unfoldable pub reset_password : ℕ → Database → ℕ → Bytes → Database × Reply
  unfolding after_password
  reset_password now db id password = elim (user_by_id db id) [
    | none ↦ (db, missing)
    | some subject ↦
        if leb min_password_len (length password)
        then elim (hash_password password) [
          | none ↦ (db, failed)
          | some hash ↦ after_password (set_password now db subject.id hash) subject.id
        ]
        else (db, rejected)
  ]

  unfoldable pub act : ℕ → Database → User → Action → Database × Reply
  unfolding create_account update_account reset_password delete_account
  act now db current (creates form) = create_account now db form
  act now db current (updates id form) = update_account now db current id form
  act now db current (resets id password) = reset_password now db id password
  act now db current (removes id) = delete_account db current id
