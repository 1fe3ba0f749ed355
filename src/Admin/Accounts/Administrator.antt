-- ===== src/Admin/Accounts/Administrator.antt =====
-- internal/admin/users.go: the interface does not lose its last administrator.
use edav.Base.{
  ℕ, Bool, true, ◌&&◌, List, [], ◌∷◌, Option, some, ◌==◌, any, ◌≡◌, refl, sym, arith, inl, inr,
  Bool-cases, Option-cases, subst, leb, length,
}
use edav.Base.Bytes.{Bytes}
use edav.Base.Rows.{select, select_sound}
use edav.Base.Time.{trim_space}
use edav.Storage.{Result, ok, err, conflict, not_found, constraint, User, Database}
use edav.Storage.Sessions.{delete_user_sessions}
use edav.Storage.Users.{user_by_id, create_user, update_user, set_password, delete_user}
use edav.Admin.Accounts.{
  creates, updates, resets, removes, Form, Action, replied, is_username, min_password_len, new_user,
  after_password, updated_user, update_account, delete_account, create_account, reset_password, act,
}
use edav.Admin.Accounts.Rows.{
  AdminRow, create_user-AdminRow, set_password-AdminRow, update_user-AdminRow, delete_user-AdminRow,
}

replied-database : {A : Type 0} (x : Database × Result A) → (replied x).0 ≡ x.0
replied-database (db, ok a) = refl
replied-database (db, err conflict) = refl
replied-database (db, err not_found) = refl
replied-database (db, err constraint) = refl

module _ (hash_password : Bytes → Option Bytes) (now : ℕ) (db : Database) (current : User)
    (admin : AdminRow current.id db.users) where
  create_account-AdminRow :
      (form : Form) → AdminRow current.id (create_account hash_password now db form).0.users
  unfolding create_account
  create_account-AdminRow form =
      elim (Bool-cases
        (is_username (trim_space form.username) && leb min_password_len (length form.password))) [
          | inr e ↦ rw (e, create_account) admin
          | inl e ↦ elim (Option-cases (hash_password form.password)) [
            | inl f ↦ rw (e, f, create_account) admin
            | inr (hash, f) ↦
                rw (e, f, create_account)
                  (subst (λ (d : Database). AdminRow current.id d.users)
                    (sym (replied-database (create_user now db (new_user form hash))))
                    (create_user-AdminRow now db current.id admin (new_user form hash)))
          ]
        ]

  update_account-AdminRow :
      (id : ℕ) (form : Form) → AdminRow current.id (update_account now db current id form).0.users
  unfolding update_account updated_user user_by_id
  update_account-AdminRow id form = elim (Option-cases (user_by_id db id)) [
    | inl e ↦ rw (e, update_account) admin
    | inr (subject, e) ↦ elim (Bool-cases (is_username (trim_space form.username))) [
      | inr f ↦ rw (e, f, update_account) admin
      | inl f ↦
          let row = updated_user current subject form in
          let found : (subject.id == id) ≡ true =
            select_sound (λ (u : User). u.id == id) db.users e in
          rw (e, f, update_account)
            (subst (λ (d : Database). AdminRow current.id d.users)
              (sym (replied-database (update_user now db row)))
              (update_user-AdminRow now db current.id admin row (λ mine.
                let same : id ≡ current.id = ground arith in
                let own = subst (λ k. user_by_id db k ≡ some subject) same e in
                let eq : subject ≡ admin.0 = ground (arith, own, admin.1) in
                ground (arith, eq, mine, admin.2))))
    ]
  ]

  reset_password-AdminRow :
      (id : ℕ) (password : Bytes)
      → AdminRow current.id (reset_password hash_password now db id password).0.users
  unfolding reset_password delete_user_sessions
  reset_password-AdminRow id password = elim (Option-cases (user_by_id db id)) [
    | inl e ↦ rw (e, reset_password) admin
    | inr (subject, e) ↦ elim (Bool-cases (leb min_password_len (length password))) [
      | inr f ↦ rw (e, f, reset_password) admin
      | inl f ↦ elim (Option-cases (hash_password password)) [
        | inl g ↦ rw (e, f, g, reset_password) admin
        | inr (hash, g) ↦
            rw (e, f, g, reset_password)
              (go (set_password now db subject.id hash) subject.id
                (set_password-AdminRow now db current.id admin subject.id hash))
      ]
    ]
  ]
    where
      go :
          (written : Database × Result (Unit {0})) (id : ℕ)
          → AdminRow current.id written.0.users
          → AdminRow current.id (after_password written id).0.users
      go (db, err e) id h = h
      go (db, ok done) id h = h

  delete_account-AdminRow : (id : ℕ) → AdminRow current.id (delete_account db current id).0.users
  unfolding delete_account
  delete_account-AdminRow id = elim (Option-cases (user_by_id db id)) [
    | inl e ↦ rw (e, delete_account) admin
    | inr (subject, e) ↦ elim (Bool-cases (current.id == subject.id)) [
      | inl f ↦ rw (e, f, delete_account) admin
      | inr f ↦
          rw (e, f, delete_account)
            (subst (λ (d : Database). AdminRow current.id d.users)
              (sym (replied-database (delete_user db subject.id)))
              (delete_user-AdminRow now db current.id admin subject.id (ground arith)))
    ]
  ]

  act-AdminRow : (a : Action) → AdminRow current.id (act hash_password now db current a).0.users
  unfolding act
  act-AdminRow (creates form) = create_account-AdminRow form
  act-AdminRow (updates id form) = update_account-AdminRow id form
  act-AdminRow (resets id password) = reset_password-AdminRow id password
  act-AdminRow (removes id) = delete_account-AdminRow id

abbrev pub HasAdministrator : Database → Type 0
HasAdministrator db = any (λ (u : User). u.is_admin) db.users ≡ true

any-select :
    (p q : User → Bool) (rs : List User) {u : User}
    → select p rs ≡ some u
    → q u ≡ true
    → any q rs ≡ true
any-select p q [] h k = absurd (ground arith)
any-select p q (r ∷ rs) {u} h k = ground (arith, any-select p q rs {u = u})

-- Requests one after the other, each of an account that is an administrator then.
pub data Requests (hash_password : Bytes → Option Bytes) : Database → Database → Type 0 where
  done : {db : Database} → Requests hash_password db db
  request :
      {db db' : Database} (now : ℕ) (current : User) (action : Action)
      → user_by_id db current.id ≡ some current
      → current.is_admin ≡ true
      → Requests hash_password (act hash_password now db current action).0 db'
      → Requests hash_password db db'

-- Whatever requests the interface serves one after the other, each of an account that is an administrator
-- then, an administrator is left if there was one.
pub administrator_remains :
    (hash_password : Bytes → Option Bytes) {db db' : Database}
    → Requests hash_password db db'
    → HasAdministrator db
    → HasAdministrator db'
unfolding user_by_id
administrator_remains hash_password done h = h
administrator_remains hash_password (request {db} {db'} now current action e a rest) h =
    let (u, f, g) = act-AdminRow hash_password now db current (current, e, a) action in
    administrator_remains hash_password rest
      (any-select (λ (r : User). r.id == current.id) (λ (r : User). r.is_admin) _ {u = u} f g)
