-- ===== src/Admin/Accounts/Rows.antt =====
-- internal/storage/users.go: the writes that leave an administrator's row one.
use edav.Base.{
  ℕ, Bool, true, false, not, ◌&&◌, List, [], ◌∷◌, ◌++◌, some, ◌==◌, any, ◌≡◌, refl, ◌∙◌, arith, inl,
  inr, Bool-cases,
}
use edav.Base.Bytes.{Bytes, equal_fold}
use edav.Base.Rows.{select, update, delete, select-append, select-delete_ne}
use edav.Storage.{User, Database}
use edav.Storage.Collections.{check_affected}
use edav.Storage.Users.{create_user, update_user, set_password, delete_user}

-- The table has the account, as an administrator.
abbrev pub AdminRow : ℕ → List User → Type 0
AdminRow id rs = (u : User) × (select (λ r. r.id == id) rs ≡ some u) × (u.is_admin ≡ true)

AdminRow-append : (id : ℕ) (rs ts : List User) → AdminRow id rs → AdminRow id (rs ++ ts)
AdminRow-append id rs ts (u, e, a) =
    (u, ground (arith, e, select-append (λ (r : User). r.id == id) rs ts), a)

AdminRow-delete :
    (id own : ℕ) (rs : List User)
    → (own == id) ≡ false
    → AdminRow id rs
    → AdminRow id (delete (λ r. r.id == own) rs)
AdminRow-delete id own rs n (u, e, a) = (
  u,
  select-delete_ne (λ (r : User). r.id == id) (λ (r : User). r.id == own) (λ r h. ground arith) rs
      ∙ e,
  a,
)

AdminRow-update :
    (id own : ℕ) (f : User → User) (rs : List User)
    → ((r : User) → (f r).id ≡ r.id)
    → ((r : User) → (own == id) ≡ true → r.is_admin ≡ true → (f r).is_admin ≡ true)
    → AdminRow id rs
    → AdminRow id (update (λ r. r.id == own) f rs)
AdminRow-update id own f [] k h (u, e, a) = absurd (ground arith)
AdminRow-update id own f (r ∷ rs) k h (u, e, a) = elim (Bool-cases (r.id == id)) [
  | inl here ↦
      let same : r ≡ u = ground arith in
      elim (Bool-cases (r.id == own)) [
        | inl mine ↦ (f r, ground (arith, k r), h r (ground arith) (rw same a))
        | inr other ↦ (u, ground arith, a)
      ]
  | inr there ↦
      let (v, g, b) = AdminRow-update id own f rs k h (u, ground arith, a) in
      (v, ground (arith, g, k r), b)
]

module _ (now : ℕ) (db : Database) (id : ℕ) (admin : AdminRow id db.users) where
  affected :
      (b : Bool) (db' : Database)
      → AdminRow id db'.users
      → AdminRow id (check_affected b db db').0.users
  affected true db' h = h
  affected false db' h = admin

  pub create_user-AdminRow : (u : User) → AdminRow id (create_user now db u).0.users
  unfolding create_user
  create_user-AdminRow u =
      elim (Bool-cases (any (λ r. equal_fold r.username u.username) db.users)) [
        | inl e ↦ rw (e, create_user) admin
        | inr e ↦ rw (e, create_user) (AdminRow-append id db.users _ admin)
      ]

  pub set_password-AdminRow :
      (own : ℕ) (hash : Bytes) → AdminRow id (set_password now db own hash).0.users
  unfolding set_password
  set_password-AdminRow own hash = affected (any (λ (r : User). r.id == own) db.users) _ (
      AdminRow-update id own (λ r. record r { password_hash = hash; updated_at = now }) db.users
        (λ r. refl) (λ r e a. a) admin)

  pub update_user-AdminRow :
      (u : User)
      → ((u.id == id) ≡ true → u.is_admin ≡ true)
      → AdminRow id (update_user now db u).0.users
  unfolding update_user
  update_user-AdminRow u h =
      elim (Bool-cases (
        any (λ (r : User). r.id == u.id) db.users
        && any (λ (r : User). not (r.id == u.id) && equal_fold r.username u.username) db.users)) [
          | inl e ↦ rw (e, update_user) admin
          | inr e ↦
              rw (e, update_user)
                (affected (any (λ (r : User). r.id == u.id) db.users) _
                  (AdminRow-update id u.id _ db.users (λ r. refl) (λ r f a. h f) admin))
        ]

  pub delete_user-AdminRow :
      (own : ℕ) → (own == id) ≡ false → AdminRow id (delete_user db own).0.users
  unfolding delete_user
  delete_user-AdminRow own n =
      affected (any (λ (r : User). r.id == own) db.users) _
        (AdminRow-delete id own db.users n admin)
