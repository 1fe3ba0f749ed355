-- ===== src/Admin/Accounts/Revoked.antt =====
-- internal/admin/users.go: a new password ends the sessions of the account.
use edav.Base.{
  ℕ, Bool, true, false, List, [], ◌∷◌, Option, ◌==◌, leb, any, ◌≡◌, refl, subst, sym, ap, ◌∙◌,
  arith, inl, inr, Bool-cases, Option-cases, length,
}
use edav.Base.Bytes.{Bytes}
use edav.Base.Rows.{delete, select_sound}
use edav.Storage.{Result, ok, err, User, Session, Database}
use edav.Storage.Users.{user_by_id, set_password}
use edav.Storage.Sessions.{delete_user_sessions}
use edav.Admin.Accounts.{Reply, redirected, reset_password, after_password, min_password_len}

any-delete : {A : Type 0} (p : A → Bool) (rs : List A) → any p (delete p rs) ≡ false
any-delete p [] = refl
any-delete p (r ∷ rs) = ground (arith, any-delete p rs)

after_password-ended :
    (written : Database × Result (Unit {0})) (own id : ℕ)
    → own ≡ id
    → (after_password written own).1 ≡ redirected
    → any (λ (s : Session). s.user_id == id) (after_password written own).0.sessions ≡ false
unfolding after_password delete_user_sessions
after_password-ended (db, err e) own id same h = absurd (ground arith)
after_password-ended (db, ok done) own id same h =
    rw (← same) (any-delete (λ (s : Session). s.user_id == own) db.sessions)

-- When the handler has set a new password, no session of the account is left.
reset_password-ended :
    (hash_password : Bytes → Option Bytes) (now : ℕ) (db : Database) (id : ℕ) (password : Bytes)
    → (reset_password hash_password now db id password).1 ≡ redirected
    → any
        (λ (s : Session). s.user_id == id)
        (reset_password hash_password now db id password).0.sessions
      ≡ false
unfolding reset_password user_by_id delete_user_sessions
reset_password-ended hash_password now db id password h = elim (Option-cases (user_by_id db id)) [
  | inl e ↦ absurd (ground arith)
  | inr (subject, e) ↦
      let same : (subject.id == id) ≡ true = select_sound (λ (u : User). u.id == id) db.users e in
      elim (Bool-cases (leb min_password_len (length password))) [
        | inr f ↦ absurd (ground arith)
        | inl f ↦ elim (Option-cases (hash_password password)) [
          | inl g ↦ absurd (ground arith)
          | inr (hash, g) ↦
              let done : reset_password hash_password now db id password
                  ≡ after_password (set_password now db subject.id hash) subject.id =
                ground arith in
              let own : subject.id ≡ id = ground arith in
              subst
                (λ (x : Database × Reply).
                  any (λ (s : Session). s.user_id == id) x.0.sessions ≡ false)
                (sym done)
                (after_password-ended (set_password now db subject.id hash) subject.id id own
                  (sym (ap (λ (x : Database × Reply). x.1) done) ∙ h))
        ]
      ]
]
