-- ===== src/Admin/Login/Admitted.antt =====
-- internal/admin/admin.go: an administrator with the right password gets in, and stays in for the lifetime of
-- the session.
use edav.Base.{
  ℕ, ◌+◌, ◌<◌, true, false, [], ◌∷◌, ◌++◌, Option, none, some, ◌==◌, any, ◌≡◌, inl, inr, sym, ap,
  ◌∙◌, arith, if◌then◌else◌, Bool-cases,
}
use edav.Base.Bytes.{Bytes, equal, equal_fold, equal_self}
use edav.Base.Rows.{select, select-append, select_absent, select_id, any-select_id}
use edav.Base.Time.{trim_space}
use edav.Base.Table.{lookup, lookup-delete}
use edav.Storage.{ok, User, Session, Database}
use edav.Storage.Users.{user_by_id, user_by_username}
use edav.Storage.Sessions.{create_session, session_by_token}
use edav.Storage.Integrity.{Integrity}
use edav.Auth.Throttle.{Throttle, allow, succeed}
use edav.Auth.Throttle.Lockout.{allow_retry}
use edav.Auth.Basic.{VerifyError, user, authenticate, check_password}
use edav.Auth.Session.{
  Sessions, Cookie, Request, next, request_csrf_token, get, admit, create, new_session,
  session_lifetime, session_path, require_session,
}
use edav.Admin.Login.{signed_in, no_mac, do_login, sign_in, admin_request, require_admin}

-- The wait that a name is told, or none.
unfoldable pub wait : Throttle → Bytes → ℕ → ℕ
wait t name now = if (allow t name now).2 then 0 else (allow t name now).1

allow-wait :
    (t : Throttle) (name : Bytes) (now : ℕ) → (allow t name (now + wait t name now)).2 ≡ true
unfolding wait
allow-wait t name now = elim (Bool-cases (allow t name now).2) [
  | inl e ↦
      let none_left : now + wait t name now ≡ now = ground arith in
      ap (λ n. (allow t name n).2) none_left ∙ e
  | inr e ↦
      let told : now + wait t name now ≡ now + (allow t name now).1 = ground arith in
      ap (λ n. (allow t name n).2) told ∙ (allow_retry t name now e).1
]

-- The cookie of a new session.
abbrev pub cookie_of : Sessions → Bytes → Cookie
cookie_of s token = record {
  value = token;
  path = session_path s;
  max_age = some (session_lifetime s);
  secure = s.secure;
}

-- The database with a new session.
abbrev with_session : Database → Session → Database
with_session db r = record db { sessions = db.sessions ++ r ∷ [] }

create_session-new :
    (db : Database) (r : Session)
    → any (λ (t : Session). equal t.token r.token) db.sessions ≡ false
    → any (λ (u : User). u.id == r.user_id) db.users ≡ true
    → create_session db r ≡ (with_session db r, ok tt)
unfolding create_session
create_session-new db r fresh owned = ground arith

session_by_token-new :
    (later : ℕ) (db : Database) (r : Session) (u : User)
    → any (λ (t : Session). equal t.token r.token) db.sessions ≡ false
    → user_by_id db r.user_id ≡ some u
    → later < r.expires_at
    → session_by_token later (with_session db r) r.token ≡ (with_session db r, ok (r, u))
unfolding session_by_token user_by_id
session_by_token-new later db r u fresh owner early =
    let here : select (λ (t : Session). equal t.token r.token) (db.sessions ++ r ∷ []) ≡ some r =
      ground (
        arith,
        select-append (λ (t : Session). equal t.token r.token) db.sessions (r ∷ []),
        select_absent (λ (t : Session). equal t.token r.token) db.sessions fresh,
        equal_self r.token,
      ) in
    ground (arith, here)

create-new :
    (s : Sessions) (db : Database) (token csrf_token : Bytes) (id issued : ℕ)
    → any (λ (t : Session). equal t.token token) db.sessions ≡ false
    → any (λ (u : User). u.id == id) db.users ≡ true
    → create s db token csrf_token id issued ≡ (
      with_session db (new_session s token csrf_token id issued),
      ok (new_session s token csrf_token id issued, cookie_of s token),
    )
unfolding create new_session
create-new s db token csrf_token id issued fresh owned =
    ground (arith, create_session-new db (new_session s token csrf_token id issued) fresh owned)

authenticate-right :
    (mac : Bytes → Bytes) (verify : Bytes → Bytes → Option VerifyError) (db : Database)
    (name password : Bytes) (now : ℕ) (u : User)
    → user_by_username db name ≡ some u
    → verify u.password_hash password ≡ none
    → (authenticate mac verify db name password none now true).1 ≡ user u
unfolding authenticate check_password
authenticate-right mac verify db name password now u known right = ground (arith, known, right)

admin_request-session :
    (s : Sessions) (now : ℕ) (db : Database) (r : Request) (token : Bytes) (sess : Session)
    (u : User)
    → r.cookie ≡ some token
    → session_by_token now db token ≡ (db, ok (sess, u))
    → request_csrf_token r ≡ sess.csrf_token
    → u.is_admin ≡ true
    → admin_request s now db r ≡ (db, next sess u)
unfolding admin_request require_session get admit require_admin
admin_request-session s now db r token sess u sent found same admin =
    ground (arith, sent, found, same, admin, equal_self sess.csrf_token)

owner_of-found :
    (db : Database) (name : Bytes) (u : User)
    → Integrity db
    → user_by_username db name ≡ some u
    → user_by_id db u.id ≡ some u
unfolding user_by_username user_by_id
owner_of-found db name u w known =
    select_id (λ (v : User). v.id) (λ v. equal_fold v.username name) db.users w.user_ids known

lookup-succeed : (t : Throttle) (name : Bytes) → lookup name (succeed t name).failures ≡ none
unfolding succeed
lookup-succeed t name = ground (arith, lookup-delete name name t.failures, equal_self name)

module _ (verify : Bytes → Bytes → Option VerifyError) (s : Sessions) where
  do_login-signed_in :
      (db : Database) (logins : Throttle) (username password token csrf_token : Bytes)
      (now issued : ℕ) (u : User)
      → (allow logins (trim_space username) now).2 ≡ true
      → user_by_username db (trim_space username) ≡ some u
      → verify u.password_hash password ≡ none
      → u.is_admin ≡ true
      → any (λ (t : Session). equal t.token token) db.sessions ≡ false
      → do_login verify s db logins username password token csrf_token now issued true ≡ (
        with_session db (new_session s token csrf_token u.id issued),
        succeed (allow logins (trim_space username) now).0 (trim_space username),
        signed_in (cookie_of s token),
      )
  unfolding do_login sign_in user_by_username
  do_login-signed_in db logins username password token csrf_token now issued u allowed known right
        admin fresh =
      let name = trim_space username in
      let owned =
        any-select_id (λ (v : User). v.id) (λ v. equal_fold v.username name) db.users {o = u}
          known in
      ground (
        arith,
        allowed,
        authenticate-right no_mac verify db name password now u known right,
        admin,
        create-new s db token csrf_token u.id issued fresh owned,
      )

  -- An administrator with the right password gets in, once any wait that the throttle asks for is over: the
  -- attempt is answered with the cookie of a new session, the failures of the name are forgotten, and a
  -- request with that cookie and the session's CSRF token reaches its handler as this user, before the
  -- lifetime of the session is over. The database has its keys and references, the new token is no other
  -- session's, and the context of the attempt does not end while it waits for its turn to verify.
  pub do_login_admits :
      (db : Database) (logins : Throttle) (username password token csrf_token : Bytes)
      (now issued later : ℕ) (u : User) (r : Request)
      → Integrity db
      → user_by_username db (trim_space username) ≡ some u
      → verify u.password_hash password ≡ none
      → u.is_admin ≡ true
      → any (λ (t : Session). equal t.token token) db.sessions ≡ false
      → later < issued + session_lifetime s
      → r.cookie ≡ some token
      → request_csrf_token r ≡ csrf_token
      → let at = now + wait logins (trim_space username) now in
        let attempt =
          do_login verify s db logins username password token csrf_token at issued true in
        (attempt.2 ≡ signed_in (cookie_of s token))
        × (lookup (trim_space username) attempt.1.failures ≡ none)
        × (admin_request s later attempt.0 r
            ≡ (attempt.0, next (new_session s token csrf_token u.id issued) u))
  unfolding new_session
  do_login_admits db logins username password token csrf_token now issued later u r w known right
        admin fresh early sent same =
      let name = trim_space username in
      let at = now + wait logins name now in
      let sess = new_session s token csrf_token u.id issued in
      let signed =
        do_login-signed_in db logins username password token csrf_token at issued u
          (allow-wait logins name now) known right admin fresh in
      let found =
        session_by_token-new later db sess u fresh (owner_of-found db name u w known) early in
      (
        ap (λ p. p.2) signed,
        ap (λ p. lookup name p.1.failures) signed ∙ lookup-succeed (allow logins name at).0 name,
        ap (λ p. admin_request s later p.0 r) signed
            ∙ (admin_request-session s later (with_session db sess) r token sess u sent found same
                  admin
                ∙ ap (λ p. (p.0, next sess u)) (sym signed)),
      )
