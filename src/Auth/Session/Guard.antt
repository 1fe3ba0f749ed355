-- ===== src/Auth/Session/Guard.antt =====
-- Who passes RequireSession of internal/auth/session.go.
use edav.Base.{
  ℕ, ◌<◌, true, false, Option, none, some, leb, ◌≡◌, ◌⊎◌, inl, inr, refl, arith, Option-cases,
}
use edav.Base.Bytes.{Bytes, equal, equal_iff}
use edav.Base.Rows.{select, select_sound}
use edav.Storage.{ok, Session, User, Database}
use edav.Storage.Users.{user_by_id}
use edav.Storage.Sessions.{session_by_token}
use edav.Auth.Session.{
  SessionResult, session, refused, Sessions, Request, next, get, admit, require_session,
  is_mutating, request_csrf_token, redirect_to_login,
}

-- A session that the table has for the token, which is not over, with its user.
pub record Current (now : ℕ) (db : Database) (token : Bytes) (s : Session) (u : User) : Type 0 where
  pub stored : select (λ (r : Session). equal r.token token) db.sessions ≡ some s
  pub same_token : s.token ≡ token
  pub not_over : now < s.expires_at
  pub owner : user_by_id db s.user_id ≡ some u

session_by_token-Current :
    (now : ℕ) (db : Database) (token : Bytes) {s : Session} {u : User}
    → (session_by_token now db token).1 ≡ ok (s, u)
    → Current now db token s u × ((session_by_token now db token).0 ≡ db)
unfolding session_by_token
session_by_token-Current now db token {s} {u} h =
    let p = λ (r : Session). equal r.token token in
    elim (Option-cases (select p db.sessions)) [
      | inl e ↦ absurd (ground arith)
      | inr (r, e) ↦ elim (Option-cases (user_by_id db r.user_id)) [
        | inl f ↦ absurd (ground arith)
        | inr (v, f) ↦
            let same : (leb r.expires_at now ≡ false) × (r ≡ s) × (v ≡ u) = ground arith in
            let named : equal r.token token ≡ true = select_sound p db.sessions e in
            (
              record {
                stored = rw (← same.1) e;
                same_token = rw (← same.1) ((equal_iff r.token token).0 named);
                not_over = ground arith;
                owner = ground arith;
              },
              ground arith,
            )
      ]
    ]

get-Current :
    (now : ℕ) (db : Database) (cookie : Option Bytes) {s : Session} {u : User}
    → (get now db cookie).1 ≡ session s u
    → (token : Bytes) × (cookie ≡ some token)
      × Current now db token s u
      × ((get now db cookie).0 ≡ db)
unfolding get
get-Current now db none h = absurd (ground arith)
get-Current now db (some token) {s} {u} h =
    let got : (session_by_token now db token).1 ≡ ok (s, u) = ground arith in
    let (current, same) = session_by_token-Current now db token {s = s} {u = u} got in
    (token, refl, current, ground arith)

admit-next :
    (s : Sessions) (login_path : Bytes) (r : Request) (result : SessionResult) {sess : Session}
    {u : User}
    → admit s login_path r result ≡ next sess u
    → (result ≡ session sess u)
      × ((is_mutating r.method ≡ false) ⊎ (request_csrf_token r ≡ sess.csrf_token))
unfolding admit redirect_to_login
admit-next s login_path r (refused e) h = absurd (ground arith)
admit-next s login_path r (session sess' u') {sess} h =
    ground (arith, h, equal_iff (request_csrf_token r) sess'.csrf_token)

-- A handler behind the middleware runs only for a request whose cookie names a session of the table
-- that is not over, with the user of that session, and whose token matches the session's if the method
-- may change anything; and then the database is as it was.
pub require_session_sound :
    (s : Sessions) (login_path : Bytes) (now : ℕ) (db : Database) (r : Request) {sess : Session}
    {u : User}
    → (require_session s login_path now db r).1 ≡ next sess u
    → (token : Bytes) × (r.cookie ≡ some token)
      × Current now db token sess u
      × ((is_mutating r.method ≡ false) ⊎ (request_csrf_token r ≡ sess.csrf_token))
      × ((require_session s login_path now db r).0 ≡ db)
unfolding require_session
require_session_sound s login_path now db r {sess} {u} h =
    let (got, csrf) = admit-next s login_path r (get now db r.cookie).1 {sess = sess} {u = u} h in
    let (token, cookie, current, same) = get-Current now db r.cookie {s = sess} {u = u} got in
    (token, cookie, current, csrf, same)
