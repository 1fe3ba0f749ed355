-- ===== src/Storage/Sessions.antt =====
-- internal/storage/sessions.go: the sessions of the admin interface. `now` is `time.Now()` in seconds;
-- the token is the primary key of its table, and the user of a session is a row of users.
use edav.Base.{ℕ, not, ◌∷◌, [], ◌++◌, none, some, ◌==◌, leb, if◌then◌else◌, any, keep, length}
use edav.Base.Bytes.{Bytes, equal}
use edav.Base.Rows.{select, delete}
use edav.Storage.{not_found, constraint, Result, ok, err, User, Session, Database}
use edav.Storage.Collections.{check_affected}
use edav.Storage.Users.{user_by_id}

unfoldable pub create_session : Database → Session → Database × Result (Unit {0})
create_session db s =
    if any (λ (r : Session). equal r.token s.token) db.sessions
    then (db, err constraint)
    else if not (any (λ (u : User). u.id == s.user_id) db.users)
    then (db, err constraint)
    else (record db { sessions = db.sessions ++ s ∷ [] }, ok tt)

unfoldable pub delete_session : Database → Bytes → Database × Result (Unit {0})
delete_session db token =
    check_affected (any (λ (r : Session). equal r.token token) db.sessions) db
      (record db { sessions = delete (λ s. equal s.token token) db.sessions })

-- `SessionByToken`: the join finds nothing where the session or its user is missing.
unfoldable pub session_by_token : ℕ → Database → Bytes → Database × Result (Session × User)
session_by_token now db token = elim (select (λ (s : Session). equal s.token token) db.sessions) [
  | none ↦ (db, err not_found)
  | some s ↦ elim (user_by_id db s.user_id) [
    | none ↦ (db, err not_found)
    | some u ↦
        if leb s.expires_at now
        then ((delete_session db token).0, err not_found)
        else (db, ok (s, u))
  ]
]

unfoldable pub delete_user_sessions : Database → ℕ → Database
delete_user_sessions db user_id = record db {
  sessions = delete (λ (s : Session). s.user_id == user_id) db.sessions;
}

unfoldable pub delete_expired_sessions : Database → ℕ → Database × ℕ
delete_expired_sessions db now = (
  record db { sessions = delete (λ (s : Session). leb s.expires_at now) db.sessions },
  length (keep (λ (s : Session). leb s.expires_at now) db.sessions),
)
