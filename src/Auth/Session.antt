-- ===== src/Auth/Session.antt =====
-- internal/auth/session.go: cookie sessions of the admin interface. Random tokens are parameters, and an
-- instant is its seconds; what a handler does to a response is the value it gives.
pub mod Guard
use edav.Base.{
  ℕ, zero, suc, ◌+◌, ◌*◌, Bool, true, false, not, ◌&&◌, ◌||◌, List, [], ◌∷◌, Option, none, some,
  if◌then◌else◌,
}
use edav.Base.Bytes.{Bytes, codes, equal}
use edav.Storage.{
  StorageError, not_found, conflict, constraint, Result, ok, err, Session, User, Database,
}
use edav.Storage.Sessions.{create_session, session_by_token, delete_session}

abbrev pub default_session_lifetime : ℕ
default_session_lifetime = 30 * 24 * 3600

-- `Sessions`; a lifetime of zero or below is 0 here.
pub record Sessions : Type 0 where
  pub lifetime : ℕ
  pub secure : Bool
  pub path : Bytes

unfoldable pub session_lifetime : Sessions → ℕ
session_lifetime s = elim s.lifetime [ zero ↦ default_session_lifetime | suc n ↦ suc n ]

unfoldable pub session_path : Sessions → Bytes
session_path s = elim s.path [ [] ↦ codes "/" | c ∷ p ↦ c ∷ p ]

-- A cookie that is set: its value, and how long it lives; `none` expires it.
pub record Cookie : Type 0 where
  pub value : Bytes
  pub path : Bytes
  pub max_age : Option ℕ
  pub secure : Bool

unfoldable pub new_session : Sessions → Bytes → Bytes → ℕ → ℕ → Session
new_session s token csrf_token user_id now = record {
  token = token;
  user_id = user_id;
  csrf_token = csrf_token;
  created_at = now;
  expires_at = now + session_lifetime s;
}

-- `Create`, with the two tokens that `randomToken` gave.
unfoldable pub create :
    Sessions → Database → Bytes → Bytes → ℕ → ℕ → Database × Result (Session × Cookie)
create s db token csrf_token user_id now =
    let sess = new_session s token csrf_token user_id now in
    let cookie : Cookie = record {
      value = token;
      path = session_path s;
      max_age = some (session_lifetime s);
      secure = s.secure;
    } in
    let (db', done) = create_session db sess in
    elim done [ err e ↦ (db', err e) | ok _ ↦ (db', ok (sess, cookie)) ]

pub data SessionError : Type 0 where
  no_session : SessionError
  storage : StorageError → SessionError

pub data SessionResult : Type 0 where
  session : Session → User → SessionResult
  refused : SessionError → SessionResult

unfoldable pub session_error : StorageError → SessionError
session_error not_found = no_session
session_error conflict = storage conflict
session_error constraint = storage constraint

-- `Get`, on the value of the request's cookie.
unfoldable pub get : ℕ → Database → Option Bytes → Database × SessionResult
get now db none = (db, refused no_session)
get now db (some token) =
    let (db', result) = session_by_token now db token in
    elim result [ err e ↦ (db', refused (session_error e)) | ok (s, u) ↦ (db', session s u) ]

-- `Clear`.
unfoldable pub clear : Sessions → Cookie
clear s = record { value = []; path = session_path s; max_age = none; secure = s.secure }

-- `Destroy`: the row is deleted, and a row that is not there is no error.
unfoldable pub destroy : Sessions → Database → Option Bytes → Database × Result Cookie
destroy s db none = (db, ok (clear s))
destroy s db (some token) =
    let (db', result) = delete_session db token in
    elim result [
      | ok _ ↦ (db', ok (clear s))
      | err e ↦ elim e [
        | not_found ↦ (db', ok (clear s))
        | conflict ↦ (db', err conflict)
        | constraint ↦ (db', err constraint)
      ]
    ]

unfoldable pub is_mutating : Bytes → Bool
is_mutating method =
    not
      (equal method (codes "GET") || equal method (codes "HEAD") || equal method (codes "OPTIONS"))

-- What the middleware reads of a request.
pub record Request : Type 0 where
  pub method : Bytes
  pub cookie : Option Bytes
  pub csrf_header : Bytes
  pub csrf_field : Bytes
  pub hx_request : Bool

unfoldable pub request_csrf_token : Request → Bytes
request_csrf_token r = elim r.csrf_header [ [] ↦ r.csrf_field | c ∷ t ↦ c ∷ t ]

pub data Answer : Type 0 where
  next : Session → User → Answer
  forbidden : Answer
  hx_redirect see_other : Bytes → Cookie → Answer

unfoldable pub redirect_to_login : Request → Bytes → Cookie → Answer
redirect_to_login r login_path cleared =
    if r.hx_request then hx_redirect login_path cleared else see_other login_path cleared

-- `EqualStrings` is equality.
unfoldable pub admit : Sessions → Bytes → Request → SessionResult → Answer
admit s login_path r (refused e) = redirect_to_login r login_path (clear s)
admit s login_path r (session sess u) =
    if is_mutating r.method && not (equal (request_csrf_token r) sess.csrf_token)
    then forbidden
    else next sess u

unfoldable pub require_session : Sessions → Bytes → ℕ → Database → Request → Database × Answer
require_session s login_path now db r =
    let (db', result) = get now db r.cookie in (db', admit s login_path r result)
