-- ===== src/Admin/Login.antt =====
-- internal/admin/admin.go: signing in and out of the administration interface, and who may use it. Verifying a
-- password is a parameter; the instants are `time.Now()` in nanoseconds for the throttle and in seconds for
-- the session, whose two tokens are those that are drawn for it. Pages are left out.
pub mod Admitted
use edav.Base.{
  ℕ, ◌+◌, ◌*◌, ◌/◌, Bool, true, false, not, ◌++◌, Option, none, some, ◌==◌, ltb, if◌then◌else◌,
}
use edav.Base.Bytes.{Bytes, codes}
use edav.Base.Decimal.{format_int}
use edav.Base.Time.{trim_space}
use edav.Storage.{Result, ok, err, User, Session, Database}
use edav.Auth.Throttle.{Throttle, allow, fail, succeed, second}
use edav.Auth.Basic.{VerifyError, AuthResult, user, rejected, authenticate, retry_after}
use edav.Auth.Session.{
  Sessions, Cookie, SessionResult, session, refused, Request, Answer, next, forbidden, hx_redirect,
  see_other, create, get, destroy, require_session,
}

abbrev pub login_path : Bytes
login_path = codes "/admin/login"

abbrev minute : ℕ
minute = 60 * second

-- `humaniseWait`; `Round` takes half a minute up.
unfoldable pub humanise_wait : ℕ → Bytes
humanise_wait d =
    let minutes = (d + 30 * second) / minute in
    if ltb d minute
    then codes "less than a minute"
    else if minutes == 1
    then codes "a minute"
    else format_int minutes ++ codes " minutes"

-- The answers of `doLogin`: 429 with Retry-After and the wait as the page words it, 401, 403, 500, or the
-- redirect with the cookie of the session.
pub data LoginReply : Type 0 where
  throttled : ℕ → Bytes → LoginReply
  incorrect not_administrator failed : LoginReply
  signed_in : Cookie → LoginReply

abbrev pub after_create :
    Database × Result (Session × Cookie) → Throttle → Database × Throttle × LoginReply
after_create (db, err e) logins = (db, logins, failed)
after_create (db, ok (s, cookie)) logins = (db, logins, signed_in cookie)

-- Without a cache of credentials there is nothing that is keyed.
abbrev pub no_mac : Bytes → Bytes
no_mac s = s

module _ (verify : Bytes → Bytes → Option VerifyError) (s : Sessions) where
  -- What `doLogin` does with the outcome of `Authenticate`.
  unfoldable pub sign_in :
      Database
      → Throttle
      → Bytes
      → Bytes
      → Bytes
      → ℕ
      → ℕ
      → AuthResult
      → Database × Throttle × LoginReply
  sign_in db logins name token csrf_token now issued (rejected e) =
      (db, fail logins name now, incorrect)
  sign_in db logins name token csrf_token now issued (user u) =
      if u.is_admin
      then after_create (create s db token csrf_token u.id issued) (succeed logins name)
      else (db, logins, not_administrator)

  -- `doLogin`, on the two fields of the form; `slot` is as for Basic authentication.
  unfoldable pub do_login :
      Database
      → Throttle
      → Bytes
      → Bytes
      → Bytes
      → Bytes
      → ℕ
      → ℕ
      → Bool
      → Database × Throttle × LoginReply
  unfolding sign_in humanise_wait
  do_login db logins username password token csrf_token now issued slot =
      let name = trim_space username in
      let (logins', retry, allowed) = allow logins name now in
      if allowed
      then sign_in db logins' name token csrf_token now issued
          (authenticate no_mac verify db name password none now slot).1
      else (db, logins', throttled (retry_after retry) (humanise_wait retry))

-- `requireAdmin`, behind RequireSession.
unfoldable pub require_admin : Answer → Answer
require_admin (next sess u) = if u.is_admin then next sess u else forbidden
require_admin forbidden = forbidden
require_admin (hx_redirect path cleared) = hx_redirect path cleared
require_admin (see_other path cleared) = see_other path cleared

-- What the routes of the interface put in front of a handler.
unfoldable pub admin_request : Sessions → ℕ → Database → Request → Database × Answer
unfolding require_admin
admin_request s now db r =
    let (db', answer) = require_session s login_path now db r in (db', require_admin answer)

-- `doLogout`, behind RequireSession.
unfoldable pub do_logout : Sessions → Database → Option Bytes → Database × Option Cookie
do_logout s db cookie =
    let (db', result) = destroy s db cookie in
    (db', elim result [ ok cleared ↦ some cleared | err e ↦ none ])

-- `showLogin`: whether the browser is sent on to the interface.
unfoldable pub show_login : ℕ → Database → Option Bytes → Database × Bool
show_login now db cookie =
    let (db', result) = get now db cookie in
    (db', elim result [ session sess u ↦ true | refused e ↦ false ])
