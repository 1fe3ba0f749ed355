-- ===== src/Auth/Basic.antt =====
-- internal/auth/basic.go: HTTP Basic authentication of DAV clients. `VerifyPassword`, which is
-- Argon2id, is the parameter `verify`: of the stored hash and the password. The hash made for unknown
-- names costs time only. `slot` tells whether `withVerificationSlot` gets a slot before the context of the
-- request ends.
pub mod Cached
pub mod Transparent
pub mod Spelling
use edav.Base.{ℕ, ◌/◌, Bool, true, false, List, Option, none, some, ltb, if◌then◌else◌}
use edav.Base.Bytes.{Bytes}
use edav.Storage.{User, Database}
use edav.Storage.Users.{user_by_username}
use edav.Auth.Throttle.{Throttle, allow, fail, succeed, second}
use edav.Auth.Cache.{CredentialCache, verified, remember}

pub data VerifyError : Type 0 where
  mismatch invalid_hash cancelled : VerifyError

pub data AuthError : Type 0 where
  not_found : AuthError
  unverified : VerifyError → AuthError

pub data AuthResult : Type 0 where
  user : User → AuthResult
  rejected : AuthError → AuthResult

-- What the client sees: the handler behind the middleware runs with the user, or an answer.
pub data Response : Type 0 where
  next : User → Response
  challenge : Response
  too_many_attempts : ℕ → Response

-- `tooManyAttempts`: the seconds of the header Retry-After.
unfoldable pub retry_after : ℕ → ℕ
retry_after retry = if ltb (retry / second) 1 then 1 else retry / second

-- What `RequireBasicAuth` does with the outcome.
unfoldable pub conclude : Throttle → Bytes → ℕ → AuthResult → Throttle × Response
conclude limit username now (rejected e) = (fail limit username now, challenge)
conclude limit username now (user u) = (succeed limit username, next u)

-- `withVerificationSlot`.
abbrev pub with_verification_slot : Bool → Option VerifyError → Option VerifyError
with_verification_slot true result = result
with_verification_slot false result = some cancelled

-- A nil cache is `none`, as it is for `Authenticate`; `RequireBasicAuth` has one.
module _ (mac : Bytes → Bytes) (verify : Bytes → Bytes → Option VerifyError) where
  unfoldable pub check_password : User → Bytes → Bool → AuthResult
  check_password u password slot =
      elim (with_verification_slot slot (verify u.password_hash password)) [
        | none ↦ user u
        | some e ↦ rejected (unverified e)
      ]

  -- `authenticate` with a cache, for a name that is known.
  unfoldable pub check_cached :
      User → Bytes → Bytes → CredentialCache → ℕ → Bool → Option CredentialCache × AuthResult
  check_cached u username password c now slot =
      let (c', known) = verified mac c username password u.password_hash now in
      if known
      then (some c', user u)
      else elim (with_verification_slot slot (verify u.password_hash password)) [
        | none ↦ (some (remember mac c' username password u.password_hash now), user u)
        | some e ↦ (some c', rejected (unverified e))
      ]

  unfoldable pub authenticate :
      Database
      → Bytes
      → Bytes
      → Option CredentialCache
      → ℕ
      → Bool
      → Option CredentialCache × AuthResult
  authenticate db username password cache now slot = elim (user_by_username db username) [
    | none ↦ (cache, rejected not_found)
    | some u ↦ elim cache [
      | none ↦ (none, check_password u password slot)
      | some c ↦ check_cached u username password c now slot
    ]
  ]

  -- `RequireBasicAuth`, on what `r.BasicAuth()` gives. The clock is read for the throttle, and again for
  -- the cache.
  unfoldable pub require_basic_auth :
      Database
      → Option (Bytes × Bytes)
      → ℕ
      → ℕ
      → Bool
      → Throttle
      → Option CredentialCache
      → Throttle × Option CredentialCache × Response
  require_basic_auth db none now checked slot limit cache = (limit, cache, challenge)
  require_basic_auth db (some (username, password)) now checked slot limit cache =
      let (limit', retry, allowed) = allow limit username now in
      let (cache', result) = authenticate db username password cache checked slot in
      let (limit'', response) = conclude limit' username now result in
      if allowed
      then (limit'', cache', response)
      else (limit', cache, too_many_attempts (retry_after retry))
