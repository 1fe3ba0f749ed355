-- ===== src/Auth/Basic/Transparent.antt =====
-- internal/auth/basic.go: the middleware with and without the cache of internal/auth/cache.go.
use edav.Base.{
  ℕ, zero, suc, Bool, true, false, List, [], ◌∷◌, Option, none, some, ◌≡◌, inl, inr, refl, ap,
  arith, Bool-cases, Option-cases,
}
use edav.Base.Bytes.{Bytes}
use edav.Storage.{User, Database}
use edav.Storage.Users.{user_by_username}
use edav.Auth.Throttle.{Throttle, allow}
use edav.Auth.Cache.{CredentialCache, new_credential_cache}
use edav.Auth.Basic.{
  VerifyError, AuthError, rejected, Response, check_password, check_cached, authenticate,
  require_basic_auth,
}
use edav.Auth.Basic.Cached.{
  Verifies, AllVerify, PlainRows, PlainRows-select, check_cached_result, AllVerify-check_cached,
}

module _ (mac : Bytes → Bytes) (injective : (a b : Bytes) → mac a ≡ mac b → a ≡ b)
    (verify : Bytes → Bytes → Option VerifyError) where
  authenticate_unknown :
      (db : Database) (name password : Bytes) (cache : Option CredentialCache) (now : ℕ)
      → user_by_username db name ≡ none
      → authenticate mac verify db name password cache now true
        ≡ (cache, rejected AuthError.not_found)
  unfolding authenticate
  authenticate_unknown db name password cache now e = rw (e, authenticate) refl

  authenticate_cached :
      (db : Database) (name password : Bytes) (c : CredentialCache) (now : ℕ) {u : User}
      → user_by_username db name ≡ some u
      → authenticate mac verify db name password (some c) now true
        ≡ check_cached mac verify u name password c now true
  unfolding authenticate
  authenticate_cached db name password c now e = rw (e, authenticate) refl

  authenticate_uncached :
      (db : Database) (name password : Bytes) (now : ℕ) {u : User}
      → user_by_username db name ≡ some u
      → authenticate mac verify db name password none now true
        ≡ (none, check_password mac verify u password true)
  unfolding authenticate
  authenticate_uncached db name password now e = rw (e, authenticate) refl

  AllVerify-authenticate :
      (db : Database) (name password : Bytes) (c : CredentialCache) (now : ℕ)
      → PlainRows db.users
      → Verifies mac verify c
      → AllVerify mac verify (authenticate mac verify db name password (some c) now true).0
        × ((authenticate mac verify db name password (some c) now true).1
            ≡ (authenticate mac verify db name password none now true).1)
  unfolding user_by_username
  AllVerify-authenticate db name password c now plain w =
      elim (Option-cases (user_by_username db name)) [
        | inl e ↦
            rw
              (
                authenticate_unknown db name password (some c) now e,
                authenticate_unknown db name password none now e,
              )
              (w, refl)
        | inr (u, e) ↦
            let (f, g) = PlainRows-select db.users name {u = u} plain e in
            rw
              (
                authenticate_cached db name password c now {u = u} e,
                authenticate_uncached db name password now {u = u} e,
              )
              (
                AllVerify-check_cached mac injective verify u name password c now f g w,
                check_cached_result mac injective verify u name password c now f g w,
              )
      ]

  authenticate-none :
      (db : Database) (name password : Bytes) (now : ℕ)
      → (authenticate mac verify db name password none now true).0 ≡ none
  authenticate-none db name password now = elim (Option-cases (user_by_username db name)) [
    | inl e ↦ rw (authenticate_unknown db name password none now e) refl
    | inr (u, e) ↦ rw (authenticate_uncached db name password now {u = u} e) refl
  ]

  authenticate-same :
      (db : Database) (name password : Bytes) (cache : Option CredentialCache) (now : ℕ)
      → PlainRows db.users
      → AllVerify mac verify cache
      → AllVerify mac verify (authenticate mac verify db name password cache now true).0
        × ((authenticate mac verify db name password cache now true).1
            ≡ (authenticate mac verify db name password none now true).1)
  authenticate-same db name password none now plain w =
      (rw (authenticate-none db name password now) tt, refl)
  authenticate-same db name password (some c) now plain w =
      AllVerify-authenticate db name password c now plain w

  require-same :
      (db : Database) (credentials : Option (Bytes × Bytes)) (now checked : ℕ) (slot : Bool)
      (limit : Throttle) (cache : Option CredentialCache)
      → slot ≡ true
      → PlainRows db.users
      → AllVerify mac verify cache
      → let with_cache =
          require_basic_auth mac verify db credentials now checked slot limit cache in
        let without = require_basic_auth mac verify db credentials now checked slot limit none in
        AllVerify mac verify with_cache.1
        × (without.1 ≡ none)
        × (with_cache.0 ≡ without.0)
        × (with_cache.2 ≡ without.2)
  unfolding require_basic_auth
  require-same db credentials now checked false limit cache served plain w = absurd (ground arith)
  require-same db none now checked true limit cache served plain w = (w, refl, refl, refl)
  require-same db (some (name, password)) now checked true limit cache served plain w =
      let (all, same) = authenticate-same db name password cache checked plain w in
      elim (Bool-cases (allow limit name now).2) [
        | inl e ↦ rw (e, same) (all, authenticate-none db name password checked, refl, refl)
        | inr e ↦ rw e (w, refl, refl, refl)
      ]

-- A request: the database as it stands, the credentials, the time when the throttle and when the cache is
-- asked, and whether a slot is got before the context ends.
pub record Request : Type 0 where
  pub database : Database
  pub credentials : Option (Bytes × Bytes)
  pub now : ℕ
  pub checked : ℕ
  pub slot : Bool

abbrev pub AllPlain : List Request → Type 0
AllPlain [] = Unit
AllPlain (r ∷ rs) = PlainRows r.database.users × AllPlain rs

-- No request ends while it waits for a slot.
abbrev pub AllServed : List Request → Type 0
AllServed [] = Unit
AllServed (r ∷ rs) = (r.slot ≡ true) × AllServed rs

-- The answers to requests that come one after the other.
abbrev pub serve :
    (mac : Bytes → Bytes) (verify : Bytes → Bytes → Option VerifyError)
    → Throttle
    → Option CredentialCache
    → List Request
    → List Response
serve mac verify limit cache [] = []
serve mac verify limit cache (r ∷ rs) =
    let (limit', cache', response) =
      require_basic_auth mac verify r.database r.credentials r.now r.checked r.slot limit cache in
    response ∷ serve mac verify limit' cache' rs

serve-same :
    (mac : Bytes → Bytes) (injective : (a b : Bytes) → mac a ≡ mac b → a ≡ b)
    (verify : Bytes → Bytes → Option VerifyError) (limit : Throttle)
    (cache : Option CredentialCache) (requests : List Request)
    → AllPlain requests
    → AllServed requests
    → AllVerify mac verify cache
    → serve mac verify limit cache requests ≡ serve mac verify limit none requests
serve-same mac injective verify limit cache [] plain served w = refl
serve-same mac injective verify limit cache (r ∷ rs) (plain, rest) (got, served) w =
    let (all, without, same_limit, same) =
      require-same mac injective verify r.database r.credentials r.now r.checked r.slot limit cache
        got plain w in
    rw (same_limit, same, without)
      (ap
        (λ later.
          (require_basic_auth mac verify r.database r.credentials r.now r.checked r.slot limit
            none).2
          ∷ later)
        (serve-same mac injective verify
          (require_basic_auth mac verify r.database r.credentials r.now r.checked r.slot limit
            none).0
          (require_basic_auth mac verify r.database r.credentials r.now r.checked r.slot limit
            cache).1
          rs rest served all))

-- Whatever requests come one after the other, the account table changing between them in any way, the
-- middleware that remembers verified credentials gives exactly the answers of one that verifies the
-- password of every request, as long as the keyed hash tells messages apart and no user name and no
-- stored hash has a zero byte, and no context ends while a request waits for its turn to verify.
pub serve_transparent :
    (mac : Bytes → Bytes) (injective : (a b : Bytes) → mac a ≡ mac b → a ≡ b)
    (verify : Bytes → Bytes → Option VerifyError) (limit : Throttle) (ttl : ℕ)
    (requests : List Request)
    → AllPlain requests
    → AllServed requests
    → serve mac verify limit (some (new_credential_cache ttl)) requests
      ≡ serve mac verify limit none requests
unfolding new_credential_cache
serve_transparent mac injective verify limit zero requests plain served =
    serve-same mac injective verify limit _ requests plain served (λ n p h k l e. ground arith)
serve_transparent mac injective verify limit (suc ttl) requests plain served =
    serve-same mac injective verify limit _ requests plain served (λ n p h k l e. ground arith)
