-- ===== src/Auth/Basic/Cached.antt =====
-- internal/auth/basic.go: what the password check and the cache make of one another for an account.
use edav.Base.{ℕ, true, List, [], ◌∷◌, Option, none, some, ◌≡◌, ◌⊎◌, inl, inr, arith, Bool-cases}
use edav.Base.Bytes.{Bytes, equal_fold}
use edav.Base.Rows
use edav.Storage.{User}
use edav.Auth.Cache.{CredentialCache, id, verified, remember}
use edav.Auth.Cache.Message.{NulFree, message_injective, NulFree-equal_fold}
use edav.Auth.Basic.{VerifyError, check_password, check_cached}
use edav.Auth.Cache.Holds.{holds, holds-remember, holds-verified, verified-holds}

module _ (mac : Bytes → Bytes) (verify : Bytes → Bytes → Option VerifyError) where
  -- Every credential that a cache holds has a password that verifies.
  abbrev pub Verifies : CredentialCache → Type 0
  Verifies c =
      (name password hash : Bytes)
      → NulFree name
      → NulFree hash
      → holds (id mac name password hash) c.entries ≡ true
      → verify hash password ≡ none

  abbrev pub AllVerify : Option CredentialCache → Type 0
  AllVerify none = Unit
  AllVerify (some c) = Verifies c

-- Names and hashes of all accounts are free of zero bytes.
abbrev pub PlainRows : List User → Type 0
PlainRows [] = Unit
PlainRows (u ∷ us) = NulFree u.username × NulFree u.password_hash × PlainRows us

pub PlainRows-select :
    (us : List User) (name : Bytes) {u : User}
    → PlainRows us
    → Rows.select (λ (r : User). equal_fold r.username name) us ≡ some u
    → NulFree name × NulFree u.password_hash
PlainRows-select [] name h e = ground arith
PlainRows-select (r ∷ us) name {u} (f, g, h) e = elim (Bool-cases (equal_fold r.username name)) [
  | inl m ↦ ground (arith, NulFree-equal_fold r.username name m f, g)
  | inr m ↦ PlainRows-select us name {u = u} h (ground arith)
]

module _ (mac : Bytes → Bytes) (injective : (a b : Bytes) → mac a ≡ mac b → a ≡ b)
    (verify : Bytes → Bytes → Option VerifyError) where
  Verifies-remember :
      (c : CredentialCache) (name password hash : Bytes) (now : ℕ)
      → NulFree name
      → NulFree hash
      → verify hash password ≡ none
      → Verifies mac verify c
      → Verifies mac verify (remember mac c name password hash now)
  unfolding id
  Verifies-remember c name password hash now f g v w n p h k l e =
      elim (holds-remember mac name password hash now c (id mac n p h) e) [
        | inl same ↦
            ground
              (arith, message_injective name n password p hash h f k g l (injective _ _ same), v)
        | inr old ↦ w n p h k l old
      ]

  Verifies-verified :
      (c : CredentialCache) (name password hash : Bytes) (now : ℕ)
      → Verifies mac verify c
      → Verifies mac verify (verified mac c name password hash now).0
  Verifies-verified c name password hash now w n p h k l e =
      w n p h k l (holds-verified mac name password hash now c (id mac n p h) e)

  pub check_cached_result :
      (u : User) (name password : Bytes) (c : CredentialCache) (now : ℕ)
      → NulFree name
      → NulFree u.password_hash
      → Verifies mac verify c
      → (check_cached mac verify u name password c now true).1
        ≡ check_password mac verify u password true
  unfolding check_cached check_password
  check_cached_result u name password c now f g w =
      let hit = verified-holds mac name password u.password_hash now c in
      ground (arith, hit, w name password u.password_hash f g)

  -- The cache afterwards: looked up in, and grown by a credential whose password verifies.
  check_cached_cache :
      (u : User) (name password : Bytes) (c : CredentialCache) (now : ℕ)
      → let looked = (verified mac c name password u.password_hash now).0 in
        ((check_cached mac verify u name password c now true).0 ≡ some looked)
        ⊎ ((verify u.password_hash password ≡ none)
            × ((check_cached mac verify u name password c now true).0
                ≡ some (remember mac looked name password u.password_hash now)))
  unfolding check_cached
  check_cached_cache u name password c now = ground arith

  pub AllVerify-check_cached :
      (u : User) (name password : Bytes) (c : CredentialCache) (now : ℕ)
      → NulFree name
      → NulFree u.password_hash
      → Verifies mac verify c
      → AllVerify mac verify (check_cached mac verify u name password c now true).0
  AllVerify-check_cached u name password c now f g w =
      let looked = Verifies-verified c name password u.password_hash now w in
      elim (check_cached_cache u name password c now) [
        | inl e ↦ rw e looked
        | inr (v, e) ↦ rw e (Verifies-remember _ name password u.password_hash now f g v looked)
      ]
