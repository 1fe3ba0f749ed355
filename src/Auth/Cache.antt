-- ===== src/Auth/Cache.antt =====
-- internal/auth/cache.go: verified credentials of Basic authentication, remembered for a while.
-- HMAC-SHA-256 under the process's key is the parameter `mac`.
pub mod Message
pub mod Holds
use edav.Base.{
  ℕ, zero, suc, ◌+◌, ◌-◌, ◌*◌, ◌^◌, ◌≤◌, ◌<◌, Bool, true, false, not, List, [], ◌∷◌, ◌++◌, Option,
  none, some, ltb, leb, if◌then◌else◌, length, ◌≡◌, ◌≢◌, ◌⊎◌, inl, inr, refl, sym, ◌∙◌, ap, arith,
  Option-cases,
}
use edav.Base.Bytes.{Bytes, equal}
use edav.Base.Rows
use edav.Base.Table.{lookup, insert, delete}
use edav.Auth.Throttle.{second}

abbrev pub default_credential_ttl : ℕ
default_credential_ttl = 5 * 60 * second

abbrev pub max_credential_entries : ℕ
max_credential_entries = 1024

-- `credentialCache`: when each entry expires.
pub record CredentialCache : Type 0 where
  pub entries : List (Bytes × ℕ)
  pub ttl : ℕ

-- A lifetime of zero or below is 0 here, and means the default.
unfoldable pub new_credential_cache : ℕ → CredentialCache
new_credential_cache zero = record { entries = []; ttl = default_credential_ttl }
new_credential_cache (suc ttl) = record { entries = []; ttl = suc ttl }

-- What `id` writes to the hash: each part and a zero byte.
unfoldable pub message : Bytes → Bytes → Bytes → Bytes
message username password stored_hash =
    username ++ (0 ∷ (password ++ (0 ∷ (stored_hash ++ (0 ∷ [])))))

-- `sweepLocked`.
unfoldable pub sweep : CredentialCache → ℕ → CredentialCache
sweep c now = record c { entries = Rows.delete (λ (e : Bytes × ℕ). leb e.1 now) c.entries }

module _ (mac : Bytes → Bytes) where
  unfoldable pub id : Bytes → Bytes → Bytes → Bytes
  id username password stored_hash = mac (message username password stored_hash)

  unfoldable pub verified : CredentialCache → Bytes → Bytes → Bytes → ℕ → CredentialCache × Bool
  verified c username password stored_hash now =
      let key = id username password stored_hash in
      elim (lookup key c.entries) [
        | none ↦ (c, false)
        | some expires ↦
            if leb expires now
            then (record c { entries = delete key c.entries }, false)
            else (c, true)
      ]

  unfoldable pub remember : CredentialCache → Bytes → Bytes → Bytes → ℕ → CredentialCache
  remember c username password stored_hash now =
      let key = id username password stored_hash in
      let swept = sweep c now in
      let room =
        if leb max_credential_entries (length c.entries)
        then if leb max_credential_entries (length swept.entries)
          then record c { entries = [] }
          else swept
        else c in
      record room { entries = insert key (now + c.ttl) room.entries }
