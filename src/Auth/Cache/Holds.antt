-- ===== src/Auth/Cache/Holds.antt =====
-- internal/auth/cache.go: which entries a cache holds after each of its operations.
use edav.Base.{
  ℕ, ◌+◌, Bool, true, List, [], ◌∷◌, some, leb, any, ◌≡◌, ◌⊎◌, inl, inr, arith, Option-cases,
}
use edav.Base.Bytes.{Bytes, equal, equal_iff}
use edav.Base.Rows
use edav.Base.Table.{lookup, insert, delete}
use edav.Auth.Cache.{CredentialCache, id, sweep, verified, remember}

-- Whether some entry has the key.
abbrev pub holds : Bytes → List (Bytes × ℕ) → Bool
holds key m = any (λ e. equal e.0 key) m

holds-lookup :
    (key : Bytes) (m : List (Bytes × ℕ)) {expires : ℕ}
    → lookup key m ≡ some expires
    → holds key m ≡ true
unfolding lookup
holds-lookup key [] h = ground arith
holds-lookup key ((j, v) ∷ m) {expires} h = ground (arith, holds-lookup key m {expires = expires})

holds-insert :
    (k j : Bytes) (v : ℕ) (m : List (Bytes × ℕ))
    → holds j (insert k v m) ≡ true
    → (k ≡ j) ⊎ (holds j m ≡ true)
unfolding insert
holds-insert k j v [] h = ground (arith, equal_iff k j)
holds-insert k j v ((i, w) ∷ m) h =
    ground (arith, equal_iff k j, equal_iff i k, equal_iff i j, holds-insert k j v m)

holds-delete : (k j : Bytes) (m : List (Bytes × ℕ)) → holds j (delete k m) ≡ true → holds j m ≡ true
unfolding delete
holds-delete k j [] h = ground arith
holds-delete k j ((i, w) ∷ m) h = ground (arith, holds-delete k j m)

holds-sweep :
    (key : Bytes) (c : CredentialCache) (now : ℕ)
    → holds key (sweep c now).entries ≡ true
    → holds key c.entries ≡ true
unfolding sweep
holds-sweep key c now h =
    ground
      (arith, Rows.any-delete_le (λ (e : Bytes × ℕ). equal e.0 key) (λ e. leb e.1 now) c.entries)

module _ (mac : Bytes → Bytes) (name password hash : Bytes) (now : ℕ) where
  pub holds-remember :
      (c : CredentialCache) (key : Bytes)
      → holds key (remember mac c name password hash now).entries ≡ true
      → (id mac name password hash ≡ key) ⊎ (holds key c.entries ≡ true)
  unfolding remember
  holds-remember c key h =
      let own = id mac name password hash in
      ground (
        arith,
        holds-insert own key (now + c.ttl) c.entries,
        holds-insert own key (now + c.ttl) [],
        holds-insert own key (now + c.ttl) (sweep c now).entries,
        holds-sweep key c now,
      )

  pub holds-verified :
      (c : CredentialCache) (key : Bytes)
      → holds key (verified mac c name password hash now).0.entries ≡ true
      → holds key c.entries ≡ true
  unfolding verified
  holds-verified c key h = ground (arith, holds-delete (id mac name password hash) key c.entries)

  pub verified-holds :
      (c : CredentialCache)
      → (verified mac c name password hash now).1 ≡ true
      → holds (id mac name password hash) c.entries ≡ true
  unfolding verified
  verified-holds c h = elim (Option-cases (lookup (id mac name password hash) c.entries)) [
    | inl e ↦ ground arith
    | inr (x, e) ↦ holds-lookup (id mac name password hash) c.entries {expires = x} e
  ]
