-- ===== src/Auth/Basic/Spelling.antt =====
-- internal/auth: accounts are found whatever the case of the name, but failures are counted for each spelling.
use edav.Base.{false, List, [], ◌∷◌, Option, none, some, ◌≡◌}
use edav.Base.Bytes.{Bytes, equal}
use edav.Base.Rows
use edav.Auth.Throttle.{Throttle}
use edav.Auth.Cache.{CredentialCache}
use edav.Auth.Basic.{VerifyError, require_basic_auth}
use edav.Auth.Basic.Transparent.{Request}

-- The throttle and the cache behind requests that come one after the other.
abbrev pub after_requests :
    (mac : Bytes → Bytes) (verify : Bytes → Bytes → Option VerifyError)
    → Throttle
    → CredentialCache
    → List Request
    → Throttle × CredentialCache
after_requests mac verify limit cache [] = (limit, cache)
after_requests mac verify limit cache (r ∷ rs) =
    let (limit', cache', response) =
      require_basic_auth mac verify r.database r.credentials r.now r.checked r.slot limit
        (some cache) in
    after_requests mac verify limit' (elim cache' [ none ↦ cache | some c ↦ c ]) rs

-- Requests without this very name.
abbrev pub IsOther : Bytes → Option (Bytes × Bytes) → Type 0
IsOther other none = Unit
IsOther other (some (name, password)) = equal name other ≡ false

abbrev pub NoneUnder : Bytes → List Request → Type 0
NoneUnder other [] = Unit
NoneUnder other (r ∷ rs) = IsOther other r.credentials × NoneUnder other rs
