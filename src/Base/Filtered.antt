-- ===== src/Base/Filtered.antt =====
-- `WHERE` and `ORDER BY`: leaving out rows before sorting or behind it makes no difference.
use mathlib.Core.Path.{◌≡◌, refl}
use mathlib.Core.Bool.{Bool, true, false}
use mathlib.Core.List.{List, [], ◌∷◌}
use mathlib.Core.Logic.{inl, inr}
use native.Mathlib.Omega.{arith}
use edav.Base.Tests.{Bool-cases}
use edav.Base.Lists.{All, All-elim, keep}
use edav.Base.Rows.{sort_in, sort_by}
use edav.Base.Bytes.{Bytes, leb_bytes}

module _ {A : Type 0} (le : A → A → Bool) (total : (a b : A) → le a b ≡ false → le b a ≡ true)
    (trans : (a b c : A) → le a b ≡ true → le b c ≡ true → le a c ≡ true) where
  abbrev Ordered : List A → Type 0
  Ordered [] = Unit
  Ordered (r ∷ rs) = All (λ s. le r s ≡ true) rs × Ordered rs

  all_later :
      (t u : A) (rs : List A)
      → le t u ≡ true
      → All (λ s. le u s ≡ true) rs
      → All (λ s. le t s ≡ true) rs
  all_later t u [] e h = tt
  all_later t u (s ∷ rs) e (p, h) = (trans t u s e p, all_later t u rs e h)

  All-sort_in : (P : A → Type 0) (r : A) (rs : List A) → P r → All P rs → All P (sort_in le r rs)
  All-sort_in P r [] p h = (p, tt)
  All-sort_in P r (s ∷ rs) p (q, h) =
      All-elim P (le r s) (r ∷ s ∷ rs) (s ∷ sort_in le r rs) (λ e. (p, (q, h)))
        (λ e. (q, All-sort_in P r rs p h))

  Ordered-sort_in : (r : A) (rs : List A) → Ordered rs → Ordered (sort_in le r rs)
  Ordered-sort_in r [] h = (tt, tt)
  Ordered-sort_in r (s ∷ rs) (p, h) = go (le r s) refl (Ordered-sort_in r rs h)
    where
      go :
          (b : Bool)
          → le r s ≡ b
          → Ordered (sort_in le r rs)
          → Ordered (elim b [ true ↦ r ∷ s ∷ rs | false ↦ s ∷ sort_in le r rs ])
      go true e rest = ((e, all_later r s rs e p), (p, h))
      go false e rest = (All-sort_in (λ k. le s k ≡ true) r rs (total r s e) p, rest)

  Ordered-sort_by : (rs : List A) → Ordered (sort_by le rs)
  Ordered-sort_by [] = tt
  Ordered-sort_by (r ∷ rs) = Ordered-sort_in r (sort_by le rs) (Ordered-sort_by rs)

  sort_in-front : (r : A) (rs : List A) → All (λ s. le r s ≡ true) rs → sort_in le r rs ≡ r ∷ rs
  sort_in-front r [] h = refl
  sort_in-front r (s ∷ rs) (p, h) = ground (arith, p)

  module _ (p : A → Bool) where
    All-keep : (P : A → Type 0) (rs : List A) → All P rs → All P (keep p rs)
    All-keep P [] h = tt
    All-keep P (r ∷ rs) (q, h) =
        All-elim P (p r) (r ∷ keep p rs) (keep p rs) (λ e. (q, All-keep P rs h))
          (λ e. All-keep P rs h)

    keep-sort_in_out : (r : A) (rs : List A) → p r ≡ false → keep p (sort_in le r rs) ≡ keep p rs
    keep-sort_in_out r [] h = ground arith
    keep-sort_in_out r (s ∷ rs) h = ground (arith, h, keep-sort_in_out r rs h)

    keep-sort_in :
        (r : A) (rs : List A)
        → Ordered rs
        → p r ≡ true
        → keep p (sort_in le r rs) ≡ sort_in le r (keep p rs)
    keep-sort_in r [] o h = ground arith
    keep-sort_in r (s ∷ rs) (q, o) h = elim (Bool-cases (le r s)) [
      | inl e ↦
          let behind = All-keep (λ t. le r t ≡ true) (s ∷ rs) (e, all_later r s rs e q) in
          ground (arith, h, e, sort_in-front r (keep p (s ∷ rs)) behind)
      | inr e ↦ ground (arith, h, e, keep-sort_in r rs o h)
    ]

    pub keep-sort_by : (rs : List A) → keep p (sort_by le rs) ≡ sort_by le (keep p rs)
    keep-sort_by [] = refl
    keep-sort_by (r ∷ rs) = elim (Bool-cases (p r)) [
      | inl e ↦
          ground (arith, e, keep-sort_in r (sort_by le rs) (Ordered-sort_by rs) e, keep-sort_by rs)
      | inr e ↦ ground (arith, e, keep-sort_in_out r (sort_by le rs) e, keep-sort_by rs)
    ]

pub leb_bytes_total : (a b : Bytes) → leb_bytes a b ≡ false → leb_bytes b a ≡ true
unfolding leb_bytes
leb_bytes_total [] b h = absurd (ground arith)
leb_bytes_total (c ∷ a) [] h = refl
leb_bytes_total (c ∷ a) (d ∷ b) h = ground (arith, leb_bytes_total a b)

pub leb_bytes_trans :
    (a b c : Bytes) → leb_bytes a b ≡ true → leb_bytes b c ≡ true → leb_bytes a c ≡ true
unfolding leb_bytes
leb_bytes_trans [] b c h k = refl
leb_bytes_trans (x ∷ a) [] c h k = absurd (ground arith)
leb_bytes_trans (x ∷ a) (y ∷ b) [] h k = absurd (ground arith)
leb_bytes_trans (x ∷ a) (y ∷ b) (z ∷ c) h k = ground (arith, leb_bytes_trans a b c)
