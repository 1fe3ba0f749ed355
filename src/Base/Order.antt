-- ===== src/Base/Order.antt =====
-- Sorting by a number that each element has.
use Prim.Native.Nat.{ℕ, ◌≤◌}
use mathlib.Core.Path.{◌≡◌, refl}
use mathlib.Core.Bool.{Bool, true, false}
use mathlib.Core.List.{List, [], ◌∷◌}
use native.Mathlib.Omega.{arith}
use mathlib.Core.Logic.{inl, inr}
use edav.Base.Tests.{leb, Bool-cases}
use edav.Base.Lists.{All, All-elim}
use edav.Base.Rows.{sort_in, sort_by}

module _ {A : Type 0} (key : A → ℕ) where
  abbrev pub by_key : A → A → Bool
  by_key a b = leb (key a) (key b)

  -- Sorting keeps the elements, so what holds of all of them holds of all of them.
  module _ (P : A → Type 0) where
    All-sort_in : (r : A) (rs : List A) → P r → All P rs → All P (sort_in by_key r rs)
    All-sort_in r [] p h = (p, tt)
    All-sort_in r (s ∷ rs) p (q, h) =
        All-elim P (by_key r s) (r ∷ s ∷ rs) (s ∷ sort_in by_key r rs) (λ e. (p, (q, h)))
          (λ e. (q, All-sort_in r rs p h))

    pub All-sort_by : (rs : List A) → All P rs → All P (sort_by by_key rs)
    All-sort_by [] h = tt
    All-sort_by (r ∷ rs) (p, h) = All-sort_in r (sort_by by_key rs) p (All-sort_by rs h)

    unsort_in : (r : A) (rs : List A) → All P (sort_in by_key r rs) → P r × All P rs
    unsort_in r [] h = h
    unsort_in r (s ∷ rs) h = elim (Bool-cases (by_key r s)) [
      | inl e ↦ ground (arith, h)
      | inr e ↦ ground (arith, h, unsort_in r rs)
    ]

    pub unsort_by : (rs : List A) → All P (sort_by by_key rs) → All P rs
    unsort_by [] h = tt
    unsort_by (r ∷ rs) h = let (p, k) = unsort_in r (sort_by by_key rs) h in (p, unsort_by rs k)

  abbrev pub InOrder : List A → Type 0
  InOrder [] = Unit
  InOrder (r ∷ rs) = All (λ s. key r ≤ key s) rs × InOrder rs

  all_later : (t u : ℕ) (rs : List A) → t ≤ u → All (λ s. u ≤ key s) rs → All (λ s. t ≤ key s) rs
  all_later t u [] e h = tt
  all_later t u (s ∷ rs) e (p, h) = (omega arith, all_later t u rs e h)

  InOrder-sort_in : (r : A) (rs : List A) → InOrder rs → InOrder (sort_in by_key r rs)
  InOrder-sort_in r [] h = (tt, tt)
  InOrder-sort_in r (s ∷ rs) (p, h) = go (by_key r s) refl (InOrder-sort_in r rs h)
    where
      go :
          (b : Bool)
          → by_key r s ≡ b
          → InOrder (sort_in by_key r rs)
          → InOrder (elim b [ true ↦ r ∷ s ∷ rs | false ↦ s ∷ sort_in by_key r rs ])
      go true e rest = ((ground arith, all_later (key r) (key s) rs (ground arith) p), (p, h))
      go false e rest = (All-sort_in (λ k. key s ≤ key k) r rs (ground arith) p, rest)

  pub InOrder-sort_by : (rs : List A) → InOrder (sort_by by_key rs)
  InOrder-sort_by [] = tt
  InOrder-sort_by (r ∷ rs) = InOrder-sort_in r (sort_by by_key rs) (InOrder-sort_by rs)
