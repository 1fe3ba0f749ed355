-- ===== src/Base/Rows.antt =====
-- SQL tables as lists of rows: the statements that the storage layer sends, with their `WHERE` clause
-- as a Boolean test.
use Prim.Native.Nat.{ℕ, ◌+◌, ◌≤◌, max}
use mathlib.Core.Path.{◌≡◌, refl}
use mathlib.Core.Bool.{Bool, true, false, ◌&&◌, ◌||◌}
use mathlib.Core.List.{List, [], ◌∷◌, ◌++◌}
use mathlib.Core.Option.{Option, none, some}
use native.Mathlib.Omega.{arith}
use edav.Base.Tests.{◌==◌}
use edav.Base.Lists.{keep, any}

module _ {ℓ} {A : Type ℓ} where
  -- `SELECT … WHERE` for a single row.
  abbrev pub select : (A → Bool) → List A → Option A
  select p [] = none
  select p (r ∷ rs) = elim (p r) [ true ↦ some r | false ↦ select p rs ]

  -- `UPDATE … SET … WHERE`.
  abbrev pub update : (A → Bool) → (A → A) → List A → List A
  update p f [] = []
  update p f (r ∷ rs) = elim (p r) [ true ↦ f r ∷ update p f rs | false ↦ r ∷ update p f rs ]

  -- `DELETE … WHERE`.
  abbrev pub delete : (A → Bool) → List A → List A
  delete p [] = []
  delete p (r ∷ rs) = elim (p r) [ true ↦ delete p rs | false ↦ r ∷ delete p rs ]

  -- `ORDER BY`: insertion sort, stable.
  abbrev pub sort_in : (A → A → Bool) → A → List A → List A
  sort_in le r [] = r ∷ []
  sort_in le r (s ∷ rs) = elim (le r s) [ true ↦ r ∷ s ∷ rs | false ↦ s ∷ sort_in le r rs ]

  abbrev pub sort_by : (A → A → Bool) → List A → List A
  sort_by le [] = []
  sort_by le (r ∷ rs) = sort_in le r (sort_by le rs)

  -- The id of a new row of an `INTEGER PRIMARY KEY`: one more than the largest.
  abbrev pub next_id : (A → ℕ) → List A → ℕ
  next_id id [] = 1
  next_id id (r ∷ rs) = max (id r + 1) (next_id id rs)

module _ {ℓ} {A : Type ℓ} where
  pub select-append :
      (p : A → Bool) (xs ys : List A)
      → select p (xs ++ ys) ≡ elim (select p xs) [ none ↦ select p ys | some r ↦ some r ]
  select-append p [] ys = refl
  select-append p (x ∷ xs) ys = ground (arith, select-append p xs ys)

  pub any-sort_in :
      (p : A → Bool) (le : A → A → Bool) (r : A) (rs : List A)
      → any p (sort_in le r rs) ≡ (p r || any p rs)
  any-sort_in p le r [] = ground arith
  any-sort_in p le r (s ∷ rs) = ground (arith, any-sort_in p le r rs)

  pub any-sort_by :
      (p : A → Bool) (le : A → A → Bool) (rs : List A) → any p (sort_by le rs) ≡ any p rs
  any-sort_by p le [] = refl
  any-sort_by p le (r ∷ rs) =
      ground (arith, any-sort_in p le r (sort_by le rs), any-sort_by p le rs)

  pub any_congr : (p q : A → Bool) → ((r : A) → p r ≡ q r) → (rs : List A) → any p rs ≡ any q rs
  any_congr p q h [] = refl
  any_congr p q h (r ∷ rs) = ground (arith, h r, any_congr p q h rs)

  pub any-append : (p : A → Bool) (xs ys : List A) → any p (xs ++ ys) ≡ (any p xs || any p ys)
  any-append p [] ys = refl
  any-append p (x ∷ xs) ys = ground (arith, any-append p xs ys)

  pub any-keep : (p q : A → Bool) (rs : List A) → any p (keep q rs) ≡ any (λ r. q r && p r) rs
  any-keep p q [] = refl
  any-keep p q (r ∷ rs) = ground (arith, any-keep p q rs)

  pub select-update_self :
      (p : A → Bool) (f : A → A)
      → ((r : A) → p (f r) ≡ p r)
      → (rs : List A)
      → select p (update p f rs) ≡ elim (select p rs) [ none ↦ none | some r ↦ some (f r) ]
  select-update_self p f h [] = refl
  select-update_self p f h (r ∷ rs) = ground (arith, h r, select-update_self p f h rs)

  pub select-update_ne :
      (p q : A → Bool) (f : A → A)
      → ((r : A) → q r ≡ true → p r ≡ false)
      → ((r : A) → p (f r) ≡ p r)
      → (rs : List A) → select p (update q f rs) ≡ select p rs
  select-update_ne p q f n h [] = refl
  select-update_ne p q f n h (r ∷ rs) = ground (arith, n r, h r, select-update_ne p q f n h rs)

  pub select-delete_ne :
      (p q : A → Bool)
      → ((r : A) → p r ≡ true → q r ≡ false)
      → (rs : List A) → select p (delete q rs) ≡ select p rs
  select-delete_ne p q h [] = refl
  select-delete_ne p q h (r ∷ rs) = ground (arith, h r, select-delete_ne p q h rs)

  pub any-delete_ne :
      (p q : A → Bool)
      → ((r : A) → p r ≡ true → q r ≡ false)
      → (rs : List A) → any p (delete q rs) ≡ any p rs
  any-delete_ne p q h [] = refl
  any-delete_ne p q h (r ∷ rs) = ground (arith, h r, any-delete_ne p q h rs)

  pub any-delete_le :
      (p q : A → Bool) (rs : List A) → any p rs ≡ false → any p (delete q rs) ≡ false
  any-delete_le p q [] e = refl
  any-delete_le p q (r ∷ rs) e = ground (arith, any-delete_le p q rs)

  pub select_sound : (p : A → Bool) (rs : List A) {r : A} → select p rs ≡ some r → p r ≡ true
  select_sound p [] h = ground arith
  select_sound p (s ∷ rs) {r} h = ground (arith, select_sound p rs {r = r})

  pub select_absent : (p : A → Bool) (rs : List A) → any p rs ≡ false → select p rs ≡ none
  select_absent p [] h = refl
  select_absent p (r ∷ rs) h = ground (arith, select_absent p rs)

-- Tables whose rows have different ids.
module _ {ℓ} {A : Type ℓ} (id : A → ℕ) where
  abbrev pub DistinctIds : List A → Type 0
  DistinctIds [] = Unit
  DistinctIds (r ∷ rs) = (any (λ s. id s == id r) rs ≡ false) × DistinctIds rs

  pub DistinctIds-delete : (q : A → Bool) (rs : List A) → DistinctIds rs → DistinctIds (delete q rs)
  DistinctIds-delete q [] h = tt
  DistinctIds-delete q (r ∷ rs) (h, t) =
      ground (arith, DistinctIds-delete q rs t, any-delete_le (λ s. id s == id r) q rs h)

  any-update_id :
      (q : A → Bool) (f : A → A) (k : ℕ)
      → ((r : A) → id (f r) ≡ id r)
      → (rs : List A) → any (λ s. id s == k) (update q f rs) ≡ any (λ s. id s == k) rs
  any-update_id q f k h [] = refl
  any-update_id q f k h (r ∷ rs) = ground (arith, h r, any-update_id q f k h rs)

  pub DistinctIds-update :
      (q : A → Bool) (f : A → A)
      → ((r : A) → id (f r) ≡ id r)
      → (rs : List A) → DistinctIds rs
      → DistinctIds (update q f rs)
  DistinctIds-update q f h [] d = tt
  DistinctIds-update q f h (r ∷ rs) (e, d) =
      ground (arith, h r, DistinctIds-update q f h rs d, any-update_id q f (id r) h rs)

  any-next_id : (rs : List A) (k : ℕ) → next_id id rs ≤ k → any (λ s. id s == k) rs ≡ false
  any-next_id [] k h = refl
  any-next_id (r ∷ rs) k h = ground (arith, any-next_id rs k)

  DistinctIds-snoc :
      (rs : List A) (r : A)
      → any (λ s. id s == id r) rs ≡ false
      → DistinctIds rs
      → DistinctIds (rs ++ r ∷ [])
  DistinctIds-snoc [] r h d = (refl, tt)
  DistinctIds-snoc (s ∷ rs) r h (e, d) =
      ground (arith, DistinctIds-snoc rs r, any-append (λ t. id t == id s) rs (r ∷ []))

  pub DistinctIds-insert :
      (rs : List A) (r : A) → id r ≡ next_id id rs → DistinctIds rs → DistinctIds (rs ++ r ∷ [])
  DistinctIds-insert rs r e d = DistinctIds-snoc rs r (any-next_id rs (id r) (omega arith)) d

  pub update_absent :
      (q : A → Bool) (f : A → A) (rs : List A) → any q rs ≡ false → update q f rs ≡ rs
  update_absent q f [] h = refl
  update_absent q f (r ∷ rs) h = ground (arith, update_absent q f rs)

  pub select-id_ne :
      (p : A → Bool) (k : ℕ) (rs : List A) {o : A}
      → select p rs ≡ some o
      → any (λ s. id s == k) rs ≡ false
      → (id o == k) ≡ false
  select-id_ne p k [] h e = ground arith
  select-id_ne p k (r ∷ rs) {o} h e = ground (arith, select-id_ne p k rs {o = o})

  -- A row found by its content and then written by its id: only that row changes.
  pub select-update_id_ne :
      (p q : A → Bool) (f : A → A)
      → ((r : A) → q r ≡ true → p r ≡ false)
      → (rs : List A) {o : A} → DistinctIds rs
      → select p rs ≡ some o
      → q (f o) ≡ false
      → select q (update (λ s. id s == id o) f rs) ≡ select q rs
  select-update_id_ne p q f n [] d h k = refl
  select-update_id_ne p q f n (r ∷ rs) {o} (e, d) h k = ground (
    arith,
    n r,
    select-id_ne p (id r) rs {o = o},
    select-update_id_ne p q f n rs {o = o} d,
    update_absent (λ s. id s == id o) f rs,
  )

  pub select-update_id_self :
      (p : A → Bool) (f : A → A) (rs : List A) {o : A}
      → DistinctIds rs
      → select p rs ≡ some o
      → p (f o) ≡ true
      → select p (update (λ s. id s == id o) f rs) ≡ some (f o)
  select-update_id_self p f [] d h k = ground arith
  select-update_id_self p f (r ∷ rs) {o} (e, d) h k =
      ground (arith, select-id_ne p (id r) rs {o = o}, select-update_id_self p f rs {o = o} d)

  -- A row that is found is found by its id as well.
  pub select_id :
      (p : A → Bool) (rs : List A) {o : A}
      → DistinctIds rs
      → select p rs ≡ some o
      → select (λ r. id r == id o) rs ≡ some o
  select_id p [] d h = absurd (ground arith)
  select_id p (r ∷ rs) {o} (e, d) h =
      ground (arith, select-id_ne p (id r) rs {o = o}, select_id p rs {o = o} d)

  pub any-select_id :
      (p : A → Bool) (rs : List A) {o : A}
      → select p rs ≡ some o
      → any (λ r. id r == id o) rs ≡ true
  any-select_id p [] h = absurd (ground arith)
  any-select_id p (r ∷ rs) {o} h = ground (arith, any-select_id p rs {o = o})
