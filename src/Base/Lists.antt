-- ===== src/Base/Lists.antt =====
-- Lists measured and indexed by native numbers, under the library's names.
use Prim.Native.Nat.{ℕ, zero, suc, ◌+◌, ◌-◌}
use mathlib.Core.Path.{◌≡◌, refl, subst}
use mathlib.Core.Bool.{Bool, true, false}
use mathlib.Core.List.{List, [], ◌∷◌, ◌++◌}
use mathlib.Core.Option.{Option, none, some}
use mathlib.Core.Logic.{inl, inr}
use native.Mathlib.Omega.{arith}
use edav.Base.Tests.{Option-cases, if◌then◌else◌}

module _ {ℓ} {A : Type ℓ} where
  abbrev pub length : List A → ℕ
  length [] = 0
  length (x ∷ xs) = suc (length xs)

  abbrev pub get_elem? : List A → ℕ → Option A
  get_elem? [] i = none
  get_elem? (x ∷ xs) zero = some x
  get_elem? (x ∷ xs) (suc i) = get_elem? xs i

  -- A write out of bounds changes nothing.
  abbrev pub set : List A → ℕ → A → List A
  set [] i v = []
  set (x ∷ xs) zero v = v ∷ xs
  set (x ∷ xs) (suc i) v = x ∷ set xs i v

  abbrev pub take : ℕ → List A → List A
  take zero xs = []
  take (suc n) [] = []
  take (suc n) (x ∷ xs) = x ∷ take n xs

  abbrev pub drop : ℕ → List A → List A
  drop zero xs = xs
  drop (suc n) [] = []
  drop (suc n) (x ∷ xs) = drop n xs

  -- The elements that pass a Boolean test.
  abbrev pub keep : (A → Bool) → List A → List A
  keep p [] = []
  keep p (x ∷ xs) = elim (p x) [ true ↦ x ∷ keep p xs | false ↦ keep p xs ]

  abbrev pub any : (A → Bool) → List A → Bool
  any p [] = false
  any p (x ∷ xs) = elim (p x) [ true ↦ true | false ↦ any p xs ]

module _ {ℓ} {A : Type ℓ} where
  pub length-append : (xs ys : List A) → length (xs ++ ys) ≡ length xs + length ys
  length-append [] ys = omega arith
  length-append (x ∷ xs) ys = omega (arith, length-append xs ys)

  pub take-append-drop : (n : ℕ) (xs : List A) → take n xs ++ drop n xs ≡ xs
  take-append-drop zero xs = refl
  take-append-drop (suc n) [] = refl
  take-append-drop (suc n) (x ∷ xs) = rw (take-append-drop n xs)

  pub length-drop : (n : ℕ) (xs : List A) → length (drop n xs) ≡ length xs - n
  length-drop zero xs = omega arith
  length-drop (suc n) [] = omega arith
  length-drop (suc n) (x ∷ xs) = omega (arith, length-drop n xs)

module _ {ℓ κ} {A : Type ℓ} {B : Type κ} where
  -- A loop that fails as soon as one of its rounds does.
  abbrev pub map_option : (A → Option B) → List A → Option (List B)
  map_option f [] = some []
  map_option f (x ∷ xs) = elim (f x) [
    | none ↦ none
    | some y ↦ elim (map_option f xs) [ none ↦ none | some ys ↦ some (y ∷ ys) ]
  ]

module _ {ℓ} {A : Type ℓ} where
  -- A property of each element.
  abbrev pub All {κ} : (A → Type κ) → List A → Type κ
  All P [] = Unit
  All P (x ∷ xs) = P x × All P xs

  pub All-append {κ} : (P : A → Type κ) (xs ys : List A) → All P xs → All P ys → All P (xs ++ ys)
  All-append P [] ys h k = k
  All-append P (x ∷ xs) ys (p, h) k = (p, All-append P xs ys h k)

  pub All-elim {κ} :
      (P : A → Type κ) (b : Bool) (xs ys : List A)
      → (b ≡ true → All P xs)
      → (b ≡ false → All P ys)
      → All P (elim b [ true ↦ xs | false ↦ ys ])
  All-elim P true xs ys h k = h refl
  All-elim P false xs ys h k = k refl

  pub All-if {κ} :
      (P : A → Type κ) (b : Bool) (xs ys : List A)
      → (b ≡ true → All P xs)
      → (b ≡ false → All P ys)
      → All P (if b then xs else ys)
  All-if P true xs ys h k = h refl
  All-if P false xs ys h k = k refl

module _ {ℓ κ} {A : Type ℓ} {B : Type κ} (f : A → Option B) where
  pub map_option-cons :
      (x : A) (xs : List A) {ys : List B}
      → map_option f (x ∷ xs) ≡ some ys
      → (y : B) × (zs : List B) × (f x ≡ some y) × (map_option f xs ≡ some zs) × (ys ≡ y ∷ zs)
  map_option-cons x xs {ys} h = elim (Option-cases (f x)) [
    | inl e ↦ absurd (ground arith)
    | inr (y, e) ↦ elim (Option-cases (map_option f xs)) [
      | inl g ↦ absurd (ground arith)
      | inr (zs, g) ↦ (y, zs, e, g, ground arith)
    ]
  ]

  -- What holds of all the results holds of the result of each element.
  pub All-map_option {μ} :
      (P : B → Type μ) (xs : List A) {ys : List B}
      → map_option f xs ≡ some ys
      → All P ys
      → All (λ x. (y : B) → f x ≡ some y → P y) xs
  All-map_option P [] e h = tt
  All-map_option P (x ∷ xs) {ys} e h =
      let (y, zs, g, k, same) = map_option-cons x xs {ys = ys} e in
      let both = subst (All P) same h in
      (
        (λ z a. let eq : y ≡ z = ground arith in rw (← eq) both.0),
        All-map_option P xs {ys = zs} k both.1,
      )
