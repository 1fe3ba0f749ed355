-- ===== src/Recurrence/Timezones/Latest.antt =====
-- internal/recurrence/timezone.go: which transition `offsetAt` goes by.
use edav.Base.{
  ℕ, ◌≤◌, ◌<◌, List, [], ◌∷◌, none, some, ltb, ◌≡◌, ◌⊎◌, inl, inr, refl, arith, All, Bool-cases,
}
use edav.Base.Int.{ℤ}
use edav.Base.Order.{InOrder, InOrder-sort_by, unsort_by, All-sort_by}
use edav.Recurrence.Timezones.{Observance}
use edav.Recurrence.Timezones.Offsets.{Transition, transitions, best_of, sorted, offset_at}

module _ {A : Type 0} where
  abbrev pub OneOf : A → List A → Type 0
  OneOf x [] = ⊥
  OneOf x (y ∷ ys) = (x ≡ y) ⊎ OneOf x ys

  pub each_listed : (P : A → Type 0) (xs : List A) → ((x : A) → OneOf x xs → P x) → All P xs
  each_listed P [] h = tt
  each_listed P (x ∷ xs) h = (h x (inl refl), each_listed P xs (λ y k. h y (inr k)))

-- The offset is that of a transition which is not behind the instant, and none that is not behind the
-- instant is later.
pub record Latest (ts : List Transition) (instant : ℕ) (offset : ℤ) : Type 0 where
  pub best : Transition
  pub is_listed : OneOf best ts
  pub is_past : best.at ≤ instant
  pub same_offset : best.offset ≡ offset
  pub is_last : All (λ t. t.at ≤ instant → t.at ≤ best.at) ts

none_past :
    (instant k n : ℕ) (ts : List Transition)
    → instant < k
    → All (λ t. k ≤ t.at) ts
    → All (λ t. t.at ≤ instant → t.at ≤ n) ts
none_past instant k n [] h m = tt
none_past instant k n (t ∷ ts) h (m, ms) =
    ((λ g. absurd (omega arith)), none_past instant k n ts h ms)

all_future :
    (instant k : ℕ) (ts : List Transition)
    → instant < k
    → All (λ t. k ≤ t.at) ts
    → All (λ t. instant < t.at) ts
all_future instant k [] h m = tt
all_future instant k (t ∷ ts) h (m, ms) = (omega arith, all_future instant k ts h ms)

-- The loop, on sorted transitions, behind one that it has found.
best_of-Latest :
    (P : Transition → Type 0) (instant : ℕ) (b : Transition) (ts : List Transition)
    → P b
    → All P ts
    → b.at ≤ instant
    → All (λ t. b.at ≤ t.at) ts
    → InOrder (λ t. t.at) ts
    → (c : Transition) × (best_of instant (some b) ts ≡ some c)
      × P c
      × (c.at ≤ instant)
      × (b.at ≤ c.at)
      × All (λ t. t.at ≤ instant → t.at ≤ c.at) ts
unfolding best_of
best_of-Latest P instant b [] x y h k o = (b, refl, x, h, omega arith, tt)
best_of-Latest P instant b (t ∷ ts) x (y, z) h (k, l) (m, o) =
    elim (Bool-cases (ltb instant t.at)) [
      | inl e ↦ (
        b,
        ground arith,
        x,
        h,
        omega arith,
        ((λ g. absurd (ground arith)), none_past instant t.at b.at ts (ground arith) m),
      )
      | inr e ↦
          let (c, found, p, past, later, last) =
            best_of-Latest P instant t ts y z (ground arith) m o in
          (c, ground arith, p, past, omega arith, (λ _. later, last))
    ]

-- The loop finds nothing, or the latest of the transitions that are not behind the instant.
best_of-none :
    (P : Transition → Type 0) (instant : ℕ) (ts : List Transition)
    → All P ts
    → InOrder (λ t. t.at) ts
    → ((best_of instant none ts ≡ none) × All (λ t. instant < t.at) ts)
      ⊎ ((c : Transition) × (best_of instant none ts ≡ some c)
          × P c
          × (c.at ≤ instant)
          × All (λ t. t.at ≤ instant → t.at ≤ c.at) ts)
unfolding best_of
best_of-none P instant [] z o = inl (refl, tt)
best_of-none P instant (t ∷ ts) (y, z) (m, o) = elim (Bool-cases (ltb instant t.at)) [
  | inl e ↦ inl (ground arith, (ground arith, all_future instant t.at ts (ground arith) m))
  | inr e ↦
      let (c, found, p, past, later, last) = best_of-Latest P instant t ts y z (ground arith) m o in
      inr (c, ground arith, p, past, ((λ _. later), last))
]

module _ {Rule : Type 0} (between : Rule → ℕ → ℕ → List ℕ) where
  -- The loop by itself: the latest of the transitions that it has listed.
  pub offset_at-listed :
      (os : List (Observance Rule)) (instant : ℕ) {offset : ℤ}
      → offset_at between os instant ≡ some offset
      → Latest (transitions between os instant) instant offset
        ⊎ All (λ t. instant < t.at) (transitions between os instant)
  unfolding offset_at
  offset_at-listed os instant {offset} h =
      let ts = transitions between os instant in
      elim (best_of-none (λ t. OneOf t ts) instant (sorted ts)
        (All-sort_by (λ (t : Transition). t.at) (λ t. OneOf t ts) ts
          (each_listed (λ t. OneOf t ts) ts (λ _ k. k)))
        (InOrder-sort_by (λ (t : Transition). t.at) ts)) [
          | inl (e, future) ↦
              inr (unsort_by (λ (t : Transition). t.at) (λ t. instant < t.at) ts future)
          | inr (c, e, listed, past, last) ↦ inl (record {
            best = c;
            is_listed = listed;
            is_past = past;
            same_offset = chosen ts refl e;
            is_last =
                unsort_by (λ (t : Transition). t.at) (λ t. t.at ≤ instant → t.at ≤ c.at) ts last;
          })
        ]
    where
      chosen :
          (ts : List Transition) {c : Transition}
          → transitions between os instant ≡ ts
          → best_of instant none (sorted ts) ≡ some c
          → c.offset ≡ offset
      chosen [] {c} g e = absurd (ground arith)
      chosen (t ∷ ts) {c} g e = ground (arith, h, g, e)
