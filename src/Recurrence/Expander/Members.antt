-- ===== src/Recurrence/Expander/Members.antt =====
-- internal/recurrence/expand.go: properties of all instances that the loops of `Expand` choose.
use edav.Base.{
  ℕ, zero, suc, true, false, List, [], ◌∷◌, ◌++◌, Option, none, some, ◌==◌, ltb, ◌≡◌, inl, inr,
  refl, arith, All, All-append, All-elim, Bool-cases, Option-cases,
}
use edav.Base.Bytes.{Bytes}
use edav.Base.Order.{InOrder, InOrder-sort_by, All-sort_by}
use edav.Recurrence.{ComponentProp, Component, Instance, overlaps}
use edav.Recurrence.Expander.{
  max_occurrences, window_from, window_to, override_at, drop_override, put_override, put_overrides,
  replace_overridden, unused, appended, overlapping, absolute, scan, RuleOption, RecurrenceSet,
  instance_of, recurrence_set, expand_master, merge_overrides,
}

-- A property of all instances that are at hand is one of all that are chosen from them.
module _ (P : Instance → Type 0) where
  All-drop_override : (t : ℕ) (is : List Instance) → All P is → All P (drop_override t is)
  unfolding drop_override
  All-drop_override t [] h = tt
  All-drop_override t (i ∷ is) (p, h) =
      All-elim P (i.recurrence_id == t) (drop_override t is) (i ∷ drop_override t is)
        (λ e. All-drop_override t is h) (λ e. (p, All-drop_override t is h))

  pub All-put_overrides :
      (is js : List Instance) → All P is → All P js → All P (put_overrides is js)
  unfolding put_overrides put_override
  All-put_overrides is [] h k = h
  All-put_overrides is (j ∷ js) h (p, k) =
      All-put_overrides (put_override is j) js
        (All-append P (drop_override j.recurrence_id is) (j ∷ [])
          (All-drop_override j.recurrence_id is h) (p, tt))
        k

  All-override_at :
      (t : ℕ) (is : List Instance) {i : Instance} → override_at t is ≡ some i → All P is → P i
  unfolding override_at
  All-override_at t [] e h = absurd (ground arith)
  All-override_at t (j ∷ is) {i} e (p, h) = elim (Bool-cases (j.recurrence_id == t)) [
    | inl f ↦ let same : j ≡ i = ground arith in rw (← same) p
    | inr f ↦ All-override_at t is {i = i} (ground arith) h
  ]

  All-overlapping :
      (from to : ℕ) (is : List Instance)
      → All (λ i. overlaps i from to ≡ true → P i) is
      → All P (overlapping from to is)
  unfolding overlapping
  All-overlapping from to [] h = tt
  All-overlapping from to (i ∷ is) (p, h) =
      All-elim P (overlaps i from to) (i ∷ overlapping from to is) (overlapping from to is)
        (λ e. (p e, All-overlapping from to is h)) (λ e. All-overlapping from to is h)

module _ (P : Instance → Type 0) (from to : ℕ) where
  abbrev Chosen : Instance → Type 0
  Chosen i = overlaps i from to ≡ true → P i

  All-appended :
      (o : Option Instance) (i : Instance) (is os : List Instance)
      → override_at i.recurrence_id os ≡ o
      → All Chosen os
      → P i
      → All P is
      → All P (appended from to o i is)
  unfolding appended
  All-appended none i is os e h p k = (p, k)
  All-appended (some o) i is os e h p k =
      All-elim P (overlaps o from to) (o ∷ is) is
        (λ f. (All-override_at Chosen i.recurrence_id os {i = o} e h f, k)) (λ f. k)

  All-unused :
      (o : Option Instance) (t : ℕ) (os : List Instance)
      → All Chosen os
      → All Chosen (unused o t os)
  unfolding unused
  All-unused none t os h = h
  All-unused (some o) t os h = All-drop_override Chosen t os h

  -- The instances that are left or replaced, and the overrides that are left.
  All-replace_overridden :
      (os is : List Instance)
      → All Chosen os
      → All P is
      → All P (replace_overridden from to os is).0 × All Chosen (replace_overridden from to os is).1
  unfolding replace_overridden
  All-replace_overridden os [] h k = (tt, h)
  All-replace_overridden os (i ∷ is) h (p, k) =
      let o = override_at i.recurrence_id os in
      let os' = unused o i.recurrence_id os in
      let rest = All-replace_overridden os' is (All-unused o i.recurrence_id os h) k in
      (All-appended o i (replace_overridden from to os' is).0 os refl h p rest.0, rest.1)

  pub All-merge_overrides :
      (os is : List Instance) → All Chosen os → All P is → All P (merge_overrides from to os is)
  unfolding merge_overrides
  All-merge_overrides os is h k =
      let (kept, unused) = All-replace_overridden os is h k in
      let (left, over) = replace_overridden from to os is in
      All-sort_by (λ (i : Instance). i.start) P (left ++ overlapping from to over)
        (All-append P left (overlapping from to over) kept (All-overlapping P from to over unused))

pub InOrder-merge_overrides :
    (from to : ℕ) (os is : List Instance)
    → InOrder (λ (i : Instance). i.start) (merge_overrides from to os is)
unfolding merge_overrides
InOrder-merge_overrides from to os is =
    let (left, over) = replace_overridden from to os is in
    InOrder-sort_by (λ (i : Instance). i.start) (left ++ overlapping from to over)

module _ (to_utc : Bytes → ℕ → Option ℕ) (c : Component) (base : Instance) (from to : ℕ)
    (P : Instance → Type 0) where
  -- What the loop of `expandMaster` returns are the conversions of its times that overlap.
  pub All-scan :
      (n : ℕ) (walls : List ℕ) {is : List Instance}
      → All
          (λ w.
            (i : Instance) → absolute to_utc c base w ≡ some i → overlaps i from to ≡ true → P i)
          walls
      → scan to_utc c base from to n walls ≡ some is
      → All P is
  unfolding scan
  All-scan zero walls {is} h e = let same : [] ≡ is = ground arith in rw (← same) tt
  All-scan (suc n) [] {is} h e = let same : [] ≡ is = ground arith in rw (← same) tt
  All-scan (suc n) (w ∷ walls) {is} (p, h) e = elim (Bool-cases (ltb (window_to base to) w)) [
    | inl late ↦ let same : [] ≡ is = ground arith in rw (← same) tt
    | inr near ↦ elim (Bool-cases (ltb w (window_from base from))) [
      | inl early ↦ All-scan n walls {is = is} h (ground arith)
      | inr soon ↦ elim (Option-cases (absolute to_utc c base w)) [
        | inl f ↦ absurd (ground arith)
        | inr (i, f) ↦ elim (Option-cases (scan to_utc c base from to n walls)) [
          | inl g ↦ absurd (ground arith)
          | inr (js, g) ↦
              let rest = All-scan n walls {is = js} h g in
              let same : elim (overlaps i from to) [ true ↦ i ∷ js | false ↦ js ] ≡ is =
                ground arith in
              rw (← same)
                (All-elim P (overlaps i from to) (i ∷ js) js (λ o. (p i f o, rest)) (λ o. rest))
        ]
      ]
    ]
  ]

pub all_of : {P : ℕ → Type 0} → ((w : ℕ) → P w) → (ws : List ℕ) → All P ws
all_of h [] = tt
all_of h (w ∷ ws) = (h w, all_of h ws)

pub all_chosen :
    (from to : ℕ) (is : List Instance)
    → All (λ i. overlaps i from to ≡ true → overlaps i from to ≡ true) is
all_chosen from to [] = tt
all_chosen from to (i ∷ is) = ((λ e. e), all_chosen from to is)

module _ (to_utc : Bytes → ℕ → Option ℕ) (later : ComponentProp → ℕ → Option ℕ)
    (to_local : Bytes → ℕ → Option ℕ) (recurrence_rule : Component → Option (Option RuleOption))
    (rule_set : Option RuleOption → ℕ → List ℕ → List ℕ → Option (List ℕ)) where
  -- A property of the instances of the master, converted and overlapping the range.
  pub All-expand_master :
      (P : Instance → Type 0) (c : Component) (from to : ℕ) (base : Instance) {is : List Instance}
      → instance_of to_utc later c ≡ some base
      → (overlaps base from to ≡ true → P base)
      → ((s : RecurrenceSet)
          → recurrence_set to_utc later to_local recurrence_rule rule_set c ≡ some (some s)
          → All
              (λ w.
                (i : Instance)
                → absolute to_utc c base w ≡ some i
                → overlaps i from to ≡ true
                → P i)
              s.all)
      → expand_master to_utc later to_local recurrence_rule rule_set c from to ≡ some is
      → All P is
  unfolding expand_master
  All-expand_master P c from to base {is} f own each h =
      elim (Option-cases (recurrence_set to_utc later to_local recurrence_rule rule_set c)) [
        | inl g ↦ absurd (ground arith)
        | inr (none, g) ↦
            let same : overlapping from to (base ∷ []) ≡ is = ground arith in
            rw (← same) (All-overlapping P from to (base ∷ []) (own, tt))
        | inr (some s, g) ↦
            All-scan to_utc c base from to P max_occurrences s.all {is = is} (each s g)
              (ground arith)
      ]
