-- ===== src/Recurrence/Expander/Covered.antt =====
-- internal/recurrence/expand.go and the `WHERE` clause of `ObjectsInTimeRange`: the bounds of `Summarise`
-- are those of the instances of `Expand`, so the index does not hide an object from a query.
use edav.Base.{
  ℕ, ◌≤◌, true, false, List, [], ◌∷◌, Option, none, some, ltb, ◌≡◌, inl, inr, refl, subst, arith,
  All, map_option, map_option-cons, All-map_option, Bool-cases, Option-cases,
}
use edav.Base.Bytes.{Bytes}
use edav.Recurrence.{ComponentProp, Component, Instance, Bounds, prop_recurrence_id}
use edav.Recurrence.Expander.{
  RuleOption, RecurrenceSet, absolute, component_time, own_bounds, instance_of, override_of,
  recurrence_set, widen, widen_all, summarise_set, summarise_master,
}

abbrev pub Covers : ℕ → ℕ → Instance → Type 0
Covers lo hi i = (lo ≤ i.start) × (i.end ≤ hi)

all_wider :
    (lo hi lo' hi' : ℕ) (is : List Instance)
    → lo' ≤ lo
    → hi ≤ hi'
    → All (Covers lo hi) is
    → All (Covers lo' hi') is
all_wider lo hi lo' hi' [] l h k = tt
all_wider lo hi lo' hi' (i ∷ is) l h (p, k) =
    ((ground arith, ground arith), all_wider lo hi lo' hi' is l h k)

-- Bounds that are wide enough for more instances, and no narrower.
abbrev Widened : ℕ → ℕ → List Instance → Bounds → Type 0
Widened s e is b =
    (lo : ℕ) × (hi : ℕ) × (b.start ≡ some lo)
    × (b.end ≡ some hi)
    × (lo ≤ s)
    × (e ≤ hi)
    × All (Covers lo hi) is

widen_all-Widened :
    (is : List Instance) (b : Bounds) (s e : ℕ)
    → b.start ≡ some s
    → b.end ≡ some e
    → Widened s e is (widen_all b is)
unfolding widen_all widen
widen_all-Widened [] b s e f g = (s, e, f, g, ground arith, ground arith, tt)
widen_all-Widened (i ∷ is) b s e f g =
    let s' = elim (ltb i.start s) as (λ _. ℕ) [ true ↦ i.start | false ↦ s ] in
    let e' = elim (ltb e i.end) as (λ _. ℕ) [ true ↦ i.end | false ↦ e ] in
    let (lo, hi, k, l, m, n, all) =
      widen_all-Widened is (widen b i) s' e' (ground (arith, f)) (ground (arith, g)) in
    (lo, hi, k, l, ground arith, ground arith, ((ground arith, ground arith), all))

module _ (to_utc : Bytes → ℕ → Option ℕ) (later : ComponentProp → ℕ → Option ℕ)
    (to_local : Bytes → ℕ → Option ℕ) (recurrence_rule : Component → Option (Option RuleOption))
    (rule_set : Option RuleOption → ℕ → List ℕ → List ℕ → Option (List ℕ)) where
  -- What the bounds between `lo` and `hi` cover of a master and its overrides.
  pub record Covered (m : Component) (overrides : List Component) (lo hi : ℕ) : Type 0 where
    pub base : Instance
    pub is_base : instance_of to_utc later m ≡ some base
    pub own : Covers lo hi base
    pub each :
        (s : RecurrenceSet)
        → recurrence_set to_utc later to_local recurrence_rule rule_set m ≡ some (some s)
        → All (λ w. (i : Instance) → absolute to_utc m base w ≡ some i → Covers lo hi i) s.all
    pub others : List Instance
    pub are_others : map_option (instance_of to_utc later) overrides ≡ some others
    pub all : All (Covers lo hi) others

  override_of-inv :
      (c : Component) {o : Instance}
      → override_of to_utc later c ≡ some o
      → (i : Instance) × (instance_of to_utc later c ≡ some i)
        × (o.start ≡ i.start)
        × (o.end ≡ i.end)
  unfolding override_of
  override_of-inv c {o} h = elim (Option-cases (component_time to_utc c prop_recurrence_id)) [
    | inl e ↦ absurd (ground arith)
    | inr (t, e) ↦ elim (Option-cases (instance_of to_utc later c)) [
      | inl f ↦ absurd (ground arith)
      | inr (i, f) ↦
          let same : record i { recurrence_id = t; override = true } ≡ o = ground arith in
          (i, f, rw (← same) refl, rw (← same) refl)
    ]
  ]

  -- The overrides as `Expand` reads them take the place that `Summarise` has reserved.
  pub overrides-Covers :
      (lo hi : ℕ) (cs : List Component) {is os : List Instance}
      → map_option (instance_of to_utc later) cs ≡ some is
      → All (Covers lo hi) is
      → map_option (override_of to_utc later) cs ≡ some os
      → All (Covers lo hi) os
  overrides-Covers lo hi [] {is} {os} e h f = let same : [] ≡ os = ground arith in rw (← same) tt
  overrides-Covers lo hi (c ∷ cs) {is} {os} e h f =
      let (i, js, g, k, same) = map_option-cons (instance_of to_utc later) c cs {ys = is} e in
      let (o, ps, m, n, same') = map_option-cons (override_of to_utc later) c cs {ys = os} f in
      let (i', p, q, r) = override_of-inv c {o = o} m in
      let both = subst (All (Covers lo hi)) same h in
      let eq : i ≡ i' = ground arith in
      let old = subst (Covers lo hi) eq both.0 in
      rw same' (
        (ground (arith, old), ground (arith, old)),
        overrides-Covers lo hi cs {is = js} {os = ps} k both.1 n,
      )

  module _ (text : Component → Bytes → Option Bytes) (m : Component) (overrides : List Component)
      (base : Instance) (is_base : instance_of to_utc later m ≡ some base) {b : Bounds} {hi : ℕ}
      (e : b.end ≡ some hi) where
    single-Covered :
        (os : List Instance)
        → recurrence_set to_utc later to_local recurrence_rule rule_set m ≡ some none
        → map_option (instance_of to_utc later) overrides ≡ some os
        → widen_all (own_bounds text m base) os ≡ b
        → (lo : ℕ) × (b.start ≡ some lo) × Covered m overrides lo hi
    single-Covered os g f same =
        let (lo, hi', k, l, n, p, all) =
          subst (Widened base.start base.end os) same
            (widen_all-Widened os (own_bounds text m base) base.start base.end refl refl) in
        let eq : hi' ≡ hi = ground arith in
        (
          lo,
          k,
          record {
            base = base;
            is_base = is_base;
            own = (ground arith, ground arith);
            each = λ s u. absurd (ground arith);
            others = os;
            are_others = f;
            all = subst (λ h. All (Covers lo h) os) eq all;
          },
        )

    series-Covered :
        (s : RecurrenceSet) (is os : List Instance)
        → recurrence_set to_utc later to_local recurrence_rule rule_set m ≡ some (some s)
        → map_option (absolute to_utc m base) s.all ≡ some is
        → map_option (instance_of to_utc later) overrides ≡ some os
        → widen_all (widen_all (record (own_bounds text m base) { recurring = true }) is) os ≡ b
        → (lo : ℕ) × (b.start ≡ some lo) × Covered m overrides lo hi
    series-Covered s is os g f f' same =
        let mid = widen_all (record (own_bounds text m base) { recurring = true }) is in
        let (lo, hi', k, l, n, p, all) =
          widen_all-Widened is (record (own_bounds text m base) { recurring = true }) base.start
            base.end refl refl in
        let (lo'', hi'', k', l', n', p', all') =
          subst (Widened lo hi' os) same (widen_all-Widened os mid lo hi' k l) in
        let eq : hi'' ≡ hi = ground arith in
        let inner = all_wider lo hi' lo'' hi is n' (ground arith) all in
        (
          lo'',
          k',
          record {
            base = base;
            is_base = is_base;
            own = (ground arith, ground arith);
            each = λ t u.
                let same_set : s ≡ t = ground arith in
                subst
                  (λ (r : RecurrenceSet).
                    All (λ w. (i : Instance) → absolute to_utc m base w ≡ some i → Covers lo'' hi i)
                      r.all)
                  same_set
                  (All-map_option (absolute to_utc m base) (Covers lo'' hi) s.all {ys = is} f
                    inner);
            others = os;
            are_others = f';
            all = subst (λ h. All (Covers lo'' h) os) eq all';
          },
        )

  pub summarise_master-Covered :
      (m : Component) (overrides : List Component) (text : Component → Bytes → Option Bytes)
      {b : Bounds} {hi : ℕ}
      → summarise_master to_utc later to_local recurrence_rule rule_set text m overrides ≡ some b
      → b.end ≡ some hi
      → (lo : ℕ) × (b.start ≡ some lo) × Covered m overrides lo hi
  unfolding summarise_master summarise_set
  summarise_master-Covered m overrides text {b} {hi} h e =
      elim (Option-cases (instance_of to_utc later m)) [
        | inl f ↦ absurd (ground arith)
        | inr (base, f) ↦
            elim (Option-cases (recurrence_set to_utc later to_local recurrence_rule rule_set m)) [
              | inl g ↦ absurd (ground arith)
              | inr (none, g) ↦
                  elim (Option-cases (map_option (instance_of to_utc later) overrides)) [
                    | inl k ↦ absurd (ground arith)
                    | inr (os, k) ↦
                        single-Covered text m overrides base f {b = b} e os g k (ground arith)
                  ]
              | inr (some s, g) ↦ elim (Bool-cases s.bounded) [
                | inr unbounded ↦
                    let same : record (own_bounds text m base) { recurring = true; end = none }
                        ≡ b =
                      ground arith in
                    absurd (ground (arith, same))
                | inl bounded ↦ elim (Option-cases (map_option (absolute to_utc m base) s.all)) [
                  | inl k ↦ absurd (ground arith)
                  | inr (is, k) ↦
                      elim (Option-cases (map_option (instance_of to_utc later) overrides)) [
                        | inl l ↦ absurd (ground arith)
                        | inr (os, l) ↦
                            series-Covered text m overrides base f {b = b} e s is os g k l
                              (ground arith)
                      ]
                ]
              ]
            ]
      ]
