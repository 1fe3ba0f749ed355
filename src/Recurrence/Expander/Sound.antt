-- ===== src/Recurrence/Expander/Sound.antt =====
-- internal/recurrence/expand.go: what is true of every instance that `Expand` returns.
use edav.Base.{
  ℕ, List, [], Option, none, some, true, ◌≡◌, inl, inr, refl, arith, All, map_option, Option-cases,
}
use edav.Base.Bytes.{Bytes}
use edav.Base.Order.{InOrder}
use edav.Recurrence.{ComponentProp, Component, Instance, overlaps, split_components}
use edav.Recurrence.Expander.{
  put_overrides, RuleOption, instance_of, override_of, expand_master, merge_overrides, expand,
}
use edav.Recurrence.Expander.Members.{
  All-merge_overrides, All-expand_master, all_of, all_chosen, InOrder-merge_overrides,
}

module _ (to_utc : Bytes → ℕ → Option ℕ) (later : ComponentProp → ℕ → Option ℕ)
    (to_local : Bytes → ℕ → Option ℕ) (recurrence_rule : Component → Option (Option RuleOption))
    (rule_set : Option RuleOption → ℕ → List ℕ → List ℕ → Option (List ℕ)) where
  -- The instances of the master, if there is one.
  abbrev pub MasterExpansion : Option Component → ℕ → ℕ → List Instance → Type 0
  MasterExpansion none from to expanded = expanded ≡ []
  MasterExpansion (some m) from to expanded =
      expand_master to_utc later to_local recurrence_rule rule_set m from to ≡ some expanded

  pub expand-inv :
      (children : List Component) (from to : ℕ) {is : List Instance}
      → expand to_utc later to_local recurrence_rule rule_set children from to ≡ some is
      → (overrides : List Instance) × (expanded : List Instance) × (map_option
            (override_of to_utc later)
            (split_components children).1
          ≡ some overrides)
        × MasterExpansion (split_components children).0 from to expanded
        × (merge_overrides from to (put_overrides [] overrides) expanded ≡ is)
  unfolding expand
  expand-inv children from to {is} h =
      elim (Option-cases (map_option (override_of to_utc later) (split_components children).1)) [
        | inl e ↦ absurd (ground arith)
        | inr (overrides, e) ↦ go overrides e (split_components children).0 refl
      ]
    where
      go :
          (overrides : List Instance)
          → map_option (override_of to_utc later) (split_components children).1 ≡ some overrides
          → (m : Option Component) → (split_components children).0 ≡ m
          → (overrides : List Instance) × (expanded : List Instance) × (map_option
                (override_of to_utc later)
                (split_components children).1
              ≡ some overrides)
            × MasterExpansion m from to expanded
            × (merge_overrides from to (put_overrides [] overrides) expanded ≡ is)
      go overrides e none f = (overrides, [], e, refl, ground arith)
      go overrides e (some m) f =
          elim (Option-cases
            (expand_master to_utc later to_local recurrence_rule rule_set m from to)) [
              | inl g ↦ absurd (ground arith)
              | inr (expanded, g) ↦ (overrides, expanded, e, g, ground arith)
            ]

  expansion-overlaps :
      (m : Option Component) (from to : ℕ) (expanded : List Instance)
      → MasterExpansion m from to expanded
      → All (λ i. overlaps i from to ≡ true) expanded
  unfolding expand_master
  expansion-overlaps none from to expanded e = rw e tt
  expansion-overlaps (some m) from to expanded e =
      elim (Option-cases (instance_of to_utc later m)) [
        | inl f ↦ absurd (ground arith)
        | inr (base, f) ↦
            All-expand_master to_utc later to_local recurrence_rule rule_set
              (λ i. overlaps i from to ≡ true) m from to base {is = expanded} f (λ o. o)
              (λ s g. all_of (λ w i a o. o) s.all) e
      ]

  -- The instances that are returned overlap the range, and each starts no later than the next ones.
  pub expand_sound :
      (children : List Component) (from to : ℕ) {is : List Instance}
      → expand to_utc later to_local recurrence_rule rule_set children from to ≡ some is
      → All (λ i. overlaps i from to ≡ true) is × InOrder (λ (i : Instance). i.start) is
  expand_sound children from to {is} h =
      let (overrides, expanded, e, m, same) = expand-inv children from to {is = is} h in
      let os = put_overrides [] overrides in
      rw (← same) (
        All-merge_overrides (λ i. overlaps i from to ≡ true) from to os expanded
            (all_chosen from to os)
            (expansion-overlaps (split_components children).0 from to expanded m),
        InOrder-merge_overrides from to os expanded,
      )
