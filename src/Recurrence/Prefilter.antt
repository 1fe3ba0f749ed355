-- ===== src/Recurrence/Prefilter.antt =====
-- internal/recurrence/expand.go and the `WHERE` clause of `ObjectsInTimeRange`: the index does not hide
-- an object from a query by time.
use edav.Base.{ℕ, ◌<◌, true, List, [], ◌∷◌, Option, some, ◌≡◌, subst, arith, All}
use edav.Base.Bytes.{Bytes}
use edav.Storage.Objects.{could_overlap}
use edav.Recurrence.{ComponentProp, Component, Instance, Bounds, overlaps, split_components}
use edav.Recurrence.Expander.{put_overrides, RuleOption, absolute, expand, summarise}
use edav.Recurrence.Expander.Members.{All-merge_overrides, All-put_overrides, All-expand_master}
use edav.Recurrence.Expander.Sound.{MasterExpansion, expand-inv, expand_sound}
use edav.Recurrence.Expander.Covered.{Covers, Covered, summarise_master-Covered, overrides-Covers}

all_if :
    {A B : Instance → Type 0}
    → ((i : Instance) → A i → B i)
    → (is : List Instance) → All A is
    → All B is
all_if f [] h = tt
all_if f (i ∷ is) (p, h) = (f i p, all_if f is h)

weaker :
    {B : ℕ → Type 0} (A : ℕ → Type 0) → ((w : ℕ) → A w → B w) → (ws : List ℕ) → All A ws → All B ws
weaker A f [] h = tt
weaker A f (w ∷ ws) (p, h) = (f w p, weaker A f ws h)

-- Of two lists with the same elements, what holds of each element holds together.
both :
    (A B : Instance → Type 0) (is : List Instance) → All A is → All B is → All (λ i. A i × B i) is
both A B [] h k = tt
both A B (i ∷ is) (p, h) (q, k) = ((p, q), both A B is h k)

covering-could_overlap :
    (i : Instance) (from to lo hi : ℕ) (b : Bounds)
    → b.start ≡ some lo
    → b.end ≡ some hi
    → Covers lo hi i
    → overlaps i from to ≡ true
    → i.start < i.end
    → could_overlap from to b.start b.end ≡ true
unfolding could_overlap overlaps
covering-could_overlap i from to lo hi b e f c o long = rw (e, f) (ground arith)

module _ (to_utc : Bytes → ℕ → Option ℕ) (later : ComponentProp → ℕ → Option ℕ)
    (to_local : Bytes → ℕ → Option ℕ) (recurrence_rule : Component → Option (Option RuleOption))
    (rule_set : Option RuleOption → ℕ → List ℕ → List ℕ → Option (List ℕ)) where
  expand-Covers :
      (children : List Component) (from to lo hi : ℕ) (m : Component) {is : List Instance}
      → (split_components children).0 ≡ some m
      → Covered to_utc later to_local recurrence_rule rule_set m (split_components children).1 lo hi
      → expand to_utc later to_local recurrence_rule rule_set children from to ≡ some is
      → All (Covers lo hi) is
  expand-Covers children from to lo hi m {is} e c h =
      let (overrides, expanded, f, g, same) =
        expand-inv to_utc later to_local recurrence_rule rule_set children from to {is = is} h in
      let told =
        overrides-Covers to_utc later to_local recurrence_rule rule_set lo hi
          (split_components children).1 {is = c.others} {os = overrides} c.are_others c.all f in
      let os = put_overrides [] overrides in
      let mine =
        subst
          (λ x. MasterExpansion to_utc later to_local recurrence_rule rule_set x from to expanded) e
          g in
      subst (All (Covers lo hi)) same (
        All-merge_overrides (Covers lo hi) from to os expanded
          (all_if (λ i p o. p) os (All-put_overrides (Covers lo hi) [] overrides tt told))
          (All-expand_master to_utc later to_local recurrence_rule rule_set (Covers lo hi) m from to
            c.base {is = expanded} c.is_base (λ o. c.own)
            (λ s k.
              weaker (λ w. (i : Instance) → absolute to_utc m c.base w ≡ some i → Covers lo hi i)
                (λ w p i a o. p i a) s.all (c.each s k))
            mine))

  -- For an object with a master whose bounds have an end, every instance in the range that takes time is
  -- one for which the `WHERE` clause selects the object by its bounds.
  pub prefilter_sound :
      (text : Component → Bytes → Option Bytes) (children : List Component) (from to hi : ℕ)
      (m : Component) {is : List Instance} {b : Bounds}
      → (split_components children).0 ≡ some m
      → summarise to_utc later to_local recurrence_rule rule_set text children ≡ some b
      → b.end ≡ some hi
      → expand to_utc later to_local recurrence_rule rule_set children from to ≡ some is
      → All (λ i. i.start < i.end → could_overlap from to b.start b.end ≡ true) is
  unfolding summarise
  prefilter_sound text children from to hi m {is} {b} e f g h =
      let (lo, k, c) =
        summarise_master-Covered to_utc later to_local recurrence_rule rule_set m
          (split_components children).1 text {b = b} {hi = hi} (ground arith) g in
      all_if (λ i (p, o) long. covering-could_overlap i from to lo hi b k g p o long) is
        (both (Covers lo hi) (λ i. overlaps i from to ≡ true) is
          (expand-Covers children from to lo hi m {is = is} e c h)
          (expand_sound to_utc later to_local recurrence_rule rule_set children from to {is = is}
            h).0)
