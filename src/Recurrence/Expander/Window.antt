-- ===== src/Recurrence/Expander/Window.antt =====
-- internal/recurrence/expand.go: the window of `expandMaster` leaves out no occurrence.
use edav.Base.{
  ℕ, zero, suc, ◌+◌, ◌-◌, ◌≤◌, ◌<◌, false, List, [], ◌∷◌, Option, some, ltb, ◌≡◌, inl, inr, refl,
  arith, All, length, map_option, map_option-cons, Bool-cases, Option-cases,
}
use edav.Base.Bytes.{Bytes}
use edav.Recurrence.{ComponentProp, Component, Instance, prop, overlaps, in_utc, prop_start}
use edav.Recurrence.Expander.{
  max_occurrences, RuleOption, RecurrenceSet, instance_of, recurrence_set, expand_master,
  expansion_slack, window_from, window_to, as_long_as, instant, absolute, scan, overlapping,
}

-- The iterator of a set gives its times in order.
abbrev pub Ascending : List ℕ → Type 0
Ascending [] = Unit
Ascending (w ∷ ws) = All (λ v. w ≤ v) ws × Ascending ws

-- No clock is more than the slack away from UTC.
abbrev pub Near : (Bytes → ℕ → Option ℕ) → Type 0
Near to_utc =
    (zone : Bytes) (wall t : ℕ)
    → to_utc zone wall ≡ some t
    → (t ≤ wall + expansion_slack) × (wall ≤ t + expansion_slack)

module _ (to_utc : Bytes → ℕ → Option ℕ) (near : Near to_utc) (c : Component)
    (base : Instance) where
  instant-near :
      (p : ComponentProp) (wall t : ℕ)
      → instant to_utc p wall ≡ some t
      → (t ≤ wall + expansion_slack) × (wall ≤ t + expansion_slack)
  instant-near p wall t h = elim (Bool-cases (in_utc p.value)) [
    | inl e ↦ ground arith
    | inr e ↦ near p.tzid wall t (ground arith)
  ]

  absolute-near :
      (wall : ℕ) {i : Instance}
      → absolute to_utc c base wall ≡ some i
      → (i.end ≡ i.start + base.end - base.start)
        × (i.start ≤ wall + expansion_slack)
        × (wall ≤ i.start + expansion_slack)
  unfolding absolute
  absolute-near wall {i} h = elim (Option-cases (prop c prop_start)) [
    | inl e ↦ absurd (ground arith)
    | inr (p, e) ↦ elim (Option-cases (instant to_utc p wall)) [
      | inl f ↦ absurd (ground arith)
      | inr (t, f) ↦
          let same : as_long_as base t wall ≡ i = ground arith in
          let close = instant-near p wall t f in rw (← same) (refl, close.0, close.1)
    ]
  ]

  module _ (from to : ℕ) (forward : base.start ≤ base.end) where
    absolute-late :
        (wall : ℕ) {i : Instance}
        → absolute to_utc c base wall ≡ some i
        → window_to base to < wall
        → overlaps i from to ≡ false
    unfolding overlaps
    absolute-late wall {i} h late =
        let close = absolute-near wall {i = i} h in ground (arith, close)

    absolute-early :
        (wall : ℕ) {i : Instance}
        → absolute to_utc c base wall ≡ some i
        → wall < window_from base from
        → overlaps i from to ≡ false
    unfolding overlaps
    absolute-early wall {i} h early =
        let close = absolute-near wall {i = i} h in ground (arith, close)

    overlapping-late :
        (walls : List ℕ) {is : List Instance}
        → All (λ v. window_to base to < v) walls
        → map_option (absolute to_utc c base) walls ≡ some is
        → overlapping from to is ≡ []
    unfolding overlapping
    overlapping-late [] late h = ground arith
    overlapping-late (wall ∷ walls) {is} late h =
        let (i, js, e, f, same) = map_option-cons (absolute to_utc c base) wall walls {ys = is} h in
        let out = absolute-late wall {i = i} e late.0 in
        rw same (ground (arith, out, overlapping-late walls {is = js} late.1))

    all_late :
        (v : ℕ) (walls : List ℕ)
        → All (λ w. v ≤ w) walls
        → window_to base to < v
        → All (λ w. window_to base to < w) walls
    all_late v [] h late = tt
    all_late v (w ∷ ws) (h, t) late = (ground arith, all_late v ws t late)

    -- The loop finds every occurrence that overlaps the range.
    pub scan_complete :
        (n : ℕ) (walls : List ℕ) {is : List Instance}
        → Ascending walls
        → length walls ≤ n
        → map_option (absolute to_utc c base) walls ≡ some is
        → scan to_utc c base from to n walls ≡ some (overlapping from to is)
    unfolding scan overlapping
    scan_complete zero [] up few h = ground arith
    scan_complete zero (w ∷ ws) up few h = absurd (ground arith)
    scan_complete (suc n) [] up few h = ground arith
    scan_complete (suc n) (wall ∷ walls) {is} (first, up) few h =
        let (i, js, e, f, same) = map_option-cons (absolute to_utc c base) wall walls {ys = is} h in
        let rest = scan_complete n walls {is = js} up (ground arith) f in
        rw same (elim (Bool-cases (ltb (window_to base to) wall)) [
          | inl late ↦
              let out = absolute-late wall {i = i} e (ground arith) in
              let none_left =
                overlapping-late walls {is = js} (all_late wall walls first (ground arith)) f in
              ground arith
          | inr near ↦ elim (Bool-cases (ltb wall (window_from base from))) [
            | inl early ↦ let out = absolute-early wall {i = i} e (ground arith) in ground arith
            | inr soon ↦ ground arith
          ]
        ])

module _ (to_utc : Bytes → ℕ → Option ℕ) (later : ComponentProp → ℕ → Option ℕ)
    (to_local : Bytes → ℕ → Option ℕ) (recurrence_rule : Component → Option (Option RuleOption))
    (rule_set : Option RuleOption → ℕ → List ℕ → List ℕ → Option (List ℕ)) where
  -- For a series whose first instance does not end before it starts, whose set gives at most
  -- `max_occurrences` times and gives them in order, and with every clock within the slack of UTC, the
  -- expansion of the master is the conversion of all the times, of which it keeps those that overlap.
  pub expand_master_complete :
      (near : Near to_utc) (c : Component) (base : Instance) (s : RecurrenceSet) (from to : ℕ)
      {is : List Instance}
      → instance_of to_utc later c ≡ some base
      → recurrence_set to_utc later to_local recurrence_rule rule_set c ≡ some (some s)
      → base.start ≤ base.end
      → Ascending s.all
      → length s.all ≤ max_occurrences
      → map_option (absolute to_utc c base) s.all ≡ some is
      → expand_master to_utc later to_local recurrence_rule rule_set c from to
        ≡ some (overlapping from to is)
  unfolding expand_master
  expand_master_complete near c base s from to {is} first set forward up few h =
      rw (first, set, expand_master)
        (scan_complete to_utc near c base from to forward max_occurrences s.all {is = is} up few h)
