-- ===== src/Recurrence/Expander.antt =====
-- internal/recurrence/expand.go: `Expander`. Of the zone database and of the third-party packages the
-- expander uses: `to_utc` is `Timezones.ToUTC`, `to_local` the wall clock of `Timezones.Resolve`, `later`
-- adds the DURATION of a property, `text` is `Props.Text`, `recurrence_rule` is `Props.RecurrenceRule`, and
-- `rule_set` gives what a set of rrule-go iterates over, in its order, which ends with the year 9999.
pub mod Window
pub mod Members
pub mod Sound
pub mod Covered
use edav.Base.{
  ℕ, zero, suc, ◌+◌, ◌-◌, Bool, true, false, ◌||◌, List, [], ◌∷◌, ◌++◌, Option, none, some, ◌==◌,
  ltb, leb, if◌then◌else◌, ◌>>=◌, map_option,
}
use edav.Base.Bytes.{Bytes, equal}
use edav.Base.Rows.{sort_by}
use edav.Base.Time.{day, zero_time}
use edav.Recurrence.{
  ComponentProp, Component, Instance, Bounds, prop, overlaps, is_date_only, parse_wall_time, in_utc,
  date_list, prop_start, prop_end, prop_due, prop_duration, prop_recurrence_id, prop_dates,
  prop_exceptions, comp_to_do, prop_uid, prop_summary, split_components,
}

-- `maxOccurrences` and `expansionSlack`.
abbrev pub max_occurrences : ℕ
max_occurrences = 10000

abbrev pub expansion_slack : ℕ
expansion_slack = 93600

-- What the code reads and writes of `rrule.ROption`; `rest` is what it leaves to the package.
pub record RuleOption : Type 0 where
  pub until : Option ℕ
  pub count : ℕ
  pub rest : Bytes

pub record RecurrenceSet : Type 0 where
  pub all : List ℕ
  pub bounded : Bool

-- An instance that starts at `start` and lasts as long as `base`.
abbrev pub as_long_as : Instance → ℕ → ℕ → Instance
as_long_as base start wall = record {
  start = start;
  end = start + base.end - base.start;
  recurrence_id = wall;
  override = false;
}

abbrev pub window_from : Instance → ℕ → ℕ
window_from base from = from + base.start - (base.end + expansion_slack)

abbrev pub window_to : Instance → ℕ → ℕ
window_to base to = to + expansion_slack

-- The map by RECURRENCE-ID.
unfoldable pub override_at : ℕ → List Instance → Option Instance
override_at t [] = none
override_at t (i ∷ is) = elim (i.recurrence_id == t) [ true ↦ some i | false ↦ override_at t is ]

unfoldable pub drop_override : ℕ → List Instance → List Instance
drop_override t [] = []
drop_override t (i ∷ is) = elim (i.recurrence_id == t) [
  | true ↦ drop_override t is
  | false ↦ i ∷ drop_override t is
]

unfoldable pub put_override : List Instance → Instance → List Instance
unfolding drop_override
put_override is i = drop_override i.recurrence_id is ++ i ∷ []

unfoldable pub put_overrides : List Instance → List Instance → List Instance
unfolding put_override
put_overrides is [] = is
put_overrides is (j ∷ js) = put_overrides (put_override is j) js

-- One round of the second loop of `Expand`: the overrides that stay in the map, and what is appended.
unfoldable pub unused : Option Instance → ℕ → List Instance → List Instance
unfolding drop_override
unused none t overrides = overrides
unused (some o) t overrides = drop_override t overrides

unfoldable pub appended : ℕ → ℕ → Option Instance → Instance → List Instance → List Instance
unfolding overlaps
appended from to none i is = i ∷ is
appended from to (some o) i is = elim (overlaps o from to) [ true ↦ o ∷ is | false ↦ is ]

-- The second loop of `Expand`: the instances, and the overrides that no instance has used.
unfoldable pub replace_overridden :
    ℕ → ℕ → List Instance → List Instance → List Instance × List Instance
unfolding override_at unused appended
replace_overridden from to overrides [] = ([], overrides)
replace_overridden from to overrides (i ∷ is) =
    let o = override_at i.recurrence_id overrides in
    let rest = replace_overridden from to (unused o i.recurrence_id overrides) is in
    (appended from to o i rest.0, rest.1)

unfoldable pub overlapping : ℕ → ℕ → List Instance → List Instance
unfolding overlaps
overlapping from to [] = []
overlapping from to (i ∷ is) = elim (overlaps i from to) [
  | true ↦ i ∷ overlapping from to is
  | false ↦ overlapping from to is
]

abbrev pub by_start : Instance → Instance → Bool
by_start i j = leb i.start j.start

-- The end of `Expand`; instances that start together keep their order.
unfoldable pub merge_overrides : ℕ → ℕ → List Instance → List Instance → List Instance
unfolding replace_overridden overlapping
merge_overrides from to overrides expanded =
    let used = replace_overridden from to overrides expanded in
    sort_by by_start (used.0 ++ overlapping from to used.1)

abbrev pub earliest : Option ℕ → ℕ → ℕ
earliest none t = t
earliest (some s) t = if ltb t s then t else s

abbrev pub latest : Option ℕ → ℕ → Option ℕ
latest none t = none
latest (some e) t = if ltb e t then some t else some e

unfoldable pub widen : Bounds → Instance → Bounds
widen b i = record b { start = some (earliest b.start i.start); end = latest b.end i.end }

unfoldable pub widen_all : Bounds → List Instance → Bounds
unfolding widen
widen_all b [] = b
widen_all b (i ∷ is) = widen_all (widen b i) is

abbrev pub no_bounds : Bounds
no_bounds = record {
  start = none;
  end = none;
  recurring = false;
  uid = [];
  component_type = [];
  summary = [];
}

abbrev pub text_or_empty : Option Bytes → Bytes
text_or_empty none = []
text_or_empty (some s) = s

abbrev pub own_bounds : (Component → Bytes → Option Bytes) → Component → Instance → Bounds
own_bounds text c base = record {
  start = some base.start;
  end = some base.end;
  recurring = false;
  uid = text_or_empty (text c prop_uid);
  component_type = c.name;
  summary = text_or_empty (text c prop_summary);
}

module _ (to_utc : Bytes → ℕ → Option ℕ) where
  abbrev pub instant : ComponentProp → ℕ → Option ℕ
  instant p wall = if in_utc p.value then some wall else to_utc p.tzid wall

  unfoldable pub component_time : Component → Bytes → Option ℕ
  unfolding parse_wall_time in_utc
  component_time c name = elim (prop c name) [
    | none ↦ none
    | some p ↦ elim (parse_wall_time p.value) [ none ↦ none | some wall ↦ instant p wall ]
  ]

  unfoldable pub wall_time : Component → Bytes → Option ℕ
  unfolding parse_wall_time
  wall_time c name = elim (prop c name) [ none ↦ none | some p ↦ parse_wall_time p.value ]

  unfoldable pub absolute : Component → Instance → ℕ → Option Instance
  unfolding in_utc
  absolute c base wall = elim (prop c prop_start) [
    | none ↦ none
    | some p ↦ elim (instant p wall) [
      | none ↦ none
      | some start ↦ some (as_long_as base start wall)
    ]
  ]

  -- The loop of `expandMaster`, with the rounds that are left.
  unfoldable pub scan : Component → Instance → ℕ → ℕ → ℕ → List ℕ → Option (List Instance)
  unfolding absolute overlaps
  scan c base from to zero walls = some []
  scan c base from to (suc n) [] = some []
  scan c base from to (suc n) (wall ∷ walls) = elim (ltb (window_to base to) wall) [
    | true ↦ some []
    | false ↦ elim (ltb wall (window_from base from)) [
      | true ↦ scan c base from to n walls
      | false ↦ elim (absolute c base wall) [
        | none ↦ none
        | some i ↦ elim (scan c base from to n walls) [
          | none ↦ none
          | some is ↦ elim (overlaps i from to) [ true ↦ some (i ∷ is) | false ↦ some is ]
        ]
      ]
    ]
  ]

  module _ (later : ComponentProp → ℕ → Option ℕ) where
    abbrev end_prop : Component → Bytes
    end_prop c = if equal c.name comp_to_do then prop_due else prop_end

    unfoldable pub end_time : Component → ℕ → Option ℕ
    unfolding component_time is_date_only
    end_time c start = elim (prop c (end_prop c)) [
      | some p ↦ component_time c (end_prop c)
      | none ↦ elim (prop c prop_duration) [
        | some p ↦ later p start
        | none ↦ if is_date_only (prop c prop_start) then some (start + day) else some start
      ]
    ]

    abbrev pub spanning : ℕ → ℕ → Instance
    spanning start end = record {
      start = start;
      end = end;
      recurrence_id = zero_time;
      override = false;
    }

    unfoldable pub instance_of : Component → Option Instance
    unfolding component_time end_time
    instance_of c = elim (component_time c prop_start) [
      | some start ↦ elim (end_time c start) [ none ↦ none | some end ↦ some (spanning start end) ]
      | none ↦
          if equal c.name comp_to_do
          then component_time c prop_due >>= (λ due. some (spanning due due))
          else none
    ]

    unfoldable pub override_of : Component → Option Instance
    unfolding component_time instance_of
    override_of c = elim (component_time c prop_recurrence_id) [
      | none ↦ none
      | some id ↦ elim (instance_of c) [
        | none ↦ none
        | some i ↦ some (record i { recurrence_id = id; override = true })
      ]
    ]

    module _ (to_local : Bytes → ℕ → Option ℕ)
        (recurrence_rule : Component → Option (Option RuleOption))
        (rule_set : Option RuleOption → ℕ → List ℕ → List ℕ → Option (List ℕ)) where
      unfoldable pub to_wall : Component → ℕ → Option ℕ
      unfolding in_utc
      to_wall c t = elim (prop c prop_start) [
        | none ↦ some t
        | some p ↦ if in_utc p.value then some t else to_local p.tzid t
      ]

      -- The rule with UNTIL in the wall clock of the series.
      unfoldable pub local_rule : Component → RuleOption → Option RuleOption
      unfolding to_wall
      local_rule c r = elim r.until [
        | none ↦ some r
        | some t ↦ elim (to_wall c t) [
          | none ↦ none
          | some wall ↦ some (record r { until = some wall })
        ]
      ]

      abbrev is_bounded : RuleOption → Bool
      is_bounded r = elim r.until [ none ↦ ltb 0 r.count | some t ↦ true ]

      unfoldable pub set_of : Component → Option RuleOption → List ℕ → Option RecurrenceSet
      unfolding wall_time local_rule date_list
      set_of c rule rdates = elim (wall_time c prop_start) [
        | none ↦ none
        | some start ↦ elim rule [
          | none ↦
              rule_set none start rdates (date_list (c.props prop_exceptions))
              >>= (λ all. some (record { all = all; bounded = true }))
          | some r ↦ elim (local_rule c r) [
            | none ↦ none
            | some r ↦
                rule_set (some r) start rdates (date_list (c.props prop_exceptions))
                >>= (λ all. some (record { all = all; bounded = is_bounded r }))
          ]
        ]
      ]

      -- `recurrenceSet`; the inner `none` is a component that does not recur.
      unfoldable pub recurrence_set : Component → Option (Option RecurrenceSet)
      unfolding set_of date_list
      recurrence_set c = elim (recurrence_rule c) [
        | none ↦ none
        | some (some r) ↦
            set_of c (some r) (date_list (c.props prop_dates)) >>= (λ s. some (some s))
        | some none ↦ elim (date_list (c.props prop_dates)) [
          | [] ↦ some none
          | t ∷ ts ↦ set_of c none (t ∷ ts) >>= (λ s. some (some s))
        ]
      ]

      unfoldable pub expand_master : Component → ℕ → ℕ → Option (List Instance)
      unfolding instance_of recurrence_set scan overlapping
      expand_master c from to = elim (instance_of c) [
        | none ↦ none
        | some base ↦ elim (recurrence_set c) [
          | none ↦ none
          | some none ↦ some (overlapping from to (base ∷ []))
          | some (some s) ↦ scan c base from to max_occurrences s.all
        ]
      ]

      unfoldable pub expand : List Component → ℕ → ℕ → Option (List Instance)
      unfolding expand_master merge_overrides override_of put_overrides split_components
      expand children from to =
          let parts = split_components children in
          elim (map_option override_of parts.1) [
            | none ↦ none
            | some overrides ↦ elim parts.0 [
              | none ↦ some (merge_overrides from to (put_overrides [] overrides) [])
              | some master ↦ elim (expand_master master from to) [
                | none ↦ none
                | some expanded ↦
                    some (merge_overrides from to (put_overrides [] overrides) expanded)
              ]
            ]
          ]

      -- `Overlaps`.
      unfoldable pub overlaps_range : List Component → ℕ → ℕ → Option Bool
      unfolding expand
      overlaps_range children from to = elim (expand children from to) [
        | none ↦ none
        | some [] ↦ some false
        | some (i ∷ is) ↦ some true
      ]

      module _ (text : Component → Bytes → Option Bytes) where
        -- The bounds with a recurrence set, and then with the overrides.
        unfoldable pub summarise_set :
            Component → Instance → List Component → RecurrenceSet → Bounds → Option Bounds
        unfolding absolute instance_of widen_all
        summarise_set c base overrides s b = elim s.bounded [
          | false ↦ some (record b { recurring = true; end = none })
          | true ↦ elim (map_option (absolute c base) s.all) [
            | none ↦ none
            | some is ↦ elim (map_option instance_of overrides) [
              | none ↦ none
              | some os ↦ some (widen_all (widen_all (record b { recurring = true }) is) os)
            ]
          ]
        ]

        unfoldable pub summarise_master : Component → List Component → Option Bounds
        unfolding instance_of recurrence_set summarise_set widen_all
        summarise_master c overrides = elim (instance_of c) [
          | none ↦ none
          | some base ↦ elim (recurrence_set c) [
            | none ↦ none
            | some none ↦ elim (map_option instance_of overrides) [
              | none ↦ none
              | some os ↦ some (widen_all (own_bounds text c base) os)
            ]
            | some (some s) ↦ summarise_set c base overrides s (own_bounds text c base)
          ]
        ]

        -- `Summarise`; without a master the first override counts.
        unfoldable pub summarise : List Component → Option Bounds
        unfolding summarise_master split_components instance_of
        summarise children =
            let parts = split_components children in
            elim parts.0 [
              | some master ↦ summarise_master master parts.1
              | none ↦ elim parts.1 [
                | [] ↦ some no_bounds
                | c ∷ cs ↦ instance_of c >>= (λ base. some (own_bounds text c base))
              ]
            ]
