-- ===== src/Recurrence.antt =====
-- internal/recurrence/expand.go: the instances of a calendar object, and the columns that index it. An
-- error is `none`. Of a component the model has what the code reads; the zone database behind `Timezones`,
-- `RecurrenceRule`, `Duration` and `Text` of go-ical, and the sets of rrule-go are parameters.
pub mod Expander
pub mod Prefilter
pub mod Timezones
use edav.Base.{
  ℕ, ◌+◌, ◌-◌, Bool, true, false, not, ◌&&◌, ◌||◌, List, [], ◌∷◌, ◌++◌, Option, none, some, ◌==◌,
  ltb, if◌then◌else◌, ◌>>=◌, length,
}
use edav.Base.Bytes.{Bytes, codes, equal, split}
use edav.Base.Time.{trim_space, parse_day, parse_clock}

pub record ComponentProp : Type 0 where
  pub value : Bytes
  pub tzid : Bytes
  pub value_type : Bytes

-- `ical.Component`: its name, and `Props`, which lists the properties of a name.
pub record Component : Type 0 where
  pub name : Bytes
  pub props : Bytes → List ComponentProp

abbrev pub first_of : List ComponentProp → Option ComponentProp
first_of [] = none
first_of (p ∷ ps) = some p

-- `Props.Get`.
abbrev pub prop : Component → Bytes → Option ComponentProp
prop c name = first_of (c.props name)

pub record Instance : Type 0 where
  pub start : ℕ
  pub end : ℕ
  pub recurrence_id : ℕ
  pub override : Bool

pub record Bounds : Type 0 where
  pub start : Option ℕ
  pub end : Option ℕ
  pub recurring : Bool
  pub uid : Bytes
  pub component_type : Bytes
  pub summary : Bytes

-- `overlaps`: a component matches when it starts before the range ends and ends after the range starts.
unfoldable pub overlaps : Instance → ℕ → ℕ → Bool
overlaps i from to =
    if i.start == i.end
    then not (ltb i.start from) && ltb i.start to
    else ltb i.start to && ltb from i.end

abbrev pub date_type : Bytes
date_type = codes "DATE"

unfoldable pub is_date_only : Option ComponentProp → Bool
is_date_only none = false
is_date_only (some p) = equal p.value_type date_type || length p.value == 8

abbrev pub ends_here : ℕ → Bytes → Option ℕ
ends_here t [] = some t
ends_here t (c ∷ s) = none

abbrev pub after_letter : ℕ → Bytes → Option Bytes
after_letter q [] = none
after_letter q (c ∷ s) = if c == q then some s else none

-- The layout `20060102T150405`, with what follows it.
unfoldable pub parse_stamp : Bytes → Option (ℕ × Bytes)
unfolding parse_day parse_clock
parse_stamp s = do
  d ← parse_day s
  rest ← after_letter b'T' d.1
  t ← parse_clock rest
  some (d.0 + t.0, t.1)

-- `parseWallTime`: one of three layouts, told apart by their lengths.
unfoldable pub parse_trimmed : Bytes → Option ℕ
unfolding parse_day parse_stamp
parse_trimmed s =
    if length s == 8
    then parse_day s >>= (λ d. ends_here d.0 d.1)
    else (if length s == 15
        then parse_stamp s >>= (λ t. ends_here t.0 t.1)
        else (if length s == 16
            then parse_stamp s >>= (λ t. after_letter b'Z' t.1 >>= ends_here t.0)
            else none))

unfoldable pub parse_wall_time : Bytes → Option ℕ
unfolding parse_trimmed trim_space
parse_wall_time value = parse_trimmed (trim_space value)

-- `strings.HasSuffix(value, "Z")`.
unfoldable pub in_utc : Bytes → Bool
in_utc [] = false
in_utc (c ∷ []) = c == b'Z'
in_utc (c ∷ d ∷ s) = in_utc (d ∷ s)

-- The values of `dateList` that are times.
unfoldable pub times : List Bytes → List ℕ
unfolding parse_wall_time
times [] = []
times (value ∷ values) = elim (parse_wall_time value) [
  | none ↦ times values
  | some t ↦ t ∷ times values
]

unfoldable pub date_list : List ComponentProp → List ℕ
unfolding times split
date_list [] = []
date_list (p ∷ ps) = times (split p.value b',') ++ date_list ps

abbrev pub prop_uid : Bytes
prop_uid = codes "UID"

abbrev pub prop_summary : Bytes
prop_summary = codes "SUMMARY"

abbrev pub prop_start : Bytes
prop_start = codes "DTSTART"

abbrev pub prop_end : Bytes
prop_end = codes "DTEND"

abbrev pub prop_due : Bytes
prop_due = codes "DUE"

abbrev pub prop_duration : Bytes
prop_duration = codes "DURATION"

abbrev pub prop_recurrence_id : Bytes
prop_recurrence_id = codes "RECURRENCE-ID"

abbrev pub prop_dates : Bytes
prop_dates = codes "RDATE"

abbrev pub prop_exceptions : Bytes
prop_exceptions = codes "EXDATE"

abbrev pub comp_event : Bytes
comp_event = codes "VEVENT"

abbrev pub comp_to_do : Bytes
comp_to_do = codes "VTODO"

abbrev pub comp_journal : Bytes
comp_journal = codes "VJOURNAL"

abbrev pub comp_free_busy : Bytes
comp_free_busy = codes "VFREEBUSY"

unfoldable pub is_schedulable : Bytes → Bool
is_schedulable name =
    equal name comp_event
    || (equal name comp_to_do || (equal name comp_journal || equal name comp_free_busy))

abbrev pub is_override : Component → Bool
is_override c = elim (prop c prop_recurrence_id) [ none ↦ false | some p ↦ true ]

-- The loop of `split`, with the master and the overrides found so far.
unfoldable pub split_onto :
    Option Component → List Component → List Component → Option Component × List Component
unfolding is_schedulable
split_onto master overrides [] = (master, overrides)
split_onto master overrides (c ∷ cs) = elim (is_schedulable c.name) [
  | false ↦ split_onto master overrides cs
  | true ↦ elim (is_override c) [
    | true ↦ split_onto master (overrides ++ c ∷ []) cs
    | false ↦ elim master [
      | none ↦ split_onto (some c) overrides cs
      | some m ↦ split_onto (some m) overrides cs
    ]
  ]
]

-- `split` of the children of a calendar.
unfoldable pub split_components : List Component → Option Component × List Component
unfolding split_onto
split_components children = split_onto none [] children
