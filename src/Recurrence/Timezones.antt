-- ===== src/Recurrence/Timezones.antt =====
-- internal/recurrence/timezone.go: time zones by name, and those that a calendar object carries. The zone
-- database of package time (`load_location`, and `in_location` for the instant of a wall time), the rules
-- of rrule-go (`new_rule`, `between`) and `Text` and `RecurrenceRule` of go-ical are parameters. A time is
-- its seconds since the beginning of the year 0, before which the subtraction of an offset stops.
pub mod Offsets
pub mod Resolver
pub mod Latest
pub mod Bracketed
pub mod Inverse
use edav.Base.{
  ℕ, ◌+◌, ◌-◌, ◌%◌, ◌/◌, Bool, true, false, not, ◌||◌, List, [], ◌∷◌, ◌++◌, Option, none, some,
  ◌==◌, ltb, leb, if◌then◌else◌, ◌>>=◌, length, map, take, drop,
}
use edav.Base.Bytes.{Bytes, codes, equal, split, cut_prefix}
use edav.Base.Decimal.{parse_int}
use edav.Base.Int.{ℤ, pos, negsuc, pos_part, neg_part, ◌+ℤ◌, ◌*ℤ◌}
use edav.Base.Table.{insert}
use edav.Base.Time.{day, trim_space, civil, date}
use edav.Recurrence.{
  ComponentProp, Component, prop, parse_wall_time, date_list, prop_start, prop_dates,
}
use edav.Recurrence.Expander.{RuleOption}

-- `t.Add(-offset)`.
abbrev pub less_offset : ℕ → ℤ → ℕ
less_offset t offset = t + neg_part offset - pos_part offset

-- `t.AddDate(years, 0, 0)`, forth or back: a day that the month does not have runs into the next one.
unfoldable pub with_year : ℕ → ℕ → ℕ
unfolding civil date
with_year t y = let c = civil (t / day) in date y c.1 c.2 + t % day

unfoldable pub years_later : ℕ → ℕ → ℕ
unfolding civil with_year
years_later t n = with_year t ((civil (t / day)).0 + n)

unfoldable pub years_earlier : ℕ → ℕ → ℕ
unfolding civil with_year
years_earlier t n = with_year t ((civil (t / day)).0 - n)

-- `ruleAnchor`.
unfoldable pub rule_anchor : ℕ → ℕ
unfolding civil with_year
rule_anchor t = if leb 1970 (civil (t / day)).0 then t else with_year t 1970

-- The sign of an offset, and what follows it.
abbrev pub sign_of : Bytes → Option ℤ
sign_of [] = none
sign_of (c ∷ s) = if c == b'-' then some (negsuc 0) else if c == b'+' then some (pos 1) else none

abbrev pub field : ℕ → Bytes → Option ℤ
field i value = parse_int (take 2 (drop i value))

abbrev pub seconds_of : Bytes → Option ℤ
seconds_of value = if leb 7 (length value) then field 5 value else some (pos 0)

-- `parseUTCOffset`.
unfoldable pub parse_utc_offset : Option ComponentProp → Option ℤ
unfolding trim_space
parse_utc_offset none = none
parse_utc_offset (some p) =
    let value = trim_space p.value in
    if ltb (length value) 5 then none else do
      sign ← sign_of value
      hours ← field 1 value
      minutes ← field 3 value
      seconds ← seconds_of value
      some (sign *ℤ (hours *ℤ pos 3600 +ℤ minutes *ℤ pos 60 +ℤ seconds))

-- `strings.Join(parts, "/")` of the last two parts of a name, if there are two.
unfoldable pub last_two : List Bytes → Option Bytes
last_two [] = none
last_two (a ∷ []) = none
last_two (a ∷ b ∷ []) = some (a ++ b'/' ∷ b)
last_two (a ∷ b ∷ c ∷ parts) = last_two (b ∷ c ∷ parts)

abbrev pub without_slash : Bytes → Bytes
without_slash s = elim (cut_prefix s (b'/' ∷ [])) [ none ↦ s | some rest ↦ rest ]

-- `trimTZIDPrefix`.
unfoldable pub trim_tzid_prefix : Bytes → Bytes
unfolding split last_two
trim_tzid_prefix tzid = elim (last_two (split (without_slash tzid) b'/')) [
  | none ↦ tzid
  | some name ↦ name
]

-- A block of a VTIMEZONE; the rule is one of rrule-go.
pub record Observance (Rule : Type 0) : Type 0 where
  pub start : ℕ
  pub offset_from : ℤ
  pub offset_to : ℤ
  pub rule : Option Rule
  pub rdates : List ℕ

abbrev pub prop_timezone_id : Bytes
prop_timezone_id = codes "TZID"

abbrev pub comp_timezone : Bytes
comp_timezone = codes "VTIMEZONE"

module _ {Rule : Type 0} (text : Component → Bytes → Option Bytes)
    (recurrence_rule : Component → Option (Option RuleOption))
    (new_rule : RuleOption → ℕ → Option Rule) where
  -- The rule of a block, if there is one that can be read; `opt.Dtstart` is the anchor.
  abbrev rule_of : Component → ℕ → Option Rule
  rule_of c start = elim (recurrence_rule c) [
    | none ↦ none
    | some opt ↦ elim opt [ none ↦ none | some o ↦ new_rule o (rule_anchor start) ]
  ]

  unfoldable pub parse_observance : Component → Option (Observance Rule)
  unfolding rule_anchor
  parse_observance c = do
    p ← prop c prop_start
    start ← parse_wall_time p.value
    offset_from ← parse_utc_offset (prop c (codes "TZOFFSETFROM"))
    offset_to ← parse_utc_offset (prop c (codes "TZOFFSETTO"))
    some (record {
      start = start;
      offset_from = offset_from;
      offset_to = offset_to;
      rule = rule_of c start;
      rdates = date_list (c.props prop_dates);
    })

  -- The blocks of a VTIMEZONE that can be read.
  unfoldable pub observances : List Component → List (Observance Rule)
  unfolding parse_observance
  observances [] = []
  observances (c ∷ cs) = elim (equal c.name (codes "STANDARD") || equal c.name (codes "DAYLIGHT")) [
    | false ↦ observances cs
    | true ↦ elim (parse_observance c) [ none ↦ observances cs | some o ↦ o ∷ observances cs ]
  ]

  abbrev add_zone :
      List (Bytes × List (Observance Rule))
      → Bytes
      → List (Observance Rule)
      → List (Bytes × List (Observance Rule))
  add_zone zones tzid [] = zones
  add_zone zones tzid (o ∷ os) = insert tzid (o ∷ os) zones

  abbrev with_zone :
      List (Bytes × List (Observance Rule))
      → Component
      → List Component
      → List (Bytes × List (Observance Rule))
  with_zone zones c blocks = elim (text c prop_timezone_id) [
    | none ↦ zones
    | some tzid ↦ elim tzid [ [] ↦ zones | x ∷ s ↦ add_zone zones (x ∷ s) (observances blocks) ]
  ]

  -- `NewTimezones` of the children of a calendar, each with its own children.
  unfoldable pub new_timezones :
      List (Bytes × List (Observance Rule))
      → List (Component × List Component)
      → List (Bytes × List (Observance Rule))
  unfolding observances
  new_timezones zones [] = zones
  new_timezones zones ((c, blocks) ∷ cs) =
      new_timezones (if equal c.name comp_timezone then with_zone zones c blocks else zones) cs
