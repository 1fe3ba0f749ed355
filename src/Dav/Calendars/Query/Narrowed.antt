-- ===== src/Dav/Calendars/Query/Narrowed.antt =====
-- internal/dav/caldav.go: a query by time reads no less through the index than it would without it.
use edav.Base.{ℕ, ◌≤◌, ◌<◌, Bool, true, List, Option, none, some, ◌≡◌, ◌⊎◌, keep, All}
use edav.Base.Bytes.{Bytes}
use edav.Storage.{Collection, Object, User, Database}
use edav.Storage
use edav.Storage.Objects.{list_objects}
use edav.Recurrence.{ComponentProp, Component, Instance, Bounds, split_components}
use edav.Recurrence.Expander.{RuleOption, expand, overlaps_range, summarise}
use edav.Dav.Backend.{Outcome, and_then, StoredObject}
use edav.Dav.Backend.Collections.{resolve_collection}
use edav.Dav.Calendars.{calendar_name}
use edav.Dav.Calendars.Query.{
  CompFilter, strip_comp_range, confirmed, occurs_in_range, calendar_objects,
}

-- A calendar that is parsed: its components, and the time zones that it carries.
module _ {Calendar : Type 0} (decode : Bytes → Option Calendar)
    (children : Calendar → List Component) (to_utc : Calendar → Bytes → ℕ → Option ℕ)
    (later : ComponentProp → ℕ → Option ℕ) (to_local : Calendar → Bytes → ℕ → Option ℕ)
    (recurrence_rule : Component → Option (Option RuleOption))
    (rule_set : Option RuleOption → ℕ → List ℕ → List ℕ → Option (List ℕ))
    (text : Component → Bytes → Option Bytes) where
  -- `Expand`, `Summarise` and `Overlaps` of the expander of a calendar.
  abbrev pub expansion : Calendar → ℕ → ℕ → Option (List Instance)
  expansion cal = expand (to_utc cal) later (to_local cal) recurrence_rule rule_set (children cal)

  abbrev pub summary : Calendar → Option Bounds
  summary cal =
      summarise (to_utc cal) later (to_local cal) recurrence_rule rule_set text (children cal)

  abbrev pub calendar_overlaps : Calendar → ℕ → ℕ → Option Bool
  calendar_overlaps cal =
      overlaps_range (to_utc cal) later (to_local cal) recurrence_rule rule_set (children cal)

  -- The columns of an object are those that `CalendarIndex` gives for its text. It has a master, and its
  -- instances take time and end some day.
  pub record Summarised (from to : ℕ) (o : Object) (cal : Calendar) : Type 0 where
    pub master : Component
    pub has_master : (split_components (children cal)).0 ≡ some master
    pub bounds : Bounds
    pub summarised : summary cal ≡ some bounds
    pub same_start : o.start_at ≡ bounds.start
    pub same_end : o.end_at ≡ bounds.end
    pub last : ℕ
    pub has_end : bounds.end ≡ some last
    pub takes_time :
        (is : List Instance) → expansion cal from to ≡ some is → All (λ i. i.start < i.end) is

  -- The same of an object that repeats for ever: it has no end, and no instance starts before the bounds.
  pub record Endless (from to : ℕ) (o : Object) (cal : Calendar) : Type 0 where
    pub bounds : Bounds
    pub summarised : summary cal ≡ some bounds
    pub same_start : o.start_at ≡ bounds.start
    pub same_end : o.end_at ≡ bounds.end
    pub first : ℕ
    pub has_start : bounds.start ≡ some first
    pub no_end : bounds.end ≡ none
    pub starts_behind :
        (is : List Instance) → expansion cal from to ≡ some is → All (λ i. first ≤ i.start) is

  abbrev pub Indexed : ℕ → ℕ → Object → Type 0
  Indexed from to o =
      (cal : Calendar) → decode o.raw ≡ some cal → Summarised from to o cal ⊎ Endless from to o cal

  occurs : Bytes → ℕ → ℕ → Option Bool
  occurs = occurs_in_range decode calendar_overlaps

  module _ {PropFilter : Type 0} (hundred_years_after : ℕ → ℕ)
      (matching : Option (CompFilter PropFilter)
        → List (StoredObject × Option Calendar)
        → Outcome (List (StoredObject × Option Calendar))) where
    -- The query as it would be without the index: every object of the calendar is parsed.
    abbrev pub query_every_object :
        Bytes
        → Database
        → Option User
        → Bytes
        → CompFilter PropFilter
        → ℕ
        → ℕ
        → Outcome (List (StoredObject × Option Calendar))
    query_every_object prefix db u path f from to =
        and_then (resolve_collection calendar_name Storage.calendar prefix db u path) (λ (v, c).
          and_then
            (calendar_objects decode calendar_overlaps prefix v.username c true (
              keep (confirmed (occurs_in_range decode calendar_overlaps) from to)
                (list_objects db c.id)))
            (λ cos. matching (some (strip_comp_range f)) cos))
