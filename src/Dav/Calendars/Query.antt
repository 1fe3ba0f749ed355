-- ===== src/Dav/Calendars/Query.antt =====
-- internal/dav/caldav.go: `QueryCalendarObjects`. Parsing the text of an object (`decode`) and the instances
-- of what is parsed (`Overlaps` of internal/recurrence) are parameters, and so are `caldav.Filter`, the
-- filters of properties and the addition of a hundred years. A time is its seconds as Base/Time counts
-- them, and a bound that is not given, the zero time in the source, is `none`. A text that cannot be parsed is the status 500 of any other error.
pub mod Parsed
pub mod Narrowed
use edav.Base.{ℕ, Bool, true, false, ◌||◌, List, [], ◌∷◌, if◌then◌else◌, Option, none, some, keep}
use edav.Base.Bytes.{Bytes}
use edav.Base.Time.{zero_time}
use edav.Storage.{Collection, Object, User, Database}
use edav.Storage
use edav.Storage.Objects.{list_objects, objects_in_time_range}
use edav.Dav.Paths.{calendar_object_path}
use edav.Dav.Backend.{Outcome, done, status, and_then, StoredObject, view}
use edav.Dav.Backend.Collections.{resolve_collection}
use edav.Dav.Calendars.{calendar_name}

-- `CompFilter`, with its list of itself.
mutual
  pub data CompFilter (PropFilter : Type 0) : Type 0 where
    comp_filter :
        Bytes
        → Bool
        → Option ℕ
        → Option ℕ
        → List PropFilter
        → CompFilters PropFilter
        → CompFilter PropFilter

  pub data CompFilters (PropFilter : Type 0) : Type 0 where
    no_comps : CompFilters PropFilter
    comps : CompFilter PropFilter → CompFilters PropFilter → CompFilters PropFilter

abbrev pub is_set : Option ℕ → Bool
is_set none = false
is_set (some t) = true

abbrev pub from_of : Option ℕ → ℕ
from_of none = zero_time
from_of (some t) = t

abbrev to_of : (ℕ → ℕ) → ℕ → Option ℕ → ℕ
to_of hundred_years_after from none = hundred_years_after from
to_of hundred_years_after from (some t) = t

module _ {PropFilter : Type 0} where
  -- `stripCompRange`.
  unfoldable mutual
    pub strip_comp_range : CompFilter PropFilter → CompFilter PropFilter
    strip_comp_range (comp_filter name undefined start end props below) =
        comp_filter name undefined none none props (strip_comps below)

    pub strip_comps : CompFilters PropFilter → CompFilters PropFilter
    strip_comps no_comps = no_comps
    strip_comps (comps f fs) = comps (strip_comp_range f) (strip_comps fs)

  module _ (hundred_years_after : ℕ → ℕ) where
    -- `compFilterRange`: the first range of the filter or of one beneath it.
    unfoldable mutual
      pub comp_filter_range : CompFilter PropFilter → Option (ℕ × ℕ)
      comp_filter_range (comp_filter name undefined start end props below) =
          elim (is_set start || is_set end) [
            | true ↦ some (from_of start, to_of hundred_years_after (from_of start) end)
            | false ↦ comp_filters_range below
          ]

      pub comp_filters_range : CompFilters PropFilter → Option (ℕ × ℕ)
      comp_filters_range no_comps = none
      comp_filters_range (comps f fs) = elim (comp_filter_range f) [
        | some range ↦ some range
        | none ↦ comp_filters_range fs
      ]

    -- `timeRangeOf`.
    unfoldable pub time_range_of : Option (CompFilter PropFilter) → Option (ℕ × ℕ)
    time_range_of none = none
    time_range_of (some f) = comp_filter_range f

  -- `stripTimeRange`, by the range that has been applied, if any.
  unfoldable pub strip_time_range :
      Option (CompFilter PropFilter) → Option (ℕ × ℕ) → Option (CompFilter PropFilter)
  strip_time_range none applied = none
  strip_time_range (some f) none = some f
  strip_time_range (some f) (some range) = some (strip_comp_range f)

module _ (occurs : Bytes → ℕ → ℕ → Option Bool) where
  -- A text that cannot be parsed is left out of the answer.
  unfoldable pub confirmed : ℕ → ℕ → Object → Bool
  confirmed from to o = elim (occurs o.raw from to) [ none ↦ false | some b ↦ b ]

  -- The objects that the query reads, narrowed by the range.
  unfoldable pub queried_objects : Database → ℕ → Option (ℕ × ℕ) → List Object
  queried_objects db cid none = list_objects db cid
  queried_objects db cid (some (from, to)) =
      keep (confirmed from to) (objects_in_time_range db cid from to)

abbrev is_given : {PropFilter : Type 0} → Option (CompFilter PropFilter) → Bool
is_given none = false
is_given (some f) = true

module _ {Calendar : Type 0} (decode : Bytes → Option Calendar)
    (instances_overlap : Calendar → ℕ → ℕ → Option Bool) where
  -- `occursInRange`.
  unfoldable pub occurs_in_range : Bytes → ℕ → ℕ → Option Bool
  occurs_in_range raw from to = elim (decode raw) [
    | none ↦ none
    | some cal ↦ instances_overlap cal from to
  ]

  -- `calendarObject`, parsed if there is a request.
  unfoldable pub calendar_object_of :
      Bytes → Bytes → Collection → Bool → Object → Outcome (StoredObject × Option Calendar)
  calendar_object_of prefix username c requested o =
      let stored = view calendar_object_path prefix username c o in
      if requested
      then elim (decode o.raw) [ none ↦ status 500 | some cal ↦ done (stored, some cal) ]
      else done (stored, none)

  unfoldable pub calendar_objects :
      Bytes
      → Bytes
      → Collection
      → Bool
      → List Object
      → Outcome (List (StoredObject × Option Calendar))
  calendar_objects prefix username c requested [] = done []
  calendar_objects prefix username c requested (o ∷ os) =
      and_then (calendar_object_of prefix username c requested o)
        (λ co. and_then (calendar_objects prefix username c requested os) (λ cos. done (co ∷ cos)))

  module _ {PropFilter : Type 0} (hundred_years_after : ℕ → ℕ)
      (matching : Option (CompFilter PropFilter)
        → List (StoredObject × Option Calendar)
        → Outcome (List (StoredObject × Option Calendar))) where
    unfoldable pub query_calendar_objects :
        Bytes
        → Database
        → Option User
        → Bytes
        → Option (CompFilter PropFilter)
        → Outcome (List (StoredObject × Option Calendar))
    query_calendar_objects prefix db u path query =
        and_then (resolve_collection calendar_name Storage.calendar prefix db u path) (λ (v, c).
          let range = time_range_of hundred_years_after query in
          and_then
            (calendar_objects prefix v.username c (is_given query)
              (queried_objects occurs_in_range db c.id range))
            (λ cos. matching (strip_time_range query range) cos))
