-- ===== src/Tests/Queries.antt =====
-- Queries by time in the calendar of one account, which has one event, from 5 to 6.
use edav.Base.{
  ℕ, ◌+◌, Bool, true, false, if◌then◌else◌, List, [], ◌∷◌, Option, some, none, ◌≡◌, refl,
}
use edav.Base.Bytes.{Bytes, codes, equal}
use edav.Storage.{Object, User, Database}
use edav.Storage.Objects.{objects_in_time_range, could_overlap}
use edav.Dav.Calendars.Query.{
  calendar_objects, calendar_object_of, CompFilter, comp_filter, no_comps, comps, comp_filter_range,
  time_range_of, confirmed, queried_objects,
}
use edav.Dav.Backend.{Outcome, done, status, StoredObject}
use edav.Dav.Calendars.Query.Narrowed.{summary}
use edav.Recurrence.{Component, Instance, Bounds, comp_event}
use edav.Tests.Recurrence.{lunch, noon, utc, at_noon}
use edav.Tests.Calendars.{account, database, event, work}

-- A filter of the calendar with a range beneath it.
abbrev between : Option ℕ → Option ℕ → CompFilter Bytes
between from to =
    comp_filter (codes "VCALENDAR") false none none []
      (comps (comp_filter (codes "VEVENT") false from to [] no_comps) no_comps)

abbrev century : ℕ → ℕ
century t = t + 3155760000

abbrev at_five : Bytes → ℕ → ℕ → Option Bool
at_five raw from to = some (could_overlap from to (some 5) (some 6))

open_range_test : time_range_of century (some (between (some 4) none)) ≡ some (4, 3155760004)
unfolding time_range_of comp_filter_range
open_range_test = refl

found_test : queried_objects at_five database 2 (some (4, 9)) ≡ event ∷ []
unfolding queried_objects confirmed objects_in_time_range could_overlap
found_test = refl

past_test : queried_objects at_five database 2 (some (6, 9)) ≡ []
unfolding queried_objects confirmed objects_in_time_range could_overlap
past_test = refl

-- Only the text of the event can be parsed.
abbrev parsed : Bytes → Option Bytes
parsed raw = if equal raw (codes "e") then some raw else none

-- Without a range such an object fails the query.
unparsed_test :
    calendar_objects parsed at_five
      (codes "/dav")
      (codes "bob")
      (work 2 2)
      true
      (record event { raw = [] } ∷ [])
    ≡ status 500
unfolding calendar_objects calendar_object_of equal
unparsed_test = refl

-- The series of two lunches, as the text of the event.
abbrev Lunches : Type 0
Lunches = List Component

abbrev lunches : Bytes → Option Lunches
lunches raw = if equal raw (codes "e") then some (lunch ∷ []) else none

abbrev zoned : Lunches → Bytes → ℕ → Option ℕ
zoned cal = utc

abbrev components : Lunches → List Component
components cal = cal

abbrev two_lunches : List Instance
two_lunches = at_noon noon ∷ at_noon (noon + 86400) ∷ []

abbrev lunch_index : Bounds
lunch_index = record {
  start = some noon;
  end = some (noon + 90000);
  recurring = true;
  uid = [];
  component_type = comp_event;
  summary = [];
}

abbrev lunch_object : Object
lunch_object = record event { start_at = some noon; end_at = some (noon + 90000) }

abbrev lunch_calendar : Database
lunch_calendar = record database { objects = lunch_object ∷ [] }

abbrev lunch_filter : CompFilter Bytes
lunch_filter = between (some noon) (some (noon + 172800))

abbrev unfiltered :
    Option (CompFilter Bytes)
    → List (StoredObject × Option Lunches)
    → Outcome (List (StoredObject × Option Lunches))
unfiltered query cos = done cos

abbrev bob : User
bob = account 2 (codes "bob")
