-- ===== src/Dav/Calendars.antt =====
-- internal/dav/caldav.go: the CalDAV backend, as the shared operations of the two backends on calendars.
-- Parsing iCalendar (`CalendarIndex`) and entity tags (`ConditionalMatch.ETag`) and the hash of the bytes
-- are parameters; a request for some components only, which parses the stored bytes, is modelled in Query
-- alone.
pub mod Query
pub mod Isolation
pub mod Removal
use edav.Base.{ℕ, List, Option, none, some}
use edav.Base.Bytes.{Bytes}
use edav.Storage.{Collection, User, Database}
use edav.Storage
use edav.Storage.Collections.{delete_collection}
use edav.Storage.Objects.{delete_object}
use edav.Dav.Paths.{
  Resource, calendar, calendar_object, calendar_path, calendar_home_path, calendar_object_path,
}
use edav.Dav.Sync.{encode_sync_token}
use edav.Dav.Backend.{
  Outcome, done, status, failure, and_then, as_outcome, resolve, collection_of_type, PutOptions,
  Bounds, StoredObject, put_at, get_at, not_found_if_missing,
}
use edav.Dav.Backend.Collections.{
  user_from, CollectionView, NewCollection, SyncResponse, create_at, list_at, get_collection_at,
  list_objects_at, sync_at,
}

-- What a path of the right kind names.
abbrev pub calendar_name : Resource → Option Bytes
calendar_name (calendar username uri) = some uri
calendar_name _ = none

abbrev pub calendar_object_names : Resource → Option (Bytes × Bytes)
calendar_object_names (calendar_object username uri object) = some (uri, object)
calendar_object_names _ = none

-- `calendar`.
unfoldable pub calendar_view : Bytes → Bytes → Collection → CollectionView
calendar_view prefix username c = record {
  path = calendar_path prefix username c.uri;
  name = c.display_name;
  description = c.description;
  timezone = c.timezone;
  sync_token = encode_sync_token c.sync_seq;
}

unfoldable pub calendar_home_set_path : Bytes → Option User → Outcome Bytes
calendar_home_set_path prefix u =
    and_then (user_from u) (λ v. done (calendar_home_path prefix v.username))

unfoldable pub list_calendars : Bytes → Database → Option User → Outcome (List CollectionView)
unfolding calendar_view
list_calendars = list_at Storage.calendar calendar_view

unfoldable pub get_calendar : Bytes → Database → Option User → Bytes → Outcome CollectionView
unfolding calendar_view
get_calendar = get_collection_at calendar_name Storage.calendar calendar_view

unfoldable pub create_calendar :
    Bytes → ℕ → Database → Option User → NewCollection → Database × Outcome (Unit {0})
create_calendar = create_at calendar_name Storage.calendar

unfoldable pub get_calendar_object : Bytes → Database → Option User → Bytes → Outcome StoredObject
get_calendar_object = get_at calendar_object_names Storage.calendar calendar_object_path

unfoldable pub list_calendar_objects :
    Bytes → Database → Option User → Bytes → Outcome (List StoredObject)
list_calendar_objects = list_objects_at calendar_name Storage.calendar calendar_object_path

unfoldable pub sync_calendar :
    Bytes → Database → Option User → Bytes → Option (Bytes × ℕ) → Outcome SyncResponse
sync_calendar = sync_at calendar_name Storage.calendar calendar_object_path

unfoldable pub put_calendar_object :
    (Bytes → Option Bytes)
    → (Bytes → Option Bounds)
    → (Bytes → Bytes)
    → Bytes
    → ℕ
    → Database
    → Option User
    → Bytes
    → Bytes
    → Option PutOptions
    → Database × Outcome StoredObject
put_calendar_object = put_at calendar_object_names Storage.calendar calendar_object_path

-- `DeleteCalendarObject` on a path that is resolved: a calendar, or one of its objects.
unfoldable pub delete_resource : ℕ → Database → User → Resource → Database × Outcome (Unit {0})
delete_resource now db u (calendar username uri) =
    elim (collection_of_type db u.id uri Storage.calendar) [
      | done c ↦ let (db', result) = delete_collection db c.id in (db', as_outcome result)
      | status n ↦ (db, status n)
      | failure e ↦ (db, failure e)
    ]
delete_resource now db u (calendar_object username uri object) =
    elim (collection_of_type db u.id uri Storage.calendar) [
      | done c ↦
          let (db', result) = delete_object now db c.id object in (db', not_found_if_missing result)
      | status n ↦ (db, status n)
      | failure e ↦ (db, failure e)
    ]
delete_resource now db u _ = (db, status 403)

unfoldable pub delete_calendar_object :
    Bytes → ℕ → Database → Option User → Bytes → Database × Outcome (Unit {0})
delete_calendar_object prefix now db u path = elim (resolve prefix u path) [
  | done target ↦ delete_resource now db target.0 target.1
  | status n ↦ (db, status n)
  | failure e ↦ (db, failure e)
]
