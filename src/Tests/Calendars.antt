-- ===== src/Tests/Calendars.antt =====
-- Two accounts with a calendar each.
use edav.Base.{ℕ, false, [], ◌∷◌, Option, none, some, ◌≡◌, refl}
use edav.Base.Bytes.{Bytes, codes, equal}
use edav.Storage.{Collection, Object, User, Database}
use edav.Storage
use edav.Storage.Collections.{collection_by_id}
use edav.Storage.Objects.{object_by_uri, put_object, write_object, record_change}
use edav.Dav.Paths.{calendar_object_path}
use edav.Dav.Backend.{Bounds, Outcome, StoredObject, put_in, check_preconditions}
use edav.Dav.Calendars.{put_calendar_object, delete_calendar_object}
use edav.Dav.Calendars.Isolation.{put_calendar_object_isolated}
use edav.Dav.Calendars.Removal.{delete_calendar_object_isolated}

abbrev pub account : ℕ → Bytes → User
account id name = record {
  id = id;
  username = name;
  display_name = [];
  email = [];
  password_hash = [];
  is_admin = false;
  created_at = 0;
  updated_at = 0;
}

abbrev pub work : ℕ → ℕ → Collection
work id owner = record {
  id = id;
  owner_id = owner;
  type = Storage.calendar;
  uri = codes "work";
  display_name = [];
  description = [];
  color = [];
  timezone = [];
  ctag = codes "0";
  sync_seq = 0;
  created_at = 0;
  updated_at = 0;
}

abbrev pub ann : User
ann = account 1 (codes "ann")

abbrev pub event : Object
event = record {
  id = 1;
  collection_id = 2;
  uri = codes "1.ics";
  etag = codes "e";
  raw = codes "e";
  uid = codes "u";
  component_type = codes "VEVENT";
  display_name = [];
  start_at = some 5;
  end_at = some 6;
  recurring = false;
  created_at = 0;
  updated_at = 0;
}

abbrev pub database : Database
database = record {
  users = ann ∷ account 2 (codes "bob") ∷ [];
  collections = work 1 1 ∷ work 2 2 ∷ [];
  objects = event ∷ [];
  changes = [];
  sessions = [];
}

abbrev pub some_bounds : Bytes → Option Bounds
some_bounds raw = some (record {
  uid = raw;
  component_type = codes "VEVENT";
  summary = [];
  start = none;
  end = none;
  recurring = false;
})

abbrev pub read_tag : Bytes → Option Bytes
read_tag tag = some tag

abbrev pub itself : Bytes → Bytes
itself raw = raw

abbrev object_raw : Option Object → Bytes
object_raw none = []
object_raw (some o) = o.raw

abbrev own_path : Bytes
own_path = codes "/dav/calendars/ann/work/1.ics"

put_calendar_object_isolated_example :
    object_by_uri
      (put_calendar_object read_tag some_bounds itself
        (codes "/dav")
        9
        database
        (some ann)
        own_path
        (codes "new")
        none).0
      2
      (codes "1.ics")
    ≡ object_by_uri database 2 (codes "1.ics")
put_calendar_object_isolated_example =
    put_calendar_object_isolated read_tag some_bounds itself (codes "/dav") 9 database ann own_path
      (codes "new") none 2 (codes "1.ics") (refl, tt) refl

delete_calendar_object_isolated_example :
    object_by_uri
      (delete_calendar_object
        (codes "/dav")
        9
        database
        (some ann)
        (codes "/dav/calendars/ann/work")).0
      2
      (codes "1.ics")
    ≡ object_by_uri database 2 (codes "1.ics")
delete_calendar_object_isolated_example =
    delete_calendar_object_isolated (codes "/dav") 9 database ann (codes "/dav/calendars/ann/work")
      2 (codes "1.ics") (refl, tt) refl

-- The write of a request to create the event, behind a lookup that was made before another request
-- created it: the event that is there is overwritten.
abbrev late_create : Database × Outcome StoredObject
late_create =
    put_in calendar_object_path read_tag some_bounds itself (codes "/dav") 9 database ann (work 2 2)
      (codes "1.ics") none (codes "new")
      (some (record { if_none_match = codes "*"; if_match = [] }))

race_test : object_raw (object_by_uri late_create.0 2 (codes "1.ics")) ≡ codes "new"
unfolding object_by_uri put_in check_preconditions put_object equal write_object record_change
    collection_by_id
race_test = refl
