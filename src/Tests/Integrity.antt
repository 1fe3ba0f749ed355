-- ===== src/Tests/Integrity.antt =====
-- Calls of the storage layer from the empty database on, and a put into the calendar of an account.
use edav.Base.{none, some, ◌≡◌, refl, arith}
use edav.Base.Bytes.{
  Bytes, codes, equal, equal_fold, cut_prefix, split, split_onto, to_lower, lower,
}
use edav.Storage.{ok, Object, Database}
use edav.Storage.Collections.{collection_by_id, collection_by_uri, same_type}
use edav.Storage.Objects.{object_by_uri, put_object, write_object, record_change}
use edav.Storage.Integrity.{Integrity}
use edav.Storage.Integrity.Writes.{
  empty_database, user_created, collection_created, object_put, called, migrated, behind,
  Reached-Integrity,
}
use edav.Storage.Integrity.Stored.{put_object-stored}
use edav.Dav.Paths.{
  calendar_object_path, calendar_path, calendar_home_path, home_path, parse, resolve_segments,
  split_path, non_empty, principal_resource, address_resource, calendar_resource,
}
use edav.Dav.Backend.{
  Outcome, done, resolve, object_target, collection_of_type, check_preconditions, put_in, view,
  resolve_object, StoredObject, put_at, get_at,
}
use edav.Dav.Backend.ReadBack.{Tagged, put_at-get_at}
use edav.Dav.Calendars.{calendar_object_names}
use edav.Storage
use edav.Tests.Calendars.{ann, work, event, database, some_bounds, read_tag, itself}

abbrev settled : Database
settled = called itself (object_put 7 event) (
    called itself (collection_created 6 (work 0 1))
      (called itself (user_created 5 ann) empty_database))

Reached-Integrity_example : Integrity settled
Reached-Integrity_example = Reached-Integrity itself (
    behind (object_put 7 event)
      (behind (collection_created 6 (work 0 1)) (behind (user_created 5 ann) migrated)))

database-Integrity : Integrity database
unfolding equal equal_fold
database-Integrity = record {
  user_ids = (refl, (refl, tt));
  usernames = (refl, (refl, tt));
  collection_ids = (refl, (refl, tt));
  places = (refl, (refl, tt));
  owners = (refl, (refl, tt));
  object_ids = (refl, tt);
  uris = (refl, tt);
  collections = (refl, tt);
  numbers = tt;
  counts = tt;
  tokens = tt;
  accounts = tt;
}

abbrev newer_event : Object
newer_event = record event { raw = codes "new" }

tagged_event :
    (o : Object)
    → object_by_uri database 2 (codes "1.ics") ≡ some o
    → o.etag ≡ codes "new"
    → o.raw ≡ codes "new"
unfolding object_by_uri
tagged_event o h e = ground arith

put_object-stored_example :
    (o : Object) × ((put_object itself 9 database newer_event).1 ≡ ok o)
    × (object_by_uri (put_object itself 9 database newer_event).0 2 (codes "1.ics") ≡ some o)
    × (o.etag ≡ codes "new")
    × (o.raw ≡ codes "new")
unfolding collection_by_id
put_object-stored_example =
    put_object-stored itself 9 database newer_event (work 2 2) database-Integrity refl tagged_event

database-Tagged : Tagged itself database (codes "new")
unfolding object_by_uri
database-Tagged cid uri o h e = ground arith

abbrev own_path : Bytes
own_path = codes "/dav/calendars/ann/work/1.ics"

abbrev answered : Database × Outcome StoredObject
answered =
    put_at calendar_object_names Storage.calendar calendar_object_path read_tag some_bounds itself
      (codes "/dav") 9 database (some ann) own_path (codes "new") none

abbrev stored : StoredObject
stored = record {
  path = own_path;
  mod_time = 9;
  content_length = 3;
  etag = codes "new";
  raw = codes "new";
}

answered_test : answered.1 ≡ done stored
unfolding put_at resolve_object resolve parse cut_prefix resolve_segments split_path non_empty split
    split_onto equal_fold object_target collection_of_type collection_by_uri same_type put_in
    check_preconditions put_object object_by_uri write_object record_change view collection_by_id
    calendar_object_path calendar_path calendar_home_path home_path principal_resource
    address_resource calendar_resource to_lower lower equal
answered_test = refl

put_at-get_at_example :
    (get_at calendar_object_names Storage.calendar calendar_object_path
        (codes "/dav")
        answered.0
        (some ann)
        own_path
      ≡ done stored)
    × (stored.raw ≡ codes "new")
put_at-get_at_example =
    put_at-get_at calendar_object_names Storage.calendar calendar_object_path read_tag some_bounds
      itself (codes "/dav") 9 database (some ann) own_path (codes "new") none database-Integrity
      database-Tagged answered_test
