-- ===== src/Dav/Calendars/Removal.antt =====
-- internal/dav/caldav.go: what a deletion does to the objects of other accounts.
use edav.Base.{ℕ, false, some, ◌≡◌, refl}
use edav.Base.Bytes.{Bytes}
use edav.Storage.{CollectionType, Collection, Object, User, Database}
use edav.Storage
use edav.Storage.Collections.{delete_collection}
use edav.Storage.Objects.{object_by_uri, delete_object}
use edav.Storage.Users.{is_owned}
use edav.Storage.History.{ObjectIds, delete_object-Change}
use edav.Dav.Paths.{Resource, calendar, calendar_object}
use edav.Dav.Backend.{
  Outcome, done, status, failure, resolve, collection_of_type, as_outcome, not_found_if_missing,
}
use edav.Dav.Backend.Isolation.{
  collection_of_type-ne, delete_collection-ne, Change-ne, resolve-user,
}
use edav.Dav.Calendars.{delete_resource, delete_calendar_object}

-- What a deletion does to the objects of other collections.
delete_resource-ne :
    (now : ℕ) (db : Database) (v : User) (r : Resource) (cid' : ℕ) (uri' : Bytes)
    → ObjectIds db
    → is_owned db v.id cid' ≡ false
    → object_by_uri (delete_resource now db v r).0 cid' uri' ≡ object_by_uri db cid' uri'
unfolding delete_resource
delete_resource-ne now db v (calendar name uri) cid' uri' ids foreign =
    go (collection_of_type db v.id uri Storage.calendar) refl
  where
    go :
        (x : Outcome Collection)
        → collection_of_type db v.id uri Storage.calendar ≡ x
        → object_by_uri
            (elim x as (λ _. Database × Outcome (Unit {0})) [
              | done c ↦ ((delete_collection db c.id).0, as_outcome (delete_collection db c.id).1)
              | status n ↦ (db, status n)
              | failure e ↦ (db, failure e)
            ]).0
            cid'
            uri'
          ≡ object_by_uri db cid' uri'
    go (done c) e =
        delete_collection-ne db v.id cid' foreign c.id uri'
          (collection_of_type-ne db v.id cid' foreign uri Storage.calendar {c = c} e)
    go (status n) e = refl
    go (failure n) e = refl
delete_resource-ne now db v (calendar_object name uri object) cid' uri' ids foreign =
    go (collection_of_type db v.id uri Storage.calendar) refl
  where
    go :
        (x : Outcome Collection)
        → collection_of_type db v.id uri Storage.calendar ≡ x
        → object_by_uri
            (elim x as (λ _. Database × Outcome (Unit {0})) [
              | done c ↦ (
                (delete_object now db c.id object).0,
                not_found_if_missing (delete_object now db c.id object).1,
              )
              | status n ↦ (db, status n)
              | failure e ↦ (db, failure e)
            ]).0
            cid'
            uri'
          ≡ object_by_uri db cid' uri'
    go (done c) e =
        Change-ne db _ c.id cid' object uri' (delete_object-Change now db c.id object ids)
          (collection_of_type-ne db v.id cid' foreign uri Storage.calendar {c = c} e)
    go (status n) e = refl
    go (failure n) e = refl
delete_resource-ne now db v _ cid' uri' ids foreign = refl

-- A user who deletes any path changes no object of a collection that is not the user's own, if the ids
-- of the objects are distinct.
pub delete_calendar_object_isolated :
    (prefix : Bytes) (now : ℕ) (db : Database) (v : User) (path : Bytes) (cid' : ℕ) (uri' : Bytes)
    → ObjectIds db
    → is_owned db v.id cid' ≡ false
    → object_by_uri (delete_calendar_object prefix now db (some v) path).0 cid' uri'
      ≡ object_by_uri db cid' uri'
unfolding delete_calendar_object
delete_calendar_object_isolated prefix now db v path cid' uri' ids foreign =
    go (resolve prefix (some v) path) refl
  where
    go :
        (x : Outcome (User × Resource))
        → resolve prefix (some v) path ≡ x
        → object_by_uri
            (elim x as (λ _. Database × Outcome (Unit {0})) [
              | done t ↦ delete_resource now db t.0 t.1
              | status n ↦ (db, status n)
              | failure e ↦ (db, failure e)
            ]).0
            cid'
            uri'
          ≡ object_by_uri db cid' uri'
    go (done (t, r)) e =
        let same = resolve-user prefix path v t {r = r} e in
        delete_resource-ne now db t r cid' uri' ids (rw same foreign)
    go (status n) e = refl
    go (failure n) e = refl
