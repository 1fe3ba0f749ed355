-- ===== src/Dav/Calendars/Isolation.antt =====
-- internal/dav/caldav.go: what a write does to the objects of other accounts.
use edav.Base.{ℕ, false, Option, some, ◌≡◌}
use edav.Base.Bytes.{Bytes}
use edav.Storage.{User, Database}
use edav.Storage
use edav.Storage.Objects.{object_by_uri}
use edav.Storage.Users.{is_owned}
use edav.Storage.History.{ObjectIds}
use edav.Dav.Paths.{calendar_object_path}
use edav.Dav.Backend.{Bounds, PutOptions}
use edav.Dav.Backend.Isolation.{put_at-ne}
use edav.Dav.Calendars.{calendar_object_names, put_calendar_object}

module _ (parse_etag : Bytes → Option Bytes) (index : Bytes → Option Bounds)
    (etag_for : Bytes → Bytes) where
  -- A user who writes to any path, with any bytes and conditions, changes no object of a collection
  -- that is not the user's own, if the ids of the objects are distinct.
  pub put_calendar_object_isolated :
      (prefix : Bytes) (now : ℕ) (db : Database) (v : User) (path raw : Bytes)
      (opts : Option PutOptions) (cid' : ℕ) (uri' : Bytes)
      → ObjectIds db
      → is_owned db v.id cid' ≡ false
      → object_by_uri
          (put_calendar_object parse_etag index etag_for prefix now db (some v) path raw opts).0
          cid'
          uri'
        ≡ object_by_uri db cid' uri'
  unfolding put_calendar_object
  put_calendar_object_isolated prefix now db v path raw opts cid' uri' ids foreign =
      put_at-ne calendar_object_path parse_etag index etag_for calendar_object_names
        Storage.calendar prefix now db v path raw opts cid' uri' ids foreign
