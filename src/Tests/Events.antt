-- ===== src/Tests/Events.antt =====
-- The form of an event with a line that it does not show.
use edav.Base.{
  ℕ, Bool, true, false, [], ◌∷◌, Option, none, some, if◌then◌else◌, ◌≡◌, refl, sym, ap, ◌∙◌, arith,
}
use edav.Base.Bytes.{Bytes, codes, equal, equal_fold}
use edav.Storage.{Collection, Object, Database}
use edav.Storage
use edav.Storage.Objects.{object_by_uri}
use edav.Storage.Integrity.{Integrity}
use edav.Dav.Backend.ReadBack.{Tagged}
use edav.Ical.{CalendarFile, parse, bytes}
use edav.Ical.Untouched.{others}
use edav.Admin.Accounts.{redirected}
use edav.Admin.Objects.{collection_of}
use edav.Admin.Events.{update_event}
use edav.Admin.Events.Kept.{update_event_untouched}
use edav.Tests.Calendars.{ann, work, event, some_bounds, itself}
use edav.Tests.Ical.{meeting}

abbrev stored_meeting : Object
stored_meeting = record event { collection_id = 1; etag = meeting; raw = meeting }

abbrev calendar : Database
calendar = record {
  users = ann ∷ [];
  collections = work 1 1 ∷ [];
  objects = stored_meeting ∷ [];
  changes = [];
  sessions = [];
}

calendar-Integrity : Integrity calendar
calendar-Integrity = record {
  user_ids = (refl, tt);
  usernames = (refl, tt);
  collection_ids = (refl, tt);
  places = (refl, tt);
  owners = (refl, tt);
  object_ids = (refl, tt);
  uris = (refl, tt);
  collections = (refl, tt);
  numbers = tt;
  counts = tt;
  tokens = tt;
  accounts = tt;
}

calendar-Tagged : (raw : Bytes) → Tagged itself calendar raw
unfolding object_by_uri
calendar-Tagged raw cid uri o h e =
    let same : stored_meeting ≡ o = ground arith in
    ap (λ (x : Object). x.raw) (sym same) ∙ (ap (λ (x : Object). x.etag) same ∙ e)

abbrev form : Bytes → Bytes
form name =
    if equal name (codes "summary")
    then codes "b"
    else if equal name (codes "start_date")
    then codes "2024-01-01"
    else if equal name (codes "end_date")
    then codes "2024-01-01"
    else if equal name (codes "all_day")
    then codes "1"
    else []

abbrev no_zone : Bytes → Bool
no_zone name = false

reply_test :
    (update_event no_zone some_bounds itself 63871329601 calendar
      (codes "1")
      (codes "1.ics")
      form).1
    ≡ redirected
unfolding edav.ContentLine.Fold.fold edav.ContentLine.Document.new_line
    edav.ContentLine.Document.parse_loop edav.ContentLine.Document.parse
    edav.ContentLine.Document.rebuild edav.ContentLine.Document.render_line
    edav.ContentLine.Document.render edav.ContentLine.Document.bytes
    edav.ContentLine.Escape.escape_component edav.ContentLine.Escape.unescape
    edav.ContentLine.Edit.components_loop edav.ContentLine.Edit.components
    edav.ContentLine.Edit.component edav.ContentLine.Edit.count_name edav.ContentLine.Edit.contains
    edav.ContentLine.Edit.find_from edav.ContentLine.Edit.find edav.ContentLine.Edit.value
    edav.ContentLine.Edit.insert edav.ContentLine.Edit.set_value edav.ContentLine.Edit.set_text
    edav.ContentLine.Edit.set_with_params edav.ContentLine.Lines.next_logical_line edav.Ical.parse
    edav.Ical.bytes edav.Ical.Edit.new_event edav.Ical.Duration.format_duration
    edav.Base.Bytes.equal edav.Base.Bytes.to_upper edav.Base.Bytes.equal_fold edav.Base.Bytes.cut
    edav.Base.Time.format_utc edav.Base.Decimal.parse_int edav.Admin.Objects.collection_of
    edav.Admin.Objects.store edav.Admin.Objects.update_in edav.Admin.Events.update_event
    edav.Storage.Objects.object_by_uri edav.Storage.Objects.record_change
    edav.Storage.Objects.write_object edav.Storage.Objects.put_object
    edav.Storage.Collections.same_type edav.Storage.Collections.collection_by_id
reply_test = refl

update_event_untouched_example :
    (c : Collection) × (old : Object) × (new : Object) × (before : CalendarFile)
    × (after : CalendarFile) × (collection_of Storage.calendar calendar (codes "1") ≡ some c)
    × (object_by_uri calendar c.id (codes "1.ics") ≡ some old)
    × (object_by_uri
          (update_event no_zone some_bounds itself 63871329601 calendar
            (codes "1")
            (codes "1.ics")
            form).0
          c.id
          (codes "1.ics")
        ≡ some new)
    × (parse old.raw ≡ some before)
    × (bytes after ≡ some new.raw)
    × (others after ≡ others before)
update_event_untouched_example =
    update_event_untouched no_zone some_bounds itself 63871329601 calendar (codes "1")
      (codes "1.ics") form calendar-Integrity calendar-Tagged reply_test
