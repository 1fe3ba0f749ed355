-- ===== src/Admin/Events.antt =====
-- internal/admin/events.go: the forms of events. `value` is `PostFormValue`; the clock, the zone database
-- and random UIDs are parameters.
pub mod Kept
use edav.Base.{
  ℕ, ◌+◌, ◌*◌, Bool, true, false, ◌&&◌, ◌||◌, [], ◌∷◌, ◌++◌, Option, none, some, ◌==◌, ltb, leb,
  if◌then◌else◌, ◌>>=◌,
}
use edav.Base.Bytes.{Bytes, codes, equal}
use edav.Base.Time.{day, trim_space, digits, is_date, date}
use edav.Storage.{Database}
use edav.Storage
use edav.Dav.Backend.{Bounds}
use edav.Ical.{Event}
use edav.Ical.Edit.{apply, new_event, filename}
use edav.Admin.Accounts.{Reply}
use edav.Admin.Objects.{create_in, update_in, delete_in}

abbrev after : ℕ → Bytes → Option Bytes
after q [] = none
after q (c ∷ s) = if c == q then some s else none

-- The layout `2006-01-02`, with what follows it.
unfoldable pub form_day : Bytes → Option (ℕ × Bytes)
unfolding digits is_date date
form_day s = do
  y ← digits 4 0 s
  s ← after b'-' y.1
  m ← digits 2 0 s
  s ← after b'-' m.1
  d ← digits 2 0 s
  if is_date y.0 m.0 d.0 then some (date y.0 m.0 d.0, d.1) else none

-- An hour of one digit or two.
abbrev form_hour : Bytes → Option (ℕ × Bytes)
form_hour s = elim (digits 2 0 s) [ some h ↦ some h | none ↦ digits 1 0 s ]

-- The layout `15:04`, with what follows it.
unfoldable pub form_clock : Bytes → Option (ℕ × Bytes)
unfolding digits
form_clock s = do
  h ← form_hour s
  s ← after b':' h.1
  m ← digits 2 0 s
  if ltb h.0 24 && ltb m.0 60 then some (h.0 * 3600 + m.0 * 60, m.1) else none

abbrev nothing_left : ℕ × Bytes → Option ℕ
nothing_left (t, []) = some t
nothing_left (t, c ∷ s) = none

abbrev is_blank : Bytes → Bool
is_blank [] = true
is_blank (c ∷ s) = false

-- `parseFormTime`.
unfoldable pub parse_form_time : Bytes → Bytes → Bool → Option ℕ
unfolding form_day form_clock
parse_form_time date clock all_day =
    if is_blank date
    then none
    else if all_day || is_blank clock
    then form_day date >>= nothing_left
    else do
      d ← form_day (date ++ b'T' ∷ clock)
      s ← after b'T' d.1
      t ← form_clock s
      nothing_left (d.0 + t.0, t.1)

-- `eventFromForm`; a whole-day event ends the day after the last one it covers.
unfoldable pub event_from_form : (Bytes → Bytes) → Option Event
unfolding parse_form_time trim_space
event_from_form value =
    let get = λ (name : Bytes). trim_space (value name) in
    let all_day = equal (get (codes "all_day")) (codes "1") in
    do
      start ← parse_form_time (get (codes "start_date")) (get (codes "start_time")) all_day
      end ← parse_form_time (get (codes "end_date")) (get (codes "end_time")) all_day
      some (record {
        uid = get (codes "uid");
        summary = get (codes "summary");
        location = get (codes "location");
        description = get (codes "description");
        start = start;
        end = if all_day then end + day else end;
        all_day = all_day;
        timezone = if all_day then [] else get (codes "timezone");
        recurrence = get (codes "recurrence");
      })

-- The name of a new object: a UID of its own where the form gives none.
abbrev event_name : Bytes → Event → Bytes
event_name random_uid e = filename (if is_blank e.uid then random_uid else e.uid)

abbrev form_name : Bytes → Option Event → Bytes
form_name random_uid none = []
form_name random_uid (some e) = event_name random_uid e

module _ (known_zone : Bytes → Bool) (index : Bytes → Option Bounds)
    (etag_for : Bytes → Bytes) where
  -- `createEvent`, with the UIDs that the two calls of `NewUID` would give.
  unfoldable pub create_event :
      Bytes → Bytes → ℕ → Database → Bytes → (Bytes → Bytes) → Database × Reply
  unfolding event_from_form
  create_event random_uid random_name now db id value =
      let form = event_from_form value in
      create_in index etag_for Storage.calendar now db id
        (form >>= (λ e. new_event known_zone random_uid e now)) (form_name random_name form)

  -- `updateEvent`.
  unfoldable pub update_event : ℕ → Database → Bytes → Bytes → (Bytes → Bytes) → Database × Reply
  unfolding event_from_form
  update_event now db id uri value =
      update_in index etag_for Storage.calendar
        (λ raw. event_from_form value >>= (λ e. apply known_zone raw e now)) now db id uri

unfoldable pub delete_event : ℕ → Database → Bytes → Bytes → Database × Reply
delete_event = delete_in Storage.calendar
