-- ===== src/Admin/Events/Kept.antt =====
-- internal/admin/events.go: what saving the form of an event leaves as it is.
use edav.Base.{ℕ, Bool, Option, some, ◌>>=◌, ◌≡◌, arith, inl, inr, Option-cases}
use edav.Base.Bytes.{Bytes}
use edav.Storage.{Collection, Object, Database}
use edav.Storage
use edav.Storage.Objects.{object_by_uri}
use edav.Storage.Integrity.{Integrity}
use edav.Dav.Backend.{Bounds}
use edav.Dav.Backend.ReadBack.{Tagged}
use edav.Ical.{Event, CalendarFile, parse, bytes}
use edav.Ical.Edit.{apply, write_event}
use edav.Ical.Untouched.{others, write_event_untouched}
use edav.Admin.Accounts.{redirected}
use edav.Admin.Objects.{collection_of}
use edav.Admin.Objects.Written.{update_in-redirected}
use edav.Admin.Events.{event_from_form, update_event}

apply-inv :
    (known_zone : Bytes → Bool) (raw out : Bytes) (e : Event) (now : ℕ)
    → apply known_zone raw e now ≡ some out
    → (o : CalendarFile) × (parse raw ≡ some o) × (bytes (write_event o e now) ≡ some out)
unfolding apply
apply-inv known_zone raw out e now h = elim (Option-cases (parse raw)) [
  | inl p ↦ absurd (ground arith)
  | inr (o, p) ↦ (o, p, ground arith)
]

module _ (known_zone : Bytes → Bool) (index : Bytes → Option Bounds)
    (etag_for : Bytes → Bytes) where
  -- Saving the form of an event that is answered with a redirect leaves, in the text that is found at the
  -- event's name from then on, every line in no group as it was stored, other than those of the form and the
  -- stamps: bytes, terminator and place among such lines. The database has its keys and references, and
  -- whatever is stored under the tag of some bytes has those bytes.
  pub update_event_untouched :
      (now : ℕ) (db : Database) (id uri : Bytes) (value : Bytes → Bytes)
      → Integrity db
      → ((raw : Bytes) → Tagged etag_for db raw)
      → (update_event known_zone index etag_for now db id uri value).1 ≡ redirected
      → (c : Collection) × (old : Object) × (new : Object) × (before : CalendarFile)
        × (after : CalendarFile) × (collection_of Storage.calendar db id ≡ some c)
        × (object_by_uri db c.id uri ≡ some old)
        × (object_by_uri (update_event known_zone index etag_for now db id uri value).0 c.id uri
            ≡ some new)
        × (parse old.raw ≡ some before)
        × (bytes after ≡ some new.raw)
        × (others after ≡ others before)
  unfolding update_event
  update_event_untouched now db id uri value w same h =
      let edit = λ (raw : Bytes). event_from_form value >>= (λ e. apply known_zone raw e now) in
      let (c, old, new, here, there, written, edited) =
        update_in-redirected index etag_for Storage.calendar edit now db id uri w same h in
      elim (Option-cases (event_from_form value)) [
        | inl n ↦ absurd (ground arith)
        | inr (e, f) ↦
            let (o, p, b) = apply-inv known_zone old.raw new.raw e now (ground arith) in
            (
              c,
              old,
              new,
              o,
              write_event o e now,
              here,
              there,
              written,
              p,
              b,
              write_event_untouched o e now,
            )
      ]
