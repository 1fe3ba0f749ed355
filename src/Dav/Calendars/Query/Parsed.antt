-- ===== src/Dav/Calendars/Query/Parsed.antt =====
-- internal/dav/caldav.go: a query by time and the objects that cannot be parsed.
use edav.Base.{
  ℕ, Bool, true, List, [], ◌∷◌, Option, some, ◌≡◌, refl, keep, Option-cases, Bool-cases, inl, inr,
  arith,
}
use edav.Base.Bytes.{Bytes}
use edav.Storage.{Collection, Object, Database}
use edav.Storage.Objects.{objects_in_time_range}
use edav.Dav.Backend.{done, StoredObject, view}
use edav.Dav.Paths.{calendar_object_path}
use edav.Dav.Calendars.Query.{
  confirmed, queried_objects, occurs_in_range, calendar_object_of, calendar_objects,
}

module _ {Calendar : Type 0} (decode : Bytes → Option Calendar)
    (instances_overlap : Calendar → ℕ → ℕ → Option Bool) where
  confirmed-decode :
      (from to : ℕ) (o : Object)
      → confirmed (occurs_in_range decode instances_overlap) from to o ≡ true
      → (cal : Calendar) × (decode o.raw ≡ some cal)
  unfolding confirmed occurs_in_range
  confirmed-decode from to o h = elim (Option-cases (decode o.raw)) [
    | inl p ↦ absurd (ground (arith, p, h))
    | inr found ↦ found
  ]

  calendar_objects-keep :
      (prefix username : Bytes) (c : Collection) (from to : ℕ) (os : List Object)
      → (cos : List (StoredObject × Option Calendar)) × (calendar_objects decode instances_overlap
            prefix username c true
            (keep (confirmed (occurs_in_range decode instances_overlap) from to) os)
          ≡ done cos)
  unfolding calendar_object_of calendar_objects
  calendar_objects-keep prefix username c from to [] = ([], refl)
  calendar_objects-keep prefix username c from to (o ∷ os) =
      let (cos, h) = calendar_objects-keep prefix username c from to os in
      elim (Bool-cases (confirmed (occurs_in_range decode instances_overlap) from to o)) [
        | inl p ↦
            let (cal, q) = confirmed-decode from to o p in
            rw (calendar_objects, p, q, h)
              ((view calendar_object_path prefix username c o, some cal) ∷ cos, refl)
        | inr p ↦ rw (calendar_objects, p) (cos, h)
      ]

  -- A query for a range of times does not fail for an object of the calendar that cannot be parsed: all
  -- that is left of them is parsed.
  calendar_objects-queried :
      (prefix username : Bytes) (c : Collection) (db : Database) (from to : ℕ)
      → (cos : List (StoredObject × Option Calendar)) × (calendar_objects decode instances_overlap
            prefix username c true
            (queried_objects (occurs_in_range decode instances_overlap) db c.id (some (from, to)))
          ≡ done cos)
  unfolding queried_objects
  calendar_objects-queried prefix username c db from to =
      calendar_objects-keep prefix username c from to (objects_in_time_range db c.id from to)
