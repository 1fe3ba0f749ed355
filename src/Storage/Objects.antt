-- ===== src/Storage/Objects.antt =====
-- internal/storage/objects.go: objects and the change log.
use edav.Base.{
  ℕ, ◌+◌, Bool, true, false, ◌&&◌, List, [], ◌∷◌, ◌++◌, Option, none, some, ◌==◌, ltb, leb,
  if◌then◌else◌, any, keep,
}
use edav.Base.Bytes.{Bytes, equal, leb_bytes}
use edav.Base.Rows.{select, update, delete, sort_by, next_id}
use edav.Storage.{
  not_found, constraint, Result, ok, err, Collection, Object, ChangeType, created, updated, deleted,
  ChangeRow, Database,
}
use edav.Storage.Collections.{ctag_for, collection_by_id}

abbrev pub at_uri : ℕ → Bytes → Object → Bool
at_uri cid uri o = o.collection_id == cid && equal o.uri uri

abbrev pub change_at : ℕ → Bytes → ChangeRow → Bool
change_at cid uri ch = ch.collection_id == cid && equal ch.object_uri uri

unfoldable pub object_by_uri : Database → ℕ → Bytes → Option Object
object_by_uri db cid uri = select (at_uri cid uri) db.objects

unfoldable pub list_objects : Database → ℕ → List Object
list_objects db cid =
    sort_by (λ a b. leb_bytes a.uri b.uri) (keep (λ o. o.collection_id == cid) db.objects)

-- The `WHERE` clause of `ObjectsInTimeRange`.
unfoldable pub could_overlap : ℕ → ℕ → Option ℕ → Option ℕ → Bool
could_overlap from to none end_at = true
could_overlap from to (some start) none = ltb start to
could_overlap from to (some start) (some end) = ltb start to && ltb from end

unfoldable pub objects_in_time_range : Database → ℕ → ℕ → ℕ → List Object
unfolding could_overlap
objects_in_time_range db cid from to =
    sort_by (λ a b. leb_bytes a.uri b.uri)
      (keep (λ o. o.collection_id == cid && could_overlap from to o.start_at o.end_at) db.objects)

-- The collection's row after `UPDATE collections SET sync_seq = sync_seq + 1, …`.
abbrev pub bumped : ℕ → Collection → Collection
bumped now c = record c {
  sync_seq = c.sync_seq + 1;
  ctag = ctag_for (c.sync_seq + 1);
  updated_at = now;
}

-- The row that `recordChange` appends.
abbrev pub change_row : Database → ℕ → ℕ → Bytes → ChangeType → ℕ → ChangeRow
change_row db cid seq uri change now = record {
  id = next_id (λ (ch : ChangeRow). ch.id) db.changes;
  collection_id = cid;
  seq = seq;
  object_uri = uri;
  change_type = change;
  created_at = now;
}

-- The log without the entry of this URI, and the database after `recordChange`.
abbrev pub pruned : Database → ℕ → Bytes → List ChangeRow
pruned db cid uri = delete (change_at cid uri) db.changes

abbrev pub recorded : ℕ → Database → ℕ → Bytes → ChangeType → Collection → Database
recorded now db cid uri change c =
    let rest = record db { changes = pruned db cid uri } in
    record db {
      collections = update (λ r. r.id == cid) (bumped now) db.collections;
      changes = pruned db cid uri ++ change_row rest cid (c.sync_seq + 1) uri change now ∷ [];
    }

-- `recordChange`, inside a transaction; the unique index is on collection and sequence number.
unfoldable pub record_change : ℕ → Database → ℕ → Bytes → ChangeType → Result Database
record_change now db cid uri change = elim (collection_by_id db cid) [
  | none ↦ err not_found
  | some c ↦
      if any (λ ch. ch.collection_id == cid && ch.seq == c.sync_seq + 1) (pruned db cid uri)
      then err constraint
      else ok (recorded now db cid uri change c)
]

-- A transaction that fails leaves the database as it was.
abbrev pub commit {ℓ} :
    {A : Type ℓ} → Database → Result Database → (Database → Result A) → Database × Result A
commit db (err e) f = (db, err e)
commit db (ok db') f = (db', f db')

abbrev pub found : Option Object → Result Object
found none = err not_found
found (some o) = ok o

-- The columns of an `UPDATE` and of an `INSERT` of `PutObject`.
abbrev pub rewritten : Bytes → ℕ → Object → Object → Object
rewritten etag now obj o = record o {
  etag = etag;
  raw = obj.raw;
  uid = obj.uid;
  component_type = obj.component_type;
  display_name = obj.display_name;
  start_at = obj.start_at;
  end_at = obj.end_at;
  recurring = obj.recurring;
  updated_at = now;
}

abbrev pub inserted : ℕ → Bytes → ℕ → Object → Object
inserted id etag now obj = record obj { id = id; etag = etag; created_at = now; updated_at = now }

-- The table of objects after the write.
unfoldable pub write_object : Bytes → ℕ → Database → Object → Option Object → Result Database
write_object etag now db obj (some o) =
    ok (record db { objects = update (λ r. r.id == o.id) (rewritten etag now obj) db.objects })
write_object etag now db obj none =
    let row = inserted (next_id (λ (r : Object). r.id) db.objects) etag now obj in
    elim (collection_by_id db obj.collection_id) [
      | none ↦ err constraint
      | some _ ↦ ok (record db { objects = db.objects ++ row ∷ [] })
    ]

abbrev pub change_of : Option Object → ChangeType
change_of none = created
change_of (some o) = updated

abbrev pub unchanged : Bytes → Option Object → Bool
unchanged etag none = false
unchanged etag (some o) = equal etag o.etag

abbrev pub and_then : Result Database → (Database → Result Database) → Result Database
and_then (err e) f = err e
and_then (ok db) f = f db

module _ (etag_for : Bytes → Bytes) where
  -- `PutObject`; `etag_for` is the hash of `ETagFor`.
  unfoldable pub put_object : ℕ → Database → Object → Database × Result Object
  put_object now db obj =
      let existing = object_by_uri db obj.collection_id obj.uri in
      let etag = etag_for obj.raw in
      let read = λ (db' : Database). found (object_by_uri db' obj.collection_id obj.uri) in
      if unchanged etag existing
      then (db, read db)
      else commit db
          (and_then (write_object etag now db obj existing)
            (λ db'. record_change now db' obj.collection_id obj.uri (change_of existing)))
          read

-- `DeleteObject`.
unfoldable pub delete_object : ℕ → Database → ℕ → Bytes → Database × Result (Unit {0})
delete_object now db cid uri =
    if any (at_uri cid uri) db.objects
    then commit db
        (record_change now (record db { objects = delete (at_uri cid uri) db.objects }) cid uri
          deleted)
        (λ _. ok tt)
    else (db, err not_found)

-- `ChangesSince`: the changes after a position, oldest first, and the current position.
unfoldable pub changes_since : Database → ℕ → ℕ → Result (List ChangeRow × ℕ)
changes_since db cid since = elim (collection_by_id db cid) [
  | none ↦ err not_found
  | some c ↦ ok (
    sort_by (λ a b. leb a.seq b.seq)
        (keep (λ ch. ch.collection_id == cid && ltb since ch.seq) db.changes),
    c.sync_seq,
  )
]
