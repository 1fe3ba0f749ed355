-- ===== src/Storage/Integrity/Stored.antt =====
-- internal/storage/objects.go: `PutObject` into a collection that is there.
use edav.Base.{
  ℕ, ◌+◌, Bool, true, false, ◌&&◌, List, [], ◌∷◌, ◌++◌, Option, none, some, ◌==◌, leb, any, ◌≡◌,
  refl, sym, ◌∙◌, arith, inl, inr, Bool-cases, Option-cases,
}
use edav.Base.Bytes.{Bytes, equal_self, equal_iff}
use edav.Base.Rows.{
  select, select_sound, select-append, select-update_id_self, update, next_id, DistinctIds,
  any-delete_le,
}
use edav.Base.Keys.{Refers}
use edav.Storage.{Result, ok, Collection, Object, ChangeType, ChangeRow, Database}
use edav.Storage.Collections.{collection_by_id}
use edav.Storage.Objects.{
  at_uri, change_at, object_by_uri, record_change, recorded, change_of, write_object, put_object,
  rewritten, inserted, unchanged,
}
use edav.Storage.Integrity.{counted_by, Integrity}
use edav.Storage.Integrity.Log.{write_object-Integrity}

absent_id :
    (k : ℕ) (p : Collection → Bool) (cs : List Collection)
    → any (λ c. c.id == k) cs ≡ false
    → any (λ c. c.id == k && p c) cs ≡ false
absent_id k p [] n = refl
absent_id k p (c ∷ cs) n = ground (arith, absent_id k p cs)

-- What some row with an id satisfies, the row that is found by the id satisfies.
found-only :
    (k : ℕ) (p : Collection → Bool) (cs : List Collection) {c : Collection}
    → DistinctIds (λ (r : Collection). r.id) cs
    → select (λ r. r.id == k) cs ≡ some c
    → any (λ r. r.id == k && p r) cs ≡ true
    → p c ≡ true
found-only k p [] d h e = ground arith
found-only k p (r ∷ cs) {c} (n, d) h e =
    ground (arith, absent_id k p cs, found-only k p cs {c = c} d)

free_number :
    (db : Database) (cid : ℕ) (c : Collection) (chs : List ChangeRow)
    → DistinctIds (λ (r : Collection). r.id) db.collections
    → select (λ r. r.id == cid) db.collections ≡ some c
    → Refers counted_by db.collections chs
    → any (λ ch. ch.collection_id == cid && ch.seq == c.sync_seq + 1) chs ≡ false
free_number db cid c [] d h t = refl
free_number db cid c (ch ∷ chs) d h (e, t) = ground (
  arith,
  found-only ch.collection_id (λ r. leb ch.seq r.sync_seq) db.collections {c = c} d,
  free_number db cid c chs d h t,
)

record_change-ok :
    (now : ℕ) (db : Database) (cid : ℕ) (uri : Bytes) (change : ChangeType) (c : Collection)
    → Integrity db
    → collection_by_id db cid ≡ some c
    → record_change now db cid uri change ≡ ok (recorded now db cid uri change c)
unfolding record_change collection_by_id
record_change-ok now db cid uri change c w h =
    let free =
      any-delete_le (λ ch. ch.collection_id == cid && ch.seq == c.sync_seq + 1) (change_at cid uri)
        db.changes (free_number db cid c db.changes w.collection_ids h w.counts) in
    ground (arith, h, free)

-- A write that is done, with the object as it is then.
record Done (etag : Bytes) (obj : Object) (db : Database) (r : Result Database) : Type 0 where
  mid : Database
  stored : Object
  returned : r ≡ ok mid
  same_collections : mid.collections ≡ db.collections
  there : object_by_uri mid obj.collection_id obj.uri ≡ some stored
  tagged : stored.etag ≡ etag
  bytes : stored.raw ≡ obj.raw

write_object-Done :
    (etag : Bytes) (now : ℕ) (db : Database) (obj : Object) (c : Collection)
    (existing : Option Object)
    → existing ≡ object_by_uri db obj.collection_id obj.uri
    → Integrity db
    → collection_by_id db obj.collection_id ≡ some c
    → Done etag obj db (write_object etag now db obj existing)
unfolding write_object object_by_uri
write_object-Done etag now db obj c (some o) e w h =
    let p = at_uri obj.collection_id obj.uri in
    let f = rewritten etag now obj in
    record {
      mid = record db { objects = update (λ r. r.id == o.id) f db.objects };
      stored = f o;
      returned = refl;
      same_collections = refl;
      there =
          select-update_id_self (λ (r : Object). r.id) p f db.objects w.object_ids (sym e)
            (select_sound p db.objects (sym e));
      tagged = refl;
      bytes = refl;
    }
write_object-Done etag now db obj c none e w h =
    let p = at_uri obj.collection_id obj.uri in
    let row = inserted (next_id (λ (r : Object). r.id) db.objects) etag now obj in
    record {
      mid = record db { objects = db.objects ++ row ∷ [] };
      stored = row;
      returned = ground arith;
      same_collections = refl;
      there = ground (arith, select-append p db.objects (row ∷ []), equal_self obj.uri);
      tagged = refl;
      bytes = refl;
    }

collection_by_id-same :
    (db db' : Database) (cid : ℕ)
    → db'.collections ≡ db.collections
    → collection_by_id db' cid ≡ collection_by_id db cid
unfolding collection_by_id
collection_by_id-same db db' cid e = rw e refl

object_by_uri-recorded :
    (now : ℕ) (db : Database) (cid : ℕ) (uri : Bytes) (change : ChangeType) (c : Collection) (k : ℕ)
    (name : Bytes)
    → object_by_uri (recorded now db cid uri change c) k name ≡ object_by_uri db k name
unfolding object_by_uri
object_by_uri-recorded now db cid uri change c k name = refl

module _ (etag_for : Bytes → Bytes) where
  -- A put into a collection of a database with its keys and references succeeds, and what it returns is
  -- what is found at the name from then on, with the bytes that were put and their tag, if an object that
  -- is there and has that tag has those bytes.
  pub put_object-stored :
      (now : ℕ) (db : Database) (obj : Object) (c : Collection)
      → Integrity db
      → collection_by_id db obj.collection_id ≡ some c
      → ((o : Object)
          → object_by_uri db obj.collection_id obj.uri ≡ some o
          → o.etag ≡ etag_for obj.raw
          → o.raw ≡ obj.raw)
      → (o : Object) × ((put_object etag_for now db obj).1 ≡ ok o)
        × (object_by_uri (put_object etag_for now db obj).0 obj.collection_id obj.uri ≡ some o)
        × (o.etag ≡ etag_for obj.raw)
        × (o.raw ≡ obj.raw)
  unfolding put_object
  put_object-stored now db obj c w h same =
      let existing = object_by_uri db obj.collection_id obj.uri in
      let etag = etag_for obj.raw in
      elim (Bool-cases (unchanged etag existing)) [
        | inl e ↦ elim (Option-cases existing) [
          | inl n ↦ absurd (ground arith)
          | inr (o, q) ↦
              let tag : o.etag ≡ etag = ground (arith, equal_iff etag o.etag) in
              (o, ground arith, ground arith, tag, same o q tag)
        ]
        | inr e ↦
            let d = write_object-Done etag now db obj c existing refl w h in
            let v = write_object-Integrity etag now db obj existing refl w d.returned in
            let log =
              record_change-ok now d.mid obj.collection_id obj.uri (change_of existing) c v
                (collection_by_id-same db d.mid obj.collection_id d.same_collections ∙ h) in
            let read =
              object_by_uri-recorded now d.mid obj.collection_id obj.uri (change_of existing) c
                obj.collection_id obj.uri in
            (d.stored, ground (arith, log, read), ground (arith, log, read), d.tagged, d.bytes)
      ]
