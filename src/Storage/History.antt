-- ===== src/Storage/History.antt =====
-- Sequences of writes to the objects, as `PutObject` and `DeleteObject` make them.
use edav.Base.{
  ℕ, ◌≤◌, true, false, ◌&&◌, [], ◌∷◌, ◌++◌, Option, none, some, ◌==◌, any, ◌≡◌, ◌⊎◌, inl, inr, refl,
  sym, ◌∙◌, arith, Bool-cases, Option-cases,
}
use edav.Base.Bytes.{Bytes, equal, equal_iff}
use edav.Base.Rows.{
  update, delete, DistinctIds, DistinctIds-delete, DistinctIds-update, DistinctIds-insert,
  select-append, select-delete_ne, select-update_id_ne, select_sound, next_id,
}
use edav.Storage.{Result, ok, err, Collection, Object, ChangeType, deleted, Database}
use edav.Storage.Collections.{collection_by_id}
use edav.Storage.Objects.{
  at_uri, object_by_uri, record_change, change_of, write_object, put_object, delete_object,
  rewritten, inserted, unchanged, commit, and_then, found,
}
use edav.Storage.Changes.{changed_after, Wrote, recorded-Wrote, record_change-objects}

abbrev pub ObjectIds : Database → Type 0
ObjectIds db = DistinctIds (λ (o : Object). o.id) db.objects

disjoint :
    (cid cid' : ℕ) (uri uri' : Bytes)
    → (cid == cid' && equal uri uri') ≡ false
    → (o : Object) → at_uri cid' uri' o ≡ true
    → at_uri cid uri o ≡ false
disjoint cid cid' uri uri' n o h =
    ground (arith, equal_iff uri uri', equal_iff o.uri uri, equal_iff o.uri uri')

-- What `write_object` leaves alone.
record Written (obj : Object) (db mid : Database) : Type 0 where
  same_changes : mid.changes ≡ db.changes
  same_collections : mid.collections ≡ db.collections
  ids : ObjectIds mid
  others :
      (cid' : ℕ) (uri' : Bytes)
      → (obj.collection_id == cid' && equal obj.uri uri') ≡ false
      → object_by_uri mid cid' uri' ≡ object_by_uri db cid' uri'

write_object-Written :
    (etag : Bytes) (now : ℕ) (db : Database) (obj : Object) {mid : Database}
    (existing : Option Object)
    → ObjectIds db
    → existing ≡ object_by_uri db obj.collection_id obj.uri
    → write_object etag now db obj existing ≡ ok mid
    → Written obj db mid
unfolding write_object object_by_uri
write_object-Written etag now db obj {mid} (some o) d e h =
    let p = at_uri obj.collection_id obj.uri in
    let f = rewritten etag now obj in
    let here : p o ≡ true = select_sound p db.objects (sym e) in
    let is_mid : record db { objects = update (λ r. r.id == o.id) f db.objects } ≡ mid = cc in
    rw (← is_mid) (record {
      same_changes = refl;
      same_collections = refl;
      ids =
          DistinctIds-update (λ (r : Object). r.id) (λ r. r.id == o.id) f (λ r. refl) db.objects d;
      others = λ cid' uri' n.
          select-update_id_ne (λ (r : Object). r.id) p (at_uri cid' uri') f
            (disjoint obj.collection_id cid' obj.uri uri' n) db.objects d (sym e)
            (ground (arith, equal_iff obj.uri uri', equal_iff o.uri obj.uri, equal_iff o.uri uri'));
    })
write_object-Written etag now db obj {mid} none d e h =
    let row = inserted (next_id (λ (r : Object). r.id) db.objects) etag now obj in
    elim (Option-cases (collection_by_id db obj.collection_id)) [
      | inl o ↦ absurd (ground arith)
      | inr (c, o) ↦
          let is_mid : record db { objects = db.objects ++ row ∷ [] } ≡ mid = ground arith in
          rw (← is_mid) (record {
            same_changes = refl;
            same_collections = refl;
            ids = DistinctIds-insert (λ (r : Object). r.id) db.objects row refl d;
            others = λ cid' uri' n. ground (
              arith,
              select-append (at_uri cid' uri') db.objects (row ∷ []),
              equal_iff obj.uri uri',
            );
          })
    ]

-- A write leaves the database alone, or is a change of its one URI that the log records.
abbrev pub Change : ℕ → Bytes → Database → Database → Type 0
Change cid uri db db' = ObjectIds db' × ((db' ≡ db) ⊎ Wrote cid uri db db')

commit-Change :
    (now : ℕ) (db mid : Database) (cid : ℕ) (uri : Bytes) (change : ChangeType)
    → ObjectIds db
    → ObjectIds mid
    → mid.changes ≡ db.changes
    → mid.collections ≡ db.collections
    → ((cid' : ℕ) (uri' : Bytes)
        → (cid == cid' && equal uri uri') ≡ false
        → object_by_uri mid cid' uri' ≡ object_by_uri db cid' uri')
    → {A : Type 0} (f : Database → Result A)
    → Change cid uri db (commit db (record_change now mid cid uri change) f).0
commit-Change now db mid cid uri change d dm sc sl others {A} f =
    logged (record_change now mid cid uri change) refl
  where
    logged :
        (r : Result Database)
        → record_change now mid cid uri change ≡ r
        → Change cid uri db (commit {A = A} db r f).0
    logged (err e) h = (d, inl refl)
    logged (ok db') h = (
      rw (record_change-objects now mid cid uri change h) dm,
      inr (recorded-Wrote now db mid cid uri change sc sl others h),
    )

module _ (etag_for : Bytes → Bytes) where
  pub put_object-Change :
      (now : ℕ) (db : Database) (obj : Object)
      → ObjectIds db
      → Change obj.collection_id obj.uri db (put_object etag_for now db obj).0
  unfolding put_object
  put_object-Change now db obj d = elim (Bool-cases (unchanged etag existing)) [
    | inl e ↦ rw e (d, inl refl)
    | inr e ↦ rw e (after_write (write_object etag now db obj existing) refl)
  ]
    where
      existing : Option Object
      existing = object_by_uri db obj.collection_id obj.uri

      etag : Bytes
      etag = etag_for obj.raw

      log : Database → Result Database
      log mid = record_change now mid obj.collection_id obj.uri (change_of existing)

      read : Database → Result Object
      read db' = found (object_by_uri db' obj.collection_id obj.uri)

      after_write :
          (r : Result Database)
          → write_object etag now db obj existing ≡ r
          → Change obj.collection_id obj.uri db (commit db (and_then r log) read).0
      after_write (err x) h = (d, inl refl)
      after_write (ok mid) h =
          let w = write_object-Written etag now db obj existing d refl h in
          commit-Change now db mid obj.collection_id obj.uri (change_of existing) d w.ids
            w.same_changes w.same_collections w.others read

pub delete_object-Change :
    (now : ℕ) (db : Database) (cid : ℕ) (uri : Bytes)
    → ObjectIds db
    → Change cid uri db (delete_object now db cid uri).0
unfolding delete_object
delete_object-Change now db cid uri d =
    let mid = record db { objects = delete (at_uri cid uri) db.objects } in
    elim (Bool-cases (any (at_uri cid uri) db.objects)) [
      | inr e ↦ rw e (d, inl refl)
      | inl e ↦ rw e (
          commit-Change now db mid cid uri deleted d
            (DistinctIds-delete (λ (o : Object). o.id) (at_uri cid uri) db.objects d) refl refl
            (λ cid' uri' n.
              unfold object_by_uri in
              select-delete_ne (at_uri cid' uri') (at_uri cid uri) (disjoint cid cid' uri uri' n)
                db.objects)
            (λ _. ok tt))
    ]

-- Any writes to objects, by any clients, one after the other.
module _ (etag_for : Bytes → Bytes) where
  pub data History (a : Database) : Database → Type 0 where
    start : History a a
    put :
        {b c : Database} (now : ℕ) (obj : Object)
        → History a b
        → c ≡ (put_object etag_for now b obj).0
        → History a c
    remove :
        {b c : Database} (now cid : ℕ) (uri : Bytes)
        → History a b
        → c ≡ (delete_object now b cid uri).0
        → History a c

-- `old` is what a client saw of a collection at position `since`: every URI at which the collection
-- differs now has a change behind that position.
pub record Tracks (old : Bytes → Option Object) (cid since : ℕ) (db : Database) : Type 0 where
  pub ids : ObjectIds db
  pub here : (c : Collection) × (collection_by_id db cid ≡ some c) × (since ≤ c.sync_seq)
  pub differs :
      (uri : Bytes)
      → (object_by_uri db cid uri ≡ old uri) ⊎ (any (changed_after cid uri since) db.changes ≡ true)

Change-Tracks :
    (old : Bytes → Option Object) (cid since cid' : ℕ) (uri' : Bytes) (db db' : Database)
    → Tracks old cid since db
    → Change cid' uri' db db'
    → Tracks old cid since db'
Change-Tracks old cid since cid' uri' db db' t (d, inl e) = rw e t
Change-Tracks old cid since cid' uri' db db' t (d, inr w) =
    let (c, found, le) = t.here in
    let (c', found', le') = w.collection cid c found in
    record {
      ids = d;
      here = (c', found', omega arith);
      differs = λ uri. elim (Bool-cases (cid' == cid && equal uri' uri)) [
        | inl e ↦
            let same_cid : cid' ≡ cid = ground arith in
            let same_uri : uri' ≡ uri = ground (arith, equal_iff uri' uri) in
            inr (rw (same_cid, same_uri) at (w.logged c since (rw same_cid found) le))
        | inr n ↦ elim (t.differs uri) [
          | inl e ↦ inl (w.others cid uri n ∙ e)
          | inr e ↦ inr (w.keeps cid uri since n ∙ e)
        ]
      ];
    }

-- No write loses a difference, whoever makes it and whether it succeeds or not.
pub History-Tracks :
    (etag_for : Bytes → Bytes) (old : Bytes → Option Object) (cid since : ℕ) {a b : Database}
    → Tracks old cid since a
    → History etag_for a b
    → Tracks old cid since b
History-Tracks etag_for old cid since t start = t
History-Tracks etag_for old cid since t (put {b} now obj h e) =
    let before = History-Tracks etag_for old cid since t h in
    rw e (
      Change-Tracks old cid since obj.collection_id obj.uri b _ before
        (put_object-Change etag_for now b obj before.ids))
History-Tracks etag_for old cid since t (remove {b} now cid' uri h e) =
    let before = History-Tracks etag_for old cid since t h in
    rw e (
      Change-Tracks old cid since cid' uri b _ before
        (delete_object-Change now b cid' uri before.ids))
