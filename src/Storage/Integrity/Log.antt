-- ===== src/Storage/Integrity/Log.antt =====
-- internal/storage/objects.go: every write keeps the keys and the references, and the numbers of the log.
use edav.Base.{
  ℕ, ◌+◌, Bool, true, false, ◌&&◌, List, [], ◌∷◌, ◌++◌, Option, none, some, ◌==◌, any, ◌≡◌, refl,
  sym, arith, inl, inr, Option-cases,
}
use edav.Base.Bytes.{Bytes}
use edav.Base.Rows.{
  select_sound, update, delete, next_id, DistinctIds-delete, DistinctIds-update, DistinctIds-insert,
}
use edav.Base.Keys.{
  Distinct, Refers, Distinct-delete, Distinct-snoc, Distinct-update, Refers-delete, Refers-snoc,
  Refers-update, select-none, select-some, any-update-some,
}
use edav.Storage.{Result, ok, err, Collection, Object, ChangeType, deleted, ChangeRow, Database}
use edav.Storage.Collections.{collection_by_id}
use edav.Storage.Objects.{
  at_uri, change_at, object_by_uri, record_change, recorded, pruned, bumped, change_row, change_of,
  write_object, put_object, delete_object, rewritten, inserted, commit, and_then, found,
}
use edav.Storage.Integrity.{same_uri, same_seq, in_collection, counted_by, Integrity}
use edav.Storage.Integrity.Rows.{updated_collections}

inserted_object :
    (db : Database) (row : Object)
    → row.id ≡ next_id (λ (r : Object). r.id) db.objects
    → any (λ r. same_uri r row) db.objects ≡ false
    → any (in_collection row) db.collections ≡ true
    → Integrity db
    → Integrity (record db { objects = db.objects ++ row ∷ [] })
inserted_object db row e free here w = record {
  user_ids = w.user_ids;
  usernames = w.usernames;
  collection_ids = w.collection_ids;
  places = w.places;
  owners = w.owners;
  object_ids = DistinctIds-insert (λ (r : Object). r.id) db.objects row e w.object_ids;
  uris = Distinct-snoc same_uri db.objects row free w.uris;
  collections = Refers-snoc in_collection db.collections db.objects row here w.collections;
  numbers = w.numbers;
  counts = w.counts;
  tokens = w.tokens;
  accounts = w.accounts;
}

-- A write that keeps the id, the collection and the name.
rewritten_object :
    (etag : Bytes) (now : ℕ) (obj : Object) (db : Database) (q : Object → Bool)
    → Integrity db
    → Integrity (record db { objects = update q (rewritten etag now obj) db.objects })
rewritten_object etag now obj db q w =
    let f = rewritten etag now obj in
    record {
      user_ids = w.user_ids;
      usernames = w.usernames;
      collection_ids = w.collection_ids;
      places = w.places;
      owners = w.owners;
      object_ids =
          DistinctIds-update (λ (r : Object). r.id) q f (λ _. refl) db.objects w.object_ids;
      uris = Distinct-update same_uri q f (λ _ _. refl) (λ _ _. refl) db.objects w.uris;
      collections =
          Refers-update in_collection db.collections q f (λ _ _. refl) db.objects w.collections;
      numbers = w.numbers;
      counts = w.counts;
      tokens = w.tokens;
      accounts = w.accounts;
    }

removed_objects :
    (db : Database) (q : Object → Bool)
    → Integrity db
    → Integrity (record db { objects = delete q db.objects })
removed_objects db q w = record {
  user_ids = w.user_ids;
  usernames = w.usernames;
  collection_ids = w.collection_ids;
  places = w.places;
  owners = w.owners;
  object_ids = DistinctIds-delete (λ (r : Object). r.id) q db.objects w.object_ids;
  uris = Distinct-delete same_uri q db.objects w.uris;
  collections = Refers-delete in_collection db.collections q db.objects w.collections;
  numbers = w.numbers;
  counts = w.counts;
  tokens = w.tokens;
  accounts = w.accounts;
}

pub write_object-Integrity :
    (etag : Bytes) (now : ℕ) (db : Database) (obj : Object) {mid : Database}
    (existing : Option Object)
    → existing ≡ object_by_uri db obj.collection_id obj.uri
    → Integrity db
    → write_object etag now db obj existing ≡ ok mid
    → Integrity mid
unfolding write_object object_by_uri collection_by_id
write_object-Integrity etag now db obj {mid} (some o) e w h =
    ground (arith, rewritten_object etag now obj db (λ r. r.id == o.id) w)
write_object-Integrity etag now db obj {mid} none e w h =
    let row = inserted (next_id (λ (r : Object). r.id) db.objects) etag now obj in
    elim (Option-cases (collection_by_id db obj.collection_id)) [
      | inl o ↦ absurd (ground arith)
      | inr (c, o) ↦ ground (
        arith,
        inserted_object db row refl
            (select-none (at_uri obj.collection_id obj.uri) db.objects (sym e))
            (select-some (λ (r : Collection). r.id == obj.collection_id) db.collections o) w,
      )
    ]

replaced_log :
    (db : Database) (changes : List ChangeRow)
    → Distinct same_seq changes
    → Refers counted_by db.collections changes
    → Integrity db
    → Integrity (record db { changes = changes })
replaced_log db changes d t w = record {
  user_ids = w.user_ids;
  usernames = w.usernames;
  collection_ids = w.collection_ids;
  places = w.places;
  owners = w.owners;
  object_ids = w.object_ids;
  uris = w.uris;
  collections = w.collections;
  numbers = d;
  counts = t;
  tokens = w.tokens;
  accounts = w.accounts;
}

-- The log behind a write whose number is free.
recorded-Integrity :
    (now : ℕ) (db : Database) (cid : ℕ) (uri : Bytes) (change : ChangeType) (c : Collection)
    → collection_by_id db cid ≡ some c
    → any (λ ch. ch.collection_id == cid && ch.seq == c.sync_seq + 1) (pruned db cid uri) ≡ false
    → Integrity db
    → Integrity (recorded now db cid uri change c)
unfolding collection_by_id
recorded-Integrity now db cid uri change c here free w =
    let bumps = update (λ r. r.id == cid) (bumped now) db.collections in
    let row =
      change_row (record db { changes = pruned db cid uri }) cid (c.sync_seq + 1) uri change now in
    let b =
      updated_collections db (λ r. r.id == cid) (bumped now) (λ _. refl) (λ _. refl) (λ _. refl)
        (λ _. omega arith) w in
    let is_here : (c.id == cid) ≡ true =
      select_sound (λ (r : Collection). r.id == cid) db.collections here in
    replaced_log (record db { collections = bumps }) (pruned db cid uri ++ row ∷ [])
      (Distinct-snoc same_seq (pruned db cid uri) row free
        (Distinct-delete same_seq (change_at cid uri) db.changes w.numbers))
      (Refers-snoc counted_by bumps (pruned db cid uri) row
        (any-update-some (counted_by row) (λ r. r.id == cid) (bumped now) db.collections here
          (ground arith))
        (Refers-delete counted_by bumps (change_at cid uri) db.changes b.counts))
      b

record_change-Integrity :
    (now : ℕ) (db : Database) (cid : ℕ) (uri : Bytes) (change : ChangeType) {db' : Database}
    → Integrity db
    → record_change now db cid uri change ≡ ok db'
    → Integrity db'
unfolding record_change
record_change-Integrity now db cid uri change {db'} w h =
    elim (Option-cases (collection_by_id db cid)) [
      | inl o ↦ absurd (ground arith)
      | inr (c, o) ↦ ground (arith, recorded-Integrity now db cid uri change c o)
    ]

-- What holds of the database before a transaction, and of the one it commits.
pub commit_keeps :
    (P : Database → Type 0) {A : Type 0} (db : Database) (r : Result Database)
    (f : Database → Result A)
    → P db
    → ((db' : Database) → r ≡ ok db' → P db')
    → P (commit db r f).0
commit_keeps P db (err e) f w h = w
commit_keeps P db (ok db') f w h = h db' refl

pub and_then_keeps :
    (P Q : Database → Type 0) (r : Result Database) (f : Database → Result Database)
    {db' : Database}
    → ((mid : Database) → r ≡ ok mid → P mid)
    → ((mid : Database) → P mid → f mid ≡ ok db' → Q db')
    → and_then r f ≡ ok db'
    → Q db'
and_then_keeps P Q (err e) f h k p = absurd (ground arith)
and_then_keeps P Q (ok mid) f h k p = k mid (h mid refl) p

module _ (etag_for : Bytes → Bytes) where
  pub put_object-Integrity :
      (now : ℕ) (db : Database) (obj : Object)
      → Integrity db
      → Integrity (put_object etag_for now db obj).0
  unfolding put_object
  put_object-Integrity now db obj w =
      let existing = object_by_uri db obj.collection_id obj.uri in
      let etag = etag_for obj.raw in
      let log =
        λ (mid : Database). record_change now mid obj.collection_id obj.uri (change_of existing) in
      let read = λ (db' : Database). found (object_by_uri db' obj.collection_id obj.uri) in
      ground (
        arith,
        w,
        commit_keeps Integrity db (and_then (write_object etag now db obj existing) log) read w
            (λ db' h.
              and_then_keeps Integrity Integrity (write_object etag now db obj existing) log
                (λ mid. write_object-Integrity etag now db obj existing refl w)
                (λ mid v.
                  record_change-Integrity now mid obj.collection_id obj.uri (change_of existing) v)
                h),
      )

pub delete_object-Integrity :
    (now : ℕ) (db : Database) (cid : ℕ) (uri : Bytes)
    → Integrity db
    → Integrity (delete_object now db cid uri).0
unfolding delete_object
delete_object-Integrity now db cid uri w =
    let mid = record db { objects = delete (at_uri cid uri) db.objects } in
    ground (
      arith,
      w,
      commit_keeps Integrity db (record_change now mid cid uri deleted) (λ _. ok tt) w
          (λ db'.
            record_change-Integrity now mid cid uri deleted
              (removed_objects db (at_uri cid uri) w)),
    )
