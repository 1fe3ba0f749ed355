-- ===== src/Storage/Integrity/Places.antt =====
-- internal/storage/objects.go: a put leaves every collection at its owner and name.
use edav.Base.{
  ℕ, ◌&&◌, List, [], ◌∷◌, Option, none, some, ◌==◌, ◌≡◌, refl, arith, inl, inr, Bool, true, false,
  Bool-cases, Option-cases,
}
use edav.Base.Bytes.{Bytes, equal}
use edav.Base.Rows.{select, update}
use edav.Storage.{ok, ChangeType, Collection, Object, Database}
use edav.Storage.Collections.{collection_by_uri, collection_by_id}
use edav.Storage.Objects.{
  object_by_uri, record_change, bumped, change_of, write_object, put_object, and_then, found,
}
use edav.Storage.Changes.{record_change_inv}
use edav.Storage.Integrity.Log.{commit_keeps, and_then_keeps}

select-update :
    {A : Type 0} (p q : A → Bool) (f : A → A)
    → ((r : A) → p (f r) ≡ p r)
    → (rs : List A)
    → select p (update q f rs)
      ≡ elim (select p rs) [ none ↦ none | some r ↦ some (elim (q r) [ true ↦ f r | false ↦ r ]) ]
select-update p q f h [] = refl
select-update p q f h (r ∷ rs) = ground (arith, h r, select-update p q f h rs)

write_object-collections :
    (etag : Bytes) (now : ℕ) (db : Database) (obj : Object) (existing : Option Object)
    {mid : Database}
    → write_object etag now db obj existing ≡ ok mid
    → mid.collections ≡ db.collections
unfolding write_object
write_object-collections etag now db obj (some o) h = ground arith
write_object-collections etag now db obj none h =
    elim (Option-cases (collection_by_id db obj.collection_id)) [
      | inl e ↦ absurd (ground arith)
      | inr (c, e) ↦ ground arith
    ]

-- The collection is found where it was, and is the same but for its numbers.
pub record Place (c : Collection) (db : Database) (owner : ℕ) (name : Bytes) : Type 0 where
  pub now_there : Collection
  pub is_there : collection_by_uri db owner name ≡ some now_there
  pub same_id : now_there.id ≡ c.id
  pub same_uri : now_there.uri ≡ c.uri
  pub same_type : now_there.type ≡ c.type

module _ (owner : ℕ) (name : Bytes) {c : Collection} where
  stays :
      (db mid : Database)
      → mid.collections ≡ db.collections
      → collection_by_uri db owner name ≡ some c
      → Place c mid owner name
  unfolding collection_by_uri
  stays db mid e h = record {
    now_there = c;
    is_there = rw e h;
    same_id = refl;
    same_uri = refl;
    same_type = refl;
  }

  at_place :
      (db mid : Database)
      → mid.collections ≡ db.collections
      → collection_by_uri db owner name ≡ some c
      → collection_by_uri mid owner name ≡ some c
  unfolding collection_by_uri
  at_place db mid e h = rw e h

  record_change-Place :
      (now : ℕ) (db : Database) (cid : ℕ) (uri : Bytes) (change : ChangeType) {db' : Database}
      → collection_by_uri db owner name ≡ some c
      → record_change now db cid uri change ≡ ok db'
      → Place c db' owner name
  unfolding collection_by_uri
  record_change-Place now db cid uri change {db'} h r =
      let (d, _, e) = record_change_inv now db cid uri change r in
      let p = λ (r : Collection). r.owner_id == owner && equal r.uri name in
      let moved = select-update p (λ r. r.id == cid) (bumped now) (λ _. refl) db.collections in
      rw e (elim (Bool-cases (c.id == cid)) [
        | inl t ↦ record {
          now_there = bumped now c;
          is_there = ground (arith, moved, h, t);
          same_id = refl;
          same_uri = refl;
          same_type = refl;
        }
        | inr f ↦ record {
          now_there = c;
          is_there = ground (arith, moved, h, f);
          same_id = refl;
          same_uri = refl;
          same_type = refl;
        }
      ])

  pub put_object-Place :
      (etag_for : Bytes → Bytes) (now : ℕ) (db : Database) (obj : Object)
      → collection_by_uri db owner name ≡ some c
      → Place c (put_object etag_for now db obj).0 owner name
  unfolding put_object
  put_object-Place etag_for now db obj h =
      let existing = object_by_uri db obj.collection_id obj.uri in
      let etag = etag_for obj.raw in
      let log =
        λ (mid : Database). record_change now mid obj.collection_id obj.uri (change_of existing) in
      let read = λ (db' : Database). found (object_by_uri db' obj.collection_id obj.uri) in
      let kept =
        commit_keeps (λ db'. Place c db' owner name) db
          (and_then (write_object etag now db obj existing) log) read (stays db db refl h)
          (λ db'.
            and_then_keeps (λ mid. mid.collections ≡ db.collections) (λ db'. Place c db' owner name)
              (write_object etag now db obj existing) log
              (λ mid. write_object-collections etag now db obj existing)
              (λ mid e.
                record_change-Place now mid obj.collection_id obj.uri (change_of existing)
                  (at_place db mid e h))) in
      ground (arith, stays db db refl h, kept)
