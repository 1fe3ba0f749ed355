-- ===== src/Storage/Changes.antt =====
-- internal/storage/objects.go: what one write does to the objects and to the change log.
use edav.Base.{
  ℕ, ◌+◌, ◌≤◌, Bool, true, false, ◌&&◌, [], ◌∷◌, some, ◌==◌, ltb, any, ◌≡◌, ◌≢◌, inl, inr, refl,
  ◌∙◌, ap, arith, Option-cases, ℕ_discrete,
}
use edav.Base.Bytes.{Bytes, equal, equal_iff}
use edav.Base.Rows.{select, select-update_self, select-update_ne, any-delete_ne, any-append}
use edav.Storage.{ok, Collection, ChangeType, ChangeRow, Database}
use edav.Storage.Collections.{collection_by_id}
use edav.Storage.Objects.{
  change_at, object_by_uri, bumped, record_change, pruned, recorded, change_row,
}

-- A change of this URI behind position `since`.
abbrev pub changed_after : ℕ → Bytes → ℕ → ChangeRow → Bool
changed_after cid uri since ch = change_at cid uri ch && ltb since ch.seq

-- What a successful `recordChange` did.
record Recorded (cid : ℕ) (uri : Bytes) (db db' : Database) : Type 0 where
  same_objects : db'.objects ≡ db.objects
  since_then :
      (c : Collection) (since : ℕ)
      → collection_by_id db cid ≡ some c
      → since ≤ c.sync_seq
      → any (changed_after cid uri since) db'.changes ≡ true
  keeps :
      (cid' : ℕ) (uri' : Bytes) (since : ℕ)
      → (cid == cid' && equal uri uri') ≡ false
      → any (changed_after cid' uri' since) db'.changes
        ≡ any (changed_after cid' uri' since) db.changes

other_uri :
    (cid cid' : ℕ) (uri uri' : Bytes) (since : ℕ)
    → (cid == cid' && equal uri uri') ≡ false
    → (ch : ChangeRow) → changed_after cid' uri' since ch ≡ true
    → change_at cid uri ch ≡ false
other_uri cid cid' uri uri' since n ch h =
    ground (arith, equal_iff uri uri', equal_iff ch.object_uri uri, equal_iff ch.object_uri uri')

recorded-Recorded :
    (now : ℕ) (db : Database) (cid : ℕ) (uri : Bytes) (change : ChangeType) (c : Collection)
    → collection_by_id db cid ≡ some c
    → Recorded cid uri db (recorded now db cid uri change c)
recorded-Recorded now db cid uri change c h = record {
  same_objects = refl;
  since_then = λ c' since h' l.
      let same : c ≡ c' = cc in
      ground (
        arith,
        equal_iff uri uri,
        any-append (changed_after cid uri since) (pruned db cid uri) (
            change_row (record db { changes = pruned db cid uri }) cid (c.sync_seq + 1) uri change
              now
            ∷ []),
      );
  keeps = λ cid' uri' since n. ground (
    arith,
    equal_iff uri uri',
    any-delete_ne (changed_after cid' uri' since) (change_at cid uri)
        (other_uri cid cid' uri uri' since n) db.changes,
    any-append (changed_after cid' uri' since) (pruned db cid uri) (
        change_row (record db { changes = pruned db cid uri }) cid (c.sync_seq + 1) uri change now
        ∷ []),
  );
}

-- A `recordChange` that succeeds has found its collection.
pub record_change_inv :
    (now : ℕ) (db : Database) (cid : ℕ) (uri : Bytes) (change : ChangeType) {db' : Database}
    → record_change now db cid uri change ≡ ok db'
    → (c : Collection) × (collection_by_id db cid ≡ some c)
      × (db' ≡ recorded now db cid uri change c)
unfolding record_change
record_change_inv now db cid uri change {db'} h = elim (Option-cases (collection_by_id db cid)) [
  | inl e ↦ absurd (ground arith)
  | inr (c, e) ↦ (c, e, ground arith)
]

-- The collection's own row behind a `recordChange`, and the others.
collection-recorded_self :
    (now : ℕ) (db : Database) (cid : ℕ) (uri : Bytes) (change : ChangeType) (c : Collection)
    → collection_by_id db cid ≡ some c
    → collection_by_id (recorded now db cid uri change c) cid ≡ some (bumped now c)
unfolding collection_by_id
collection-recorded_self now db cid uri change c h = ground (
  arith,
  select-update_self (λ (r : Collection). r.id == cid) (bumped now) (λ r. refl) db.collections,
)

collection-recorded_ne :
    (now : ℕ) (db : Database) (cid k : ℕ) (uri : Bytes) (change : ChangeType) (c : Collection)
    → k ≢ cid
    → collection_by_id (recorded now db cid uri change c) k ≡ collection_by_id db k
unfolding collection_by_id
collection-recorded_ne now db cid k uri change c n =
    select-update_ne (λ (r : Collection). r.id == k) (λ r. r.id == cid) (bumped now)
      (λ r h. ground arith) (λ r. refl) db.collections

-- One write at `uri` of collection `cid`.
pub record Wrote (cid : ℕ) (uri : Bytes) (db db' : Database) : Type 0 where
  pub others :
      (cid' : ℕ) (uri' : Bytes)
      → (cid == cid' && equal uri uri') ≡ false
      → object_by_uri db' cid' uri' ≡ object_by_uri db cid' uri'
  pub logged :
      (c : Collection) (since : ℕ)
      → collection_by_id db cid ≡ some c
      → since ≤ c.sync_seq
      → any (changed_after cid uri since) db'.changes ≡ true
  pub keeps :
      (cid' : ℕ) (uri' : Bytes) (since : ℕ)
      → (cid == cid' && equal uri uri') ≡ false
      → any (changed_after cid' uri' since) db'.changes
        ≡ any (changed_after cid' uri' since) db.changes
  pub collection :
      (k : ℕ) (c : Collection)
      → collection_by_id db k ≡ some c
      → (c' : Collection) × (collection_by_id db' k ≡ some c') × (c.sync_seq ≤ c'.sync_seq)

same_collection :
    (db mid : Database) (k : ℕ)
    → mid.collections ≡ db.collections
    → collection_by_id mid k ≡ collection_by_id db k
unfolding collection_by_id
same_collection db mid k e = ap (select (λ (r : Collection). r.id == k)) e

collection-recorded :
    (now : ℕ) (mid : Database) (cid k : ℕ) (uri : Bytes) (change : ChangeType) (c : Collection)
    → collection_by_id mid cid ≡ some c
    → (d : Collection) → collection_by_id mid k ≡ some d
    → (c' : Collection) × (collection_by_id (recorded now mid cid uri change c) k ≡ some c')
      × (d.sync_seq ≤ c'.sync_seq)
collection-recorded now mid cid k uri change c e d h = elim (ℕ_discrete k cid) [
  | yes p ↦
      let same : c ≡ d = ground arith in
      (
        bumped now c,
        rw p (collection-recorded_self now mid cid uri change c e),
        rw (← same) (omega arith),
      )
  | no n ↦ (d, collection-recorded_ne now mid cid k uri change c n ∙ h, omega arith)
]

-- A write of the table of objects that touches one URI, and the entry in the log behind it.
module _ (now : ℕ) (db mid : Database) (cid : ℕ) (uri : Bytes) (change : ChangeType)
    (same_changes : mid.changes ≡ db.changes) (same_collections : mid.collections ≡ db.collections)
    (others : (cid' : ℕ) (uri' : Bytes)
      → (cid == cid' && equal uri uri') ≡ false
      → object_by_uri mid cid' uri' ≡ object_by_uri db cid' uri') where
  pub recorded-Wrote :
      {db' : Database} → record_change now mid cid uri change ≡ ok db' → Wrote cid uri db db'
  unfolding object_by_uri
  recorded-Wrote {db'} h =
      let (c, found, e) = record_change_inv now mid cid uri change h in
      let told = recorded-Recorded now mid cid uri change c found in
      rw e (record {
        others = others;
        logged = λ d since h' l.
            told.since_then d since (same_collection db mid cid same_collections ∙ h') l;
        keeps = λ cid' uri' since n.
            told.keeps cid' uri' since n ∙ ap (any (changed_after cid' uri' since)) same_changes;
        collection = λ k d h'.
            collection-recorded now mid cid k uri change c found d
              (same_collection db mid k same_collections ∙ h');
      })

pub record_change-objects :
    (now : ℕ) (db : Database) (cid : ℕ) (uri : Bytes) (change : ChangeType) {db' : Database}
    → record_change now db cid uri change ≡ ok db'
    → db'.objects ≡ db.objects
record_change-objects now db cid uri change h =
    let (c, _, e) = record_change_inv now db cid uri change h in rw e
