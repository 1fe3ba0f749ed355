-- ===== src/Storage/Integrity/Rows.antt =====
-- internal/storage/users.go, collections.go and sessions.go: every write keeps the keys and the references.
use edav.Base.{◌≤◌, ℕ, Bool, true, false, ◌&&◌, [], ◌∷◌, ◌++◌, ◌==◌, any, ◌≡◌, refl, arith}
use edav.Base.Rows.{
  update, delete, next_id, DistinctIds-delete, DistinctIds-update, DistinctIds-insert,
}
use edav.Base.Keys.{
  Distinct-delete, Distinct-snoc, Distinct-update, Refers-parents, Refers-delete, Refers-cascade,
  Refers-snoc, Refers-update, any-update, any-snoc, any-delete_other, any_none, any_weaker,
}
use edav.Storage.{Collection, Object, Database}
use edav.Storage.Collections.{
  create_collection, update_collection, delete_collection, new_collection,
}
use edav.Storage.Integrity.{
  same_place, same_uri, same_seq, owned_by, in_collection, counted_by, Integrity,
}

inserted_collection :
    (db : Database) (row : Collection)
    → row.id ≡ next_id (λ (r : Collection). r.id) db.collections
    → any (λ r. same_place r row) db.collections ≡ false
    → any (owned_by row) db.users ≡ true
    → Integrity db
    → Integrity (record db { collections = db.collections ++ row ∷ [] })
inserted_collection db row e free here w = record {
  user_ids = w.user_ids;
  usernames = w.usernames;
  collection_ids =
      DistinctIds-insert (λ (r : Collection). r.id) db.collections row e w.collection_ids;
  places = Distinct-snoc same_place db.collections row free w.places;
  owners = Refers-snoc owned_by db.users db.collections row here w.owners;
  object_ids = w.object_ids;
  uris = w.uris;
  collections =
      Refers-parents in_collection db.collections (db.collections ++ row ∷ [])
        (λ o. any-snoc (in_collection o) db.collections row) db.objects w.collections;
  numbers = w.numbers;
  counts =
      Refers-parents counted_by db.collections (db.collections ++ row ∷ [])
        (λ ch. any-snoc (counted_by ch) db.collections row) db.changes w.counts;
  tokens = w.tokens;
  accounts = w.accounts;
}

pub create_collection-Integrity :
    (now : ℕ) (db : Database) (c : Collection)
    → Integrity db
    → Integrity (create_collection now db c).0
unfolding create_collection
create_collection-Integrity now db c w =
    let row = new_collection (next_id (λ (r : Collection). r.id) db.collections) now c in
    ground (arith, w, inserted_collection db row refl)

-- A write to rows of collections that leaves their keys alone and does not take back a number.
pub updated_collections :
    (db : Database) (q : Collection → Bool) (f : Collection → Collection)
    → ((c : Collection) → (f c).id ≡ c.id)
    → ((c : Collection) → (f c).owner_id ≡ c.owner_id)
    → ((c : Collection) → (f c).uri ≡ c.uri)
    → ((c : Collection) → c.sync_seq ≤ (f c).sync_seq)
    → Integrity db
    → Integrity (record db { collections = update q f db.collections })
updated_collections db q f i o u l w = record {
  user_ids = w.user_ids;
  usernames = w.usernames;
  collection_ids =
      DistinctIds-update (λ (r : Collection). r.id) q f i db.collections w.collection_ids;
  places =
      Distinct-update same_place q f (λ r s. rw (o s, u s) refl) (λ r s. rw (o r, u r) refl)
        db.collections w.places;
  owners = Refers-update owned_by db.users q f (λ c a. rw (o c) refl) db.collections w.owners;
  object_ids = w.object_ids;
  uris = w.uris;
  collections =
      Refers-parents in_collection db.collections (update q f db.collections)
        (λ b. any-update (in_collection b) q f (λ c e. rw (i c) e) db.collections) db.objects
        w.collections;
  numbers = w.numbers;
  counts =
      Refers-parents counted_by db.collections (update q f db.collections)
        (λ b. any-update (counted_by b) q f (λ c e. ground (arith, i c, l c)) db.collections)
        db.changes w.counts;
  tokens = w.tokens;
  accounts = w.accounts;
}

pub update_collection-Integrity :
    (now : ℕ) (db : Database) (c : Collection)
    → Integrity db
    → Integrity (update_collection now db c).0
unfolding update_collection
update_collection-Integrity now db c w = ground (
  arith,
  w,
  updated_collections db (λ r. r.id == c.id)
      (λ r. record r {
        display_name = c.display_name;
        description = c.description;
        color = c.color;
        timezone = c.timezone;
        updated_at = now;
      })
      (λ _. refl) (λ _. refl) (λ _. refl) (λ _. omega arith) w,
)

-- Collections that go, with all that is in them: `q` tells which go by their id.
pub removed_collections :
    (db : Database) (p : Collection → Bool) (q : ℕ → Bool)
    → ((k : ℕ) → q k ≡ false → any (λ c. p c && c.id == k) db.collections ≡ false)
    → Integrity db
    → Integrity (record db {
      collections = delete p db.collections;
      objects = delete (λ o. q o.collection_id) db.objects;
      changes = delete (λ ch. q ch.collection_id) db.changes;
    })
removed_collections db p q h w = record {
  user_ids = w.user_ids;
  usernames = w.usernames;
  collection_ids = DistinctIds-delete (λ (r : Collection). r.id) p db.collections w.collection_ids;
  places = Distinct-delete same_place p db.collections w.places;
  owners = Refers-delete owned_by db.users p db.collections w.owners;
  object_ids =
      DistinctIds-delete (λ (r : Object). r.id) (λ o. q o.collection_id) db.objects w.object_ids;
  uris = Distinct-delete same_uri (λ o. q o.collection_id) db.objects w.uris;
  collections =
      Refers-cascade in_collection db.collections (delete p db.collections) (λ o. q o.collection_id)
        (λ o e. any-delete_other (in_collection o) p db.collections (h o.collection_id e))
        db.objects w.collections;
  numbers = Distinct-delete same_seq (λ ch. q ch.collection_id) db.changes w.numbers;
  counts =
      Refers-cascade counted_by db.collections (delete p db.collections) (λ ch. q ch.collection_id)
        (λ ch e. any-delete_other (counted_by ch) p db.collections (
          any_weaker (λ c. p c && c.id == ch.collection_id) (λ c. p c && counted_by ch c)
            (λ c n. ground arith) db.collections (h ch.collection_id e)))
        db.changes w.counts;
  tokens = w.tokens;
  accounts = w.accounts;
}

pub delete_collection-Integrity :
    (db : Database) (id : ℕ) → Integrity db → Integrity (delete_collection db id).0
unfolding delete_collection
delete_collection-Integrity db id w = ground (
  arith,
  w,
  removed_collections db (λ c. c.id == id) (λ k. k == id)
      (λ k e.
        any_none (λ (c : Collection). c.id == id && c.id == k) (λ c. ground arith) db.collections)
      w,
)
