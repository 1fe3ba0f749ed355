-- ===== src/Dav/Backend/ReadBack.antt =====
-- internal/dav: what a client reads behind its own successful write.
use edav.Base.{
  ℕ, Bool, true, ◌&&◌, List, [], ◌∷◌, Option, some, ◌==◌, ◌≡◌, ◌⊎◌, inl, inr, refl, sym, ap, ◌∙◌,
  arith, Bool-cases, Option-cases,
}
use edav.Base.Bytes.{Bytes, equal}
use edav.Base.Rows.{select, DistinctIds, select-id_ne}
use edav.Storage.{StorageError, CollectionType, Collection, Object, User, Database}
use edav.Storage.Collections.{collection_by_uri, collection_by_id, same_type}
use edav.Storage.Objects.{object_by_uri, put_object}
use edav.Storage.Integrity.{Integrity}
use edav.Storage.Integrity.Stored.{put_object-stored}
use edav.Storage.Integrity.Places.{put_object-Place}
use edav.Dav.Paths.{Resource}
use edav.Dav.Backend.{
  Outcome, done, status, failure, and_then, resolve, collection_of_type, object_target,
  resolve_object, Bounds, StoredObject, PutOptions, check_preconditions, indexed, view, put_in,
  put_at, get_at,
}

select-by_id :
    (p : Collection → Bool) (cs : List Collection) {c : Collection}
    → DistinctIds (λ (r : Collection). r.id) cs
    → select p cs ≡ some c
    → select (λ r. r.id == c.id) cs ≡ some c
select-by_id p [] d h = ground arith
select-by_id p (r ∷ cs) {c} (n, d) h =
    ground (
      arith,
      select-id_ne (λ (q : Collection). q.id) p r.id cs {o = c},
      select-by_id p cs {c = c} d,
    )

and_then-inv :
    {A B : Type 0} (x : Outcome A) (f : A → Outcome B) {b : B}
    → and_then x f ≡ done b
    → (a : A) × (x ≡ done a) × (f a ≡ done b)
and_then-inv (done a) f h = (a, refl, h)
and_then-inv (status n) f h = absurd (ground arith)
and_then-inv (failure e) f h = absurd (ground arith)

Outcome-cases :
    {A : Type 0} (x : Outcome A)
    → ((a : A) × (x ≡ done a))
      ⊎ (((n : ℕ) × (x ≡ status n)) ⊎ ((e : StorageError) × (x ≡ failure e)))
Outcome-cases (done a) = inl (a, refl)
Outcome-cases (status n) = inr (inl (n, refl))
Outcome-cases (failure e) = inr (inr (e, refl))

collection_by_id-found :
    (db : Database) (owner : ℕ) (name : Bytes) (c : Collection)
    → DistinctIds (λ (r : Collection). r.id) db.collections
    → collection_by_uri db owner name ≡ some c
    → collection_by_id db c.id ≡ some c
unfolding collection_by_id collection_by_uri
collection_by_id-found db owner name c d h =
    select-by_id (λ r. r.owner_id == owner && equal r.uri name) db.collections d h

-- What a path of an object resolves to.
record Target (names : Resource → Option (Bytes × Bytes)) (typ : CollectionType) (prefix : Bytes)
    (db : Database) (u : Option User) (path : Bytes) (v : User) (c : Collection) (uri : Bytes)
    : Type 0 where
  resource : Resource
  name : Bytes
  resolved : resolve prefix u path ≡ done (v, resource)
  named : names resource ≡ some (name, uri)
  found : collection_by_uri db v.id name ≡ some c
  typed : same_type c.type typ ≡ true

module _ (names : Resource → Option (Bytes × Bytes)) (typ : CollectionType) (prefix : Bytes)
    (db : Database) (u : Option User) (path : Bytes) where
  Target-resolve :
      (wrong : ℕ) (v : User) (c : Collection) (uri : Bytes)
      → Target names typ prefix db u path v c uri
      → resolve_object names typ prefix db u path wrong ≡ done (v, c, uri)
  unfolding resolve_object object_target collection_of_type
  Target-resolve wrong v c uri t = ground (arith, t.resolved, t.named, t.found, t.typed)

  Target-at :
      (wrong : ℕ) (w v : User) (r : Resource) {c : Collection} {uri : Bytes}
      → resolve prefix u path ≡ done (w, r)
      → object_target names typ db wrong w r ≡ done (v, c, uri)
      → Target names typ prefix db u path v c uri
  unfolding object_target collection_of_type
  Target-at wrong w v r {c} {uri} e h = elim (Option-cases (names r)) [
    | inl n ↦ absurd (ground arith)
    | inr ((name, o), n) ↦ elim (Option-cases (collection_by_uri db w.id name)) [
      | inl f ↦ absurd (ground arith)
      | inr (d, f) ↦ elim (Bool-cases (same_type d.type typ)) [
        | inr t ↦ absurd (ground arith)
        | inl t ↦
            let same : (w ≡ v) × (d ≡ c) × (o ≡ uri) = ground arith in
            record {
              resource = r;
              name = name;
              resolved = e ∙ ap (λ z. done (z, r)) same.0;
              named = n ∙ ap (λ z. some (name, z)) same.2;
              found = ground (arith, f, same);
              typed = ground (arith, t, same);
            }
      ]
    ]
  ]

  resolve-Target :
      (wrong : ℕ) {v : User} {c : Collection} {uri : Bytes}
      → resolve_object names typ prefix db u path wrong ≡ done (v, c, uri)
      → Target names typ prefix db u path v c uri
  unfolding resolve_object
  resolve-Target wrong {v} {c} {uri} h =
      let ((w, r), e, k) = and_then-inv (resolve prefix u path) _ h in Target-at wrong w v r e k

-- An object that is stored under the tag of the bytes has the bytes.
abbrev pub Tagged : (Bytes → Bytes) → Database → Bytes → Type 0
Tagged etag_for db raw =
    (cid : ℕ) (uri : Bytes) (o : Object)
    → object_by_uri db cid uri ≡ some o
    → o.etag ≡ etag_for raw
    → o.raw ≡ raw

module _ (names : Resource → Option (Bytes × Bytes)) (typ : CollectionType)
    (object_path : Bytes → Bytes → Bytes → Bytes → Bytes) (parse_etag : Bytes → Option Bytes)
    (index : Bytes → Option Bounds) (etag_for : Bytes → Bytes) where
  put_in-stored :
      (prefix : Bytes) (now : ℕ) (db : Database) (v : User) (c : Collection) (uri : Bytes)
      (existing : Option Object) (raw : Bytes) (opts : Option PutOptions) {s : StoredObject}
      → Integrity db
      → collection_by_id db c.id ≡ some c
      → Tagged etag_for db raw
      → (put_in object_path parse_etag index etag_for prefix now db v c uri existing raw opts).1
        ≡ done s
      → (b : Bounds) × (o : Object) × ((put_in object_path parse_etag index etag_for prefix now db v
            c uri existing raw opts).0
          ≡ (put_object etag_for now db (indexed c.id uri raw b)).0)
        × (object_by_uri (put_object etag_for now db (indexed c.id uri raw b)).0 c.id uri ≡ some o)
        × (s ≡ view object_path prefix v.username c o)
        × (s.raw ≡ raw)
  unfolding put_in view
  put_in-stored prefix now db v c uri existing raw opts {s} w h same k =
      elim (Option-cases (check_preconditions parse_etag opts existing)) [
        | inr (n, e) ↦ absurd (ground arith)
        | inl e ↦ elim (Option-cases (index raw)) [
          | inl n ↦ absurd (ground arith)
          | inr (b, i) ↦
              let (o, returned, there, _, bytes) =
                put_object-stored etag_for now db (indexed c.id uri raw b) c w h (same c.id uri) in
              (b, o, ground arith, there, ground arith, ground arith)
        ]
      ]

  get_at-read :
      (prefix : Bytes) (db : Database) (u : Option User) (path : Bytes) (v : User)
      (c c' : Collection) (uri : Bytes) (o : Object)
      → resolve_object names typ prefix db u path 404 ≡ done (v, c', uri)
      → c'.id ≡ c.id
      → c'.uri ≡ c.uri
      → object_by_uri db c.id uri ≡ some o
      → get_at names typ object_path prefix db u path
        ≡ done (view object_path prefix v.username c o)
  unfolding get_at view
  get_at-read prefix db u path v c c' uri o r i n h = ground (arith, r, i, n, h)

  -- In a database with its keys and references, what a put has answered is what a get of the same path by
  -- the same user answers next, and it has the bytes that were put, if whatever is stored under their tag
  -- has those bytes.
  pub put_at-get_at :
      (prefix : Bytes) (now : ℕ) (db : Database) (u : Option User) (path raw : Bytes)
      (opts : Option PutOptions) {s : StoredObject}
      → Integrity db
      → Tagged etag_for db raw
      → (put_at names typ object_path parse_etag index etag_for prefix now db u path raw opts).1
        ≡ done s
      → (get_at names typ object_path prefix
            (put_at names typ object_path parse_etag index etag_for prefix now db u path raw opts).0
            u
            path
          ≡ done s)
        × (s.raw ≡ raw)
  unfolding put_at
  put_at-get_at prefix now db u path raw opts {s} w same h =
      elim (Outcome-cases (resolve_object names typ prefix db u path 403)) [
        | inr (inl (n, e)) ↦ absurd (ground arith)
        | inr (inr (x, e)) ↦ absurd (ground arith)
        | inl ((v, c, uri), e) ↦
            let t = resolve-Target names typ prefix db u path 403 e in
            let here = collection_by_id-found db v.id t.name c w.collection_ids t.found in
            let existing = object_by_uri db c.id uri in
            let entered : put_at names typ object_path parse_etag index etag_for prefix now db u
                  path raw opts
                ≡ put_in object_path parse_etag index etag_for prefix now db v c uri existing raw
                    opts =
              ground (arith, e) in
            let (b, o, written, there, answered, bytes) =
              put_in-stored prefix now db v c uri existing raw opts {s = s} w here same
                (ap (λ r. r.1) (sym entered) ∙ h) in
            let obj = indexed c.id uri raw b in
            let p = put_object-Place v.id t.name etag_for now db obj t.found in
            let read =
              Target-resolve names typ prefix (put_object etag_for now db obj).0 u path 404 v
                p.now_there uri
                (record {
                  resource = t.resource;
                  name = t.name;
                  resolved = t.resolved;
                  named = t.named;
                  found = p.is_there;
                  typed = ap (λ x. same_type x typ) p.same_type ∙ t.typed;
                }) in
            (
              rw (entered, written)
                  (get_at-read prefix (put_object etag_for now db obj).0 u path v c p.now_there uri
                      o read p.same_id p.same_uri there
                    ∙ ap done (sym answered)),
              bytes,
            )
      ]
