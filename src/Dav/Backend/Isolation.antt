-- ===== src/Dav/Backend/Isolation.antt =====
-- internal/dav: what the shared operations of the backends do to the objects of other accounts.
use edav.Base.{
  ℕ, Bool, true, false, ◌&&◌, List, [], ◌∷◌, Option, none, some, ◌==◌, any, ◌≡◌, inl, inr, refl, ap,
  ◌∙◌, arith, Option-cases,
}
use edav.Base.Bytes.{Bytes, equal}
use edav.Base.Rows.{select, select_sound, select-delete_ne}
use edav.Storage.{CollectionType, Collection, Object, User, Database}
use edav.Storage.Collections.{collection_by_uri, delete_collection}
use edav.Storage.Objects.{object_by_uri, put_object, delete_object, at_uri}
use edav.Storage.Users.{is_owned}
use edav.Storage.History.{ObjectIds, Change, put_object-Change, delete_object-Change}
use edav.Dav.Paths.{Resource}
use edav.Dav.Backend.{
  Outcome, done, status, failure, not_found_if_missing, resolve, collection_of_type, object_target,
  resolve_object, Bounds, StoredObject, PutOptions, check_preconditions, indexed, put_in, put_at,
  delete_at,
}

select-any :
    {A : Type 0} (p q : A → Bool) (rs : List A) {r : A}
    → select p rs ≡ some r
    → any q rs ≡ false
    → q r ≡ false
select-any p q [] h n = absurd (ground arith)
select-any p q (s ∷ rs) {r} h n = ground (arith, select-any p q rs {r = r})

-- The collection is the user's own, so it is none of the others.
module _ (db : Database) (owner cid' : ℕ) (foreign : is_owned db owner cid' ≡ false) where
  pub collection_of_type-ne :
      (uri : Bytes) (typ : CollectionType) {c : Collection}
      → collection_of_type db owner uri typ ≡ done c
      → (c.id == cid') ≡ false
  unfolding collection_of_type collection_by_uri
  collection_of_type-ne uri typ {c} h =
      let p = λ (r : Collection). r.owner_id == owner && equal r.uri uri in
      let q = λ (r : Collection). r.owner_id == owner && r.id == cid' in
      elim (Option-cases (select p db.collections)) [
        | inl e ↦ absurd (ground arith)
        | inr (r, e) ↦
            let same : r ≡ c = ground arith in
            let mine : p r ≡ true = select_sound p db.collections e in
            let other : q r ≡ false = select-any p q db.collections e foreign in
            ground (arith, mine, other, same)
      ]

  pub delete_collection-ne :
      (cid : ℕ) (uri' : Bytes)
      → (cid == cid') ≡ false
      → object_by_uri (delete_collection db cid).0 cid' uri' ≡ object_by_uri db cid' uri'
  unfolding delete_collection object_by_uri
  delete_collection-ne cid uri' n =
      let p = at_uri cid' uri' in
      ground (
        arith,
        select-delete_ne p (λ (o : Object). o.collection_id == cid) (λ o h. ground arith)
            db.objects,
      )

pub Change-ne :
    (db db' : Database) (cid cid' : ℕ) (uri uri' : Bytes)
    → Change cid uri db db'
    → (cid == cid') ≡ false
    → object_by_uri db' cid' uri' ≡ object_by_uri db cid' uri'
Change-ne db db' cid cid' uri uri' (d, inl e) n = rw e refl
Change-ne db db' cid cid' uri uri' (d, inr w) n = w.others cid' uri' (ground arith)

pub resolve-user :
    (prefix path : Bytes) (v w : User) {r : Resource}
    → resolve prefix (some v) path ≡ done (w, r)
    → w ≡ v
unfolding resolve
resolve-user prefix path v w h = ground arith

module _ (names : Resource → Option (Bytes × Bytes)) (typ : CollectionType) where
  object_target-inv :
      (db : Database) (wrong : ℕ) (v w : User) (r : Resource) {c : Collection} {o : Bytes}
      → object_target names typ db wrong v r ≡ done (w, c, o)
      → (w ≡ v) × (uri : Bytes) × (collection_of_type db v.id uri typ ≡ done c)
  unfolding object_target
  object_target-inv db wrong v w r {c} {o} h = elim (Option-cases (names r)) [
    | inl e ↦ absurd (ground arith)
    | inr ((uri, object), e) ↦ go (collection_of_type db v.id uri typ) uri object e refl
  ]
    where
      go :
          (x : Outcome Collection) (uri object : Bytes)
          → names r ≡ some (uri, object)
          → collection_of_type db v.id uri typ ≡ x
          → (w ≡ v) × (uri : Bytes) × (collection_of_type db v.id uri typ ≡ done c)
      go (done d) uri object e f =
          let same : (v ≡ w) × (d ≡ c) = ground arith in
          (ground (arith, same), uri, f ∙ ap done same.1)
      go (status n) uri object e f = absurd (ground arith)
      go (failure n) uri object e f = absurd (ground arith)

  -- A path that names an object is resolved to a collection of the user.
  pub resolve_object-inv :
      (prefix : Bytes) (db : Database) (v : User) (path : Bytes) (wrong : ℕ) {w : User}
      {c : Collection} {o : Bytes}
      → resolve_object names typ prefix db (some v) path wrong ≡ done (w, c, o)
      → (w ≡ v) × (uri : Bytes) × (collection_of_type db v.id uri typ ≡ done c)
  unfolding resolve_object
  resolve_object-inv prefix db v path wrong {w} {c} {o} h = go (resolve prefix (some v) path) refl
    where
      go :
          (x : Outcome (User × Resource))
          → resolve prefix (some v) path ≡ x
          → (w ≡ v) × (uri : Bytes) × (collection_of_type db v.id uri typ ≡ done c)
      go (done (t, r)) e =
          let same = resolve-user prefix path v t {r = r} e in
          let told = object_target-inv db wrong t w r {c = c} {o = o} (ground (arith, e)) in
          (told.0 ∙ same, told.1, rw (← same) told.2)
      go (status n) e = absurd (ground arith)
      go (failure n) e = absurd (ground arith)

  resolve_object-ne :
      (prefix : Bytes) (db : Database) (v : User) (path : Bytes) (wrong cid' : ℕ) {w : User}
      {c : Collection} {o : Bytes}
      → is_owned db v.id cid' ≡ false
      → resolve_object names typ prefix db (some v) path wrong ≡ done (w, c, o)
      → (c.id == cid') ≡ false
  resolve_object-ne prefix db v path wrong cid' {w} {c} {o} foreign h =
      let (same, uri, e) = resolve_object-inv prefix db v path wrong {w = w} {c = c} {o = o} h in
      collection_of_type-ne db v.id cid' foreign uri typ {c = c} e

  pub delete_at-ne :
      (prefix : Bytes) (now : ℕ) (db : Database) (v : User) (path : Bytes) (cid' : ℕ) (uri' : Bytes)
      → ObjectIds db
      → is_owned db v.id cid' ≡ false
      → object_by_uri (delete_at names typ prefix now db (some v) path).0 cid' uri'
        ≡ object_by_uri db cid' uri'
  unfolding delete_at
  delete_at-ne prefix now db v path cid' uri' ids foreign =
      go (resolve_object names typ prefix db (some v) path 403) refl
    where
      go :
          (x : Outcome (User × Collection × Bytes))
          → resolve_object names typ prefix db (some v) path 403 ≡ x
          → object_by_uri
              (elim x as (λ _. Database × Outcome (Unit {0})) [
                | done t ↦ (
                  (delete_object now db t.1.id t.2).0,
                  not_found_if_missing (delete_object now db t.1.id t.2).1,
                )
                | status n ↦ (db, status n)
                | failure e ↦ (db, failure e)
              ]).0
              cid'
              uri'
            ≡ object_by_uri db cid' uri'
      go (done (w, c, o)) e =
          Change-ne db _ c.id cid' o uri' (delete_object-Change now db c.id o ids)
            (resolve_object-ne prefix db v path 403 cid' {w = w} {c = c} {o = o} foreign e)
      go (status n) e = refl
      go (failure n) e = refl

module _ (object_path : Bytes → Bytes → Bytes → Bytes → Bytes) (parse_etag : Bytes → Option Bytes)
    (index : Bytes → Option Bounds) (etag_for : Bytes → Bytes) where
  module _ (prefix : Bytes) (now : ℕ) (db : Database) (u : User) (c : Collection) (uri : Bytes)
      (existing : Option Object) (raw : Bytes) (opts : Option PutOptions) where
    abbrev after : Database
    after = (put_in object_path parse_etag index etag_for prefix now db u c uri existing raw opts).0

    put_in-kept :
        ((k : ℕ) → check_preconditions parse_etag opts existing ≡ some k → after ≡ db)
        × (index raw ≡ none → after ≡ db)
    unfolding put_in
    put_in-kept = ((λ k e. ground (arith, e)), (λ e. ground (arith, e)))

    put_in-stored :
        {b : Bounds}
        → check_preconditions parse_etag opts existing ≡ none
        → index raw ≡ some b
        → after ≡ (put_object etag_for now db (indexed c.id uri raw b)).0
    unfolding put_in
    put_in-stored {b} e f = ground (arith, e, f)

    -- A write is refused, or is one `PutObject`.
    pub put_in-Change : ObjectIds db → Change c.id uri db after
    put_in-Change ids = elim (Option-cases (check_preconditions parse_etag opts existing)) [
      | inr (k, e) ↦ rw (put_in-kept.0 k e) (ids, inl refl)
      | inl e ↦ elim (Option-cases (index raw)) [
        | inl f ↦ rw (put_in-kept.1 f) (ids, inl refl)
        | inr (b, f) ↦
            rw (put_in-stored {b = b} e f)
              (put_object-Change etag_for now db (indexed c.id uri raw b) ids)
      ]
    ]

  module _ (names : Resource → Option (Bytes × Bytes)) (typ : CollectionType) where
    pub put_at-ne :
        (prefix : Bytes) (now : ℕ) (db : Database) (v : User) (path raw : Bytes)
        (opts : Option PutOptions) (cid' : ℕ) (uri' : Bytes)
        → ObjectIds db
        → is_owned db v.id cid' ≡ false
        → object_by_uri
            (put_at names typ object_path parse_etag index etag_for prefix now db
              (some v)
              path
              raw
              opts).0
            cid'
            uri'
          ≡ object_by_uri db cid' uri'
    unfolding put_at
    put_at-ne prefix now db v path raw opts cid' uri' ids foreign =
        go (resolve_object names typ prefix db (some v) path 403) refl
      where
        go :
            (x : Outcome (User × Collection × Bytes))
            → resolve_object names typ prefix db (some v) path 403 ≡ x
            → object_by_uri
                (elim x as (λ _. Database × Outcome StoredObject) [
                  | done t ↦
                      put_in object_path parse_etag index etag_for prefix now db t.0 t.1 t.2
                        (object_by_uri db t.1.id t.2)
                        raw
                        opts
                  | status n ↦ (db, status n)
                  | failure e ↦ (db, failure e)
                ]).0
                cid'
                uri'
              ≡ object_by_uri db cid' uri'
        go (done (w, c, o)) e =
            Change-ne db _ c.id cid' o uri'
              (put_in-Change prefix now db w c o (object_by_uri db c.id o) raw opts ids)
              (resolve_object-ne names typ prefix db v path 403 cid' {w = w} {c = c} {o = o} foreign
                e)
        go (status n) e = refl
        go (failure n) e = refl
