-- ===== src/Admin/Objects/Written.antt =====
-- internal/admin: an edit that the interface has answered with a redirect is in the database.
use edav.Base.{
  ℕ, Option, some, ◌==◌, ◌≡◌, refl, subst, sym, ap, ◌∙◌, arith, inl, inr, Bool-cases, Option-cases,
}
use edav.Base.Bytes.{Bytes, equal_iff}
use edav.Base.Rows.{select_sound}
use edav.Storage.{Result, ok, err, CollectionType, Collection, Object, Database}
use edav.Storage.Collections.{collection_by_id, same_type}
use edav.Storage.Objects.{object_by_uri, at_uri, put_object}
use edav.Storage.Integrity.{Integrity}
use edav.Storage.Integrity.Stored.{put_object-stored}
use edav.Dav.Backend.{Bounds, indexed}
use edav.Dav.Backend.ReadBack.{Tagged}
use edav.Admin.Accounts.{redirected}
use edav.Admin.Objects.{path_id, collection_of, stored, store, update_in}

collection_by_id-id :
    (db : Database) (k : ℕ) {c : Collection} → collection_by_id db k ≡ some c → c.id ≡ k
unfolding collection_by_id
collection_by_id-id db k {c} h =
    let here = select_sound (λ (r : Collection). r.id == k) db.collections h in ground (arith, here)

stored-database : {A : Type 0} (p : Database × Result A) → (stored p).0 ≡ p.0
stored-database (db, ok a) = refl
stored-database (db, err e) = refl

collection_of-collection_by_id :
    (typ : CollectionType) (db : Database) (id : Bytes) (c : Collection)
    → collection_of typ db id ≡ some c
    → collection_by_id db c.id ≡ some c
unfolding collection_of
collection_of-collection_by_id typ db id c h = elim (Option-cases (path_id id)) [
  | inl e ↦ absurd (ground arith)
  | inr (k, e) ↦ elim (Option-cases (collection_by_id db k)) [
    | inl f ↦ absurd (ground arith)
    | inr (d, f) ↦
        let at : d.id ≡ k = collection_by_id-id db k f in
        elim (Bool-cases (same_type d.type typ)) [
          | inl t ↦
              let same : d ≡ c = ground arith in
              subst (λ (x : Collection). collection_by_id db x.id ≡ some x) same
                (ap (collection_by_id db) at ∙ f)
          | inr t ↦ absurd (ground arith)
        ]
  ]
]

object_by_uri-uri :
    (db : Database) (cid : ℕ) (uri : Bytes) {o : Object}
    → object_by_uri db cid uri ≡ some o
    → o.uri ≡ uri
unfolding object_by_uri
object_by_uri-uri db cid uri {o} h =
    let here = select_sound (at_uri cid uri) db.objects h in ground (arith, equal_iff o.uri uri)

module _ (index : Bytes → Option Bounds) (etag_for : Bytes → Bytes) where
  store-redirected :
      (now : ℕ) (db : Database) (c : Collection) (uri raw : Bytes)
      → Integrity db
      → collection_by_id db c.id ≡ some c
      → Tagged etag_for db raw
      → (store index etag_for now db c uri raw).1 ≡ redirected
      → (o : Object) × (object_by_uri (store index etag_for now db c uri raw).0 c.id uri ≡ some o)
        × (o.raw ≡ raw)
  unfolding store
  store-redirected now db c uri raw w here same h = elim (Option-cases (index raw)) [
    | inl e ↦ absurd (ground arith)
    | inr (b, e) ↦
        let (o, returned, there, _, bytes) =
          put_object-stored etag_for now db (indexed c.id uri raw b) c w here (same c.id uri) in
        (
          o,
          ground (
            arith,
            e,
            stored-database (put_object etag_for now db (indexed c.id uri raw b)),
            there,
          ),
          bytes,
        )
  ]

  -- An edit that is answered with a redirect was applied to the text of the object, and is what is found
  -- at the object's name from then on.
  pub update_in-redirected :
      (typ : CollectionType) (edit : Bytes → Option Bytes) (now : ℕ) (db : Database)
      (id uri : Bytes)
      → Integrity db
      → ((raw : Bytes) → Tagged etag_for db raw)
      → (update_in index etag_for typ edit now db id uri).1 ≡ redirected
      → (c : Collection) × (old : Object) × (new : Object) × (collection_of typ db id ≡ some c)
        × (object_by_uri db c.id uri ≡ some old)
        × (object_by_uri (update_in index etag_for typ edit now db id uri).0 c.id uri ≡ some new)
        × (edit old.raw ≡ some new.raw)
  unfolding update_in
  update_in-redirected typ edit now db id uri w same h =
      elim (Option-cases (collection_of typ db id)) [
        | inl e ↦ absurd (ground arith)
        | inr (c, e) ↦ elim (Option-cases (object_by_uri db c.id uri)) [
          | inl f ↦ absurd (ground arith)
          | inr (old, f) ↦ elim (Option-cases (edit old.raw)) [
            | inl g ↦ absurd (ground arith)
            | inr (raw, g) ↦
                let name = object_by_uri-uri db c.id uri f in
                let entered : update_in index etag_for typ edit now db id uri
                    ≡ store index etag_for now db c old.uri raw =
                  ground (arith, e, f, g) in
                let (new, there, bytes) =
                  store-redirected now db c old.uri raw w
                    (collection_of-collection_by_id typ db id c e) (same raw)
                    (ap (λ r. r.1) (sym entered) ∙ h) in
                (
                  c,
                  old,
                  new,
                  e,
                  f,
                  ap (λ r. object_by_uri r.0 c.id uri) entered
                      ∙ (ap (object_by_uri (store index etag_for now db c old.uri raw).0 c.id)
                            (sym name)
                          ∙ there),
                  g ∙ ap some (sym bytes),
                )
          ]
        ]
      ]
