-- ===== src/Admin/Collections/Derived.antt =====
-- internal/admin/collections.go: a collection whose URL is derived from its name.
use edav.Base.{
  ℕ, zero, suc, true, false, ◌&&◌, [], ◌∷◌, ◌++◌, none, some, ◌==◌, any, ◌≡◌, ◌≢◌, ◌⊎◌, inl, inr,
  refl, sym, ap, ◌∙◌, arith, All, Option-cases,
}
use edav.Base.Bytes.{Bytes, equal, equal_self}
use edav.Base.Decimal.{format_int, Digit, format_int-Digit}
use edav.Base.Keys.{select-none}
use edav.Base.Rows.{select, select-append, any-select_id, next_id}
use edav.Base.Time.{trim_space}
use edav.Storage.{ok, Collection, User, Database}
use edav.Storage.Users.{user_by_id}
use edav.Storage.Collections.{
  is_empty, is_known, collection_by_uri, create_collection, new_collection,
}
use edav.Admin.Slugs.{
  is_lower_or_digit, is_upper, is_mark, all_slug, matches_slug, slugify, numbered, free_loop,
  free_rounds, free_slug,
}
use edav.Admin.Slugs.Free.{Taken, free_slug-free}
use edav.Admin.Slugs.Matches.{slugify-matches}
use edav.Admin.Accounts.{replied, redirected}
use edav.Admin.Objects.{path_id}
use edav.Admin.Collections.{
  CollectionForm, user_at, collection_type, asked_slug, given_slug, asked_collection, create_for,
}

all_slug-append : (s t : Bytes) → all_slug s ≡ true → all_slug t ≡ true → all_slug (s ++ t) ≡ true
unfolding all_slug
all_slug-append [] t h k = k
all_slug-append (c ∷ s) t h k = ground (arith, all_slug-append s t)

all_slug-digits : (s : Bytes) → All Digit s → all_slug s ≡ true
unfolding all_slug is_lower_or_digit
all_slug-digits [] h = refl
all_slug-digits (c ∷ s) (d, h) = ground (arith, d, all_slug-digits s h)

matches-numbered :
    (slug : Bytes) (n : ℕ) → matches_slug slug ≡ true → matches_slug (numbered slug n) ≡ true
unfolding matches_slug numbered
matches-numbered [] n h = h
matches-numbered (c ∷ s) n h =
    let dashed : all_slug (b'-' ∷ format_int n) ≡ true =
      unfold all_slug is_lower_or_digit is_upper is_mark in
      all_slug-digits (format_int n) (format_int-Digit n) in
    ground (arith, all_slug-append s (b'-' ∷ format_int n), dashed)

matches-free_loop :
    (rounds : ℕ) (db : Database) (owner : ℕ) (slug candidate : Bytes) (n : ℕ)
    → matches_slug slug ≡ true
    → matches_slug candidate ≡ true
    → matches_slug (free_loop rounds db owner slug candidate n) ≡ true
unfolding free_loop
matches-free_loop zero db owner slug candidate n h k = k
matches-free_loop (suc rounds) db owner slug candidate n h k =
    elim (Option-cases (collection_by_uri db owner candidate)) [
      | inl e ↦ rw (e, free_loop) k
      | inr (c, e) ↦
          rw (e, free_loop)
            (matches-free_loop rounds db owner slug (numbered slug n) (suc n) h
              (matches-numbered slug n h))
    ]

-- The row that a collection is made as.
abbrev made : ℕ → Database → Collection → Collection
made now db c = new_collection (next_id (λ (r : Collection). r.id) db.collections) now c

create_collection-made :
    (now : ℕ) (db : Database) (c : Collection)
    → is_known c.type ≡ true
    → is_empty c.uri ≡ false
    → collection_by_uri db c.owner_id c.uri ≡ none
    → any (λ (u : User). u.id == c.owner_id) db.users ≡ true
    → create_collection now db c
      ≡ (record db { collections = db.collections ++ made now db c ∷ [] }, ok (made now db c))
unfolding create_collection collection_by_uri
create_collection-made now db c known named free owned = ground (
  arith,
  select-none (λ (r : Collection). r.owner_id == c.owner_id && equal r.uri c.uri) db.collections
      free,
)

create_collection-found :
    (now : ℕ) (db : Database) (c : Collection)
    → is_known c.type ≡ true
    → is_empty c.uri ≡ false
    → collection_by_uri db c.owner_id c.uri ≡ none
    → any (λ (u : User). u.id == c.owner_id) db.users ≡ true
    → collection_by_uri (create_collection now db c).0 c.owner_id c.uri ≡ some (made now db c)
unfolding collection_by_uri
create_collection-found now db c known named free owned =
    let p = λ (r : Collection). r.owner_id == c.owner_id && equal r.uri c.uri in
    ap (λ r. select p r.0.collections) (create_collection-made now db c known named free owned)
    ∙ ground (arith, select-append p db.collections (made now db c ∷ []), free, equal_self c.uri)

matches-named : (slug : Bytes) → matches_slug slug ≡ true → is_empty slug ≡ false
unfolding matches_slug
matches-named [] h = absurd (ground arith)
matches-named (c ∷ s) h = refl

user_at-owner :
    (db : Database) (id : Bytes) (u : User)
    → user_at db id ≡ some u
    → any (λ (v : User). v.id == u.id) db.users ≡ true
unfolding user_at user_by_id
user_at-owner db id u h = elim (Option-cases (path_id id)) [
  | inl e ↦ absurd (ground arith)
  | inr (k, e) ↦
      any-select_id (λ (v : User). v.id) (λ v. v.id == k) db.users {o = u} (ground (arith, h, e))
]

matches-free_slug :
    (db : Database) (owner : ℕ) (slug : Bytes)
    → matches_slug slug ≡ true
    → matches_slug (free_slug db owner slug) ≡ true
unfolding free_slug
matches-free_slug db owner slug h = matches-free_loop free_rounds db owner slug slug 2 h h

asked-derived :
    (form : CollectionForm)
    → trim_space form.uri ≡ []
    → asked_slug form ≡ slugify (trim_space form.display_name)
unfolding asked_slug
asked-derived form blank = ground (arith, blank)

given-derived :
    (db : Database) (owner : ℕ) (form : CollectionForm)
    → trim_space form.uri ≡ []
    → given_slug db owner form ≡ free_slug db owner (slugify (trim_space form.display_name))
unfolding given_slug asked_slug
given-derived db owner form blank = ground (arith, blank)

-- A collection of one of the two types, whose URL is left blank and whose name gives a slug, is made for the
-- user of the path, unless the slug and its numbers from 2 to 98 all have a collection of that user: it is
-- found under a slug that the pattern accepts, with the name and the type of the form.
pub create_for-derived :
    (now : ℕ) (db : Database) (id : Bytes) (form : CollectionForm) (u : User)
    → user_at db id ≡ some u
    → is_known (collection_type form.type) ≡ true
    → trim_space form.uri ≡ []
    → slugify (trim_space form.display_name) ≢ []
    → Taken db u.id
        (slugify (trim_space form.display_name))
        (slugify (trim_space form.display_name))
        2
        free_rounds
      ⊎ ((c : Collection) × ((create_for now db id form).1 ≡ redirected)
          × (matches_slug c.uri ≡ true)
          × (collection_by_uri (create_for now db id form).0 u.id c.uri ≡ some c)
          × (c.display_name ≡ trim_space form.display_name)
          × (c.type ≡ collection_type form.type))
unfolding create_for
create_for-derived now db id form u known typ blank named =
    let slug = slugify (trim_space form.display_name) in
    let c = asked_collection db u form in
    elim (slugify-matches (trim_space form.display_name)) [
      | inl e ↦ absurd (named e)
      | inr fits ↦ elim (free_slug-free db u.id slug) [
        | inr taken ↦ inl taken
        | inl free ↦
            let derived = given-derived db u.id form blank in
            let good = ap matches_slug derived ∙ matches-free_slug db u.id slug fits in
            let empty = ap (collection_by_uri db u.id) derived ∙ free in
            let owned = user_at-owner db id u known in
            let filled = matches-named c.uri good in
            let made_as = create_collection-made now db c typ filled empty owned in
            let entered : create_for now db id form ≡ replied (create_collection now db c) =
              ground (arith, known, typ, asked-derived form blank, fits) in
            inr (
              made now db c,
              ap (λ r. r.1) entered ∙ ap (λ r. (replied r).1) made_as,
              good,
              ap (λ r. collection_by_uri r.0 u.id c.uri) (entered ∙ ap replied made_as)
                  ∙ (sym (ap (λ r. collection_by_uri r.0 u.id c.uri) made_as)
                      ∙ create_collection-found now db c typ filled empty owned),
              refl,
              refl,
            )
      ]
    ]
