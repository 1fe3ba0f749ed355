-- ===== src/Base/Keys.antt =====
-- What the schema of a database promises: keys that no two rows share, and references to rows that exist.
use Prim.Native.Nat.{ℕ}
use mathlib.Core.Path.{◌≡◌, refl}
use mathlib.Core.Bool.{Bool, true, false, not, ◌&&◌}
use mathlib.Core.List.{List, [], ◌∷◌, ◌++◌}
use native.Mathlib.Omega.{arith}
use mathlib.Core.Option.{none, some}
use edav.Base.Tests.{◌==◌}
use edav.Base.Lists.{any}
use edav.Base.Rows.{
  select, update, delete, any-delete_le, DistinctIds, any-delete_le, any-append, any_congr,
  update_absent,
}

-- A unique index: `same` tells whether two rows have the same key.
module _ {A : Type 0} (same : A → A → Bool) where
  abbrev pub Distinct : List A → Type 0
  Distinct [] = Unit
  Distinct (r ∷ rs) = (any (same r) rs ≡ false) × Distinct rs

  pub Distinct-delete : (q : A → Bool) (rs : List A) → Distinct rs → Distinct (delete q rs)
  Distinct-delete q [] h = tt
  Distinct-delete q (r ∷ rs) (h, t) =
      ground (arith, Distinct-delete q rs t, any-delete_le (same r) q rs h)

  pub Distinct-snoc :
      (rs : List A) (r : A) → any (λ s. same s r) rs ≡ false → Distinct rs → Distinct (rs ++ r ∷ [])
  Distinct-snoc [] r h d = (refl, tt)
  Distinct-snoc (s ∷ rs) r h (e, d) =
      ground (arith, Distinct-snoc rs r, any-append (same s) rs (r ∷ []))

  any-update_key :
      (q : A → Bool) (f : A → A)
      → ((r s : A) → same r (f s) ≡ same r s)
      → (r : A) (rs : List A) → any (same r) (update q f rs) ≡ any (same r) rs
  any-update_key q f h r [] = refl
  any-update_key q f h r (s ∷ rs) = ground (arith, h r s, any-update_key q f h r rs)

  -- A write that leaves the key alone.
  pub Distinct-update :
      (q : A → Bool) (f : A → A)
      → ((r s : A) → same r (f s) ≡ same r s)
      → ((r s : A) → same (f r) s ≡ same r s)
      → (rs : List A) → Distinct rs
      → Distinct (update q f rs)
  Distinct-update q f h k [] d = tt
  Distinct-update q f h k (r ∷ rs) (e, d) = ground (
    arith,
    k r r,
    Distinct-update q f h k rs d,
    any-update_key q f h r rs,
    any-update_key q f h (f r) rs,
    any_congr (same (f r)) (same r) (k r) rs,
  )

-- A foreign key: `links b a` tells whether the row `b` refers to the row `a`.
module _ {A B : Type 0} (links : B → A → Bool) where
  abbrev pub Refers : List A → List B → Type 0
  Refers ps [] = Unit
  Refers ps (b ∷ bs) = (any (links b) ps ≡ true) × Refers ps bs

  pub Refers-parents :
      (ps ps' : List A)
      → ((b : B) → any (links b) ps ≡ true → any (links b) ps' ≡ true)
      → (bs : List B) → Refers ps bs
      → Refers ps' bs
  Refers-parents ps ps' h [] t = tt
  Refers-parents ps ps' h (b ∷ bs) (e, t) = (h b e, Refers-parents ps ps' h bs t)

  pub Refers-delete :
      (ps : List A) (q : B → Bool) (bs : List B) → Refers ps bs → Refers ps (delete q bs)
  Refers-delete ps q [] t = tt
  Refers-delete ps q (b ∷ bs) (e, t) = ground (arith, Refers-delete ps q bs t)

  -- `ON DELETE CASCADE`: what stays has what it refers to, if `q` takes all that loses it.
  pub Refers-cascade :
      (ps ps' : List A) (q : B → Bool)
      → ((b : B) → q b ≡ false → any (links b) ps ≡ true → any (links b) ps' ≡ true)
      → (bs : List B) → Refers ps bs
      → Refers ps' (delete q bs)
  Refers-cascade ps ps' q h [] t = tt
  Refers-cascade ps ps' q h (b ∷ bs) (e, t) = ground (arith, h b, Refers-cascade ps ps' q h bs t)

  pub Refers-snoc :
      (ps : List A) (bs : List B) (b : B)
      → any (links b) ps ≡ true
      → Refers ps bs
      → Refers ps (bs ++ b ∷ [])
  Refers-snoc ps [] b e t = (e, tt)
  Refers-snoc ps (c ∷ bs) b e (d, t) = (d, Refers-snoc ps bs b e t)

  pub Refers-update :
      (ps : List A) (q : B → Bool) (f : B → B)
      → ((b : B) (a : A) → links (f b) a ≡ links b a)
      → (bs : List B) → Refers ps bs
      → Refers ps (update q f bs)
  Refers-update ps q f h [] t = tt
  Refers-update ps q f h (b ∷ bs) (e, t) =
      ground (arith, any_congr (links (f b)) (links b) (h b) ps, Refers-update ps q f h bs t)

module _ {A : Type 0} where
  pub any-update :
      (p q : A → Bool) (f : A → A)
      → ((r : A) → p r ≡ true → p (f r) ≡ true)
      → (rs : List A) → any p rs ≡ true
      → any p (update q f rs) ≡ true
  any-update p q f h [] e = e
  any-update p q f h (r ∷ rs) e = ground (arith, h r, any-update p q f h rs)

  pub any-snoc :
      (p : A → Bool) (rs : List A) (r : A) → any p rs ≡ true → any p (rs ++ r ∷ []) ≡ true
  any-snoc p [] r e = ground arith
  any-snoc p (s ∷ rs) r e = ground (arith, any-snoc p rs r)

  pub select-none : (p : A → Bool) (rs : List A) → select p rs ≡ none → any p rs ≡ false
  select-none p [] e = refl
  select-none p (r ∷ rs) e = ground (arith, select-none p rs)

  pub select-some : (p : A → Bool) (rs : List A) {r : A} → select p rs ≡ some r → any p rs ≡ true
  select-some p [] e = ground arith
  select-some p (s ∷ rs) {r} e = ground (arith, select-some p rs {r = r})

  -- What holds of a row behind its write is found.
  pub any-update-some :
      (p q : A → Bool) (f : A → A) (rs : List A) {r : A}
      → select q rs ≡ some r
      → p (f r) ≡ true
      → any p (update q f rs) ≡ true
  any-update-some p q f [] e h = ground arith
  any-update-some p q f (s ∷ rs) {r} e h = ground (arith, any-update-some p q f rs {r = r})

  pub any_none : (p : A → Bool) → ((r : A) → p r ≡ false) → (rs : List A) → any p rs ≡ false
  any_none p h [] = refl
  any_none p h (r ∷ rs) = ground (arith, h r, any_none p h rs)

  pub any_weaker :
      (p q : A → Bool)
      → ((r : A) → p r ≡ false → q r ≡ false)
      → (rs : List A) → any p rs ≡ false
      → any q rs ≡ false
  any_weaker p q h [] e = refl
  any_weaker p q h (r ∷ rs) e = ground (arith, h r, any_weaker p q h rs)

  -- A row that is found, and is none of the deleted rows.
  pub any-delete_other :
      (p q : A → Bool) (rs : List A)
      → any (λ r. q r && p r) rs ≡ false
      → any p rs ≡ true
      → any p (delete q rs) ≡ true
  any-delete_other p q [] n e = e
  any-delete_other p q (r ∷ rs) n e = ground (arith, any-delete_other p q rs)

-- A write that gives the row with an id another key, which `new` tests for.
module _ {A : Type 0} (id : A → ℕ) (same : A → A → Bool) (f : A → A) (new : A → Bool) (k : ℕ) where
  any_others :
      (rs : List A)
      → any (λ r. id r == k) rs ≡ false
      → any (λ r. not (id r == k) && new r) rs ≡ false
      → any new rs ≡ false
  any_others [] h n = refl
  any_others (r ∷ rs) h n = ground (arith, any_others rs)

  any-renamed :
      ((r s : A) → same r (f s) ≡ new r)
      → (r : A) (rs : List A) → new r ≡ false
      → any (same r) rs ≡ false
      → any (same r) (update (λ s. id s == k) f rs) ≡ false
  any-renamed h r [] n e = refl
  any-renamed h r (s ∷ rs) n e = ground (arith, h r s, any-renamed h r rs n)

  pub Distinct-rename :
      ((r s : A) → same (f r) s ≡ new s)
      → ((r s : A) → same r (f s) ≡ new r)
      → (rs : List A) → any (λ r. not (id r == k) && new r) rs ≡ false
      → DistinctIds id rs
      → Distinct same rs
      → Distinct same (update (λ r. id r == k) f rs)
  Distinct-rename g h [] n i d = tt
  Distinct-rename g h (r ∷ rs) n (j, i) (e, d) = ground (
    arith,
    any_others rs,
    any_congr (same (f r)) new (g r) rs,
    any-renamed h r rs,
    update_absent id (λ s. id s == k) f rs,
    Distinct-rename g h rs,
  )
