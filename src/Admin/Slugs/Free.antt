-- ===== src/Admin/Slugs/Free.antt =====
-- internal/admin/collections.go: the slug that `freeSlug` gives.
use edav.Base.{ℕ, zero, suc, none, some, ◌≡◌, ◌⊎◌, inl, inr, Option-cases}
use edav.Base.Bytes.{Bytes}
use edav.Storage.{Collection, Database}
use edav.Storage.Collections.{collection_by_uri}
use edav.Admin.Slugs.{numbered, free_loop, free_rounds, free_slug}

-- The slug has a collection, and so has each of its numbers from `n` on, for so many rounds.
abbrev pub Taken : Database → ℕ → Bytes → Bytes → ℕ → ℕ → Type 0
Taken db owner slug candidate n zero = Unit
Taken db owner slug candidate n (suc rounds) =
    ((c : Collection) × (collection_by_uri db owner candidate ≡ some c))
    × Taken db owner slug (numbered slug n) (suc n) rounds

free_loop-free :
    (rounds : ℕ) (db : Database) (owner : ℕ) (slug candidate : Bytes) (n : ℕ)
    → (collection_by_uri db owner (free_loop rounds db owner slug candidate n) ≡ none)
      ⊎ Taken db owner slug candidate n rounds
unfolding free_loop
free_loop-free zero db owner slug candidate n = inr tt
free_loop-free (suc rounds) db owner slug candidate n =
    elim (Option-cases (collection_by_uri db owner candidate)) [
      | inl e ↦ inl (rw (e, free_loop) e)
      | inr (c, e) ↦ elim (free_loop-free rounds db owner slug (numbered slug n) (suc n)) [
        | inl f ↦ inl (rw (e, free_loop) f)
        | inr t ↦ inr ((c, e), t)
      ]
    ]

-- The slug that is given has no collection, unless the slug and its numbers from 2 to 98 all have one.
pub free_slug-free :
    (db : Database) (owner : ℕ) (slug : Bytes)
    → (collection_by_uri db owner (free_slug db owner slug) ≡ none)
      ⊎ Taken db owner slug slug 2 free_rounds
unfolding free_slug
free_slug-free db owner slug = free_loop-free free_rounds db owner slug slug 2
