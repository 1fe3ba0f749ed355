-- ===== src/Base/Split.antt =====
-- `strings.Split` behind a part that does not have the separator.
use Prim.Native.Nat.{ℕ}
use mathlib.Core.Path.{◌≡◌, refl, ap, ◌∙◌, sym}
use mathlib.Core.Bool.{false}
use mathlib.Core.List.{[], ◌∷◌, ◌++◌, append_assoc, append-nil}
use native.Mathlib.Omega.{arith}
use edav.Base.Tests.{◌==◌}
use edav.Base.Lists.{any}
use edav.Base.Bytes.{Bytes, split, split_onto}

pub split_onto-plain :
    (sep : ℕ) (s cur rest : Bytes)
    → any (λ c. c == sep) s ≡ false
    → split_onto sep cur (s ++ rest) ≡ split_onto sep (cur ++ s) rest
unfolding split_onto
split_onto-plain sep [] cur rest h = rw append-nil
split_onto-plain sep (c ∷ s) cur rest h =
    ground (arith, split_onto-plain sep s (cur ++ c ∷ []) rest, append_assoc cur (c ∷ []) s)

-- A part, and the separator behind it.
pub split-cons :
    (sep : ℕ) (s rest : Bytes)
    → any (λ c. c == sep) s ≡ false
    → split (s ++ (sep ∷ rest)) sep ≡ s ∷ split rest sep
unfolding split
split-cons sep s rest h =
    split_onto-plain sep s [] (sep ∷ rest) h ∙ unfold split_onto in ground arith

-- The last part.
pub split_last : (sep : ℕ) (s : Bytes) → any (λ c. c == sep) s ≡ false → split s sep ≡ s ∷ []
unfolding split
split_last sep s h =
    ap (λ (t : Bytes). split_onto sep [] t) (sym (append-nil s))
    ∙ (split_onto-plain sep s [] [] h ∙ unfold split_onto in refl)
