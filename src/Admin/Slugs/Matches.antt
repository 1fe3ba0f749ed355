-- ===== src/Admin/Slugs/Matches.antt =====
-- internal/admin/collections.go: what `Slugify` gives is what `slugPattern` accepts.
use edav.Base.{
  ℕ, Bool, true, false, not, ◌&&◌, ◌||◌, [], ◌∷◌, ◌++◌, ◌==◌, ltb, ◌≡◌, ◌⊎◌, inl, inr, refl, subst,
  sym, ap, ◌∙◌, arith, zero, suc, All, All-append, All-elim, All-if, Bool-cases, length, take,
}
use mathlib.Core.List.{reverse, reverse_aux, reverse-append, reverse-cons}
use edav.Base.Bytes.{Bytes, to_lower}
use edav.Base.Time.{trim_space}
use edav.Admin.Slugs.{
  is_lower_or_digit, is_mark, all_slug, matches_slug, slug_loop, trim_marks_left, trim_marks,
  shortened, slugify, max_slug,
}

abbrev Fit : ℕ → Type 0
Fit c = (is_lower_or_digit c || is_mark c) ≡ true

slug_loop-Fit : (dash : Bool) (out s : Bytes) → All Fit out → All Fit (slug_loop dash out s)
unfolding slug_loop is_mark
slug_loop-Fit dash out [] h = h
slug_loop-Fit dash out (c ∷ s) h =
    All-elim Fit (is_lower_or_digit c || (c == b'.' || c == b'_'))
      (slug_loop false (out ++ c ∷ []) s)
      (elim (not dash && ltb 0 (length out)) [
        | true ↦ slug_loop true (out ++ b'-' ∷ []) s
        | false ↦ slug_loop dash out s
      ])
      (λ e.
        slug_loop-Fit false (out ++ c ∷ []) s (All-append Fit out (c ∷ []) h (ground arith, tt)))
      (λ e.
        All-elim Fit (not dash && ltb 0 (length out)) (slug_loop true (out ++ b'-' ∷ []) s)
          (slug_loop dash out s)
          (λ f.
            slug_loop-Fit true (out ++ b'-' ∷ []) s
              (All-append Fit out (b'-' ∷ []) h (ground arith, tt)))
          (λ f. slug_loop-Fit dash out s h))

All-reverse : (s t : Bytes) → All Fit s → All Fit t → All Fit (reverse_aux s t)
All-reverse [] t h k = k
All-reverse (c ∷ s) t (d, h) k = All-reverse s (c ∷ t) h (d, k)

All-trim_left : (s : Bytes) → All Fit s → All Fit (trim_marks_left s)
unfolding trim_marks_left
All-trim_left [] h = tt
All-trim_left (c ∷ s) (d, h) =
    All-elim Fit (is_mark c) (trim_marks_left s) (c ∷ s) (λ e. All-trim_left s h) (λ e. (d, h))

All-trim : (s : Bytes) → All Fit s → All Fit (trim_marks s)
unfolding trim_marks
All-trim s h =
    All-reverse (trim_marks_left (reverse (trim_marks_left s))) []
      (All-trim_left (reverse (trim_marks_left s))
        (All-reverse (trim_marks_left s) [] (All-trim_left s h) tt))
      tt

All-take : (n : ℕ) (s : Bytes) → All Fit s → All Fit (take n s)
All-take zero s h = tt
All-take (suc n) [] h = tt
All-take (suc n) (c ∷ s) (d, h) = (d, All-take n s h)

-- The first byte, if there is one, is no mark.
abbrev Headed : Bytes → Type 0
Headed [] = Unit
Headed (c ∷ s) = is_mark c ≡ false

trim_left-Headed : (s : Bytes) → Headed (trim_marks_left s)
unfolding trim_marks_left
trim_left-Headed [] = tt
trim_left-Headed (c ∷ s) = go (is_mark c) refl (trim_left-Headed s)
  where
    go :
        (b : Bool)
        → is_mark c ≡ b
        → Headed (trim_marks_left s)
        → Headed (elim b [ true ↦ trim_marks_left s | false ↦ c ∷ s ])
    go true e h = h
    go false e h = e

trim_left-last :
    (s : Bytes) (c : ℕ)
    → is_mark c ≡ false
    → (t : Bytes) × (trim_marks_left (s ++ c ∷ []) ≡ t ++ c ∷ [])
unfolding trim_marks_left
trim_left-last [] c h = ([], rw (h, trim_marks_left) refl)
trim_left-last (d ∷ s) c h =
    let (t, f) = trim_left-last s c h in
    elim (Bool-cases (is_mark d)) [
      | inl e ↦ (t, rw (e, trim_marks_left) f)
      | inr e ↦ (d ∷ s, rw (e, trim_marks_left) refl)
    ]

trim-Headed : (s : Bytes) → Headed (trim_marks s)
unfolding trim_marks
trim-Headed s = go (trim_marks_left s) (trim_left-Headed s)
  where
    go : (t : Bytes) → Headed t → Headed (reverse (trim_marks_left (reverse t)))
    go [] h = tt
    go (c ∷ t) h =
        let (u, e) = trim_left-last (reverse t) c h in
        let last : trim_marks_left (reverse (c ∷ t)) ≡ u ++ c ∷ [] =
          ap trim_marks_left (reverse-cons c t) ∙ e in
        subst Headed (sym (ap (λ x. reverse x) last ∙ reverse-append u (c ∷ []))) h

shortened-Fit : (s : Bytes) → All Fit s → All Fit (shortened s)
unfolding shortened
shortened-Fit s h =
    All-if Fit (ltb max_slug (length s)) (trim_marks (take max_slug s)) s
      (λ e. All-trim (take max_slug s) (All-take max_slug s h)) (λ e. h)

shortened-Headed : (s : Bytes) → Headed s → Headed (shortened s)
unfolding shortened
shortened-Headed s h = elim (Bool-cases (ltb max_slug (length s))) [
  | inl e ↦ subst Headed (sym (ground (arith, e))) (trim-Headed (take max_slug s))
  | inr e ↦ subst Headed (sym (ground (arith, e))) h
]

all_slug-Fit : (s : Bytes) → All Fit s → all_slug s ≡ true
unfolding all_slug
all_slug-Fit [] h = refl
all_slug-Fit (c ∷ s) (d, h) = ground (arith, d, all_slug-Fit s h)

matches-Fit : (s : Bytes) → Headed s → All Fit s → (s ≡ []) ⊎ (matches_slug s ≡ true)
unfolding matches_slug
matches-Fit [] k h = inl refl
matches-Fit (c ∷ s) k (d, h) = inr (ground (arith, d, k, all_slug-Fit s h))

-- What is derived from a name is empty, or a slug that the pattern accepts.
pub slugify-matches : (name : Bytes) → (slugify name ≡ []) ⊎ (matches_slug (slugify name) ≡ true)
unfolding slugify
slugify-matches name =
    let written = slug_loop false [] (to_lower (trim_space name)) in
    matches-Fit (shortened (trim_marks written))
      (shortened-Headed (trim_marks written) (trim-Headed written))
      (shortened-Fit (trim_marks written)
        (All-trim written (slug_loop-Fit false [] (to_lower (trim_space name)) tt)))
