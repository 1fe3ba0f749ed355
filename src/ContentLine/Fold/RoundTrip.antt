-- ===== src/ContentLine/Fold/RoundTrip.antt =====
-- internal/contentline/lines.go: `unfold` on the output of `fold`.
use edav.Base.{
  ℕ, zero, suc, Bool, true, false, ◌&&◌, [], ◌∷◌, ◌++◌, some, ◌≡◌, refl, sym, ap, ◌∙◌, ◌<◌, ◌⊎◌,
  inl, inr, arith, ◌==◌, leb, length, take, drop, any, Bool-cases, Option-cases, append-nil,
  take-append-drop,
}
use edav.Base.Bytes.{Bytes}
use edav.ContentLine.Lines.{is_break, lf, cr, crlf, nothing, unfold_from, unfold_text}
use edav.ContentLine.Fold.{limit, back_off, width, lead, fold_loop, fold}
use edav.ContentLine.Fold.Termination.{ShortRuns, ShortRuns-drop, back_off_pos}

-- A text of one physical line.
abbrev pub NoBreaks : Bytes → Type 0
NoBreaks s = any is_break s ≡ false

-- What `EOL` can be.
abbrev pub IsEol : Bytes → Type 0
IsEol t = (t ≡ crlf) ⊎ ((t ≡ lf) ⊎ (t ≡ cr))

unfold_from_plain :
    (s rest : Bytes) → NoBreaks s → unfold_from nothing (s ++ rest) ≡ s ++ unfold_from nothing rest
unfolding unfold_from
unfold_from_plain [] rest h = refl
unfold_from_plain (c ∷ s) rest h = ground (arith, unfold_from_plain s rest)

unfold_from_end : (s : Bytes) → NoBreaks s → unfold_from nothing s ≡ s
unfolding unfold_from
unfold_from_end s h = rw append-nil at (unfold_from_plain s [] h)

unfold_from_fold :
    (eol rest : Bytes)
    → IsEol eol
    → unfold_from nothing (eol ++ (b' ' ∷ rest)) ≡ unfold_from nothing rest
unfolding unfold_from
unfold_from_fold eol rest (inl h) = rw h
unfold_from_fold eol rest (inr (inl h)) = rw h
unfold_from_fold eol rest (inr (inr h)) = rw h

NoBreaks-take : (n : ℕ) (s : Bytes) → NoBreaks s → NoBreaks (take n s)
NoBreaks-take zero s h = refl
NoBreaks-take (suc n) [] h = refl
NoBreaks-take (suc n) (c ∷ s) h = ground (arith, NoBreaks-take n s)

NoBreaks-drop : (n : ℕ) (s : Bytes) → NoBreaks s → NoBreaks (drop n s)
NoBreaks-drop zero s h = h
NoBreaks-drop (suc n) [] h = refl
NoBreaks-drop (suc n) (c ∷ s) h = ground (arith, NoBreaks-drop n s)

unfold_text-unfold_from : (s : Bytes) → unfold_text s ≡ unfold_from nothing s
unfolding unfold_text
unfold_text-unfold_from s = elim (Bool-cases (any is_break s)) [
  | inl e ↦ rw (e, unfold_text)
  | inr e ↦ rw (e, unfold_text) (sym (unfold_from_end s e))
]

unfold_round :
    (eol : Bytes) (n : ℕ) (s r : Bytes)
    → IsEol eol
    → NoBreaks s
    → unfold_from nothing r ≡ drop n s
    → unfold_from nothing (take n s ++ (eol ++ (b' ' ∷ r))) ≡ s
unfold_round eol n s r l p h =
    unfold_from_plain (take n s) _ (NoBreaks-take n s p)
    ∙ rw (unfold_from_fold eol r l, h) (take-append-drop n s)

-- One round that does not end the loop, when the loop returns.
fold_loop-round :
    (fuel : ℕ) (eol : Bytes) (first : Bool) (s t : Bytes)
    → leb (length s) (width first) ≡ false
    → fold_loop (suc fuel) eol first s ≡ some t
    → (rest : Bytes) × (let n = back_off s (width first) in
        (fold_loop fuel eol (first && n == 0) (drop n s) ≡ some rest)
        × (t ≡ lead first ++ (take n s ++ (eol ++ rest))))
unfolding fold_loop
fold_loop-round fuel eol first s t e h =
    elim (Option-cases (
      fold_loop fuel eol (first && back_off s (width first) == 0)
        (drop (back_off s (width first)) s))) [
          | inl o ↦ absurd (ground arith)
          | inr (rest, o) ↦ (rest, (o, ground arith))
        ]

lead_next : (first : Bool) (n : ℕ) → 0 < n → lead (first && n == 0) ≡ b' ' ∷ []
lead_next first n h = ground arith

-- The output of the loop is its lead and a text that unfolds to the input.
unfold_from-fold_loop :
    (fuel : ℕ) (eol : Bytes) (first : Bool) (s t : Bytes)
    → IsEol eol
    → ShortRuns s
    → NoBreaks s
    → fold_loop fuel eol first s ≡ some t
    → (r : Bytes) × (t ≡ lead first ++ r) × (unfold_from nothing r ≡ s)
unfolding fold_loop
unfold_from-fold_loop zero eol first s t l k p h = cc
unfold_from-fold_loop (suc fuel) eol first s t l k p h =
    elim (Bool-cases (leb (length s) (width first))) [
      | inl e ↦ (s, ground arith, unfold_from_end s p)
      | inr e ↦
          let n = back_off s (width first) in
          let (rest, told) = fold_loop-round fuel eol first s t e h in
          let (r, shape, tail) =
            unfold_from-fold_loop fuel eol (first && n == 0) (drop n s) rest l
              (ShortRuns-drop n s k) (NoBreaks-drop n s p) told.0 in
          (
            take n s ++ (eol ++ (b' ' ∷ r)),
            told.1
                ∙ ap (λ (z : Bytes). lead first ++ (take n s ++ (eol ++ z)))
                    (shape
                      ∙ ap (λ (z : Bytes). z ++ r) (lead_next first n (back_off_pos first s k e))),
            unfold_round eol n s r l p tail,
          )
    ]

-- Unfolding what `fold` returns gives the line back, if it is one physical line with short runs of
-- continuation bytes and the terminator is one of the three that a document can have.
pub unfold_text-fold :
    (s eol : Bytes) {t : Bytes}
    → IsEol eol
    → ShortRuns s
    → NoBreaks s
    → fold s eol ≡ some t
    → unfold_text t ≡ s
unfolding fold
unfold_text-fold s eol {t} l k p h = elim (Bool-cases (leb (length s) limit)) [
  | inl e ↦
      let same : t ≡ s = ground arith in
      unfold_text-unfold_from t ∙ ap (unfold_from nothing) same ∙ unfold_from_end s p
  | inr e ↦
      let (r, shape, back) =
        unfold_from-fold_loop (suc (length s)) eol true s t l k p (ground arith) in
      unfold_text-unfold_from t ∙ ap (unfold_from nothing) shape ∙ back
]
