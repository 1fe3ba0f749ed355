-- ===== src/ContentLine/Escape/RoundTrip.antt =====
-- internal/contentline/lines.go: `Unescape` and `SplitStructured` on the output of `Escape`.
use edav.Base.{
  ℕ, false, not, ◌||◌, List, [], ◌∷◌, ◌++◌, ◌≡◌, refl, sym, ap, ◌∙◌, arith, ◌==◌, if◌then◌else◌,
  any, keep, map, Bool-cases, inl, inr, append_assoc, append-nil,
}
use edav.Base.Bytes.{Bytes}
use edav.ContentLine.Escape.{
  escape_byte, escape, escape_component, unescape_loop, unescape, split_onto, split_structured,
}

-- What survives an escape: every byte but `\r`.
abbrev pub drop_cr : Bytes → Bytes
drop_cr = keep (λ c. not (c == b'\r'))

unescape_loop_plain-cons :
    (c : ℕ) (s : Bytes) → (c == b'\\') ≡ false → unescape_loop (c ∷ s) ≡ c ∷ unescape_loop s
unfolding unescape_loop
unescape_loop_plain-cons c [] h = refl
unescape_loop_plain-cons c (d ∷ s) h = ground arith

unescape_loop-escape_byte :
    (c : ℕ) (s : Bytes)
    → unescape_loop (escape_byte c ++ s)
      ≡ (if c == b'\r' then unescape_loop s else c ∷ unescape_loop s)
unfolding escape_byte
unescape_loop-escape_byte c s = elim (Bool-cases (c == b'\\')) [
  | inl e ↦ unfold unescape_loop in ground arith
  | inr e ↦ unfold unescape_loop in ground (arith, unescape_loop_plain-cons c s)
]

unescape_loop-escape : (s : Bytes) → unescape_loop (escape s) ≡ drop_cr s
unfolding escape
unescape_loop-escape [] = unfold unescape_loop in refl
unescape_loop-escape (c ∷ s) =
    ground (arith, unescape_loop-escape_byte c (escape s), unescape_loop-escape s)

unescape_loop_plain : (s : Bytes) → any (λ c. c == b'\\') s ≡ false → unescape_loop s ≡ s
unescape_loop_plain [] h = unfold unescape_loop in refl
unescape_loop_plain (c ∷ s) h = ground (arith, unescape_loop_plain s, unescape_loop_plain-cons c s)

-- `Unescape` of `Escape` is the text without its carriage returns, for every text.
pub unescape-escape : (s : Bytes) → unescape (escape s) ≡ drop_cr s
unescape-escape s = elim (Bool-cases (any (λ c. c == b'\\') (escape s))) [
  | inl e ↦ unfold unescape in rw e (unescape_loop-escape s)
  | inr e ↦
      unfold unescape in rw e (sym (unescape_loop_plain (escape s) e) ∙ unescape_loop-escape s)
]

-- The components of a structured value, escaped and joined by semicolons.
abbrev pub join_components : List Bytes → Bytes
join_components [] = []
join_components (p ∷ []) = escape_component p
join_components (p ∷ q ∷ ps) = escape_component p ++ (b';' ∷ join_components (q ∷ ps))

split_onto_plain :
    (b : Bytes) (c : ℕ) (s : Bytes)
    → (c == b'\\') ≡ false
    → (c == b';') ≡ false
    → split_onto b (c ∷ s) ≡ split_onto (b ++ c ∷ []) s
unfolding split_onto
split_onto_plain b c [] h k = ground arith
split_onto_plain b c (d ∷ s) h k = ground arith

split_onto_semicolon : (b s : Bytes) → split_onto b (b';' ∷ s) ≡ b ∷ split_onto [] s
unfolding split_onto
split_onto_semicolon b [] = refl
split_onto_semicolon b (d ∷ s) = refl

split_onto-escape_byte :
    (b rest : Bytes) (c : ℕ)
    → split_onto b (escape_byte c ++ rest) ≡ split_onto (if c == b'\r' then b else b ++ c ∷ []) rest
unfolding escape_byte
split_onto-escape_byte b rest c = elim (Bool-cases (c == b'\\' || c == b';')) [
  | inl e ↦ unfold split_onto in ground arith
  | inr e ↦ unfold split_onto in ground (arith, split_onto_plain b c rest)
]

split_onto-escape :
    (b p rest : Bytes) → split_onto b (escape p ++ rest) ≡ split_onto (b ++ drop_cr p) rest
unfolding escape
split_onto-escape b [] rest = rw append-nil
split_onto-escape b (c ∷ p) rest = ground (
  arith,
  append_assoc (escape_byte c) (escape p) rest,
  split_onto-escape_byte b (escape p ++ rest) c,
  split_onto-escape (if c == b'\r' then b else b ++ c ∷ []) p rest,
  append_assoc b (c ∷ []) (drop_cr p),
)

-- Splitting the escaped components that were joined by semicolons gives the components back, without
-- their carriage returns.
pub split_structured-join :
    (p : Bytes) (ps : List Bytes)
    → split_structured (join_components (p ∷ ps)) ≡ map drop_cr (p ∷ ps)
unfolding split_structured escape_component
split_structured-join p [] = rw (append-nil (escape p)) at (split_onto-escape [] p [])
split_structured-join p (q ∷ ps) =
    split_onto-escape [] p (b';' ∷ join_components (q ∷ ps))
    ∙ split_onto_semicolon (drop_cr p) _
    ∙ ap (◌∷◌ (drop_cr p)) (split_structured-join q ps)
