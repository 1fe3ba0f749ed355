-- ===== src/ContentLine/Lines/Logical.antt =====
-- internal/contentline/lines.go: how `nextLogicalLine` cuts its input.
use edav.Base.{
  ℕ, Bool, true, false, [], ◌∷◌, ◌++◌, ◌≡◌, ◌⊎◌, inl, inr, refl, ◌≤◌, arith, length, append_assoc,
}
use edav.Base.Bytes.{Bytes}
use edav.ContentLine.Lines.{
  Scan, in_text, after_cr, after_term, next_line, next_logical_line, cr, lf, crlf, is_blank,
  is_break, goes_on,
}

-- The bytes of the terminator that a scan has already passed.
abbrev pending : Scan → Bytes
pending in_text = []
pending after_cr = cr
pending (after_term term) = term

joined : Bytes × Bytes × Bytes → Bytes
joined (text, eol, rest) = text ++ (eol ++ rest)

joined-next_line : (k : Scan) (b s : Bytes) → joined (next_line k b s) ≡ b ++ (pending k ++ s)
unfolding next_line joined
joined-next_line in_text b [] = refl
joined-next_line in_text b (c ∷ s) = ground (
  arith,
  joined-next_line after_cr b s,
  joined-next_line (after_term lf) b s,
  joined-next_line in_text (b ++ c ∷ []) s,
  append_assoc b (c ∷ []) s,
)
joined-next_line after_cr b [] = refl
joined-next_line after_cr b (c ∷ s) = ground (
  arith,
  joined-next_line (after_term crlf) b s,
  joined-next_line in_text (goes_on b c cr) s,
  append_assoc b (b'\r' ∷ c ∷ []) s,
)
joined-next_line (after_term term) b [] = refl
joined-next_line (after_term term) b (c ∷ s) = ground (
  arith,
  joined-next_line in_text (goes_on b c term) s,
  append_assoc b (term ++ c ∷ []) s,
  append_assoc term (c ∷ []) s,
)

-- The last byte is a break.
abbrev pub breaks : Bytes → Bool
breaks [] = false
breaks (c ∷ []) = is_break c
breaks (c ∷ d ∷ s) = breaks (d ∷ s)

pub breaks-append : (a : Bytes) (c : ℕ) (s : Bytes) → breaks (a ++ (c ∷ s)) ≡ breaks (c ∷ s)
breaks-append [] c s = refl
breaks-append (x ∷ []) c s = refl
breaks-append (x ∷ y ∷ a) c s = breaks-append (y ∷ a) c s

-- A scan holds a whole terminator, and its text does not end in a break.
abbrev IsScan : Scan → Bytes → Type 0
IsScan in_text b = breaks b ≡ false
IsScan after_cr b = Unit
IsScan (after_term t) b = breaks t ≡ true

-- A line ends in a break, or at the end of the input with a text that ends in none.
abbrev pub Ended : Bytes × Bytes × Bytes → Type 0
Ended (text, eol, rest) =
    (breaks eol ≡ true)
    ⊎ (record { no_eol : eol ≡ []; no_rest : rest ≡ []; is_open : breaks text ≡ false })

goes_on-breaks : (b t : Bytes) (c : ℕ) → is_blank c ≡ true → breaks (b ++ (t ++ c ∷ [])) ≡ false
goes_on-breaks b [] c h = ground (arith, breaks-append b c [])
goes_on-breaks b (x ∷ t) c h =
    ground (arith, breaks-append b x (t ++ c ∷ []), breaks-append (x ∷ t) c [])

next_line-Ended : (k : Scan) (b s : Bytes) → IsScan k b → Ended (next_line k b s)
unfolding next_line
next_line-Ended in_text b [] h = inr (record { no_eol = refl; no_rest = refl; is_open = h })
next_line-Ended in_text b (c ∷ s) h = ground (
  arith,
  next_line-Ended after_cr b s tt,
  next_line-Ended (after_term lf) b s refl,
  next_line-Ended in_text (b ++ c ∷ []) s,
  breaks-append b c [],
)
next_line-Ended after_cr b [] h = inl refl
next_line-Ended after_cr b (c ∷ s) h = ground (
  arith,
  next_line-Ended (after_term crlf) b s refl,
  next_line-Ended in_text (goes_on b c cr) s,
  goes_on-breaks b cr c,
)
next_line-Ended (after_term term) b [] h = inl h
next_line-Ended (after_term term) b (c ∷ s) h =
    ground (arith, next_line-Ended in_text (goes_on b c term) s, goes_on-breaks b term c)

next_line-le : (k : Scan) (b s : Bytes) → length (next_line k b s).2 ≤ length s
unfolding next_line
next_line-le in_text b [] = omega arith
next_line-le in_text b (c ∷ s) = ground (
  arith,
  next_line-le after_cr b s,
  next_line-le (after_term lf) b s,
  next_line-le in_text (b ++ c ∷ []) s,
)
next_line-le after_cr b [] = omega arith
next_line-le after_cr b (c ∷ s) =
    ground (arith, next_line-le (after_term crlf) b s, next_line-le in_text (goes_on b c cr) s)
next_line-le (after_term term) b [] = omega arith
next_line-le (after_term term) b (c ∷ s) = ground (arith, next_line-le in_text (goes_on b c term) s)

-- No byte is lost: text, terminator and rest spell the input.
pub joined-next_logical_line :
    (s : Bytes)
    → (next_logical_line s).0 ++ ((next_logical_line s).1 ++ (next_logical_line s).2) ≡ s
unfolding next_logical_line joined
joined-next_logical_line s = joined-next_line in_text [] s

pub next_logical_line-Ended : (s : Bytes) → Ended (next_logical_line s)
unfolding next_logical_line
next_logical_line-Ended s = next_line-Ended in_text [] s refl

-- Every call on a text that is not empty takes at least a byte.
pub next_logical_line-lt : (c : ℕ) (s : Bytes) → length (next_logical_line (c ∷ s)).2 ≤ length s
unfolding next_logical_line next_line
next_logical_line-lt c s = ground (
  arith,
  next_line-le after_cr [] s,
  next_line-le (after_term lf) [] s,
  next_line-le in_text (c ∷ []) s,
)
