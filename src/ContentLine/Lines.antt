-- ===== src/ContentLine/Lines.antt =====
-- internal/contentline/lines.go: cutting bytes into logical lines, unfolding one, and splitting it
-- into group, name, parameters and value.
pub mod Logical
pub mod Params
use edav.Base.{
  ℕ, Bool, true, false, not, ◌&&◌, ◌||◌, List, [], ◌∷◌, ◌++◌, Option, none, some, ◌==◌,
  if◌then◌else◌, any,
}
use edav.Base.Bytes.{Bytes, to_upper, cut}

abbrev pub is_break : ℕ → Bool
is_break c = c == b'\r' || c == b'\n'

abbrev pub is_blank : ℕ → Bool
is_blank c = c == b' ' || c == b'\t'

abbrev pub lf : Bytes
lf = b'\n' ∷ []

abbrev pub cr : Bytes
cr = b'\r' ∷ []

abbrev pub crlf : Bytes
crlf = b'\r' ∷ b'\n' ∷ []

-- Where the loop of `nextLogicalLine` stands in the text: before the next break, at a `\r` that a
-- `\n` may follow, or behind the whole terminator.
pub data Scan : Type 0 where
  in_text : Scan
  after_cr : Scan
  after_term : Bytes → Scan

-- One byte behind a terminator `term`: a blank is a fold, which stays in the line.
abbrev pub goes_on : Bytes → ℕ → Bytes → Bytes
goes_on b c term = b ++ (term ++ c ∷ [])

-- `nextLogicalLine` gives text, terminator and the rest; `b` is the strings.Builder.
unfoldable pub next_line : Scan → Bytes → Bytes → Bytes × Bytes × Bytes
next_line in_text b [] = (b, [], [])
next_line in_text b (c ∷ s) = elim (c == b'\r') [
  | true ↦ next_line after_cr b s
  | false ↦ elim (c == b'\n') [
    | true ↦ next_line (after_term lf) b s
    | false ↦ next_line in_text (b ++ c ∷ []) s
  ]
]
next_line after_cr b [] = (b, cr, [])
next_line after_cr b (c ∷ s) = elim (c == b'\n') [
  | true ↦ next_line (after_term crlf) b s
  | false ↦ elim (is_blank c) [
    | true ↦ next_line in_text (goes_on b c cr) s
    | false ↦ (b, cr, c ∷ s)
  ]
]
next_line (after_term term) b [] = (b, term, [])
next_line (after_term term) b (c ∷ s) = elim (is_blank c) [
  | true ↦ next_line in_text (goes_on b c term) s
  | false ↦ (b, term, c ∷ s)
]

unfoldable pub next_logical_line : Bytes → Bytes × Bytes × Bytes
unfolding next_line
next_logical_line s = next_line in_text [] s

-- The scan of `unfold`, a byte at a time: what is skipped is a `\n` behind a `\r`, and one blank
-- behind a whole break.
pub data Skip : Type 0 where
  nothing newline_or_blank blank : Skip

unfoldable pub unfold_from : Skip → Bytes → Bytes
unfold_from k [] = []
unfold_from nothing (c ∷ s) = elim (c == b'\r') [
  | true ↦ unfold_from newline_or_blank s
  | false ↦ elim (c == b'\n') [ true ↦ unfold_from blank s | false ↦ c ∷ unfold_from nothing s ]
]
unfold_from newline_or_blank (c ∷ s) = elim (c == b'\n') [
  | true ↦ unfold_from blank s
  | false ↦ elim (is_blank c) [
    | true ↦ unfold_from nothing s
    | false ↦ elim (c == b'\r') [
      | true ↦ unfold_from newline_or_blank s
      | false ↦ c ∷ unfold_from nothing s
    ]
  ]
]
unfold_from blank (c ∷ s) = elim (is_blank c) [
  | true ↦ unfold_from nothing s
  | false ↦ elim (c == b'\r') [
    | true ↦ unfold_from newline_or_blank s
    | false ↦ elim (c == b'\n') [ true ↦ unfold_from blank s | false ↦ c ∷ unfold_from nothing s ]
  ]
]

unfoldable pub unfold_text : Bytes → Bytes
unfolding unfold_from
unfold_text text = if not (any is_break text) then text else unfold_from nothing text

-- The parts of a logical line.
pub record Parts : Type 0 where
  pub group : Bytes
  pub name : Bytes
  pub params : Bytes
  pub value : Bytes

-- The first colon outside quotes: what stands before it and behind it.
unfoldable pub cut_colon : Bool → Bytes → Option (Bytes × Bytes)
cut_colon quoted [] = none
cut_colon quoted (c ∷ s) = elim (c == b':' && not quoted) [
  | true ↦ some ([], s)
  | false ↦ elim (cut_colon (if c == b'"' then not quoted else quoted) s) [
    | none ↦ none
    | some (head, value) ↦ some (c ∷ head, value)
  ]
]

-- `strings.Index(head, ";")`: the parameters keep their semicolon.
unfoldable pub cut_params : Bytes → Bytes × Bytes
cut_params head = elim (cut head b';') [ none ↦ (head, []) | some (a, b) ↦ (a, b';' ∷ b) ]

unfoldable pub cut_group : Bytes → Bytes × Bytes
cut_group head = elim (cut head b'.') [ none ↦ ([], head) | some (a, b) ↦ (a, b) ]

unfoldable pub split_line : Bytes → Parts
unfolding cut_colon cut_params cut_group
split_line s = elim (cut_colon false s) [
  | none ↦ record { group = []; name = to_upper s; params = []; value = [] }
  | some (head, value) ↦
      let (named, params) = cut_params head in
      let (group, name) = cut_group named in
      record { group = group; name = to_upper name; params = params; value = value }
]
