-- ===== src/ContentLine/Escape.antt =====
-- `Escape`, `Unescape` and `SplitStructured` of internal/contentline/lines.go.
pub mod RoundTrip
use edav.Base.{ℕ, Bool, true, false, not, ◌&&◌, ◌||◌, List, [], ◌∷◌, ◌++◌, ◌==◌, if◌then◌else◌, any}
use edav.Base.Bytes.{Bytes}

-- What the replacer writes for one byte.
unfoldable pub escape_byte : ℕ → Bytes
escape_byte c =
    if c == b'\\'
    then b'\\' ∷ b'\\' ∷ []
    else if c == b'\n'
    then b'\\' ∷ b'n' ∷ []
    else if c == b'\r'
    then []
    else if c == b','
    then b'\\' ∷ b',' ∷ []
    else if c == b';'
    then b'\\' ∷ b';' ∷ []
    else c ∷ []

unfoldable pub escape : Bytes → Bytes
unfolding escape_byte
escape [] = []
escape (c ∷ s) = escape_byte c ++ escape s

unfoldable pub escape_component : Bytes → Bytes
unfolding escape
escape_component s = escape s

-- The byte that a backslash and `c` stand for.
unfoldable pub unescape_byte : ℕ → ℕ
unescape_byte c = if c == b'n' || c == b'N' then b'\n' else c

unfoldable pub unescape_loop : Bytes → Bytes
unfolding unescape_byte
unescape_loop [] = []
unescape_loop (c ∷ []) = c ∷ []
unescape_loop (c ∷ d ∷ s) = elim (c == b'\\') [
  | true ↦ unescape_byte d ∷ unescape_loop s
  | false ↦ c ∷ unescape_loop (d ∷ s)
]

unfoldable pub unescape : Bytes → Bytes
unfolding unescape_loop
unescape s = if not (any (λ c. c == b'\\') s) then s else unescape_loop s

-- The loop of `SplitStructured`; `b` is the part that is being read.
unfoldable pub split_onto : Bytes → Bytes → List Bytes
unfolding unescape_byte
split_onto b [] = b ∷ []
split_onto b (c ∷ []) = elim (c == b';') [ true ↦ b ∷ [] ∷ [] | false ↦ (b ++ c ∷ []) ∷ [] ]
split_onto b (c ∷ d ∷ s) = elim (c == b'\\') [
  | true ↦ split_onto (b ++ unescape_byte d ∷ []) s
  | false ↦ elim (c == b';') [
    | true ↦ b ∷ split_onto [] (d ∷ s)
    | false ↦ split_onto (b ++ c ∷ []) (d ∷ s)
  ]
]

unfoldable pub split_structured : Bytes → List Bytes
unfolding split_onto
split_structured s = split_onto [] s
