-- ===== src/ContentLine/Document.antt =====
-- internal/contentline/contentline.go: the document of content lines, `Parse` and `Bytes`.
pub mod RoundTrip
use edav.Base.{
  ℕ, zero, suc, Bool, true, false, ◌&&◌, ◌||◌, List, [], ◌∷◌, ◌++◌, Option, none, some, ◌==◌,
  if◌then◌else◌, length,
}
use edav.Base.Bytes.{Bytes, equal}
use edav.ContentLine.Lines.{next_logical_line, unfold_text, split_line, crlf}
use edav.ContentLine.Fold.{fold}

-- One logical line: as read, and its parts.
pub record Line : Type 0 where
  pub raw : Bytes
  pub eol : Bytes
  pub group : Bytes
  pub name : Bytes
  pub params : Bytes
  pub value : Bytes
  pub dirty : Bool
  pub added : Bool

-- A `*Document` is its slice of lines.
abbrev pub Document : Type 0
Document = List Line

abbrev pub is_empty : Bytes → Bool
is_empty [] = true
is_empty (c ∷ s) = false

unfoldable pub new_line : Bytes → Bytes → Line
unfolding unfold_text split_line
new_line text eol =
    let p = split_line (unfold_text text) in
    record {
      raw = text;
      eol = eol;
      group = p.group;
      name = p.name;
      params = p.params;
      value = p.value;
      dirty = false;
      added = false;
    }

-- The loop of `Parse`. Each round takes a byte at least, so the length of the input is enough fuel.
unfoldable pub parse_loop : ℕ → Bytes → Document
parse_loop zero s = []
parse_loop (suc fuel) [] = []
parse_loop (suc fuel) (c ∷ s) =
    let r = next_logical_line (c ∷ s) in
    elim (is_empty r.0 && is_empty r.1) [
      | true ↦ []
      | false ↦ new_line r.0 r.1 ∷ parse_loop fuel r.2
    ]

unfoldable pub parse : Bytes → Document
parse raw = parse_loop (length raw) raw

-- `EOL`: the first terminator in the document.
unfoldable pub doc_eol : Document → Bytes
doc_eol [] = crlf
doc_eol (l ∷ ls) = if is_empty l.eol then doc_eol ls else l.eol

unfoldable pub rebuild : Line → Bytes
rebuild l =
    (if is_empty l.group then [] else l.group ++ b'.' ∷ [])
    ++ (l.name ++ (l.params ++ (b':' ∷ l.value)))

-- One round of `Bytes`. `none` means that folding an edited line did not end.
unfoldable pub render_line : Bytes → Line → Option Bytes
render_line eol l =
    let term = if is_empty l.eol then eol else l.eol in
    elim (l.dirty || l.added) [
      | true ↦ elim (fold (rebuild l) eol) [ none ↦ none | some text ↦ some (text ++ term) ]
      | false ↦ some (l.raw ++ term)
    ]

unfoldable pub render : Bytes → Document → Option Bytes
render eol [] = some []
render eol (l ∷ ls) = elim (render_line eol l) [
  | none ↦ none
  | some text ↦ elim (render eol ls) [ none ↦ none | some rest ↦ some (text ++ rest) ]
]

unfoldable pub bytes : Document → Option Bytes
bytes d = render (doc_eol d) d
