-- ===== src/ContentLine/Edit.antt =====
-- internal/contentline/contentline.go: finding components and properties of a document, and the edits.
-- A `*Span` that an edit changes is given and returned. `start` is `Begin + 1`, as the `Begin` of
-- `Whole` is -1.
pub mod Delete
pub mod Others
use edav.Base.{
  ℕ, zero, suc, ◌+◌, ◌-◌, Bool, true, false, ◌&&◌, ◌||◌, List, [], ◌∷◌, ◌++◌, Option, none, some,
  ◌==◌, ltb, leb, if◌then◌else◌, length, get_elem?, set, take, drop,
}
use edav.Base.Bytes.{Bytes, codes, equal, equal_fold, to_upper}
use edav.Base.Rows.{sort_by}
use edav.ContentLine.Escape.{escape, unescape}
use edav.ContentLine.Lines.Params.{param}
use edav.ContentLine.Document.{Line, Document, is_empty, doc_eol}

pub record Span : Type 0 where
  pub start : ℕ
  pub end : ℕ

unfoldable pub whole : Document → Span
whole d = record { start = 0; end = length d }

abbrev pub begin_name : Bytes
begin_name = codes "BEGIN"

abbrev pub end_name : Bytes
end_name = codes "END"

-- The loop of `Components`, with the indices of the open BEGIN lines and their values.
unfoldable pub components_loop : Bytes → ℕ → List (ℕ × Bytes) → Document → List Span
components_loop name i opened [] = []
components_loop name i opened (l ∷ ls) =
    if equal l.name begin_name
    then components_loop name (suc i) ((i, l.value) ∷ opened) ls
    else if equal l.name end_name
    then elim opened [
      | [] ↦ components_loop name (suc i) [] ls
      | (begin, value) ∷ rest ↦
          if equal_fold value name
          then record { start = suc begin; end = i } ∷ components_loop name (suc i) rest ls
          else components_loop name (suc i) rest ls
    ]
    else components_loop name (suc i) opened ls

unfoldable pub components : Document → Bytes → List Span
components d name =
    sort_by (λ (a b : Span). leb a.start b.start) (components_loop (to_upper name) 0 [] d)

unfoldable pub component : Document → Bytes → Option Span
component d name = elim (components d name) [ [] ↦ none | s ∷ ss ↦ some s ]

unfoldable pub count_name : Bytes → Document → ℕ
count_name name [] = 0
count_name name (l ∷ ls) =
    if equal l.name name then suc (count_name name ls) else count_name name ls

-- `contains`: the depth, which may go below zero, is the number of BEGIN lines less that of END lines.
unfoldable pub contains : Document → Span → ℕ → Bool
contains d span i =
    let before = take (i - span.start) (drop span.start d) in
    if ltb i span.start || leb span.end i
    then false
    else count_name begin_name before == count_name end_name before

-- The loop of `Find`, at index `i` with the lines from there.
unfoldable pub find_from : Document → Span → Bytes → ℕ → List Line → Option ℕ
find_from d span name i [] = none
find_from d span name i (l ∷ ls) =
    let rest = find_from d span name (suc i) ls in
    if ltb i span.end then if equal l.name name && contains d span i then some i else rest else none

unfoldable pub find : Document → Span → Bytes → Option ℕ
find d span name = find_from d span (to_upper name) span.start (drop span.start d)

unfoldable pub find_all_from : Document → Span → Bytes → ℕ → List Line → List ℕ
find_all_from d span name i [] = []
find_all_from d span name i (l ∷ ls) =
    let rest = find_all_from d span name (suc i) ls in
    if ltb i span.end then if equal l.name name && contains d span i then i ∷ rest else rest else []

unfoldable pub find_all : Document → Span → Bytes → List ℕ
find_all d span name = find_all_from d span (to_upper name) span.start (drop span.start d)

-- The line that `Find` gives.
abbrev pub found : Document → Span → Bytes → Option Line
found d span name = elim (find d span name) [ none ↦ none | some i ↦ get_elem? d i ]

unfoldable pub raw_value : Document → Span → Bytes → Bytes
raw_value d span name = elim (found d span name) [ none ↦ [] | some l ↦ l.value ]

unfoldable pub value : Document → Span → Bytes → Bytes
value d span name = elim (found d span name) [ none ↦ [] | some l ↦ unescape l.value ]

unfoldable pub param_of : Document → Span → Bytes → Bytes → Bytes
param_of d span name key = elim (found d span name) [ none ↦ [] | some l ↦ param l.params key ]

abbrev pub added_line : Bytes → Bytes → Bytes → Line
added_line name params value = record {
  raw = [];
  eol = [];
  group = [];
  name = name;
  params = params;
  value = value;
  dirty = false;
  added = true;
}

unfoldable pub new_line : Bytes → Bytes → Bytes → Line
new_line name params value = added_line (to_upper name) params value

unfoldable pub insert : Document → Span → Line → Document × Span
insert d span l =
    let at = if ltb (length d) span.end then length d else span.end in
    (
      take at d ++ record l { eol = doc_eol d; added = true } ∷ drop at d,
      record span { end = suc span.end },
    )

-- The grouped branch of `Remove`, at index `j`. `kept` is written over the lines being read, so
-- `contains` sees what is kept in front and the old lines behind.
unfoldable pub remove_loop : Document → Span → Bytes → ℕ → List Line → List Line → List Line
remove_loop d span group j kept [] = kept
remove_loop d span group j kept (l ∷ ls) =
    let rest = λ (k : List Line). remove_loop d span group (suc j) k ls in
    if equal l.group group && contains (kept ++ drop (length kept) d) span j
    then rest kept
    else rest (kept ++ l ∷ [])

-- `Remove`, of a line that is there.
unfoldable pub remove : Document → Span → ℕ → Document × Span
remove d span i = elim (get_elem? d i) [
  | none ↦ (d, span)
  | some l ↦
      if is_empty l.group
      then (take i d ++ drop (suc i) d, record span { end = span.end - 1 })
      else (let kept = remove_loop d span l.group 0 [] d in
          (kept, record span { end = span.end - (length d - length kept) }))
]

-- One round of `Delete` for each line at most: every round takes one away.
unfoldable pub delete_loop : ℕ → Document → Span → Bytes → Document × Span
delete_loop zero d span name = (d, span)
delete_loop (suc fuel) d span name = elim (find d span name) [
  | none ↦ (d, span)
  | some i ↦ delete_loop fuel (remove d span i).0 (remove d span i).1 name
]

unfoldable pub delete : Document → Span → Bytes → Document × Span
delete d span name = delete_loop (length d) d span (to_upper name)

abbrev pub change : Line → Option Bytes → Bytes → Line
change l none value = record l { value = value; dirty = true }
change l (some params) value = record l { params = params; value = value; dirty = true }

-- The unexported `set`.
unfoldable pub set_value : Document → Span → Bytes → Bytes → Option Bytes → Document × Span
set_value d span name value params = elim (find d span (to_upper name)) [
  | none ↦
      if is_empty value
      then (d, span)
      else insert d span (added_line (to_upper name) (elim params [ none ↦ [] | some p ↦ p ]) value)
  | some i ↦ if is_empty value then remove d span i else elim (get_elem? d i) [
    | none ↦ (d, span)
    | some l ↦ (set d i (change l params value), span)
  ]
]

unfoldable pub set_text : Document → Span → Bytes → Bytes → Document × Span
set_text d span name value = set_value d span name (escape value) none

unfoldable pub set_raw : Document → Span → Bytes → Bytes → Document × Span
set_raw d span name value = set_value d span name value none

unfoldable pub set_with_params : Document → Span → Bytes → Bytes → Bytes → Document × Span
set_with_params d span name params value = set_value d span name value (some params)

unfoldable pub replace : Document → ℕ → Bytes → Bytes → Document
replace d i params value = elim (get_elem? d i) [
  | none ↦ d
  | some l ↦ set d i (change l (some params) value)
]
