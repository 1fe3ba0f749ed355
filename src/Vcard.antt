-- ===== src/Vcard.antt =====
-- Package vcard (internal/vcard), edit.go: a vCard open for editing.
pub mod Unchanged
pub mod Contact
use edav.Base.{
  ℕ, zero, suc, Bool, true, false, not, ◌&&◌, List, [], ◌∷◌, ◌++◌, Option, none, some,
  if◌then◌else◌, any, length, get_elem?, drop, map,
}
use edav.Base.Bytes.{Bytes, codes, equal, equal_fold, to_lower, to_upper}
use edav.ContentLine.Escape.{escape, unescape}
use edav.ContentLine.Lines.Params.{params_of}
use edav.ContentLine.Document.{Line, Document, is_empty}
use edav.ContentLine.Document
use edav.ContentLine.Edit.{
  Span, component, find_all, value, insert, remove, delete, replace, new_line, set_text, set_raw,
}

pub record Card : Type 0 where
  pub doc : Document
  pub span : Span

pub data CardError : Type 0 where
  empty_card missing_begin_or_end missing_version : CardError

pub data CardResult : Type 0 where
  card : Card → CardResult
  failed : CardError → CardResult

unfoldable pub open_document : Document → CardResult
open_document [] = failed empty_card
open_document (l ∷ ls) = elim (component (l ∷ ls) (codes "VCARD")) [
  | none ↦ failed missing_begin_or_end
  | some span ↦
      if is_empty (value (l ∷ ls) span (codes "VERSION"))
      then failed missing_version
      else card (record { doc = l ∷ ls; span = span })
]

-- `Parse`.
unfoldable pub parse : Bytes → CardResult
parse raw = open_document (Document.parse raw)

unfoldable pub bytes : Card → Option Bytes
bytes v = Document.bytes v.doc

pub record Property : Type 0 where
  pub value : Bytes
  pub type : Bytes

unfoldable pub type_options : List Bytes
type_options = codes "cell" ∷ codes "home" ∷ codes "work" ∷ codes "other" ∷ []

-- The first value that is a known type, whatever its case.
unfoldable pub known_type : List Bytes → Option Bytes
unfolding type_options
known_type [] = none
known_type (v ∷ vs) = if any (equal_fold v) type_options then some (to_lower v) else known_type vs

unfoldable pub first_type : List Bytes → Bytes
first_type [] = []
first_type (v ∷ vs) = elim (known_type (v ∷ vs)) [ none ↦ to_lower v | some t ↦ t ]

unfoldable pub type_param : Bytes → Bytes
type_param params = first_type (params_of params (codes "TYPE"))

unfoldable pub has_type : Bytes → Bytes → Bool
has_type params [] = true
has_type params (c ∷ want) = any (λ v. equal_fold v (c ∷ want)) (params_of params (codes "TYPE"))

unfoldable pub type_params : Bytes → Bytes
type_params [] = []
type_params (c ∷ typ) = codes ";TYPE=" ++ to_upper (c ∷ typ)

abbrev pub property_at : Document → ℕ → List Property
property_at d i = elim (get_elem? d i) [
  | none ↦ []
  | some l ↦ record { value = unescape l.value; type = type_param l.params } ∷ []
]

unfoldable pub values_at : Document → List ℕ → List Property
values_at d [] = []
values_at d (i ∷ is) = property_at d i ++ values_at d is

unfoldable pub values : Card → Bytes → List Property
values v name = values_at v.doc (find_all v.doc v.span name)

unfoldable pub set_card : Card → Bytes → Bytes → Card
set_card v name text =
    let (doc, span) = set_text v.doc v.span name text in record { doc = doc; span = span }

unfoldable pub set_raw_card : Card → Bytes → Bytes → Card
set_raw_card v name text =
    let (doc, span) = set_raw v.doc v.span name text in record { doc = doc; span = span }

unfoldable pub delete_card : Card → Bytes → Card
delete_card v name = let (doc, span) = delete v.doc v.span name in record { doc = doc; span = span }

-- `SetAll` on a line that is there: an unchanged one keeps its bytes.
unfoldable pub set_existing : Document → ℕ → Property → Document
set_existing d i want = elim (get_elem? d i) [
  | none ↦ d
  | some l ↦
      let same_value = equal (unescape l.value) want.value in
      let same_type = has_type l.params want.type in
      if same_value && same_type
      then d
      else replace d i (if same_type then l.params else type_params want.type) (escape want.value)
]

abbrev pub add_property : Card → Bytes → Property → Card
add_property v name want =
    let (doc, span) =
      insert v.doc v.span (new_line name (type_params want.type) (escape want.value)) in
    record { doc = doc; span = span }

-- The first loop of `SetAll`, with the existing lines that are left.
unfoldable pub write_values : Card → Bytes → List ℕ → List Property → Card
write_values v name existing [] = v
write_values v name [] (want ∷ wants) = write_values (add_property v name want) name [] wants
write_values v name (i ∷ is) (want ∷ wants) =
    write_values (record v { doc = set_existing v.doc i want }) name is wants

abbrev pub remove_at : Card → ℕ → Card
remove_at v i = let (doc, span) = remove v.doc v.span i in record { doc = doc; span = span }

-- The second loop, from the end.
unfoldable pub remove_rest : Card → List ℕ → Card
remove_rest v [] = v
remove_rest v (i ∷ is) = remove_at (remove_rest v is) i

unfoldable pub set_all : Card → Bytes → List Property → Card
set_all v name wants =
    let existing = find_all v.doc v.span name in
    remove_rest (write_values v name existing wants) (drop (length wants) existing)

-- `Touch`; formatting an instant is package time's.
module _ {Instant : Type 0} (format_utc : Instant → Bytes) where
  unfoldable pub touch : Card → Instant → Card
  touch v now = set_card v (codes "REV") (format_utc now)
