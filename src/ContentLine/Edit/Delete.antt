-- ===== src/ContentLine/Edit/Delete.antt =====
-- internal/contentline/contentline.go: the rounds of `Delete`.
use edav.Base.{
  ℕ, zero, suc, ◌+◌, ◌≤◌, ◌<◌, true, ◌&&◌, List, [], ◌∷◌, ◌++◌, none, some, length, get_elem?, take,
  drop, length-append, length-drop, ◌≡◌, refl, sym, ◌∙◌, arith, Bool-cases, Option-cases, inl, inr,
  append_assoc,
}
use edav.Base.Bytes.{Bytes, equal, equal_self, to_upper, map-upper_idem}
use edav.ContentLine.Document.{Line, Document}
use edav.ContentLine.Edit.{
  Span, contains, find_from, find, remove_loop, remove, delete_loop, delete,
}

-- What `find_from` gives is a line behind the start, in the component.
find_from_sound :
    (d : Document) (span : Span) (name : Bytes) (i : ℕ) (ls : List Line) {k : ℕ}
    → find_from d span name i ls ≡ some k
    → (m : ℕ) × (k ≡ i + m) × (m < length ls) × (contains d span k ≡ true)
unfolding find_from
find_from_sound d span name i [] h = absurd (ground arith)
find_from_sound d span name i (l ∷ ls) {k} h =
    elim (Bool-cases (equal l.name name && contains d span i)) [
      | inl e ↦ (0, ground arith, ground arith, ground arith)
      | inr e ↦
          let (m, s, t, u) = find_from_sound d span name (suc i) ls {k = k} (ground arith) in
          (suc m, omega (arith, s), omega (arith, t), u)
    ]

get_elem?-some : (d : List Line) (i : ℕ) → i < length d → (l : Line) × (get_elem? d i ≡ some l)
get_elem?-some [] i h = absurd (omega arith)
get_elem?-some (l ∷ d) zero h = (l, refl)
get_elem?-some (l ∷ d) (suc i) h = get_elem?-some d i (omega arith)

length-remove_loop-le :
    (d : Document) (span : Span) (group : Bytes) (j : ℕ) (kept ls : List Line)
    → length (remove_loop d span group j kept ls) ≤ length kept + length ls
unfolding remove_loop
length-remove_loop-le d span group j kept [] = omega arith
length-remove_loop-le d span group j kept (l ∷ ls) = ground (
  arith,
  length-remove_loop-le d span group (suc j) kept ls,
  length-remove_loop-le d span group (suc j) (kept ++ l ∷ []) ls,
  length-append kept (l ∷ []),
)

drop-append : (xs ys : List Line) → drop (length xs) (xs ++ ys) ≡ ys
drop-append [] ys = refl
drop-append (x ∷ xs) ys = drop-append xs ys

-- As long as nothing is taken out, the lines read are those of the document: the first line of the
-- group in the component goes.
length-remove_loop :
    (d : Document) (span : Span) (group : Bytes) (j : ℕ) (kept ls : List Line) (m : ℕ) {l : Line}
    → d ≡ kept ++ ls
    → get_elem? ls m ≡ some l
    → equal l.group group ≡ true
    → contains d span (j + m) ≡ true
    → length (remove_loop d span group j kept ls) < length kept + length ls
unfolding remove_loop
length-remove_loop d span group j kept [] m s g e c = ground arith
length-remove_loop d span group j kept (x ∷ ls) zero {l} s g e c =
    let buffer : kept ++ drop (length kept) d ≡ d = rw s (rw (drop-append kept (x ∷ ls)) refl) in
    ground (arith, buffer, length-remove_loop-le d span group (suc j) kept ls)
length-remove_loop d span group j kept (x ∷ ls) (suc m) {l} s g e c =
    let buffer : kept ++ drop (length kept) d ≡ d = rw s (rw (drop-append kept (x ∷ ls)) refl) in
    let shifted : d ≡ (kept ++ x ∷ []) ++ ls = s ∙ sym (append_assoc kept (x ∷ []) ls) in
    ground (
      arith,
      buffer,
      length-remove_loop-le d span group (suc j) kept ls,
      length-append kept (x ∷ []),
      length-remove_loop d span group (suc j) (kept ++ x ∷ []) ls m {l = l} shifted g e,
    )

length-cut_out :
    (d : List Line) (i : ℕ) → i < length d → length (take i d ++ drop (suc i) d) < length d
length-cut_out [] i h = absurd (omega arith)
length-cut_out (l ∷ d) zero h = omega arith
length-cut_out (l ∷ d) (suc i) h = omega (arith, length-cut_out d i (omega arith))

length-remove :
    (d : Document) (span : Span) (k : ℕ)
    → k < length d
    → contains d span k ≡ true
    → length (remove d span k).0 < length d
unfolding remove
length-remove d span k h c =
    let (l, g) = get_elem?-some d k h in
    let dropped =
      length-remove_loop d span l.group 0 [] d k {l = l} refl g (equal_self l.group)
        (ground (arith, c)) in
    ground (arith, g, dropped, length-cut_out d k h)

find-remove :
    (d : Document) (span : Span) (name : Bytes) {k : ℕ}
    → find d span name ≡ some k
    → length (remove d span k).0 < length d
unfolding find
find-remove d span name {k} h =
    let (m, s, t, c) =
      find_from_sound d span (to_upper name) span.start (drop span.start d) {k = k} h in
    length-remove d span k (omega (arith, s, t, length-drop span.start d)) c

drop_nil : (n : ℕ) → drop {A = Line} n [] ≡ []
drop_nil zero = refl
drop_nil (suc n) = refl

find_empty : (span : Span) (name : Bytes) → find [] span name ≡ none
unfolding find find_from
find_empty span name = rw (drop_nil span.start) refl

find-delete_loop :
    (fuel : ℕ) (d : Document) (span : Span) (name : Bytes)
    → length d ≤ fuel
    → let (d', span') = delete_loop fuel d span name in find d' span' name ≡ none
unfolding delete_loop
find-delete_loop zero [] span name h = find_empty span name
find-delete_loop zero (l ∷ d) span name h = absurd (omega arith)
find-delete_loop (suc fuel) d span name h = elim (Option-cases (find d span name)) [
  | inl e ↦ rw (e, delete_loop) e
  | inr (k, e) ↦
      rw (e, delete_loop)
        (find-delete_loop fuel (remove d span k).0 (remove d span k).1 name
          (omega (arith, find-remove d span name {k = k} e)))
]

find-to_upper :
    (d : Document) (span : Span) (name : Bytes) → find d span (to_upper name) ≡ find d span name
unfolding find to_upper
find-to_upper d span name = rw (map-upper_idem name) refl

-- `Delete` ends, after one round for each line of the document at most, and then the component has no
-- property of the name left, whatever groups and nested components the document has.
pub find-delete :
    (d : Document) (span : Span) (name : Bytes)
    → find (delete d span name).0 (delete d span name).1 name ≡ none
unfolding delete
find-delete d span name =
    sym (find-to_upper _ _ name) ∙ find-delete_loop (length d) d span (to_upper name) (omega arith)
