-- ===== src/Vcard/Unchanged.antt =====
-- internal/vcard/edit.go: writing back the values that a card has, as saving a form without an edit does.
use edav.Base.{
  ℕ, zero, suc, true, ◌&&◌, List, [], ◌∷◌, none, some, any, length, get_elem?, drop, ltb, ◌≡◌, refl,
  sym, ◌∙◌, arith, Bool-cases, Option-cases, inl, inr,
}
use edav.Base.Bytes.{Bytes, codes, equal, equal_self, equal_fold, to_lower, lower}
use edav.ContentLine.Escape.{unescape}
use edav.ContentLine.Lines.Params.{params_of}
use edav.ContentLine.Document.{Line, Document}
use edav.ContentLine.Edit.{Span, contains, find_all_from, find_all}
use edav.Vcard.{
  Card, known_type, first_type, type_param, has_type, values_at, values, set_existing, write_values,
  remove_rest, set_all,
}

lower_idem : (c : ℕ) → lower (lower c) ≡ lower c
unfolding lower
lower_idem c = ground arith

to_lower_idem : (s : Bytes) → to_lower (to_lower s) ≡ to_lower s
unfolding to_lower
to_lower_idem [] = refl
to_lower_idem (c ∷ s) = cc (lower_idem c, to_lower_idem s)

equal_fold-to_lower : (s : Bytes) → equal_fold s (to_lower s) ≡ true
unfolding equal_fold
equal_fold-to_lower s = rw (to_lower_idem s) (equal_self (to_lower s))

any-known_type :
    (vs : List Bytes) {t : Bytes} → known_type vs ≡ some t → any (λ v. equal_fold v t) vs ≡ true
unfolding known_type
any-known_type [] h = ground arith
any-known_type (v ∷ vs) {t} h = ground (arith, any-known_type vs {t = t}, equal_fold-to_lower v)

first_type-known :
    (v : Bytes) (vs : List Bytes) {t : Bytes}
    → known_type (v ∷ vs) ≡ some t
    → first_type (v ∷ vs) ≡ t
unfolding first_type
first_type-known v vs h = rw (h, first_type) refl

first_type-unknown :
    (v : Bytes) (vs : List Bytes) → known_type (v ∷ vs) ≡ none → first_type (v ∷ vs) ≡ to_lower v
unfolding first_type
first_type-unknown v vs h = rw (h, first_type) refl

has_type-first_type :
    (vs : List Bytes) (c : ℕ) (want : Bytes)
    → first_type vs ≡ c ∷ want
    → any (λ v. equal_fold v (c ∷ want)) vs ≡ true
has_type-first_type [] c want h = absurd (unfold first_type in ground (arith, h))
has_type-first_type (v ∷ vs) c want h = elim (Option-cases (known_type (v ∷ vs))) [
  | inl e ↦ rw (sym h ∙ first_type-unknown v vs e) (ground (arith, equal_fold-to_lower v))
  | inr (t, e) ↦ rw (sym h ∙ first_type-known v vs {t = t} e) (any-known_type (v ∷ vs) {t = t} e)
]

-- A line has the type that it shows.
has_type-type_param : (params : Bytes) → has_type params (type_param params) ≡ true
unfolding type_param has_type
has_type-type_param params = go (first_type (params_of params (codes "TYPE"))) refl
  where
    go : (t : Bytes) → first_type (params_of params (codes "TYPE")) ≡ t → has_type params t ≡ true
    go [] h = refl
    go (c ∷ want) h = has_type-first_type (params_of params (codes "TYPE")) c want h

set_existing-same :
    (d : Document) (i : ℕ) {l : Line}
    → get_elem? d i ≡ some l
    → set_existing d i (record { value = unescape l.value; type = type_param l.params }) ≡ d
unfolding set_existing
set_existing-same d i {l} h =
    ground (arith, h, has_type-type_param l.params, equal_self (unescape l.value))

-- All indices lie in the document.
abbrev AllIn : Document → List ℕ → Type 0
AllIn d [] = Unit
AllIn d (i ∷ is) = ((l : Line) × (get_elem? d i ≡ some l)) × AllIn d is

values_at-cons :
    (d : Document) (i : ℕ) (is : List ℕ) {l : Line}
    → get_elem? d i ≡ some l
    → values_at d (i ∷ is)
      ≡ record { value = unescape l.value; type = type_param l.params } ∷ values_at d is
unfolding values_at
values_at-cons d i is e = ground arith

write_values-same :
    (v : Card) (name : Bytes) (is : List ℕ)
    → AllIn v.doc is
    → write_values v name is (values_at v.doc is) ≡ v
unfolding write_values
write_values-same v name [] h = unfold values_at in refl
write_values-same v name (i ∷ is) ((l, e), h) =
    rw (values_at-cons v.doc i is {l = l} e)
      (rw (set_existing-same v.doc i {l = l} e, write_values) (write_values-same v name is h))

length-values_at : (d : Document) (is : List ℕ) → AllIn d is → length (values_at d is) ≡ length is
unfolding values_at
length-values_at d [] h = refl
length-values_at d (i ∷ is) ((l, e), h) = ground (arith, e, length-values_at d is h)

drop_all : (is : List ℕ) → drop (length is) is ≡ []
drop_all [] = refl
drop_all (i ∷ is) = drop_all is

drop-cons :
    (d : Document) (i : ℕ) {x : Line} {ls : List Line}
    → drop i d ≡ x ∷ ls
    → (get_elem? d i ≡ some x) × (drop (suc i) d ≡ ls)
drop-cons [] zero h = ground arith
drop-cons [] (suc i) h = ground arith
drop-cons (l ∷ d) zero h = ground arith
drop-cons (l ∷ d) (suc i) {x} {ls} h = drop-cons d i {x = x} {ls = ls} h

AllIn-find_all_from :
    (d : Document) (span : Span) (name : Bytes) (i : ℕ) (ls : List Line)
    → drop i d ≡ ls
    → AllIn d (find_all_from d span name i ls)
unfolding find_all_from
AllIn-find_all_from d span name i [] h = tt
AllIn-find_all_from d span name i (x ∷ ls) h =
    let (here, behind) = drop-cons d i {x = x} {ls = ls} h in
    let rest = AllIn-find_all_from d span name (suc i) ls behind in
    elim (Bool-cases (ltb i span.end)) [
      | inl e ↦ elim (Bool-cases (equal x.name name && contains d span i)) [
        | inl f ↦ rw (e, f) ((x, here), rest)
        | inr f ↦ rw (e, f) rest
      ]
      | inr e ↦ rw e tt
    ]

AllIn-find_all : (d : Document) (span : Span) (name : Bytes) → AllIn d (find_all d span name)
unfolding find_all
AllIn-find_all d span name = AllIn-find_all_from d span _ span.start (drop span.start d) refl

-- Writing back the values that the card shows for a property, each with the type that it shows, leaves
-- the card as it is.
pub set_all-values : (v : Card) (name : Bytes) → set_all v name (values v name) ≡ v
unfolding set_all values
set_all-values v name =
    let is = find_all v.doc v.span name in
    let known = AllIn-find_all v.doc v.span name in
    rw (write_values-same v name is known, length-values_at v.doc is known, drop_all is)
      (unfold remove_rest in refl)
