-- ===== src/Vcard/Contact/Names.antt =====
-- internal/vcard/contact.go: the structured values that a form writes.
use edav.Base.{
  true, false, List, [], ◌∷◌, ◌++◌, map, ◌≡◌, refl, ap, ◌∙◌, arith, inl, inr, Bool-cases, ◌&&◌, ℕ,
  append-nil,
}
use edav.Base.Bytes.{Bytes}
use edav.ContentLine.Escape.{escape_component, split_structured}
use edav.ContentLine.Escape.RoundTrip.{drop_cr, join_components, split_structured-join}
use edav.ContentLine.Document.{is_empty}
use edav.Vcard.Contact.{
  first_or_empty, second_or_empty, read_names, structured_name, escaped_rest, rest_of,
  organisation_value,
}

escaped_rest-join :
    (p : Bytes) (ps : List Bytes) → escape_component p ++ escaped_rest ps ≡ join_components (p ∷ ps)
unfolding escaped_rest
escaped_rest-join p [] = append-nil (escape_component p)
escaped_rest-join p (q ∷ ps) = ap (λ s. escape_component p ++ (b';' ∷ s)) (escaped_rest-join q ps)

-- The value that a form writes for an organisation has the form's name in front of the fields that the
-- value had behind its first one, carriage returns aside.
split_structured-organisation_value :
    (c : ℕ) (organisation existing : Bytes)
    → split_structured (organisation_value (c ∷ organisation) existing)
      ≡ map drop_cr ((c ∷ organisation) ∷ rest_of (split_structured existing))
unfolding organisation_value
split_structured-organisation_value c organisation existing =
    ap split_structured (escaped_rest-join (c ∷ organisation) (rest_of (split_structured existing)))
    ∙ split_structured-join (c ∷ organisation) (rest_of (split_structured existing))

structured_name-join :
    (family given : Bytes)
    → (is_empty family && is_empty given) ≡ false
    → structured_name family given ≡ join_components (family ∷ given ∷ [] ∷ [] ∷ [] ∷ [])
unfolding structured_name escape_component
structured_name-join family given h = rw (h, structured_name) refl

-- A value with two parts at least has its first two parts for names.
read_names-parts :
    (s p q : Bytes) {ps : List Bytes} → split_structured s ≡ p ∷ q ∷ ps → read_names s ≡ (p, q)
unfolding read_names split_structured
read_names-parts [] p q {ps} h = absurd (ground arith)
read_names-parts (c ∷ s) p q {ps} h = ap (λ parts. (first_or_empty parts, second_or_empty parts)) h

both_empty :
    (family given : Bytes)
    → (is_empty family && is_empty given) ≡ true
    → read_names (structured_name family given) ≡ (drop_cr family, drop_cr given)
unfolding read_names structured_name
both_empty [] [] e = refl
both_empty [] (c ∷ given) e = absurd (ground arith)
both_empty (c ∷ family) given e = absurd (ground arith)

-- The names that a form writes are the names that are read back, carriage returns aside, semicolons or
-- not.
pub read_names-structured_name :
    (family given : Bytes)
    → read_names (structured_name family given) ≡ (drop_cr family, drop_cr given)
unfolding read_names structured_name
read_names-structured_name family given = elim (Bool-cases (is_empty family && is_empty given)) [
  | inl e ↦ both_empty family given e
  | inr e ↦ read_names-parts (structured_name family given) (drop_cr family) (drop_cr given) (
      ap split_structured (structured_name-join family given e)
      ∙ split_structured-join family (given ∷ [] ∷ [] ∷ [] ∷ []))
]
