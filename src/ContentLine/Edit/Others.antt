-- ===== src/ContentLine/Edit/Others.antt =====
-- internal/contentline/contentline.go: the lines that an edit of a property does not touch.
use edav.Base.{
  ℕ, zero, suc, ◌+◌, Bool, true, false, not, ◌&&◌, List, [], ◌∷◌, ◌++◌, Option, none, some, any,
  keep, length, get_elem?, set, take, drop, ◌≡◌, refl, sym, ◌∙◌, ap, inl, inr, arith, Bool-cases,
  Option-cases, append_assoc, append-nil,
}
use edav.Base.Bytes.{Bytes, equal, equal_iff, to_upper, map-upper_idem}
use edav.ContentLine.Document.{Line, Document, is_empty, doc_eol}
use edav.ContentLine.Edit.{
  Span, contains, find_from, find, added_line, insert, remove_loop, remove, change, set_value,
}

-- A line in no group with none of the names.
abbrev pub is_other : List Bytes → Line → Bool
is_other names l = is_empty l.group && not (any (equal l.name) names)

-- Lists of which some elements are looked at.
module _ (p : Line → Bool) where
  pub keep-append : (xs ys : List Line) → keep p (xs ++ ys) ≡ keep p xs ++ keep p ys
  keep-append [] ys = refl
  keep-append (x ∷ xs) ys = ground (arith, keep-append xs ys)

  keep-set :
      (d : List Line) (i : ℕ) (l : Line) {k : Line}
      → get_elem? d i ≡ some k
      → p k ≡ false
      → p l ≡ false
      → keep p (set d i l) ≡ keep p d
  keep-set [] i l h e f = refl
  keep-set (x ∷ d) zero l {k} h e f = let same : x ≡ k = ground arith in ground (arith, same)
  keep-set (x ∷ d) (suc i) l {k} h e f = ground (arith, keep-set d i l {k = k})

  keep-insert :
      (d : List Line) (i : ℕ) (l : Line)
      → p l ≡ false
      → keep p (take i d ++ l ∷ drop i d) ≡ keep p d
  keep-insert d zero l e = ground arith
  keep-insert [] (suc i) l e = ground arith
  keep-insert (x ∷ d) (suc i) l e = ground (arith, keep-insert d i l)

  keep-cut_out :
      (d : List Line) (i : ℕ) {k : Line}
      → get_elem? d i ≡ some k
      → p k ≡ false
      → keep p (take i d ++ drop (suc i) d) ≡ keep p d
  keep-cut_out [] i h e = absurd (ground arith)
  keep-cut_out (x ∷ d) zero {k} h e = let same : x ≡ k = ground arith in ground (arith, same)
  keep-cut_out (x ∷ d) (suc i) {k} h e = ground (arith, keep-cut_out d i {k = k})

module _ (names : List Bytes) where
  keep-remove_loop :
      (d : Document) (span : Span) (group : Bytes) (j : ℕ) (kept ls : List Line)
      → is_empty group ≡ false
      → keep (is_other names) (remove_loop d span group j kept ls)
        ≡ keep (is_other names) kept ++ keep (is_other names) ls
  unfolding remove_loop
  keep-remove_loop d span group j kept [] e = sym (append-nil (keep (is_other names) kept))
  keep-remove_loop d span group j kept (l ∷ ls) e =
      let p = is_other names in
      let gone = keep-remove_loop d span group (suc j) kept ls e in
      let stays = keep-remove_loop d span group (suc j) (kept ++ l ∷ []) ls e in
      let split = keep-append p kept (l ∷ []) in
      let again = append_assoc (keep p kept) (keep p (l ∷ [])) (keep p ls) in
      elim (Bool-cases (equal l.group group && contains (kept ++ drop (length kept) d) span j)) [
        | inl f ↦
            let same : is_empty l.group ≡ false = ground (arith, equal_iff l.group group) in
            ground (arith, gone, same)
        | inr f ↦ rw f (
            stays
            ∙ (ap (λ x. x ++ keep p ls) split
                ∙ (again ∙ ap (λ x. keep p kept ++ x) (ground arith))))
      ]

  find_from-named :
      (d : Document) (span : Span) (name : Bytes) (i : ℕ) (ls : List Line) {k : ℕ}
      → find_from d span name i ls ≡ some k
      → (m : ℕ) × (l : Line) × (k ≡ i + m) × (get_elem? ls m ≡ some l) × (equal l.name name ≡ true)
  unfolding find_from
  find_from-named d span name i [] h = absurd (ground arith)
  find_from-named d span name i (l ∷ ls) {k} h =
      elim (Bool-cases (equal l.name name && contains d span i)) [
        | inl e ↦ (0, l, ground arith, refl, ground arith)
        | inr e ↦
            let (m, x, s, t, u) = find_from-named d span name (suc i) ls {k = k} (ground arith) in
            (suc m, x, omega (arith, s), t, u)
      ]

  get_elem?-drop : (n m : ℕ) (d : List Line) → get_elem? (drop n d) m ≡ get_elem? d (n + m)
  get_elem?-drop zero m d = ap (get_elem? d) (omega arith)
  get_elem?-drop (suc n) m [] = refl
  get_elem?-drop (suc n) m (x ∷ d) =
      let shifted : suc (n + m) ≡ suc n + m = omega arith in
      get_elem?-drop n m d ∙ ap (get_elem? (x ∷ d)) shifted

  -- The line that `find` gives has the name, so it is none of the others.
  find-named :
      (d : Document) (span : Span) (name : Bytes) {k : ℕ}
      → any (equal (to_upper name)) names ≡ true
      → find d span name ≡ some k
      → (l : Line) × (get_elem? d k ≡ some l)
        × (is_other names l ≡ false)
        × (equal l.name (to_upper name) ≡ true)
  unfolding find
  find-named d span name {k} mem h =
      let (m, l, s, t, u) =
        find_from-named d span (to_upper name) span.start (drop span.start d) {k = k} h in
      let same : l.name ≡ to_upper name = ground (arith, equal_iff l.name (to_upper name)) in
      (l, rw s (sym (get_elem?-drop span.start m d) ∙ t), ground (arith, same, mem), u)

  others-remove :
      (d : Document) (span : Span) (i : ℕ) {l : Line}
      → get_elem? d i ≡ some l
      → is_other names l ≡ false
      → keep (is_other names) (remove d span i).0 ≡ keep (is_other names) d
  unfolding remove
  others-remove d span i {l} h e = elim (Bool-cases (is_empty l.group)) [
    | inl f ↦ rw (h, f, remove) (keep-cut_out (is_other names) d i {k = l} h e)
    | inr f ↦ rw (h, f, remove) (keep-remove_loop d span l.group 0 [] d f)
  ]

  others-insert :
      (d : Document) (span : Span) (l : Line)
      → ((eol : Bytes) → is_other names (record l { eol = eol; added = true }) ≡ false)
      → keep (is_other names) (insert d span l).0 ≡ keep (is_other names) d
  unfolding insert
  others-insert d span l e =
      keep-insert (is_other names) d _ (record l { eol = doc_eol d; added = true }) (e (doc_eol d))

  change-same :
      (l : Line) (params : Option Bytes) (value : Bytes)
      → is_other names (change l params value) ≡ is_other names l
  change-same l none value = refl
  change-same l (some p) value = refl

  -- An edit of a property leaves every line in no group that has another name as it is, and in its place
  -- among such lines.
  pub others-set_value :
      (d : Document) (span : Span) (name value : Bytes) (params : Option Bytes)
      → any (equal (to_upper name)) names ≡ true
      → keep (is_other names) (set_value d span name value params).0 ≡ keep (is_other names) d
  unfolding set_value to_upper
  others-set_value d span name value params mem =
      elim (Option-cases (find d span (to_upper name))) [
        | inl e ↦ elim (Bool-cases (is_empty value)) [
          | inl f ↦ rw (e, f, set_value) refl
          | inr f ↦
              rw (e, f, set_value)
                (others-insert d span
                  (added_line (to_upper name) (elim params [ none ↦ [] | some p ↦ p ]) value)
                  (λ eol. ground (arith, mem)))
        ]
        | inr (i, e) ↦
            let (l, g, other, same) =
              find-named d span (to_upper name) {k = i} (rw (map-upper_idem name) mem) e in
            elim (Bool-cases (is_empty value)) [
              | inl f ↦ rw (e, f, set_value) (others-remove d span i {l = l} g other)
              | inr f ↦
                  rw (e, f, g, set_value)
                    (keep-set (is_other names) d i (change l params value) {k = l} g other
                      (change-same l params value ∙ other))
            ]
      ]
