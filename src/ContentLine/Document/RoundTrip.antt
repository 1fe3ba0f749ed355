-- ===== src/ContentLine/Document/RoundTrip.antt =====
-- internal/contentline/contentline.go: `Bytes` on a document that is not edited.
use edav.Base.{
  ℕ, zero, suc, true, false, ◌&&◌, ◌||◌, [], ◌∷◌, ◌++◌, some, ◌≡◌, refl, inl, inr, ◌≤◌, arith,
  length, append_assoc, append-nil, if◌then◌else◌,
}
use edav.Base.Bytes.{Bytes}
use edav.ContentLine.Lines.{next_logical_line}
use edav.ContentLine.Lines.Logical.{
  breaks, breaks-append, Ended, joined-next_logical_line, next_logical_line-Ended,
  next_logical_line-lt,
}
use edav.ContentLine.Document.{
  Document, is_empty, new_line, parse_loop, parse, doc_eol, render_line, render, bytes,
}

-- What `Bytes` adds: a terminator, if the input has a last line without one.
abbrev pub missing_eol : Bytes → Bytes → Bytes
missing_eol eol s = if is_empty s || breaks s then [] else eol

-- A terminated line in front of `rest` leaves the question to `rest`, or answers it.
missing_eol-append :
    (eol text e rest : Bytes)
    → breaks e ≡ true
    → missing_eol eol (text ++ (e ++ rest)) ≡ missing_eol eol rest
missing_eol-append eol text [] rest h = cc
missing_eol-append eol [] (x ∷ e) [] h = ground (arith, append-nil e)
missing_eol-append eol (y ∷ text) (x ∷ e) [] h =
    ground (arith, append-nil e, breaks-append (y ∷ text) x e)
missing_eol-append eol [] (x ∷ e) (y ∷ rest) h = ground (arith, breaks-append (x ∷ e) y rest)
missing_eol-append eol (z ∷ text) (x ∷ e) (y ∷ rest) h =
    ground (
      arith,
      breaks-append (z ∷ text ++ (x ∷ e)) y rest,
      append_assoc (z ∷ text) (x ∷ e) (y ∷ rest),
    )

render-step :
    (eol text e rest : Bytes) (ls : Document)
    → Ended (text, e, rest)
    → render eol ls ≡ some (rest ++ missing_eol eol rest)
    → render eol (elim (is_empty text && is_empty e) [ true ↦ [] | false ↦ new_line text e ∷ ls ])
      ≡ some ((text ++ (e ++ rest)) ++ missing_eol eol (text ++ (e ++ rest)))
unfolding render render_line new_line
render-step eol [] [] rest ls (inl h) ih = cc
render-step eol [] [] rest ls (inr h) ih = ground arith
render-step eol (x ∷ text) [] rest ls (inl h) ih = cc
render-step eol (x ∷ text) [] [] ls (inr h) ih =
    ground (arith, h.is_open, append-nil text, append-nil (text ++ eol))
render-step eol (x ∷ text) [] (y ∷ rest) ls (inr h) ih = cc (h.no_rest)
render-step eol [] (x ∷ e) rest ls (inl h) ih =
    let m = missing_eol eol rest in
    rw (missing_eol-append eol [] (x ∷ e) rest h) (ground (arith, append_assoc (x ∷ e) rest m))
render-step eol (z ∷ text) (x ∷ e) rest ls (inl h) ih =
    let m = missing_eol eol rest in
    rw (missing_eol-append eol (z ∷ text) (x ∷ e) rest h) (
      ground (
        arith,
        append_assoc (z ∷ text) (x ∷ e) (rest ++ m),
        append_assoc (z ∷ text) (x ∷ e ++ rest) m,
        append_assoc (x ∷ e) rest m,
      ))
render-step eol text (x ∷ e) rest ls (inr h) ih = ground arith

render-parse_loop :
    (fuel : ℕ) (eol s : Bytes)
    → length s ≤ fuel
    → render eol (parse_loop fuel s) ≡ some (s ++ missing_eol eol s)
unfolding parse_loop
render-parse_loop zero eol [] h = unfold render in refl
render-parse_loop zero eol (c ∷ s) h = absurd (omega arith)
render-parse_loop (suc fuel) eol [] h = unfold render in refl
render-parse_loop (suc fuel) eol (c ∷ s) h =
    let r = next_logical_line (c ∷ s) in
    let ih = render-parse_loop fuel eol r.2 (omega (arith, next_logical_line-lt c s)) in
    let step =
      render-step eol r.0 r.1 r.2 (parse_loop fuel r.2) (next_logical_line-Ended (c ∷ s)) ih in
    rw (joined-next_logical_line (c ∷ s)) at step

-- `Bytes` after `Parse` gives the input back byte for byte, and adds the document's own terminator
-- behind a last line that has none. Both always return.
pub bytes-parse :
    (raw : Bytes) → bytes (parse raw) ≡ some (raw ++ missing_eol (doc_eol (parse raw)) raw)
unfolding bytes parse
bytes-parse raw = render-parse_loop (length raw) _ raw (omega arith)
