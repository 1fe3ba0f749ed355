-- ===== src/Tests/Content.antt =====
-- internal/contentline on concrete texts.
use edav.Base.{ℕ, zero, suc, ◌≤◌, true, [], ◌∷◌, ◌++◌, none, some, ◌≡◌, refl, inl, arith}
use edav.Base.Bytes.{Bytes, codes}
use edav.ContentLine.Lines.{crlf, unfold_text}
use edav.ContentLine.Fold.{limit, fold, fold_loop, back_off, is_continuation}
use edav.ContentLine.Fold.Termination.{run_length, ShortRuns, fold_total, fold_loop_diverges}
use edav.ContentLine.Fold.RoundTrip.{unfold_text-fold}
use edav.ContentLine.Escape.{escape, unescape}
use edav.ContentLine.Escape.RoundTrip.{drop_cr, unescape-escape}
use edav.ContentLine.Document.{parse, bytes, doc_eol}
use edav.ContentLine.Document.RoundTrip.{missing_eol, bytes-parse}

-- A folded property, and a last line without a terminator.
abbrev sample : Bytes
sample = codes "item1.TEL;TYPE=cell:1\r\nNOTE:a\r\n b\r\nEND:VCARD"

abbrev note : Bytes
note = codes "a,b;c\\d\r\ne"

abbrev repeat : ℕ → ℕ → Bytes
repeat zero c = []
repeat (suc n) c = c ∷ repeat n c

abbrev long : Bytes
long = repeat 100 b'x'

abbrev long_folded : Bytes
long_folded = repeat 75 b'x' ++ (crlf ++ (b' ' ∷ repeat 25 b'x'))

unfold_sample : unfold_text (codes "NOTE:a\r\n b") ≡ codes "NOTE:ab"
unfolding unfold_text
unfold_sample = refl

fold-long : fold long crlf ≡ some long_folded
unfolding fold fold_loop back_off
fold-long = refl

bytes-parse_example :
    bytes (parse sample) ≡ some (sample ++ missing_eol (doc_eol (parse sample)) sample)
bytes-parse_example = bytes-parse sample

unescape-escape_example : unescape (escape note) ≡ drop_cr note
unescape-escape_example = unescape-escape note

ShortRuns-repeat : (n : ℕ) → ShortRuns (repeat n b'x')
unfolding is_continuation
ShortRuns-repeat zero = tt
ShortRuns-repeat (suc n) = (omega arith, ShortRuns-repeat n)

short_runs : ShortRuns long
short_runs = ShortRuns-repeat 100

long_run : limit ≤ run_length (repeat 80 0x80)
unfolding is_continuation
long_run = omega arith

fold_total_example : (t : Bytes) × (fold long crlf ≡ some t)
fold_total_example = fold_total long crlf short_runs

unfold_text-fold_example : unfold_text long_folded ≡ long
unfold_text-fold_example =
    unfold_text-fold long crlf {t = long_folded} (inl refl) short_runs refl fold-long

fold_loop_diverges_example : fold_loop 1000 crlf true (b'x' ∷ repeat 80 0x80) ≡ none
fold_loop_diverges_example = fold_loop_diverges b'x' (repeat 80 0x80) crlf long_run 1000
