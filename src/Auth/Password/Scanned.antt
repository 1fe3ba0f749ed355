-- ===== src/Auth/Password/Scanned.antt =====
-- internal/auth/password.go: what `Sscanf` reads of the numbers that `Sprintf` has written.
use edav.Base.{
  ℕ, ◌^◌, ◌<◌, true, false, ◌&&◌, [], ◌∷◌, ◌++◌, some, leb, ◌≡◌, refl, sym, ap, ◌∙◌, arith, All,
  append-nil,
}
use edav.Base.Bytes.{Bytes, codes, cut_prefix-append}
use edav.Base.Decimal.{
  format_int, Digit, format_int-Digit, format_int-cons, parse_magnitude-format_int,
}
use edav.Auth.Password.{
  Params, skip_space, digits_of, scan_uint, scan_params, params_text, in_range,
}

-- The text does not go on with a digit.
abbrev Ended : Bytes → Type 0
Ended [] = Unit
Ended (c ∷ s) = (leb b'0' c && leb c b'9') ≡ false

digits_of-Ended : (rest : Bytes) → Ended rest → digits_of rest ≡ ([], rest)
unfolding digits_of
digits_of-Ended [] h = refl
digits_of-Ended (c ∷ s) h = ground arith

digits_of-Digit : (s rest : Bytes) → All Digit s → Ended rest → digits_of (s ++ rest) ≡ (s, rest)
unfolding digits_of
digits_of-Digit [] rest h e = digits_of-Ended rest e
digits_of-Digit (c ∷ s) rest (d, h) e = ground (arith, digits_of-Digit s rest h e)

skip_space-format_int :
    (n : ℕ) (rest : Bytes) → skip_space (format_int n ++ rest) ≡ format_int n ++ rest
unfolding skip_space
skip_space-format_int n rest = let (c, s, e, l, u) = format_int-cons n in rw e (ground arith)

scan_uint-format_int :
    (bits n : ℕ) (rest : Bytes)
    → n < 2 ^ bits
    → Ended rest
    → scan_uint bits (format_int n ++ rest) ≡ some (n, rest)
unfolding scan_uint
scan_uint-format_int bits n rest h e = ground (
  arith,
  skip_space-format_int n rest,
  digits_of-Digit (format_int n) rest (format_int-Digit n) e,
  parse_magnitude-format_int n,
)

-- The parameters that are in range, without the lengths, which are not written.
abbrev pub costs : Params → Params
costs p = record p { salt_length = 0; key_length = 0 }

pub scan_params-params_text :
    (p : Params) → in_range p ≡ true → scan_params (params_text p) ≡ some (costs p)
unfolding scan_params params_text in_range
scan_params-params_text p h =
    let m = format_int p.memory in
    let t = format_int p.time in
    let q = format_int p.parallelism in
    let behind_m = codes ",t=" ++ (t ++ (codes ",p=" ++ q)) in
    let behind_t = codes ",p=" ++ q in
    let last : scan_uint 8 q ≡ some (p.parallelism, []) =
      ap (scan_uint 8) (sym (append-nil q))
      ∙ scan_uint-format_int 8 p.parallelism [] (ground arith) tt in
    ground (
      arith,
      cut_prefix-append (codes "m=") (m ++ behind_m),
      scan_uint-format_int 32 p.memory behind_m (ground arith) refl,
      cut_prefix-append (codes ",t=") (t ++ behind_t),
      scan_uint-format_int 32 p.time behind_t (ground arith) refl,
      cut_prefix-append (codes ",p=") q,
      last,
    )
