-- ===== src/Base/Decimal.antt =====
-- `strconv.FormatInt` of a number that is not negative, and `strconv.ParseInt(s, 10, 64)`.
use Prim.Native.Nat.{ℕ, zero, suc, ◌+◌, ◌-◌, ◌*◌, ◌/◌, ◌%◌, ◌^◌, ◌≤◌, ◌<◌}
use mathlib.Core.Path.{◌≡◌, refl, ◌∙◌}
use mathlib.Core.Bool.{Bool, true, false, ◌&&◌}
use mathlib.Core.List.{[], ◌∷◌}
use mathlib.Core.Option.{Option, none, some}
use native.Mathlib.Omega.{arith}
use edav.Base.Tests.{◌==◌, leb, ltb, if◌then◌else◌}
use edav.Base.Lists.{All, All-elim}
use edav.Base.Bytes.{Bytes}
use edav.Base.Int.{ℤ, pos, negsuc}

-- The digits of `n` in front of `out`; the fuel only has to exceed the number of digits.
unfoldable pub format_from : ℕ → ℕ → Bytes → Bytes
format_from zero n out = out
format_from (suc fuel) n out =
    let digit = b'0' + n % 10 in
    elim (n / 10 == 0) [ true ↦ digit ∷ out | false ↦ format_from fuel (n / 10) (digit ∷ out) ]

unfoldable pub format_int : ℕ → Bytes
unfolding format_from
format_int n = format_from (suc n) n []

-- The value of a text of digits, behind `n`.
unfoldable pub parse_digits : Bytes → ℕ → Option ℕ
parse_digits [] n = some n
parse_digits (c ∷ s) n =
    if leb b'0' c && leb c b'9' then parse_digits s (n * 10 + (c - b'0')) else none

unfoldable pub parse_magnitude : Bytes → Option ℕ
unfolding parse_digits
parse_magnitude [] = none
parse_magnitude (c ∷ s) = parse_digits (c ∷ s) 0

-- The value with its sign, within 64 bits.
unfoldable pub signed : Bool → ℕ → Option ℤ
signed true zero = some (pos 0)
signed true (suc n) = if leb (suc n) (2 ^ 63) then some (negsuc n) else none
signed false n = if ltb n (2 ^ 63) then some (pos n) else none

unfoldable pub parse_signed : Bool → Bytes → Option ℤ
unfolding parse_magnitude signed
parse_signed negative s = elim (parse_magnitude s) [ none ↦ none | some n ↦ signed negative n ]

unfoldable pub parse_int : Bytes → Option ℤ
unfolding parse_signed
parse_int [] = none
parse_int (c ∷ s) =
    if c == b'-'
    then parse_signed true s
    else if c == b'+'
    then parse_signed false s
    else parse_signed false (c ∷ s)

parse_digits-format_from :
    (fuel n : ℕ) (out : Bytes)
    → n < fuel
    → parse_digits (format_from fuel n out) 0 ≡ parse_digits out n
unfolding parse_digits format_from
parse_digits-format_from zero n out h = absurd (omega arith)
parse_digits-format_from (suc fuel) n out h =
    ground (arith, parse_digits-format_from fuel (n / 10) ((b'0' + n % 10) ∷ out))

-- The first character of a printed number is a digit.
abbrev FirstDigit : Bytes → Type 0
FirstDigit [] = ⊥
FirstDigit (c ∷ s) = (b'0' ≤ c) × (c ≤ b'9')

format_from-FirstDigit : (fuel n : ℕ) (out : Bytes) → n < fuel → FirstDigit (format_from fuel n out)
unfolding format_from
format_from-FirstDigit zero n out h = absurd (omega arith)
format_from-FirstDigit (suc fuel) n out h =
    ground (arith, format_from-FirstDigit fuel (n / 10) ((b'0' + n % 10) ∷ out))

parse_int-FirstDigit :
    (s : Bytes) (n : ℕ)
    → FirstDigit s
    → parse_digits s 0 ≡ some n
    → n < 2 ^ 63
    → parse_int s ≡ some (pos n)
unfolding parse_int
parse_int-FirstDigit [] n f h l = absurd f
parse_int-FirstDigit (c ∷ s) n f h l = ground arith

-- Every number that an int64 holds is read back from its print.
pub parse_int-format_int : (n : ℕ) → n < 2 ^ 63 → parse_int (format_int n) ≡ some (pos n)
unfolding format_int
parse_int-format_int n h =
    parse_int-FirstDigit _ n (format_from-FirstDigit (suc n) n [] (omega arith))
      (parse_digits-format_from (suc n) n [] (omega arith) ∙ unfold parse_digits in refl) h

abbrev pub Digit : ℕ → Type 0
Digit c = (leb b'0' c && leb c b'9') ≡ true

format_from-Digit : (fuel n : ℕ) (out : Bytes) → All Digit out → All Digit (format_from fuel n out)
unfolding format_from
format_from-Digit zero n out h = h
format_from-Digit (suc fuel) n out h =
    let digit = b'0' + n % 10 in
    let is : Digit digit = ground arith in
    All-elim Digit (n / 10 == 0) (digit ∷ out) (format_from fuel (n / 10) (digit ∷ out))
      (λ e. (is, h)) (λ e. format_from-Digit fuel (n / 10) (digit ∷ out) (is, h))

pub format_int-Digit : (n : ℕ) → All Digit (format_int n)
unfolding format_int
format_int-Digit n = format_from-Digit (suc n) n [] tt

-- A printed number starts with a digit.
pub format_int-cons :
    (n : ℕ) → (c : ℕ) × (s : Bytes) × (format_int n ≡ c ∷ s) × (b'0' ≤ c) × (c ≤ b'9')
unfolding format_int
format_int-cons n =
    go (format_from (suc n) n []) refl (format_from-FirstDigit (suc n) n [] (omega arith))
  where
    go :
        (t : Bytes)
        → format_int n ≡ t
        → FirstDigit t
        → (c : ℕ) × (s : Bytes) × (format_int n ≡ c ∷ s) × (b'0' ≤ c) × (c ≤ b'9')
    go [] e f = absurd f
    go (c ∷ s) e (l, u) = (c, s, e, l, u)

pub parse_magnitude-format_int : (n : ℕ) → parse_magnitude (format_int n) ≡ some n
unfolding parse_magnitude
parse_magnitude-format_int n =
    let (c, s, e, _, _) = format_int-cons n in
    let read : parse_digits (format_int n) 0 ≡ some n =
      unfold format_int parse_digits in parse_digits-format_from (suc n) n [] (omega arith) in
    ground (arith, e, read)
