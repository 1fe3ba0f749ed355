-- ===== src/Base/Time.antt =====
-- Calls of Go's packages time and strings on instants: an instant is its number of seconds since the
-- beginning of the year 0, in the Gregorian calendar without an end, so the zero time of Go is a year
-- after it. `trim_space` knows the white space of ASCII.
use Prim.Native.Nat.{ℕ, zero, suc, ◌+◌, ◌-◌, ◌*◌, ◌/◌, ◌%◌}
use mathlib.Core.Bool.{Bool, true, false, not, ◌&&◌, ◌||◌}
use mathlib.Core.List.{[], ◌∷◌, ◌++◌, reverse}
use mathlib.Core.Option.{Option, none, some}
use edav.Base.Tests.{ltb, leb, ◌==◌, if◌then◌else◌, ◌>>=◌}
use edav.Base.Bytes.{Bytes}
use edav.Base.Decimal.{format_int}

abbrev pub day : ℕ
day = 86400

-- The first of January of the year 1.
abbrev pub zero_time : ℕ
zero_time = 31622400

abbrev pub unix_epoch : ℕ
unix_epoch = zero_time + 62135596800

unfoldable pub is_space : ℕ → Bool
is_space c = c == 32 || (leb 9 c && leb c 13)

unfoldable pub trim_space_left : Bytes → Bytes
unfolding is_space
trim_space_left [] = []
trim_space_left (c ∷ s) = elim (is_space c) [ true ↦ trim_space_left s | false ↦ c ∷ s ]

unfoldable pub trim_space : Bytes → Bytes
unfolding trim_space_left
trim_space s = reverse (trim_space_left (reverse (trim_space_left s)))

-- A number of exactly so many digits, and what follows it.
unfoldable pub digits : ℕ → ℕ → Bytes → Option (ℕ × Bytes)
digits zero n s = some (n, s)
digits (suc k) n [] = none
digits (suc k) n (c ∷ s) = elim (leb b'0' c && leb c b'9') [
  | true ↦ digits k (n * 10 + (c - b'0')) s
  | false ↦ none
]

unfoldable pub is_leap : ℕ → Bool
is_leap y = (y % 4 == 0 && not (y % 100 == 0)) || y % 400 == 0

-- The days of a month of 1 to 12.
unfoldable pub days_in : ℕ → ℕ → ℕ
unfolding is_leap
days_in y m =
    if m == 2
    then (if is_leap y then 29 else 28)
    else (if m == 4 || (m == 6 || (m == 9 || m == 11)) then 30 else 31)

-- The days of the months before month `k + 1`, and of the years before `y`.
unfoldable pub days_before_month : ℕ → ℕ → ℕ
unfolding days_in
days_before_month y zero = 0
days_before_month y (suc k) = days_before_month y k + days_in y (suc k)

unfoldable pub days_before_year : ℕ → ℕ
days_before_year y = 365 * y + (y + 3) / 4 + (y + 399) / 400 - (y + 99) / 100

unfoldable pub date : ℕ → ℕ → ℕ → ℕ
unfolding days_before_year days_before_month
date y m d = (days_before_year y + days_before_month y (m - 1) + (d - 1)) * day

unfoldable pub is_date : ℕ → ℕ → ℕ → Bool
unfolding days_in
is_date y m d = leb 1 m && (leb m 12 && (leb 1 d && leb d (days_in y m)))

-- The layout `20060102`, with what follows it.
unfoldable pub parse_day : Bytes → Option (ℕ × Bytes)
unfolding digits is_date date
parse_day s = do
  y ← digits 4 0 s
  m ← digits 2 0 y.1
  d ← digits 2 0 m.1
  if is_date y.0 m.0 d.0 then some (date y.0 m.0 d.0, d.1) else none

-- The layout `150405`.
unfoldable pub parse_clock : Bytes → Option (ℕ × Bytes)
unfolding digits
parse_clock s = do
  h ← digits 2 0 s
  m ← digits 2 0 h.1
  t ← digits 2 0 m.1
  if ltb h.0 24 && (ltb m.0 60 && ltb t.0 60) then some (h.0 * 3600 + m.0 * 60 + t.0, t.1) else none

-- A number with so many digits at least.
unfoldable pub fixed : ℕ → ℕ → Bytes
fixed zero n = []
fixed (suc k) n = fixed k (n / 10) ++ (b'0' + n % 10) ∷ []

-- The year, month and day of a number of days since the beginning of the year 0: counted from the first
-- of March of the year -400, in eras of 400 years.
unfoldable pub civil : ℕ → ℕ × ℕ × ℕ
civil days =
    let z = days + 146037 in
    let era = z / 146097 in
    let doe = z % 146097 in
    let yoe = (doe + doe / 36524 - doe / 1460 - doe / 146096) / 365 in
    let doy = doe + yoe / 100 - (365 * yoe + yoe / 4) in
    let mp = (5 * doy + 2) / 153 in
    let m = elim (ltb mp 10) as (λ _. ℕ) [ true ↦ mp + 3 | false ↦ mp - 9 ] in
    let late = elim (leb m 2) as (λ _. ℕ) [ true ↦ 1 | false ↦ 0 ] in
    (yoe + era * 400 + late - 400, m, doy + 1 - (153 * mp + 2) / 5)

unfoldable pub format_year : ℕ → Bytes
unfolding fixed format_int
format_year y = if ltb y 10000 then fixed 4 y else format_int y

-- The layouts `20060102` and `20060102T150405`.
unfoldable pub format_date : ℕ → Bytes
unfolding civil format_year fixed
format_date t = let c = civil (t / day) in format_year c.0 ++ fixed 2 c.1 ++ fixed 2 c.2

unfoldable pub format_date_time : ℕ → Bytes
unfolding format_date fixed
format_date_time t =
    let s = t % day in
    format_date t ++ b'T' ∷ fixed 2 (s / 3600) ++ fixed 2 (s / 60 % 60) ++ fixed 2 (s % 60)

-- The layout `20060102T150405Z`.
unfoldable pub format_utc : ℕ → Bytes
unfolding format_date_time
format_utc t = format_date_time t ++ b'Z' ∷ []
