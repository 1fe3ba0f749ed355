-- ===== src/Ical/Duration.antt =====
-- internal/ical/event.go: formatDuration and parseDuration. A duration is its number of nanoseconds, as a
-- 64-bit integer in two's complement where it may be negative.
pub mod Text
pub mod RoundTrip
use edav.Base.{
  ℕ, ◌+◌, ◌-◌, ◌*◌, ◌/◌, ◌%◌, ◌^◌, Bool, true, false, ◌&&◌, List, [], ◌∷◌, ◌++◌, Option, none, some,
  ◌==◌, ltb, leb, if◌then◌else◌, ◌>>=◌,
}
use edav.Base.Bytes.{Bytes, codes}
use edav.Base.Decimal.{format_int, parse_int}
use edav.Base.Int.{ℤ, pos, negsuc}
use edav.Base.Time.{trim_space}

abbrev pub one_second : ℕ
one_second = 1000000000

abbrev pub one_minute : ℕ
one_minute = 60 * one_second

abbrev pub one_hour : ℕ
one_hour = 60 * one_minute

abbrev pub day : ℕ
day = 24 * one_hour

-- A count and its unit, which is left out at 0.
unfoldable pub counted : ℕ → ℕ → Bytes
counted n letter = if n == 0 then [] else format_int n ++ letter ∷ []

unfoldable pub format_clock : ℕ → Bytes
unfolding counted
format_clock d =
    if d == 0
    then []
    else b'T'
      ∷ (counted (d / one_hour) b'H'
          ++ (counted (d % one_hour / one_minute) b'M'
              ++ counted (d % one_hour % one_minute / one_second) b'S'))

unfoldable pub format_duration : ℕ → Bytes
unfolding format_clock counted
format_duration d =
    if d == 0 then codes "PT0S" else b'P' ∷ (counted (d / day) b'D' ++ format_clock (d % day))

-- The loop of `parseDuration`: the digits of the number, whether `T` has been read, and the total.
pub record Reading : Type 0 where
  pub number : Bytes
  pub in_time : Bool
  pub total : ℕ

abbrev pub is_digit : ℕ → Bool
is_digit c = leb b'0' c && leb c b'9'

-- The unit of a letter; a month has none.
unfoldable pub unit_of : Bool → ℕ → Option ℕ
unit_of in_time c =
    if c == b'W'
    then some (7 * day)
    else (if c == b'D'
        then some day
        else (if c == b'H'
            then some one_hour
            else (if c == b'M'
                then (if in_time then some one_minute else none)
                else (if c == b'S' then some one_second else none))))

abbrev pub scanned : Bytes → Option ℕ
scanned number = elim (parse_int number) [
  | none ↦ none
  | some (pos n) ↦ some n
  | some (negsuc n) ↦ none
]

unfoldable pub read_letter : Reading → ℕ → Option Reading
unfolding unit_of
read_letter r c = elim (scanned r.number) [
  | none ↦ none
  | some n ↦ elim (unit_of r.in_time c) [
    | none ↦ none
    | some unit ↦
        some (record { number = []; in_time = r.in_time; total = (r.total + n * unit) % 2 ^ 64 })
  ]
]

unfoldable pub read_byte : Reading → ℕ → Option Reading
unfolding read_letter
read_byte r c =
    if c == b'T'
    then some (record r { in_time = true })
    else (if is_digit c then some (record r { number = r.number ++ c ∷ [] }) else read_letter r c)

unfoldable pub read_all : Reading → Bytes → Option Reading
unfolding read_byte
read_all r [] = some r
read_all r (c ∷ s) = elim (read_byte r c) [ none ↦ none | some q ↦ read_all q s ]

abbrev pub nothing_read : Reading
nothing_read = record { number = []; in_time = false; total = 0 }

unfoldable pub trim_signs : Bytes → Bytes
trim_signs [] = []
trim_signs (c ∷ s) = elim (c == b'+') [
  | true ↦ trim_signs s
  | false ↦ elim (c == b'-') [ true ↦ trim_signs s | false ↦ c ∷ s ]
]

abbrev pub is_negative : Bytes → Bool
is_negative [] = false
is_negative (c ∷ s) = c == b'-'

abbrev pub signed_total : Bool → ℕ → ℕ
signed_total negative total = if negative then (2 ^ 64 - total) % 2 ^ 64 else total

-- What follows the signs.
unfoldable pub parse_unsigned : Bool → Bytes → Option ℕ
unfolding read_all
parse_unsigned negative [] = none
parse_unsigned negative (c ∷ s) =
    if c == b'P'
    then read_all nothing_read s >>= (λ r. some (signed_total negative r.total))
    else none

unfoldable pub parse_duration : Bytes → Option ℕ
unfolding trim_space trim_signs parse_unsigned
parse_duration text = let s = trim_space text in parse_unsigned (is_negative s) (trim_signs s)
