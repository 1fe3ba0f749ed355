-- ===== src/Ical/Duration/RoundTrip.antt =====
-- internal/ical/event.go: parseDuration reads what formatDuration writes.
use edav.Base.{
  ℕ, ◌+◌, ◌*◌, ◌/◌, ◌%◌, ◌^◌, ◌<◌, Bool, true, false, [], ◌∷◌, ◌++◌, Option, none, some, ◌==◌, ◌≡◌,
  refl, sym, ap, ◌∙◌, inl, inr, arith, All, Bool-cases, Option-cases, append_assoc, append-nil,
}
use edav.Base.Bytes.{Bytes}
use edav.Base.Decimal.{format_int, parse_int, parse_int-format_int, Digit, format_int-Digit}
use edav.Base.Time.{is_space}
use edav.Ical.Duration.Text.{trim_space-Solid, rest_of, rest_of-Solid}
use edav.Ical.Duration.{
  one_second, one_minute, one_hour, day, counted, format_clock, format_duration, Reading, is_digit,
  unit_of, scanned, read_letter, read_byte, read_all, nothing_read, trim_signs, parse_unsigned,
  parse_duration,
}

abbrev reading : Bool → ℕ → Reading
reading in_time total = record { number = []; in_time = in_time; total = total }

read_all-digits :
    (r : Reading) (s t : Bytes)
    → All Digit s
    → read_all r (s ++ t) ≡ read_all (record r { number = r.number ++ s }) t
unfolding read_all read_byte
read_all-digits r [] t h = rw (append-nil r.number) refl
read_all-digits r (c ∷ s) t (d, h) =
    let q = record r { number = r.number ++ c ∷ [] } in
    let step : read_all r (c ∷ s ++ t) ≡ read_all q (s ++ t) = ground arith in
    step
    ∙ (read_all-digits q s t h
        ∙ ap (λ x. read_all (record r { number = x }) t) (append_assoc r.number (c ∷ []) s))

mod_small : (n : ℕ) → n < 2 ^ 64 → n % 2 ^ 64 ≡ n
mod_small n h = omega arith

-- A letter after a printed number adds that many of its units.
read_all-count :
    (in_time : Bool) (total n letter unit : ℕ) (s : Bytes)
    → unit_of in_time letter ≡ some unit
    → is_digit letter ≡ false
    → (letter == b'T') ≡ false
    → n < 2 ^ 63
    → total + n * unit < 2 ^ 64
    → read_all (reading in_time total) (format_int n ++ letter ∷ s)
      ≡ read_all (reading in_time (total + n * unit)) s
unfolding read_all read_byte read_letter
read_all-count in_time total n letter unit s u d t small fits =
    let r = record (reading in_time total) { number = format_int n } in
    let same : scanned (format_int n) ≡ some n = rw (parse_int-format_int n small, scanned) refl in
    let exact : (total + n * unit) % 2 ^ 64 ≡ total + n * unit =
      mod_small (total + n * unit) fits in
    read_all-digits (reading in_time total) (format_int n) (letter ∷ s) (format_int-Digit n)
    ∙ (let step : read_byte r letter ≡ some (reading in_time (total + n * unit)) =
          ground (arith, same, exact) in
        rw (step, read_all) refl)

read_all-counted :
    (in_time : Bool) (total n letter unit : ℕ) (s : Bytes)
    → unit_of in_time letter ≡ some unit
    → is_digit letter ≡ false
    → (letter == b'T') ≡ false
    → n < 2 ^ 63
    → total + n * unit < 2 ^ 64
    → read_all (reading in_time total) (counted n letter ++ s)
      ≡ read_all (reading in_time (total + n * unit)) s
unfolding counted
read_all-counted in_time total n letter unit s u d t small fits = elim (Bool-cases (n == 0)) [
  | inl e ↦
      let none_left : n ≡ 0 = ground arith in
      rw (e, counted) (ap (λ x. read_all (reading in_time x) s) (rw none_left (omega arith)))
  | inr e ↦
      rw (e, counted)
        (ap (read_all (reading in_time total)) (append_assoc (format_int n) (letter ∷ []) s)
          ∙ read_all-count in_time total n letter unit s u d t small fits)
]

-- The hours, the minutes and the seconds.
read_all-units :
    (t e : ℕ)
    → e % one_second ≡ 0
    → t + e < 2 ^ 63
    → read_all (reading true t) (
        counted (e / one_hour) b'H'
        ++ (counted (e % one_hour / one_minute) b'M'
            ++ counted (e % one_hour % one_minute / one_second) b'S'))
      ≡ some (reading true (t + e))
unfolding unit_of
read_all-units t e whole fits =
    let h = e / one_hour in
    let m = e % one_hour / one_minute in
    let k = e % one_hour % one_minute / one_second in
    let all : t + h * one_hour + m * one_minute + k * one_second ≡ t + e = omega arith in
    read_all-counted true t h b'H' one_hour (counted m b'M' ++ counted k b'S') refl refl refl
      (omega arith) (omega arith)
    ∙ (read_all-counted true (t + h * one_hour) m b'M' one_minute (counted k b'S') refl refl refl
          (omega arith) (omega arith)
        ∙ (ap (read_all (reading true (t + h * one_hour + m * one_minute)))
              (sym (append-nil (counted k b'S')))
            ∙ (read_all-counted true (t + h * one_hour + m * one_minute) k b'S' one_second [] refl
                  refl refl (omega arith) (omega arith)
                ∙ (unfold read_all in ap (λ x. some (reading true x)) all))))

total_of : Option Reading → Option ℕ
total_of none = none
total_of (some r) = some r.total

read_all-clock :
    (t e : ℕ)
    → e % one_second ≡ 0
    → t + e < 2 ^ 63
    → total_of (read_all (reading false t) (format_clock e)) ≡ some (t + e)
unfolding total_of read_all read_byte format_clock
read_all-clock t e whole fits = elim (Bool-cases (e == 0)) [
  | inl z ↦ ground (arith, z)
  | inr z ↦ rw (z, format_clock) (ap total_of (read_all-units t e whole fits))
]

read_all-duration :
    (d : ℕ)
    → d % one_second ≡ 0
    → d < 2 ^ 63
    → total_of (read_all nothing_read (counted (d / day) b'D' ++ format_clock (d % day))) ≡ some d
unfolding unit_of
read_all-duration d whole fits =
    ap total_of (
      read_all-counted false 0 (d / day) b'D' day (format_clock (d % day)) refl refl refl
        (omega arith) (omega arith))
    ∙ (read_all-clock (0 + d / day * day) (d % day) (omega arith) (omega arith)
        ∙ ap some (omega arith))

parse_rest :
    (d : ℕ) → d % one_second ≡ 0 → d < 2 ^ 63 → parse_unsigned false (b'P' ∷ rest_of d) ≡ some d
unfolding parse_unsigned total_of
parse_rest d whole fits =
    let told = read_all-duration d whole fits in
    elim (Option-cases (read_all nothing_read (rest_of d))) [
      | inl e ↦ absurd (ground arith)
      | inr (r, e) ↦ rw (e, parse_unsigned) (ground arith)
    ]

-- A duration of whole seconds that fits 63 bits of nanoseconds is read back from its text.
pub parse_duration-format_duration :
    (d : ℕ) → d % one_second ≡ 0 → d < 2 ^ 63 → parse_duration (format_duration d) ≡ some d
unfolding format_duration parse_duration trim_signs parse_int
parse_duration-format_duration d whole fits = elim (Bool-cases (d == 0)) [
  | inl z ↦
      let none_left : d ≡ 0 = ground arith in
      rw none_left (unfold parse_unsigned read_all is_space in refl)
  | inr z ↦
      rw (z, format_duration)
        (rw (trim_space-Solid (b'P' ∷ rest_of d) (rest_of-Solid d)) (parse_rest d whole fits))
]
