-- ===== src/Ical/Duration/Text.antt =====
-- internal/ical/event.go: the text that formatDuration writes has no white space, and its numbers digits.
use edav.Base.{ℕ, ◌/◌, ◌%◌, false, [], ◌∷◌, ◌++◌, ◌==◌, ◌≡◌, refl, arith, All, All-append, All-if}
use mathlib.Core.List.{reverse, reverse_aux, reverse-reverse}
use edav.Base.Bytes.{Bytes}
use edav.Base.Decimal.{format_int, Digit, format_int-Digit}
use edav.Base.Time.{is_space, trim_space_left, trim_space}
use edav.Ical.Duration.{one_second, one_minute, one_hour, day, counted, format_clock}

-- What the formatter writes has no white space, and starts with its `P`.
abbrev pub Solid : ℕ → Type 0
Solid c = is_space c ≡ false

Solid-digits : (s : Bytes) → All Digit s → All Solid s
unfolding is_space
Solid-digits [] h = tt
Solid-digits (c ∷ s) (d, h) = (ground arith, Solid-digits s h)

counted-Solid : (n letter : ℕ) → Solid letter → All Solid (counted n letter)
unfolding counted
counted-Solid n letter h =
    All-if Solid (n == 0) [] (format_int n ++ letter ∷ []) (λ e. tt)
      (λ e.
        All-append Solid (format_int n) (letter ∷ [])
          (Solid-digits (format_int n) (format_int-Digit n)) (h, tt))

All-reverse : (s t : Bytes) → All Solid s → All Solid t → All Solid (reverse_aux s t)
All-reverse [] t h k = k
All-reverse (c ∷ s) t (d, h) k = All-reverse s (c ∷ t) h (d, k)

trim_space_left-Solid : (s : Bytes) → All Solid s → trim_space_left s ≡ s
unfolding trim_space_left
trim_space_left-Solid [] h = refl
trim_space_left-Solid (c ∷ s) (d, h) = rw (d, trim_space_left) refl

pub trim_space-Solid : (s : Bytes) → All Solid s → trim_space s ≡ s
unfolding trim_space
trim_space-Solid s h =
    rw (trim_space_left-Solid s h)
      (rw (trim_space_left-Solid (reverse s) (All-reverse s [] h tt)) (reverse-reverse s))

format_clock-Solid : (d : ℕ) → All Solid (format_clock d)
unfolding format_clock is_space
format_clock-Solid d =
    let hours = counted (d / one_hour) b'H' in
    let minutes = counted (d % one_hour / one_minute) b'M' in
    let seconds = counted (d % one_hour % one_minute / one_second) b'S' in
    All-if Solid (d == 0) [] (b'T' ∷ (hours ++ (minutes ++ seconds))) (λ e. tt)
      (λ e. (
        refl,
        All-append Solid hours (minutes ++ seconds) (counted-Solid (d / one_hour) b'H' refl) (
            All-append Solid minutes seconds (counted-Solid (d % one_hour / one_minute) b'M' refl)
              (counted-Solid (d % one_hour % one_minute / one_second) b'S' refl)),
      ))

-- The text behind the `P`, of a duration that is not 0.
abbrev pub rest_of : ℕ → Bytes
rest_of d = counted (d / day) b'D' ++ format_clock (d % day)

pub rest_of-Solid : (d : ℕ) → All Solid (b'P' ∷ rest_of d)
unfolding is_space
rest_of-Solid d = (
  refl,
  All-append Solid (counted (d / day) b'D') (format_clock (d % day))
      (counted-Solid (d / day) b'D' refl) (format_clock-Solid (d % day)),
)
