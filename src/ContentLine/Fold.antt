-- ===== src/ContentLine/Fold.antt =====
-- `fold` of internal/contentline/lines.go: wrapping a rebuilt line at 75 octets.
pub mod Termination
pub mod RoundTrip
use Prim.Native.Nat.{bit_and}
use edav.Base.{
  ℕ, zero, suc, Bool, true, false, ◌&&◌, List, [], ◌∷◌, ◌++◌, Option, none, some, ◌-◌, ◌==◌, leb,
  if◌then◌else◌, length, take, drop,
}
use edav.Base.Bytes.{Bytes}

abbrev pub limit : ℕ
limit = 75

-- `s[end]&0xC0 == 0x80`: a continuation byte of UTF-8.
unfoldable pub is_continuation : ℕ → Bool
is_continuation c = bit_and c 0xC0 == 0x80

abbrev pub byte_at : Bytes → ℕ → ℕ
byte_at [] i = 0
byte_at (c ∷ s) zero = c
byte_at (c ∷ s) (suc i) = byte_at s i

-- `for end > start && s[end]&0xC0 == 0x80 { end-- }`, on `s[start:]` with `n = end - start`.
unfoldable pub back_off : Bytes → ℕ → ℕ
unfolding is_continuation
back_off s zero = zero
back_off s (suc n) = elim (is_continuation (byte_at s (suc n))) [
  | true ↦ back_off s n
  | false ↦ suc n
]

abbrev pub width : Bool → ℕ
width first = if first then limit else limit - 1

abbrev pub lead : Bool → Bytes
lead first = if first then [] else b' ' ∷ []

-- The loop, on what is left of the text (`s[start:]`, `first` for `start == 0`), with the string that
-- it writes. `none` means that the fuel ran out.
unfoldable pub fold_loop : ℕ → Bytes → Bool → Bytes → Option Bytes
fold_loop zero eol first s = none
fold_loop (suc fuel) eol first s = elim (leb (length s) (width first)) [
  | true ↦ some (lead first ++ s)
  | false ↦
      let n = back_off s (width first) in
      elim (fold_loop fuel eol (first && n == 0) (drop n s)) [
        | none ↦ none
        | some rest ↦ some (lead first ++ (take n s ++ (eol ++ rest)))
      ]
]

-- The fuel is one more than the text is long: each round takes at least one byte, unless it backs off
-- over a whole line.
unfoldable pub fold : Bytes → Bytes → Option Bytes
fold s eol = elim (leb (length s) limit) [
  | true ↦ some s
  | false ↦ fold_loop (suc (length s)) eol true s
]
