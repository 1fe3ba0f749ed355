-- ===== src/Base/Bytes.antt =====
-- Go strings as lists of bytes, with the functions of package strings that the code calls.
use Prim.Native.Char.{code}
use Prim.Native.String.{String}
use Prim.Native.Nat.{ℕ, ◌+◌, ◌-◌}
use mathlib.Core.Path.{◌≡◌, refl}
use mathlib.Core.Logic.{◌↔◌}
use mathlib.Core.Bool.{Bool, true, false, ◌&&◌, ◌||◌}
use mathlib.Core.List.{List, [], ◌∷◌, ◌++◌, map, reverse}
use mathlib.Core.Option.{Option, none, some}
use native.Mathlib.Omega.{arith}
use edav.Base.Tests.{◌==◌, leb, ltb, if◌then◌else◌}

abbrev pub Bytes : Type 0
Bytes = List ℕ

-- The code points of a literal: its bytes, as every literal of the code is ASCII.
abbrev pub codes : String → Bytes
codes String.[] = []
codes (String.◌∷◌ c s) = code c ∷ codes s

-- `==` on strings.
unfoldable pub equal : Bytes → Bytes → Bool
equal [] [] = true
equal [] (d ∷ t) = false
equal (c ∷ s) [] = false
equal (c ∷ s) (d ∷ t) = c == d && equal s t

pub equal_iff : (s t : Bytes) → (equal s t ≡ true) ↔ (s ≡ t)
unfolding equal
equal_iff [] [] = ground arith
equal_iff [] (d ∷ t) = ground arith
equal_iff (c ∷ s) [] = ground arith
equal_iff (c ∷ s) (d ∷ t) = ground (arith, equal_iff s t)

pub equal_self : (a : Bytes) → equal a a ≡ true
equal_self a = (equal_iff a a).1 refl

unfoldable pub upper : ℕ → ℕ
upper c = if leb b'a' c && leb c b'z' then c - 32 else c

unfoldable pub lower : ℕ → ℕ
lower c = if leb b'A' c && leb c b'Z' then c + 32 else c

pub upper_idem : (c : ℕ) → upper (upper c) ≡ upper c
unfolding upper
upper_idem c = ground arith

-- `strings.ToUpper` and `strings.ToLower`, on ASCII text.
unfoldable pub to_upper : Bytes → Bytes
unfolding upper
to_upper s = map upper s

unfoldable pub to_lower : Bytes → Bytes
unfolding lower
to_lower s = map lower s

pub map-upper_idem : (s : Bytes) → map upper (map upper s) ≡ map upper s
map-upper_idem [] = refl
map-upper_idem (c ∷ s) = cc (upper_idem c, map-upper_idem s)

-- `strings.EqualFold`, on ASCII text.
unfoldable pub equal_fold : Bytes → Bytes → Bool
unfolding to_lower
equal_fold a b = equal (to_lower a) (to_lower b)

equal_comm : (a b : Bytes) → equal a b ≡ equal b a
unfolding equal
equal_comm [] [] = refl
equal_comm [] (d ∷ t) = refl
equal_comm (c ∷ s) [] = refl
equal_comm (c ∷ s) (d ∷ t) = ground (arith, equal_comm s t)

pub equal_fold_comm : (a b : Bytes) → equal_fold a b ≡ equal_fold b a
unfolding equal_fold
equal_fold_comm a b = equal_comm (to_lower a) (to_lower b)

-- `strings.CutPrefix`: what follows the prefix.
unfoldable pub cut_prefix : Bytes → Bytes → Option Bytes
cut_prefix s [] = some s
cut_prefix [] (p ∷ ps) = none
cut_prefix (c ∷ s) (p ∷ ps) = elim (c == p) [ true ↦ cut_prefix s ps | false ↦ none ]

pub cut_prefix-append : (p s : Bytes) → cut_prefix (p ++ s) p ≡ some s
unfolding cut_prefix
cut_prefix-append [] s = refl
cut_prefix-append (c ∷ p) s = ground (arith, cut_prefix-append p s)

-- `strings.Split` by one byte: at least one part.
unfoldable pub split_onto : ℕ → Bytes → Bytes → List Bytes
split_onto sep cur [] = cur ∷ []
split_onto sep cur (c ∷ s) = elim (c == sep) [
  | true ↦ cur ∷ split_onto sep [] s
  | false ↦ split_onto sep (cur ++ c ∷ []) s
]

unfoldable pub split : Bytes → ℕ → List Bytes
unfolding split_onto
split s sep = split_onto sep [] s

-- `strings.Cut` at one byte.
unfoldable pub cut : Bytes → ℕ → Option (Bytes × Bytes)
cut [] sep = none
cut (c ∷ s) sep = elim (c == sep) [
  | true ↦ some ([], s)
  | false ↦ elim (cut s sep) [ none ↦ none | some (a, b) ↦ some (c ∷ a, b) ]
]

-- `strings.Trim` with one byte as the cut set.
unfoldable pub trim_left : ℕ → Bytes → Bytes
trim_left q [] = []
trim_left q (c ∷ s) = elim (c == q) [ true ↦ trim_left q s | false ↦ c ∷ s ]

unfoldable pub trim : ℕ → Bytes → Bytes
unfolding trim_left
trim q s = reverse (trim_left q (reverse (trim_left q s)))

-- `<=` on strings, byte by byte, as `ORDER BY` compares them.
unfoldable pub leb_bytes : Bytes → Bytes → Bool
leb_bytes [] t = true
leb_bytes (c ∷ s) [] = false
leb_bytes (c ∷ s) (d ∷ t) = ltb c d || (c == d && leb_bytes s t)

-- The bytes that `Filename` of internal/ical and of internal/vcard replaces.
unfoldable pub filename_byte : ℕ → ℕ
filename_byte c =
    if c == b'/' || (c == b'\\' || (c == b'?' || (c == b'#' || c == b'%'))) then b'-' else c
