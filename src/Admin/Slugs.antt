-- ===== src/Admin/Slugs.antt =====
-- internal/admin/collections.go: the URL slug of a collection.
pub mod Matches
pub mod Free
use edav.Base.{
  ℕ, zero, suc, ◌+◌, Bool, true, false, not, ◌&&◌, ◌||◌, [], ◌∷◌, ◌++◌, none, some, ◌==◌, ltb, leb,
  if◌then◌else◌, length, take,
}
use mathlib.Core.List.{reverse}
use edav.Base.Bytes.{Bytes, to_lower}
use edav.Base.Decimal.{format_int}
use edav.Base.Time.{trim_space}
use edav.Storage.{Database}
use edav.Storage.Collections.{collection_by_uri}

unfoldable pub is_lower_or_digit : ℕ → Bool
is_lower_or_digit c = (leb b'a' c && leb c b'z') || (leb b'0' c && leb c b'9')

unfoldable pub is_upper : ℕ → Bool
is_upper c = leb b'A' c && leb c b'Z'

unfoldable pub is_mark : ℕ → Bool
is_mark c = c == b'-' || (c == b'.' || c == b'_')

unfoldable pub all_slug : Bytes → Bool
unfolding is_lower_or_digit is_upper is_mark
all_slug [] = true
all_slug (c ∷ s) = elim (is_lower_or_digit c || (is_upper c || is_mark c)) [
  | true ↦ all_slug s
  | false ↦ false
]

-- `slugPattern`.
unfoldable pub matches_slug : Bytes → Bool
unfolding all_slug
matches_slug [] = false
matches_slug (c ∷ s) = (is_lower_or_digit c || is_upper c) && all_slug s

-- The loop of `Slugify`, with what it has written.
unfoldable pub slug_loop : Bool → Bytes → Bytes → Bytes
unfolding is_lower_or_digit
slug_loop dash out [] = out
slug_loop dash out (c ∷ s) = elim (is_lower_or_digit c || (c == b'.' || c == b'_')) [
  | true ↦ slug_loop false (out ++ c ∷ []) s
  | false ↦ elim (not dash && ltb 0 (length out)) [
    | true ↦ slug_loop true (out ++ b'-' ∷ []) s
    | false ↦ slug_loop dash out s
  ]
]

-- `strings.Trim` with the marks for its cut set.
unfoldable pub trim_marks_left : Bytes → Bytes
unfolding is_mark
trim_marks_left [] = []
trim_marks_left (c ∷ s) = elim (is_mark c) [ true ↦ trim_marks_left s | false ↦ c ∷ s ]

unfoldable pub trim_marks : Bytes → Bytes
unfolding trim_marks_left
trim_marks s = reverse (trim_marks_left (reverse (trim_marks_left s)))

abbrev pub max_slug : ℕ
max_slug = 60

unfoldable pub shortened : Bytes → Bytes
unfolding trim_marks
shortened slug = if ltb max_slug (length slug) then trim_marks (take max_slug slug) else slug

unfoldable pub slugify : Bytes → Bytes
unfolding slug_loop trim_marks shortened
slugify name = shortened (trim_marks (slug_loop false [] (to_lower (trim_space name))))

unfoldable pub numbered : Bytes → ℕ → Bytes
numbered slug n = slug ++ b'-' ∷ format_int n

-- The loop of `freeSlug`: `rounds` are left, and `n` is the next number.
unfoldable pub free_loop : ℕ → Database → ℕ → Bytes → Bytes → ℕ → Bytes
unfolding numbered
free_loop zero db owner slug candidate n = candidate
free_loop (suc rounds) db owner slug candidate n = elim (collection_by_uri db owner candidate) [
  | none ↦ candidate
  | some c ↦ free_loop rounds db owner slug (numbered slug n) (suc n)
]

abbrev pub free_rounds : ℕ
free_rounds = 98

unfoldable pub free_slug : Database → ℕ → Bytes → Bytes
unfolding free_loop
free_slug db owner slug = free_loop free_rounds db owner slug slug 2
