-- ===== src/Recurrence/Timezones/Inverse.antt =====
-- internal/recurrence/timezone.go: wall times of a zone that the calendar object carries.
use edav.Base.{ℕ, ◌+◌, ◌-◌, ◌≤◌, ◌<◌, List, ◌∷◌, Option, none, some, ◌≡◌, arith}
use edav.Base.Bytes.{Bytes}
use edav.Base.Int.{ℤ, pos_part, neg_part}
use edav.Base.Table.{lookup}
use edav.Base.Time.{day}
use edav.Recurrence.Timezones.{less_offset, trim_tzid_prefix, Observance}
use edav.Recurrence.Timezones.Offsets.{offset_at, embedded_offset}
use edav.Recurrence.Timezones.Resolver.{resolve, to_utc}

-- The wall clock at an instant.
abbrev pub wall_of : ℕ → ℤ → ℕ
wall_of t offset = t + pos_part offset - neg_part offset

module _ {Rule : Type 0} {Loaded : Type 0} (between : Rule → ℕ → ℕ → List ℕ)
    (load_location : Bytes → Option Loaded) (in_location : Loaded → ℕ → ℕ) where
  embedded_offset-steady :
      (os : List (Observance Rule)) (t : ℕ) (offset : ℤ)
      → day ≤ t
      → pos_part offset < day
      → neg_part offset < day
      → ((s : ℕ) → t ≤ s + day → s ≤ t + day → offset_at between os s ≡ some offset)
      → embedded_offset between (some os) (wall_of t offset) ≡ some offset
  unfolding embedded_offset
  embedded_offset-steady os t offset late p n steady =
      let first = steady (wall_of t offset) (omega arith) (omega arith) in
      let second = steady t (omega arith) (omega arith) in
      let back : less_offset (wall_of t offset) offset ≡ t = omega arith in rw (first, back) second

  -- In a zone that only the object names, and at an instant with the same offset of less than a day from a day
  -- before it to a day behind it, the wall time is converted back to the instant.
  pub to_utc-wall_of :
      (zones : List (Bytes × List (Observance Rule))) (c : ℕ) (tzid : Bytes)
      (os : List (Observance Rule)) (t : ℕ) (offset : ℤ)
      → load_location (c ∷ tzid) ≡ none
      → load_location (trim_tzid_prefix (c ∷ tzid)) ≡ none
      → lookup (c ∷ tzid) zones ≡ some os
      → day ≤ t
      → pos_part offset < day
      → neg_part offset < day
      → ((s : ℕ) → t ≤ s + day → s ≤ t + day → offset_at between os s ≡ some offset)
      → to_utc between load_location in_location zones (c ∷ tzid) (wall_of t offset) ≡ some t
  unfolding to_utc resolve
  to_utc-wall_of zones c tzid os t offset unknown untrimmed here late p n steady =
      let found = embedded_offset-steady os t offset late p n steady in
      let back : less_offset (wall_of t offset) offset ≡ t = omega arith in
      ground (arith, unknown, untrimmed, here, found, back)
