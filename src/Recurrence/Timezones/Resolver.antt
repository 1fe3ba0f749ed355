-- ===== src/Recurrence/Timezones/Resolver.antt =====
-- internal/recurrence/timezone.go: `Resolve` and `ToUTC`.
use edav.Base.{ℕ, List, [], ◌∷◌, Option, none, some, ◌>>=◌}
use edav.Base.Bytes.{Bytes}
use edav.Base.Int.{ℤ}
use edav.Base.Table.{lookup}
use edav.Recurrence.Timezones.{less_offset, trim_tzid_prefix, Observance}
use edav.Recurrence.Timezones.Offsets.{embedded_offset}

-- What `Resolve` gives: UTC, a zone of the database, or a fixed offset.
pub data Location (Loaded : Type 0) : Type 0 where
  utc : Location Loaded
  loaded : Loaded → Location Loaded
  fixed_zone : ℤ → Location Loaded

module _ {Rule : Type 0} {Loaded : Type 0} (between : Rule → ℕ → ℕ → List ℕ)
    (load_location : Bytes → Option Loaded) (in_location : Loaded → ℕ → ℕ) where
  abbrev by_offset : Option ℤ → Option (Location Loaded)
  by_offset none = none
  by_offset (some offset) = some (fixed_zone offset)

  -- `Resolve`.
  unfoldable pub resolve :
      List (Bytes × List (Observance Rule)) → Bytes → ℕ → Option (Location Loaded)
  resolve zones [] wall = some utc
  resolve zones (c ∷ s) wall = elim (load_location (c ∷ s)) [
    | some l ↦ some (loaded l)
    | none ↦ elim (load_location (trim_tzid_prefix (c ∷ s))) [
      | some l ↦ some (loaded l)
      | none ↦ by_offset (embedded_offset between (lookup (c ∷ s) zones) wall)
    ]
  ]

  -- The instant of a wall time in a location.
  abbrev pub in_zone : Location Loaded → ℕ → ℕ
  in_zone utc wall = wall
  in_zone (loaded l) wall = in_location l wall
  in_zone (fixed_zone offset) wall = less_offset wall offset

  -- `ToUTC`.
  unfoldable pub to_utc : List (Bytes × List (Observance Rule)) → Bytes → ℕ → Option ℕ
  unfolding resolve
  to_utc zones tzid wall = do location ← resolve zones tzid wall; some (in_zone location wall)
