-- ===== src/Tests/Timezones.antt =====
-- A zone that changes its offset once, and one that keeps it.
use edav.Base.{
  keep, leb, ◌&&◌, ℕ, ◌+◌, ◌≤◌, ◌<◌, List, [], ◌∷◌, Option, none, some, ◌≡◌, ◌⊎◌, inl, inr, refl,
  arith, All,
}
use edav.Base.Bytes.{Bytes, codes, cut_prefix, equal}
use edav.Base.Int.{ℤ, pos, negsuc, ◌+ℤ◌, ◌*ℤ◌}
use edav.Base.Table.{lookup}
use edav.Base.Time.{day}
use edav.Base.Decimal.{parse_int}
use edav.Recurrence.{ComponentProp}
use edav.Recurrence.Timezones.{
  Observance, years_earlier, years_later, parse_utc_offset, trim_tzid_prefix, rule_anchor,
}
use edav.Recurrence.Timezones.Offsets.{transitions, offset_at, best_of}
use edav.Recurrence.Timezones.Resolver.{to_utc}
use edav.Recurrence.Timezones.Latest.{Latest}
use edav.Recurrence.Timezones.Bracketed.{Bracketed, within, all_transitions, offset_at-Latest}
use edav.Recurrence.Timezones.Inverse.{wall_of, to_utc-wall_of}

abbrev offset_prop : Bytes → ComponentProp
offset_prop value = record { value = value; tzid = []; value_type = [] }

india_test : parse_utc_offset (some (offset_prop (codes "+0530"))) ≡ some (pos 19800)
unfolding parse_utc_offset parse_int ◌*ℤ◌ ◌+ℤ◌
india_test = refl

newfoundland_test : parse_utc_offset (some (offset_prop (codes "-0330"))) ≡ some (negsuc 12599)
unfolding parse_utc_offset parse_int ◌*ℤ◌ ◌+ℤ◌
newfoundland_test = refl

unsigned_test : parse_utc_offset (some (offset_prop (codes "00530"))) ≡ none
unfolding parse_utc_offset
unsigned_test = refl

trim_test :
    trim_tzid_prefix (codes "/freeassociation.sourceforge.net/Europe/Berlin")
    ≡ codes "Europe/Berlin"
unfolding trim_tzid_prefix cut_prefix
trim_test = refl

-- The year 1601 is the one in which Microsoft's zones start.
anchor_test : rule_anchor 50522745600 ≡ 62167219200
unfolding rule_anchor
anchor_test = refl

abbrev block : ℕ → ℤ → ℤ → Observance (List ℕ)
block start from to = record {
  start = start;
  offset_from = from;
  offset_to = to;
  rule = none;
  rdates = [];
}

abbrev no_times : List ℕ → ℕ → ℕ → List ℕ
no_times rule from to = rule

abbrev two_blocks : List (Observance (List ℕ))
two_blocks = block 900000 (pos 7200) (pos 3600) ∷ block 500000 (pos 3600) (pos 7200) ∷ []

summer_test : offset_at no_times two_blocks 600000 ≡ some (pos 7200)
unfolding offset_at
summer_test = refl

before_test : offset_at no_times two_blocks 400000 ≡ some (pos 3600)
unfolding offset_at
before_test = refl

-- The rules of both blocks end, the one of the first block last: eight years later the offset is again
-- that of the second block, which starts later.
abbrev in_range : List ℕ → ℕ → ℕ → List ℕ
in_range times from to = keep (λ t. leb from t && leb t to) times

abbrev itself : List ℕ → List ℕ
itself times = times

abbrev ended : List (Observance (List ℕ))
ended =
    record (block 900000 (pos 7200) (pos 3600)) { rule = some (900000 ∷ 32000000 ∷ 64000000 ∷ []) }
    ∷ record (block 1000000 (pos 3600) (pos 7200)) { rule = some (1000000 ∷ 33000000 ∷ []) }
    ∷ []

soon_test : offset_at in_range ended 70000000 ≡ some (pos 3600)
unfolding offset_at
soon_test = refl

ended_test : offset_at in_range ended 300000000 ≡ some (pos 7200)
unfolding offset_at
ended_test = refl

-- While both rules go on.
ended-Bracketed : All (Bracketed in_range itself 70000000) ended
unfolding years_earlier years_later
ended-Bracketed = (
  record {
    short = ground arith;
    goes_on = (64000000, inr (inr (inl refl)), ground arith, ground arith);
  },
  (
    record {
      short = ground arith;
      goes_on = (33000000, inr (inl refl), ground arith, ground arith);
    },
    tt,
  ),
)

exactly : (r : List ℕ) (from to : ℕ) → in_range r from to ≡ keep (within from to) (itself r)
exactly r from to = refl

offset_at-Latest_example :
    Latest (all_transitions in_range itself ended) 70000000 (pos 3600)
    ⊎ All (λ t. 70000000 < t.at) (all_transitions in_range itself ended)
offset_at-Latest_example =
    offset_at-Latest in_range itself exactly 70000000 ended ended-Bracketed soon_test

abbrev one_block : List (Observance (List ℕ))
one_block = block 100000 (pos 0) (pos 3600) ∷ []

steady :
    (s : ℕ) → 300000 ≤ s + day → s ≤ 300000 + day → offset_at no_times one_block s ≡ some (pos 3600)
unfolding offset_at transitions best_of
steady s h k = ground arith

abbrev no_location : Bytes → Option ℕ
no_location name = none

abbrev never : ℕ → ℕ → ℕ
never l wall = wall

to_utc-wall_of_example :
    to_utc no_times no_location never
      ((codes "Own", one_block) ∷ [])
      (codes "Own")
      (wall_of 300000 (pos 3600))
    ≡ some 300000
unfolding lookup equal
to_utc-wall_of_example =
    to_utc-wall_of no_times no_location never ((codes "Own", one_block) ∷ []) b'O' (codes "wn")
      one_block 300000 (pos 3600) refl refl refl (omega arith) (omega arith) (omega arith) steady
