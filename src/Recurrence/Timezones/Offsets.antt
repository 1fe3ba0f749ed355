-- ===== src/Recurrence/Timezones/Offsets.antt =====
-- internal/recurrence/timezone.go: `offsetAt` and `embeddedOffset`.
use edav.Base.{
  ℕ, true, false, ◌||◌, List, [], ◌∷◌, ◌++◌, Option, none, some, ◌==◌, ltb, leb, if◌then◌else◌,
  ◌>>=◌, map,
}
use edav.Base.Int.{ℤ, pos}
use edav.Base.Rows.{sort_by}
use edav.Base.Time.{zero_time}
use edav.Recurrence.Timezones.{less_offset, years_earlier, years_later, Observance}

pub record Transition : Type 0 where
  pub at : ℕ
  pub offset : ℤ

-- `earliest`, with the offset before it: the zero time stands for none.
unfoldable pub earlier : ℤ → Transition → List ℕ → Transition
earlier offset_from earliest [] = earliest
earlier offset_from earliest (wall ∷ ws) =
    let at = less_offset wall offset_from in
    earlier offset_from
      (if earliest.at == zero_time || ltb at earliest.at
        then record { at = at; offset = offset_from }
        else earliest)
      ws

-- The last of the sorted transitions in front of the first one that is still to come.
unfoldable pub best_of : ℕ → Option Transition → List Transition → Option Transition
best_of instant best [] = best
best_of instant best (t ∷ ts) = elim (ltb instant t.at) [
  | true ↦ best
  | false ↦ best_of instant (some t) ts
]

abbrev pub sorted : List Transition → List Transition
sorted = sort_by (λ a b. leb a.at b.at)

module _ {Rule : Type 0} (between : Rule → ℕ → ℕ → List ℕ) where
  abbrev pub rule_times : Option Rule → ℕ → ℕ → List ℕ
  rule_times none from to = []
  rule_times (some r) from to = between r from to

  -- The wall times that `add` is called with, and its transition; they are those of the offset before.
  abbrev pub walls : Observance Rule → ℕ → List ℕ
  walls o instant =
      o.start ∷ o.rdates ++ rule_times o.rule (years_earlier instant 3) (years_later instant 1)

  abbrev pub transition_of : Observance Rule → ℕ → Transition
  transition_of o wall = record { at = less_offset wall o.offset_from; offset = o.offset_to }

  unfoldable pub transitions : List (Observance Rule) → ℕ → List Transition
  unfolding years_earlier years_later
  transitions [] instant = []
  transitions (o ∷ os) instant = map (transition_of o) (walls o instant) ++ transitions os instant

  unfoldable pub earliest_of : Transition → List (Observance Rule) → ℕ → Transition
  unfolding earlier years_earlier years_later
  earliest_of earliest [] instant = earliest
  earliest_of earliest (o ∷ os) instant =
      earliest_of (earlier o.offset_from earliest (walls o instant)) os instant

  -- `offsetAt`; transitions at one instant stay in the order of the object, which sort.Slice leaves open.
  unfoldable pub offset_at : List (Observance Rule) → ℕ → Option ℤ
  unfolding transitions best_of earliest_of
  offset_at os instant = elim (transitions os instant) [
    | [] ↦ none
    | t ∷ ts ↦ elim (best_of instant none (sorted (t ∷ ts))) [
      | some best ↦ some best.offset
      | none ↦ some (earliest_of (record { at = zero_time; offset = pos 0 }) os instant).offset
    ]
  ]

  -- `embeddedOffset`.
  unfoldable pub embedded_offset : Option (List (Observance Rule)) → ℕ → Option ℤ
  unfolding offset_at
  embedded_offset none wall = none
  embedded_offset (some os) wall = do
    offset ← offset_at os wall
    offset_at os (less_offset wall offset)
