-- ===== src/Ical.antt =====
-- Package ical (internal/ical): a calendar object open for editing. A time is its number of seconds since
-- the beginning of the year 0; an error is `none`.
pub mod Duration
pub mod Edit
pub mod Untouched
use edav.Base.{
  ℕ, zero, suc, ◌+◌, ◌-◌, ◌*◌, ◌/◌, ◌%◌, ◌^◌, Bool, true, false, not, ◌&&◌, ◌||◌, List, [], ◌∷◌,
  ◌++◌, Option, none, some, ◌==◌, ltb, leb, if◌then◌else◌, ◌>>=◌, length, get_elem?, map,
}
use edav.Base.Bytes.{Bytes, codes, equal}
use edav.Base.Decimal.{format_int, parse_signed}
use edav.Base.Int.{ℤ, pos, negsuc}
use edav.Base.Time.{
  day, zero_time, trim_space, parse_day, parse_clock, format_date, format_date_time, format_utc,
}
use edav.ContentLine.Lines.Params.{param}
use edav.ContentLine.Document.{Line, Document, is_empty}
use edav.ContentLine.Document
use edav.ContentLine.Edit.{
  Span, component, components, find, value, raw_value, set_text, set_raw, set_with_params,
}
use edav.Ical.Duration.{is_digit, format_duration, parse_duration}

pub record Event : Type 0 where
  pub uid : Bytes
  pub summary : Bytes
  pub location : Bytes
  pub description : Bytes
  pub start : ℕ
  pub end : ℕ
  pub all_day : Bool
  pub timezone : Bytes
  pub recurrence : Bytes

-- `Object`.
pub record CalendarFile : Type 0 where
  pub doc : Document
  pub event : Span

unfoldable pub open_file : Document → Option CalendarFile
open_file [] = none
open_file (l ∷ ls) = elim (component (l ∷ ls) (codes "VCALENDAR")) [
  | none ↦ none
  | some calendar ↦ elim (component (l ∷ ls) (codes "VEVENT")) [
    | none ↦ none
    | some event ↦ some (record { doc = l ∷ ls; event = event })
  ]
]

-- `Parse`.
unfoldable pub parse : Bytes → Option CalendarFile
unfolding open_file
parse raw = open_file (Document.parse raw)

unfoldable pub bytes : CalendarFile → Option Bytes
bytes o = Document.bytes o.doc

unfoldable pub any_override : Document → List Span → Bool
any_override d [] = false
any_override d (span ∷ spans) = elim (find d span (codes "RECURRENCE-ID")) [
  | none ↦ any_override d spans
  | some i ↦ true
]

unfoldable pub has_overrides : CalendarFile → Bool
unfolding any_override
has_overrides o = any_override o.doc (components o.doc (codes "VEVENT"))

-- What `time.ParseInLocation` does with a fraction behind the seconds: it has no place in whole seconds.
unfoldable pub skip_digits : Bytes → Bytes
skip_digits [] = []
skip_digits (c ∷ s) = elim (is_digit c) [ true ↦ skip_digits s | false ↦ c ∷ s ]

unfoldable pub skip_fraction : Bytes → Bytes
unfolding skip_digits
skip_fraction (c ∷ d ∷ s) =
    if (c == b'.' || c == b',') && is_digit d then skip_digits s else c ∷ d ∷ s
skip_fraction s = s

abbrev pub only : Bytes → ℕ → Bytes → Option ℕ
only end t s = if equal s end then some t else none

unfoldable pub read_date : Bytes → Option ℕ
read_date s = parse_day s >>= (λ d. only [] d.0 d.1)

-- The layouts of a date and a time, with what has to follow.
unfoldable pub read_date_time : Bytes → Bytes → Option ℕ
unfolding skip_fraction
read_date_time end s = parse_day s >>= (λ d. elim d.1 [
  | [] ↦ none
  | c ∷ rest ↦
      if c == b'T'
      then parse_clock rest >>= (λ t. only end (d.0 + t.0) (skip_fraction t.1))
      else none
])

abbrev pub ends_with_z : Bytes → Bool
ends_with_z [] = false
ends_with_z (c ∷ []) = c == b'Z'
ends_with_z (c ∷ d ∷ s) = ends_with_z (d ∷ s)

pub record ReadTime : Type 0 where
  pub time : ℕ
  pub all_day : Bool
  pub zone : Bytes

abbrev pub timed : Bool → Bytes → Option ℕ → Option ReadTime
timed all_day zone none = none
timed all_day zone (some t) = some (record { time = t; all_day = all_day; zone = zone })

unfoldable pub read_value : Bytes → Bytes → Option ReadTime
unfolding read_date read_date_time
read_value zone s =
    if length s == 8
    then timed true zone (read_date s)
    else (if ends_with_z s
        then timed false [] (read_date_time (b'Z' ∷ []) s)
        else (if length s == 15 then timed false zone (read_date_time [] s) else none))

unfoldable pub read_time : CalendarFile → Bytes → Option ReadTime
unfolding read_value
read_time o name = elim (find o.doc o.event name) [
  | none ↦ none
  | some i ↦ elim (get_elem? o.doc i) [
    | none ↦ none
    | some l ↦ read_value (param l.params (codes "TZID")) (trim_space l.value)
  ]
]
