-- ===== src/Ical/Edit.antt =====
-- internal/ical/event.go: reading and writing the event of a form. Whether the zone database knows a name
-- is a parameter, and so is a new random UID.
use edav.Base.{
  ℕ, suc, ◌+◌, ◌-◌, ◌*◌, ◌/◌, ◌^◌, Bool, true, false, not, ◌&&◌, ◌||◌, [], ◌∷◌, ◌++◌, Option, none,
  some, ◌==◌, ltb, leb, if◌then◌else◌, ◌>>=◌, map,
}
use edav.Base.Bytes.{Bytes, codes, filename_byte}
use edav.Base.Decimal.{format_int, parse_signed}
use edav.Base.Int.{ℤ, pos, negsuc}
use edav.Base.Time.{day, zero_time, trim_space, format_date, format_date_time, format_utc}
use edav.ContentLine.Lines.{crlf}
use edav.ContentLine.Document.{is_empty}
use edav.ContentLine.Edit.{find, value, raw_value, set_text, set_raw, set_with_params}
use edav.Ical.{Event, CalendarFile, parse, bytes, ReadTime, read_time}
use edav.Ical.Duration.{one_second, is_digit, format_duration, parse_duration}

-- `e.Start.Add(dur)` for a duration in two's complement.
abbrev pub moved : ℕ → ℕ → ℕ
moved t d =
    if ltb d (2 ^ 63) then t + d / one_second else t - (2 ^ 64 - d + (one_second - 1)) / one_second

-- The end as DTEND or DURATION give it; the zero time if neither does.
unfoldable pub read_end : CalendarFile → ℕ → Option ℕ
read_end o start = elim (find o.doc o.event (codes "DTEND")) [
  | some i ↦ read_time o (codes "DTEND") >>= (λ t. some t.time)
  | none ↦ elim (value o.doc o.event (codes "DURATION")) [
    | [] ↦ some zero_time
    | c ∷ s ↦ elim (parse_duration (c ∷ s)) [
      | none ↦ some zero_time
      | some d ↦ some (moved start d)
    ]
  ]
]

abbrev pub end_or_default : ReadTime → ℕ → ℕ
end_or_default start end =
    if end == zero_time then (if start.all_day then start.time + day else start.time) else end

unfoldable pub event_of : CalendarFile → Option Event
unfolding read_end
event_of o = read_time o (codes "DTSTART") >>= (λ start. read_end o start.time >>= (λ end.
    some (record {
      uid = value o.doc o.event (codes "UID");
      summary = value o.doc o.event (codes "SUMMARY");
      location = value o.doc o.event (codes "LOCATION");
      description = value o.doc o.event (codes "DESCRIPTION");
      start = start.time;
      end = end_or_default start end;
      all_day = start.all_day;
      timezone = start.zone;
      recurrence = raw_value o.doc o.event (codes "RRULE");
    })))

-- `ReadEvent`.
unfoldable pub read_event : Bytes → Option Event
unfolding event_of
read_event raw = parse raw >>= event_of

-- `formatTime`: the parameters and the value.
unfoldable pub format_time : ℕ → Bool → Bytes → Bytes × Bytes
format_time t true zone = (codes ";VALUE=DATE", format_date t)
format_time t false [] = ([], format_utc t)
format_time t false (c ∷ zone) = (codes ";TZID=" ++ (c ∷ zone), format_date_time t)

-- The edits of an open object.
abbrev pub set_file : CalendarFile → Bytes → Bytes → CalendarFile
set_file o name text =
    let edited = set_text o.doc o.event name text in record { doc = edited.0; event = edited.1 }

abbrev pub set_file_with : CalendarFile → Bytes → Bytes × Bytes → CalendarFile
set_file_with o name written =
    let edited = set_with_params o.doc o.event name written.0 written.1 in
    record { doc = edited.0; event = edited.1 }

abbrev pub set_file_raw : CalendarFile → Bytes → Bytes → CalendarFile
set_file_raw o name text =
    let edited = set_raw o.doc o.event name text in record { doc = edited.0; event = edited.1 }

-- `fmt.Sscanf` of a `%d`: what follows the digits is left, and white space in front is skipped, a line feed
-- aside.
unfoldable pub leading_digits : Bytes → Bytes
leading_digits [] = []
leading_digits (c ∷ s) = elim (is_digit c) [ true ↦ c ∷ leading_digits s | false ↦ [] ]

unfoldable pub scan_int : Bytes → Option ℤ
unfolding leading_digits
scan_int [] = none
scan_int (c ∷ s) =
    let rest = scan_int s in
    if c == b' ' || (c == 9 || (c == 11 || (c == 12 || c == 13)))
    then rest
    else (if c == b'-'
        then parse_signed true (leading_digits s)
        else (if c == b'+'
            then parse_signed false (leading_digits s)
            else parse_signed false (leading_digits (c ∷ s))))

abbrev pub print_int : ℤ → Bytes
print_int (pos n) = format_int n
print_int (negsuc n) = b'-' ∷ format_int (suc n)

-- One more, as an int is 64 bits wide; -(n + 1) is `negsuc n`.
unfoldable pub succ_int : ℤ → ℤ
succ_int (pos n) = if suc n == 2 ^ 63 then negsuc (2 ^ 63 - 1) else pos (suc n)
succ_int (negsuc n) = elim (n == 0) [ true ↦ pos 0 | false ↦ negsuc (n - 1) ]

unfoldable pub next_sequence : Bytes → Bytes
unfolding scan_int succ_int
next_sequence [] = codes "1"
next_sequence (c ∷ current) = elim (scan_int (c ∷ current)) [
  | none ↦ codes "1"
  | some n ↦ print_int (succ_int n)
]

unfoldable pub bump_sequence : CalendarFile → CalendarFile
unfolding next_sequence
bump_sequence o =
    set_file o (codes "SEQUENCE") (next_sequence (value o.doc o.event (codes "SEQUENCE")))

abbrev pub has_duration : CalendarFile → Bool
has_duration o = elim (find o.doc o.event (codes "DURATION")) [ none ↦ false | some i ↦ true ]

-- `e.End.Sub(e.Start)` in nanoseconds, which stays within 63 bits.
abbrev pub lasting : Event → ℕ
lasting e = let d = (e.end - e.start) * one_second in if ltb d (2 ^ 63) then d else 2 ^ 63 - 1

unfoldable pub write_end : CalendarFile → Event → CalendarFile
unfolding format_time
write_end o e =
    if has_duration o
    then set_file o (codes "DURATION") (format_duration (lasting e))
    else set_file_with o (codes "DTEND") (format_time e.end e.all_day e.timezone)

unfoldable pub write_texts : CalendarFile → Event → CalendarFile
write_texts o e =
    let titled = set_file o (codes "SUMMARY") e.summary in
    let placed = set_file titled (codes "LOCATION") e.location in
    set_file placed (codes "DESCRIPTION") e.description

unfoldable pub write_stamps : CalendarFile → ℕ → CalendarFile
unfolding bump_sequence
write_stamps o now =
    let stamped = set_file o (codes "DTSTAMP") (format_utc now) in
    bump_sequence (set_file stamped (codes "LAST-MODIFIED") (format_utc now))

-- What `Apply` does to the object.
unfoldable pub write_event : CalendarFile → Event → ℕ → CalendarFile
unfolding write_texts write_end write_stamps format_time
write_event o e now =
    let texts = write_texts o e in
    let started =
      set_file_with texts (codes "DTSTART") (format_time e.start e.all_day e.timezone) in
    write_stamps (write_end started e) now

-- `Filename`.
unfoldable pub filename : Bytes → Bytes
unfolding filename_byte
filename uid = map filename_byte uid ++ codes ".ics"

unfoldable pub new_text : Bytes → ℕ → Bytes
new_text uid now =
    codes "BEGIN:VCALENDAR"
    ++ crlf
    ++ codes "VERSION:2.0"
    ++ crlf
    ++ codes "PRODID:-//edav//EN"
    ++ crlf
    ++ codes "BEGIN:VEVENT"
    ++ crlf
    ++ codes "UID:"
    ++ uid
    ++ crlf
    ++ codes "DTSTAMP:"
    ++ format_utc now
    ++ crlf
    ++ codes "END:VEVENT"
    ++ crlf
    ++ codes "END:VCALENDAR"
    ++ crlf

unfoldable pub add_rule : Bytes → Bytes → Option Bytes
add_rule out [] = some out
add_rule out (c ∷ rule) = parse out >>= (λ o. bytes (set_file_raw o (codes "RRULE") (c ∷ rule)))

module _ (known_zone : Bytes → Bool) where
  unfoldable pub is_valid : Event → Bool
  unfolding trim_space
  is_valid e =
      not (is_empty (trim_space e.summary))
      && (not (e.start == zero_time)
          && (leb e.start e.end && (is_empty e.timezone || (e.all_day || known_zone e.timezone))))

  -- `Apply`.
  unfoldable pub apply : Bytes → Event → ℕ → Option Bytes
  unfolding is_valid write_event
  apply raw e now = elim (parse raw) [
    | none ↦ none
    | some o ↦ if is_valid e then bytes (write_event o e now) else none
  ]

  -- `New`, with the UID that `NewUID` would give.
  unfoldable pub new_event : Bytes → Event → ℕ → Option Bytes
  unfolding is_valid new_text apply add_rule
  new_event random_uid e now =
      if is_valid e
      then apply (new_text (if is_empty e.uid then random_uid else e.uid) now) e now
        >>= (λ out. add_rule out e.recurrence)
      else none

-- `Instant`, with the zone database.
unfoldable pub event_instant : (Bytes → Option (ℕ → ℕ)) → Event → ℕ → ℕ
event_instant load_location e t = elim e.timezone [
  | [] ↦ t
  | c ∷ zone ↦ elim (load_location (c ∷ zone)) [ none ↦ t | some to_utc ↦ to_utc t ]
]
