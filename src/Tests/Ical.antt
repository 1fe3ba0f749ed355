-- ===== src/Tests/Ical.antt =====
-- A calendar object with an alarm, edited.
use edav.Base.{ℕ, false, true, List, [], ◌∷◌, ◌++◌, Option, none, some, ◌≡◌, refl, arith}
use edav.Base.Bytes.{Bytes, codes}
use edav.ContentLine.Document.{Document}
use edav.ContentLine.Document
use edav.Ical.{Event, CalendarFile, parse}
use edav.ContentLine.Lines.{crlf}
use edav.Ical.Edit.{write_event}
use edav.Ical.Untouched.{others, write_event_untouched}
use edav.Ical.Duration.{parse_duration, format_duration}
use edav.Ical.Duration.RoundTrip.{parse_duration-format_duration}

abbrev line : Bytes → Bytes
line s = s ++ crlf

abbrev pub meeting : Bytes
meeting =
    line (codes "BEGIN:VCALENDAR")
    ++ line (codes "BEGIN:VEVENT")
    ++ line (codes "SUMMARY:a")
    ++ line (codes "X-NOTE:kept")
    ++ line (codes "DTSTART:20240101T120000Z")
    ++ line (codes "DURATION:PT1H")
    ++ line (codes "SEQUENCE:4")
    ++ line (codes "END:VEVENT")
    ++ line (codes "END:VCALENDAR")

abbrev edited : Event
edited = record {
  uid = [];
  summary = codes "b";
  location = [];
  description = [];
  start = 63871329600;
  end = 63871335000;
  all_day = false;
  timezone = [];
  recurrence = [];
}

parse_duration-format_duration_example :
    parse_duration (format_duration 93784000000000) ≡ some 93784000000000
parse_duration-format_duration_example =
    parse_duration-format_duration 93784000000000 refl (omega arith)

format_duration_test : format_duration 93784000000000 ≡ codes "P1DT2H3M4S"
unfolding format_duration edav.Base.Decimal.format_int
format_duration_test = refl

-- Less than a second leaves a duration without a unit.
sub_second_test : format_duration 500000000 ≡ codes "PT"
unfolding format_duration edav.Base.Decimal.format_int
sub_second_test = refl

abbrev opened : CalendarFile
opened = record { doc = Document.parse meeting; event = record { start = 2; end = 7 } }

opened_test : parse meeting ≡ some opened
unfolding parse Document.parse Document.parse_loop edav.ContentLine.Lines.next_logical_line
    edav.ContentLine.Edit.component edav.ContentLine.Edit.components
    edav.ContentLine.Edit.components_loop edav.Base.Bytes.equal Document.new_line
    edav.Base.Bytes.to_upper edav.Base.Bytes.cut edav.Base.Bytes.equal_fold
opened_test = refl

write_event_untouched_example : others (write_event opened edited 63871329601) ≡ others opened
write_event_untouched_example = write_event_untouched opened edited 63871329601
