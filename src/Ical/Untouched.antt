-- ===== src/Ical/Untouched.antt =====
-- internal/ical/event.go: what `Apply` leaves of an object as it was.
use edav.Base.{ℕ, true, List, [], ◌∷◌, none, some, any, keep, ◌≡◌, refl, ◌∙◌, inl, inr, Bool-cases}
use edav.Base.Bytes.{Bytes, codes, equal, to_upper}
use edav.ContentLine.Document.{Line}
use edav.ContentLine.Edit.{set_text, set_with_params}
use edav.ContentLine.Edit.Others.{is_other, others-set_value}
use edav.Ical.{Event, CalendarFile}
use edav.Ical.Edit.{
  set_file, set_file_with, has_duration, write_end, write_texts, write_stamps, bump_sequence,
  write_event,
}

-- The properties that the form edits, and the stamps.
abbrev pub touched : List Bytes
touched =
    codes "SUMMARY"
    ∷ codes "LOCATION"
    ∷ codes "DESCRIPTION"
    ∷ codes "DTSTART"
    ∷ codes "DTEND"
    ∷ codes "DURATION"
    ∷ codes "DTSTAMP"
    ∷ codes "LAST-MODIFIED"
    ∷ codes "SEQUENCE"
    ∷ []

abbrev pub others : CalendarFile → List Line
others o = keep (is_other touched) o.doc

abbrev Touched : Bytes → Type 0
Touched name = any (equal (to_upper name)) touched ≡ true

others-set_file :
    (o : CalendarFile) (name text : Bytes) → Touched name → others (set_file o name text) ≡ others o
unfolding set_text
others-set_file o name text h = others-set_value touched o.doc o.event name _ none h

others-set_file_with :
    (o : CalendarFile) (name : Bytes) (written : Bytes × Bytes)
    → Touched name
    → others (set_file_with o name written) ≡ others o
unfolding set_with_params
others-set_file_with o name written h =
    others-set_value touched o.doc o.event name written.1 (some written.0) h

others-write_texts : (o : CalendarFile) (e : Event) → others (write_texts o e) ≡ others o
unfolding write_texts equal to_upper
others-write_texts o e =
    others-set_file _ (codes "DESCRIPTION") e.description refl
    ∙ (others-set_file _ (codes "LOCATION") e.location refl
        ∙ others-set_file o (codes "SUMMARY") e.summary refl)

others-write_end : (o : CalendarFile) (e : Event) → others (write_end o e) ≡ others o
unfolding write_end equal to_upper
others-write_end o e = elim (Bool-cases (has_duration o)) [
  | inl h ↦ rw (h, write_end) (others-set_file o (codes "DURATION") _ refl)
  | inr h ↦ rw (h, write_end) (others-set_file_with o (codes "DTEND") _ refl)
]

others-write_stamps : (o : CalendarFile) (now : ℕ) → others (write_stamps o now) ≡ others o
unfolding write_stamps bump_sequence equal to_upper
others-write_stamps o now =
    others-set_file _ (codes "SEQUENCE") _ refl
    ∙ (others-set_file _ (codes "LAST-MODIFIED") _ refl
        ∙ others-set_file o (codes "DTSTAMP") _ refl)

-- Writing an event leaves every line in no group, other than those of the edited properties and the
-- stamps, as it is: bytes, terminator and place among such lines.
pub write_event_untouched :
    (o : CalendarFile) (e : Event) (now : ℕ) → others (write_event o e now) ≡ others o
unfolding write_event equal to_upper
write_event_untouched o e now =
    others-write_stamps _ now
    ∙ (others-write_end _ e
        ∙ (others-set_file_with _ (codes "DTSTART") _ refl ∙ others-write_texts o e))
