-- ===== src/Tests/Recurrence.antt =====
-- A series of two lunches, with the second one moved by an override.
use edav.Base.{
  ℕ, ◌+◌, ◌-◌, ◌<◌, true, false, List, [], ◌∷◌, Option, none, some, if◌then◌else◌, ◌≡◌, refl, arith,
  All, map_option,
}
use edav.Base.Bytes.{Bytes, codes, equal}
use edav.Storage.Objects.{could_overlap}
use edav.Recurrence.{
  ComponentProp, Component, Instance, Bounds, overlaps, split_components, prop_start, prop_end,
  prop_recurrence_id, comp_event, parse_wall_time,
}
use edav.Recurrence.Expander.{
  RuleOption, RecurrenceSet, absolute, instance_of, recurrence_set, overlapping, expand_master,
  expand, summarise,
}
use edav.Base.Order.{InOrder}
use edav.Recurrence.Expander.Window.{Near, expand_master_complete}
use edav.Recurrence.Expander.Sound.{expand_sound}
use edav.Recurrence.Prefilter.{prefilter_sound}

abbrev written : Bytes → List ComponentProp
written value = record { value = value; tzid = codes "UTC"; value_type = [] } ∷ []

abbrev pub lunch : Component
lunch = record {
  name = comp_event;
  props = λ name.
      if equal name prop_start
      then written (codes "20240101T120000")
      else (if equal name prop_end then written (codes "20240101T130000") else []);
}

abbrev moved_lunch : Component
moved_lunch = record {
  name = comp_event;
  props = λ name.
      if equal name prop_start
      then written (codes "20240102T140000")
      else (if equal name prop_recurrence_id then written (codes "20240102T120000") else []);
}

-- Noon of the first day.
abbrev pub noon : ℕ
noon = 63871329600

noon_test : parse_wall_time (codes "20240101T120000") ≡ some noon
unfolding parse_wall_time
noon_test = refl

abbrev pub utc : Bytes → ℕ → Option ℕ
utc zone t = some t

abbrev pub longer : ComponentProp → ℕ → Option ℕ
longer p t = some (t + 60)

abbrev pub daily : Component → Option (Option RuleOption)
daily c = some (some (record { until = none; count = 2; rest = codes "DAILY" }))

abbrev pub two_days : Option RuleOption → ℕ → List ℕ → List ℕ → Option (List ℕ)
two_days rule start dates exceptions = some (start ∷ (start + 86400) ∷ [])

abbrev pub no_text : Component → Bytes → Option Bytes
no_text c name = none

abbrev pub at_noon : ℕ → Instance
at_noon start = record {
  start = start;
  end = start + 3600;
  recurrence_id = start;
  override = false;
}

abbrev moved_instance : Instance
moved_instance = record {
  start = noon + 93600;
  end = noon + 93600;
  recurrence_id = noon + 86400;
  override = true;
}

abbrev both_lunches : List Component
both_lunches = lunch ∷ moved_lunch ∷ []

abbrev expansion : List Instance
expansion = at_noon noon ∷ moved_instance ∷ []

abbrev lunch_bounds : Bounds
lunch_bounds = record {
  start = some noon;
  end = some (noon + 93600);
  recurring = true;
  uid = [];
  component_type = comp_event;
  summary = [];
}

expands : expand utc longer utc daily two_days both_lunches noon (noon + 172800) ≡ some expansion
unfolding expand equal
expands = refl

summarised : summarise utc longer utc daily two_days no_text both_lunches ≡ some lunch_bounds
unfolding summarise equal
summarised = refl

splits : (split_components both_lunches).0 ≡ some lunch
unfolding split_components equal
splits = refl

expand_sound_example :
    All (λ i. overlaps i noon (noon + 172800) ≡ true) expansion
    × InOrder (λ (i : Instance). i.start) expansion
expand_sound_example =
    expand_sound utc longer utc daily two_days both_lunches noon (noon + 172800) {is = expansion}
      expands

prefilter_sound_example :
    All
      (λ i.
        i.start < i.end
        → could_overlap noon (noon + 172800) (some noon) (some (noon + 93600)) ≡ true)
      expansion
prefilter_sound_example =
    prefilter_sound utc longer utc daily two_days no_text both_lunches noon (noon + 172800)
      (noon + 93600) lunch {is = expansion} {b = lunch_bounds} splits summarised refl expands

utc-Near : Near utc
utc-Near zone wall t h = (ground arith, ground arith)

abbrev lunch_base : Instance
lunch_base = record (at_noon noon) { recurrence_id = 31622400 }

abbrev lunch_set : RecurrenceSet
lunch_set = record { all = noon ∷ (noon + 86400) ∷ []; bounded = true }

lunch_base-read : instance_of utc longer lunch ≡ some lunch_base
unfolding instance_of equal
lunch_base-read = refl

lunch_set-read : recurrence_set utc longer utc daily two_days lunch ≡ some (some lunch_set)
unfolding recurrence_set equal
lunch_set-read = refl

lunch-absolute :
    map_option (absolute utc lunch lunch_base) lunch_set.all
    ≡ some (at_noon noon ∷ at_noon (noon + 86400) ∷ [])
unfolding absolute equal
lunch-absolute = refl

expand_master_complete_example :
    expand_master utc longer utc daily two_days lunch (noon + 86400) (noon + 86401)
    ≡ some (overlapping (noon + 86400) (noon + 86401) (at_noon noon ∷ at_noon (noon + 86400) ∷ []))
expand_master_complete_example =
    expand_master_complete utc longer utc daily two_days utc-Near lunch lunch_base lunch_set
      (noon + 86400) (noon + 86401) {is = at_noon noon ∷ at_noon (noon + 86400) ∷ []}
      lunch_base-read lunch_set-read (omega arith) ((omega arith, tt), (tt, tt)) (omega arith)
      lunch-absolute

-- An instant-valued event at the beginning of the range overlaps it, and the index leaves it out.
abbrev reminder : Instance
reminder = record { start = noon; end = noon; recurrence_id = 31622400; override = false }

reminder_test :
    (overlaps reminder noon (noon + 60) ≡ true)
    × (could_overlap noon (noon + 60) (some reminder.start) (some reminder.end) ≡ false)
unfolding overlaps could_overlap
reminder_test = (refl, refl)

-- One hour east of UTC the override does not replace_overridden the instance of its day: both are returned.
abbrev east : Bytes → ℕ → Option ℕ
east zone t = some (t - 3600)

abbrev at_noon_in_east : ℕ → Instance
at_noon_in_east wall = record {
  start = wall - 3600;
  end = wall;
  recurrence_id = wall;
  override = false;
}

east_test :
    expand east longer east daily two_days both_lunches noon (noon + 172800)
    ≡ some (
        at_noon_in_east (noon + 86400)
        ∷ record moved_instance {
          start = noon + 90000;
          end = noon + 90000;
          recurrence_id = noon + 82800;
        }
        ∷ [])
unfolding expand equal
east_test = refl
