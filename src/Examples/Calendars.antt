-- ===== src/Examples/Calendars.antt =====
-- The calendar of a world whose years have one day.
use mathlib.Core.Option.{some-injective}
use Prim.Native.String.{◌++◌ as join}
use text.Mathlib.TextLemmas.{append_cancel_right}
use open_troop.Prelude.{
  ℕ, ◌+◌, ◌≡◌, refl, sym, ap, ◌∙◌, true, false, ◌&&◌, none, some, [], ◌∷◌, str_eq, any,
}
use open_troop.Doc.Decimal.{show, number, number-show}
use open_troop.Web.Calendar.{day_key, add_event, events_by_day, LocalDate, Instant, CalendarEvent}
use open_troop.Web.Calendar.Days.{occurs_on, shows, events_by_day_lem}

abbrev new_year : ℕ → LocalDate
new_year day = record { full_year = day; month = 0; date = 1 }

abbrev at_day : ℕ → Instant
at_day day = record { local_day = day; utc_day = 1 + day }

abbrev campout_event : CalendarEvent
campout_event = record {
  id = "e1";
  all_day = false;
  scheduled_start = some (at_day 5);
  scheduled_end = some (at_day 7);
}

abbrev holiday_event : CalendarEvent
holiday_event = record {
  id = "e2";
  all_day = true;
  scheduled_start = some (at_day 5);
  scheduled_end = none;
}

last_day_shown :
    shows new_year 7 "e1" (events_by_day new_year (campout_event ∷ holiday_event ∷ [])) ≡ true
unfolding add_event show
last_day_shown = refl

year-injective : (a b : ℕ) → day_key (new_year a) ≡ day_key (new_year b) → a ≡ b
year-injective a b p =
    let e : show a ≡ show b =
      append_cancel_right (show a) (show b) (join "-" (join (show 0) (join "-" (show 1)))) p in
    some-injective a b (sym (number-show a) ∙ (ap number e ∙ number-show b))

events_by_day_lem_example :
    shows new_year 6 "e2" (events_by_day new_year (campout_event ∷ holiday_event ∷ []))
    ≡ any (λ e. occurs_on 6 e && str_eq e.id "e2") (campout_event ∷ holiday_event ∷ [])
events_by_day_lem_example =
    events_by_day_lem new_year year-injective 6 "e2" (campout_event ∷ holiday_event ∷ [])
