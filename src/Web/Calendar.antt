-- ===== src/Web/Calendar.antt =====
-- `eventsByDay` of apps/web/src/lib/calendar.ts: on which days of the month the calendar shows an event.
-- A day is its number, counted from any day; `date_of` says which date has that number.
use Prim.Native.String.{◌++◌ as join}
use open_troop.Doc.Decimal.{show}
use open_troop.Prelude.{
  ℕ, zero, suc, ◌+◌, String, Bool, true, false, Option, none, some, get_or, List, [], ◌∷◌, ◌++◌,
  leb, if◌then◌else◌, lookup, assign,
}
pub mod Days

-- What `getFullYear`, `getMonth` and `getDate` answer.
pub record LocalDate : Type 0 where
  pub full_year : ℕ
  pub month : ℕ
  pub date : ℕ

-- `dayKey`
abbrev pub day_key : LocalDate → String
day_key d = join (show d.full_year) (join "-" (join (show d.month) (join "-" (show d.date))))

-- An instant: its day for the viewer, and its day in UTC.
pub record Instant : Type 0 where
  pub local_day : ℕ
  pub utc_day : ℕ

-- `none` is a text that is no date.
pub record CalendarEvent : Type 0 where
  pub id : String
  pub all_day : Bool
  pub scheduled_start : Option Instant
  pub scheduled_end : Option Instant

-- `cursor` and `last`, from the instants
abbrev pub day_of : Bool → Instant → ℕ
day_of all_day t = if all_day then t.utc_day else t.local_day

abbrev pub DayMap : Type 0
DayMap = List (String × List CalendarEvent)

module _ (date_of : ℕ → LocalDate) where
  -- `bucket.push(e)`, or a new bucket
  abbrev pub push_event : ℕ → CalendarEvent → DayMap → DayMap
  push_event day e buckets =
      assign (day_key (date_of day)) (get_or (lookup (day_key (date_of day)) buckets) [] ++ e ∷ [])
        buckets

  -- The inner loop, where the fuel is what is left of the guard.
  abbrev pub push_days : ℕ → ℕ → ℕ → CalendarEvent → DayMap → DayMap
  push_days zero cursor last e buckets = buckets
  push_days (suc guard) cursor last e buckets = elim (leb cursor last) [
    | true ↦ push_days guard (1 + cursor) last e (push_event cursor e buckets)
    | false ↦ buckets
  ]

  unfoldable pub add_event : CalendarEvent → DayMap → DayMap
  add_event e buckets = elim e.scheduled_start [
    | none ↦ buckets
    | some start ↦
        push_days 366 (day_of e.all_day start) (day_of e.all_day (get_or e.scheduled_end start)) e
          buckets
  ]

  abbrev pub add_events : List CalendarEvent → DayMap → DayMap
  add_events [] buckets = buckets
  add_events (e ∷ es) buckets = add_events es (add_event e buckets)

  -- `eventsByDay`
  abbrev pub events_by_day : List CalendarEvent → DayMap
  events_by_day events = add_events events []
