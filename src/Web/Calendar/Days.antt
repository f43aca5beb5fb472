-- ===== src/Web/Calendar/Days.antt =====
-- The days on which apps/web/src/lib/calendar.ts shows an event.
use mathlib.Core.Bool.{false≢true}
use open_troop.Prelude.{
  ℕ, zero, suc, ◌+◌, String, ◌≡◌, refl, sym, ap, ◌∙◌, subst, inl, inr, Bool, true, false, ◌&&◌,
  ◌||◌, none, some, get_or, List, [], ◌∷◌, ◌++◌, arith, str_eq, ltb, leb, ◌==◌, ==_iff,
  str_eq-false, Bool-cases, Option-cases, any, lookup, lookup-assign, lookup-assign_other,
}
use open_troop.Web.Calendar.{
  day_key, day_of, DayMap, push_event, push_days, add_event, add_events, events_by_day, LocalDate,
  CalendarEvent,
}

-- From the day of the start to the day of the end, at most 366 days; without an end, the day of the start.
abbrev pub occurs_on : ℕ → CalendarEvent → Bool
occurs_on day e = elim e.scheduled_start [
  | none ↦ false
  | some start ↦
      leb (day_of e.all_day start) day
      && leb day (day_of e.all_day (get_or e.scheduled_end start))
      && ltb day (day_of e.all_day start + 366)
]

abbrev pub names_event : String → List CalendarEvent → Bool
names_event x = any (λ e. str_eq e.id x)

-- The bucket of the day has an event of this id.
abbrev pub shows : (ℕ → LocalDate) → ℕ → String → DayMap → Bool
shows date_of day x buckets = names_event x (get_or (lookup (day_key (date_of day)) buckets) [])

module _ (date_of : ℕ → LocalDate)
    (key_injective : (a b : ℕ) → day_key (date_of a) ≡ day_key (date_of b) → a ≡ b) where
  names_event-append :
      (x : String) (es ds : List CalendarEvent)
      → names_event x (es ++ ds) ≡ (names_event x es || names_event x ds)
  names_event-append x [] ds = refl
  names_event-append x (e ∷ es) ds = ground (arith, names_event-append x es ds)

  shows-push_same :
      (at : ℕ) (x : String) (e : CalendarEvent) (buckets : DayMap)
      → shows date_of at x (push_event date_of at e buckets)
        ≡ (shows date_of at x buckets || str_eq e.id x)
  shows-push_same at x e buckets =
      let old = get_or (lookup (day_key (date_of at)) buckets) [] in
      rw (lookup-assign (day_key (date_of at)) (old ++ e ∷ []) buckets)
        (names_event-append x old (e ∷ []) ∙ ground arith)

  day_key-apart :
      (a b : ℕ) → (a == b) ≡ false → str_eq (day_key (date_of a)) (day_key (date_of b)) ≡ false
  day_key-apart a b other =
      str_eq-false (day_key (date_of a)) (day_key (date_of b))
        (λ p. false≢true (sym other ∙ (==_iff a b).1 (key_injective a b p)))

  shows-push_event :
      (day at : ℕ) (x : String) (e : CalendarEvent) (buckets : DayMap)
      → shows date_of day x (push_event date_of at e buckets)
        ≡ (shows date_of day x buckets || (at == day && str_eq e.id x))
  shows-push_event day at x e buckets = elim (Bool-cases (at == day)) [
    | inl same ↦ rw same (
        subst
          (λ d.
            shows date_of d x (push_event date_of at e buckets)
            ≡ (shows date_of d x buckets || str_eq e.id x))
          ((==_iff at day).0 same) (shows-push_same at x e buckets))
    | inr other ↦
        let old = get_or (lookup (day_key (date_of at)) buckets) [] in
        rw
          (
            other,
            lookup-assign_other (day_key (date_of at)) (day_key (date_of day)) (old ++ e ∷ [])
                buckets (day_key-apart at day other),
          )
          (ground arith)
  ]

  abbrev within : ℕ → ℕ → ℕ → ℕ → Bool
  within guard day cursor last = leb cursor day && leb day last && ltb day (cursor + guard)

  within_step :
      (guard day cursor last : ℕ)
      → leb cursor last ≡ true
      → (cursor == day || within guard day (1 + cursor) last) ≡ within (suc guard) day cursor last
  within_step guard day cursor last more = ground (arith, more)

  within_past :
      (guard day cursor last : ℕ) → leb cursor last ≡ false → within guard day cursor last ≡ false
  within_past guard day cursor last over = ground (arith, over)

  within_spent : (day cursor last : ℕ) → within 0 day cursor last ≡ false
  within_spent day cursor last = ground arith

  shows-push_days :
      (guard day cursor last : ℕ) (x : String) (e : CalendarEvent) (buckets : DayMap)
      → shows date_of day x (push_days date_of guard cursor last e buckets)
        ≡ (shows date_of day x buckets || (within guard day cursor last && str_eq e.id x))
  shows-push_days zero day cursor last x e buckets =
      rw (within_spent day cursor last) (ground arith)
  shows-push_days (suc guard) day cursor last x e buckets =
      let go = push_days date_of guard (1 + cursor) last e (push_event date_of cursor e buckets) in
      let shown : Bool → Bool = λ b. shows date_of day x (elim b [ true ↦ go | false ↦ buckets ]) in
      elim (Bool-cases (leb cursor last)) [
        | inl more ↦
            ap shown more
            ∙ shows-push_days guard day (1 + cursor) last x e (push_event date_of cursor e buckets)
            ∙ rw (shows-push_event day cursor x e buckets)
                (ground (arith, within_step guard day cursor last more))
        | inr over ↦
            ap shown over ∙ rw (within_past (suc guard) day cursor last over) (ground arith)
      ]

  shows-add_event :
      (day : ℕ) (x : String) (e : CalendarEvent) (buckets : DayMap)
      → shows date_of day x (add_event date_of e buckets)
        ≡ (shows date_of day x buckets || (occurs_on day e && str_eq e.id x))
  unfolding add_event
  shows-add_event day x e buckets = elim (Option-cases e.scheduled_start) [
    | inl absent ↦ rw (absent, add_event) (ground arith)
    | inr (start, there) ↦
        rw (there, add_event)
          (shows-push_days 366 day (day_of e.all_day start)
            (day_of e.all_day (get_or e.scheduled_end start)) x e buckets)
  ]

  shows-add_events :
      (day : ℕ) (x : String) (events : List CalendarEvent) (buckets : DayMap)
      → shows date_of day x (add_events date_of events buckets)
        ≡ (shows date_of day x buckets || any (λ e. occurs_on day e && str_eq e.id x) events)
  shows-add_events day x [] buckets = ground arith
  shows-add_events day x (e ∷ events) buckets =
      shows-add_events day x events (add_event date_of e buckets)
      ∙ rw (shows-add_event day x e buckets) (ground arith)

  -- With keys that tell days apart, for any events: the calendar shows an id on a day exactly if an
  -- event of that id has a valid start and the day lies from the day of its start to the day of its end
  -- (that of its start, if its end is no date), less than 366 days after its start; the days are those
  -- of the viewer, or of UTC for an event of whole days.
  pub events_by_day_lem :
      (day : ℕ) (x : String) (events : List CalendarEvent)
      → shows date_of day x (events_by_day date_of events)
        ≡ any (λ e. occurs_on day e && str_eq e.id x) events
  events_by_day_lem day x events = shows-add_events day x events []
