-- ===== src/Advancement/Dates.antt =====
-- The dates that the sheets of apps/mobile/app/(tabs)/advancement.tsx send.
use mathlib.Core.Bool.{false≢true}
use open_troop.Prelude.{
  String, ◌≡◌, refl, sym, ap, ◌∙◌, ◌↔◌, ◌⊎◌, inl, inr, true, Option, none, some, arith, str_eq,
  eq_iff, Bool-cases,
}
use open_troop.Doc.{get, Json, null, str}
use open_troop.Advancement.{
  date_re, date_or_null, trimmed, property_of, build_completion_payload, build_merit_badge_payload,
  build_merit_badge_update, build_rank_dates_payload, accepts_date, CompletionStatus,
  RequirementCompletion,
}

-- The property is missing, null, or a date as `DATE_RE` has it.
abbrev pub IsDateOrNone : Option Json → Type 0
IsDateOrNone none = Unit {0}
IsDateOrNone (some null) = Unit {0}
IsDateOrNone (some (str s)) = date_re s ≡ true
IsDateOrNone _ = ⊥

module _ (trim : String → String) (trim_empty : trim "" ≡ "") where
  -- A date that a sheet accepts is blank or a date, once it is trimmed.
  accepts_date-cases :
      (date : String)
      → accepts_date trim date ≡ true
      → (str_eq (trim date) "" ≡ true) ⊎ (date_re (trim date) ≡ true)
  accepts_date-cases date ok' = elim (Bool-cases (str_eq date "")) [
    | inl blank ↦
        inl (ap (λ d. str_eq (trim d) "") ((eq_iff date "").0 blank) ∙ (rw trim_empty refl))
    | inr typed ↦ inr (ground (arith, ok'))
  ]

  date_or_null-IsDateOrNone :
      (s : String)
      → (str_eq s "" ≡ true) ⊎ (date_re s ≡ true)
      → IsDateOrNone (some (date_or_null s))
  date_or_null-IsDateOrNone s h = elim (Bool-cases (str_eq s "")) [
    | inl blank ↦ rw blank tt
    | inr typed ↦
        rw typed (elim h [ inl blank ↦ absurd (false≢true (sym typed ∙ blank)) | inr date ↦ date ])
  ]

  optional_date-IsDateOrNone :
      (date : String)
      → (str_eq (trim date) "" ≡ true) ⊎ (date_re (trim date) ≡ true)
      → IsDateOrNone
          (get "date_completed" (property_of trim "date_completed" (trimmed trim (some date))))
  unfolding get
  optional_date-IsDateOrNone date h = elim (Bool-cases (str_eq (trim date) "")) [
    | inl blank ↦ rw blank tt
    | inr typed ↦
        rw typed (elim h [ inl blank ↦ absurd (false≢true (sym typed ∙ blank)) | inr date ↦ date ])
  ]

  update-IsDateOrNone :
      (date : String) (status : Option CompletionStatus)
      → accepts_date trim date ≡ true
      → IsDateOrNone (get "date_completed" (build_merit_badge_update trim date status))
  unfolding get
  update-IsDateOrNone date none h =
      date_or_null-IsDateOrNone (trim date) (accepts_date-cases date h)
  update-IsDateOrNone date (some status) h =
      date_or_null-IsDateOrNone (trim date) (accepts_date-cases date h)

  -- With a `trim` that keeps the empty text: where the sheets of a rank and of a badge accept the dates
  -- that were typed, each date that they send is missing, null, or of the form YYYY-MM-DD. But the
  -- sheet of a requirement, which accepts what has this form once it is trimmed, sends what was typed:
  -- its date has the form only if that has it untrimmed.
  pub sheet_dates_lem :
      (completed awarded date id : String) (status : Option CompletionStatus)
      (input : RequirementCompletion)
      → accepts_date trim completed ≡ true
      → accepts_date trim awarded ≡ true
      → accepts_date trim date ≡ true
      → IsDateOrNone (get "completed_date" (build_rank_dates_payload trim completed awarded))
        × IsDateOrNone (get "awarded_date" (build_rank_dates_payload trim completed awarded))
        × IsDateOrNone (get "date_completed" (build_merit_badge_update trim date status))
        × IsDateOrNone (get "date_completed" (build_merit_badge_payload trim id (some date)))
        × (IsDateOrNone (get "date_completed" (build_completion_payload trim input))
            ↔ (date_re input.date_completed ≡ true))
  unfolding get
  sheet_dates_lem completed awarded date id status input c a d = (
    date_or_null-IsDateOrNone (trim completed) (accepts_date-cases completed c),
    date_or_null-IsDateOrNone (trim awarded) (accepts_date-cases awarded a),
    update-IsDateOrNone date status d,
    optional_date-IsDateOrNone date (accepts_date-cases date d),
    ((λ h. h), (λ h. h)),
  )
