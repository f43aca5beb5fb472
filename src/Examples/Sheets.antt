-- ===== src/Examples/Sheets.antt =====
-- The sheets of the advancement screen, with a `trim` that takes off one blank in front.
use Prim.Native.String.{len, slice}
use text.Mathlib.Text.{starts_with}
use open_troop.Prelude.{String, ◌≡◌, refl, ◌↔◌, true, false, none, some, if◌then◌else◌}
use open_troop.Doc.{get}
use open_troop.Advancement.{
  date_re, is_valid_date, build_completion_payload, build_merit_badge_payload,
  build_merit_badge_update, build_rank_dates_payload, accepts_date, approved, RequirementCompletion,
}
use open_troop.Advancement.Dates.{IsDateOrNone, sheet_dates_lem}

abbrev trim_front : String → String
trim_front s = if starts_with s " " then slice s 1 (len s) else s

abbrev typed : RequirementCompletion
typed = record { requirement_id = "r1"; date_completed = " 2026-05-01"; note = none }

blank_is_accepted : is_valid_date trim_front typed.date_completed ≡ true
unfolding date_re
blank_is_accepted = refl

blank_is_sent : date_re typed.date_completed ≡ false
unfolding date_re
blank_is_sent = refl

front_accepted : accepts_date trim_front " 2026-05-01" ≡ true
unfolding date_re
front_accepted = refl

front_accepted_bare : accepts_date trim_front "2026-05-01" ≡ true
unfolding date_re
front_accepted_bare = refl

sheet_dates_lem_example :
    IsDateOrNone (get "completed_date" (build_rank_dates_payload trim_front "" "2026-05-01"))
    × IsDateOrNone (get "awarded_date" (build_rank_dates_payload trim_front "" "2026-05-01"))
    × IsDateOrNone
        (get "date_completed" (build_merit_badge_update trim_front " 2026-05-01" (some approved)))
    × IsDateOrNone
        (get "date_completed" (build_merit_badge_payload trim_front "b1" (some " 2026-05-01")))
    × (IsDateOrNone (get "date_completed" (build_completion_payload trim_front typed))
        ↔ (date_re typed.date_completed ≡ true))
sheet_dates_lem_example =
    sheet_dates_lem trim_front refl "" "2026-05-01" " 2026-05-01" "b1" (some approved) typed refl
      front_accepted_bare front_accepted
