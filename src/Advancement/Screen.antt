-- ===== src/Advancement/Screen.antt =====
-- The state of apps/mobile/app/(tabs)/advancement.tsx: whose advancement is shown, who may change it, and
-- the mutation that each sheet confirms. `trim` is an argument, as in Advancement.antt.
use mathlib.Core.Option
use open_troop.Prelude.{
  String, Bool, false, not, ◌&&◌, ◌||◌, Option, none, some, get_or, List, [], ◌∷◌, map, str_eq,
  lookup, new_map,
}
use open_troop.Doc.{str}
use open_troop.Web.{truthy, Mutation}
use open_troop.Reads.{field, cached_permission, CachedSession}
use open_troop.MobileHooks.{
  use_record_completion, use_update_completion, use_record_merit_badge, use_update_merit_badge,
  use_update_rank_progress,
}
use open_troop.Advancement.{
  status_text, build_completion_payload, build_merit_badge_payload, build_merit_badge_update,
  build_rank_dates_payload, CompletionStatus, MeritBadge,
}

-- `scoutId`: the scout that was selected, or the only one.
abbrev pub scout_id : Option String → Option (List String) → Option String
scout_id (some id) scouts = some id
scout_id none (some (id ∷ [])) = some id
scout_id none _ = none

abbrev is_recorder : Option CachedSession → Bool
is_recorder session = cached_permission session "advancement:record"

-- `session?.member?.id`
abbrev session_member_id : Option CachedSession → Option String
session_member_id none = none
session_member_id (some session) = Option.map (field "id") session.member

-- `session?.member?.id === scoutId`, where `none` is `undefined` on the left and `null` on the right.
abbrev same_id : Option String → Option String → Bool
same_id (some a) (some b) = str_eq a b
same_id _ _ = false

-- `canSelfReport`; `mode` is `settings?.advancement_mode`.
abbrev pub can_self_report : Option String → Option CachedSession → Option String → Bool
can_self_report none session scout = false
can_self_report (some mode) session scout =
    str_eq mode "scout_reported"
    && (same_id (session_member_id session) scout
        || not (cached_permission session "advancement:read"))

-- `canWrite`
abbrev pub can_write : Option String → Option CachedSession → Option String → Bool
can_write mode session scout =
    truthy (get_or scout "") && (is_recorder session || can_self_report mode session scout)

-- `badgeName`
abbrev pub badge_name : List MeritBadge → String → String
badge_name catalog id =
    get_or (lookup id (new_map (map (λ b. (b.id, b.name)) catalog))) "Merit badge"

module _ (trim : String → String) (tenant scout : Option String) where
  -- `onConfirm` of the sheet of a requirement
  abbrev pub confirm_record : String → String → String → Mutation
  confirm_record requirement_id date note = use_record_completion tenant (get_or scout "") (
      build_completion_payload trim
        (record { requirement_id = requirement_id; date_completed = date; note = some note }))

  -- `onConfirm` of the sheet of a rank
  abbrev pub confirm_rank_dates : String → String → String → Mutation
  confirm_rank_dates rank_id completed awarded =
      use_update_rank_progress tenant (get_or scout "") rank_id
        (build_rank_dates_payload trim completed awarded)

  -- `onConfirm` of the sheet that adds a badge
  abbrev pub confirm_add_badge : String → String → Mutation
  confirm_add_badge merit_badge_id date =
      use_record_merit_badge tenant (get_or scout "")
        (build_merit_badge_payload trim merit_badge_id (some date))

  -- `onConfirm` of the sheet that edits a badge
  abbrev pub confirm_edit_badge : String → String → Option CompletionStatus → Mutation
  confirm_edit_badge badge_id date status =
      use_update_merit_badge tenant badge_id (build_merit_badge_update trim date status)

-- `onApprove` and `onReject` of a completion, and of a badge in the queue
abbrev pub decide_completion : Option String → String → CompletionStatus → Mutation
decide_completion tenant id status =
    use_update_completion tenant id (("status", str (status_text status)) ∷ [])

abbrev pub decide_badge : Option String → String → CompletionStatus → Mutation
decide_badge tenant id status =
    use_update_merit_badge tenant id (("status", str (status_text status)) ∷ [])
