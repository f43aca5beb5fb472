-- ===== src/Advancement.antt =====
-- apps/mobile/src/lib/advancement.ts, and what the sheets of apps/mobile/app/(tabs)/advancement.tsx
-- accept and send. `trim` and `toLowerCase`, which rest on the tables of Unicode, are arguments.
use Prim.Native.String.{len, slice}
use text.Mathlib.Text.{find?}
use open_troop.Prelude.{
  ℕ, ◌+◌, String, Bool, true, false, not, ◌&&◌, ◌||◌, Option, none, some, List, [], ◌∷◌, str_eq,
  ◌==◌, if◌then◌else◌, length, keep, any,
}
use open_troop.Doc.{Doc, Json, null, str}
use open_troop.Web.{is_some}
pub mod Dates
pub mod Screen

pub data CompletionStatus : Type 0 where
  reported : CompletionStatus
  approved : CompletionStatus
  rejected : CompletionStatus

abbrev pub status_text : CompletionStatus → String
status_text reported = "reported"
status_text approved = "approved"
status_text rejected = "rejected"

abbrev is_reported : CompletionStatus → Bool
is_reported reported = true
is_reported _ = false

-- `\d`
abbrev is_digit : String → Bool
is_digit c = any (str_eq c) ("0" ∷ "1" ∷ "2" ∷ "3" ∷ "4" ∷ "5" ∷ "6" ∷ "7" ∷ "8" ∷ "9" ∷ [])

-- The characters of a pattern, from a byte on: `d` is `\d`, any other is itself.
abbrev matches_from : ℕ → List String → String → Bool
matches_from i [] input = i == len input
matches_from i (p ∷ ps) input =
    let c = slice input i (1 + i) in
    (if str_eq p "d" then is_digit c else str_eq c p) && matches_from (1 + i) ps input

-- `DATE_RE.test(value)`
unfoldable pub date_re : String → Bool
date_re = matches_from 0 ("d" ∷ "d" ∷ "d" ∷ "d" ∷ "-" ∷ "d" ∷ "d" ∷ "-" ∷ "d" ∷ "d" ∷ [])

abbrev pub date_or_null : String → Json
date_or_null s = if str_eq s "" then null else str s

pub record RequirementCompletion : Type 0 where
  pub requirement_id : String
  pub date_completed : String
  pub note : Option String

pub record MeritBadge : Type 0 where
  pub id : String
  pub name : String
  pub is_discontinued : Bool

pub record CompletionActions : Type 0 where
  pub show_approve_reject : Bool
  pub show_revoke : Bool

-- `completionActions`
abbrev pub completion_actions : Option CompletionStatus → Bool → Bool → Bool → CompletionActions
completion_actions none can_approve can_record locked = record {
  show_approve_reject = false;
  show_revoke = false;
}
completion_actions (some status) can_approve can_record locked =
    if locked then record { show_approve_reject = false; show_revoke = false } else record {
      show_approve_reject = is_reported status && can_approve;
      show_revoke = not (is_reported status) && (can_approve || can_record);
    }

-- `availableBadges`
abbrev pub available_badges : List MeritBadge → List String → List MeritBadge
available_badges catalog earned =
    keep (λ b. not (any (λ id. str_eq id b.id) earned) && not b.is_discontinued) catalog

-- An item of the queue: its id and its status.
pub record QueueItem : Type 0 where
  pub id : String
  pub status : CompletionStatus

pub record AdvancementQueue : Type 0 where
  pub completions : List QueueItem
  pub merit_badges : List QueueItem

-- `pendingCompletions`
abbrev pub pending_completions : Option AdvancementQueue → List QueueItem
pending_completions none = []
pending_completions (some queue) = keep (λ c. is_reported c.status) queue.completions

-- `pendingMeritBadges`
abbrev pub pending_merit_badges : Option AdvancementQueue → List QueueItem
pending_merit_badges none = []
pending_merit_badges (some queue) = keep (λ b. is_reported b.status) queue.merit_badges

-- `pendingQueueCount`
abbrev pub pending_queue_count : Option AdvancementQueue → ℕ
pending_queue_count queue = length (pending_completions queue) + length (pending_merit_badges queue)

module _ (trim : String → String) where
  -- `isValidDate`
  abbrev pub is_valid_date : String → Bool
  is_valid_date input = date_re (trim input)

  -- A text, trimmed, where it is not empty then.
  abbrev pub trimmed : Option String → Option String
  trimmed none = none
  trimmed (some s) = if str_eq (trim s) "" then none else some (trim s)

  abbrev pub property_of : String → Option String → Doc
  property_of key none = []
  property_of key (some s) = (key, str s) ∷ []

  -- `buildCompletionPayload`
  abbrev pub build_completion_payload : RequirementCompletion → Doc
  build_completion_payload input =
      ("requirement_id", str input.requirement_id)
      ∷ ("date_completed", str input.date_completed)
      ∷ property_of "note" (trimmed input.note)

  -- `buildMeritBadgePayload`
  abbrev pub build_merit_badge_payload : String → Option String → Doc
  build_merit_badge_payload merit_badge_id date_completed =
      ("merit_badge_id", str merit_badge_id) ∷ property_of "date_completed" (trimmed date_completed)

  -- `buildMeritBadgeUpdate`
  abbrev pub build_merit_badge_update : String → Option CompletionStatus → Doc
  build_merit_badge_update date_completed none =
      ("date_completed", date_or_null (trim date_completed)) ∷ []
  build_merit_badge_update date_completed (some status) =
      ("date_completed", date_or_null (trim date_completed))
      ∷ ("status", str (status_text status))
      ∷ []

  -- `buildRankDatesPayload`
  abbrev pub build_rank_dates_payload : String → String → Doc
  build_rank_dates_payload completed_date awarded_date =
      ("completed_date", date_or_null (trim completed_date))
      ∷ ("awarded_date", date_or_null (trim awarded_date))
      ∷ []

  -- `filterBadgeCatalog`
  abbrev pub filter_badge_catalog : (String → String) → List MeritBadge → String → List MeritBadge
  filter_badge_catalog to_lower_case catalog query =
      let q = to_lower_case (trim query) in
      if str_eq q "" then catalog else keep (λ b. is_some (find? (to_lower_case b.name) q)) catalog

  -- The button of a sheet that has one optional date is enabled.
  abbrev pub accepts_date : String → Bool
  accepts_date date = str_eq date "" || is_valid_date date
