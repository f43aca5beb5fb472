-- ===== src/Web/Import.antt =====
-- apps/web/src/app/tenant/(dashboard)/import/page.tsx: the import of a troop, as the state of the page
-- and what happens to it. `toLowerCase` is an argument.
use Prim.Native.String.{len, slice}
use open_troop.Prelude.{
  ℕ, zero, suc, ◌+◌, ◌-◌, String, Bool, true, false, not, ◌&&◌, Option, none, some, get_or, List,
  [], ◌∷◌, ◌++◌, str_eq, leb, ◌==◌, if◌then◌else◌, get_elem?, any,
}
use open_troop.Web.{is_some}
pub mod Polling

pub data ImportJobStatus : Type 0 where
  queued : ImportJobStatus
  running : ImportJobStatus
  succeeded : ImportJobStatus
  failed : ImportJobStatus

pub record ImportJob : Type 0 where
  pub id : String
  pub status : ImportJobStatus

-- `isActive`, of a job that is there
abbrev pub is_active_status : ImportJobStatus → Bool
is_active_status queued = true
is_active_status running = true
is_active_status _ = false

-- `resuming` is the `job` that the pending effect of the mount captured, where it is pending. `version`
-- counts the values of `job`: the effect that polls is set up anew for each, and cancels the one before
-- (`request` is taken to stay the same). `polls` are its requests in flight, with the version and the
-- job that the effect captured. `uploads` counts the uploads in flight, and `file` is the name of the
-- file.
pub record ImportPage : Type 0 where
  pub file : Option String
  pub submitting : Bool
  pub job : Option ImportJob
  pub is_dragging : Bool
  pub resuming : Option (Option ImportJob)
  pub version : ℕ
  pub polls : List (ℕ × String)
  pub uploads : ℕ

-- The first render, after its effects
abbrev pub mounted_page : ImportPage
mounted_page = record {
  file = none;
  submitting = false;
  job = none;
  is_dragging = false;
  resuming = some none;
  version = 0;
  polls = [];
  uploads = 0;
}

abbrev pub set_job : Option ImportJob → ImportPage → ImportPage
set_job job s = record s { job = job; version = 1 + s.version }

-- `if (!cancelled && jobs.length > 0 && !job) setJob(jobs[0])`
abbrev pub show_resumed : Option ImportJob → List ImportJob → ImportPage → ImportPage
show_resumed none (job ∷ jobs) s = set_job (some job) s
show_resumed _ _ s = s

-- The effect of the mount is settled; `none` is a request that failed.
unfoldable pub resume_answered : Option (List ImportJob) → ImportPage → ImportPage
resume_answered jobs s = elim s.resuming [
  | none ↦ s
  | some captured ↦ show_resumed captured (get_or jobs []) (record s { resuming = none })
]

-- `tick`, up to its request
unfoldable pub tick : ImportPage → ImportPage
tick s = elim s.job [
  | none ↦ s
  | some job ↦
      if is_active_status job.status
      then record s { polls = s.polls ++ (s.version, job.id) ∷ [] }
      else s
]

-- The requests in flight but for the one that is answered.
abbrev pub without : ℕ → List (ℕ × String) → List (ℕ × String)
without i [] = []
without zero (poll ∷ polls) = polls
without (suc i) (poll ∷ polls) = poll ∷ without i polls

-- The rest of `tick`: `cancelled` holds where `job` was set since.
abbrev pub show_polled : ℕ → Option ImportJob → ImportPage → ImportPage
show_polled version none s = s
show_polled version (some next) s = if version == s.version then set_job (some next) s else s

abbrev pub settle_poll : Option (ℕ × String) → ℕ → Option ImportJob → ImportPage → ImportPage
settle_poll none i answer s = s
settle_poll (some poll) i answer s =
    show_polled poll.0 answer (record s { polls = without i s.polls })

unfoldable pub poll_answered : ℕ → Option ImportJob → ImportPage → ImportPage
poll_answered i answer s = settle_poll (get_elem? s.polls i) i answer s

abbrev ends_with : String → String → Bool
ends_with name extension =
    let l = len name in let m = len extension in leb m l && str_eq (slice name (l - m) l) extension

-- `validateAndSetFile`
abbrev pub validate_and_set_file : (String → String) → String → ImportPage → ImportPage
validate_and_set_file to_lower_case name s =
    if any (ends_with (to_lower_case name)) (".xml" ∷ ".zip" ∷ ".gz" ∷ [])
    then set_job none (record s { file = some name })
    else s

-- `handleFileChange`
abbrev pub handle_file_change : (String → String) → Option String → ImportPage → ImportPage
handle_file_change to_lower_case none s = s
handle_file_change to_lower_case (some name) s = validate_and_set_file to_lower_case name s

-- `handleDrop`: without a file, reading its name throws, once the page is no longer marked.
abbrev pub handle_drop : (String → String) → Option String → ImportPage → ImportPage
handle_drop to_lower_case name s =
    handle_file_change to_lower_case name (record s { is_dragging = false })

-- `handleClear`
abbrev pub handle_clear : ImportPage → ImportPage
handle_clear s = set_job none (record s { file = none })

-- `handleUpload`, up to its request; the button is disabled while `submitting`.
abbrev pub handle_upload : ImportPage → ImportPage
handle_upload s =
    if is_some s.file && not s.submitting
    then set_job none (record s { submitting = true; uploads = 1 + s.uploads })
    else s

abbrev pub show_queued : Option ImportJob → ImportPage → ImportPage
show_queued none s = s
show_queued (some job) s = set_job (some job) s

-- The rest of `handleUpload`; `none` is a request that failed.
unfoldable pub upload_answered : Option ImportJob → ImportPage → ImportPage
upload_answered answer s =
    if s.uploads == 0
    then s
    else record (show_queued answer (record s { uploads = s.uploads - 1 })) { submitting = false }

-- What may happen to the page.
pub data ImportEvent : Type 0 where
  drags_over : ImportEvent
  drags_leave : ImportEvent
  drops : Option String → ImportEvent
  changes : Option String → ImportEvent
  clears : ImportEvent
  uploads_file : ImportEvent
  answers_upload : Option ImportJob → ImportEvent
  answers_resume : Option (List ImportJob) → ImportEvent
  ticks : ImportEvent
  answers_poll : ℕ → Option ImportJob → ImportEvent

module _ (to_lower_case : String → String) where
  abbrev pub step : ImportEvent → ImportPage → ImportPage
  step drags_over s = record s { is_dragging = true }
  step drags_leave s = record s { is_dragging = false }
  step (drops name) s = handle_drop to_lower_case name s
  step (changes name) s = handle_file_change to_lower_case name s
  step clears s = handle_clear s
  step uploads_file s = handle_upload s
  step (answers_upload answer) s = upload_answered answer s
  step (answers_resume jobs) s = resume_answered jobs s
  step ticks s = tick s
  step (answers_poll i answer) s = poll_answered i answer s

  abbrev pub run : List ImportEvent → ImportPage → ImportPage
  run [] s = s
  run (event ∷ events) s = run events (step event s)
