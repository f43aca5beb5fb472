-- ===== src/Web/Import/Polling.antt =====
-- Which job the page of apps/web/src/app/tenant/(dashboard)/import/page.tsx shows.
use mathlib.Core.Option
use mathlib.Core.Option.{some-injective, none-ne-some}
use open_troop.Web.{is_some}
use open_troop.Prelude.{
  ℕ, zero, suc, ◌+◌, ◌-◌, ◌≤◌, String, ◌≡◌, refl, sym, ap, ◌∙◌, subst, inl, inr, true, false, not,
  ◌&&◌, Option, none, some, get_or, List, [], ◌∷◌, ◌++◌, arith, ◌==◌, ==_iff, Option-cases,
  if-holds, get_elem?, any, All, All-append, All-mono,
}
use open_troop.Web.Import.{
  settle_poll, is_active_status, mounted_page, set_job, show_resumed, resume_answered, tick,
  without, show_polled, poll_answered, ends_with, validate_and_set_file, handle_file_change,
  handle_upload, show_queued, upload_answered, drags_over, drags_leave, drops, changes, clears,
  uploads_file, answers_upload, answers_resume, ticks, answers_poll, step, run, ImportJob,
  ImportPage, ImportEvent,
}

abbrev pub shown_id : ImportPage → Option String
shown_id s = Option.map (λ j. j.id) s.job

-- A request of the current effect is about the job that is shown, and none is of a later one.
abbrev IsPoll : ℕ → Option ImportJob → ℕ × String → Type 0
IsPoll version job (v, id) =
    (v ≤ version) × (v ≡ version → (j : ImportJob) × ((job ≡ some j) × (j.id ≡ id)))

abbrev IsPage : ImportPage → Type 0
IsPage s = All (IsPoll s.version s.job) s.polls

set_job-IsPage : (job : Option ImportJob) (s : ImportPage) → IsPage s → IsPage (set_job job s)
set_job-IsPage job s h =
    All-mono (IsPoll s.version s.job) (IsPoll (1 + s.version) job)
      (λ (v, id) (old, _). (omega arith, (λ same. absurd (omega arith)))) s.polls h

module _ (P : ℕ × String → Type 0) where
  All-without : (i : ℕ) (xs : List (ℕ × String)) → All P xs → All P (without i xs)
  All-without i [] h = tt
  All-without zero (x ∷ xs) (p, h) = h
  All-without (suc i) (x ∷ xs) (p, h) = (p, All-without i xs h)

  All-get_elem :
      (i : ℕ) (xs : List (ℕ × String)) (x : ℕ × String) → All P xs → get_elem? xs i ≡ some x → P x
  All-get_elem i [] x h e = absurd (none-ne-some x e)
  All-get_elem zero (y ∷ xs) x (p, h) e = subst P (some-injective y x e) p
  All-get_elem (suc i) (y ∷ xs) x (p, h) e = All-get_elem i xs x h e

show_resumed-IsPage :
    (captured : Option ImportJob) (jobs : List ImportJob) (s : ImportPage)
    → IsPage s
    → IsPage (show_resumed captured jobs s)
show_resumed-IsPage none [] s h = h
show_resumed-IsPage none (job ∷ jobs) s h = set_job-IsPage (some job) s h
show_resumed-IsPage (some job) jobs s h = h

resume_answered-IsPage :
    (jobs : Option (List ImportJob)) (s : ImportPage) → IsPage s → IsPage (resume_answered jobs s)
unfolding resume_answered
resume_answered-IsPage jobs s h = elim (Option-cases s.resuming) [
  | inl over ↦ rw over h
  | inr (captured, there) ↦
      rw there (show_resumed-IsPage captured (get_or jobs []) (record s { resuming = none }) h)
]

tick-IsPage : (s : ImportPage) → IsPage s → IsPage (tick s)
unfolding tick
tick-IsPage s h = elim (Option-cases s.job) [
  | inl absent ↦ rw absent (subst (λ j. All (IsPoll s.version j) s.polls) absent h)
  | inr (job, shown) ↦
      let h1 : IsPage (record s { job = some job }) =
        subst (λ j. All (IsPoll s.version j) s.polls) shown h in
      rw shown (
        if-holds IsPage (is_active_status job.status)
          (record s { job = some job; polls = s.polls ++ (s.version, job.id) ∷ [] })
          (record s { job = some job })
          (λ active.
            All-append (IsPoll s.version (some job)) s.polls ((s.version, job.id) ∷ []) h1
              ((omega arith, (λ same. (job, (refl, refl)))), tt))
          (λ over. h1))
]

show_polled-IsPage :
    (version : ℕ) (answer : Option ImportJob) (s : ImportPage)
    → IsPage s
    → IsPage (show_polled version answer s)
show_polled-IsPage version none s h = h
show_polled-IsPage version (some next) s h =
    if-holds IsPage (version == s.version) (set_job (some next) s) s
      (λ current. set_job-IsPage (some next) s h) (λ old. h)

settle_poll-IsPage :
    (poll : Option (ℕ × String)) (i : ℕ) (answer : Option ImportJob) (s : ImportPage)
    → IsPage s
    → IsPage (settle_poll poll i answer s)
settle_poll-IsPage none i answer s h = h
settle_poll-IsPage (some poll) i answer s h =
    show_polled-IsPage poll.0 answer (record s { polls = without i s.polls })
      (All-without (IsPoll s.version s.job) i s.polls h)

validate_and_set_file-IsPage :
    (to_lower_case : String → String) (name : String) (s : ImportPage)
    → IsPage s
    → IsPage (validate_and_set_file to_lower_case name s)
validate_and_set_file-IsPage to_lower_case name s h =
    if-holds IsPage (any (ends_with (to_lower_case name)) (".xml" ∷ ".zip" ∷ ".gz" ∷ []))
      (set_job none (record s { file = some name })) s
      (λ valid. set_job-IsPage none (record s { file = some name }) h) (λ invalid. h)

handle_file_change-IsPage :
    (to_lower_case : String → String) (name : Option String) (s : ImportPage)
    → IsPage s
    → IsPage (handle_file_change to_lower_case name s)
handle_file_change-IsPage to_lower_case none s h = h
handle_file_change-IsPage to_lower_case (some name) s h =
    validate_and_set_file-IsPage to_lower_case name s h

handle_upload-IsPage : (s : ImportPage) → IsPage s → IsPage (handle_upload s)
handle_upload-IsPage s h =
    if-holds IsPage (is_some s.file && not s.submitting)
      (set_job none (record s { submitting = true; uploads = 1 + s.uploads })) s
      (λ ready. set_job-IsPage none (record s { submitting = true; uploads = 1 + s.uploads }) h)
      (λ held. h)

show_queued-IsPage :
    (answer : Option ImportJob) (s : ImportPage) → IsPage s → IsPage (show_queued answer s)
show_queued-IsPage none s h = h
show_queued-IsPage (some job) s h = set_job-IsPage (some job) s h

upload_answered-IsPage :
    (answer : Option ImportJob) (s : ImportPage) → IsPage s → IsPage (upload_answered answer s)
unfolding upload_answered
upload_answered-IsPage answer s h =
    if-holds IsPage (s.uploads == 0) s
      (record (show_queued answer (record s { uploads = s.uploads - 1 })) { submitting = false })
      (λ quiet. h) (λ sent. show_queued-IsPage answer (record s { uploads = s.uploads - 1 }) h)

poll_answered_eq :
    (i : ℕ) (answer : Option ImportJob) (s : ImportPage)
    → poll_answered i answer s ≡ settle_poll (get_elem? s.polls i) i answer s
unfolding poll_answered
poll_answered_eq i answer s = refl

module _ (to_lower_case : String → String) where
  step-IsPage :
      (event : ImportEvent) (s : ImportPage) → IsPage s → IsPage (step to_lower_case event s)
  step-IsPage drags_over s h = h
  step-IsPage drags_leave s h = h
  step-IsPage (drops name) s h =
      handle_file_change-IsPage to_lower_case name (record s { is_dragging = false }) h
  step-IsPage (changes name) s h = handle_file_change-IsPage to_lower_case name s h
  step-IsPage clears s h = set_job-IsPage none (record s { file = none }) h
  step-IsPage uploads_file s h = handle_upload-IsPage s h
  step-IsPage (answers_upload answer) s h = upload_answered-IsPage answer s h
  step-IsPage (answers_resume jobs) s h = resume_answered-IsPage jobs s h
  step-IsPage ticks s h = tick-IsPage s h
  step-IsPage (answers_poll i answer) s h =
      subst (λ t. IsPage t) (sym (poll_answered_eq i answer s))
        (settle_poll-IsPage (get_elem? s.polls i) i answer s h)

  run-IsPage :
      (events : List ImportEvent) (s : ImportPage) → IsPage s → IsPage (run to_lower_case events s)
  run-IsPage [] s h = h
  run-IsPage (event ∷ events) s h =
      run-IsPage events (step to_lower_case event s) (step-IsPage event s h)

show_polled_lem :
    (version : ℕ) (id : String) (next : ImportJob) (s : ImportPage)
    → IsPoll s.version s.job (version, id)
    → next.id ≡ id
    → shown_id (show_polled version (some next) s) ≡ shown_id s
show_polled_lem version id next s (old, current) same =
    if-holds (λ t. shown_id t ≡ shown_id s) (version == s.version) (set_job (some next) s) s
      (λ e.
        let (job, (shown, asked)) = current ((==_iff version s.version).0 e) in
        ap some (same ∙ sym asked) ∙ sym (ap (Option.map (λ (j : ImportJob). j.id)) shown))
      (λ other. refl)

-- After any events on the page, in any order: where a request of the poll is answered with the job that
-- it asked for, the page shows a job of the same id as before, or none as before, also if the job
-- was cleared, replaced or polled again while the request was awaited.
pub poll_keeps_job :
    (to_lower_case : String → String) (events : List ImportEvent) (i version : ℕ) (id : String)
    (next : ImportJob)
    → get_elem? (run to_lower_case events mounted_page).polls i ≡ some (version, id)
    → next.id ≡ id
    → shown_id (poll_answered i (some next) (run to_lower_case events mounted_page))
      ≡ shown_id (run to_lower_case events mounted_page)
unfolding poll_answered
poll_keeps_job to_lower_case events i version id next there same =
    let s = run to_lower_case events mounted_page in
    let h : IsPage s = run-IsPage to_lower_case events mounted_page tt in
    rw (there, poll_answered)
      (show_polled_lem version id next (record s { polls = without i s.polls })
        (All-get_elem (IsPoll s.version s.job) i s.polls (version, id) h there) same)
