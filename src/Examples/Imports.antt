-- ===== src/Examples/Imports.antt =====
-- The import page at concrete inputs.
use open_troop.Prelude.{String, ◌≡◌, refl, some, List, [], ◌∷◌}
use open_troop.Web.Import.{
  mounted_page, tick, poll_answered, upload_answered, run, queued, running, ImportJob, ImportEvent,
  changes, uploads_file, answers_upload, ticks,
}
use open_troop.Web.Import.Polling.{shown_id, poll_keeps_job}

abbrev same_case : String → String
same_case s = s

abbrev sent_job : ImportJob
sent_job = record { id = "j2"; status = queued }

abbrev polled_job : ImportJob
polled_job = record { id = "j2"; status = running }

abbrev old_job : ImportJob
old_job = record { id = "j1"; status = running }

-- A file is picked and uploaded, and the job that it started is polled.
abbrev polling : List ImportEvent
polling = changes (some "troop.xml") ∷ uploads_file ∷ answers_upload (some sent_job) ∷ ticks ∷ []

poll_keeps_job_example :
    shown_id (poll_answered 0 (some polled_job) (run same_case polling mounted_page))
    ≡ shown_id (run same_case polling mounted_page)
unfolding tick upload_answered
poll_keeps_job_example = poll_keeps_job same_case polling 0 3 "j2" polled_job refl refl
