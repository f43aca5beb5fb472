-- ===== src/Engine.antt =====
-- apps/mobile/src/data/engine.ts: a sync drains the outbox and then pulls a round, or refetches. The
-- clock and `Date.parse` are arguments; a failure stands for the message of the error.
pub mod Schedule
pub mod CatchUp
pub mod Stuck
use open_troop.Prelude.{
  ℕ, ◌+◌, ◌*◌, String, Bool, true, false, ◌||◌, Option, none, some, str_eq, ltb, if◌then◌else◌,
}
use open_troop.Doc.{Json}
use open_troop.Db.{Db, Failure, Result, ok, err}
use open_troop.Schema.{get_meta}
use open_troop.Commands.Drain.{Client, drain_queue, DrainResult}
use open_troop.Pull.{pull_round, full_refetch}

pub record SyncOutcome : Type 0 where
  pub drain : DrainResult
  pub pulled : Bool
  pub error : Option Failure

-- 7 days in milliseconds
abbrev pub full_refetch_interval : ℕ
full_refetch_interval = 7 * 24 * 60 * 60 * 1000

-- `Date.now() - Date.parse(last) > FULL_REFETCH_INTERVAL_MS`; a date that is none is NaN, which no
-- number exceeds.
abbrev is_overdue : ℕ → Option ℕ → Bool
is_overdue now none = false
is_overdue now (some last) = ltb (last + full_refetch_interval) now

pub full_refetch_due : (String → Option ℕ) → ℕ → Db → Bool
full_refetch_due parse now db = elim (get_meta "last_full_refetch_at" db) [
  | none ↦ false
  | some last ↦ if str_eq last "" then false else is_overdue now (parse last)
]

-- The `try` around the pull: what is thrown becomes the outcome.
pub outcome_of {ℓ} :
    {W : Type 0} {A : Type ℓ} → DrainResult → Result A × W × Db → SyncOutcome × W × Db
outcome_of drain (ok _, w, db) = (record { drain = drain; pulled = true; error = none }, w, db)
outcome_of drain (err failure, w, db) =
    (record { drain = drain; pulled = false; error = some failure }, w, db)

-- `at` is the time in milliseconds when the drain is over, `now` the time when the pull is.
pub sync_now :
    {W : Type 0}
    → Client W Json
    → (String → Option ℕ)
    → ℕ
    → ℕ
    → String
    → Bool
    → W
    → Db
    → SyncOutcome × W × Db
unfolding outcome_of
sync_now http parse fuel at now full w db =
    let (drain, w', db') = drain_queue http w db in
    if full || full_refetch_due parse at db'
    then outcome_of drain (full_refetch http fuel now w' db')
    else outcome_of drain (pull_round http fuel now w' db')
