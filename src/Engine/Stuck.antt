-- ===== src/Engine/Stuck.antt =====
-- The syncs of a client whose cursor the server no longer serves.
use open_troop.Prelude.{ℕ, String, ◌≡◌, refl, ap, ◌∙◌, false, Option, List, [], ◌∷◌, All}
use open_troop.Doc.{Json}
use open_troop.Db.{SyncEntity, SyncCursor, SyncState, Db, Result, ok, err}
use open_troop.Schema.{get_meta}
use open_troop.Mirror.{get_cursor}
use open_troop.Commands.Drain.{Client, drain_queue, DrainResult}
use open_troop.Commands.Drain.Keeps.{drain_queue-SameBooks}
use open_troop.Pull.{pull_round}
use open_troop.Pull.Refused.{Refuses, IsStuck, get_cursor_same, pull_round-IsStuck}
use open_troop.Engine.{outcome_of, sync_now, SyncOutcome}
use open_troop.Engine.Schedule.{
  IsUnstamped, full_refetch_due-IsUnstamped, sync_now-IsUnstamped, sync_many,
}

-- A sync that pulled nothing to its end, and left the cursor.
abbrev pub IsFailed : {W : Type 0} → SyncEntity → SyncCursor → SyncOutcome × W × Db → Type 0
IsFailed e c x = (x.0.pulled ≡ false) × (get_cursor e x.2 ≡ c)

outcome_of-IsFailed :
    {W : Type 0} (e : SyncEntity) (c : SyncCursor) (drain : DrainResult)
    (x : Result (Unit {0}) × W × Db)
    → IsStuck e c x
    → IsFailed e c (outcome_of drain x)
unfolding outcome_of
outcome_of-IsFailed e c drain (ok _, w, db) h = cc
outcome_of-IsFailed e c drain (err failure, w, db) h = (refl, h.1)

module _ {W : Type 0} (http : Client W Json) (parse : String → Option ℕ) (fuel : ℕ) (e : SyncEntity)
    (c : SyncCursor) where
  sync_now-IsFailed :
      (at : ℕ) (now : String) (w : W) (db : Db)
      → Refuses http e c
      → IsUnstamped db
      → get_cursor e db ≡ c
      → IsFailed e c (sync_now http parse fuel at now false w db)
  unfolding sync_now get_meta
  sync_now-IsFailed at now w db refuses unstamped here =
      let d = drain_queue http w db in
      let same = drain_queue-SameBooks http w db in
      let unstamped' : IsUnstamped d.2 =
        ap (λ (m : String → Option String). m "last_full_refetch_at") same.meta ∙ unstamped in
      let here' : get_cursor e d.2 ≡ c =
        get_cursor_same e d.2 db (ap (λ (s : SyncEntity → Option SyncState). s e) same.sync_state)
        ∙ here in
      rw (full_refetch_due-IsUnstamped parse at d.2 unstamped') (
        outcome_of-IsFailed e c d.0 (pull_round http fuel now d.1 d.2)
          (pull_round-IsStuck http e c fuel now d.1 d.2 refuses here'))

  -- What the syncs of `sync_many` come to, one by one
  abbrev pub sync_outcomes : List (ℕ × String) → W → Db → List SyncOutcome
  sync_outcomes [] w db = []
  sync_outcomes ((at, now) ∷ times) w db =
      let x = sync_now http parse fuel at now false w db in x.0 ∷ sync_outcomes times x.1 x.2

  -- Where the server answers no page to one stream's cursor, whenever it is asked (410, say, since the
  -- cursor is behind its watermark), and no full refetch has run on the database: each of any number of
  -- syncs that nobody asked to be full fails, and the cursor is still there after them, so that the
  -- client never walks the stream anew by itself.
  pub refused_cursor_stays :
      (times : List (ℕ × String)) (w : W) (db : Db)
      → Refuses http e c
      → IsUnstamped db
      → get_cursor e db ≡ c
      → All (λ outcome. outcome.pulled ≡ false) (sync_outcomes times w db)
        × (get_cursor e (sync_many http parse fuel times w db).1 ≡ c)
  refused_cursor_stays [] w db refuses unstamped here = (tt, here)
  refused_cursor_stays ((at, now) ∷ times) w db refuses unstamped here =
      let x = sync_now http parse fuel at now false w db in
      let one = sync_now-IsFailed at now w db refuses unstamped here in
      let later =
        refused_cursor_stays times x.1 x.2 refuses
          (sync_now-IsUnstamped http parse fuel at now w db unstamped) one.1 in
      ((one.0, later.0), later.1)
