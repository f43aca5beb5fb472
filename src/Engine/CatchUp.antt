-- ===== src/Engine/CatchUp.antt =====
-- A whole sync with a server that keeps its promise.
use open_troop.Prelude.{
  ℕ, ◌+◌, ◌<◌, String, ◌≡◌, refl, sym, ap, ◌∙◌, subst, true, false, Option, none, some, List, [],
  length, drop,
}
use open_troop.Doc.{Json}
use open_troop.Db.{SyncEntity, SyncCursor, SyncState, pending, Db}
use open_troop.Mirror.{get_cursor, SyncRow}
use open_troop.Commands.{list_commands}
use open_troop.Commands.Queue.{IsQueue, list_commands_same}
use open_troop.Commands.Drain.{Client, drain_queue}
use open_troop.Commands.Drain.Keeps.{drain_queue-SameBooks}
use open_troop.Commands.Drain.Accounts.{IsQuiet, drain_queue_accounts}
use open_troop.Pull.{current_epoch, start_cursor, pull_round}
use open_troop.Pull.Streams.{IsStream}
use open_troop.Pull.Refetch.{pull_round_streams}
use open_troop.Engine.{full_refetch_due, outcome_of, sync_now}
use open_troop.Pull.Epochs.{current_epoch_same}
use open_troop.Pull.Rounds.{start_cursor-same}
use open_troop.Engine.Schedule.{full_refetch_due_same}

module _ {W : Type 0} (http : Client W Json) (after : SyncEntity → SyncCursor → List SyncRow)
    (s : IsStream http after) (quiet : IsQuiet http) where
  -- A sync that nobody asked to be full, and that is not due for a full refetch, reports a pull without
  -- an error; the commands that its drain settled are no longer pending, the others are, in their
  -- order; no stream has a row behind its cursor. The streams are those of the server once the drain is
  -- over, with the rows that the commands made: it serves them from every cursor that is stored, and
  -- they stay as they are while they are pulled. This is with an epoch that is a number, a well-formed
  -- queue, more fuel than rows behind each cursor and no other task meanwhile.
  pub sync_now_streams :
      (parse : String → Option ℕ) (n fuel at : ℕ) (now : String) (w : W) (db : Db)
      → current_epoch db ≡ some n
      → IsQueue db.pending_commands
      → full_refetch_due parse at db ≡ false
      → ((f : SyncEntity) → s.Serves f (get_cursor f db) (drain_queue http w db).1)
      → ((f : SyncEntity) → length (after f (get_cursor f db)) < fuel)
      → ((sync_now http parse fuel at now false w db).0.pulled ≡ true)
        × ((sync_now http parse fuel at now false w db).0.error ≡ none)
        × (list_commands (some pending) (sync_now http parse fuel at now false w db).2
            ≡ drop
                ((sync_now http parse fuel at now false w db).0.drain.sent
                  + (sync_now http parse fuel at now false w db).0.drain.failed)
                (list_commands (some pending) db))
        × ((f : SyncEntity)
            → after f (get_cursor f (sync_now http parse fuel at now false w db).2) ≡ [])
  unfolding sync_now outcome_of
  sync_now_streams parse n fuel at now w db h queue not_due serves bound =
      let d = drain_queue http w db in
      let same = drain_queue-SameBooks http w db in
      let h' : current_epoch d.2 ≡ some n = current_epoch_same d.2 db same.meta ∙ h in
      let due' : full_refetch_due parse at d.2 ≡ false =
        full_refetch_due_same parse at d.2 db same.meta ∙ not_due in
      let cursors : (f : SyncEntity) → start_cursor false f db ≡ start_cursor false f d.2 = λ f.
        sym (
          start_cursor-same false f d.2 db
            (ap (λ (m : SyncEntity → Option SyncState). m f) same.sync_state)) in
      let bound' : (f : SyncEntity) → length (after f (get_cursor f d.2)) < fuel =
        λ f. subst (λ c. length (after f c) < fuel) (cursors f) (bound f) in
      let serves' : (f : SyncEntity) → s.Serves f (get_cursor f d.2) d.1 =
        λ f. subst (λ c. s.Serves f c d.1) (cursors f) (serves f) in
      let r = pull_round_streams http after s n fuel now d.1 d.2 h' serves' bound' in
      rw (due', r.0, outcome_of)
        (
          refl,
          refl,
          list_commands_same (some pending) (pull_round http fuel now d.1 d.2).2 d.2 r.3
              ∙ (drain_queue_accounts http w db quiet queue).0,
          r.2,
        )
