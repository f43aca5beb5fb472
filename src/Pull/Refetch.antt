-- ===== src/Pull/Refetch.antt =====
-- A pull round and a full refetch against a server that keeps its promise: after a full refetch the
-- mirror is what the server shows.
use open_troop.Prelude.{
  ℕ, suc, ◌+◌, ◌≤◌, ◌<◌, String, ◌≡◌, refl, sym, ap, ◌∙◌, subst, ◌⊎◌, inl, inr, Bool, true, false,
  not, Option, none, some, List, [], ◌∷◌, arith, str_eq, eq_refl, leb, if◌then◌else◌, Bool-cases,
  length, keep, any, All, All-find_first,
}
use open_troop.Doc.{Json}
use open_troop.Db.{
  entity_name, sync_entities, entity_eq, SyncEntity, MirrorRow, SyncCursor, Db, Failure, Result, ok,
  err,
}
use open_troop.Db.Rows.{find_row, HasDistinctIds, entity_eq_iff, entity_eq_comm}
use open_troop.Mirror.{zero_cursor, get_cursor, Epoch, is_stale, sweep_stale, SyncRow}
use open_troop.Mirror.Sweep.{passing, find_row-keep, passing-not_stale, mirror-sweep_stale}
use open_troop.Commands.Drain.{Client}
use open_troop.Pull.{
  epoch_key, current_epoch, epoch_text, stamp_pull, sweep_all, finish_refetch, pull_entity,
  pull_entities, pull_round, full_refetch,
}
use open_troop.Pull.Keeps.{pull_entity-HasDistinctIds}
use open_troop.Pull.Rounds.{
  AreDistinct, sync_entities-AreDistinct, any-sync_entities, pull_entities_streams,
}
use open_troop.Mirror.Pages.{last_for, settled}
use open_troop.Pull.Streams.{IsStream}
use open_troop.Schema.{set_meta}

pub Result-cases : (r : Result (Unit {0})) → (r ≡ ok tt) ⊎ ((failure : Failure) × (r ≡ err failure))
Result-cases (ok _) = inl refl
Result-cases (err failure) = inr (failure, refl)

-- However the pull of several streams ends, each id stands once in every mirror table.
pub pull_entities-HasDistinctIds :
    {W : Type 0} (http : Client W Json) (fuel : ℕ) (es : List SyncEntity) (n : ℕ) (from_zero : Bool)
    (w : W) (db : Db)
    → ((f : SyncEntity) → HasDistinctIds (db.mirror f))
    → (f : SyncEntity)
    → HasDistinctIds ((pull_entities http fuel es (some n) from_zero w db).2.mirror f)
unfolding pull_entities
pull_entities-HasDistinctIds http fuel [] n from_zero w db h f = h f
pull_entities-HasDistinctIds http fuel (e ∷ es) n from_zero w db h f =
    let x = pull_entity http fuel e (some n) from_zero w db in
    let h' : (g : SyncEntity) → HasDistinctIds (x.2.mirror g) =
      λ g. pull_entity-HasDistinctIds http fuel e g n from_zero w db (h e) (h g) in
    elim (Result-cases x.0) [
      | inl fine ↦
          rw (fine, pull_entities)
            (pull_entities-HasDistinctIds http fuel es n from_zero x.1 x.2 h' f)
      | inr (failure, bad) ↦ rw (bad, pull_entities) (h' f)
    ]

-- The sweep of several tables, each once.
mirror-sweep_all :
    (es : List SyncEntity) (f : SyncEntity) (epoch : Epoch) (removed : ℕ) (db : Db)
    → AreDistinct es
    → (sweep_all es epoch removed db).1.mirror f ≡ (
        if any (entity_eq f) es
        then keep (λ row. not (is_stale epoch row)) (db.mirror f)
        else db.mirror f)
unfolding sweep_all
mirror-sweep_all [] f epoch removed db d = refl
mirror-sweep_all (e ∷ es) f epoch removed db (fresh, d) =
    let swept = sweep_stale e epoch db in
    let t = λ (row : MirrorRow). not (is_stale epoch row) in
    let rest = (sweep_all es epoch (removed + swept.0) swept.1).1 in
    let self : rest.mirror e ≡ keep t (db.mirror e) =
      (rw fresh at (mirror-sweep_all es e epoch (removed + swept.0) swept.1 d))
      ∙ (rw (eq_refl (entity_name e)) at (mirror-sweep_stale e e epoch db)) in
    elim (Bool-cases (entity_eq f e)) [
      | inl same ↦
          rw same
            (subst (λ g. rest.mirror g ≡ keep t (db.mirror g)) (sym (entity_eq_iff f e same)) self)
      | inr differs ↦ rw differs (
          mirror-sweep_all es f epoch (removed + swept.0) swept.1 d
          ∙ ap (λ rows. if any (entity_eq f) es then keep t rows else rows)
              (rw (entity_eq_comm e f ∙ differs) at (mirror-sweep_stale e f epoch db)))
    ]

pub sweep_all_keeps :
    (es : List SyncEntity) (epoch : Epoch) (removed : ℕ) (db : Db)
    → ((sweep_all es epoch removed db).1.pending_commands ≡ db.pending_commands)
      × ((sweep_all es epoch removed db).1.sync_state ≡ db.sync_state)
      × ((sweep_all es epoch removed db).1.meta ≡ db.meta)
unfolding sweep_all sweep_stale
sweep_all_keeps [] epoch removed db = (refl, refl, refl)
sweep_all_keeps (e ∷ es) epoch removed db =
    sweep_all_keeps es epoch (removed + (sweep_stale e epoch db).0) (sweep_stale e epoch db).1

-- What the server says of an id is what is left of it: a row that the walk did not see is older.
refreshed :
    (n : ℕ) (rows : Option SyncRow) (old : Option MirrorRow)
    → ((r : MirrorRow) → old ≡ some r → r.seen_epoch ≤ n)
    → passing (λ r. leb (suc n) r.seen_epoch) (settled (suc n) rows old) ≡ settled (suc n) rows none
refreshed n none none h = refl
refreshed n none (some r) h = ground (arith, h r refl)
refreshed n (some row) old h = ground arith

-- The rows of a table are of an epoch up to `n`.
abbrev pub IsUpTo : ℕ → List MirrorRow → Type 0
IsUpTo n = All (λ r. r.seen_epoch ≤ n)

module _ {W : Type 0} (http : Client W Json) (after : SyncEntity → SyncCursor → List SyncRow)
    (s : IsStream http after) where
  -- Against a server that serves every cursor that is stored, and whose streams stay as they are
  -- meanwhile, with more fuel than rows behind each cursor and an epoch that is a number, a pull round
  -- ends well: in every table each id has what the last row behind the cursor says of it, or what it
  -- had; no stream has a row behind its cursor; the queue is as it was.
  pub pull_round_streams :
      (n fuel : ℕ) (now : String) (w : W) (db : Db)
      → current_epoch db ≡ some n
      → ((f : SyncEntity) → s.Serves f (get_cursor f db) w)
      → ((f : SyncEntity) → length (after f (get_cursor f db)) < fuel)
      → ((pull_round http fuel now w db).0 ≡ ok tt)
        × ((f : SyncEntity) (id : String)
            → find_row id ((pull_round http fuel now w db).2.mirror f)
              ≡ settled n (last_for id (after f (get_cursor f db))) (find_row id (db.mirror f)))
        × ((f : SyncEntity) → after f (get_cursor f (pull_round http fuel now w db).2) ≡ [])
        × ((pull_round http fuel now w db).2.pending_commands ≡ db.pending_commands)
  unfolding pull_round stamp_pull set_meta get_cursor
  pull_round_streams n fuel now w db h serves bound =
      let x = pull_entities http fuel sync_entities (some n) false w db in
      let r =
        pull_entities_streams http after s n fuel false sync_entities w db sync_entities-AreDistinct
          (λ f named. serves f) bound in
      rw (h, r.success)
        (
          refl,
          λ f id. rw (any-sync_entities f) at (r.table f id),
          λ f. elim (r.cursor f) [
            | inl unnamed ↦ cc (any-sync_entities f, unnamed)
            | inr none_left ↦ none_left
          ],
          r.queue,
        )

  -- Against a server that answers from the start of every stream, with success on every page, and whose
  -- streams stay as they are meanwhile, with no other task on the outbox and more fuel than rows in
  -- each stream: a full refetch ends well, and then the mirror is what the server shows: in every table
  -- each id has what the last row of the stream says of it, and an id that the stream does not name is
  -- gone. The queue is as it was. This is if before ids stood once in each table and no row was of a
  -- later epoch than the current one, which is a number.
  pub full_refetch_streams :
      (n fuel : ℕ) (now : String) (w : W) (db : Db)
      → current_epoch db ≡ some n
      → ((f : SyncEntity) → HasDistinctIds (db.mirror f))
      → ((f : SyncEntity) → IsUpTo n (db.mirror f))
      → ((f : SyncEntity) → s.Serves f zero_cursor w)
      → ((f : SyncEntity) → length (after f zero_cursor) < fuel)
      → ((removed : ℕ) × ((full_refetch http fuel now w db).0 ≡ ok removed))
        × ((f : SyncEntity) (id : String)
            → find_row id ((full_refetch http fuel now w db).2.mirror f)
              ≡ settled (suc n) (last_for id (after f zero_cursor)) none)
        × ((full_refetch http fuel now w db).2.pending_commands ≡ db.pending_commands)
  unfolding full_refetch finish_refetch set_meta find_row
  full_refetch_streams n fuel now w db h distinct up_to serves bound =
      let db0 = set_meta epoch_key (epoch_text (some (suc n))) db in
      let x = pull_entities http fuel sync_entities (some (suc n)) true w db0 in
      let r =
        pull_entities_streams http after s (suc n) fuel true sync_entities w db0
          sync_entities-AreDistinct (λ f named. serves f) bound in
      let keys = pull_entities-HasDistinctIds http fuel sync_entities (suc n) true w db0 distinct in
      let swept = sweep_all sync_entities (some (suc n)) 0 x.2 in
      let kept = sweep_all_keeps sync_entities (some (suc n)) 0 x.2 in
      let t = λ (row : MirrorRow). not (is_stale (some (suc n)) row) in
      rw (h, r.success)
        (
          (swept.0, refl),
          λ f id.
              ap (find_row id) (
                rw (any-sync_entities f) at
                  (mirror-sweep_all sync_entities f (some (suc n)) 0 x.2 sync_entities-AreDistinct))
              ∙ find_row-keep t id (x.2.mirror f) (keys f)
              ∙ passing-not_stale (suc n) (find_row id (x.2.mirror f))
              ∙ ap (passing (λ r. leb (suc n) r.seen_epoch))
                  (rw (any-sync_entities f) at (r.table f id))
              ∙ refreshed n (last_for id (after f zero_cursor)) (find_row id (db.mirror f))
                  (λ row found.
                    All-find_first (λ r. r.seen_epoch ≤ n) (λ r. str_eq r.id id) (db.mirror f) row
                      (up_to f) found),
          kept.0 ∙ r.queue,
        )
