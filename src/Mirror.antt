-- ===== src/Mirror.antt =====
-- apps/mobile/src/data/mirror.ts: how pulled pages and response rows reach the mirror, and how it is
-- read.
pub mod Pages
pub mod Elsewhere
pub mod Sweep
pub mod Responses
use mathlib.Core.Option
use Prim.Native.String.{compare as compare_text}
use text.Mathlib.Text.{is_le}
use open_troop.Prelude.{
  ℕ, ◌-◌, String, Bool, false, not, Option, none, some, get_or, List, [], ◌∷◌, map, ltb,
  if◌then◌else◌, length, keep, sort_by,
}
use open_troop.Doc.{Doc}
use open_troop.Db.{
  with_mirror, with_sync_state, SyncEntity, MirrorRow, SyncCursor, Db, not_null_constraint, Result,
  ok, err,
}
use open_troop.Db.Rows.{find_row, delete_row, upsert_row}
use open_troop.Db.Transaction.{transaction}

-- The minimal shape of a row of a pull; `doc` is the row itself, as the mirror keeps it. What
-- `JSON.stringify` writes is what `JSON.parse` reads back, so a column of JSON text is the document.
pub record SyncRow : Type 0 where
  pub id : String
  pub sync_seq : ℕ
  pub updated_at : String
  pub is_deleted : Bool
  pub doc : Doc

abbrev pub zero_cursor : SyncCursor
zero_cursor = record { last_seq = 0; last_id = none }

unfoldable pub get_cursor : SyncEntity → Db → SyncCursor
get_cursor e db = elim (db.sync_state e) [ none ↦ zero_cursor | some s ↦ s.cursor ]

-- The epoch of a sweep; `none` is NaN, which SQLite binds as NULL.
abbrev pub Epoch : Type 0
Epoch = Option ℕ

-- The row that a pulled row becomes.
abbrev pub stamp : ℕ → SyncRow → MirrorRow
stamp epoch row = record {
  id = row.id;
  sync_seq = row.sync_seq;
  updated_at = row.updated_at;
  seen_epoch = epoch;
  doc = row.doc;
}

-- `INSERT … ON CONFLICT`: the column `seen_epoch` is NOT NULL.
insert_row : Epoch → SyncRow → List MirrorRow → Result (List MirrorRow)
insert_row none row rows = err not_null_constraint
insert_row (some epoch) row rows = ok (upsert_row (stamp epoch row) rows)

apply_row : Epoch → SyncRow → List MirrorRow → Result (List MirrorRow)
unfolding insert_row
apply_row epoch row rows =
    if row.is_deleted then ok (delete_row row.id rows) else insert_row epoch row rows

-- The loop over the page, where `none` is a row without a column that must not be NULL; what was
-- written before a throw stays written until `ROLLBACK`.
unfoldable pub apply_rows :
    Epoch → List (Option SyncRow) → List MirrorRow → Result (Unit {0}) × List MirrorRow
unfolding apply_row
apply_rows epoch [] table = (ok tt, table)
apply_rows epoch (none ∷ rows) table = (err not_null_constraint, table)
apply_rows epoch (some row ∷ rows) table = elim (apply_row epoch row table) [
  | ok table' ↦ apply_rows epoch rows table'
  | err e ↦ (err e, table)
]

-- The cursor moves only after every row of the page.
pub save_cursor :
    SyncEntity
    → SyncCursor
    → String
    → Db
    → Result (Unit {0}) × List MirrorRow
    → Result (Unit {0}) × Db
save_cursor e next now db (ok _, table) = (
  ok tt,
  with_sync_state e (record { cursor = next; last_synced_at = now }) (with_mirror e table db),
)
save_cursor e next now db (err failure, table) = (err failure, with_mirror e table db)

unfoldable pub apply_pull_page :
    SyncEntity → List (Option SyncRow) → SyncCursor → Epoch → String → Db → Result (Unit {0}) × Db
unfolding save_cursor
apply_pull_page e rows next epoch now =
    transaction λ db. save_cursor e next now db (apply_rows epoch rows (db.mirror e))

-- `seen_epoch < ?`, which is never true of NULL
pub is_stale : Epoch → MirrorRow → Bool
is_stale none row = false
is_stale (some epoch) row = ltb row.seen_epoch epoch

-- The number of rows removed, and the swept database.
unfoldable pub sweep_stale : SyncEntity → Epoch → Db → ℕ × Db
unfolding is_stale
sweep_stale e epoch db =
    let kept = keep (λ row. not (is_stale epoch row)) (db.mirror e) in
    (length (db.mirror e) - length kept, with_mirror e kept db)

-- `ORDER BY id`
abbrev pub id_le : MirrorRow → MirrorRow → Bool
id_le a b = is_le (compare_text a.id b.id)

unfoldable pub list_rows : SyncEntity → Db → List Doc
list_rows e db = map (λ row. row.doc) (sort_by id_le (db.mirror e))

unfoldable pub get_row : SyncEntity → String → Db → Option Doc
get_row e id db = Option.map (λ row. row.doc) (find_row id (db.mirror e))

-- The row of an interactive response, with the columns of the row that it replaces.
response_row : String → Option String → Doc → String → Option MirrorRow → MirrorRow
response_row id updated_at doc now existing = record {
  id = id;
  sync_seq = elim existing [ none ↦ 0 | some r ↦ r.sync_seq ];
  updated_at = get_or updated_at now;
  seen_epoch = elim existing [ none ↦ 0 | some r ↦ r.seen_epoch ];
  doc = doc;
}

unfoldable pub upsert_response_row : SyncEntity → String → Option String → Doc → String → Db → Db
unfolding response_row
upsert_response_row e id updated_at doc now db =
    with_mirror e
      (upsert_row (response_row id updated_at doc now (find_row id (db.mirror e))) (db.mirror e)) db

-- Opens the component, for tests that run it.
unfoldable pub run_mirror : Unit {0}
unfolding apply_pull_page apply_rows apply_row insert_row save_cursor transaction get_cursor
    sweep_stale is_stale find_row delete_row upsert_row upsert_response_row response_row
run_mirror = tt
