-- ===== src/Mirror/Pages.antt =====
-- A pull page is applied whole or not at all, and the table that it leaves is the last word of the
-- page on each id.
use open_troop.Prelude.{
  ℕ, String, ◌≡◌, refl, ap, ◌∙◌, Option, none, some, List, [], ◌∷◌, ◌++◌, map, arith, str_eq,
  if◌then◌else◌, or_else, inl, inr, Bool-cases,
}
use open_troop.Db.{
  with_mirror, with_sync_state, SyncEntity, MirrorRow, SyncCursor, Db, Failure, not_null_constraint,
  Result, ok, err,
}
use open_troop.Db.Rows.{
  find_row, delete_row, upsert_row, find_row-delete_row, find_row-upsert_row,
  mirror-with_mirror_self, sync_state-with_sync_state_self,
}
use open_troop.Mirror.{get_cursor, Epoch, stamp, apply_rows, save_cursor, apply_pull_page, SyncRow}
use open_troop.Db.Transaction.{keep_or_revert, transaction_lem}

-- The last row of the page for an id.
abbrev pub last_for : String → List SyncRow → Option SyncRow
last_for id [] = none
last_for id (row ∷ rows) = or_else (last_for id rows) (if str_eq row.id id then some row else none)

-- What a page says of an id that stood at `old`.
abbrev pub settled : ℕ → Option SyncRow → Option MirrorRow → Option MirrorRow
settled epoch none old = old
settled epoch (some row) old = if row.is_deleted then none else some (stamp epoch row)

apply_rows_total :
    (epoch : ℕ) (rows : List SyncRow) (table : List MirrorRow)
    → (apply_rows (some epoch) (map some rows) table).0 ≡ ok tt
unfolding apply_rows
apply_rows_total epoch [] table = refl
apply_rows_total epoch (row ∷ rows) table = ground (
  arith,
  apply_rows_total epoch rows (delete_row row.id table),
  apply_rows_total epoch rows (upsert_row (stamp epoch row) table),
)

find_row-apply_rows :
    (epoch : ℕ) (id : String) (rows : List SyncRow) (table : List MirrorRow)
    → find_row id (apply_rows (some epoch) (map some rows) table).1
      ≡ settled epoch (last_for id rows) (find_row id table)
unfolding apply_rows
find_row-apply_rows epoch id [] table = refl
find_row-apply_rows epoch id (row ∷ rows) table = ground (
  arith,
  find_row-apply_rows epoch id rows (delete_row row.id table),
  find_row-apply_rows epoch id rows (upsert_row (stamp epoch row) table),
  find_row-delete_row row.id id table,
  find_row-upsert_row (stamp epoch row) id table,
)

save_cursor_ok :
    (e : SyncEntity) (next : SyncCursor) (now : String) (db : Db)
    (rs : Result (Unit {0}) × List MirrorRow)
    → rs.0 ≡ ok tt
    → save_cursor e next now db rs ≡ (
      ok tt,
      with_sync_state e (record { cursor = next; last_synced_at = now }) (with_mirror e rs.1 db),
    )
unfolding save_cursor
save_cursor_ok e next now db (ok _, table) h = refl
save_cursor_ok e next now db (err f, table) h = cc

-- The whole effect of a page.
pub apply_pull_page_ok :
    (e : SyncEntity) (rows : List SyncRow) (next : SyncCursor) (epoch : ℕ) (now : String) (db : Db)
    → apply_pull_page e (map some rows) next (some epoch) now db ≡ (
      ok tt,
      with_sync_state e
          (record { cursor = next; last_synced_at = now })
          (with_mirror e (apply_rows (some epoch) (map some rows) (db.mirror e)).1 db),
    )
unfolding apply_pull_page
apply_pull_page_ok e rows next epoch now db =
    transaction_lem
      (λ d. save_cursor e next now d (apply_rows (some epoch) (map some rows) (d.mirror e))) db
    ∙ ap (keep_or_revert db) (
        save_cursor_ok e next now db (apply_rows (some epoch) (map some rows) (db.mirror e))
          (apply_rows_total epoch rows (db.mirror e)))

-- With an epoch that is a number, a page whose rows have their columns is applied: afterwards each id
-- has what the last row of the page for it says, an id that the page does not name is as before, and
-- the cursor is the page's.
pub apply_pull_page_lem :
    (e : SyncEntity) (rows : List SyncRow) (next : SyncCursor) (epoch : ℕ) (now : String) (db : Db)
    → ((apply_pull_page e (map some rows) next (some epoch) now db).0 ≡ ok tt)
      × ((id : String)
          → find_row id ((apply_pull_page e (map some rows) next (some epoch) now db).1.mirror e)
            ≡ settled epoch (last_for id rows) (find_row id (db.mirror e)))
      × (get_cursor e (apply_pull_page e (map some rows) next (some epoch) now db).1 ≡ next)
unfolding get_cursor
apply_pull_page_lem e rows next epoch now db = rw (apply_pull_page_ok e rows next epoch now db) (
  refl,
  λ id.
      ap (find_row id) (mirror-with_mirror_self e _ db)
      ∙ find_row-apply_rows epoch id rows (db.mirror e),
  rw (sync_state-with_sync_state_self e _ _, get_cursor),
)

reverted :
    {A : Type 0} (s : Db) (rs : Result A × Db) (failure : Failure)
    → (keep_or_revert s rs).0 ≡ err failure
    → (keep_or_revert s rs).1 ≡ s
reverted s (ok a, t) failure h = cc
reverted s (err e, t) failure h = refl

pub apply_pull_page_err :
    (e : SyncEntity) (rows : List (Option SyncRow)) (next : SyncCursor) (epoch : Epoch)
    (now : String) (db : Db) (failure : Failure)
    → (apply_pull_page e rows next epoch now db).0 ≡ err failure
    → (apply_pull_page e rows next epoch now db).1 ≡ db
unfolding apply_pull_page
apply_pull_page_err e rows next epoch now db failure =
    let body = λ (d : Db). save_cursor e next now d (apply_rows epoch rows (d.mirror e)) in
    rw (transaction_lem body db) (reverted db (body db) failure)

-- The page up to a row that throws.
apply_rows_halfway :
    (n : ℕ) (rows : List SyncRow) (rest : List (Option SyncRow)) (table : List MirrorRow)
    → apply_rows (some n) (map some rows ++ none ∷ rest) table
      ≡ (err not_null_constraint, (apply_rows (some n) (map some rows) table).1)
unfolding apply_rows
apply_rows_halfway n [] rest table = refl
apply_rows_halfway n (row ∷ rows) rest table = elim (Bool-cases row.is_deleted) [
  | inl gone ↦ rw gone (apply_rows_halfway n rows rest (delete_row row.id table))
  | inr live ↦ rw live (apply_rows_halfway n rows rest (upsert_row (stamp n row) table))
]

-- Where a row of a page lacks a column, whatever stands before and behind it: the loop has written the
-- rows before it into the table, and throws; and then the page fails with the database, the cursor
-- included, as it was before the first of them.
pub apply_pull_page_atomic :
    (e : SyncEntity) (rows : List SyncRow) (rest : List (Option SyncRow)) (next : SyncCursor)
    (n : ℕ) (now : String) (db : Db)
    → (apply_rows (some n) (map some rows ++ none ∷ rest) (db.mirror e)
        ≡ (err not_null_constraint, (apply_rows (some n) (map some rows) (db.mirror e)).1))
      × (apply_pull_page e (map some rows ++ none ∷ rest) next (some n) now db
          ≡ (err not_null_constraint, db))
unfolding apply_pull_page save_cursor
apply_pull_page_atomic e rows rest next n now db =
    let items : List (Option SyncRow) = map some rows ++ none ∷ rest in
    let halfway = apply_rows_halfway n rows rest (db.mirror e) in
    (
      halfway,
      transaction_lem (λ d. save_cursor e next now d (apply_rows (some n) items (d.mirror e))) db
          ∙ ap (λ rs. keep_or_revert db (save_cursor e next now db rs)) halfway,
    )
