-- ===== src/Mirror/Elsewhere.antt =====
-- What a pull page leaves alone, and where it leaves the cursor, whether it is applied or not.
use open_troop.Prelude.{
  ℕ, String, ◌≡◌, refl, sym, subst, ◌≢◌, inl, inr, Option, none, some, List, [], ◌∷◌, Bool-cases,
}
use open_troop.Db.{entity_eq, with_mirror, SyncEntity, MirrorRow, SyncCursor, Db, Result, ok, err}
use open_troop.Db.Rows.{
  HasDistinctIds, delete_row-HasDistinctIds, upsert_row-HasDistinctIds, entity_eq_iff,
  entity_eq-false, mirror-with_mirror_self, mirror-with_mirror_ne, sync_state-with_sync_state_self,
  sync_state-with_sync_state_ne,
}
use open_troop.Db.Transaction.{keep_or_revert, transaction_lem}
use open_troop.Mirror.{get_cursor, Epoch, stamp, apply_rows, save_cursor, apply_pull_page, SyncRow}

saved_cursor :
    (e : SyncEntity) (next : SyncCursor) (now : String) (db : Db)
    (rs : Result (Unit {0}) × List MirrorRow)
    → (keep_or_revert db (save_cursor e next now db rs)).0 ≡ ok tt
    → get_cursor e (keep_or_revert db (save_cursor e next now db rs)).1 ≡ next
unfolding save_cursor get_cursor
saved_cursor e next now db (ok _, table) h = rw (sync_state-with_sync_state_self e _ _, get_cursor)
saved_cursor e next now db (err failure, table) h = cc

-- A page that is applied moves the cursor, whatever the epoch is.
pub get_cursor-apply_pull_page :
    (e : SyncEntity) (rows : List (Option SyncRow)) (next : SyncCursor) (epoch : Epoch)
    (now : String) (db : Db)
    → (apply_pull_page e rows next epoch now db).0 ≡ ok tt
    → get_cursor e (apply_pull_page e rows next epoch now db).1 ≡ next
unfolding apply_pull_page
get_cursor-apply_pull_page e rows next epoch now db =
    rw
      (transaction_lem (λ (d : Db). save_cursor e next now d (apply_rows epoch rows (d.mirror e)))
        db)
      (saved_cursor e next now db (apply_rows epoch rows (db.mirror e)))

saved_elsewhere :
    (e f : SyncEntity) (next : SyncCursor) (now : String) (db : Db)
    (rs : Result (Unit {0}) × List MirrorRow)
    → e ≢ f
    → ((keep_or_revert db (save_cursor e next now db rs)).1.mirror f ≡ db.mirror f)
      × ((keep_or_revert db (save_cursor e next now db rs)).1.sync_state f ≡ db.sync_state f)
unfolding save_cursor
saved_elsewhere e f next now db (ok _, table) h = (
  mirror-with_mirror_ne e f table db h,
  sync_state-with_sync_state_ne e f _ (with_mirror e table db) h,
)
saved_elsewhere e f next now db (err failure, table) h = (refl, refl)

-- A page, applied or not, leaves the other streams as they were.
pub apply_pull_page_elsewhere :
    (e f : SyncEntity) (rows : List (Option SyncRow)) (next : SyncCursor) (epoch : Epoch)
    (now : String) (db : Db)
    → e ≢ f
    → ((apply_pull_page e rows next epoch now db).1.mirror f ≡ db.mirror f)
      × ((apply_pull_page e rows next epoch now db).1.sync_state f ≡ db.sync_state f)
unfolding apply_pull_page
apply_pull_page_elsewhere e f rows next epoch now db h =
    rw
      (transaction_lem (λ (d : Db). save_cursor e next now d (apply_rows epoch rows (d.mirror e)))
        db)
      (saved_elsewhere e f next now db (apply_rows epoch rows (db.mirror e)) h)

saved_keeps :
    (e : SyncEntity) (next : SyncCursor) (now : String) (db : Db)
    (rs : Result (Unit {0}) × List MirrorRow)
    → ((keep_or_revert db (save_cursor e next now db rs)).1.pending_commands ≡ db.pending_commands)
      × ((keep_or_revert db (save_cursor e next now db rs)).1.meta ≡ db.meta)
unfolding save_cursor
saved_keeps e next now db (ok _, table) = (refl, refl)
saved_keeps e next now db (err failure, table) = (refl, refl)

-- A page leaves the queue and the meta table as they were.
pub apply_pull_page_keeps :
    (e : SyncEntity) (rows : List (Option SyncRow)) (next : SyncCursor) (epoch : Epoch)
    (now : String) (db : Db)
    → ((apply_pull_page e rows next epoch now db).1.pending_commands ≡ db.pending_commands)
      × ((apply_pull_page e rows next epoch now db).1.meta ≡ db.meta)
unfolding apply_pull_page
apply_pull_page_keeps e rows next epoch now db =
    rw
      (transaction_lem (λ (d : Db). save_cursor e next now d (apply_rows epoch rows (d.mirror e)))
        db)
      (saved_keeps e next now db (apply_rows epoch rows (db.mirror e)))

-- The primary key holds after a page.
apply_rows-HasDistinctIds :
    (epoch : ℕ) (rows : List (Option SyncRow)) (table : List MirrorRow)
    → HasDistinctIds table
    → HasDistinctIds (apply_rows (some epoch) rows table).1
unfolding apply_rows
apply_rows-HasDistinctIds epoch [] table h = h
apply_rows-HasDistinctIds epoch (none ∷ rows) table h = h
apply_rows-HasDistinctIds epoch (some row ∷ rows) table h = elim (Bool-cases row.is_deleted) [
  | inl gone ↦
      rw gone (apply_rows-HasDistinctIds epoch rows _ (delete_row-HasDistinctIds row.id table h))
  | inr live ↦
      rw live (
        apply_rows-HasDistinctIds epoch rows _
          (upsert_row-HasDistinctIds (stamp epoch row) table h))
]

saved-HasDistinctIds :
    (e : SyncEntity) (next : SyncCursor) (now : String) (db : Db)
    (rs : Result (Unit {0}) × List MirrorRow)
    → HasDistinctIds (db.mirror e)
    → HasDistinctIds rs.1
    → HasDistinctIds ((keep_or_revert db (save_cursor e next now db rs)).1.mirror e)
unfolding save_cursor
saved-HasDistinctIds e next now db (ok _, table) h k =
    subst HasDistinctIds (sym (mirror-with_mirror_self e table db)) k
saved-HasDistinctIds e next now db (err failure, table) h k = h

pub apply_pull_page-HasDistinctIds :
    (e : SyncEntity) (rows : List (Option SyncRow)) (next : SyncCursor) (epoch : ℕ) (now : String)
    (db : Db)
    → HasDistinctIds (db.mirror e)
    → HasDistinctIds ((apply_pull_page e rows next (some epoch) now db).1.mirror e)
unfolding apply_pull_page
apply_pull_page-HasDistinctIds e rows next epoch now db h =
    rw
      (transaction_lem
        (λ (d : Db). save_cursor e next now d (apply_rows (some epoch) rows (d.mirror e))) db)
      (saved-HasDistinctIds e next now db (apply_rows (some epoch) rows (db.mirror e)) h
        (apply_rows-HasDistinctIds epoch rows (db.mirror e) h))

-- It holds in every table, whichever stream the page is of.
pub apply_pull_page_every-HasDistinctIds :
    (e f : SyncEntity) (rows : List (Option SyncRow)) (next : SyncCursor) (epoch : ℕ) (now : String)
    (db : Db)
    → HasDistinctIds (db.mirror e)
    → HasDistinctIds (db.mirror f)
    → HasDistinctIds ((apply_pull_page e rows next (some epoch) now db).1.mirror f)
apply_pull_page_every-HasDistinctIds e f rows next epoch now db he hf =
    elim (Bool-cases (entity_eq e f)) [
      | inl same ↦
          subst (λ g. HasDistinctIds ((apply_pull_page e rows next (some epoch) now db).1.mirror g))
            (entity_eq_iff e f same) (apply_pull_page-HasDistinctIds e rows next epoch now db he)
      | inr other ↦
          subst HasDistinctIds
            (sym
              (apply_pull_page_elsewhere e f rows next (some epoch) now db
                (entity_eq-false e f other)).0)
            hf
    ]
