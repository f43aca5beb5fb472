-- ===== src/Examples/Database.antt =====
-- Migrations, pages, sweeps and response rows at concrete inputs.
use open_troop.Prelude.{
  ℕ, ◌+◌, String, ◌≡◌, refl, true, false, Option, none, some, get_or, List, [], ◌∷◌, arith, str_eq,
  leb, if◌then◌else◌, length, All,
}
use open_troop.Doc.{str}
use open_troop.Doc.Decimal.{show, number, number-show}
use open_troop.Db.{
  SyncEntity, events, MirrorRow, SyncCursor, SyncState, not_null_constraint, ok, err,
}
use open_troop.Db.Rows.{find_row, HasDistinctIds}
use open_troop.Schema.{schema_version, migrate}
use open_troop.Schema.Migration.{migrate_older_keeps_mirror, HasTables}
use open_troop.Mirror.{
  get_cursor, apply_rows, apply_pull_page, sweep_stale, upsert_response_row, run_mirror, SyncRow,
}
use open_troop.Mirror.Pages.{last_for, settled, apply_pull_page_lem, apply_pull_page_atomic}
use open_troop.Mirror.Sweep.{IsFresh, passing, sweep_stale_lem}
use open_troop.Mirror.Responses.{kept_columns, upsert_response_row_lem}
use open_troop.Examples.Data.{two_events, file_at}

file_at-HasTables : (v : ℕ) → HasTables (file_at v)
file_at-HasTables v = record { mirror = λ e. cc; sync_state = cc; pending_commands = cc; meta = cc }

migrate_older_keeps_mirror_example :
    ((e : SyncEntity) (rows : List MirrorRow)
      → (file_at 1).mirror e ≡ some rows
      → (migrate (file_at 1)).mirror e ≡ some rows)
    × ((s : SyncEntity → Option SyncState)
        → (file_at 1).sync_state ≡ some s
        → (migrate (file_at 1)).sync_state ≡ some s)
    × ((migrate (file_at 1)).user_version ≡ schema_version)
migrate_older_keeps_mirror_example = migrate_older_keeps_mirror (file_at 1) (omega arith)

-- A page that renames one event and deletes the other.
abbrev renamed : SyncRow
renamed = record {
  id = "e1";
  sync_seq = 9;
  updated_at = "2026-01-03";
  is_deleted = false;
  doc = ("id", str "e1") ∷ ("title", str "Winter campout") ∷ [];
}

abbrev removed : SyncRow
removed = record { id = "e2"; sync_seq = 8; updated_at = "2026-01-03"; is_deleted = true; doc = [] }

abbrev pulled_page : SyncCursor
pulled_page = record { last_seq = 9; last_id = some "e1" }

apply_pull_page_lem_example :
    ((apply_pull_page events
        (some removed ∷ some renamed ∷ [])
        pulled_page
        (some 2)
        "now"
        two_events).0
      ≡ ok tt)
    × ((id : String)
        → find_row id (
            (apply_pull_page events
                (some removed ∷ some renamed ∷ [])
                pulled_page
                (some 2)
                "now"
                two_events).1.mirror
              events)
          ≡ settled 2
              (last_for id (removed ∷ renamed ∷ []))
              (find_row id (two_events.mirror events)))
    × (get_cursor events
          (apply_pull_page events
            (some removed ∷ some renamed ∷ [])
            pulled_page
            (some 2)
            "now"
            two_events).1
        ≡ pulled_page)
apply_pull_page_lem_example =
    apply_pull_page_lem events (removed ∷ renamed ∷ []) pulled_page 2 "now" two_events

-- The deletion is made, the next row has no `sync_seq`, and the deletion is undone.
apply_pull_page_atomic_example :
    (apply_rows (some 2) (some removed ∷ none ∷ some renamed ∷ []) (two_events.mirror events) ≡ (
      err not_null_constraint,
      (apply_rows (some 2) (some removed ∷ []) (two_events.mirror events)).1,
    ))
    × (apply_pull_page events
          (some removed ∷ none ∷ some renamed ∷ [])
          pulled_page
          (some 2)
          "now"
          two_events
        ≡ (err not_null_constraint, two_events))
apply_pull_page_atomic_example =
    apply_pull_page_atomic events (removed ∷ []) (some renamed ∷ []) pulled_page 2 "now" two_events

deleted_halfway :
    length
      (apply_rows (some 2) (some removed ∷ none ∷ some renamed ∷ []) (two_events.mirror events)).1
    ≡ 1
unfolding run_mirror
deleted_halfway = refl

events-HasDistinctIds : HasDistinctIds (two_events.mirror events)
unfolding run_mirror
events-HasDistinctIds = (refl, (refl, tt))

sweep_stale_lem_example :
    All (IsFresh 2) ((sweep_stale events (some 2) two_events).1.mirror events)
    × ((id : String)
        → find_row id ((sweep_stale events (some 2) two_events).1.mirror events)
          ≡ passing (λ r. leb 2 r.seen_epoch) (find_row id (two_events.mirror events)))
    × (length ((sweep_stale events (some 2) two_events).1.mirror events)
          + (sweep_stale events (some 2) two_events).0
        ≡ length (two_events.mirror events))
sweep_stale_lem_example = sweep_stale_lem events 2 two_events events-HasDistinctIds

sweep_counts : (sweep_stale events (some 2) two_events).0 ≡ 1
unfolding run_mirror
sweep_counts = refl

upsert_response_row_lem_example :
    find_row "e1" ((upsert_response_row events "e1" none [] "now" two_events).mirror events) ≡ (
      if str_eq "e1" "e1"
      then some (record {
        id = "e1";
        sync_seq = (kept_columns (find_row "e1" (two_events.mirror events))).0;
        updated_at = get_or none "now";
        seen_epoch = (kept_columns (find_row "e1" (two_events.mirror events))).1;
        doc = [];
      })
      else find_row "e1" (two_events.mirror events))
upsert_response_row_lem_example = upsert_response_row_lem events "e1" "e1" "now" none [] two_events

number-show_example : number (show 1024) ≡ some 1024
number-show_example = number-show 1024

show_epoch : show 1024 ≡ "1024"
unfolding show
show_epoch = refl
