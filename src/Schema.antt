-- ===== src/Schema.antt =====
-- apps/mobile/src/data/schema.ts: the tables of a database file, whichever of them are there, and
-- `migrate`, which every opening of a file runs.
pub mod Migration
use open_troop.Prelude.{
  ℕ, String, Option, none, some, List, [], ◌∷◌, str_eq, ltb, ◌==◌, if◌then◌else◌,
}
use open_troop.Db.{
  sync_entities, entity_eq, SyncEntity, MirrorRow, SyncState, PendingCommand, Db, Result, ok,
}
use open_troop.Db.Transaction.{transaction}

pub record File : Type 0 where
  pub user_version : ℕ
  pub mirror : SyncEntity → Option (List MirrorRow)
  pub sync_state : Option (SyncEntity → Option SyncState)
  pub pending_commands : Option (List PendingCommand)
  pub meta : Option (String → Option String)

abbrev pub schema_version : ℕ
schema_version = 2

-- `CREATE TABLE IF NOT EXISTS`
abbrev pub create_if_missing {ℓ} : {A : Type ℓ} → A → Option A → Option A
create_if_missing empty none = some empty
create_if_missing empty (some t) = some t

abbrev with_table : SyncEntity → Option (List MirrorRow) → File → File
with_table e t f = record f { mirror = λ g. if entity_eq e g then t else f.mirror g }

-- `for (const entity of SYNC_ENTITIES) db.exec(MIRROR_TABLE_DDL(entity))`
create_mirror_tables : List SyncEntity → File → File
create_mirror_tables [] f = f
create_mirror_tables (e ∷ es) f =
    create_mirror_tables es (with_table e (create_if_missing [] (f.mirror e)) f)

drop_mirror_tables : List SyncEntity → File → File
drop_mirror_tables [] f = f
drop_mirror_tables (e ∷ es) f = drop_mirror_tables es (with_table e none f)

create_tables : File → Result (Unit {0}) × File
unfolding create_mirror_tables
create_tables f =
    let g = create_mirror_tables sync_entities f in
    (
      ok tt,
      record g {
        sync_state = create_if_missing (λ e. none) g.sync_state;
        pending_commands = create_if_missing [] g.pending_commands;
        meta = create_if_missing (λ k. none) g.meta;
        user_version = schema_version;
      },
    )

drop_tables : File → Result (Unit {0}) × File
unfolding drop_mirror_tables
drop_tables f =
    let g = drop_mirror_tables sync_entities f in
    (ok tt, record g { sync_state = none; user_version = 0 })

pub rebuild_mirror : File → File
rebuild_mirror f = (transaction drop_tables f).1

pub migrate : File → File
migrate f =
    if f.user_version == schema_version
    then f
    else let g = if ltb schema_version f.user_version then rebuild_mirror f else f in
      (transaction create_tables g).1

-- `SELECT value FROM meta WHERE key = ?`
unfoldable pub get_meta : String → Db → Option String
get_meta key db = db.meta key

unfoldable pub set_meta : String → String → Db → Db
set_meta key value db = record db { meta = λ k. if str_eq key k then some value else db.meta k }
