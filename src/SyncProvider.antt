-- ===== src/SyncProvider.antt =====
-- The sync provider, apps/mobile/src/lib/sync-context.tsx: one database handle, one sync at a time, and
-- a version that tells the screens to read again. The sync itself is Engine.antt: here it is a promise
-- that runs for a tenant, writes through its handle, and is settled.
pub mod Invariant
pub mod Reachable
pub mod Isolation
pub mod Switching
use open_troop.Prelude.{
  ℕ, zero, suc, ◌+◌, String, ◌≡◌, Bool, true, false, ◌&&◌, Option, none, some, List, [], ◌∷◌, ◌++◌,
  map, get_elem?, str_eq, ◌==◌, if◌then◌else◌,
}
use open_troop.Db.{CommandKind, CommandPayload, failed, PendingCommand, Db, Result, ok, err}
use open_troop.Schema.{set_meta}
use open_troop.Commands.{enqueue_command, list_commands, discard_command}
use open_troop.Engine.{SyncOutcome}

-- A call of `sync` that got past its guard and is not settled: the tenant whose `db` and `http` it holds,
-- and whether that handle has not been closed since. Opening a tenant's database again makes another.
pub record Promise : Type 0 where
  pub tenant : String
  pub live : Bool

-- `running` holds the promises in flight, in the order in which they began; `handle` is the tenant whose
-- database is open, and `dbs` what the databases hold, as `openTenantDatabase` migrated them.
pub record Provider : Type 0 where
  pub active : Option String
  pub handle : Option String
  pub dbs : String → Db
  pub version : ℕ
  pub is_syncing : Bool
  pub last_outcome : Option SyncOutcome
  pub failed_commands : List PendingCommand
  pub in_flight : Bool
  pub running : List Promise

abbrev pub write_db : String → Db → Provider → Provider
write_db t db s = record s { dbs = λ u. if str_eq t u then db else s.dbs u }

abbrev pub bump_version : Provider → Provider
bump_version s = record s { version = s.version + 1 }

abbrev pub begin_sync : String → Provider → Provider
begin_sync t s = record s {
  in_flight = true;
  is_syncing = true;
  running = s.running ++ record { tenant = t; live = true } ∷ [];
}

-- `sync`, up to the await
abbrev pub start_for : Option String → Provider → Provider
start_for none s = s
start_for (some t) s = if s.in_flight then s else begin_sync t s

unfoldable pub start_sync : Provider → Provider
start_sync s = start_for s.active s

-- The permission snapshot after a pull: the status and the text of the session's answer, `none` where
-- the request is rejected. A write through a closed handle throws, which is swallowed.
unfoldable pub refresh_snapshot : Promise → SyncOutcome → Option (ℕ × String) → Provider → Provider
refresh_snapshot p outcome none s = s
refresh_snapshot p outcome (some (status, body)) s =
    if outcome.pulled && status == 200 && p.live
    then write_db p.tenant (set_meta "session_snapshot" body (s.dbs p.tenant)) s
    else s

-- `setLastOutcome`, `setFailedCommands(listCommands(db, "failed"))`, which throws through a
-- closed handle, `setVersion`
unfoldable pub report_outcome : Promise → SyncOutcome → Provider → Provider
report_outcome p outcome s =
    if p.live
    then record s {
      last_outcome = some outcome;
      failed_commands = list_commands (some failed) (s.dbs p.tenant);
      version = s.version + 1;
    }
    else record s { last_outcome = some outcome }

-- The promises in flight but for the one that is settled
abbrev pub others : ℕ → List Promise → List Promise
others i [] = []
others zero (p ∷ ps) = ps
others (suc i) (p ∷ ps) = p ∷ others i ps

-- `finally`
abbrev pub end_sync : ℕ → Provider → Provider
end_sync i s = record s { in_flight = false; is_syncing = false; running = others i s.running }

-- The `syncNow` of a promise is fulfilled.
abbrev pub finish_for : Option Promise → ℕ → SyncOutcome → Option (ℕ × String) → Provider → Provider
finish_for none i outcome session s = s
finish_for (some p) i outcome session s =
    end_sync i (report_outcome p outcome (refresh_snapshot p outcome session s))

unfoldable pub finish_sync : ℕ → SyncOutcome → Option (ℕ × String) → Provider → Provider
finish_sync i outcome session s = finish_for (get_elem? s.running i) i outcome session s

-- `enqueue`; a command that is refused throws before the version is raised.
abbrev pub after_enqueue : String → Result PendingCommand × Db → Provider → Provider
after_enqueue t (ok c, db) s = start_sync (bump_version (write_db t db s))
after_enqueue t (err failure, db) s = write_db t db s

abbrev pub enqueue_for :
    Option String → String → String → CommandKind → CommandPayload → Provider → Provider
enqueue_for none id now kind payload s = s
enqueue_for (some t) id now kind payload s =
    after_enqueue t (enqueue_command id now kind payload (s.dbs t)) s

unfoldable pub enqueue_local : String → String → CommandKind → CommandPayload → Provider → Provider
enqueue_local id now kind payload s = enqueue_for s.active id now kind payload s

abbrev pub discard_for : Option String → String → Provider → Provider
discard_for none id s = s
discard_for (some t) id s =
    let db = discard_command id (s.dbs t) in
    record (write_db t db s) {
      failed_commands = list_commands (some failed) db;
      version = s.version + 1;
    }

unfoldable pub discard_local : String → Provider → Provider
discard_local id s = discard_for s.active id s

-- `openTenantDatabase` closes the handle of another tenant; with no tenant nothing is opened or closed.
abbrev pub opened : Option String → Option String → Option String
opened none handle = handle
opened (some t) handle = some t

-- The active tenant changes: its database is opened, and the effect on `sync` runs.
abbrev pub stays_open : Option String → Option String → Bool
stays_open (some t) (some u) = str_eq u t
stays_open _ _ = true

-- What a promise holds after the switch
abbrev pub keep_handle : Bool → Promise → Promise
keep_handle kept p = record p { live = p.live && kept }

unfoldable pub select_tenant : Option String → Provider → Provider
select_tenant m s = start_sync (record s {
  active = m;
  handle = opened m s.handle;
  running = map (keep_handle (stays_open m s.handle)) s.running;
})

-- Whether the database of the tenant is the open one
abbrev pub is_handle : String → Option String → Bool
is_handle t none = false
is_handle t (some u) = str_eq u t

abbrev pub is_open : String → Provider → Bool
is_open t s = is_handle t s.handle

-- At mount
abbrev pub mounted : (String → Db) → Provider
mounted dbs = record {
  active = none;
  handle = none;
  dbs = dbs;
  version = 0;
  is_syncing = false;
  last_outcome = none;
  failed_commands = [];
  in_flight = false;
  running = [];
}

-- What may happen next. The listeners on the connection and on the foreground, and a screen that asks,
-- call `sync`.
pub data Step (s : Provider) : Provider → Type 0 where
  selects : (m : Option String) → Step s (select_tenant m s)
  triggers : Step s (start_sync s)
  writes :
      (i : ℕ) (p : Promise) (db : Db)
      → get_elem? s.running i ≡ some p
      → p.live ≡ true
      → Step s (write_db p.tenant db s)
  finishes :
      (i : ℕ) (outcome : SyncOutcome) (session : Option (ℕ × String))
      → Step s (finish_sync i outcome session s)
  throws : (i : ℕ) (p : Promise) → get_elem? s.running i ≡ some p → Step s (end_sync i s)
  enqueues :
      (id now : String) (kind : CommandKind) (payload : CommandPayload)
      → Step s (enqueue_local id now kind payload s)
  discards : (id : String) → Step s (discard_local id s)
  bumps : Step s (bump_version s)
