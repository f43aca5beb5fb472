-- ===== src/TenantFiles.antt =====
-- apps/mobile/src/data/expo-db.ts: one file for each tenant, and at most one open handle. The files of
-- the device are a function of the tenant; a handle that is closed is no longer there.
pub mod Handle
use open_troop.Prelude.{
  String, Bool, false, not, Option, none, some, get_or, List, [], ◌∷◌, str_eq, if◌then◌else◌,
}
use open_troop.Schema.{migrate, File}

pub record Device : Type 0 where
  pub files : String → Option File
  pub handle : Option String

-- `SQLite.openDatabaseSync` makes an empty file where there is none.
abbrev pub empty_file : File
empty_file = record {
  user_version = 0;
  mirror = λ e. none;
  sync_state = none;
  pending_commands = none;
  meta = none;
}

abbrev pub write_file : String → Option File → Device → Device
write_file tenant_id file d = record d {
  files = λ t. if str_eq tenant_id t then file else d.files t;
}

unfoldable pub close_tenant_database : Device → Device
close_tenant_database d = record d { handle = none }

abbrev is_other : String → Option String → Bool
is_other tenant_id none = false
is_other tenant_id (some t) = not (str_eq t tenant_id)

-- `if (open && open.tenantId !== tenantId) closeTenantDatabase()`
close_other : String → Device → Device
close_other tenant_id d = if is_other tenant_id d.handle then close_tenant_database d else d

-- `if (!open) { … }`
open_missing : String → Option String → Device → Device
open_missing tenant_id (some t) d = d
open_missing tenant_id none d =
    record (write_file tenant_id (some (get_or (d.files tenant_id) empty_file)) d) {
      handle = some tenant_id;
    }

-- `migrate` on the file behind the handle
migrate_open : Device → Device
migrate_open d = elim d.handle [
  | none ↦ d
  | some t ↦ write_file t (some (migrate (get_or (d.files t) empty_file))) d
]

pub open_tenant_database : String → Device → Device
open_tenant_database tenant_id d =
    let closed = close_other tenant_id d in
    migrate_open (open_missing tenant_id closed.handle closed)

-- The loop of `deleteTenantDatabases`, where `removes` says for which files `deleteDatabaseSync` succeeds:
-- what it throws, for a file that was never created or for any other reason, is swallowed.
delete_files : (String → Bool) → List String → Device → Device
delete_files removes [] d = d
delete_files removes (t ∷ ts) d =
    delete_files removes ts (if removes t then write_file t none d else d)

pub delete_tenant_databases : (String → Bool) → List String → Device → Device
delete_tenant_databases removes tenant_ids d =
    delete_files removes tenant_ids (close_tenant_database d)
