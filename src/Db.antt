-- ===== src/Db.antt =====
-- The local database of one tenant, apps/mobile/src/data/schema.ts and mirror.ts: what its tables
-- hold once `migrate` has run. SQLite itself is not in the repository: a table is the list of its
-- rows, in the order of insertion, or a map from its key where nothing reads the order, and each SQL
-- statement of the source is a function on tables.
pub mod Rows
pub mod Transaction
use open_troop.Prelude.{ℕ, String, Bool, Option, some, List, [], ◌∷◌, str_eq, if◌then◌else◌}
use open_troop.Doc.{Doc}

pub data SyncEntity : Type 0 where
  event_types : SyncEntity
  locations : SyncEntity
  members : SyncEntity
  member_relationships : SyncEntity
  events : SyncEntity
  event_participants : SyncEntity
  inbox_messages : SyncEntity
  inbox_recipients : SyncEntity

-- The path of a stream and the name of its table.
abbrev pub entity_name : SyncEntity → String
entity_name event_types = "event_types"
entity_name locations = "locations"
entity_name members = "members"
entity_name member_relationships = "member_relationships"
entity_name events = "events"
entity_name event_participants = "event_participants"
entity_name inbox_messages = "inbox_messages"
entity_name inbox_recipients = "inbox_recipients"

-- `SYNC_ENTITIES`, in dependency order
abbrev pub sync_entities : List SyncEntity
sync_entities =
    event_types ∷ locations ∷ members ∷ member_relationships ∷ events ∷ event_participants
    ∷ inbox_messages ∷ inbox_recipients ∷ []

abbrev pub entity_eq : SyncEntity → SyncEntity → Bool
entity_eq e f = str_eq (entity_name e) (entity_name f)

pub record MirrorRow : Type 0 where
  pub id : String
  pub sync_seq : ℕ
  pub updated_at : String
  pub seen_epoch : ℕ
  pub doc : Doc

pub record SyncCursor : Type 0 where
  pub last_seq : ℕ
  pub last_id : Option String

-- A row of `sync_state`.
pub record SyncState : Type 0 where
  pub cursor : SyncCursor
  pub last_synced_at : String

pub data CommandKind : Type 0 where
  set_attendance_taken : CommandKind
  participant_update : CommandKind
  participant_create : CommandKind

pub record CommandPayload : Type 0 where
  pub event_id : String
  pub member_id : Option String
  pub fields : Doc

pub data CommandState : Type 0 where
  pending failed : CommandState

pub record PendingCommand : Type 0 where
  pub id : String
  pub position : ℕ
  pub kind : CommandKind
  pub target_key : String
  pub payload : CommandPayload
  pub state : CommandState
  pub attempts : ℕ
  pub last_error : Option String
  pub created_at : String

pub record Db : Type 0 where
  pub mirror : SyncEntity → List MirrorRow
  pub sync_state : SyncEntity → Option SyncState
  pub pending_commands : List PendingCommand
  pub meta : String → Option String

-- What is thrown: by a statement, or by the code.
pub data Failure : Type 0 where
  not_null_constraint : Failure
  unique_constraint : Failure
  nested_transaction : Failure
  unknown_command : String → Failure
  transport : Failure
  pull_error : SyncEntity → ℕ → Failure
  malformed_page : SyncEntity → Failure
  not_advancing : SyncEntity → Failure
  out_of_fuel : Failure

pub data Result {ℓ} (A : Type ℓ) : Type ℓ where
  ok : A → Result A
  err : Failure → Result A

-- The same database with another mirror table for `e`.
abbrev pub with_mirror : SyncEntity → List MirrorRow → Db → Db
with_mirror e rows db = record db { mirror = λ f. if entity_eq e f then rows else db.mirror f }

abbrev pub with_sync_state : SyncEntity → SyncState → Db → Db
with_sync_state e s db = record db {
  sync_state = λ f. if entity_eq e f then some s else db.sync_state f;
}
