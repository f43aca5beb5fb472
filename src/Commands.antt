-- ===== src/Commands.antt =====
-- The offline outbox, apps/mobile/src/data/commands.ts: how commands are queued, read, discarded and
-- turned into requests. The drain is Commands/Drain.antt.
pub mod Local
pub mod Queue
pub mod Enqueue
pub mod Drain
use mathlib.Core.Option
use Prim.Native.String.{◌++◌ as join}
use Prim.Native.Nat.{max}
use open_troop.Prelude.{
  ℕ, ◌+◌, String, Bool, true, false, not, ◌&&◌, Option, none, some, get_or, List, [], ◌∷◌, ◌++◌,
  map, str_eq, leb, if◌then◌else◌, or_else, keep, find_first, any, sort_by,
}
use open_troop.Doc.{Doc, put, spread, str}
use open_troop.Db.{
  SyncEntity, events, event_participants, CommandKind, set_attendance_taken, participant_update,
  participant_create, CommandPayload, CommandState, pending, failed, PendingCommand, Db,
  unique_constraint, unknown_command, Result, ok, err,
}
use open_troop.Db.Transaction.{transaction}

abbrev pub kind_name : CommandKind → String
kind_name set_attendance_taken = "event.set_attendance_taken"
kind_name participant_update = "participant.update"
kind_name participant_create = "participant.create"

abbrev pub kind_eq : CommandKind → CommandKind → Bool
kind_eq a b = str_eq (kind_name a) (kind_name b)

abbrev pub is_pending : CommandState → Bool
is_pending pending = true
is_pending failed = false

-- `RESPONSE_ENTITY`
abbrev pub response_entity : CommandKind → SyncEntity
response_entity set_attendance_taken = events
response_entity participant_update = event_participants
response_entity participant_create = event_participants

-- What is handed to the HTTP client. `query` holds the `URLSearchParams` behind the path.
pub record Request : Type 0 where
  pub path : String
  pub query : List (String × String)
  pub method : String
  pub body : Option Doc

-- A property that is `undefined` is not sent.
abbrev pub member_property : Option String → Doc
member_property none = []
member_property (some m) = ("member_id", str m) ∷ []

request_for : CommandKind → CommandPayload → Request
request_for set_attendance_taken p = record {
  path = join "/events/" p.event_id;
  query = [];
  method = "PATCH";
  body = some p.fields;
}
request_for participant_update p = record {
  path = join (join "/events/" p.event_id) (join "/participants/" (get_or p.member_id "undefined"));
  query = [];
  method = "PATCH";
  body = some p.fields;
}
request_for participant_create p = record {
  path = join (join "/events/" p.event_id) "/participants";
  query = [];
  method = "POST";
  body = some (spread (member_property p.member_id) p.fields);
}

pub build_request : PendingCommand → Request
build_request cmd = request_for cmd.kind cmd.payload

-- One queued command for each kind and target.
pub target_key : CommandKind → CommandPayload → String
target_key set_attendance_taken p = p.event_id
target_key _ p = join p.event_id (join ":" (get_or p.member_id ""))

-- `{ ...old, ...payload }`
pub merge_payload : CommandPayload → CommandPayload → CommandPayload
merge_payload old new = record {
  event_id = new.event_id;
  member_id = or_else new.member_id old.member_id;
  fields = spread old.fields new.fields;
}

-- `WHERE kind = ? AND target_key = ? AND state = 'pending'`
abbrev pub is_for : CommandKind → String → PendingCommand → Bool
is_for kind key c = kind_eq c.kind kind && str_eq c.target_key key && is_pending c.state

-- `UPDATE pending_commands SET payload = ? WHERE id = ?`
abbrev pub set_payload : String → CommandPayload → PendingCommand → PendingCommand
set_payload id p c = if str_eq c.id id then record c { payload = p } else c

-- `SELECT MAX(position)`, 0 for none
pub max_position : List PendingCommand → ℕ
max_position [] = 0
max_position (c ∷ cs) = max c.position (max_position cs)

pub get_command : String → Db → Result PendingCommand
get_command id db = elim (find_first (λ c. str_eq c.id id) db.pending_commands) [
  | none ↦ err (unknown_command id)
  | some c ↦ ok c
]

coalesce : PendingCommand → CommandPayload → Db → Result PendingCommand × Db
coalesce c payload db =
    let db' : Db = record db {
      pending_commands =
          map (set_payload c.id (merge_payload c.payload payload)) db.pending_commands;
    } in
    (get_command c.id db', db')

abbrev pub new_command :
    String → String → CommandKind → CommandPayload → List PendingCommand → PendingCommand
new_command id now kind payload queue = record {
  id = id;
  position = max_position queue + 1;
  kind = kind;
  target_key = target_key kind payload;
  payload = payload;
  state = pending;
  attempts = 0;
  last_error = none;
  created_at = now;
}

-- `INSERT`: the id is the primary key.
append_command : PendingCommand → Db → Result PendingCommand × Db
append_command c db =
    if any (λ d. str_eq d.id c.id) db.pending_commands
    then (err unique_constraint, db)
    else (ok c, record db { pending_commands = db.pending_commands ++ c ∷ [] })

enqueue_body : String → String → CommandKind → CommandPayload → Db → Result PendingCommand × Db
enqueue_body id now kind payload db =
    elim (find_first (is_for kind (target_key kind payload)) db.pending_commands) [
      | some c ↦ coalesce c payload db
      | none ↦ append_command (new_command id now kind payload db.pending_commands) db
    ]

-- `id` is what `newCommandId` draws, `now` the time.
pub enqueue_command :
    String → String → CommandKind → CommandPayload → Db → Result PendingCommand × Db
enqueue_command id now kind payload = transaction (enqueue_body id now kind payload)

abbrev pub position_le : PendingCommand → PendingCommand → Bool
position_le a b = leb a.position b.position

abbrev pub in_state : Option CommandState → PendingCommand → Bool
in_state none c = true
in_state (some pending) c = is_pending c.state
in_state (some failed) c = not (is_pending c.state)

-- `ORDER BY position`
pub list_commands : Option CommandState → Db → List PendingCommand
list_commands state db = sort_by position_le (keep (in_state state) db.pending_commands)

pub discard_command : String → Db → Db
discard_command id db = record db {
  pending_commands = keep (λ c. not (str_eq c.id id)) db.pending_commands;
}

-- Opens the whole component, for tests that run it.
unfoldable pub run_commands : Unit {0}
unfolding enqueue_command enqueue_body coalesce append_command max_position target_key merge_payload
    get_command list_commands discard_command build_request request_for transaction spread put
    sort_by
run_commands = tt
