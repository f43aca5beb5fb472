-- ===== src/Examples/Data.antt =====
-- The data of the examples: a database with two events and a queue of two commands.
use open_troop.Prelude.{ℕ, true, none, some, [], ◌∷◌, if◌then◌else◌}
use open_troop.Doc.{Json, null, bool, num, str}
use open_troop.Db.{
  entity_eq, events, MirrorRow, set_attendance_taken, participant_update, CommandPayload, pending,
  PendingCommand, Db,
}
use open_troop.Schema.{File}
use open_troop.Commands.Drain.{Client}

abbrev pub campout : MirrorRow
campout = record {
  id = "e1";
  sync_seq = 4;
  updated_at = "2026-01-01";
  seen_epoch = 1;
  doc = ("id", str "e1") ∷ ("title", str "Campout") ∷ [];
}

abbrev pub hike : MirrorRow
hike = record {
  id = "e2";
  sync_seq = 7;
  updated_at = "2026-01-02";
  seen_epoch = 2;
  doc = ("id", str "e2") ∷ ("title", str "Hike") ∷ [];
}

abbrev pub going : CommandPayload
going = record {
  event_id = "e1";
  member_id = some "m1";
  fields = ("rsvp_status", str "going") ∷ [];
}

abbrev pub declined : CommandPayload
declined = record {
  event_id = "e1";
  member_id = some "m1";
  fields = ("rsvp_status", str "declined") ∷ ("guest_count", num 2) ∷ [];
}

abbrev pub taken : CommandPayload
taken = record { event_id = "e1"; member_id = none; fields = ("attendance_taken", bool true) ∷ [] }

abbrev pub first_command : PendingCommand
first_command = record {
  id = "c1";
  position = 1;
  kind = set_attendance_taken;
  target_key = "e1";
  payload = taken;
  state = pending;
  attempts = 0;
  last_error = none;
  created_at = "t1";
}

abbrev pub second_command : PendingCommand
second_command = record {
  id = "c2";
  position = 2;
  kind = participant_update;
  target_key = "e1:m1";
  payload = going;
  state = pending;
  attempts = 0;
  last_error = none;
  created_at = "t2";
}

abbrev pub two_events : Db
two_events = record {
  mirror = λ e. if entity_eq e events then campout ∷ hike ∷ [] else [];
  sync_state = λ e. none;
  pending_commands = first_command ∷ second_command ∷ [];
  meta = λ k. none;
}

-- A file at a version, with the tables of `two_events`.
abbrev pub file_at : ℕ → File
file_at v = record {
  user_version = v;
  mirror = λ e. some (two_events.mirror e);
  sync_state = some two_events.sync_state;
  pending_commands = some two_events.pending_commands;
  meta = some two_events.meta;
}

-- A server that answers each request with one status, while nothing else happens.
abbrev pub always : ℕ → Client (Unit {0}) Json
always status request w = (
  record {
    outcome = some (record { status = status; body = null });
    meanwhile = [];
    now = "later";
  },
  w,
)
