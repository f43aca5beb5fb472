-- ===== src/Commands/Drain.antt =====
-- `drainQueue` of apps/mobile/src/data/commands.ts, and `errorDetail` of apps/mobile/src/lib/http.ts.
-- The HTTP client is not in the repository. It is an argument: a function of the request and of a
-- world of its own, so that its answers may depend on all that was sent before. The await gives the
-- other tasks of the application their turn: a reply says what they did to the outbox meanwhile.
pub mod Keeps
pub mod Steps
pub mod Order
pub mod Removal
pub mod Accounts
pub mod Lost
use Prim.Native.String.{◌++◌ as join}
use open_troop.Prelude.{
  ℕ, ◌+◌, String, Bool, true, false, ◌&&◌, ◌||◌, Option, none, some, List, [], ◌∷◌, map, str_eq,
  ltb, leb, ◌==◌, if◌then◌else◌,
}
use open_troop.Doc.{Doc, properties, get, to_text, Json, str, obj}
use open_troop.Doc.Decimal.{show}
use open_troop.Db.{
  CommandKind, participant_create, CommandPayload, pending, failed, PendingCommand, Db, Result, ok,
}
use open_troop.Db.Transaction.{transaction}
use open_troop.Mirror.{upsert_response_row}
use open_troop.Commands.{
  kind_eq, response_entity, build_request, enqueue_command, list_commands, discard_command,
  run_commands, Request,
}

pub record HttpResponse (B : Type 0) : Type 0 where
  pub status : ℕ
  pub body : B

-- What a screen may do to the outbox: `enqueue` and `discard` of the sync context, with the id that
-- `newCommandId` draws and the time.
pub data LocalOp : Type 0 where
  enqueue : (id now : String) → CommandKind → CommandPayload → LocalOp
  discard : (id : String) → LocalOp

-- `outcome` is `none` where the promise is rejected; `now` is the time at which it settles.
pub record Reply (B : Type 0) : Type 0 where
  pub outcome : Option (HttpResponse B)
  pub meanwhile : List LocalOp
  pub now : String

abbrev pub Client : Type 0 → Type 0 → Type 0
Client W B = Request → W → Reply B × W

unfoldable pub run_op : LocalOp → Db → Db
run_op (enqueue id now kind payload) db = (enqueue_command id now kind payload db).1
run_op (discard id) db = discard_command id db

unfoldable pub run_ops : List LocalOp → Db → Db
unfolding run_op
run_ops [] db = db
run_ops (op ∷ ops) db = run_ops ops (run_op op db)

-- `body && typeof body === "object"`, with the properties of the object: a list has none of those
-- that the callers ask for.
abbrev pub object_of : Json → Doc
object_of (obj ps) = properties ps
object_of _ = []

-- `"detail" in body`
unfoldable pub error_detail : Json → ℕ → String
unfolding get to_text show
error_detail body status = elim (get "detail" (object_of body)) [
  | some detail ↦ to_text detail
  | none ↦ join "HTTP " (show status)
]

-- A property that holds a text; an empty id counts as absent.
abbrev pub text_of : Option Json → Option String
text_of (some (str s)) = some s
text_of _ = none

abbrev truthy : Option String → Option String
truthy none = none
truthy (some s) = if str_eq s "" then none else some s

pub response_id : Json → Option String
response_id body = truthy (text_of (get "id" (object_of body)))

pub record DrainResult : Type 0 where
  pub sent : ℕ
  pub failed : ℕ
  pub halted : Bool
  pub needs_auth : Bool

abbrev pub nothing_sent : DrainResult
nothing_sent = record { sent = 0; failed = 0; halted = false; needs_auth = false }

-- 409 on a replayed create
abbrev pub is_created409 : CommandKind → ℕ → Bool
is_created409 kind status = kind_eq kind participant_create && status == 409

pub write_response : CommandKind → Bool → Json → String → Db → Db
write_response kind true body now db = db
write_response kind false body now db = elim (response_id body) [
  | none ↦ db
  | some id ↦
      upsert_response_row (response_entity kind) id (text_of (get "updated_at" (object_of body)))
        (object_of body) now db
]

accept_body : PendingCommand → HttpResponse Json → String → Db → Result (Unit {0}) × Db
accept_body cmd r now db = (
  ok tt,
  discard_command cmd.id (write_response cmd.kind (is_created409 cmd.kind r.status) r.body now db),
)

pub accept : PendingCommand → HttpResponse Json → String → Db → Db
accept cmd r now db = (transaction (accept_body cmd r now) db).1

-- `UPDATE … SET state = 'failed', attempts = attempts + 1, last_error = ? WHERE id = ?`
abbrev pub fail_command : String → String → PendingCommand → PendingCommand
fail_command id reason c =
    if str_eq c.id id
    then record c { state = failed; attempts = c.attempts + 1; last_error = some reason }
    else c

pub refuse : PendingCommand → HttpResponse Json → Db → Db
refuse cmd r db = record db {
  pending_commands = map (fail_command cmd.id (error_detail r.body r.status)) db.pending_commands;
}

-- One round of the loop after the await: it returns, or it goes on.
pub data Next : Type 0 where
  halt : DrainResult → Next
  proceed : DrainResult → Db → Next

settle_response : PendingCommand → DrainResult → HttpResponse Json → String → Db → Next
settle_response cmd result r now db =
    if r.status == 401
    then halt (record result { halted = true; needs_auth = true })
    else if leb 500 r.status
    then halt (record result { halted = true })
    else if ltb r.status 400 || is_created409 cmd.kind r.status
    then proceed (record result { sent = result.sent + 1 }) (accept cmd r now db)
    else proceed (record result { failed = result.failed + 1 }) (refuse cmd r db)

pub settle : PendingCommand → DrainResult → Option (HttpResponse Json) → String → Db → Next
settle cmd result none now db = halt (record result { halted = true })
settle cmd result (some r) now db = settle_response cmd result r now db

module _ {W : Type 0} (http : Client W Json) where
  -- The loop over the snapshot of the queue.
  pub drain_loop : List PendingCommand → DrainResult → W → Db → DrainResult × W × Db
  drain_loop [] result w db = (result, w, db)
  drain_loop (cmd ∷ cmds) result w db =
      let (reply, w') = http (build_request cmd) w in
      let db' = run_ops reply.meanwhile db in
      elim (settle cmd result reply.outcome reply.now db') [
        | halt r ↦ (r, w', db')
        | proceed r db'' ↦ drain_loop cmds r w' db''
      ]

  pub drain_queue : W → Db → DrainResult × W × Db
  drain_queue w db = drain_loop (list_commands (some pending) db) nothing_sent w db

-- Opens the component, for tests that run it.
unfoldable pub run_drain : Unit {0}
unfolding run_commands run_ops error_detail response_id write_response accept_body accept refuse
    settle_response settle drain_loop drain_queue transaction get upsert_response_row
run_drain = tt
