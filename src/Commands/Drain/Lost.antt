-- ===== src/Commands/Drain/Lost.antt =====
-- What happens to a command that is queued while the request of an earlier one for the same target
-- is awaited.
use open_troop.Prelude.{
  ◌+◌, String, ◌≡◌, refl, sym, ap, ◌∙◌, inl, inr, Bool, true, false, not, some, List, [], ◌∷◌, map,
  str_eq, Bool-cases, Option-cases, keep,
}
use open_troop.Doc.{Json}
use open_troop.Db.{CommandKind, CommandPayload, PendingCommand, Db, Result}
use open_troop.Db.Transaction.{transaction_lem}
use open_troop.Mirror.{upsert_response_row}
use open_troop.Commands.{merge_payload, set_payload, discard_command}
use open_troop.Commands.Queue.{IsQueue}
use open_troop.Commands.Enqueue.{waiting, with_commands, enqueue_command_merges}
use open_troop.Commands.Drain.{
  enqueue, run_op, run_ops, response_id, is_created409, write_response, accept_body, accept,
  proceed, settle, HttpResponse, DrainResult,
}
use open_troop.Commands.Drain.Steps.{verdict, round, settle_lem, accepted}
use open_troop.Commands.Drain.Removal.{queue-write_response}

-- The update merges into the row that is being sent.
keep-map-set_payload :
    (id : String) (p : CommandPayload) (q : List PendingCommand)
    → keep (λ c. not (str_eq c.id id)) (map (set_payload id p) q)
      ≡ keep (λ c. not (str_eq c.id id)) q
keep-map-set_payload id p [] = refl
keep-map-set_payload id p (c ∷ q) = elim (Bool-cases (str_eq c.id id)) [
  | inl same ↦ rw (same, set_payload) (rw same (keep-map-set_payload id p q))
  | inr other ↦ rw (other, set_payload) (rw other (ap (λ xs. c ∷ xs) (keep-map-set_payload id p q)))
]

write_response-with_commands :
    (kind : CommandKind) (done : Bool) (body : Json) (now : String) (q : List PendingCommand)
    (db : Db)
    → write_response kind done body now (with_commands q db)
      ≡ with_commands q (write_response kind done body now db)
unfolding write_response upsert_response_row
write_response-with_commands kind true body now q db = refl
write_response-with_commands kind false body now q db = elim (Option-cases (response_id body)) [
  | inl absent ↦ rw (absent, write_response)
  | inr (id, there) ↦ rw (there, write_response)
]

accept_lem :
    (cmd : PendingCommand) (r : HttpResponse Json) (now : String) (db : Db)
    → accept cmd r now db
      ≡ discard_command cmd.id
          (write_response cmd.kind (is_created409 cmd.kind r.status) r.body now db)
unfolding accept accept_body
accept_lem cmd r now db =
    ap (λ (rs : Result (Unit {0}) × Db). rs.1) (transaction_lem (accept_body cmd r now) db)

discard-merged :
    (id : String) (p : CommandPayload) (db written : Db)
    → written.pending_commands ≡ db.pending_commands
    → discard_command id (with_commands (map (set_payload id p) db.pending_commands) written)
      ≡ discard_command id written
unfolding discard_command
discard-merged id p db written e =
    ap (λ q. with_commands q written)
      (keep-map-set_payload id p db.pending_commands
        ∙ ap (keep (λ c. not (str_eq c.id id))) (sym e))

accept-merged :
    (cmd : PendingCommand) (p : CommandPayload) (r : HttpResponse Json) (now : String) (db : Db)
    → accept cmd r now (with_commands (map (set_payload cmd.id p) db.pending_commands) db)
      ≡ accept cmd r now db
accept-merged cmd p r now db =
    let q = map (set_payload cmd.id p) db.pending_commands in
    let done = is_created409 cmd.kind r.status in
    accept_lem cmd r now (with_commands q db)
    ∙ ap (discard_command cmd.id) (write_response-with_commands cmd.kind done r.body now q db)
    ∙ discard-merged cmd.id p db (write_response cmd.kind done r.body now db)
        (queue-write_response cmd.kind done r.body now db)
    ∙ sym (accept_lem cmd r now db)

settle_accepted :
    (cmd : PendingCommand) (result : DrainResult) (r : HttpResponse Json) (later : String) (db : Db)
    → verdict cmd.kind (some r) ≡ accepted
    → settle cmd result (some r) later db
      ≡ proceed (record result { sent = result.sent + 1 }) (accept cmd r later db)
settle_accepted cmd result r later db v =
    settle_lem cmd result (some r) later db ∙ ap (round cmd result (some r) later db) v

-- While the request of a pending command is awaited, an update for its kind and target merges into
-- it; if the server then accepts the request, which was built before, the database is in every table
-- the one that it would be without the update: the update is neither sent nor kept.
pub enqueue_while_sending_lost :
    (cmd : PendingCommand) (payload : CommandPayload) (result : DrainResult) (r : HttpResponse Json)
    (id now later : String) (db : Db)
    → IsQueue db.pending_commands
    → waiting cmd.kind payload db ≡ some cmd
    → verdict cmd.kind (some r) ≡ accepted
    → settle cmd result (some r) later (run_ops (enqueue id now cmd.kind payload ∷ []) db)
      ≡ settle cmd result (some r) later db
unfolding run_ops run_op
enqueue_while_sending_lost cmd payload result r id now later db h e v =
    let merged = enqueue_command_merges id now cmd.kind payload db cmd h e in
    ap (λ (rs : Result PendingCommand × Db). settle cmd result (some r) later rs.1) merged
    ∙ settle_accepted cmd result r later _ v
    ∙ ap (proceed (record result { sent = result.sent + 1 }))
        (accept-merged cmd (merge_payload cmd.payload payload) r later db)
    ∙ sym (settle_accepted cmd result r later db v)
