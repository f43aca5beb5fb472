-- ===== src/Commands/Drain/Keeps.antt =====
-- What a drain leaves alone, whatever the server and the other tasks do: the cursors and the meta
-- table.
use open_troop.Prelude.{
  String, ◌≡◌, refl, sym, ◌∙◌, subst, inl, inr, Bool, true, false, Option, none, some, List, [],
  ◌∷◌, Option-cases,
}
use open_troop.Doc.{Json}
use open_troop.Db.{CommandKind, pending, PendingCommand, Db, Result}
use open_troop.Db.Transaction.{transaction_lem}
use open_troop.Mirror.{upsert_response_row}
use open_troop.Commands.{build_request, list_commands, discard_command}
use open_troop.Commands.Drain.{
  Client, run_ops, response_id, nothing_sent, is_created409, write_response, accept_body, accept,
  refuse, halt, proceed, settle, drain_loop, drain_queue, HttpResponse, DrainResult, Next,
}
use open_troop.Commands.Drain.Steps.{
  verdict, round, settle_lem, Next-cases, Verdict, offline, unauthorized, server_error, accepted,
  refused,
}
use open_troop.Commands.Local.{run_ops-SameTables}

pub record SameBooks (a b : Db) : Type 0 where
  pub sync_state : a.sync_state ≡ b.sync_state
  pub meta : a.meta ≡ b.meta

abbrev books_refl : (a : Db) → SameBooks a a
books_refl a = record { sync_state = refl; meta = refl }

write_response-SameBooks :
    (kind : CommandKind) (replayed : Bool) (body : Json) (now : String) (db : Db)
    → SameBooks (write_response kind replayed body now db) db
unfolding write_response upsert_response_row
write_response-SameBooks kind true body now db = books_refl db
write_response-SameBooks kind false body now db = elim (Option-cases (response_id body)) [
  | inl absent ↦ rw (absent, write_response) (books_refl db)
  | inr (id, found) ↦
      rw (found, write_response, upsert_response_row) (record { sync_state = refl; meta = refl })
]

accept-SameBooks :
    (cmd : PendingCommand) (r : HttpResponse Json) (now : String) (db : Db)
    → SameBooks (accept cmd r now db) db
unfolding accept accept_body discard_command
accept-SameBooks cmd r now db =
    subst (λ (x : Result (Unit {0}) × Db). SameBooks x.1 db)
      (sym (transaction_lem (accept_body cmd r now) db))
      (let kept =
          write_response-SameBooks cmd.kind (is_created409 cmd.kind r.status) r.body now db in
        record { sync_state = kept.sync_state; meta = kept.meta })

-- What a round hands on to the next one.
abbrev KeepsBooks : Db → Next → Type 0
KeepsBooks db (halt r) = Unit
KeepsBooks db (proceed r db') = SameBooks db' db

round-KeepsBooks :
    (cmd : PendingCommand) (result : DrainResult) (o : Option (HttpResponse Json)) (now : String)
    (db : Db) (v : Verdict)
    → KeepsBooks db (round cmd result o now db v)
unfolding refuse
round-KeepsBooks cmd result o now db offline = tt
round-KeepsBooks cmd result o now db unauthorized = tt
round-KeepsBooks cmd result o now db server_error = tt
round-KeepsBooks cmd result none now db accepted = tt
round-KeepsBooks cmd result none now db refused = tt
round-KeepsBooks cmd result (some r) now db accepted = accept-SameBooks cmd r now db
round-KeepsBooks cmd result (some r) now db refused = record { sync_state = refl; meta = refl }

settle-KeepsBooks :
    (cmd : PendingCommand) (result : DrainResult) (o : Option (HttpResponse Json)) (now : String)
    (db : Db)
    → KeepsBooks db (settle cmd result o now db)
settle-KeepsBooks cmd result o now db =
    rw (settle_lem cmd result o now db) (round-KeepsBooks cmd result o now db (verdict cmd.kind o))

module _ {W : Type 0} (http : Client W Json) where
  drain_loop-SameBooks :
      (cmds : List PendingCommand) (result : DrainResult) (w : W) (db : Db)
      → SameBooks (drain_loop http cmds result w db).2 db
  unfolding drain_loop
  drain_loop-SameBooks [] result w db = books_refl db
  drain_loop-SameBooks (cmd ∷ cmds) result w db =
      let (reply, w') = http (build_request cmd) w in
      let db1 = run_ops reply.meanwhile db in
      let same = run_ops-SameTables reply.meanwhile db in
      let local : SameBooks db1 db = record { sync_state = same.sync_state; meta = same.meta } in
      let x = settle cmd result reply.outcome reply.now db1 in
      elim (Next-cases x) [
        | inl (r, e) ↦ rw (e, drain_loop) local
        | inr (r, db', e) ↦
            let one = rw e at (settle-KeepsBooks cmd result reply.outcome reply.now db1) in
            let later = drain_loop-SameBooks cmds r w' db' in
            rw (e, drain_loop)
              (record {
                sync_state = later.sync_state ∙ one.sync_state ∙ same.sync_state;
                meta = later.meta ∙ one.meta ∙ same.meta;
              })
      ]

  -- A drain moves no cursor and writes nothing into the meta table, however it ends.
  pub drain_queue-SameBooks : (w : W) (db : Db) → SameBooks (drain_queue http w db).2 db
  unfolding drain_queue
  drain_queue-SameBooks w db =
      drain_loop-SameBooks (list_commands (some pending) db) nothing_sent w db
