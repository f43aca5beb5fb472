-- ===== src/Commands/Drain/Accounts.antt =====
-- What a drain leaves of the queue when nothing else touches it meanwhile.
use open_troop.Prelude.{
  ℕ, suc, ◌+◌, String, ◌≡◌, refl, sym, ap, ◌∙◌, subst, ◌⊎◌, inl, inr, true, false, Option, none,
  some, List, [], ◌∷◌, arith, Bool-cases, length, drop,
}
use open_troop.Doc.{Json}
use open_troop.Db.{pending, PendingCommand, Db}
use open_troop.Commands.{build_request, list_commands, Request}
use open_troop.Commands.Queue.{IsQueue, list_commands_lem}
use open_troop.Commands.Drain.{
  Client, run_ops, error_detail, nothing_sent, refuse, proceed, settle, drain_loop, drain_queue,
  HttpResponse, DrainResult,
}
use open_troop.Commands.Drain.Steps.{
  verdict, round, settle_lem, Next-cases, settle-halt, settle-proceed, Verdict, offline,
  unauthorized, server_error, accepted, refused,
}
use open_troop.Commands.Drain.Removal.{
  pending_of, pending_of-discard, pending_of-fail, failed_count, failed_count-fail,
  failed_count-discard, queue-accept, refuse-IsQueue, accept-IsQueue,
}

-- No other task changes the outbox while an answer is awaited.
abbrev pub IsQuiet : {W B : Type 0} → Client W B → Type 0
IsQuiet {W} http = (request : Request) (w : W) → (http request w).0.meanwhile ≡ []

-- What a round that goes on leaves: the other pending commands, in a well-formed queue, and one
-- more failed command for each failure that the result counts.
pub record Settled (cmd : PendingCommand) (cmds : List PendingCommand) (result r : DrainResult)
    (db db' : Db) : Type 0 where
  pub queue : IsQueue db'.pending_commands
  pub rest : pending_of db'.pending_commands ≡ cmds
  pub failures :
      failed_count db'.pending_commands + result.failed
      ≡ failed_count db.pending_commands + r.failed

proceed_injective :
    (r r' : DrainResult) (db db' : Db) → proceed r db ≡ proceed r' db' → (r ≡ r') × (db ≡ db')
proceed_injective r r' db db' e = (cc, cc)

round-Settled :
    (cmd : PendingCommand) (cmds : List PendingCommand) (result r : DrainResult)
    (o : Option (HttpResponse Json)) (now : String) (db db' : Db) (v : Verdict)
    → IsQueue db.pending_commands
    → pending_of db.pending_commands ≡ cmd ∷ cmds
    → round cmd result o now db v ≡ proceed r db'
    → Settled cmd cmds result r db db'
unfolding refuse
round-Settled cmd cmds result r (some a) now db db' accepted h e s =
    let (same, moved) = proceed_injective _ r _ db' s in
    subst (λ x. Settled cmd cmds result x db db') same
      (subst (λ d. Settled cmd cmds result (record result { sent = result.sent + 1 }) db d) moved
        (record {
          queue = accept-IsQueue cmd a now db h;
          rest =
              ap pending_of (queue-accept cmd a now db)
              ∙ pending_of-discard cmd cmds db.pending_commands h e;
          failures =
              ap (λ q. failed_count q + result.failed) (queue-accept cmd a now db)
              ∙ ap (λ n. n + result.failed) (failed_count-discard cmd cmds db.pending_commands h e);
        }))
round-Settled cmd cmds result r (some a) now db db' refused h e s =
    let (same, moved) = proceed_injective _ r _ db' s in
    let reason = error_detail a.body a.status in
    subst (λ x. Settled cmd cmds result x db db') same
      (subst (λ d. Settled cmd cmds result (record result { failed = result.failed + 1 }) db d)
        moved
        (record {
          queue = refuse-IsQueue cmd a db h;
          rest = pending_of-fail cmd reason cmds db.pending_commands h e;
          failures = omega (arith, failed_count-fail cmd reason cmds db.pending_commands h e);
        }))
round-Settled cmd cmds result r none now db db' accepted h e s = cc
round-Settled cmd cmds result r none now db db' refused h e s = cc
round-Settled cmd cmds result r o now db db' offline h e s = cc
round-Settled cmd cmds result r o now db db' unauthorized h e s = cc
round-Settled cmd cmds result r o now db db' server_error h e s = cc

settle-Settled :
    (cmd : PendingCommand) (cmds : List PendingCommand) (result r : DrainResult)
    (o : Option (HttpResponse Json)) (now : String) (db db' : Db)
    → IsQueue db.pending_commands
    → pending_of db.pending_commands ≡ cmd ∷ cmds
    → settle cmd result o now db ≡ proceed r db'
    → Settled cmd cmds result r db db'
settle-Settled cmd cmds result r o now db db' h e s =
    round-Settled cmd cmds result r o now db db' (verdict cmd.kind o) h e
      (sym (settle_lem cmd result o now db) ∙ s)

-- What the loop leaves, `n` being the number of commands that it settled.
pub record Drained (cmds : List PendingCommand) (start : DrainResult) (db : Db) (r : DrainResult)
    (db' : Db) : Type 0 where
  pub n : ℕ
  pub settled : r.sent + r.failed ≡ start.sent + start.failed + n
  pub left : pending_of db'.pending_commands ≡ drop n cmds
  pub complete : r.halted ≡ false → n ≡ length cmds
  pub failures :
      failed_count db'.pending_commands + start.failed ≡ failed_count db.pending_commands + r.failed
  pub queue : IsQueue db'.pending_commands

module _ {W : Type 0} (http : Client W Json) (quiet : IsQuiet http) where
  drain_loop-Drained :
      (cmds : List PendingCommand) (result : DrainResult) (w : W) (db : Db)
      → IsQueue db.pending_commands
      → pending_of db.pending_commands ≡ cmds
      → Drained cmds result db
          (drain_loop http cmds result w db).0
          (drain_loop http cmds result w db).2
  unfolding drain_loop run_ops
  drain_loop-Drained [] result w db h e = record {
    n = 0;
    settled = omega arith;
    left = e;
    complete = λ _. refl;
    failures = refl;
    queue = h;
  }
  drain_loop-Drained (cmd ∷ cmds) result w db h e =
      let reply = (http (build_request cmd) w).0 in
      let w' = (http (build_request cmd) w).1 in
      let db1 = run_ops reply.meanwhile db in
      let same : db1 ≡ db = ap (λ ops. run_ops ops db) (quiet (build_request cmd) w) in
      let h1 : IsQueue db1.pending_commands =
        subst (λ (d : Db). IsQueue d.pending_commands) (sym same) h in
      let e1 : pending_of db1.pending_commands ≡ cmd ∷ cmds =
        subst (λ (d : Db). pending_of d.pending_commands ≡ cmd ∷ cmds) (sym same) e in
      let end = drain_loop http (cmd ∷ cmds) result w db in
      subst (λ d. Drained (cmd ∷ cmds) result d end.0 end.2) same
        (elim (Next-cases (settle cmd result reply.outcome reply.now db1)) [
          | inl (r, s) ↦
              let c = settle-halt cmd result r reply.outcome reply.now db1 s in
              rw (s, drain_loop)
                (record {
                  n = 0;
                  settled = omega (arith, c.0, c.1);
                  left = e1;
                  complete = λ done. cc (c.2, done);
                  failures = omega (arith, c.1);
                  queue = h1;
                })
          | inr (r, db', s) ↦
              let p = settle-proceed cmd result r reply.outcome reply.now db1 db' s in
              let d = settle-Settled cmd cmds result r reply.outcome reply.now db1 db' h1 e1 s in
              let ih = drain_loop-Drained cmds r w' db' d.queue d.rest in
              rw (s, drain_loop)
                (record {
                  n = suc ih.n;
                  settled = omega (arith, ih.settled, p.0);
                  left = ih.left;
                  complete = λ done. ap suc (ih.complete done);
                  failures = omega (arith, ih.failures, d.failures);
                  queue = ih.queue;
                })
        ])

-- From a well-formed queue, with no other task meanwhile: the commands that a drain settled, and no
-- others, have left the pending queue, whose order stays; a drain that is not halted has settled them
-- all; each command that it counts as failed is one more failed command; the queue stays well-formed.
pub drain_queue_accounts :
    {W : Type 0} (http : Client W Json) (w : W) (db : Db)
    → IsQuiet http
    → IsQueue db.pending_commands
    → (list_commands (some pending) (drain_queue http w db).2
        ≡ drop
            ((drain_queue http w db).0.sent + (drain_queue http w db).0.failed)
            (list_commands (some pending) db))
      × (((drain_queue http w db).0.halted ≡ true)
          ⊎ ((drain_queue http w db).0.sent + (drain_queue http w db).0.failed
              ≡ length (list_commands (some pending) db)))
      × (failed_count (drain_queue http w db).2.pending_commands
          ≡ failed_count db.pending_commands + (drain_queue http w db).0.failed)
      × IsQueue (drain_queue http w db).2.pending_commands
unfolding drain_queue
drain_queue_accounts http w db quiet h =
    let cmds = list_commands (some pending) db in
    let listed = list_commands_lem (some pending) db h in
    let d = drain_loop-Drained http quiet cmds nothing_sent w db h (sym listed) in
    let n_eq : d.n
        ≡ (drain_loop http cmds nothing_sent w db).0.sent
          + (drain_loop http cmds nothing_sent w db).0.failed =
      omega (arith, d.settled) in
    (
      list_commands_lem (some pending) (drain_loop http cmds nothing_sent w db).2 d.queue
          ∙ d.left
          ∙ ap (λ n. drop n cmds) n_eq,
      elim (Bool-cases (drain_loop http cmds nothing_sent w db).0.halted) [
        | inl halted ↦ inl halted
        | inr done ↦ inr (sym n_eq ∙ d.complete done)
      ],
      omega (arith, d.failures),
      d.queue,
    )
