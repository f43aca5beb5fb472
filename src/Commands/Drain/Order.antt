-- ===== src/Commands/Drain/Order.antt =====
-- The drain is strictly first in, first out: what reaches the server.
use open_troop.Prelude.{
  ℕ, suc, ◌+◌, ◌≡◌, refl, sym, ap, ◌∙◌, inl, inr, false, some, List, [], ◌∷◌, ◌++◌, map,
  append_assoc, append-nil, arith, if◌then◌else◌, take,
}
use open_troop.Doc.{Json}
use open_troop.Db.{pending, PendingCommand, Db}
use open_troop.Commands.{build_request, list_commands, Request}
use open_troop.Commands.Drain.{
  Client, run_ops, nothing_sent, settle, drain_loop, drain_queue, DrainResult,
}
use open_troop.Commands.Drain.Steps.{Next-cases, settle-halt, settle-proceed}

-- A client that writes down what it is asked.
abbrev pub recorded : {W B : Type 0} → Client W B → Client (W × List Request) B
recorded http request (w, log) =
    let (reply, w') = http request w in (reply, (w', log ++ request ∷ []))

-- The number of requests that a drain has made: one for each command that it settled, and the one
-- that ended it.
abbrev pub attempted : DrainResult → ℕ
attempted r = r.sent + r.failed + (if r.halted then 1 else 0)

module _ {W : Type 0} (http : Client W Json) where
  -- `n` is the number of requests of the rest of the loop.
  pub record Sends (cmds : List PendingCommand) (start : DrainResult) (log : List Request)
      (end : DrainResult × (W × List Request) × Db) : Type 0 where
    pub n : ℕ
    pub logged : end.1.1 ≡ log ++ map build_request (take n cmds)
    pub counted : attempted end.0 ≡ start.sent + start.failed + n

  drain_loop-Sends :
      (cmds : List PendingCommand) (result : DrainResult) (w : W) (log : List Request) (db : Db)
      → result.halted ≡ false
      → Sends cmds result log (drain_loop (recorded http) cmds result (w, log) db)
  unfolding drain_loop
  drain_loop-Sends [] result w log db running = record {
    n = 0;
    logged = sym (append-nil log);
    counted = rw running (omega arith);
  }
  drain_loop-Sends (cmd ∷ cmds) result w log db running =
      let request = build_request cmd in
      let reply = (http request w).0 in
      let w' = (http request w).1 in
      let db' = run_ops reply.meanwhile db in
      elim (Next-cases (settle cmd result reply.outcome reply.now db')) [
        | inl (r, e) ↦
            rw (e, drain_loop)
              (record {
                n = 1;
                logged = refl;
                counted =
                    let c = settle-halt cmd result r reply.outcome reply.now db' e in
                    rw c.2 (omega (arith, c.0, c.1));
              })
        | inr (r, db'', e) ↦
            let p = settle-proceed cmd result r reply.outcome reply.now db' db'' e in
            let ih = drain_loop-Sends cmds r w' (log ++ request ∷ []) db'' (p.1 ∙ running) in
            rw (e, drain_loop)
              (record {
                n = suc ih.n;
                logged = ih.logged ∙ append_assoc log (request ∷ []) _;
                counted = omega (arith, ih.counted, p.0);
              })
      ]

-- The requests of a drain are those of the pending commands, from the oldest on, in order, each once
-- and as the queue held them when the drain began: as many as the result counts.
pub drain_queue-fifo :
    {W : Type 0} (http : Client W Json) (w : W) (db : Db)
    → (drain_queue (recorded http) (w, []) db).1.1
      ≡ map build_request (
          take
            (attempted (drain_queue (recorded http) (w, []) db).0)
            (list_commands (some pending) db))
unfolding drain_queue
drain_queue-fifo http w db =
    let s = drain_loop-Sends http (list_commands (some pending) db) nothing_sent w [] db refl in
    s.logged
    ∙ ap (λ n. map build_request (take n (list_commands (some pending) db)))
        (omega (arith, s.counted))
