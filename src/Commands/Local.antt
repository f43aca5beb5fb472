-- ===== src/Commands/Local.antt =====
-- What local operations on the outbox leave alone: the mirror, the cursors and the meta table.
use open_troop.Prelude.{
  String, ◌≡◌, refl, sym, ◌∙◌, subst, inl, inr, List, [], ◌∷◌, str_eq, Bool-cases, Option-cases,
  any,
}
use open_troop.Db.{CommandKind, CommandPayload, PendingCommand, Db, Result, ok, err}
use open_troop.Db.Transaction.{keep_or_revert, transaction_lem}
use open_troop.Commands.{coalesce, append_command, enqueue_body, enqueue_command, discard_command}
use open_troop.Commands.Enqueue.{waiting}
use open_troop.Commands.Drain.{run_op, run_ops, LocalOp, enqueue, discard}

pub record SameTables (a b : Db) : Type 0 where
  pub mirror : a.mirror ≡ b.mirror
  pub sync_state : a.sync_state ≡ b.sync_state
  pub meta : a.meta ≡ b.meta

pub SameTables-refl : (a : Db) → SameTables a a
SameTables-refl a = record { mirror = refl; sync_state = refl; meta = refl }

pub SameTables-trans : (a b c : Db) → SameTables a b → SameTables b c → SameTables a c
SameTables-trans a b c h k = record {
  mirror = h.mirror ∙ k.mirror;
  sync_state = h.sync_state ∙ k.sync_state;
  meta = h.meta ∙ k.meta;
}

keep_or_revert-SameTables :
    {A : Type 0} (s : Db) (rs : Result A × Db)
    → SameTables rs.1 s
    → SameTables (keep_or_revert s rs).1 s
keep_or_revert-SameTables s (ok a, t) h = h
keep_or_revert-SameTables s (err f, t) h = SameTables-refl s

append_command-SameTables : (c : PendingCommand) (db : Db) → SameTables (append_command c db).1 db
unfolding append_command
append_command-SameTables c db =
    elim (Bool-cases (any (λ d. str_eq d.id c.id) db.pending_commands)) [
      | inl taken ↦ rw taken (SameTables-refl db)
      | inr fresh ↦ rw fresh (record { mirror = refl; sync_state = refl; meta = refl })
    ]

coalesce-SameTables :
    (c : PendingCommand) (p : CommandPayload) (db : Db) → SameTables (coalesce c p db).1 db
unfolding coalesce
coalesce-SameTables c p db = record { mirror = refl; sync_state = refl; meta = refl }

enqueue_body-SameTables :
    (id now : String) (kind : CommandKind) (payload : CommandPayload) (db : Db)
    → SameTables (enqueue_body id now kind payload db).1 db
unfolding enqueue_body
enqueue_body-SameTables id now kind payload db = elim (Option-cases (waiting kind payload db)) [
  | inl absent ↦ rw (absent, enqueue_body) (append_command-SameTables _ db)
  | inr (c, found) ↦ rw (found, enqueue_body) (coalesce-SameTables c payload db)
]

run_op-SameTables : (op : LocalOp) (db : Db) → SameTables (run_op op db) db
unfolding run_op enqueue_command
run_op-SameTables (enqueue id now kind payload) db =
    subst (λ (rs : Result PendingCommand × Db). SameTables rs.1 db)
      (sym (transaction_lem (enqueue_body id now kind payload) db))
      (keep_or_revert-SameTables db (enqueue_body id now kind payload db)
        (enqueue_body-SameTables id now kind payload db))
run_op-SameTables (discard id) db =
    unfold discard_command in record { mirror = refl; sync_state = refl; meta = refl }

pub run_ops-SameTables : (ops : List LocalOp) (db : Db) → SameTables (run_ops ops db) db
unfolding run_ops
run_ops-SameTables [] db = SameTables-refl db
run_ops-SameTables (op ∷ ops) db =
    SameTables-trans _ _ _ (run_ops-SameTables ops (run_op op db)) (run_op-SameTables op db)
