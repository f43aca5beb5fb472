-- ===== src/Db/Transaction.antt =====
-- `runInTransaction` of apps/mobile/src/data/db.ts over a driver that has `BEGIN`, `COMMIT` and
-- `ROLLBACK`, as expo-db.ts and node-db.ts bind it.
use open_troop.Prelude.{◌≡◌, Option, none, some, arith}
use open_troop.Db.{nested_transaction, Result, ok, err}

module _ {ℓ} (S : Type ℓ) where
  -- A connection: what it reads, and what `ROLLBACK` goes back to while a transaction is open.
  pub record Connection : Type ℓ where
    pub current : S
    pub saved : Option S

module _ {ℓ} {S : Type ℓ} where
  -- Two statements that change no table, and the one that goes back. SQLite refuses `BEGIN` inside
  -- a transaction.
  begin : Connection S → Result (Unit {0}) × Connection S
  begin c = elim c.saved [
    | none ↦ (ok tt, record c { saved = some c.current })
    | some s ↦ (err nested_transaction, c)
  ]

  commit : Connection S → Connection S
  commit c = record c { saved = none }

  rollback : Connection S → Connection S
  rollback c = elim c.saved [ none ↦ c | some s ↦ record { current = s; saved = none } ]

module _ {ℓ κ} {S : Type ℓ} {A : Type κ} where
  -- What the body throws is thrown again after `ROLLBACK`.
  finish : Result A → Connection S → Result A × Connection S
  unfolding commit rollback
  finish (ok a) c = (ok a, commit c)
  finish (err e) c = (err e, rollback c)

  started : (S → Result A × S) → Result (Unit {0}) × Connection S → Result A × Connection S
  unfolding finish
  started fn (ok _, c) = let (r, s) = fn c.current in finish r (record c { current = s })
  started fn (err e, c) = (err e, c)

  unfoldable pub run_in_transaction : (S → Result A × S) → Connection S → Result A × Connection S
  unfolding begin started
  run_in_transaction fn c = started fn (begin c)

  -- `db.transaction(fn)` outside any other transaction, as every call of the data layer is.
  unfoldable pub transaction : (S → Result A × S) → S → Result A × S
  unfolding run_in_transaction
  transaction fn s =
      let (r, c) = run_in_transaction fn (record { current = s; saved = none }) in (r, c.current)

  abbrev pub keep_or_revert : S → Result A × S → Result A × S
  keep_or_revert s (ok a, t) = (ok a, t)
  keep_or_revert s (err e, t) = (err e, s)

  -- A body that returns is committed; of one that throws nothing stays.
  pub transaction_lem : (fn : S → Result A × S) (s : S) → transaction fn s ≡ keep_or_revert s (fn s)
  unfolding transaction
  transaction_lem fn s = ground arith
