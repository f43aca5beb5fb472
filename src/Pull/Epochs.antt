-- ===== src/Pull/Epochs.antt =====
-- The epoch, which the meta table keeps as text: a full refetch raises it, however it ends.
use open_troop.Prelude.{
  ℕ, suc, String, ◌≡◌, refl, ap, ◌∙◌, inl, inr, Bool, true, false, Option, some, get_or, List, [],
  ◌∷◌, str_eq,
}
use open_troop.Doc.{Json}
use open_troop.Doc.Decimal.{show, number, number-show}
use open_troop.Db.{sync_entities, SyncEntity, Db, Result, ok, err}
use open_troop.Schema.{get_meta, set_meta}
use open_troop.Mirror.{Epoch}
use open_troop.Mirror.Elsewhere.{apply_pull_page_keeps}
use open_troop.Commands.Drain.{Client}
use open_troop.Commands.Local.{run_ops-SameTables}
use open_troop.Pull.{
  epoch_key, current_epoch, epoch_text, start_cursor, stamp_pull, finish_refetch, pull_loop,
  pull_entity, pull_entities, pull_round, full_refetch,
}
use open_troop.Pull.Boundary.{Ends, pull_loop-Pulled}
use open_troop.Pull.Keeps.{Pulled-keeps}
use open_troop.Pull.Refetch.{Result-cases, sweep_all_keeps}

module _ {W : Type 0} (http : Client W Json) where
  pull_entity-meta :
      (fuel : ℕ) (e : SyncEntity) (epoch : Epoch) (from_zero : Bool) (w : W) (db : Db)
      → (pull_entity http fuel e epoch from_zero w db).2.meta ≡ db.meta
  unfolding pull_entity Ends
  pull_entity-meta fuel e epoch from_zero w db =
      let c = start_cursor from_zero e db in
      let x = pull_loop http fuel e epoch c w db in
      let (c', p) = pull_loop-Pulled http e epoch fuel c w db in
      Pulled-keeps http e epoch (λ a b. b.meta ≡ a.meta) (λ a. refl) (λ a b d h k. k ∙ h)
        (λ ops a. (run_ops-SameTables ops a).meta)
        (λ p now a. (apply_pull_page_keeps e p.items p.next epoch now a).1) fuel c c' w x.1 db x.2
        x.0 p

  pub pull_entities-meta :
      (fuel : ℕ) (es : List SyncEntity) (epoch : Epoch) (from_zero : Bool) (w : W) (db : Db)
      → (pull_entities http fuel es epoch from_zero w db).2.meta ≡ db.meta
  unfolding pull_entities
  pull_entities-meta fuel [] epoch from_zero w db = refl
  pull_entities-meta fuel (e ∷ es) epoch from_zero w db =
      let x = pull_entity http fuel e epoch from_zero w db in
      let one = pull_entity-meta fuel e epoch from_zero w db in
      elim (Result-cases x.0) [
        | inl fine ↦
            rw (fine, pull_entities) (pull_entities-meta fuel es epoch from_zero x.1 x.2 ∙ one)
        | inr (failure, bad) ↦ rw (bad, pull_entities) one
      ]

finish_refetch_epoch :
    {W : Type 0} (epoch : Epoch) (now : String) (x : Result (Unit {0}) × W × Db)
    → current_epoch (finish_refetch epoch now x).2 ≡ current_epoch x.2
unfolding finish_refetch current_epoch get_meta set_meta
finish_refetch_epoch epoch now (err failure, w, db) = refl
finish_refetch_epoch epoch now (ok _, w, db) =
    ap (λ (m : String → Option String). number (get_or (m epoch_key) "1"))
      (sweep_all_keeps sync_entities epoch 0 db).2

-- A full refetch leaves the next epoch in the meta table, however it ends and whatever the server and
-- the rest of the application do meanwhile.
pub current_epoch-full_refetch :
    {W : Type 0} (http : Client W Json) (n fuel : ℕ) (now : String) (w : W) (db : Db)
    → current_epoch db ≡ some n
    → current_epoch (full_refetch http fuel now w db).2 ≡ some (suc n)
unfolding full_refetch current_epoch get_meta epoch_text set_meta
current_epoch-full_refetch http n fuel now w db h = rw h (
    finish_refetch_epoch (some (suc n)) now _
    ∙ ap (λ (m : String → Option String). number (get_or (m epoch_key) "1"))
        (pull_entities-meta http fuel sync_entities (some (suc n)) true w
          (set_meta epoch_key (show (suc n)) db))
    ∙ number-show (suc n))

pub current_epoch_same : (a b : Db) → a.meta ≡ b.meta → current_epoch a ≡ current_epoch b
unfolding current_epoch get_meta
current_epoch_same a b h = ap (λ (m : String → Option String). number (get_or (m epoch_key) "1")) h

get_meta-stamp_pull :
    {W : Type 0} (key now : String) (x : Result (Unit {0}) × W × Db)
    → str_eq "last_pull_at" key ≡ false
    → get_meta key (stamp_pull now x).2 ≡ get_meta key x.2
unfolding stamp_pull get_meta set_meta
get_meta-stamp_pull key now (err failure, w, db) h = refl
get_meta-stamp_pull key now (ok _, w, db) h = rw h

-- A pull round writes no key of the meta table but its own.
pub get_meta-pull_round :
    {W : Type 0} (http : Client W Json) (key : String) (fuel : ℕ) (now : String) (w : W) (db : Db)
    → str_eq "last_pull_at" key ≡ false
    → get_meta key (pull_round http fuel now w db).2 ≡ get_meta key db
unfolding pull_round get_meta
get_meta-pull_round http key fuel now w db h =
    get_meta-stamp_pull key now
      (pull_entities http fuel sync_entities (current_epoch db) false w db) h
    ∙ ap (λ (m : String → Option String). m key)
        (pull_entities-meta http fuel sync_entities (current_epoch db) false w db)
