-- ===== src/Pull/Keeps.antt =====
-- What a pull leaves as it is, in whichever way it ends.
use open_troop.Prelude.{ℕ, String, ◌≡◌, refl, sym, ap, ◌∙◌, subst, ◌≢◌, Bool, Option, some, List}
use open_troop.Db.{SyncEntity, MirrorRow, SyncCursor, SyncState, Db, Result}
use open_troop.Db.Rows.{HasDistinctIds}
use open_troop.Mirror.{Epoch, apply_pull_page}
use open_troop.Mirror.Elsewhere.{
  apply_pull_page_elsewhere, apply_pull_page_keeps, apply_pull_page-HasDistinctIds,
  apply_pull_page_every-HasDistinctIds,
}
use open_troop.Commands.Drain.{Client, run_ops, LocalOp}
use open_troop.Commands.Local.{run_ops-SameTables}
use open_troop.Pull.{pull_request, start_cursor, pull_loop, pull_entity, SyncPage}
use open_troop.Pull.Boundary.{
  arrived, Pulled, cut_off, refused, reverted, last_page, stalled, page, Ends, pull_loop-Pulled,
}
use open_troop.Doc.{Json}

module _ {W : Type 0} (http : Client W Json) (e : SyncEntity) (epoch : Epoch) where
  -- What the rounds do to a database, for a relation that they and the local operations keep.
  pub Pulled-keeps :
      (R : Db → Db → Type 0)
      → ((a : Db) → R a a)
      → ((a b c : Db) → R a b → R b c → R a c)
      → ((ops : List LocalOp) (a : Db) → R a (run_ops ops a))
      → ((p : SyncPage) (now : String) (a : Db)
          → R a (apply_pull_page e p.items p.next epoch now a).1)
      → (n : ℕ) (c c' : SyncCursor) (w w' : W) (db db' : Db) (result : Result (Unit {0}))
      → Pulled http e epoch n c w db result c' w' db'
      → R db db'
  Pulled-keeps R same chain local paged _ _ _ _ _ _ _ _ (cut_off c w db) = same db
  Pulled-keeps R same chain local paged _ _ _ _ _ _ _ _ (refused n c w db failure given) =
      local (http (pull_request e c) w).0.meanwhile db
  Pulled-keeps R same chain local paged _ _ _ _ _ _ _ _ (reverted n c w db p failure given thrown) =
      local (http (pull_request e c) w).0.meanwhile db
  Pulled-keeps R same chain local paged _ _ _ _ _ _ _ _ (last_page n c w db p given taken done) =
      chain db _ _ (local (http (pull_request e c) w).0.meanwhile db)
        (paged p (http (pull_request e c) w).0.now (arrived http e epoch c w db))
  Pulled-keeps R same chain local paged _ _ _ _ _ _ _ _
        (stalled n c w db p given taken more circle) =
      chain db _ _ (local (http (pull_request e c) w).0.meanwhile db)
        (paged p (http (pull_request e c) w).0.now (arrived http e epoch c w db))
  Pulled-keeps R same chain local paged _ _ _ _ _ _ _ _
        (page n c c' w w' db db' p result given taken more moved later) =
      chain db _ db'
        (chain db _ _ (local (http (pull_request e c) w).0.meanwhile db)
          (paged p (http (pull_request e c) w).0.now (arrived http e epoch c w db)))
        (Pulled-keeps R same chain local paged n p.next c' _ w' _ db' result later)

-- The pull of one stream, however it ends, leaves the mirror table and the cursor of every other
-- stream and the meta table as they were.
pub pull_entity_elsewhere :
    {W : Type 0} (http : Client W Json) (fuel : ℕ) (e f : SyncEntity) (epoch : Epoch)
    (from_zero : Bool) (w : W) (db : Db)
    → e ≢ f
    → ((pull_entity http fuel e epoch from_zero w db).2.mirror f ≡ db.mirror f)
      × ((pull_entity http fuel e epoch from_zero w db).2.sync_state f ≡ db.sync_state f)
      × ((pull_entity http fuel e epoch from_zero w db).2.meta ≡ db.meta)
unfolding pull_entity Ends
pull_entity_elsewhere http fuel e f epoch from_zero w db ne =
    let c = start_cursor from_zero e db in
    let x = pull_loop http fuel e epoch c w db in
    let (c', p) = pull_loop-Pulled http e epoch fuel c w db in
    Pulled-keeps http e epoch
      (λ a b. (b.mirror f ≡ a.mirror f) × (b.sync_state f ≡ a.sync_state f) × (b.meta ≡ a.meta))
      (λ a. (refl, refl, refl)) (λ a b d h k. (k.0 ∙ h.0, k.1 ∙ h.1, k.2 ∙ h.2))
      (λ ops a.
        let same = run_ops-SameTables ops a in
        (
          ap (λ (m : SyncEntity → List MirrorRow). m f) same.mirror,
          ap (λ (m : SyncEntity → Option SyncState). m f) same.sync_state,
          same.meta,
        ))
      (λ p now a.
        let there = apply_pull_page_elsewhere e f p.items p.next epoch now a ne in
        (there.0, there.1, (apply_pull_page_keeps e p.items p.next epoch now a).1))
      fuel c c' w x.1 db x.2 x.0 p

-- However the pull of a stream ends, each id stands once in every mirror table, if it did before.
pub pull_entity-HasDistinctIds :
    {W : Type 0} (http : Client W Json) (fuel : ℕ) (e f : SyncEntity) (n : ℕ) (from_zero : Bool)
    (w : W) (db : Db)
    → HasDistinctIds (db.mirror e)
    → HasDistinctIds (db.mirror f)
    → HasDistinctIds ((pull_entity http fuel e (some n) from_zero w db).2.mirror f)
unfolding pull_entity Ends
pull_entity-HasDistinctIds http fuel e f n from_zero w db he hf =
    let c = start_cursor from_zero e db in
    let x = pull_loop http fuel e (some n) c w db in
    let (c', p) = pull_loop-Pulled http e (some n) fuel c w db in
    (Pulled-keeps http e (some n)
      (λ a b.
        HasDistinctIds (a.mirror e) × HasDistinctIds (a.mirror f)
        → HasDistinctIds (b.mirror e) × HasDistinctIds (b.mirror f))
      (λ a h. h) (λ a b d h k i. k (h i))
      (λ ops a h.
        let same = sym (run_ops-SameTables ops a).mirror in
        (
          subst (λ (m : SyncEntity → List MirrorRow). HasDistinctIds (m e)) same h.0,
          subst (λ (m : SyncEntity → List MirrorRow). HasDistinctIds (m f)) same h.1,
        ))
      (λ p now a h. (
        apply_pull_page-HasDistinctIds e p.items p.next n now a h.0,
        apply_pull_page_every-HasDistinctIds e f p.items p.next n now a h.0 h.1,
      ))
      fuel c c' w x.1 db x.2 x.0 p (he, hf)).1
