-- ===== src/SyncProvider/Isolation.antt =====
-- Which databases a step of the provider may touch.
use mathlib.Core.Bool.{false≢true}
use mathlib.Core.Option.{none-ne-some, some-injective}
use open_troop.Prelude.{
  ℕ, zero, suc, List, [], ◌∷◌, map, get_elem?, All, String, ◌≡◌, refl, sym, ap, ◌∙◌, subst, inl,
  inr, true, false, ◌&&◌, Option, none, some, arith, str_eq, eq_iff, eq_refl, ◌==◌, Bool-cases,
  if-holds,
}
use open_troop.Db.{CommandKind, CommandPayload, PendingCommand, Db, Result, ok, err}
use open_troop.Commands.{enqueue_command, discard_command}
use open_troop.Schema.{set_meta}
use open_troop.Engine.{SyncOutcome}
use open_troop.SyncProvider.{
  write_db, bump_version, begin_sync, start_for, start_sync, refresh_snapshot, report_outcome,
  finish_for, finish_sync, after_enqueue, enqueue_for, enqueue_local, discard_for, discard_local,
  opened, stays_open, keep_handle, select_tenant, is_handle, is_open, selects, triggers, writes,
  finishes, throws, enqueues, discards, bumps, Promise, Provider, Step,
}
use open_troop.SyncProvider.Reachable.{Reachable-IsProvider, Reachable}
use open_troop.SyncProvider.Invariant.{IsProvider, HoldsOpen}

-- What holds of every promise holds of the one at an index.
held_at :
    (handle : Option String) (i : ℕ) (p : Promise) (ps : List Promise)
    → get_elem? ps i ≡ some p
    → All (HoldsOpen handle) ps
    → HoldsOpen handle p
held_at handle i p [] there h = absurd (none-ne-some p there)
held_at handle zero p (q ∷ ps) there (held, h) =
    subst (HoldsOpen handle) (some-injective q p there) held
held_at handle (suc i) p (q ∷ ps) there (held, h) = held_at handle i p ps there h

module _ (u : String) where
  -- The database of `u` is as it was.
  abbrev pub Keeps : Provider → Provider → Type 0
  Keeps s s' = s'.dbs u ≡ s.dbs u

  write_db-Keeps :
      (t : String) (db : Db) (s : Provider) → str_eq t u ≡ false → Keeps s (write_db t db s)
  write_db-Keeps t db s apart = rw apart refl

  is_open-apart :
      (t : String) (s : Provider) → is_open t s ≡ true → is_open u s ≡ false → str_eq t u ≡ false
  is_open-apart t s ready shut = elim (Bool-cases (str_eq t u)) [
    | inl same ↦
        absurd (false≢true (sym shut ∙ sym (ap (λ v. is_open v s) ((eq_iff t u).0 same)) ∙ ready))
    | inr apart ↦ apart
  ]

  start_for-Keeps : (m : Option String) (s : Provider) → Keeps s (start_for m s)
  start_for-Keeps none s = refl
  start_for-Keeps (some t) s =
      if-holds (Keeps s) s.in_flight s (begin_sync t s) (λ busy. refl) (λ free. refl)

  start_sync-Keeps : (s : Provider) → Keeps s (start_sync s)
  unfolding start_sync
  start_sync-Keeps s = start_for-Keeps s.active s

  refresh_snapshot-Keeps :
      (p : Promise) (o : SyncOutcome) (session : Option (ℕ × String)) (s : Provider)
      → HoldsOpen s.handle p
      → is_open u s ≡ false
      → Keeps s (refresh_snapshot p o session s)
  unfolding refresh_snapshot
  refresh_snapshot-Keeps p o none s held shut = refl
  refresh_snapshot-Keeps p o (some (status, body)) s held shut =
      if-holds (Keeps s) (o.pulled && status == 200 && p.live) _ s
        (λ written.
          write_db-Keeps p.tenant (set_meta "session_snapshot" body (s.dbs p.tenant)) s
            (is_open-apart p.tenant s (held (ground (arith, written))) shut))
        (λ kept. refl)

  report_outcome-Keeps :
      (p : Promise) (o : SyncOutcome) (s : Provider) → Keeps s (report_outcome p o s)
  unfolding report_outcome
  report_outcome-Keeps p o s = if-holds (Keeps s) p.live _ _ (λ listed. refl) (λ thrown. refl)

  finish_for-Keeps :
      (m : Option Promise) (i : ℕ) (o : SyncOutcome) (session : Option (ℕ × String)) (s : Provider)
      → get_elem? s.running i ≡ m
      → All (HoldsOpen s.handle) s.running
      → is_open u s ≡ false
      → Keeps s (finish_for m i o session s)
  finish_for-Keeps none i o session s there held shut = refl
  finish_for-Keeps (some p) i o session s there held shut =
      report_outcome-Keeps p o (refresh_snapshot p o session s)
      ∙ refresh_snapshot-Keeps p o session s (held_at s.handle i p s.running there held) shut

  after_enqueue-Keeps :
      (t : String) (r : Result PendingCommand × Db) (s : Provider)
      → str_eq t u ≡ false
      → Keeps s (after_enqueue t r s)
  after_enqueue-Keeps t (ok c, db) s apart =
      start_sync-Keeps (bump_version (write_db t db s)) ∙ write_db-Keeps t db s apart
  after_enqueue-Keeps t (err failure, db) s apart = write_db-Keeps t db s apart

  active_apart :
      (t : String) (s : Provider)
      → opened (some t) s.handle ≡ s.handle
      → is_open u s ≡ false
      → str_eq t u ≡ false
  active_apart t s here shut =
      is_open-apart t s (subst (λ o. is_handle t o ≡ true) here (eq_refl t)) shut

  enqueue_for-Keeps :
      (m : Option String) (id now : String) (kind : CommandKind) (payload : CommandPayload)
      (s : Provider)
      → opened m s.handle ≡ s.handle
      → is_open u s ≡ false
      → Keeps s (enqueue_for m id now kind payload s)
  enqueue_for-Keeps none id now kind payload s here shut = refl
  enqueue_for-Keeps (some t) id now kind payload s here shut =
      after_enqueue-Keeps t (enqueue_command id now kind payload (s.dbs t)) s
        (active_apart t s here shut)

  discard_for-Keeps :
      (m : Option String) (id : String) (s : Provider)
      → opened m s.handle ≡ s.handle
      → is_open u s ≡ false
      → Keeps s (discard_for m id s)
  discard_for-Keeps none id s here shut = refl
  discard_for-Keeps (some t) id s here shut =
      write_db-Keeps t (discard_command id (s.dbs t)) s (active_apart t s here shut)

  step-Keeps : (s s' : Provider) → Step s s' → IsProvider s → is_open u s ≡ false → Keeps s s'
  unfolding select_tenant finish_sync enqueue_local discard_local
  step-Keeps s s' (selects m) h shut = start_sync-Keeps (record s {
    active = m;
    handle = opened m s.handle;
    running = map (keep_handle (stays_open m s.handle)) s.running;
  })
  step-Keeps s s' triggers h shut = start_sync-Keeps s
  step-Keeps s s' (writes i p db running ready) h shut =
      write_db-Keeps p.tenant db s
        (is_open-apart p.tenant s (held_at s.handle i p s.running running h.promise ready) shut)
  step-Keeps s s' (finishes i o session) h shut =
      finish_for-Keeps (get_elem? s.running i) i o session s refl h.promise shut
  step-Keeps s s' (throws i p running) h shut = refl
  step-Keeps s s' (enqueues id now kind payload) h shut =
      enqueue_for-Keeps s.active id now kind payload s h.handle shut
  step-Keeps s s' (discards id) h shut = discard_for-Keeps s.active id s h.handle shut
  step-Keeps s s' bumps h shut = refl

  -- From a state that the provider reaches, no step, whether a screen's, a listener's, a switch of the
  -- tenant or a sync still running for another tenant, changes a database that is not open.
  pub step_keeps_closed :
      (dbs : String → Db) (s s' : Provider)
      → Reachable dbs s
      → Step s s'
      → is_open u s ≡ false
      → s'.dbs u ≡ s.dbs u
  step_keeps_closed dbs s s' before step shut =
      step-Keeps s s' step (Reachable-IsProvider dbs s before) shut
