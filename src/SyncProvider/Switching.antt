-- ===== src/SyncProvider/Switching.antt =====
-- A switch of the tenant while a sync is in flight.
use open_troop.Prelude.{
  ℕ, ◌+◌, List, [], ◌∷◌, ◌++◌, String, ◌≡◌, refl, sym, ap, ◌∙◌, subst, Bool, true, false, ◌&&◌,
  Option, none, some, arith, str_eq, ◌==◌, if◌then◌else◌,
}
use open_troop.Db.{failed}
use open_troop.SyncProvider.{
  write_db, begin_sync, start_for, start_sync, refresh_snapshot, report_outcome, end_sync,
  finish_sync, stays_open, select_tenant, Promise, Provider,
}
use open_troop.Engine.{SyncOutcome}
use open_troop.Commands.{list_commands}
use open_troop.Schema.{set_meta}

start_sync-begins :
    (t : String) (s : Provider)
    → s.active ≡ some t
    → s.in_flight ≡ false
    → start_sync s ≡ begin_sync t s
unfolding start_sync
start_sync-begins t s on free =
    ap (λ m. start_for m s) on ∙ ap (λ b. if b then s else begin_sync t s) free

-- What is left when the sync of the old tenant ends.
pub record IsSkipped (u : String) (s d : Provider) : Type 0 where
  pub active : d.active ≡ some u
  pub idle : d.running ≡ []
  pub unsynced : d.dbs u ≡ s.dbs u
  pub failures : d.failed_commands ≡ s.failed_commands
  pub version : d.version ≡ s.version

refresh_snapshot-shut :
    (p : Promise) (o : SyncOutcome) (session : Option (ℕ × String)) (s : Provider)
    → p.live ≡ false
    → refresh_snapshot p o session s ≡ s
unfolding refresh_snapshot
refresh_snapshot-shut p o none s shut = refl
refresh_snapshot-shut p o (some (status, body)) s shut =
    ap
      (λ b.
        if b then write_db p.tenant (set_meta "session_snapshot" body (s.dbs p.tenant)) s else s)
      {x = o.pulled && status == 200 && p.live} {y = false} (ground (arith, shut))

report_outcome-shut :
    (p : Promise) (o : SyncOutcome) (s : Provider)
    → p.live ≡ false
    → report_outcome p o s ≡ record s { last_outcome = some o }
unfolding report_outcome
report_outcome-shut p o s shut =
    ap
      (λ b.
        if b
        then record s {
          last_outcome = some o;
          failed_commands = list_commands (some failed) (s.dbs p.tenant);
          version = s.version + 1;
        }
        else record s { last_outcome = some o })
      shut

-- The promise for the old tenant, whose handle is closed by the switch unless `live`
abbrev left : String → Bool → Promise
left t live = record { tenant = t; live = live }

-- The state after the switch: the database of the old tenant is closed and its promise runs on.
abbrev switched : String → String → Bool → Provider → Provider
switched t u live s = record (begin_sync t s) {
  active = some u;
  handle = some u;
  running = left t live ∷ [];
}

-- Where a sync of tenant `t`, begun while none was running, is in flight when `u` becomes active, the
-- sync that the switch asks for does not start, and when the one in flight ends, with whatever outcome,
-- none is running: the database of `u` is as it was, and the screens still have the version and the
-- failed commands from before.
pub switch_during_sync :
    (t u : String) (s : Provider) (o : SyncOutcome) (session : Option (ℕ × String))
    → s.active ≡ some t
    → s.handle ≡ some t
    → s.in_flight ≡ false
    → s.running ≡ []
    → str_eq t u ≡ false
    → IsSkipped u s (finish_sync 0 o session (select_tenant (some u) (start_sync s)))
unfolding finish_sync select_tenant start_sync
switch_during_sync t u s o session on held free idle apart =
    let p = left t false in
    let after : Provider = end_sync 0 (record (switched t u false s) { last_outcome = some o }) in
    let skipped : IsSkipped u s after = record {
      active = refl;
      idle = refl;
      unsynced = refl;
      failures = refl;
      version = refl;
    } in
    let shut : stays_open (some u) s.handle ≡ false = ap (stays_open (some u)) held ∙ apart in
    let begun : List Promise → Provider =
      λ ps. record (begin_sync t s) { running = ps ++ left t true ∷ [] } in
    let run =
      ap (λ r. finish_sync 0 o session (select_tenant (some u) r)) (start_sync-begins t s on free)
      ∙ ap (λ ps. finish_sync 0 o session (select_tenant (some u) (begun ps))) idle
      ∙ ap (λ l. finish_sync 0 o session (switched t u l s)) shut
      ∙ ap (λ r. end_sync 0 (report_outcome p o r))
          (refresh_snapshot-shut p o session (switched t u false s) refl)
      ∙ ap (end_sync 0) (report_outcome-shut p o (switched t u false s) refl) in
    subst (IsSkipped u s) (sym run) skipped
