-- ===== src/Examples/SyncProviders.antt =====
-- The sync provider on two tenants' databases, and the announcement preference.
use open_troop.Prelude.{String, ◌≡◌, refl, true, false, none, some, [], ◌∷◌}
use open_troop.Db.{participant_update, Db}
use open_troop.Engine.{SyncOutcome}
use open_troop.Commands.Drain.{nothing_sent}
use open_troop.Examples.Data.{going, two_events}
use open_troop.Preferences.{every, Preferences}
use open_troop.Preferences.Cycling.{IsIdle, turns, run_taps, run_taps_lem}
use open_troop.SyncProvider.{
  start_sync, finish_sync, enqueue_local, select_tenant, mounted, Provider, selects, triggers,
  enqueues,
}
use open_troop.SyncProvider.Reachable.{Reachable-IsProvider, Reachable, starts, steps}
use open_troop.SyncProvider.Invariant.{IsProvider}
use open_troop.SyncProvider.Isolation.{step_keeps_closed}
use open_troop.SyncProvider.Switching.{switch_during_sync, IsSkipped}

abbrev devices : String → Db
devices t = two_events

abbrev outcome : SyncOutcome
outcome = record { drain = nothing_sent; pulled = true; error = none }

abbrev at_t1 : Provider
at_t1 = record (mounted devices) { active = some "t1"; handle = some "t1" }

switch_during_sync_example :
    IsSkipped "t2" at_t1
      (finish_sync 0 outcome (some (200, "{}")) (select_tenant (some "t2") (start_sync at_t1)))
switch_during_sync_example =
    switch_during_sync "t1" "t2" at_t1 outcome (some (200, "{}")) refl refl refl refl refl

-- A state that is reached: a tenant was selected, and its first sync began.
first_selected : Reachable devices (select_tenant (some "t1") (mounted devices))
first_selected = steps (mounted devices) _ starts (selects (some "t1"))

-- A listener asks for a sync while that one is in flight.
asked_again : Reachable devices (start_sync (select_tenant (some "t1") (mounted devices)))
asked_again = steps (select_tenant (some "t1") (mounted devices)) _ first_selected triggers

step_keeps_closed_example :
    (enqueue_local "c9" "now" participant_update going
        (select_tenant (some "t1") (mounted devices))).dbs
      "t2"
    ≡ (select_tenant (some "t1") (mounted devices)).dbs "t2"
unfolding select_tenant start_sync
step_keeps_closed_example =
    step_keeps_closed "t2" devices (select_tenant (some "t1") (mounted devices)) _ first_selected
      (enqueues "c9" "now" participant_update going) refl

Reachable-IsProvider_example : IsProvider (start_sync (select_tenant (some "t1") (mounted devices)))
Reachable-IsProvider_example = Reachable-IsProvider devices _ asked_again

-- A tap with two more while it is awaited, and a tap whose request fails.
abbrev preferences : Preferences
preferences = record {
  tenant = some "t1";
  mode = some every;
  busy = false;
  error = none;
  loads = [];
  saves = [];
}

run_taps_lem_example :
    IsIdle
      (turns ((2, some 200) ∷ (0, none) ∷ []) every)
      (run_taps ((2, some 200) ∷ (0, none) ∷ []) preferences)
run_taps_lem_example =
    run_taps_lem ((2, some 200) ∷ (0, none) ∷ []) every preferences (refl, refl, refl, refl)
