-- ===== src/SyncProvider/Invariant.antt =====
-- What holds of the provider, and that it is kept by what `sync` does.
use mathlib.Core.Bool.{false≢true}
use mathlib.Core.Option.{none-ne-some}
use open_troop.Prelude.{
  ℕ, zero, suc, ◌≤◌, String, ◌≡◌, refl, sym, ap, ◌∙◌, subst, Bool, true, false, ◌&&◌, Option, none,
  some, List, [], ◌∷◌, ◌++◌, length, get_elem?, All, arith, eq_refl, ◌==◌, if-holds,
}
use open_troop.Db.{PendingCommand, Db}
use open_troop.SyncProvider.{
  write_db, bump_version, begin_sync, start_for, start_sync, refresh_snapshot, report_outcome,
  end_sync, finish_for, opened, others, is_handle, Promise, Provider,
}
use open_troop.Schema.{set_meta}
use open_troop.Engine.{SyncOutcome}

-- Whether any promise is in flight
abbrev pub running_flag : List Promise → Bool
running_flag [] = false
running_flag (p ∷ ps) = true

-- A promise whose handle is not closed runs for the tenant of the open database.
abbrev pub HoldsOpen : Option String → Promise → Type 0
HoldsOpen handle p = p.live ≡ true → is_handle p.tenant handle ≡ true

-- The guard of `sync` and the flag that the screens see say whether a promise is in flight, there is at
-- most one, and the database of the active tenant is the one that is open.
pub record IsProvider (s : Provider) : Type 0 where
  pub flight : s.in_flight ≡ running_flag s.running
  pub single : length s.running ≤ 1
  pub syncing : s.is_syncing ≡ s.in_flight
  pub handle : opened s.active s.handle ≡ s.handle
  pub promise : All (HoldsOpen s.handle) s.running

abbrev running_of : Provider → List Promise
running_of s = s.running

no_promise : (ps : List Promise) → running_flag ps ≡ false → ps ≡ []
no_promise [] free = refl
no_promise (p ∷ ps) free = absurd (false≢true (sym free))

-- The one promise in flight is settled.
others_of_single :
    (i : ℕ) (p : Promise) (ps : List Promise)
    → length ps ≤ 1
    → get_elem? ps i ≡ some p
    → others i ps ≡ []
others_of_single i p [] one there = refl
others_of_single zero p (q ∷ []) one there = refl
others_of_single (suc i) p (q ∷ []) one there = absurd (none-ne-some p there)
others_of_single i p (q ∷ r ∷ ps) one there = absurd (omega arith)

pub start_for-IsProvider :
    (m : Option String) (s : Provider)
    → opened m s.handle ≡ s.handle
    → IsProvider s
    → IsProvider (start_for m s)
start_for-IsProvider none s here h = h
start_for-IsProvider (some t) s here h =
    if-holds IsProvider s.in_flight s (begin_sync t s) (λ busy. h)
      (λ free.
        let none_running : s.running ≡ [] = no_promise s.running (sym h.flight ∙ free) in
        let p : Promise = record { tenant = t; live = true } in
        subst (λ ps. IsProvider (record (begin_sync t s) { running = ps ++ p ∷ [] }))
          (sym none_running)
          (record {
            flight = refl;
            single = omega arith;
            syncing = refl;
            handle = h.handle;
            promise = ((λ l. subst (λ o. is_handle t o ≡ true) here (eq_refl t)), tt);
          }))

pub start_sync-IsProvider : (s : Provider) → IsProvider s → IsProvider (start_sync s)
unfolding start_sync
start_sync-IsProvider s h = start_for-IsProvider s.active s h.handle h

-- Nothing of this is about what the databases hold or the screens show.
pub aside-IsProvider :
    (dbs : String → Db) (version : ℕ) (outcome : Option SyncOutcome)
    (failures : List PendingCommand) (s : Provider)
    → IsProvider s
    → IsProvider (record s {
      dbs = dbs;
      version = version;
      last_outcome = outcome;
      failed_commands = failures;
    })
aside-IsProvider dbs version outcome failures s h = record {
  flight = h.flight;
  single = h.single;
  syncing = h.syncing;
  handle = h.handle;
  promise = h.promise;
}

pub write_db-IsProvider :
    (t : String) (db : Db) (s : Provider) → IsProvider s → IsProvider (write_db t db s)
write_db-IsProvider t db s h = aside-IsProvider _ _ _ _ s h

pub bump_version-IsProvider : (s : Provider) → IsProvider s → IsProvider (bump_version s)
bump_version-IsProvider s h = aside-IsProvider _ _ _ _ s h

pub end_sync-IsProvider :
    (i : ℕ) (p : Promise) (s : Provider)
    → get_elem? s.running i ≡ some p
    → IsProvider s
    → IsProvider (end_sync i s)
end_sync-IsProvider i p s there h =
    subst (λ ps. IsProvider (record s { in_flight = false; is_syncing = false; running = ps }))
      (sym (others_of_single i p s.running h.single there))
      (record {
        flight = refl;
        single = omega arith;
        syncing = refl;
        handle = h.handle;
        promise = tt;
      })

-- What a promise writes and reports when it is settled, before its `finally`
pub refresh_snapshot-IsProvider :
    (p : Promise) (o : SyncOutcome) (session : Option (ℕ × String)) (s : Provider)
    → IsProvider s
    → IsProvider (refresh_snapshot p o session s)
      × (running_of (refresh_snapshot p o session s) ≡ s.running)
unfolding refresh_snapshot
refresh_snapshot-IsProvider p o none s h = (h, refl)
refresh_snapshot-IsProvider p o (some (status, body)) s h =
    if-holds (λ t. IsProvider t × (running_of t ≡ s.running)) (o.pulled && status == 200 && p.live)
      _ s
      (λ written. (
        write_db-IsProvider p.tenant (set_meta "session_snapshot" body (s.dbs p.tenant)) s h,
        refl,
      ))
      (λ kept. (h, refl))

pub report_outcome-IsProvider :
    (p : Promise) (o : SyncOutcome) (s : Provider)
    → IsProvider s
    → IsProvider (report_outcome p o s) × (running_of (report_outcome p o s) ≡ s.running)
unfolding report_outcome
report_outcome-IsProvider p o s h =
    if-holds (λ t. IsProvider t × (running_of t ≡ s.running)) p.live _ _
      (λ listed. (aside-IsProvider _ _ _ _ s h, refl))
      (λ thrown. (aside-IsProvider _ _ _ _ s h, refl))

pub finish_for-IsProvider :
    (m : Option Promise) (i : ℕ) (o : SyncOutcome) (session : Option (ℕ × String)) (s : Provider)
    → get_elem? s.running i ≡ m
    → IsProvider s
    → IsProvider (finish_for m i o session s)
finish_for-IsProvider none i o session s there h = h
finish_for-IsProvider (some p) i o session s there h =
    let (h1, same1) = refresh_snapshot-IsProvider p o session s h in
    let (h2, same2) = report_outcome-IsProvider p o (refresh_snapshot p o session s) h1 in
    end_sync-IsProvider i p _ (ap (λ ps. get_elem? ps i) (same2 ∙ same1) ∙ there) h2
