-- ===== src/SyncProvider/Reachable.antt =====
-- The states that the provider reaches.
use mathlib.Core.Bool.{false≢true}
use open_troop.Prelude.{
  suc, ◌≤◌, String, ◌≡◌, refl, sym, ap, ◌∙◌, subst, Bool, true, ◌&&◌, Option, none, some, List, [],
  ◌∷◌, map, length, get_elem?, All, arith, str_eq, eq_iff,
}
use open_troop.Db.{CommandKind, CommandPayload, PendingCommand, Db, Result, ok, err}
use open_troop.SyncProvider.{
  finish_sync, after_enqueue, enqueue_for, enqueue_local, discard_for, discard_local, opened,
  stays_open, keep_handle, select_tenant, is_handle, mounted, selects, triggers, writes, finishes,
  throws, enqueues, discards, bumps, Promise, Provider, Step,
}
use open_troop.Commands.{enqueue_command}
use open_troop.SyncProvider.Invariant.{
  IsProvider, HoldsOpen, running_flag, start_sync-IsProvider, write_db-IsProvider,
  bump_version-IsProvider, aside-IsProvider, end_sync-IsProvider, finish_for-IsProvider,
}

pub data Reachable (dbs : String → Db) : Provider → Type 0 where
  starts : Reachable dbs (mounted dbs)
  steps : (s s' : Provider) → Reachable dbs s → Step s s' → Reachable dbs s'

after_enqueue-IsProvider :
    (t : String) (r : Result PendingCommand × Db) (s : Provider)
    → IsProvider s
    → IsProvider (after_enqueue t r s)
after_enqueue-IsProvider t (ok c, db) s h =
    start_sync-IsProvider _ (bump_version-IsProvider _ (write_db-IsProvider t db s h))
after_enqueue-IsProvider t (err failure, db) s h = write_db-IsProvider t db s h

enqueue_for-IsProvider :
    (m : Option String) (id now : String) (kind : CommandKind) (payload : CommandPayload)
    (s : Provider)
    → IsProvider s
    → IsProvider (enqueue_for m id now kind payload s)
enqueue_for-IsProvider none id now kind payload s h = h
enqueue_for-IsProvider (some t) id now kind payload s h =
    after_enqueue-IsProvider t (enqueue_command id now kind payload (s.dbs t)) s h

discard_for-IsProvider :
    (m : Option String) (id : String) (s : Provider)
    → IsProvider s
    → IsProvider (discard_for m id s)
discard_for-IsProvider none id s h = h
discard_for-IsProvider (some t) id s h = aside-IsProvider _ _ _ _ s h

opened_twice : (m handle : Option String) → opened m (opened m handle) ≡ opened m handle
opened_twice none handle = refl
opened_twice (some t) handle = refl

still_open :
    (t : String) (m handle : Option String)
    → is_handle t handle ≡ true
    → stays_open m handle ≡ true
    → is_handle t (opened m handle) ≡ true
still_open t none handle h k = h
still_open t (some u) none h k = absurd (false≢true h)
still_open t (some u) (some v) h k = subst (λ w. str_eq w t ≡ true) ((eq_iff v u).0 k) h

both-true : {a b : Bool} → (a && b) ≡ true → (a ≡ true) × (b ≡ true)
both-true h = ground (arith, h)

length-map_promise : (f : Promise → Promise) (ps : List Promise) → length (map f ps) ≡ length ps
length-map_promise f [] = refl
length-map_promise f (p ∷ ps) = ap suc (length-map_promise f ps)

running_flag-map :
    (f : Promise → Promise) (ps : List Promise) → running_flag (map f ps) ≡ running_flag ps
running_flag-map f [] = refl
running_flag-map f (p ∷ ps) = refl

keep_handle-HoldsOpen :
    (m handle : Option String) (ps : List Promise)
    → All (HoldsOpen handle) ps
    → All (HoldsOpen (opened m handle)) (map (keep_handle (stays_open m handle)) ps)
keep_handle-HoldsOpen m handle [] h = tt
keep_handle-HoldsOpen m handle (p ∷ ps) (held, h) = (
  (λ l. still_open p.tenant m handle (held (both-true l).0) (both-true l).1),
  keep_handle-HoldsOpen m handle ps h,
)

step-IsProvider : (s s' : Provider) → Step s s' → IsProvider s → IsProvider s'
unfolding select_tenant finish_sync enqueue_local discard_local
step-IsProvider s s' (selects m) h =
    let kept = keep_handle (stays_open m s.handle) in
    start_sync-IsProvider _ (record {
      flight = h.flight ∙ sym (running_flag-map kept s.running);
      single = subst (λ n. n ≤ 1) (sym (length-map_promise kept s.running)) h.single;
      syncing = h.syncing;
      handle = opened_twice m s.handle;
      promise = keep_handle-HoldsOpen m s.handle s.running h.promise;
    })
step-IsProvider s s' triggers h = start_sync-IsProvider s h
step-IsProvider s s' (writes i p db running ready) h = write_db-IsProvider p.tenant db s h
step-IsProvider s s' (finishes i o session) h =
    finish_for-IsProvider (get_elem? s.running i) i o session s refl h
step-IsProvider s s' (throws i p running) h = end_sync-IsProvider i p s running h
step-IsProvider s s' (enqueues id now kind payload) h =
    enqueue_for-IsProvider s.active id now kind payload s h
step-IsProvider s s' (discards id) h = discard_for-IsProvider s.active id s h
step-IsProvider s s' bumps h = bump_version-IsProvider s h

-- In every state that the provider reaches, the guard of `sync` and the flag of the screens are up just
-- where a promise is in flight, and never are two in flight, whatever was asked for, switched or
-- answered before; the open database, if a tenant is active, is the active tenant's; and a promise whose
-- handle is not closed runs for the tenant of the open database.
pub Reachable-IsProvider : (dbs : String → Db) (s : Provider) → Reachable dbs s → IsProvider s
Reachable-IsProvider dbs s starts = record {
  flight = refl;
  single = omega arith;
  syncing = refl;
  handle = refl;
  promise = tt;
}
Reachable-IsProvider dbs s (steps r _ before step) =
    step-IsProvider r s step (Reachable-IsProvider dbs r before)
