-- ===== src/Engine/Schedule.antt =====
-- When the full refetch falls due: never, until one was asked for.
use open_troop.Prelude.{
  ℕ, String, ◌≡◌, refl, sym, ap, ◌∙◌, subst, false, Option, none, List, [], ◌∷◌,
}
use open_troop.Doc.{Json}
use open_troop.Db.{Db, Result, ok, err}
use open_troop.Schema.{get_meta}
use open_troop.Commands.Drain.{Client, drain_queue, DrainResult}
use open_troop.Commands.Drain.Keeps.{drain_queue-SameBooks}
use open_troop.Pull.{pull_round}
use open_troop.Pull.Epochs.{get_meta-pull_round}
use open_troop.Engine.{full_refetch_due, outcome_of, sync_now}

-- The meta table says nothing of a full refetch.
abbrev pub IsUnstamped : Db → Type 0
IsUnstamped db = get_meta "last_full_refetch_at" db ≡ none

pub full_refetch_due-IsUnstamped :
    (parse : String → Option ℕ) (at : ℕ) (db : Db)
    → IsUnstamped db
    → full_refetch_due parse at db ≡ false
unfolding full_refetch_due
full_refetch_due-IsUnstamped parse at db h = rw (h, full_refetch_due)

pub full_refetch_due_same :
    (parse : String → Option ℕ) (at : ℕ) (a b : Db)
    → a.meta ≡ b.meta
    → full_refetch_due parse at a ≡ full_refetch_due parse at b
unfolding full_refetch_due get_meta
full_refetch_due_same parse at a b h =
    ap (λ (m : String → Option String). full_refetch_due parse at (record b { meta = m })) h

outcome_of-db :
    {W : Type 0} {A : Type 0} (drain : DrainResult) (x : Result A × W × Db)
    → (outcome_of drain x).2 ≡ x.2
unfolding outcome_of
outcome_of-db drain (ok _, w, db) = refl
outcome_of-db drain (err failure, w, db) = refl

module _ {W : Type 0} (http : Client W Json) (parse : String → Option ℕ) (fuel : ℕ) where
  pub sync_now-IsUnstamped :
      (at : ℕ) (now : String) (w : W) (db : Db)
      → IsUnstamped db
      → IsUnstamped (sync_now http parse fuel at now false w db).2
  unfolding sync_now get_meta
  sync_now-IsUnstamped at now w db h =
      let d = drain_queue http w db in
      let h' : IsUnstamped d.2 =
        (ap (λ (m : String → Option String). m "last_full_refetch_at")
            (drain_queue-SameBooks http w db).meta
          ∙ h) in
      rw (full_refetch_due-IsUnstamped parse at d.2 h') (
        subst IsUnstamped (sym (outcome_of-db d.0 (pull_round http fuel now d.1 d.2)))
          (get_meta-pull_round http "last_full_refetch_at" fuel now d.1 d.2 refl ∙ h'))

  -- Syncs that nobody asked to be full, one after the other, at the given times.
  abbrev pub sync_many : List (ℕ × String) → W → Db → W × Db
  sync_many [] w db = (w, db)
  sync_many ((at, now) ∷ times) w db =
      let x = sync_now http parse fuel at now false w db in sync_many times x.1 x.2

  sync_many-IsUnstamped :
      (times : List (ℕ × String)) (w : W) (db : Db)
      → IsUnstamped db
      → IsUnstamped (sync_many times w db).1
  sync_many-IsUnstamped [] w db h = h
  sync_many-IsUnstamped ((at, now) ∷ times) w db h =
      let x = sync_now http parse fuel at now false w db in
      sync_many-IsUnstamped times x.1 x.2 (sync_now-IsUnstamped at now w db h)

  -- On a database that no full refetch has run on, the full refetch never falls due: not after any
  -- number of syncs that nobody asked to be full, at any time, whatever the server answers.
  pub full_refetch_never_due :
      (times : List (ℕ × String)) (later : ℕ) (w : W) (db : Db)
      → IsUnstamped db
      → full_refetch_due parse later (sync_many times w db).1 ≡ false
  full_refetch_never_due times later w db h =
      full_refetch_due-IsUnstamped parse later (sync_many times w db).1
        (sync_many-IsUnstamped times w db h)
