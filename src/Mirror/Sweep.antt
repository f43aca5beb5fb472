-- ===== src/Mirror/Sweep.antt =====
-- The mark-and-sweep of one table: what `sweepStale` removes, and what it counts.
use open_troop.Prelude.{
  ℕ, suc, ◌+◌, ◌≤◌, String, ◌≡◌, refl, ap, ◌∙◌, Bool, not, Option, none, some, List, [], ◌∷◌, arith,
  eq_iff, eq_refl, leb, if◌then◌else◌, length, keep, length-keep, All,
}
use open_troop.Db.{entity_name, entity_eq, SyncEntity, MirrorRow, Db}
use open_troop.Db.Rows.{find_row, HasDistinctIds}
use open_troop.Mirror.{Epoch, is_stale, sweep_stale}

abbrev pub IsFresh : ℕ → MirrorRow → Type 0
IsFresh epoch row = epoch ≤ row.seen_epoch

keep-IsFresh :
    (epoch : ℕ) (rows : List MirrorRow)
    → All (IsFresh epoch) (keep (λ row. not (is_stale (some epoch) row)) rows)
unfolding is_stale
keep-IsFresh epoch [] = tt
keep-IsFresh epoch (r ∷ rows) = ground (arith, keep-IsFresh epoch rows)

-- With distinct ids, a row that is there is found after a filter exactly if it passes.
find_row-keep-none :
    (t : MirrorRow → Bool) (id : String) (rows : List MirrorRow)
    → find_row id rows ≡ none
    → find_row id (keep t rows) ≡ none
unfolding find_row
find_row-keep-none t id [] h = refl
find_row-keep-none t id (r ∷ rows) h = ground (arith, find_row-keep-none t id rows)

abbrev pub passing : (MirrorRow → Bool) → Option MirrorRow → Option MirrorRow
passing t none = none
passing t (some r) = if t r then some r else none

pub find_row-keep :
    (t : MirrorRow → Bool) (id : String) (rows : List MirrorRow)
    → HasDistinctIds rows
    → find_row id (keep t rows) ≡ passing t (find_row id rows)
unfolding find_row
find_row-keep t id [] h = refl
find_row-keep t id (r ∷ rows) (fresh, h) =
    ground (arith, find_row-keep t id rows h, find_row-keep-none t r.id rows fresh, eq_iff r.id id)

pub passing-not_stale :
    (epoch : ℕ) (o : Option MirrorRow)
    → passing (λ r. not (is_stale (some epoch) r)) o ≡ passing (λ r. leb epoch r.seen_epoch) o
unfolding is_stale
passing-not_stale epoch none = refl
passing-not_stale epoch (some r) = ground arith

-- Of a table with distinct ids, the rows that stay are those of the epoch or later, and each is as it
-- was; the number that is returned is the number of rows that went.
pub sweep_stale_lem :
    (e : SyncEntity) (epoch : ℕ) (db : Db)
    → HasDistinctIds (db.mirror e)
    → All (IsFresh epoch) ((sweep_stale e (some epoch) db).1.mirror e)
      × ((id : String)
          → find_row id ((sweep_stale e (some epoch) db).1.mirror e)
            ≡ passing (λ r. leb epoch r.seen_epoch) (find_row id (db.mirror e)))
      × (length ((sweep_stale e (some epoch) db).1.mirror e) + (sweep_stale e (some epoch) db).0
          ≡ length (db.mirror e))
unfolding sweep_stale
sweep_stale_lem e epoch db h =
    let t = λ (r : MirrorRow). not (is_stale (some epoch) r) in
    let rows = db.mirror e in
    rw (eq_refl (entity_name e)) (
      keep-IsFresh epoch rows,
      λ id. find_row-keep t id rows h ∙ passing-not_stale epoch (find_row id rows),
      omega (arith, length-keep t rows),
    )

length-keep_nan :
    (rows : List MirrorRow) → length (keep (λ row. not (is_stale none row)) rows) ≡ length rows
unfolding is_stale
length-keep_nan [] = refl
length-keep_nan (r ∷ rows) = ap suc (length-keep_nan rows)

-- Of NaN nothing is stale.
pub sweep_stale_nan : (e : SyncEntity) (db : Db) → (sweep_stale e none db).0 ≡ 0
unfolding sweep_stale
sweep_stale_nan e db = omega (arith, length-keep_nan (db.mirror e))

-- A sweep as it is seen from the tables.
pub mirror-sweep_stale :
    (e f : SyncEntity) (epoch : Epoch) (db : Db)
    → (sweep_stale e epoch db).1.mirror f ≡ (
        if entity_eq e f then keep (λ row. not (is_stale epoch row)) (db.mirror e) else db.mirror f)
unfolding sweep_stale
mirror-sweep_stale e f epoch db = refl
