-- ===== src/Db/Rows.antt =====
-- A mirror table: upserts, deletes and reads by the primary key.
use mathlib.Core.Path.{◌≡◌}
use open_troop.Prelude.{
  String, ◌≡◌, refl, ◌≢◌, inl, inr, true, false, not, Option, none, some, List, [], ◌∷◌, arith,
  str_eq, eq_iff, eq_refl, if◌then◌else◌, Bool-cases, keep, find_first,
}
use open_troop.Db.{
  event_types, locations, members, member_relationships, events, event_participants, inbox_messages,
  inbox_recipients, entity_name, entity_eq, with_mirror, with_sync_state, SyncEntity, MirrorRow,
  SyncState, Db,
}

-- `SELECT … WHERE id = ?`
unfoldable pub find_row : String → List MirrorRow → Option MirrorRow
find_row id = find_first (λ r. str_eq r.id id)

-- `DELETE … WHERE id = ?`
unfoldable pub delete_row : String → List MirrorRow → List MirrorRow
delete_row id = keep (λ r. not (str_eq r.id id))

-- `INSERT … ON CONFLICT(id) DO UPDATE SET` every other column
unfoldable pub upsert_row : MirrorRow → List MirrorRow → List MirrorRow
upsert_row new [] = new ∷ []
upsert_row new (r ∷ rows) = if str_eq r.id new.id then new ∷ rows else r ∷ upsert_row new rows

pub find_row-delete_row :
    (k j : String) (rows : List MirrorRow)
    → find_row j (delete_row k rows) ≡ (if str_eq k j then none else find_row j rows)
unfolding find_row delete_row
find_row-delete_row k j [] = ground arith
find_row-delete_row k j (r ∷ rows) =
    ground (arith, eq_iff r.id k, eq_iff r.id j, eq_iff k j, find_row-delete_row k j rows)

pub find_row-upsert_row :
    (new : MirrorRow) (j : String) (rows : List MirrorRow)
    → find_row j (upsert_row new rows) ≡ (if str_eq new.id j then some new else find_row j rows)
unfolding find_row upsert_row
find_row-upsert_row new j [] = ground arith
find_row-upsert_row new j (r ∷ rows) =
    ground
      (arith, eq_iff r.id new.id, eq_iff r.id j, eq_iff new.id j, find_row-upsert_row new j rows)

-- The primary key: each id stands once.
abbrev pub HasDistinctIds : List MirrorRow → Type 0
HasDistinctIds [] = Unit
HasDistinctIds (r ∷ rows) = (find_row r.id rows ≡ none) × HasDistinctIds rows

pub delete_row-HasDistinctIds :
    (k : String) (rows : List MirrorRow) → HasDistinctIds rows → HasDistinctIds (delete_row k rows)
unfolding delete_row find_row
delete_row-HasDistinctIds k [] h = tt
delete_row-HasDistinctIds k (r ∷ rows) (fresh, h) =
    ground
      (arith, delete_row-HasDistinctIds k rows h, find_row-delete_row k r.id rows, eq_iff k r.id)

pub upsert_row-HasDistinctIds :
    (new : MirrorRow) (rows : List MirrorRow)
    → HasDistinctIds rows
    → HasDistinctIds (upsert_row new rows)
unfolding upsert_row find_row
upsert_row-HasDistinctIds new [] h = (refl, tt)
upsert_row-HasDistinctIds new (r ∷ rows) (fresh, h) = ground (
  arith,
  upsert_row-HasDistinctIds new rows h,
  find_row-upsert_row new r.id rows,
  eq_iff r.id new.id,
  eq_iff new.id r.id,
)

-- The names of the tables differ.
pub entity_eq_iff : (e f : SyncEntity) → entity_eq e f ≡ true → e ≡ f
entity_eq_iff event_types event_types h = refl
entity_eq_iff locations locations h = refl
entity_eq_iff members members h = refl
entity_eq_iff member_relationships member_relationships h = refl
entity_eq_iff events events h = refl
entity_eq_iff event_participants event_participants h = refl
entity_eq_iff inbox_messages inbox_messages h = refl
entity_eq_iff inbox_recipients inbox_recipients h = refl
entity_eq_iff _ _ h = cc

pub entity_eq_comm : (e f : SyncEntity) → entity_eq e f ≡ entity_eq f e
entity_eq_comm e f =
    ground (arith, eq_iff (entity_name e) (entity_name f), eq_iff (entity_name f) (entity_name e))

pub entity_eq-false : (e f : SyncEntity) → entity_eq e f ≡ false → e ≢ f
entity_eq-false e f h same = cc (rw (same, eq_refl (entity_name f)) at h)

-- What a write to one table shows of it, and of the others.
pub mirror-with_mirror_self :
    (e : SyncEntity) (rows : List MirrorRow) (db : Db) → (with_mirror e rows db).mirror e ≡ rows
mirror-with_mirror_self e rows db = rw (eq_refl (entity_name e), with_mirror)

pub mirror-with_mirror_ne :
    (e f : SyncEntity) (rows : List MirrorRow) (db : Db)
    → e ≢ f
    → (with_mirror e rows db).mirror f ≡ db.mirror f
mirror-with_mirror_ne e f rows db h = elim (Bool-cases (entity_eq e f)) [
  | inl same ↦ absurd (h (entity_eq_iff e f same))
  | inr other ↦ rw (other, with_mirror)
]

pub sync_state-with_sync_state_self :
    (e : SyncEntity) (s : SyncState) (db : Db) → (with_sync_state e s db).sync_state e ≡ some s
sync_state-with_sync_state_self e s db = rw (eq_refl (entity_name e), with_sync_state)

pub sync_state-with_sync_state_ne :
    (e f : SyncEntity) (s : SyncState) (db : Db)
    → e ≢ f
    → (with_sync_state e s db).sync_state f ≡ db.sync_state f
sync_state-with_sync_state_ne e f s db h = elim (Bool-cases (entity_eq e f)) [
  | inl same ↦ absurd (h (entity_eq_iff e f same))
  | inr other ↦ rw (other, with_sync_state)
]
