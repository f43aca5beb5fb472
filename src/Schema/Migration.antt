-- ===== src/Schema/Migration.antt =====
-- What `migrate` makes of a file: which tables are there afterwards, and what they keep.
use open_troop.Prelude.{
  ℕ, ◌<◌, String, ◌≡◌, refl, sym, ap, ◌∙◌, subst, ◌≢◌, ◌⊎◌, inl, inr, Option, none, some, List, [],
  arith,
}
use open_troop.Db.{
  SyncEntity, event_types, locations, members, member_relationships, events, event_participants,
  inbox_messages, inbox_recipients, MirrorRow, SyncState, PendingCommand,
}
use open_troop.Db.Transaction.{transaction}
use open_troop.Schema.{
  schema_version, create_if_missing, create_tables, drop_tables, rebuild_mirror, migrate, File,
}

-- Every table of the schema is there.
pub record HasTables (f : File) : Type 0 where
  pub mirror : (e : SyncEntity) → f.mirror e ≢ none
  pub sync_state : f.sync_state ≢ none
  pub pending_commands : f.pending_commands ≢ none
  pub meta : f.meta ≢ none

create_if_missing-ne-none {ℓ} :
    {A : Type ℓ} (empty : A) (o : Option A) → create_if_missing empty o ≢ none
create_if_missing-ne-none empty none = cc
create_if_missing-ne-none empty (some a) = cc

-- What the tables are after each of the two bodies.
mirror-create_tables :
    (f : File) (e : SyncEntity) → (create_tables f).1.mirror e ≡ create_if_missing [] (f.mirror e)
unfolding create_tables
mirror-create_tables f event_types = refl
mirror-create_tables f locations = refl
mirror-create_tables f members = refl
mirror-create_tables f member_relationships = refl
mirror-create_tables f events = refl
mirror-create_tables f event_participants = refl
mirror-create_tables f inbox_messages = refl
mirror-create_tables f inbox_recipients = refl

mirror-drop_tables : (f : File) (e : SyncEntity) → (drop_tables f).1.mirror e ≡ none
unfolding drop_tables
mirror-drop_tables f event_types = refl
mirror-drop_tables f locations = refl
mirror-drop_tables f members = refl
mirror-drop_tables f member_relationships = refl
mirror-drop_tables f events = refl
mirror-drop_tables f event_participants = refl
mirror-drop_tables f inbox_messages = refl
mirror-drop_tables f inbox_recipients = refl

create_tables-HasTables : (f : File) → HasTables (create_tables f).1
unfolding create_tables
create_tables-HasTables f = record {
  mirror = λ e.
      subst (λ t. t ≢ none) (sym (mirror-create_tables f e))
        (create_if_missing-ne-none [] (f.mirror e));
  sync_state = create_if_missing-ne-none _ f.sync_state;
  pending_commands = create_if_missing-ne-none _ f.pending_commands;
  meta = create_if_missing-ne-none _ f.meta;
}

create_tables_committed : (f : File) → (transaction create_tables f).1 ≡ (create_tables f).1
unfolding transaction create_tables
create_tables_committed f = refl

rebuild_mirror_committed : (f : File) → rebuild_mirror f ≡ (drop_tables f).1
unfolding rebuild_mirror transaction drop_tables
rebuild_mirror_committed f = refl

-- The three courses of `migrate`.
migrate_current : (f : File) → f.user_version ≡ schema_version → migrate f ≡ f
unfolding migrate
migrate_current f h = rw h

migrate_older : (f : File) → f.user_version < schema_version → migrate f ≡ (create_tables f).1
unfolding migrate
migrate_older f h = ground (arith, create_tables_committed f)

migrate_newer :
    (f : File) → schema_version < f.user_version → migrate f ≡ (create_tables (drop_tables f).1).1
unfolding migrate
migrate_newer f h =
    ground (arith, rebuild_mirror_committed f, create_tables_committed (rebuild_mirror f))

Version-cases : (v : ℕ) → (v ≡ schema_version) ⊎ ((v < schema_version) ⊎ (schema_version < v))
Version-cases v = grind arith

-- Every opening ends with all the tables of the schema, if a file that says it has the current
-- version has them.
pub migrate-HasTables :
    (f : File) → (f.user_version ≡ schema_version → HasTables f) → HasTables (migrate f)
migrate-HasTables f h = elim (Version-cases f.user_version) [
  | inl same ↦ rw (migrate_current f same) (h same)
  | inr (inl older) ↦ rw (migrate_older f older) (create_tables-HasTables f)
  | inr (inr newer) ↦ rw (migrate_newer f newer) (create_tables-HasTables (drop_tables f).1)
]

-- What the bodies leave alone.
create_tables_keeps :
    (f : File)
    → ((create_tables f).1.pending_commands ≡ create_if_missing [] f.pending_commands)
      × ((create_tables f).1.meta ≡ create_if_missing (λ k. none) f.meta)
      × ((create_tables f).1.sync_state ≡ create_if_missing (λ e. none) f.sync_state)
      × ((create_tables f).1.user_version ≡ schema_version)
unfolding create_tables
create_tables_keeps f = (refl, refl, refl, refl)

drop_tables_keeps :
    (f : File)
    → ((drop_tables f).1.pending_commands ≡ f.pending_commands)
      × ((drop_tables f).1.meta ≡ f.meta)
      × ((drop_tables f).1.sync_state ≡ none)
unfolding drop_tables
drop_tables_keeps f = (refl, refl, refl)

some_kept {ℓ} :
    {A : Type ℓ} (empty t : A) (o : Option A) → o ≡ some t → create_if_missing empty o ≡ some t
some_kept empty t o e = rw e

-- The queue of pending commands and the meta table, where the file has them, survive every migration,
-- upgrade or downgrade.
pub migrate_keeps :
    (f : File) (queue : List PendingCommand) (meta : String → Option String)
    → f.pending_commands ≡ some queue
    → f.meta ≡ some meta
    → ((migrate f).pending_commands ≡ some queue) × ((migrate f).meta ≡ some meta)
migrate_keeps f queue meta p m = elim (Version-cases f.user_version) [
  | inl same ↦ rw (migrate_current f same) (p, m)
  | inr (inl older) ↦
      let kept = create_tables_keeps f in
      rw (migrate_older f older)
        (kept.0 ∙ some_kept [] queue _ p, kept.1 ∙ some_kept (λ k. none) meta _ m)
  | inr (inr newer) ↦
      let dropped = drop_tables_keeps f in
      let kept = create_tables_keeps (drop_tables f).1 in
      rw (migrate_newer f newer) (
        kept.0 ∙ some_kept [] queue _ (dropped.0 ∙ p),
        kept.1 ∙ some_kept (λ k. none) meta _ (dropped.1 ∙ m),
      )
]

-- A file of a newer version is rebuilt: every mirror table is empty, and every cursor is gone, so
-- that the next pull walks each stream from the start.
pub migrate_newer_rebuilds :
    (f : File)
    → schema_version < f.user_version
    → ((e : SyncEntity) → (migrate f).mirror e ≡ some [])
      × ((migrate f).sync_state ≡ some (λ e. none))
      × ((migrate f).user_version ≡ schema_version)
migrate_newer_rebuilds f newer =
    let g : File = (drop_tables f).1 in
    let kept = create_tables_keeps g in
    rw (migrate_newer f newer) (
      λ e. mirror-create_tables g e ∙ ap (create_if_missing []) (mirror-drop_tables f e),
      kept.2 ∙ ap (create_if_missing (λ e. none)) (drop_tables_keeps f).2,
      kept.3,
    )

-- A file of an older version is not rebuilt: every mirror table and every cursor that it has stays
-- as it was, and only the version is new.
pub migrate_older_keeps_mirror :
    (f : File)
    → f.user_version < schema_version
    → ((e : SyncEntity) (rows : List MirrorRow)
        → f.mirror e ≡ some rows
        → (migrate f).mirror e ≡ some rows)
      × ((s : SyncEntity → Option SyncState)
          → f.sync_state ≡ some s
          → (migrate f).sync_state ≡ some s)
      × ((migrate f).user_version ≡ schema_version)
migrate_older_keeps_mirror f older =
    let kept = create_tables_keeps f in
    rw (migrate_older f older) (
      λ e rows p. mirror-create_tables f e ∙ some_kept [] rows _ p,
      λ s p. kept.2 ∙ some_kept (λ e. none) s _ p,
      kept.3,
    )

-- Opening a file a second time changes nothing more.
pub migrate_idempotent : (f : File) → migrate (migrate f) ≡ migrate f
migrate_idempotent f = elim (Version-cases f.user_version) [
  | inl same ↦ ap migrate (migrate_current f same)
  | inr (inl older) ↦ migrate_current _ (rw (migrate_older f older) (create_tables_keeps f).3)
  | inr (inr newer) ↦
      migrate_current _ (rw (migrate_newer f newer) (create_tables_keeps (drop_tables f).1).3)
]
