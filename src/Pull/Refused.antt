-- ===== src/Pull/Refused.antt =====
-- An incremental round while the server refuses the cursor of a stream, as it does with 410 where the
-- cursor is behind its watermark.
use open_troop.Prelude.{
  ℕ, String, ◌≡◌, refl, sym, ap, ◌∙◌, subst, inl, inr, true, false, Option, none, some, List, [],
  ◌∷◌, Bool-cases, any,
}
use mathlib.Core.Option.{none-ne-some}
use open_troop.Doc.{Json}
use open_troop.Db.{
  SyncEntity, event_types, locations, members, member_relationships, events, event_participants,
  inbox_messages, inbox_recipients, SyncCursor, SyncState, Db, Failure, Result, ok, err, entity_eq,
  sync_entities,
}
use open_troop.Db.Rows.{entity_eq_iff, entity_eq-false}
use open_troop.Mirror.{zero_cursor, get_cursor, Epoch}
use open_troop.Commands.Drain.{Client}
use open_troop.Pull.{
  pull_request, stamp_pull, current_epoch, pull_entity, pull_entities, pull_round, SyncPage,
}
use open_troop.Pull.Boundary.{
  handed, answered, Pulled, cut_off, refused, reverted, last_page, stalled, page,
  pull_entity_resumes,
}
use open_troop.Pull.Keeps.{pull_entity_elsewhere}
use open_troop.Pull.Refetch.{Result-cases}

-- The answer to a request at the cursor hands out no page, whenever it is asked.
abbrev pub Refuses : {W : Type 0} → Client W Json → SyncEntity → SyncCursor → Type 0
Refuses {W} http e c = (w : W) → handed (http (pull_request e c) w).0.outcome ≡ none

-- The result is an error, and the stored cursor is this one.
abbrev pub IsStuck : {W : Type 0} → SyncEntity → SyncCursor → Result (Unit {0}) × W × Db → Type 0
IsStuck e c x = ((failure : Failure) × (x.0 ≡ err failure)) × (get_cursor e x.2 ≡ c)

pub get_cursor_same :
    (e : SyncEntity) (a b : Db) → a.sync_state e ≡ b.sync_state e → get_cursor e a ≡ get_cursor e b
unfolding get_cursor
get_cursor_same e a b same =
    ap (λ (s : Option SyncState). elim s [ none ↦ zero_cursor | some x ↦ x.cursor ]) same

no_page : {A : Type 0} (o : Option SyncPage) (p : SyncPage) → o ≡ none → o ≡ some p → A
no_page o p absent given = absurd (none-ne-some p (sym absent ∙ given))

Pulled-refused :
    {W : Type 0} (http : Client W Json) (e : SyncEntity) (epoch : Epoch) (n : ℕ) (c c' : SyncCursor)
    (w w' : W) (db db' : Db) (result : Result (Unit {0}))
    → Pulled http e epoch n c w db result c' w' db'
    → answered http e epoch c w ≡ none
    → ((failure : Failure) × (result ≡ err failure)) × (c' ≡ c)
Pulled-refused http e epoch _ _ _ _ _ _ _ _ (cut_off c w db) h = ((_, refl), refl)
Pulled-refused http e epoch _ _ _ _ _ _ _ _ (refused n c w db failure given) h =
    ((failure, refl), refl)
Pulled-refused http e epoch _ _ _ _ _ _ _ _ (reverted n c w db p failure given thrown) h =
    no_page _ p h given
Pulled-refused http e epoch _ _ _ _ _ _ _ _ (last_page n c w db p given taken done) h =
    no_page _ p h given
Pulled-refused http e epoch _ _ _ _ _ _ _ _ (stalled n c w db p given taken more same) h =
    no_page _ p h given
Pulled-refused http e epoch _ _ _ _ _ _ _ _
      (page n c c' w w' db db' p result given taken more moved later) h =
    no_page _ p h given

module _ {W : Type 0} (http : Client W Json) (e : SyncEntity) (c : SyncCursor) where
  pull_entity-IsStuck :
      (fuel : ℕ) (epoch : Epoch) (w : W) (db : Db)
      → Refuses http e c
      → get_cursor e db ≡ c
      → IsStuck e c (pull_entity http fuel e epoch false w db)
  pull_entity-IsStuck fuel epoch w db h here =
      let x = pull_entity http fuel e epoch false w db in
      Pulled-refused http e epoch fuel c (get_cursor e x.2) w x.1 db x.2 x.0
        (subst (λ c. Pulled http e epoch fuel c w db x.0 (get_cursor e x.2) x.1 x.2) here
          (pull_entity_resumes http fuel e epoch w db))
        (h w)

  pull_entities-IsStuck :
      (fuel : ℕ) (es : List SyncEntity) (epoch : Epoch) (w : W) (db : Db)
      → Refuses http e c
      → any (λ f. entity_eq f e) es ≡ true
      → get_cursor e db ≡ c
      → IsStuck e c (pull_entities http fuel es epoch false w db)
  unfolding pull_entities
  pull_entities-IsStuck fuel [] epoch w db h listed here = cc
  pull_entities-IsStuck fuel (f ∷ es) epoch w db h listed here =
      let x = pull_entity http fuel f epoch false w db in
      elim (Bool-cases (entity_eq f e)) [
        | inl same ↦
            let there : IsStuck e c x =
              subst (λ g. IsStuck e c (pull_entity http fuel g epoch false w db))
                (sym (entity_eq_iff f e same)) (pull_entity-IsStuck fuel epoch w db h here) in
            rw (there.0.1, pull_entities) ((there.0.0, refl), there.1)
        | inr other ↦
            let apart =
              pull_entity_elsewhere http fuel f e epoch false w db (entity_eq-false f e other) in
            let kept : get_cursor e x.2 ≡ c = get_cursor_same e x.2 db apart.1 ∙ here in
            elim (Result-cases x.0) [
              | inl fine ↦
                  rw (fine, pull_entities)
                    (pull_entities-IsStuck fuel es epoch x.1 x.2 h (rw other at listed) kept)
              | inr (failure, bad) ↦ rw (bad, pull_entities) ((failure, refl), kept)
            ]
      ]

every_entity : (e : SyncEntity) → any (λ f. entity_eq f e) sync_entities ≡ true
every_entity event_types = refl
every_entity locations = refl
every_entity members = refl
every_entity member_relationships = refl
every_entity events = refl
every_entity event_participants = refl
every_entity inbox_messages = refl
every_entity inbox_recipients = refl

stamp_pull-IsStuck :
    {W : Type 0} (e : SyncEntity) (c : SyncCursor) (now : String) (x : Result (Unit {0}) × W × Db)
    → IsStuck e c x
    → IsStuck e c (stamp_pull now x)
unfolding stamp_pull
stamp_pull-IsStuck e c now (err failure, w, db) h = h
stamp_pull-IsStuck e c now (ok _, w, db) h = cc

-- A round fails where one cursor is refused, which leaves that cursor as it is.
pub pull_round-IsStuck :
    {W : Type 0} (http : Client W Json) (e : SyncEntity) (c : SyncCursor) (fuel : ℕ) (now : String)
    (w : W) (db : Db)
    → Refuses http e c
    → get_cursor e db ≡ c
    → IsStuck e c (pull_round http fuel now w db)
unfolding pull_round
pull_round-IsStuck http e c fuel now w db h here = stamp_pull-IsStuck e c now _ (
    pull_entities-IsStuck http e c fuel sync_entities (current_epoch db) w db h (every_entity e)
      here)
