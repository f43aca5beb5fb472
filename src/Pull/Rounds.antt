-- ===== src/Pull/Rounds.antt =====
-- The pull of several streams, one after the other, against a server that keeps its promise.
use mathlib.Core.Bool.{false≢true}
use open_troop.Prelude.{
  ℕ, ◌<◌, String, ◌≡◌, refl, sym, ap, ◌∙◌, subst, ◌≢◌, ◌⊎◌, inl, inr, Bool, true, false, some, List,
  [], ◌∷◌, arith, if◌then◌else◌, Bool-cases, length, any, eq_refl,
}
use open_troop.Doc.{Json}
use open_troop.Db.{
  entity_name, sync_entities, entity_eq, SyncEntity, event_types, locations, members,
  member_relationships, events, event_participants, inbox_messages, inbox_recipients, MirrorRow,
  SyncCursor, Db, Result, ok,
}
use open_troop.Db.Rows.{find_row, entity_eq_iff, entity_eq-false}
use open_troop.Mirror.{get_cursor, SyncRow}
use open_troop.Mirror.Pages.{last_for, settled}
use open_troop.Commands.Drain.{Client}
use open_troop.Pull.{start_cursor, pull_entity, pull_entities}
use open_troop.Pull.Streams.{pull_entity_streams, pull_entity-Serves, IsStream, IsCaughtUp}
use open_troop.Pull.Keeps.{pull_entity_elsewhere}

-- Each stream once.
abbrev pub AreDistinct : List SyncEntity → Type 0
AreDistinct [] = Unit
AreDistinct (e ∷ es) = (any (entity_eq e) es ≡ false) × AreDistinct es

pub sync_entities-AreDistinct : AreDistinct sync_entities
sync_entities-AreDistinct = (refl, (refl, (refl, (refl, (refl, (refl, (refl, (refl, tt))))))))

pub any-sync_entities : (e : SyncEntity) → any (entity_eq e) sync_entities ≡ true
any-sync_entities event_types = refl
any-sync_entities locations = refl
any-sync_entities members = refl
any-sync_entities member_relationships = refl
any-sync_entities events = refl
any-sync_entities event_participants = refl
any-sync_entities inbox_messages = refl
any-sync_entities inbox_recipients = refl

-- What the pull of `es` from the server's streams leaves of the stream `f`.
pub record IsRound {W : Type 0} (after : SyncEntity → SyncCursor → List SyncRow) (n : ℕ)
    (from_zero : Bool) (es : List SyncEntity) (db : Db) (end_state : Result (Unit {0}) × W × Db)
    : Type 0 where
  pub success : end_state.0 ≡ ok tt
  pub table :
      (f : SyncEntity) (id : String)
      → find_row id (end_state.2.mirror f) ≡ (
          if any (entity_eq f) es
          then settled n
              (last_for id (after f (start_cursor from_zero f db)))
              (find_row id (db.mirror f))
          else find_row id (db.mirror f))
  pub cursor :
      (f : SyncEntity) → (any (entity_eq f) es ≡ false) ⊎ (after f (get_cursor f end_state.2) ≡ [])
  pub sync_state :
      (f : SyncEntity)
      → (any (entity_eq f) es ≡ true) ⊎ (end_state.2.sync_state f ≡ db.sync_state f)
  pub queue : end_state.2.pending_commands ≡ db.pending_commands

pub start_cursor-same :
    (from_zero : Bool) (f : SyncEntity) (a b : Db)
    → a.sync_state f ≡ b.sync_state f
    → start_cursor from_zero f a ≡ start_cursor from_zero f b
unfolding get_cursor
start_cursor-same true f a b h = refl
start_cursor-same false f a b h = rw (h, start_cursor, get_cursor)

-- The fuel that is enough before the pull of a stream is enough after it.
fuel_left :
    (after : SyncEntity → SyncCursor → List SyncRow) (from_zero : Bool) (e : SyncEntity) (fuel : ℕ)
    (db db' : Db)
    → after e (get_cursor e db') ≡ []
    → ((f : SyncEntity) → e ≢ f → db'.sync_state f ≡ db.sync_state f)
    → ((f : SyncEntity) → length (after f (start_cursor from_zero f db)) < fuel)
    → (f : SyncEntity) → length (after f (start_cursor from_zero f db')) < fuel
fuel_left after true e fuel db db' none_left away h f = h f
fuel_left after false e fuel db db' none_left away h f = elim (Bool-cases (entity_eq f e)) [
  | inl same ↦
      subst (λ g. length (after g (get_cursor g db')) < fuel) (sym (entity_eq_iff f e same))
        (rw none_left (omega (arith, h e)))
  | inr differs ↦
      subst (λ c. length (after f c) < fuel)
        (sym (
          start_cursor-same false f db' db
            (away f (λ same. entity_eq-false f e differs (sym same)))))
        (h f)
]

-- One more stream in front.
IsRound-cons :
    {W : Type 0} (after : SyncEntity → SyncCursor → List SyncRow) (n : ℕ) (from_zero : Bool)
    (e : SyncEntity) (es : List SyncEntity) (db : Db) (x y : Result (Unit {0}) × W × Db)
    → any (entity_eq e) es ≡ false
    → IsCaughtUp after n e (after e (start_cursor from_zero e db)) db x
    → ((f : SyncEntity)
        → e ≢ f
        → (x.2.mirror f ≡ db.mirror f)
          × (x.2.sync_state f ≡ db.sync_state f)
          × (x.2.meta ≡ db.meta))
    → IsRound after n from_zero es x.2 y
    → IsRound after n from_zero (e ∷ es) db y
unfolding get_cursor
IsRound-cons {W} after n from_zero e es db x y fresh up away later =
    let shown = λ (f : SyncEntity) (id : String) (cur : SyncCursor) (rows : List MirrorRow).
      (if any (entity_eq f) es
        then settled n (last_for id (after f cur)) (find_row id rows)
        else find_row id rows) in
    let other = λ (f : SyncEntity) (differs : entity_eq f e ≡ false) (same : e ≡ f).
      entity_eq-false f e differs (sym same) in
    record {
      success = later.success;
      table = λ f id. elim (Bool-cases (entity_eq f e)) [
        | inl same ↦ rw same (
            subst
              (λ g.
                find_row id (y.2.mirror g)
                ≡ settled n (last_for id (after g (start_cursor from_zero g db)))
                    (find_row id (db.mirror g)))
              (sym (entity_eq_iff f e same)) ((rw fresh at (later.table e id)) ∙ up.table id))
        | inr differs ↦ rw differs (
            later.table f id
            ∙ ap (shown f id (start_cursor from_zero f x.2)) (away f (other f differs)).0
            ∙ ap (λ cur. shown f id cur (db.mirror f))
                (start_cursor-same from_zero f x.2 db (away f (other f differs)).1))
      ];
      cursor = λ f. elim (Bool-cases (entity_eq f e)) [
        | inl same ↦ inr (
            subst (λ g. after g (get_cursor g y.2) ≡ []) (sym (entity_eq_iff f e same))
              (elim (later.sync_state e) [
                | inl named ↦ cc
                | inr kept ↦ ap (after e) (start_cursor-same false e y.2 x.2 kept) ∙ up.cursor
              ]))
        | inr differs ↦ rw differs (later.cursor f)
      ];
      sync_state = λ f. elim (Bool-cases (entity_eq f e)) [
        | inl same ↦ inl (rw same)
        | inr differs ↦ rw differs (elim (later.sync_state f) [
          | inl named ↦ inl named
          | inr kept ↦ inr (kept ∙ (away f (other f differs)).1)
        ])
      ];
      queue = later.queue ∙ up.queue;
    }

named_apart :
    (e f : SyncEntity) (es : List SyncEntity)
    → any (entity_eq e) es ≡ false
    → any (entity_eq f) es ≡ true
    → e ≢ f
named_apart e f es fresh named same =
    false≢true (sym fresh ∙ (ap (λ g. any (entity_eq g) es) same ∙ named))

module _ {W : Type 0} (http : Client W Json) (after : SyncEntity → SyncCursor → List SyncRow)
    (s : IsStream http after) where
  pub pull_entities_streams :
      (n fuel : ℕ) (from_zero : Bool) (es : List SyncEntity) (w : W) (db : Db)
      → AreDistinct es
      → ((f : SyncEntity)
          → any (entity_eq f) es ≡ true
          → s.Serves f (start_cursor from_zero f db) w)
      → ((f : SyncEntity) → length (after f (start_cursor from_zero f db)) < fuel)
      → IsRound after n from_zero es db (pull_entities http fuel es (some n) from_zero w db)
  unfolding pull_entities
  pull_entities_streams n fuel from_zero [] w db d v h = record {
    success = refl;
    table = λ f id. refl;
    cursor = λ f. inl refl;
    sync_state = λ f. inr refl;
    queue = refl;
  }
  pull_entities_streams n fuel from_zero (e ∷ es) w db (fresh, d) v h =
      let x = pull_entity http fuel e (some n) from_zero w db in
      let here = v e (rw (eq_refl (entity_name e)) refl) in
      let up = pull_entity_streams http after s n fuel e from_zero w db here (h e) in
      let away : (f : SyncEntity)
          → e ≢ f
          → (x.2.mirror f ≡ db.mirror f)
            × (x.2.sync_state f ≡ db.sync_state f)
            × (x.2.meta ≡ db.meta) =
        λ f ne. pull_entity_elsewhere http fuel e f (some n) from_zero w db ne in
      let later =
        pull_entities_streams n fuel from_zero es x.1 x.2 d
          (λ f named.
            subst (λ c. s.Serves f c x.1)
              (sym
                (start_cursor-same from_zero f x.2 db (away f (named_apart e f es fresh named)).1))
              (pull_entity-Serves http after s n fuel e f from_zero (start_cursor from_zero f db) w
                db here (v f (ground (arith, named)))))
          (fuel_left after from_zero e fuel db x.2 up.cursor (λ f ne. (away f ne).1) h) in
      IsRound-cons after n from_zero e es db x _ fresh up away
        (rw (up.success, pull_entities) later)
