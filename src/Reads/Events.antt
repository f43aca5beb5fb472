-- ===== src/Reads/Events.antt =====
-- The list of events and the page of one event show the same.
use open_troop.Prelude.{
  String, ◌≡◌, refl, sym, ap, ◌∙◌, subst, inl, inr, Option, none, some, List, [], ◌∷◌, map, arith,
  str_eq, eq_iff, if◌then◌else◌, Bool-cases, Option-cases, find_first, All, sort_by, sort_by-All,
  find_first-insert_by,
}
use open_troop.Db.{events, MirrorRow, PendingCommand, Db}
use open_troop.Db.Rows.{find_row, HasDistinctIds}
use open_troop.Mirror.{id_le, list_rows, get_row}
use open_troop.Overlay.{overlay_events, EventLike}
use open_troop.Overlay.Events.{replay, overlay_events-eq-replay, id-replay}
use open_troop.Reads.{field, event_of, mirror_events, head_of, mirror_event}
use open_troop.Doc.{Doc}
use open_troop.Commands.{list_commands}

-- The document of a row has the row's id, as pulled rows have.
abbrev pub NamesItself : MirrorRow → Type 0
NamesItself r = field "id" r.doc ≡ r.id

find_row-sort_by :
    (id : String) (rows : List MirrorRow)
    → HasDistinctIds rows
    → find_row id (sort_by id_le rows) ≡ find_row id rows
unfolding find_row sort_by
find_row-sort_by id [] h = refl
find_row-sort_by id (r ∷ rows) (fresh, h) =
    let ih = find_row-sort_by id rows h in
    find_first-insert_by id_le (λ x. str_eq x.id id) r (sort_by id_le rows)
      (elim (Bool-cases (str_eq r.id id)) [
        | inl named ↦
            inr (ih ∙ subst (λ k. find_row k rows ≡ none) ((eq_iff r.id id).0 named) fresh)
        | inr other ↦ inl other
      ])
    ∙ ground (arith, ih)

event_of-NamesItself : (r : MirrorRow) → NamesItself r → (event_of r.doc).id ≡ r.id
unfolding event_of
event_of-NamesItself r h = h

shown_event : List PendingCommand → Option MirrorRow → Option EventLike
shown_event cmds none = none
shown_event cmds (some r) = some (replay cmds (event_of r.doc))

find_first-replay :
    (id : String) (cmds : List PendingCommand) (rows : List MirrorRow)
    → All NamesItself rows
    → find_first (λ e. str_eq e.id id) (map (replay cmds) (map event_of (map (λ r. r.doc) rows)))
      ≡ shown_event cmds (find_row id rows)
unfolding find_row shown_event
find_first-replay id cmds [] h = refl
find_first-replay id cmds (r ∷ rows) (named, h) =
    let e = replay cmds (event_of r.doc) in
    let rest =
      find_first (λ (x : EventLike). str_eq x.id id)
        (map (replay cmds) (map event_of (map (λ (x : MirrorRow). x.doc) rows))) in
    let same : e.id ≡ r.id = id-replay cmds (event_of r.doc) ∙ event_of-NamesItself r named in
    ap (λ k. if str_eq k id then some e else rest) same ∙ (elim (Bool-cases (str_eq r.id id)) [
      | inl here ↦ rw here
      | inr later ↦ rw later (find_first-replay id cmds rows h)
    ])

overlay_one :
    (cmds : List PendingCommand) (doc : Doc)
    → head_of (overlay_events (event_of doc ∷ []) cmds) ≡ some (replay cmds (event_of doc))
overlay_one cmds doc = ap head_of (overlay_events-eq-replay (event_of doc ∷ []) cmds)

-- The page of an event shows what the list of events shows for its id, pending commands included, or
-- nothing if the list has no such event; this is with an id once in the mirror table, and with rows
-- whose documents carry the row's id.
pub mirror_event_lem :
    (id : String) (db : Db)
    → HasDistinctIds (db.mirror events)
    → All NamesItself (db.mirror events)
    → mirror_event id db ≡ find_first (λ e. str_eq e.id id) (mirror_events db)
unfolding mirror_event mirror_events list_rows get_row shown_event
mirror_event_lem id db distinct named =
    let cmds = list_commands none db in
    let rows = sort_by id_le (db.mirror events) in
    let listed : find_first (λ (e : EventLike). str_eq e.id id) (mirror_events db)
        ≡ shown_event cmds (find_row id (db.mirror events)) =
      ap (find_first (λ (e : EventLike). str_eq e.id id))
        (overlay_events-eq-replay (map event_of (list_rows events db)) cmds)
      ∙ find_first-replay id cmds rows (sort_by-All id_le NamesItself (db.mirror events) named)
      ∙ ap (shown_event cmds) (find_row-sort_by id (db.mirror events) distinct) in
    elim (Option-cases (find_row id (db.mirror events))) [
      | inl absent ↦
          rw (absent, mirror_event, get_row) (sym (listed ∙ ap (shown_event cmds) absent))
      | inr (r, found) ↦
          rw (found, mirror_event, get_row)
            (overlay_one cmds r.doc ∙ sym (listed ∙ ap (shown_event cmds) found))
    ]
