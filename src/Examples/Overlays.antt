-- ===== src/Examples/Overlays.antt =====
-- The overlay at concrete inputs.
use open_troop.Prelude.{
  zero, suc, String, ◌≡◌, refl, inr, true, ◌&&◌, ◌||◌, none, some, get_or, [], ◌∷◌, map, str_eq,
  find_first, All, sort_by,
}
use open_troop.Doc.{Doc, get, bool, str}
use open_troop.Db.{
  with_mirror, members, member_relationships, events, MirrorRow, participant_create, CommandPayload,
  PendingCommand, Db,
}
use open_troop.Overlay.{
  overlay_events, overlay_participants, run_overlay, EventLike, ParticipantLike,
}
use open_troop.Overlay.Events.{replay, overlay_events-eq-replay}
use open_troop.Overlay.Participants.{overlay_participants_keeps, IsKept}
use open_troop.Examples.Data.{campout, first_command, second_command, two_events}
use open_troop.Overlay.Indexing.{HasDistinctTargets}
use open_troop.Reads.{field, mirror_events, mirror_event, mirror_family, CachedSession}
use open_troop.Mirror.{list_rows}
use open_troop.Reads.Family.{names, has_ward, mirror_family_lem}
use open_troop.Reads.Events.{NamesItself, mirror_event_lem}
use open_troop.Db.Rows.{find_row, HasDistinctIds}

abbrev shown_event : EventLike
shown_event = record { id = "e1"; doc = campout.doc }

overlay_events-eq-replay_example :
    overlay_events (shown_event ∷ []) (first_command ∷ second_command ∷ [])
    ≡ map (replay (first_command ∷ second_command ∷ [])) (shown_event ∷ [])
overlay_events-eq-replay_example =
    overlay_events-eq-replay (shown_event ∷ []) (first_command ∷ second_command ∷ [])

overlaid :
    overlay_events (shown_event ∷ []) (first_command ∷ [])
    ≡ record {
      id = "e1";
      doc = ("id", str "e1") ∷ ("title", str "Campout") ∷ ("attendance_taken", bool true) ∷ [];
    }
      ∷ []
unfolding run_overlay
overlaid = refl

-- The base that the participants hook of the mobile app builds, for a payload that names a member.
abbrev base : CommandPayload → ParticipantLike
base p = record {
  id = "pending";
  event_id = p.event_id;
  member_id = get_or p.member_id "undefined";
  doc = [];
}

abbrev going_row : ParticipantLike
going_row = record { id = "p1"; event_id = "e1"; member_id = "m1"; doc = [] }

one_row-HasDistinctTargets : HasDistinctTargets (going_row ∷ [])
one_row-HasDistinctTargets zero zero p q h k e = refl
one_row-HasDistinctTargets zero (suc j) p q h k e = cc
one_row-HasDistinctTargets (suc i) j p q h k e = cc

abbrev second_create : PendingCommand
second_create = record second_command { id = "c4"; kind = participant_create }

overlay_participants_keeps_example :
    HasDistinctTargets (overlay_participants base (going_row ∷ []) (second_create ∷ []))
    × IsKept (going_row ∷ []) (overlay_participants base (going_row ∷ []) (second_create ∷ []))
overlay_participants_keeps_example =
    overlay_participants_keeps base (λ p m e. rw e) (going_row ∷ []) (second_create ∷ [])
      (inr ("m1", refl), tt) one_row-HasDistinctTargets

two_events_distinct : HasDistinctIds (two_events.mirror events)
unfolding find_row
two_events_distinct = (refl, (refl, tt))

two_events_named : All NamesItself (two_events.mirror events)
unfolding get
two_events_named = (refl, (refl, tt))

mirror_event_lem_example :
    mirror_event "e1" two_events ≡ find_first (λ e. str_eq e.id "e1") (mirror_events two_events)
mirror_event_lem_example = mirror_event_lem "e1" two_events two_events_distinct two_events_named

-- Ann is at home, and is a parent of Bob and of somebody who is not in the mirror.
abbrev doc_row : String → Doc → MirrorRow
doc_row id doc = record { id = id; sync_seq = 1; updated_at = ""; seen_epoch = 0; doc = doc }

abbrev person : String → Doc
person id = ("id", str id) ∷ []

abbrev parent_edge : String → Doc
parent_edge ward =
    ("from_member_id", str "ann")
    ∷ ("to_member_id", str ward)
    ∷ ("relationship_type", str "parent_of")
    ∷ []

abbrev home : Db
home = with_mirror members (doc_row "ann" (person "ann") ∷ doc_row "bob" (person "bob") ∷ []) (
    with_mirror member_relationships
      (doc_row "r1" (parent_edge "bob") ∷ doc_row "r2" (parent_edge "eve") ∷ []) two_events)

abbrev ann_session : CachedSession
ann_session = record { member = some (person "ann"); permissions = none }

family_at_home : mirror_family (some ann_session) home ≡ person "ann" ∷ person "bob" ∷ []
unfolding mirror_family list_rows get sort_by
family_at_home = refl

mirror_family_lem_example : names "bob" (mirror_family (some ann_session) home) ≡ (
    str_eq (field "id" (person "ann")) "bob"
    || (has_ward (field "id" (person "ann")) "bob" (list_rows member_relationships home)
        && names "bob" (list_rows members home)))
mirror_family_lem_example = mirror_family_lem "bob" ann_session (person "ann") home refl
