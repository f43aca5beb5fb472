-- ===== src/Overlay.antt =====
-- The optimistic overlay, apps/mobile/src/data/overlay.ts: what a read shows of the mirror with the
-- effects of the pending commands on top.
pub mod Events
pub mod Indexing
pub mod Participants
use Prim.Native.String.{◌++◌ as join}
use open_troop.Prelude.{
  ℕ, suc, String, Bool, ◌&&◌, ◌||◌, Option, none, some, get_or, List, [], ◌∷◌, ◌++◌, map, str_eq,
  if◌then◌else◌, or_else, length, get_elem?, set,
}
use open_troop.Doc.{Doc, put, spread, str}
use open_troop.Db.{
  set_attendance_taken, participant_update, participant_create, CommandPayload, PendingCommand,
}
use open_troop.Commands.{kind_eq, is_pending, member_property}

-- A row of the events mirror: its id, and the document.
pub record EventLike : Type 0 where
  pub id : String
  pub doc : Doc

-- `Map<string, Record<string, unknown>>`, its keys in the order in which they came.
abbrev pub Patches : Type 0
Patches = List (String × Doc)

unfoldable pub patch_of : String → Patches → Option Doc
patch_of id [] = none
patch_of id ((k, d) ∷ ps) = if str_eq k id then some d else patch_of id ps

set_patch : String → Doc → Patches → Patches
set_patch id d [] = (id, d) ∷ []
set_patch id d ((k, e) ∷ ps) = if str_eq k id then (k, d) ∷ ps else (k, e) ∷ set_patch id d ps

abbrev pub patches_event : PendingCommand → Bool
patches_event cmd = is_pending cmd.state && kind_eq cmd.kind set_attendance_taken

-- `const { event_id, ...fields } = cmd.payload`
abbrev pub rest_of : CommandPayload → Doc
rest_of payload = spread (member_property payload.member_id) payload.fields

-- `patches.set(event_id, { ...patches.get(event_id), ...fields })`
add_patch : PendingCommand → Patches → Patches
add_patch cmd ps =
    if patches_event cmd
    then set_patch cmd.payload.event_id
        (spread (get_or (patch_of cmd.payload.event_id ps) []) (rest_of cmd.payload)) ps
    else ps

collect_patches : List PendingCommand → Patches → Patches
collect_patches [] ps = ps
collect_patches (cmd ∷ cmds) ps = collect_patches cmds (add_patch cmd ps)

abbrev patch_event : Option Doc → EventLike → EventLike
patch_event none event = event
patch_event (some d) event = record event { doc = spread event.doc d }

apply_patches : Patches → List EventLike → List EventLike
apply_patches [] rows = rows
apply_patches ps rows = map (λ event. patch_event (patch_of event.id ps) event) rows

pub overlay_events : List EventLike → List PendingCommand → List EventLike
overlay_events rows cmds = apply_patches (collect_patches cmds []) rows

-- A row of the participants mirror.
pub record ParticipantLike : Type 0 where
  pub id : String
  pub event_id : String
  pub member_id : String
  pub doc : Doc

-- `out` with the map from targets to the entries of `out`: an object is named by its place, since
-- every row and every patched or synthesized copy is an object of its own.
pub record Overlay : Type 0 where
  pub out : List ParticipantLike
  pub by_target : List (String × ℕ)

abbrev pub participant_key : String → String → String
participant_key event_id member_id = join event_id (join ":" member_id)

-- `byTarget.get(key)`: a later entry for a key replaces an earlier one.
unfoldable pub target_at : String → List (String × ℕ) → Option ℕ
target_at key [] = none
target_at key ((k, i) ∷ m) = or_else (target_at key m) (if str_eq k key then some i else none)

-- `new Map(participants.map((p) => [key, p]))`
pub index_from : ℕ → List ParticipantLike → List (String × ℕ)
index_from i [] = []
index_from i (p ∷ ps) = (participant_key p.event_id p.member_id, i) ∷ index_from (suc i) ps

abbrev patches_participant : PendingCommand → Bool
patches_participant cmd =
    is_pending cmd.state
    && (kind_eq cmd.kind participant_update || kind_eq cmd.kind participant_create)

abbrev with_fields : Doc → ParticipantLike → ParticipantLike
with_fields fields p = record p { doc = spread p.doc fields }

patch_at : PendingCommand → ℕ → Option ParticipantLike → Overlay → Overlay
patch_at cmd i none o = o
patch_at cmd i (some p) o = record o { out = set o.out i (with_fields cmd.payload.fields p) }

module _ (make_base : CommandPayload → ParticipantLike) where
  synthesize : PendingCommand → ParticipantLike
  synthesize cmd =
      let base = make_base cmd.payload in
      record base {
        id = join "pending:" cmd.id;
        doc = put "id" (str (join "pending:" cmd.id)) (spread base.doc cmd.payload.fields);
      }

  append_participant : PendingCommand → String → Overlay → Overlay
  append_participant cmd key o = record {
    out = o.out ++ synthesize cmd ∷ [];
    by_target = o.by_target ++ (key, length o.out) ∷ [];
  }

  overlay_command : PendingCommand → Overlay → Overlay
  overlay_command cmd o =
      let key = participant_key cmd.payload.event_id (get_or cmd.payload.member_id "") in
      if patches_participant cmd
      then elim (target_at key o.by_target) [
        | some i ↦ patch_at cmd i (get_elem? o.out i) o
        | none ↦ if kind_eq cmd.kind participant_create then append_participant cmd key o else o
      ]
      else o

  overlay_loop : List PendingCommand → Overlay → Overlay
  overlay_loop [] o = o
  overlay_loop (cmd ∷ cmds) o = overlay_loop cmds (overlay_command cmd o)

  pub overlay_participants : List ParticipantLike → List PendingCommand → List ParticipantLike
  overlay_participants participants cmds =
      (overlay_loop cmds (record { out = participants; by_target = index_from 0 participants })).out

-- Opens the component, for tests that run it.
unfoldable pub run_overlay : Unit {0}
unfolding overlay_events apply_patches collect_patches add_patch set_patch patch_of spread put
    overlay_participants overlay_loop overlay_command patch_at append_participant synthesize
    index_from target_at
run_overlay = tt
