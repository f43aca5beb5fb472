-- ===== src/Reads.antt =====
-- apps/mobile/src/hooks/use-mirror.ts: what the screens read on an open database.
pub mod Events
pub mod Family
use mathlib.Core.Option
use Prim.Native.String.{◌++◌ as join}
use open_troop.Prelude.{
  String, ◌⊎◌, inl, inr, Bool, true, false, ◌&&◌, ◌||◌, Option, none, some, get_or, List, [], ◌∷◌,
  map, str_eq, if◌then◌else◌, keep, any, lookup, new_map, sort_by,
}
use open_troop.Doc.{Doc, get, to_text, null, bool, str}
use open_troop.Db.{members, member_relationships, events, event_participants, CommandPayload, Db}
use open_troop.Mirror.{list_rows, get_row}
use open_troop.Commands.{list_commands}
use open_troop.Commands.Drain.{text_of}
use open_troop.Overlay.{overlay_events, overlay_participants, EventLike, ParticipantLike}
use open_troop.Schema.{get_meta}

abbrev pub field : String → Doc → String
field key doc = get_or (text_of (get key doc)) ""

pub event_of : Doc → EventLike
event_of doc = record { id = field "id" doc; doc = doc }

-- `useMirrorEvents`
pub mirror_events : Db → List EventLike
mirror_events db = overlay_events (map event_of (list_rows events db)) (list_commands none db)

abbrev pub head_of : List EventLike → Option EventLike
head_of [] = none
head_of (e ∷ es) = some e

-- `useMirrorEvent`
pub mirror_event : String → Db → Option EventLike
mirror_event id db = elim (get_row events id db) [
  | none ↦ none
  | some doc ↦ head_of (overlay_events (event_of doc ∷ []) (list_commands none db))
]

pub participant_of : Doc → ParticipantLike
participant_of doc = record {
  id = field "id" doc;
  event_id = field "event_id" doc;
  member_id = field "member_id" doc;
  doc = doc;
}

-- `String(payload.member_id)`
abbrev text_or_undefined : Option String → String
text_or_undefined none = "undefined"
text_or_undefined (some s) = s

-- `makeBase`: what a pending sign-up shows before the server answers.
pub participant_base : CommandPayload → ParticipantLike
participant_base payload =
    let member_id = text_or_undefined payload.member_id in
    record {
      id = "pending";
      event_id = payload.event_id;
      member_id = member_id;
      doc =
          ("id", str "pending")
          ∷ ("event_id", str payload.event_id)
          ∷ ("member_id", str member_id)
          ∷ ("signed_up", bool true)
          ∷ ("rsvp_status", str "no_response")
          ∷ ("attended", null)
          ∷ [];
    }

-- `useMirrorParticipants`
pub mirror_participants : String → Db → List ParticipantLike
mirror_participants event_id db =
    overlay_participants participant_base
      (keep (λ p. str_eq p.event_id event_id)
        (map participant_of (list_rows event_participants db)))
      (keep (λ c. str_eq c.payload.event_id event_id) (list_commands none db))

-- A property in a template literal.
abbrev shown : String → Doc → String
shown key doc = text_or_undefined (Option.map to_text (get key doc))

-- `${m.last_name}${m.first_name}`
full_name : Doc → String
full_name member = join (shown "last_name" member) (shown "first_name" member)

-- `useMirrorMembers`, where `is_before a b` is `a.localeCompare(b) <= 0`.
mirror_members : (String → String → Bool) → Db → List Doc
unfolding full_name
mirror_members is_before db =
    sort_by (λ a b. is_before (full_name a) (full_name b)) (list_rows members db)

-- `useMirrorMember`
mirror_member : String → Db → Option Doc
mirror_member id db = get_row members id db

-- What the screens read of the session that the sync provider keeps as JSON text.
pub record CachedSession : Type 0 where
  pub member : Option Doc
  pub permissions : Option (List String)

abbrev session_of : String ⊎ CachedSession → String ⊎ Option CachedSession
session_of (inl thrown) = inl thrown
session_of (inr session) = inr (some session)

-- `useCachedSession`, where `parse` is `JSON.parse`, with the error that it throws on the left.
cached_session : (String → String ⊎ CachedSession) → Db → String ⊎ Option CachedSession
cached_session parse db = elim (get_meta "session_snapshot" db) [
  | none ↦ inr none
  | some raw ↦ if str_eq raw "" then inr none else session_of (parse raw)
]

-- `useCachedPermissions().has`
pub cached_permission : Option CachedSession → String → Bool
cached_permission none permission = false
cached_permission (some session) permission =
    any (λ p. str_eq p permission) (get_or session.permissions [])

-- The filter of `useMirrorFamily`: an edge from a parent or guardian to a ward.
abbrev pub is_ward_edge : String → Doc → Bool
is_ward_edge me_id r =
    str_eq (field "from_member_id" r) me_id
    && (str_eq (field "relationship_type" r) "parent_of"
        || str_eq (field "relationship_type" r) "guardian_of")

-- `new Map(listRows(db, "members").map((m) => [m.id, m]))`
abbrev pub members_by_id : Db → List (String × Doc)
members_by_id db = new_map (map (λ m. (field "id" m, m)) (list_rows members db))

-- `filter((m): m is Member => Boolean(m))`, at one id.
abbrev pub add_ward : Option Doc → List Doc → List Doc
add_ward none wards = wards
add_ward (some m) wards = m ∷ wards

-- `wardIds.map((id) => byId.get(id)).filter(...)`
abbrev pub wards_of : List (String × Doc) → List String → List Doc
wards_of by_id [] = []
wards_of by_id (id ∷ ids) = add_ward (lookup id by_id) (wards_of by_id ids)

abbrev pub family_of : Doc → Db → List Doc
family_of member db =
    let me_id = field "id" member in
    let ward_ids =
      map (field "to_member_id") (keep (is_ward_edge me_id) (list_rows member_relationships db)) in
    get_or (lookup me_id (members_by_id db)) member ∷ wards_of (members_by_id db) ward_ids

-- `useMirrorFamily`
unfoldable pub mirror_family : Option CachedSession → Db → List Doc
mirror_family none db = []
mirror_family (some session) db = elim session.member [
  | none ↦ []
  | some member ↦ family_of member db
]
