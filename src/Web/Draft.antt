-- ===== src/Web/Draft.antt =====
-- The editable RSVP of one member, apps/web/src/hooks/use-rsvp-draft.ts. A draft is an object; which of
-- a participant's fields it holds is the argument `make_draft`.
pub mod Editing
use open_troop.Prelude.{
  String, Bool, true, false, not, Option, none, some, List, [], ◌∷◌, ◌++◌, str_eq, ◌==◌,
  if◌then◌else◌,
}
use open_troop.Doc.{Doc, get, put, spread, Json, null, bool, num, str}
use open_troop.Web.{Mutation}
use open_troop.Web.Events.{use_add_participant, use_update_participant}

pub record Participant : Type 0 where
  pub id : String
  pub fields : Doc

-- The state of the hook, the participant that its caller holds, and what was handed to `mutate`
pub record RsvpDraft : Type 0 where
  pub draft : Doc
  pub seeded_id : Option String
  pub participant : Option Participant
  pub mutations : List Mutation

-- The place of the draft: its tenant, its event and its member
pub record RsvpPlace : Type 0 where
  pub tenant_id : String
  pub event_id : String
  pub member_id : String

-- `a !== b` on the values that a draft holds
abbrev pub differs_from : Option Json → Option Json → Bool
differs_from (some (str a)) (some (str b)) = not (str_eq a b)
differs_from (some (num a)) (some (num b)) = not (a == b)
differs_from (some (bool true)) (some (bool true)) = false
differs_from (some (bool false)) (some (bool false)) = false
differs_from (some null) (some null) = false
differs_from none none = false
differs_from _ _ = true

-- `comment || null`
abbrev comment_or_null : Option Json → Json
comment_or_null (some (str text)) = if str_eq text "" then null else str text
comment_or_null _ = null

-- `changes.comment ?? draft.comment`
abbrev comment_of : Option Json → Option Json → Option Json
comment_of none d = d
comment_of (some null) d = d
comment_of (some c) d = some c

-- `{ [key]: value }`, where `undefined` leaves nothing
abbrev one_property : String → Option Json → Doc
one_property key none = []
one_property key (some v) = (key, v) ∷ []

abbrev pub add_body : RsvpPlace → Doc → Doc → Doc
add_body place draft changes =
    put "comment" (comment_or_null (comment_of (get "comment" changes) (get "comment" draft))) (
      spread
        (("member_id", str place.member_id) ∷ one_property "rsvp_status" (get "rsvp_status" draft))
        changes)

abbrev pub update_body : Doc → Doc
update_body changes = elim (get "comment" changes) [
  | none ↦ changes
  | some c ↦ put "comment" (comment_or_null (some c)) changes
]

-- `persist`
abbrev pub persist : RsvpPlace → Doc → RsvpDraft → Mutation
persist place changes s = elim s.participant [
  | none ↦ use_add_participant place.tenant_id place.event_id (add_body place s.draft changes)
  | some p ↦
      use_update_participant place.tenant_id place.event_id place.member_id (update_body changes)
]

unfoldable pub set_local : Doc → RsvpDraft → RsvpDraft
set_local changes s = record s { draft = spread s.draft changes }

-- The body is made from the draft as it was rendered.
unfoldable pub set_and_persist : RsvpPlace → Doc → RsvpDraft → RsvpDraft
set_and_persist place changes s = record s {
  draft = spread s.draft changes;
  mutations = s.mutations ++ persist place changes s ∷ [];
}

abbrev pub is_seeded : Option String → String → Bool
is_seeded none id = false
is_seeded (some seeded) id = str_eq id seeded

abbrev pub id_of : Option Participant → Option String
id_of none = none
id_of (some p) = some p.id

pub data DraftEvent : Type 0 where
  edits_locally : (changes : Doc) → DraftEvent
  edits_at_once : (changes : Doc) → DraftEvent
  leaves_field : (field : String) → DraftEvent
  fetches : (participant : Option Participant) → DraftEvent

module _ (make_draft : Option Participant → Doc) where
  unfoldable pub commit_field : RsvpPlace → String → RsvpDraft → RsvpDraft
  commit_field place field s =
      if differs_from (get field s.draft) (get field (make_draft s.participant))
      then record s {
        mutations = s.mutations ++ persist place (one_property field (get field s.draft)) s ∷ [];
      }
      else s

  -- The caller renders the hook with a participant, as it was last fetched; the effect compares its id.
  unfoldable pub render_with : Option Participant → RsvpDraft → RsvpDraft
  render_with none s = record s { participant = none }
  render_with (some p) s =
      if is_seeded s.seeded_id p.id
      then record s { participant = some p }
      else record s { participant = some p; seeded_id = some p.id; draft = make_draft (some p) }

  -- The first render
  abbrev pub start_draft : Option Participant → RsvpDraft
  start_draft participant = record {
    draft = make_draft participant;
    seeded_id = id_of participant;
    participant = participant;
    mutations = [];
  }

  unfoldable pub take_place : RsvpPlace → DraftEvent → RsvpDraft → RsvpDraft
  take_place place (edits_locally changes) s = set_local changes s
  take_place place (edits_at_once changes) s = set_and_persist place changes s
  take_place place (leaves_field field) s = commit_field place field s
  take_place place (fetches participant) s = render_with participant s

  abbrev pub take_places : RsvpPlace → List DraftEvent → RsvpDraft → RsvpDraft
  take_places place [] s = s
  take_places place (e ∷ es) s = take_places place es (take_place place e s)
