-- ===== src/Web/Draft/Editing.antt =====
-- What happens to the draft while it is edited.
use mathlib.Core.Bool.{false≢true}
use open_troop.Prelude.{
  String, ◌≡◌, refl, sym, ap, ◌∙◌, true, Option, none, some, List, [], ◌∷◌, str_eq, if-holds, All,
}
use open_troop.Doc.{Doc, get, spread}
use open_troop.Web.Draft.{
  differs_from, set_local, set_and_persist, is_seeded, edits_locally, edits_at_once, leaves_field,
  fetches, commit_field, render_with, take_place, take_places, Participant, RsvpDraft, RsvpPlace,
  DraftEvent,
}

-- The same participant again, or none
abbrev pub IsRefetch : String → DraftEvent → Type 0
IsRefetch id (fetches (some p)) = str_eq p.id id ≡ true
IsRefetch id _ = Unit {0}

-- The edits alone, one after the other
abbrev pub edit : DraftEvent → Doc → Doc
edit (edits_locally changes) d = spread d changes
edit (edits_at_once changes) d = spread d changes
edit _ d = d

abbrev pub edit_in_turn : List DraftEvent → Doc → Doc
edit_in_turn [] d = d
edit_in_turn (e ∷ es) d = edit_in_turn es (edit e d)

module _ (make_draft : Option Participant → Doc) (place : RsvpPlace) (id : String) where
  -- The draft belongs to the participant, and has had the edit.
  record IsEdited (d : Doc) (s : RsvpDraft) : Type 0 where
    draft : s.draft ≡ d
    seeded : s.seeded_id ≡ some id

  take_place-IsEdited :
      (e : DraftEvent) (s : RsvpDraft)
      → s.seeded_id ≡ some id
      → IsRefetch id e
      → IsEdited (edit e s.draft) (take_place make_draft place e s)
  unfolding take_place set_local set_and_persist commit_field render_with
  take_place-IsEdited (edits_locally changes) s h r = record { draft = refl; seeded = h }
  take_place-IsEdited (edits_at_once changes) s h r = record { draft = refl; seeded = h }
  take_place-IsEdited (leaves_field field) s h r =
      if-holds (IsEdited s.draft)
        (differs_from (get field s.draft) (get field (make_draft s.participant))) _ s
        (λ _. record { draft = refl; seeded = h }) (λ _. record { draft = refl; seeded = h })
  take_place-IsEdited (fetches none) s h r = record { draft = refl; seeded = h }
  take_place-IsEdited (fetches (some p)) s h r =
      let known : is_seeded s.seeded_id p.id ≡ true = ap (λ o. is_seeded o p.id) h ∙ r in
      if-holds (IsEdited s.draft) (is_seeded s.seeded_id p.id) _ _
        (λ _. record { draft = refl; seeded = h }) (λ new. absurd (false≢true (sym new ∙ known)))

  -- While the participant stays the same one, however often it is fetched again and with whatever
  -- fields, the draft is what the edits made of it, those on the screen only and those that are sent,
  -- each on top of the ones before: no answer of the server overwrites what was typed.
  pub draft_survives_refetches :
      (es : List DraftEvent) (s : RsvpDraft)
      → s.seeded_id ≡ some id
      → All (IsRefetch id) es
      → (take_places make_draft place es s).draft ≡ edit_in_turn es s.draft
  draft_survives_refetches [] s h _ = refl
  draft_survives_refetches (e ∷ es) s h (r, rs) =
      let one = take_place-IsEdited e s h r in
      draft_survives_refetches es (take_place make_draft place e s) one.seeded rs
      ∙ ap (edit_in_turn es) one.draft
