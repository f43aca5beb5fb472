-- ===== src/Web/Members.antt =====
-- Members, their positions and relationships: use-members.ts, use-member-positions.ts,
-- use-relationships.ts and use-family.ts of apps/web/src/hooks/.
use open_troop.Prelude.{
  String, Bool, false, Option, none, some, get_or, List, [], ◌∷◌, ◌++◌, if◌then◌else◌,
}
use open_troop.Web.{
  fetched, sent, bare, template, shown, string_field, truthy, when_active, when_given, invalidate,
  set_data, QueryOptions, Effect, Mutation,
}
use open_troop.Doc.{Doc, properties, str, obj, Properties}
use open_troop.Web.QueryKeys

abbrev pub use_members : String → QueryOptions
use_members t = when_active t (QueryKeys.members (some t)) (fetched "/members")

abbrev pub use_member : String → Option String → QueryOptions
use_member t id =
    when_given t id (QueryKeys.member (some t) id)
      (fetched (template ("/members/" ∷ shown id ∷ [])))

abbrev pub use_create_member : String → Doc → Mutation
use_create_member t body = record {
  mutation_fn = sent "POST" "/members" body;
  on_success = invalidate (QueryKeys.members (some t)) ∷ [];
}

abbrev pub use_update_member : String → String → Doc → Properties → Mutation
use_update_member t id fields updated = record {
  mutation_fn = sent "PATCH" (template ("/members/" ∷ id ∷ [])) fields;
  on_success =
      set_data (QueryKeys.member (some t) (string_field "id" (properties updated))) (obj updated)
      ∷ invalidate (QueryKeys.members (some t))
      ∷ invalidate (QueryKeys.group_members (some t) none)
      ∷ [];
}

abbrev pub use_purge_member : String → String → String → Mutation
use_purge_member t id confirm_name = record {
  mutation_fn =
      sent "POST" (template ("/members/" ∷ id ∷ "/purge" ∷ []))
        (("confirm_name", str confirm_name) ∷ []);
  on_success =
      invalidate (QueryKeys.members (some t))
      ∷ invalidate (QueryKeys.member (some t) (some id))
      ∷ [];
}

abbrev pub use_invite_member : String → Mutation
use_invite_member id = record {
  mutation_fn = bare "POST" (template ("/members/" ∷ id ∷ "/invite" ∷ []));
  on_success = [];
}

abbrev pub use_member_positions : String → Option String → Option Bool → QueryOptions
use_member_positions t member_id history =
    let past = get_or history false in
    when_given t member_id (QueryKeys.member_positions (some t) member_id (some past)) (
      fetched (
        template (
          "/members/"
          ∷ shown member_id
          ∷ "/positions"
          ∷ (if past then "?current=false" else "")
          ∷ [])))

abbrev pub use_invalidate_member_positions : String → String → List Effect
use_invalidate_member_positions t member_id =
    invalidate (QueryKeys.member_positions (some t) (some member_id) none)
    ∷ invalidate (QueryKeys.session (some t))
    ∷ invalidate (QueryKeys.group_members (some t) none)
    ∷ []

-- `...(date ? { [key]: date } : {})`
abbrev date_property : String → Option String → Doc
date_property key none = []
date_property key (some date) = if truthy date then (key, str date) ∷ [] else []

abbrev pub use_assign_member_position :
    String → String → String → Option String → Option String → Mutation
use_assign_member_position t member_id position_id start_date end_date = record {
  mutation_fn = sent "POST" (template ("/members/" ∷ member_id ∷ "/positions" ∷ [])) (
      ("position_id", str position_id) ∷ date_property "start_date" start_date
      ++ date_property "end_date" end_date);
  on_success = use_invalidate_member_positions t member_id;
}

abbrev pub use_update_member_position_term : String → String → String → Doc → Mutation
use_update_member_position_term t member_id assignment_id fields = record {
  mutation_fn =
      sent "PATCH" (template ("/members/" ∷ member_id ∷ "/positions/" ∷ assignment_id ∷ [])) fields;
  on_success = use_invalidate_member_positions t member_id;
}

abbrev pub use_remove_member_position : String → String → String → Mutation
use_remove_member_position t member_id assignment_id = record {
  mutation_fn =
      bare "DELETE" (template ("/members/" ∷ member_id ∷ "/positions/" ∷ assignment_id ∷ []));
  on_success = use_invalidate_member_positions t member_id;
}

abbrev pub use_relationships : String → Option String → QueryOptions
use_relationships t member_id =
    when_given t member_id (QueryKeys.relationships (some t) member_id)
      (fetched (template ("/relationships?member_id=" ∷ shown member_id ∷ [])))

abbrev pub use_create_relationship : String → String → String → String → Mutation
use_create_relationship t from_member_id to_member_id relationship_type = record {
  mutation_fn = sent "POST" "/relationships" (
      ("from_member_id", str from_member_id)
      ∷ ("to_member_id", str to_member_id)
      ∷ ("relationship_type", str relationship_type)
      ∷ []);
  on_success =
      invalidate (QueryKeys.relationships (some t) (some from_member_id))
      ∷ invalidate (QueryKeys.relationships (some t) (some to_member_id))
      ∷ [];
}

abbrev pub use_delete_relationship : String → String → String → Mutation
use_delete_relationship t rel_id member_id = record {
  mutation_fn = bare "DELETE" (template ("/relationships/" ∷ rel_id ∷ []));
  on_success = invalidate (QueryKeys.relationships (some t) (some member_id)) ∷ [];
}

abbrev pub use_family : String → QueryOptions
use_family t = when_active t (QueryKeys.family (some t)) (fetched "/members/me/family")
