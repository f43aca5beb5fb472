-- ===== src/Web/Groups.antt =====
-- Group queries and mutations, apps/web/src/hooks/use-groups.ts.
use open_troop.Prelude.{String, Option, none, some, List, [], ◌∷◌}
pub mod Roster
use open_troop.Web.{
  texts, fetched, sent, bare, template, shown, when_active, when_given, invalidate, QueryOptions,
  Mutation,
}
use open_troop.Doc.{Doc, Json, null, str, arr}
use open_troop.Web.QueryKeys

abbrev pub use_groups : String → QueryOptions
use_groups t = when_active t (QueryKeys.groups (some t)) (fetched "/groups")

abbrev pub use_group : String → Option String → QueryOptions
use_group t id =
    when_given t id (QueryKeys.group (some t) id) (fetched (template ("/groups/" ∷ shown id ∷ [])))

abbrev pub use_group_members : String → Option String → QueryOptions
use_group_members t group_id =
    when_given t group_id (QueryKeys.group_members (some t) (some group_id))
      (fetched (template ("/groups/" ∷ shown group_id ∷ "/members" ∷ [])))

abbrev pub use_group_manual_members : String → Option String → QueryOptions
use_group_manual_members t group_id =
    when_given t group_id (QueryKeys.group_manual_members (some t) (some group_id))
      (fetched (template ("/groups/" ∷ shown group_id ∷ "/manual-members" ∷ [])))

abbrev pub use_group_roster : String → QueryOptions
use_group_roster t = when_active t (QueryKeys.group_roster (some t)) (fetched "/groups/roster")

abbrev pub use_group_rules : String → Option String → QueryOptions
use_group_rules t group_id =
    when_given t group_id (QueryKeys.group_rules (some t) group_id)
      (fetched (template ("/groups/" ∷ shown group_id ∷ "/rules" ∷ [])))

abbrev pub use_create_group : String → Doc → Mutation
use_create_group t body = record {
  mutation_fn = sent "POST" "/groups" body;
  on_success =
      invalidate (QueryKeys.groups (some t)) ∷ invalidate (QueryKeys.group_roster (some t)) ∷ [];
}

abbrev pub use_update_group : String → String → Doc → Mutation
use_update_group t id fields = record {
  mutation_fn = sent "PATCH" (template ("/groups/" ∷ id ∷ [])) fields;
  on_success =
      invalidate (QueryKeys.groups (some t))
      ∷ invalidate (QueryKeys.group (some t) (some id))
      ∷ invalidate (QueryKeys.group_members (some t) none)
      ∷ invalidate (QueryKeys.group_roster (some t))
      ∷ [];
}

abbrev pub use_delete_group : String → String → Mutation
use_delete_group t id = record {
  mutation_fn = bare "DELETE" (template ("/groups/" ∷ id ∷ []));
  on_success =
      invalidate (QueryKeys.groups (some t)) ∷ invalidate (QueryKeys.group_roster (some t)) ∷ [];
}

abbrev pub use_add_group_member : String → String → String → Mutation
use_add_group_member t group_id member_id = record {
  mutation_fn =
      sent "POST" (template ("/groups/" ∷ group_id ∷ "/members" ∷ []))
        (("member_id", str member_id) ∷ []);
  on_success =
      invalidate (QueryKeys.group_members (some t) none)
      ∷ invalidate (QueryKeys.group_roster (some t))
      ∷ invalidate (QueryKeys.group_manual_members (some t) none)
      ∷ [];
}

abbrev pub use_remove_group_member : String → String → String → Mutation
use_remove_group_member t group_id member_id = record {
  mutation_fn = bare "DELETE" (template ("/groups/" ∷ group_id ∷ "/members/" ∷ member_id ∷ []));
  on_success =
      invalidate (QueryKeys.group_members (some t) none)
      ∷ invalidate (QueryKeys.group_roster (some t))
      ∷ invalidate (QueryKeys.group_manual_members (some t) none)
      ∷ [];
}

-- `values: string[] | null`
abbrev rule_values : Option (List String) → Json
rule_values none = null
rule_values (some values) = arr (texts values)

abbrev pub use_upsert_group_rule : String → String → String → Option (List String) → Mutation
use_upsert_group_rule t group_id dimension values = record {
  mutation_fn =
      sent "PUT" (template ("/groups/" ∷ group_id ∷ "/rules/" ∷ dimension ∷ []))
        (("values", rule_values values) ∷ []);
  on_success =
      invalidate (QueryKeys.group_rules (some t) (some group_id))
      ∷ invalidate (QueryKeys.group_members (some t) none)
      ∷ invalidate (QueryKeys.group_roster (some t))
      ∷ [];
}

abbrev pub use_delete_group_rule : String → String → String → Mutation
use_delete_group_rule t group_id dimension = record {
  mutation_fn = bare "DELETE" (template ("/groups/" ∷ group_id ∷ "/rules/" ∷ dimension ∷ []));
  on_success =
      invalidate (QueryKeys.group_rules (some t) (some group_id))
      ∷ invalidate (QueryKeys.group_members (some t) none)
      ∷ invalidate (QueryKeys.group_roster (some t))
      ∷ [];
}
