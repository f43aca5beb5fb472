-- ===== src/Web/Roles.antt =====
-- Positions and functional roles, apps/web/src/hooks/use-positions.ts and use-functional-roles.ts.
use open_troop.Prelude.{String, Option, some, [], ◌∷◌}
use open_troop.Web.{
  fetched, sent, bare, template, shown, when_active, when_given, invalidate, QueryOptions, Mutation,
}
use open_troop.Doc.{Doc, str}
use open_troop.Web.QueryKeys

abbrev pub use_positions : String → QueryOptions
use_positions t = when_active t (QueryKeys.positions (some t)) (fetched "/positions")

abbrev pub use_position : String → Option String → QueryOptions
use_position t position_id =
    when_given t position_id (QueryKeys.position (some t) position_id)
      (fetched (template ("/positions/" ∷ shown position_id ∷ [])))

abbrev pub use_create_position : String → Doc → Mutation
use_create_position t fields = record {
  mutation_fn = sent "POST" "/positions" fields;
  on_success = invalidate (QueryKeys.positions (some t)) ∷ [];
}

abbrev pub use_update_position : String → String → Doc → Mutation
use_update_position t id fields = record {
  mutation_fn = sent "PATCH" (template ("/positions/" ∷ id ∷ [])) fields;
  on_success =
      invalidate (QueryKeys.positions (some t))
      ∷ invalidate (QueryKeys.position (some t) (some id))
      ∷ [];
}

abbrev pub use_delete_position : String → String → Mutation
use_delete_position t id = record {
  mutation_fn = bare "DELETE" (template ("/positions/" ∷ id ∷ []));
  on_success = invalidate (QueryKeys.positions (some t)) ∷ [];
}

abbrev pub use_position_functional_roles : String → Option String → QueryOptions
use_position_functional_roles t position_id =
    when_given t position_id (QueryKeys.position_functional_roles (some t) position_id)
      (fetched (template ("/positions/" ∷ shown position_id ∷ "/functional-roles" ∷ [])))

abbrev pub use_attach_functional_role : String → String → String → Mutation
use_attach_functional_role t position_id functional_role_id = record {
  mutation_fn =
      sent "POST" (template ("/positions/" ∷ position_id ∷ "/functional-roles" ∷ []))
        (("functional_role_id", str functional_role_id) ∷ []);
  on_success = invalidate (QueryKeys.position_functional_roles (some t) (some position_id)) ∷ [];
}

abbrev pub use_detach_functional_role : String → String → String → Mutation
use_detach_functional_role t position_id functional_role_id = record {
  mutation_fn =
      bare "DELETE"
        (template ("/positions/" ∷ position_id ∷ "/functional-roles/" ∷ functional_role_id ∷ []));
  on_success = invalidate (QueryKeys.position_functional_roles (some t) (some position_id)) ∷ [];
}

abbrev pub use_functional_roles : String → QueryOptions
use_functional_roles t =
    when_active t (QueryKeys.functional_roles (some t)) (fetched "/functional-roles")

abbrev pub use_functional_role : String → Option String → QueryOptions
use_functional_role t role_id =
    when_given t role_id (QueryKeys.functional_role (some t) role_id)
      (fetched (template ("/functional-roles/" ∷ shown role_id ∷ [])))

abbrev pub use_create_functional_role : String → Doc → Mutation
use_create_functional_role t fields = record {
  mutation_fn = sent "POST" "/functional-roles" fields;
  on_success = invalidate (QueryKeys.functional_roles (some t)) ∷ [];
}

abbrev pub use_update_functional_role : String → String → Doc → Mutation
use_update_functional_role t id fields = record {
  mutation_fn = sent "PATCH" (template ("/functional-roles/" ∷ id ∷ [])) fields;
  on_success =
      invalidate (QueryKeys.functional_roles (some t))
      ∷ invalidate (QueryKeys.functional_role (some t) (some id))
      ∷ [];
}

abbrev pub use_delete_functional_role : String → String → Mutation
use_delete_functional_role t id = record {
  mutation_fn = bare "DELETE" (template ("/functional-roles/" ∷ id ∷ []));
  on_success = invalidate (QueryKeys.functional_roles (some t)) ∷ [];
}

abbrev pub use_functional_role_permissions : String → Option String → QueryOptions
use_functional_role_permissions t role_id =
    when_given t role_id (QueryKeys.functional_role_permissions (some t) role_id)
      (fetched (template ("/functional-roles/" ∷ shown role_id ∷ "/permissions" ∷ [])))

abbrev pub use_grant_functional_role_permission : String → String → String → Mutation
use_grant_functional_role_permission t role_id permission = record {
  mutation_fn =
      sent "POST" (template ("/functional-roles/" ∷ role_id ∷ "/permissions" ∷ []))
        (("permission", str permission) ∷ []);
  on_success = invalidate (QueryKeys.functional_role_permissions (some t) (some role_id)) ∷ [];
}

abbrev pub use_revoke_functional_role_permission : String → String → String → Mutation
use_revoke_functional_role_permission t role_id permission = record {
  mutation_fn =
      bare "DELETE" (template ("/functional-roles/" ∷ role_id ∷ "/permissions/" ∷ permission ∷ []));
  on_success = invalidate (QueryKeys.functional_role_permissions (some t) (some role_id)) ∷ [];
}
