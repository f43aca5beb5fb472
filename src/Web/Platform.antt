-- ===== src/Web/Platform.antt =====
-- The platform console, apps/web/src/hooks/use-platform.ts: no tenant is active there.
use open_troop.Prelude.{String, Bool, [], ◌∷◌, if◌then◌else◌}
use open_troop.Web.{
  word, QueryKey, fetched, sent, bare, template, truthy, invalidate, QueryOptions, Mutation,
}
use open_troop.Doc.{Doc, str}
use open_troop.Web.Account.{always}

abbrev tenants_key : QueryKey
tenants_key = word "platform" ∷ word "tenants" ∷ []

abbrev tenant_key : String → QueryKey
tenant_key id = word "platform" ∷ word "tenant" ∷ word id ∷ []

abbrev admins_key : String → QueryKey
admins_key id = word "platform" ∷ word "tenant" ∷ word id ∷ word "admins" ∷ []

abbrev platform_admins_key : QueryKey
platform_admins_key = word "platform" ∷ word "admins" ∷ []

abbrev pub use_tenants : QueryOptions
use_tenants = always tenants_key (fetched "/platform/tenants")

abbrev pub use_tenant : String → QueryOptions
use_tenant id = record {
  query_key = tenant_key id;
  query_fn = fetched (template ("/platform/tenants/" ∷ id ∷ []));
  enabled = truthy id;
}

abbrev pub use_tenant_admins : String → QueryOptions
use_tenant_admins id = record {
  query_key = admins_key id;
  query_fn = fetched (template ("/platform/tenants/" ∷ id ∷ "/admins" ∷ []));
  enabled = truthy id;
}

abbrev pub use_create_tenant : Doc → Mutation
use_create_tenant body = record {
  mutation_fn = sent "POST" "/platform/tenants" body;
  on_success = invalidate tenants_key ∷ [];
}

abbrev pub use_set_tenant_suspended : String → Bool → Mutation
use_set_tenant_suspended id suspend = record {
  mutation_fn = bare "POST" (
      template
        ("/platform/tenants/" ∷ id ∷ "/" ∷ (if suspend then "suspend" else "unsuspend") ∷ []));
  on_success = invalidate (tenant_key id) ∷ invalidate tenants_key ∷ [];
}

abbrev pub use_invite_tenant_admin : String → Doc → Mutation
use_invite_tenant_admin id body = record {
  mutation_fn = sent "POST" (template ("/platform/tenants/" ∷ id ∷ "/admins" ∷ [])) body;
  on_success = invalidate (admins_key id) ∷ [];
}

abbrev pub use_revoke_tenant_admin : String → String → Mutation
use_revoke_tenant_admin id member_id = record {
  mutation_fn = bare "DELETE" (template ("/platform/tenants/" ∷ id ∷ "/admins/" ∷ member_id ∷ []));
  on_success = invalidate (admins_key id) ∷ [];
}

-- The bundle is fetched by a mutation, since the export is recorded.
abbrev pub use_export_tenant : String → Mutation
use_export_tenant id = record {
  mutation_fn = fetched (template ("/platform/tenants/" ∷ id ∷ "/export" ∷ []));
  on_success = invalidate (tenant_key id) ∷ invalidate tenants_key ∷ [];
}

abbrev pub use_delete_tenant : String → String → Mutation
use_delete_tenant id confirm_slug = record {
  mutation_fn =
      sent "DELETE" (template ("/platform/tenants/" ∷ id ∷ []))
        (("confirm_slug", str confirm_slug) ∷ []);
  on_success = invalidate tenants_key ∷ [];
}

abbrev pub use_platform_admins : QueryOptions
use_platform_admins = always platform_admins_key (fetched "/platform/admins")

abbrev pub use_grant_platform_admin : Doc → Mutation
use_grant_platform_admin body = record {
  mutation_fn = sent "POST" "/platform/admins" body;
  on_success = invalidate platform_admins_key ∷ [];
}

abbrev pub use_revoke_platform_admin : String → Mutation
use_revoke_platform_admin user_id = record {
  mutation_fn = bare "DELETE" (template ("/platform/admins/" ∷ user_id ∷ []));
  on_success = invalidate platform_admins_key ∷ [];
}
