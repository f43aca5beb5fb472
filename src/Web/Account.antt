-- ===== src/Web/Account.antt =====
-- The session and the account: use-session.ts, use-me.ts, use-memberships.ts, use-auth.ts,
-- use-calendar-subscription.ts, use-notification-preferences.ts, use-tenant-settings.ts and
-- use-locations.ts of apps/web/src/hooks/.
use open_troop.Prelude.{
  String, Bool, true, false, ◌&&◌, Option, none, some, List, [], ◌∷◌, str_eq, any,
}
use open_troop.Web.{
  value, word, QueryKey, fetched, sent, bare, truthy, is_some, when_active, invalidate, set_data,
  Call, QueryOptions, Mutation,
}
use open_troop.Doc.{Doc, Json, str}
use open_troop.Web.QueryKeys

-- A query that is always on
abbrev pub always : QueryKey → Call → QueryOptions
always key call = record { query_key = key; query_fn = call; enabled = true }

-- `enabled` is an argument of the hook.
abbrev pub use_session : Bool → String → QueryOptions
use_session enabled t = record {
  query_key = QueryKeys.session (some t);
  query_fn = fetched "/auth/session";
  enabled = enabled && truthy t;
}

pub record Session : Type 0 where
  pub permissions : List String
  pub member : Option Doc

pub record Permissions : Type 0 where
  pub has : String → Bool
  pub is_member : Bool

-- `isLoading` is passed on from React Query.
abbrev pub use_permissions : Option Session → Permissions
use_permissions none = record { has = λ p. false; is_member = false }
use_permissions (some session) = record {
  has = λ p. any (str_eq p) session.permissions;
  is_member = is_some session.member;
}

abbrev pub use_me : QueryOptions
use_me = always QueryKeys.me (fetched "/auth/me")

abbrev pub use_memberships : QueryOptions
use_memberships = always QueryKeys.memberships (fetched "/auth/memberships")

abbrev pub use_claim_membership : String → Mutation
use_claim_membership token = record {
  mutation_fn = sent "POST" "/auth/claim" (("token", str token) ∷ []);
  on_success = invalidate QueryKeys.memberships ∷ [];
}

abbrev pub use_calendar_subscription : QueryOptions
use_calendar_subscription =
    always QueryKeys.calendar_subscription (bare "POST" "/calendar/subscription")

-- `rotate`: the new link takes the place of the old one.
abbrev pub rotate : Json → Mutation
rotate fields = record {
  mutation_fn = bare "DELETE" "/calendar/subscription";
  on_success = set_data QueryKeys.calendar_subscription fields ∷ [];
}

abbrev preferences_key : String → QueryKey
preferences_key t = value (some t) ∷ word "notification-preferences" ∷ []

abbrev pub use_notification_preferences : String → QueryOptions
use_notification_preferences t =
    when_active t (preferences_key t) (fetched "/members/me/notification-preferences")

abbrev pub use_update_notification_preferences : String → Doc → Mutation
use_update_notification_preferences t body = record {
  mutation_fn = sent "PATCH" "/members/me/notification-preferences" body;
  on_success = invalidate (preferences_key t) ∷ [];
}

abbrev pub use_tenant_settings : String → QueryOptions
use_tenant_settings t =
    when_active t (QueryKeys.tenant_settings (some t)) (fetched "/tenant/settings")

abbrev pub use_update_tenant_settings : String → Doc → Mutation
use_update_tenant_settings t body = record {
  mutation_fn = sent "PATCH" "/tenant/settings" body;
  on_success = invalidate (QueryKeys.tenant_settings (some t)) ∷ [];
}

abbrev pub use_locations : String → QueryOptions
use_locations t = when_active t (QueryKeys.locations (some t)) (fetched "/locations")
