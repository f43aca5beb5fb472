-- ===== src/Web/Tenant.antt =====
-- The active tenant of the web app, apps/web/src/lib/tenant-context.tsx. The host name is given as its
-- labels, what `split(".")` returns.
pub mod Resolving
use text.Mathlib.Text.{starts_with}
use Prim.Native.String.{◌++◌ as join}
use open_troop.Prelude.{
  String, Bool, false, not, ◌&&◌, Option, none, some, List, [], ◌∷◌, str_eq, if◌then◌else◌,
  find_first, any,
}
use open_troop.Session.{Membership}
use open_troop.Web.{truthy, QueryClient}

-- `activeTenantId`, and the entry of the local storage
pub record WebTenant : Type 0 where
  pub active : String
  pub stored : Option String

-- What the request for the memberships comes to
pub data MembershipsReply : Type 0 where
  unavailable : MembershipsReply
  answered : List Membership → MembershipsReply

-- `DEFAULT_TENANT` comes from the build.
abbrev pub hydrate_tenant : Option String → WebTenant → WebTenant
hydrate_tenant none s = s
hydrate_tenant (some id) s = if truthy id then record s { active = id } else s

abbrev host_name : List String → String
host_name [] = ""
host_name (l ∷ []) = l
host_name (l ∷ k ∷ labels) = join l (join "." (host_name (k ∷ labels)))

-- `hostname.endsWith(".local")`
abbrev is_local : List String → Bool
is_local [] = false
is_local (l ∷ []) = false
is_local (l ∷ k ∷ []) = str_eq k "local"
is_local (l ∷ k ∷ j ∷ labels) = is_local (k ∷ j ∷ labels)

abbrev first_label : List String → Option String
first_label (l ∷ k ∷ j ∷ labels) = if truthy l then some l else none
first_label _ = none

-- `currentSubdomain`; an empty one is none.
abbrev pub current_subdomain : List String → Option String
current_subdomain labels =
    let name = host_name labels in
    if not (str_eq name "localhost")
      && not (str_eq name "127.0.0.1")
      && not (starts_with name "192.168.")
      && not (is_local labels)
    then first_label labels
    else none

-- `setActiveTenantIdState` and the write to the local storage, where the tenant is another one
abbrev pub activate : String → WebTenant → WebTenant
activate id s = if str_eq s.active id then s else record { active = id; stored = some id }

abbrev pub is_member_of : String → List Membership → Bool
is_member_of id ms = any (λ m. str_eq m.tenant_id id) ms

abbrev pub by_slug : String → List Membership → Option Membership
by_slug slug ms = find_first (λ m. str_eq m.tenant_slug slug) ms

-- The stored tenant, if the user is still a member of it, or the first one
abbrev pub resolve_stored : Option String → Membership → List Membership → WebTenant → WebTenant
resolve_stored none m ms s = activate m.tenant_id s
resolve_stored (some id) m ms s =
    if truthy id && is_member_of id (m ∷ ms)
    then (if str_eq s.active id then s else record s { active = id })
    else activate m.tenant_id s

abbrev pub resolve_matched : Option Membership → WebTenant → WebTenant
resolve_matched none s = s
resolve_matched (some m) s = activate m.tenant_id s

abbrev pub resolve_on : Option String → Membership → List Membership → WebTenant → WebTenant
resolve_on none m ms s = resolve_stored s.stored m ms s
resolve_on (some slug) m ms s = resolve_matched (by_slug slug (m ∷ ms)) s

-- `resolveTenant`, from the answer on
unfoldable pub resolve_tenant : List String → MembershipsReply → WebTenant → WebTenant
resolve_tenant labels unavailable s = s
resolve_tenant labels (answered []) s = s
resolve_tenant labels (answered (m ∷ ms)) s = resolve_on (current_subdomain labels) m ms s

-- `setActiveTenantId`: the cache of the queries is dropped.
module _ (client : QueryClient) where
  open client use {Cache, clear}

  abbrev pub set_active_tenant_id : String → WebTenant × Cache → WebTenant × Cache
  set_active_tenant_id id (s, c) = (record { active = id; stored = some id }, clear c)
