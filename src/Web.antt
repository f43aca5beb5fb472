-- ===== src/Web.antt =====
-- The web client's data layer, apps/web/src/hooks/ and apps/web/src/lib/: what a hook hands to React
-- Query, and what the query client promises. React Query is not in the repository: the query client is
-- a parameter, a record of the operations that the hooks call and of what its documentation says they do.
pub mod QueryKeys
pub mod Groups
pub mod Events
pub mod EventParts
pub mod Roles
pub mod Members
pub mod Advancement
pub mod Messages
pub mod Account
pub mod Reports
pub mod Platform
pub mod Hooks
pub mod Api
pub mod Draft
pub mod Uploads
pub mod Tenant
pub mod Import
pub mod Calendar
pub mod Refetch
pub mod Memberships
pub mod Reach
pub mod Sharing
pub mod Scoping
use Prim.Native.String.{◌++◌ as join}
use open_troop.Prelude.{
  String, ◌≡◌, ◌≢◌, ◌⊎◌, Bool, true, false, not, ◌&&◌, Option, none, some, List, [], ◌∷◌, ◌++◌,
  str_eq,
}
use open_troop.Doc.{Doc, get, Json, null, str, Items, nil, cons}

-- A list of strings as a JSON value
abbrev pub texts : List String → Items
texts [] = nil
texts (s ∷ ss) = cons (str s) (texts ss)

-- A part of a query key: a string or `null`, or an object.
pub data Segment : Type 0 where
  value : Option String → Segment
  object : Doc → Segment

abbrev pub word : String → Segment
word s = value (some s)

abbrev pub QueryKey : Type 0
QueryKey = List Segment

-- What `request` of lib/api.ts is given: `query` holds the `URLSearchParams` behind the path.
pub record Call : Type 0 where
  pub path : String
  pub query : List (String × String)
  pub method : String
  pub body : Option Doc

-- The method of `fetch` without one.
abbrev pub fetched : String → Call
fetched path = record { path = path; query = []; method = "GET"; body = none }

abbrev pub sent : String → String → Doc → Call
sent method path body = record { path = path; query = []; method = method; body = some body }

-- A request with a method and no body.
abbrev pub bare : String → String → Call
bare method path = record { path = path; query = []; method = method; body = none }

-- A template literal: its parts, joined.
abbrev pub template : List String → String
template [] = ""
template (s ∷ []) = s
template (s ∷ t ∷ ts) = join s (template (t ∷ ts))

-- `null` in a template literal
abbrev pub shown : Option String → String
shown none = "null"
shown (some s) = s

-- `string | null` as a JSON value
abbrev pub string_or_null : Option String → Json
string_or_null none = null
string_or_null (some s) = str s

-- A property that holds a string
abbrev pub string_field : String → Doc → Option String
string_field key d = elim (get key d) [ some (str s) ↦ some s | _ ↦ none ]

-- `Boolean(s)`
abbrev pub truthy : String → Bool
truthy s = not (str_eq s "")

abbrev pub is_some {ℓ} : {A : Type ℓ} → Option A → Bool
is_some none = false
is_some (some a) = true

-- The argument of `useQuery`.
pub record QueryOptions : Type 0 where
  pub query_key : QueryKey
  pub query_fn : Call
  pub enabled : Bool

-- A query of the active tenant that needs no id.
abbrev pub when_active : String → QueryKey → Call → QueryOptions
when_active t key call = record { query_key = key; query_fn = call; enabled = truthy t }

-- A query of the active tenant for an id that may be `null`.
abbrev pub when_given : String → Option String → QueryKey → Call → QueryOptions
when_given t id key call = record {
  query_key = key;
  query_fn = call;
  enabled = is_some id && truthy t;
}

-- A call on the query client.
pub data Effect : Type 0 where
  invalidate : QueryKey → Effect
  set_data : QueryKey → Json → Effect

-- The argument of `useMutation` at one call of `mutate`: what is sent, and what a success calls.
pub record Mutation : Type 0 where
  pub mutation_fn : Call
  pub on_success : List Effect

-- The keys differ at a place where both hold a string or `null`, or the first is longer.
abbrev pub Differs : Segment → Segment → Type 0
Differs (value a) (value b) = a ≢ b
Differs _ _ = ⊥

abbrev pub Apart : QueryKey → QueryKey → Type 0
Apart [] k = ⊥
Apart (x ∷ j) [] = Unit {0}
Apart (x ∷ j) (y ∷ k) = Differs x y ⊎ Apart j k

-- `needs_fetch k`: there is no data for the key, or it was invalidated.
pub record QueryClient : Type 1 where
  pub Cache : Type 0
  pub invalidate_queries : QueryKey → Cache → Cache
  pub set_query_data : QueryKey → Json → Cache → Cache
  pub clear : Cache → Cache
  pub needs_fetch : QueryKey → Cache → Bool
  pub get_query_data : QueryKey → Cache → Option Json
  -- Keys match by their prefix.
  pub invalidate_prefix :
      (j rest : QueryKey) (c : Cache) → needs_fetch (j ++ rest) (invalidate_queries j c) ≡ true
  pub invalidate_apart :
      (j k : QueryKey) (c : Cache)
      → Apart j k
      → needs_fetch k (invalidate_queries j c) ≡ needs_fetch k c
  pub invalidate_keeps :
      (j k : QueryKey) (c : Cache)
      → needs_fetch k c ≡ true
      → needs_fetch k (invalidate_queries j c) ≡ true
  -- The data stays until it is fetched again.
  pub invalidate_data :
      (j k : QueryKey) (c : Cache) → get_query_data k (invalidate_queries j c) ≡ get_query_data k c
  pub set_data_same :
      (k : QueryKey) (v : Json) (c : Cache) → get_query_data k (set_query_data k v c) ≡ some v
  pub set_data_other :
      (j k : QueryKey) (v : Json) (c : Cache)
      → Apart j k
      → get_query_data k (set_query_data j v c) ≡ get_query_data k c
  pub set_needs_other :
      (j k : QueryKey) (v : Json) (c : Cache)
      → Apart j k
      → needs_fetch k (set_query_data j v c) ≡ needs_fetch k c
  pub clear_data : (k : QueryKey) (c : Cache) → get_query_data k (clear c) ≡ none
  pub clear_needs : (k : QueryKey) (c : Cache) → needs_fetch k (clear c) ≡ true

module _ (client : QueryClient) where
  open client use {Cache, invalidate_queries, set_query_data}

  abbrev pub run_effect : Effect → Cache → Cache
  run_effect (invalidate k) c = invalidate_queries k c
  run_effect (set_data k v) c = set_query_data k v c

  -- The calls of `onSuccess`, in order.
  abbrev pub run_effects : List Effect → Cache → Cache
  run_effects [] c = c
  run_effects (e ∷ es) c = run_effects es (run_effect e c)
