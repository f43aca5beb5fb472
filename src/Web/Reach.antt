-- ===== src/Web/Reach.antt =====
-- What the invalidations of apps/web/src/hooks/ reach: each matches the key of some query hook, so none
-- is written in vain.
use open_troop.Prelude.{
  String, ◌≡◌, refl, ap, ◌∙◌, true, Option, none, some, List, [], ◌∷◌, ◌++◌, arith, str_eq,
  if◌then◌else◌, All, All-mono,
}
use open_troop.Web.{value, QueryKey, Segment}
use open_troop.Web.Hooks.{
  tenant_query, tenant_mutation, TenantQuery, ask_groups, ask_group, ask_group_members,
  ask_group_manual_members, ask_group_roster, ask_group_rules, ask_events, ask_event,
  ask_event_types, ask_event_type, ask_event_participants, ask_event_counts, ask_event_audiences,
  ask_event_organizers, ask_event_slots, ask_event_photos, ask_storage_usage, ask_positions,
  ask_position, ask_position_functional_roles, ask_functional_roles, ask_functional_role,
  ask_functional_role_permissions, ask_members, ask_member, ask_member_positions, ask_relationships,
  ask_member_advancement, ask_advancement_queue, ask_messages, ask_message, ask_inbox, ask_session,
  ask_notification_preferences, ask_tenant_settings, TenantMutation,
}
use open_troop.Web.Scoping.{effect_key}

abbrev pub IsPrefixOf : QueryKey → QueryKey → Type 0
IsPrefixOf [] k = Unit {0}
IsPrefixOf (x ∷ j) [] = ⊥
IsPrefixOf (x ∷ j) (y ∷ k) = (x ≡ y) × IsPrefixOf j k

pub IsPrefixOf-append : (j k : QueryKey) → IsPrefixOf j k → (rest : QueryKey) × (j ++ rest ≡ k)
IsPrefixOf-append [] k _ = (k, refl)
IsPrefixOf-append (x ∷ j) [] p = elim p [ ]
IsPrefixOf-append (x ∷ j) (y ∷ k) (e, p) =
    let (rest, q) = IsPrefixOf-append j k p in (rest, ap (λ z. z ∷ j ++ rest) e ∙ ap (λ l. y ∷ l) q)

abbrev given : List Segment → Option String
given (value id ∷ k) = id
given _ = none

abbrev item_or : TenantQuery → (Option String → TenantQuery) → List Segment → TenantQuery
item_or all one [] = all
item_or all one (id ∷ k) = one (given (id ∷ k))

-- A query hook for each kind of key that a mutation names
abbrev readers : List Segment → List (String × TenantQuery)
readers k =
    ("groups", item_or ask_groups ask_group k)
    ∷ ("group-roster", ask_group_roster)
    ∷ ("group-members", ask_group_members (given k))
    ∷ ("group-manual-members", ask_group_manual_members (given k))
    ∷ ("group-rules", ask_group_rules (given k))
    ∷ ("events", item_or ask_events ask_event k)
    ∷ ("event-types", item_or ask_event_types ask_event_type k)
    ∷ ("event-participants", ask_event_participants (given k))
    ∷ ("event-counts", ask_event_counts (given k))
    ∷ ("event-audiences", ask_event_audiences (given k))
    ∷ ("event-organizers", ask_event_organizers (given k))
    ∷ ("event-slots", ask_event_slots (given k))
    ∷ ("event-photos", ask_event_photos (given k))
    ∷ ("storage-usage", ask_storage_usage)
    ∷ ("positions", item_or ask_positions ask_position k)
    ∷ ("position-functional-roles", ask_position_functional_roles (given k))
    ∷ ("functional-roles", item_or ask_functional_roles ask_functional_role k)
    ∷ ("functional-role-permissions", ask_functional_role_permissions (given k))
    ∷ ("members", item_or ask_members ask_member k)
    ∷ ("member-positions", ask_member_positions (given k) none)
    ∷ ("session", ask_session true)
    ∷ ("relationships", ask_relationships (given k))
    ∷ ("member-advancement", ask_member_advancement (given k))
    ∷ ("advancement-queue", ask_advancement_queue true)
    ∷ ("messages", ask_messages true)
    ∷ ("message", ask_message (given k))
    ∷ ("inbox", ask_inbox)
    ∷ ("notification-preferences", ask_notification_preferences)
    ∷ ("tenant-settings", ask_tenant_settings)
    ∷ []

abbrev pick : String → List (String × TenantQuery) → TenantQuery
pick kind [] = ask_groups
pick kind ((name, q) ∷ rest) = let later = pick kind rest in if str_eq name kind then q else later

abbrev reader : QueryKey → TenantQuery
reader (tenant ∷ value (some kind) ∷ k) = pick kind (readers k)
reader _ = ask_groups

reader_reached :
    (t : String) (m : TenantMutation)
    → All
        (λ e. IsPrefixOf (effect_key e) (tenant_query t (reader (effect_key e))).query_key)
        (tenant_mutation t m).on_success
reader_reached t m = ground arith

-- The keys in every call that a mutation hook's success makes on the query client are those of query
-- hooks of the same tenant: each key is the key of a hook or a prefix of it.
pub invalidations_reach :
    (t : String) (m : TenantMutation)
    → All
        (λ e. (q : TenantQuery) × IsPrefixOf (effect_key e) (tenant_query t q).query_key)
        (tenant_mutation t m).on_success
invalidations_reach t m =
    All-mono _ _ (λ e p. (reader (effect_key e), p)) (tenant_mutation t m).on_success
      (reader_reached t m)
