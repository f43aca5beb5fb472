-- ===== src/Examples/WebHooks.antt =====
-- The web hooks at a concrete cache.
use mathlib.Core.Bool.{false≢true}
use open_troop.Web.QueryKeys
use open_troop.Prelude.{
  String, ◌≡◌, refl, sym, ap, ◌≢◌, inl, true, false, ◌&&◌, none, some, get_or, List, [], ◌∷◌,
  str_eq, All, lookup,
}
use open_troop.Doc.{str}
use open_troop.Web.{run_effects}
use open_troop.Web.Hooks.{
  tenant_query, tenant_mutation, TenantQuery, ask_events, ask_event, ask_member_positions,
  update_group, update_event, remove_member_position,
}
use open_troop.Web.Scoping.{effect_key, SameAt, mutation_other_tenant}
use open_troop.Web.Sharing.{same_key_same_call}
use open_troop.Web.Reach.{IsPrefixOf, invalidations_reach}
use open_troop.Web.Refetch.{refetched_after_success}
use open_troop.Web.Memberships.{member_mutation_misses_roster}
use open_troop.Web.Groups.{use_group_members, use_group_roster}
use open_troop.Web.Groups.Roster.{
  use_group_member_counts, use_patrol_memberships, use_member_groups, use_group_memberships, Group,
  RosterEntry,
}
use open_troop.Web.Groups.Roster.Agreement.{names_group, resolves, use_member_groups-eq-memberships}
use open_troop.Examples.QueryCache.{memory_client, Entries}

apart_tenants : (◌≢◌ {A = String}) "t1" "t2"
apart_tenants p = false≢true (ap (str_eq "t1") (sym p))

-- The roster of `t1` is in the cache.
abbrev loaded : Entries
loaded = record { needs = λ k. false; data_of = λ k. some (str "data") }

mutation_other_tenant_example :
    SameAt memory_client (QueryKeys.events (some "t2")) loaded (
      run_effects memory_client
        (tenant_mutation "t1" (update_event "e1" [] (str "new"))).on_success
        loaded)
    × ((tenant_query "t1" ask_events).query_key ≢ QueryKeys.events (some "t2"))
mutation_other_tenant_example =
    mutation_other_tenant memory_client "t1" "t2" apart_tenants (update_event "e1" [] (str "new"))
      ask_events ask_events loaded

same_key_same_call_example :
    (tenant_query "t1" (ask_member_positions (some "m1") none)).query_fn
    ≡ (tenant_query "t1" (ask_member_positions (some "m1") (some false))).query_fn
same_key_same_call_example =
    same_key_same_call "t1" (ask_member_positions (some "m1") none)
      (ask_member_positions (some "m1") (some false)) refl refl refl

invalidations_reach_example :
    All
      (λ e. (q : TenantQuery) × IsPrefixOf (effect_key e) (tenant_query "t1" q).query_key)
      (tenant_mutation "t1" (update_group "g1" [])).on_success
invalidations_reach_example = invalidations_reach "t1" (update_group "g1" [])

refetched_after_success_example :
    memory_client.needs_fetch (tenant_query "t1" (ask_event (some "e1"))).query_key (
      run_effects memory_client
        (tenant_mutation "t1" (update_event "e1" [] (str "new"))).on_success
        loaded)
    ≡ true
refetched_after_success_example =
    refetched_after_success memory_client "t1" (update_event "e1" [] (str "new"))
      (ask_event (some "e1")) (QueryKeys.events (some "t1")) loaded (inl refl) (refl, (refl, tt))

abbrev changed : Entries
changed =
    run_effects memory_client (tenant_mutation "t1" (remove_member_position "m1" "a1")).on_success
      loaded

member_mutation_misses_roster_example :
    (memory_client.needs_fetch (use_group_members "t1" (some "g1")).query_key changed ≡ true)
    × (memory_client.needs_fetch (use_group_roster "t1").query_key changed
        ≡ memory_client.needs_fetch (use_group_roster "t1").query_key loaded)
    × (memory_client.get_query_data (use_group_roster "t1").query_key changed
        ≡ memory_client.get_query_data (use_group_roster "t1").query_key loaded)
member_mutation_misses_roster_example =
    member_mutation_misses_roster memory_client "t1" (remove_member_position "m1" "a1") (some "g1")
      loaded refl

-- So the roster is read from the cache while the members of a group are fetched.
roster_is_kept : memory_client.needs_fetch (use_group_roster "t1").query_key changed ≡ false
roster_is_kept = refl

abbrev fox : Group
fox = record { id = "g1"; name = "Fox"; group_type = "patrol"; fields = [] }

abbrev council : Group
council = record { id = "g2"; name = "Council"; group_type = "custom"; fields = [] }

abbrev entry : String → List String → RosterEntry
entry group_id member_ids = record { group_id = group_id; member_ids = member_ids }

abbrev roster : List RosterEntry
roster = entry "g2" ("m2" ∷ []) ∷ entry "g1" ("m1" ∷ "m2" ∷ []) ∷ entry "g9" ("m1" ∷ []) ∷ []

use_member_groups-eq-memberships_example :
    (names_group "g1" (use_member_groups (some "m2") (fox ∷ council ∷ []) roster)
      ≡ (names_group "g1" (fox ∷ council ∷ []) && resolves "m2" "g1" roster))
    × (names_group "g1"
          (get_or (lookup "m2" (use_group_memberships (fox ∷ council ∷ []) roster)) [])
        ≡ names_group "g1" (use_member_groups (some "m2") (fox ∷ council ∷ []) roster))
use_member_groups-eq-memberships_example =
    use_member_groups-eq-memberships "g1" "m2" (fox ∷ council ∷ []) roster refl

counts_run : use_group_member_counts (fox ∷ council ∷ []) roster ≡ ("g1", 2) ∷ ("g2", 1) ∷ []
unfolding use_group_member_counts
counts_run = refl

patrols_run :
    use_patrol_memberships (fox ∷ council ∷ []) roster
    ≡ ("m1", record { id = "g1"; name = "Fox" }) ∷ ("m2", record { id = "g1"; name = "Fox" }) ∷ []
unfolding use_patrol_memberships
patrols_run = refl
