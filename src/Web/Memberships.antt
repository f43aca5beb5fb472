-- ===== src/Web/Memberships.antt =====
-- Which mutations of apps/web/src/hooks/ refresh the resolved groups, from which the selectors of
-- use-groups.ts read the counts, the patrols and the groups of a member.
use mathlib.Core.Bool.{false≢true}
use mathlib.Core.Option.{some-injective}
use open_troop.Web.QueryKeys
use open_troop.Prelude.{
  String, ◌≡◌, refl, sym, ap, ◌∙◌, inl, inr, Bool, true, false, Option, none, some, [], ◌∷◌, arith,
  str_eq, eq_refl, All,
}
use open_troop.Web.{value, word, QueryKey, string_field, Apart, run_effects, QueryClient}
use open_troop.Web.Hooks.{
  tenant_mutation, ask_group_members, ask_group_roster, TenantMutation, create_group, update_group,
  delete_group, add_group_member, remove_group_member, upsert_group_rule, delete_group_rule,
  update_member, assign_member_position, update_member_position_term, remove_member_position,
}
use open_troop.Web.Scoping.{effect_key, run_effects_elsewhere}
use open_troop.Web.Refetch.{Invalidates, refetched_after_success}
use open_troop.Web.Groups.{use_group_members, use_group_roster}
use open_troop.Web.Members.{use_invalidate_member_positions}
use open_troop.Doc.{properties}

-- The mutations of use-groups.ts
abbrev of_groups : TenantMutation → Bool
of_groups (create_group body) = true
of_groups (update_group id fields) = true
of_groups (delete_group id) = true
of_groups (add_group_member group_id member_id) = true
of_groups (remove_group_member group_id member_id) = true
of_groups (upsert_group_rule group_id dimension values) = true
of_groups (delete_group_rule group_id dimension) = true
of_groups _ = false

-- The mutations elsewhere that drop the lists of group members: a changed member and a changed position
abbrev pub of_members : TenantMutation → Bool
of_members (update_member id fields updated) = true
of_members (assign_member_position member_id position_id start_date end_date) = true
of_members (update_member_position_term member_id assignment_id fields) = true
of_members (remove_member_position member_id assignment_id) = true
of_members _ = false

of_groups-Invalidates :
    (t : String) (m : TenantMutation)
    → of_groups m ≡ true
    → Invalidates (QueryKeys.group_roster (some t)) (tenant_mutation t m).on_success
of_groups-Invalidates t m h = ground arith

of_members-Invalidates :
    (t : String) (m : TenantMutation)
    → of_members m ≡ true
    → Invalidates (QueryKeys.group_members (some t) none) (tenant_mutation t m).on_success
of_members-Invalidates t m h = ground arith

kinds-Apart :
    (t : Option String) (a b : String) (k : QueryKey)
    → str_eq a b ≡ false
    → Apart (value t ∷ word a ∷ k) (value t ∷ word b ∷ [])
kinds-Apart t a b k e =
    inr (inl (λ p. false≢true (sym e ∙ ap (str_eq a) (sym (word_eq p)) ∙ eq_refl a)))
  where
    word_eq : {a b : String} → some a ≡ some b → a ≡ b
    word_eq p = some-injective _ _ p

positions-Apart :
    (t id : String)
    → All
        (λ e. Apart (effect_key e) (use_group_roster t).query_key)
        (use_invalidate_member_positions t id)
positions-Apart t id = (
  kinds-Apart (some t) "member-positions" "group-roster" (value (some id) ∷ []) refl,
  (
    kinds-Apart (some t) "session" "group-roster" [] refl,
    (kinds-Apart (some t) "group-members" "group-roster" [] refl, tt),
  ),
)

of_members-Apart :
    (t : String) (m : TenantMutation)
    → of_members m ≡ true
    → All
        (λ e. Apart (effect_key e) (use_group_roster t).query_key)
        (tenant_mutation t m).on_success
of_members-Apart t m =
    elim m
      as (λ m.
        of_members m ≡ true
        → All (λ e. Apart (effect_key e) (use_group_roster t).query_key)
            (tenant_mutation t m).on_success) [
              | update_member id fields updated ↦ λ _. (
                kinds-Apart (some t) "members" "group-roster"
                    (value (string_field "id" (properties updated)) ∷ []) refl,
                (
                  kinds-Apart (some t) "members" "group-roster" [] refl,
                  (kinds-Apart (some t) "group-members" "group-roster" [] refl, tt),
                ),
              )
              | assign_member_position id position start_date end_date ↦ λ _. positions-Apart t id
              | update_member_position_term id assignment fields ↦ λ _. positions-Apart t id
              | remove_member_position id assignment ↦ λ _. positions-Apart t id
              | _ ↦ λ h. absurd (false≢true h)
            ]

module _ (client : QueryClient) where
  open client use {Cache, needs_fetch, get_query_data}

  -- After the success of each mutation of use-groups.ts, the resolved groups of the tenant are fetched
  -- again, and with them the counts, the patrols and the groups of the members that are read from them.
  group_mutation_refetches_roster :
      (t : String) (m : TenantMutation) (c : Cache)
      → of_groups m ≡ true
      → needs_fetch
          (use_group_roster t).query_key
          (run_effects client (tenant_mutation t m).on_success c)
        ≡ true
  group_mutation_refetches_roster t m c h =
      refetched_after_success client t m ask_group_roster _ c (of_groups-Invalidates t m h)
        (refl, (refl, tt))

  -- After the success of a change of a member or of a member's positions, the list of every single
  -- group's members is fetched again, but the resolved groups of the tenant are as fresh or stale as
  -- before and keep their data: the counts and patrols that are read from them do not show the change.
  pub member_mutation_misses_roster :
      (t : String) (m : TenantMutation) (group_id : Option String) (c : Cache)
      → of_members m ≡ true
      → let d = run_effects client (tenant_mutation t m).on_success c in
        (needs_fetch (use_group_members t group_id).query_key d ≡ true)
        × (needs_fetch (use_group_roster t).query_key d
            ≡ needs_fetch (use_group_roster t).query_key c)
        × (get_query_data (use_group_roster t).query_key d
            ≡ get_query_data (use_group_roster t).query_key c)
  member_mutation_misses_roster t m group_id c h =
      let same =
        run_effects_elsewhere client (tenant_mutation t m).on_success _ c
          (of_members-Apart t m h) in
      (
        refetched_after_success client t m (ask_group_members group_id) _ c
            (of_members-Invalidates t m h) (refl, (refl, tt)),
        same.1,
        same.0,
      )
