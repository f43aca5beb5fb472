-- ===== src/Web/Groups/Roster/Agreement.antt =====
-- The two ways from a member to its groups in apps/web/src/hooks/use-groups.ts agree.
use open_troop.Prelude.{
  String, ◌≡◌, refl, sym, ap, ◌∙◌, subst, inl, inr, Bool, false, ◌&&◌, ◌||◌, Option, some, get_or,
  List, [], ◌∷◌, ◌++◌, arith, str_eq, eq_iff, Bool-cases, Option-cases, keep, any, lookup,
  lookup-assign, lookup-assign_other, is_keyed, is_keyed-assign_entries,
}
use open_troop.Web.Groups.Roster.{
  includes, groups_with, use_member_groups, push_group, push_members, push_entries, group_by_id,
  use_group_memberships, Group, RosterEntry,
}

abbrev pub names_group : String → List Group → Bool
names_group x gs = any (λ g. str_eq g.id x) gs

-- The member is in the resolved members of the group.
abbrev pub resolves : String → String → List RosterEntry → Bool
resolves m x roster = any (λ e. str_eq e.group_id x && includes m e.member_ids) roster

module _ (x : String) where
  any-append :
      (xs ys : List Group) → names_group x (xs ++ ys) ≡ (names_group x xs || names_group x ys)
  any-append [] ys = refl
  any-append (g ∷ xs) ys = ground (arith, any-append xs ys)

  abbrev listed : String → List (String × List Group) → Bool
  listed m map' = names_group x (get_or (lookup m map') [])

  listed-push_same :
      (m : String) (g : Group) (groups_of : List (String × List Group))
      → listed m (push_group g m groups_of) ≡ (listed m groups_of || str_eq g.id x)
  listed-push_same m g groups_of =
      rw (lookup-assign m (get_or (lookup m groups_of) [] ++ g ∷ []) groups_of)
        (any-append (get_or (lookup m groups_of) []) (g ∷ []) ∙ ground arith)

  listed-push_group :
      (m id : String) (g : Group) (groups_of : List (String × List Group))
      → listed m (push_group g id groups_of)
        ≡ (listed m groups_of || (str_eq id m && str_eq g.id x))
  listed-push_group m id g groups_of = elim (Bool-cases (str_eq id m)) [
    | inl same ↦ rw same (
        subst (λ i. listed m (push_group g i groups_of) ≡ (listed m groups_of || str_eq g.id x))
          (sym ((eq_iff id m).0 same)) (listed-push_same m g groups_of))
    | inr other ↦
        rw
          (
            other,
            lookup-assign_other id m (get_or (lookup id groups_of) [] ++ g ∷ []) groups_of other,
          )
          (ground arith)
  ]

  listed-push_members :
      (m : String) (g : Group) (ids : List String) (groups_of : List (String × List Group))
      → listed m (push_members g ids groups_of)
        ≡ (listed m groups_of || (includes m ids && str_eq g.id x))
  listed-push_members m g [] groups_of = ground arith
  listed-push_members m g (id ∷ ids) groups_of =
      listed-push_members m g ids (push_group g id groups_of)
      ∙ rw (listed-push_group m id g groups_of) (ground arith)

  abbrev hit : Option Group → Bool
  hit = is_keyed (λ g. g.id) x

  listed-push_entries :
      (m : String) (by_id : List (String × Group)) (roster : List RosterEntry)
      (groups_of : List (String × List Group))
      → listed m (push_entries by_id roster groups_of) ≡ (
          listed m groups_of
          || any (λ e. includes m e.member_ids && hit (lookup e.group_id by_id)) roster)
  listed-push_entries m by_id [] groups_of = ground arith
  listed-push_entries m by_id (e ∷ roster) groups_of =
      elim (Option-cases (lookup e.group_id by_id)) [
        | inl absent ↦ rw absent (listed-push_entries m by_id roster groups_of ∙ ground arith)
        | inr (g, found) ↦ rw found (
            listed-push_entries m by_id roster (push_members g e.member_ids groups_of)
            ∙ rw (listed-push_members m g e.member_ids groups_of) (ground arith))
      ]

  names_group-keep :
      (ids : List String) (groups : List Group)
      → names_group x (keep (λ g. includes g.id ids) groups)
        ≡ (names_group x groups && includes x ids)
  names_group-keep ids [] = refl
  names_group-keep ids (g ∷ groups) = elim (Bool-cases (str_eq g.id x)) [
    | inl same ↦
        let e : includes g.id ids ≡ includes x ids =
          ap (λ i. includes i ids) ((eq_iff g.id x).0 same) in
        ground (arith, e, names_group-keep ids groups)
    | inr other ↦ ground (arith, names_group-keep ids groups)
  ]

  includes-groups_with :
      (m : String) (roster : List RosterEntry)
      → includes x (groups_with m roster) ≡ resolves m x roster
  includes-groups_with m [] = refl
  includes-groups_with m (e ∷ roster) = ground (arith, includes-groups_with m roster)

  resolves-hit :
      (m : String) (groups : List Group) (roster : List RosterEntry)
      → any (λ e. includes m e.member_ids && hit (lookup e.group_id (group_by_id groups))) roster
        ≡ (names_group x groups && resolves m x roster)
  resolves-hit m groups [] = ground arith
  resolves-hit m groups (e ∷ roster) = elim (Bool-cases (str_eq e.group_id x)) [
    | inl same ↦
        let k : names_group e.group_id groups ≡ names_group x groups =
          ap (λ i. names_group i groups) ((eq_iff e.group_id x).0 same) in
        ground (
          arith,
          k,
          is_keyed-assign_entries (λ (g : Group). g.id) x e.group_id groups [],
          resolves-hit m groups roster,
        )
    | inr other ↦ ground (
      arith,
      is_keyed-assign_entries (λ (g : Group). g.id) x e.group_id groups [],
      resolves-hit m groups roster,
    )
  ]

  -- For a member's id that is not empty and any groups and roster, with or without repeated entries:
  -- `useMemberGroups` lists a group of the given id exactly where `useGroupMemberships` lists one under
  -- the member, and both do so exactly where the groups hold one of that id and the roster has an entry
  -- for it with the member.
  pub use_member_groups-eq-memberships :
      (m : String) (groups : List Group) (roster : List RosterEntry)
      → str_eq m "" ≡ false
      → (names_group x (use_member_groups (some m) groups roster)
          ≡ (names_group x groups && resolves m x roster))
        × (names_group x (get_or (lookup m (use_group_memberships groups roster)) [])
            ≡ names_group x (use_member_groups (some m) groups roster))
  unfolding use_member_groups use_group_memberships
  use_member_groups-eq-memberships m groups roster given =
      let direct : names_group x (keep (λ g. includes g.id (groups_with m roster)) groups)
          ≡ (names_group x groups && resolves m x roster) =
        names_group-keep (groups_with m roster) groups
        ∙ ap (λ b. names_group x groups && b) (includes-groups_with m roster) in
      let mapped =
        listed-push_entries m (group_by_id groups) roster [] ∙ resolves-hit m groups roster in
      rw given (direct, mapped ∙ sym direct)
