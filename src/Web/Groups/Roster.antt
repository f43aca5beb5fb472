-- ===== src/Web/Groups/Roster.antt =====
-- The selectors of apps/web/src/hooks/use-groups.ts, which read everything from one request for the
-- resolved groups: the groups and the roster that the two queries hold are arguments.
pub mod Agreement
use open_troop.Prelude.{
  ℕ, String, Bool, Option, none, some, get_or, List, [], ◌∷◌, ◌++◌, map, str_eq, if◌then◌else◌,
  length, keep, any, lookup, assign, new_map,
}
use open_troop.Doc.{Doc}

pub record Group : Type 0 where
  pub id : String
  pub name : String
  pub group_type : String
  pub fields : Doc

pub record RosterEntry : Type 0 where
  pub group_id : String
  pub member_ids : List String

abbrev pub includes : String → List String → Bool
includes m ids = any (λ id. str_eq id m) ids

-- The second loop of the counts
abbrev count_groups : List (String × ℕ) → List Group → List (String × ℕ) → List (String × ℕ)
count_groups counts [] m = m
count_groups counts (g ∷ groups) m =
    count_groups counts groups (elim (lookup g.id counts) [ none ↦ m | some n ↦ assign g.id n m ])

unfoldable pub use_group_member_counts : List Group → List RosterEntry → List (String × ℕ)
use_group_member_counts groups roster =
    count_groups (new_map (map (λ e. (e.group_id, length e.member_ids)) roster)) groups []

pub record PatrolInfo : Type 0 where
  pub id : String
  pub name : String

abbrev note_patrol : Group → List String → List (String × PatrolInfo) → List (String × PatrolInfo)
note_patrol patrol [] m = m
note_patrol patrol (id ∷ ids) m =
    note_patrol patrol ids (assign id (record { id = patrol.id; name = patrol.name }) m)

abbrev note_patrols :
    List (String × List String)
    → List Group
    → List (String × PatrolInfo)
    → List (String × PatrolInfo)
note_patrols members [] m = m
note_patrols members (patrol ∷ patrols) m =
    note_patrols members patrols (note_patrol patrol (get_or (lookup patrol.id members) []) m)

unfoldable pub use_patrol_memberships : List Group → List RosterEntry → List (String × PatrolInfo)
use_patrol_memberships groups roster =
    note_patrols (new_map (map (λ e. (e.group_id, e.member_ids)) roster))
      (keep (λ g. str_eq g.group_type "patrol") groups) []

-- The ids of the groups whose members include the member
abbrev pub groups_with : String → List RosterEntry → List String
groups_with m roster = map (λ e. e.group_id) (keep (λ e. includes m e.member_ids) roster)

unfoldable pub use_member_groups : Option String → List Group → List RosterEntry → List Group
use_member_groups none groups roster = []
use_member_groups (some m) groups roster =
    if str_eq m "" then [] else keep (λ g. includes g.id (groups_with m roster)) groups

-- `map.set(memberId, [...existing, group])`: the array is changed in place.
abbrev pub push_group : Group → String → List (String × List Group) → List (String × List Group)
push_group g id m = assign id (get_or (lookup id m) [] ++ g ∷ []) m

abbrev pub push_members :
    Group → List String → List (String × List Group) → List (String × List Group)
push_members g [] m = m
push_members g (id ∷ ids) m = push_members g ids (push_group g id m)

abbrev pub push_entries :
    List (String × Group)
    → List RosterEntry
    → List (String × List Group)
    → List (String × List Group)
push_entries by_id [] m = m
push_entries by_id (e ∷ roster) m =
    push_entries by_id roster
      (elim (lookup e.group_id by_id) [ none ↦ m | some g ↦ push_members g e.member_ids m ])

abbrev pub group_by_id : List Group → List (String × Group)
group_by_id groups = new_map (map (λ g. (g.id, g)) groups)

unfoldable pub use_group_memberships : List Group → List RosterEntry → List (String × List Group)
use_group_memberships groups roster = push_entries (group_by_id groups) roster []
