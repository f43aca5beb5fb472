-- ===== src/Household.antt =====
-- apps/web/src/lib/household.ts: for whom a member may answer an invitation, and who may sign for whom.
pub mod Closure
use open_troop.Prelude.{
  String, Bool, false, not, ◌&&◌, ◌||◌, Option, none, some, List, [], ◌∷◌, ◌++◌, str_eq,
  if◌then◌else◌, or_else, keep, any,
}

pub record MemberRelationship : Type 0 where
  pub from_member_id : String
  pub to_member_id : String
  pub relationship_type : String
  pub is_deleted : Bool

pub record Member : Type 0 where
  pub id : String
  pub is_deleted : Bool

pub is_parent_edge : MemberRelationship → Bool
is_parent_edge rel =
    not rel.is_deleted
    && (str_eq rel.relationship_type "parent_of" || str_eq rel.relationship_type "guardian_of")

-- `Set<string>`, in the order of insertion.
abbrev pub has : String → List String → Bool
has x = any (λ y. str_eq x y)

add : String → List String → List String
add x ids = if has x ids then ids else ids ++ x ∷ []

add_all : List String → List String → List String
add_all [] ids = ids
add_all (x ∷ xs) ids = add_all xs (add x ids)

-- The first loop: the children of the member.
collect_children : String → List MemberRelationship → List String → List String
collect_children me [] children = children
collect_children me (rel ∷ rels) children = collect_children me rels (
    if str_eq rel.from_member_id me && is_parent_edge rel
    then add rel.to_member_id children
    else children)

-- The second loop: the others who have one of these children.
collect_co_parents : String → List String → List MemberRelationship → List String → List String
collect_co_parents me children [] co_parents = co_parents
collect_co_parents me children (rel ∷ rels) co_parents = collect_co_parents me children rels (
    if has rel.to_member_id children && not (str_eq rel.from_member_id me) && is_parent_edge rel
    then add rel.from_member_id co_parents
    else co_parents)

-- `memberById.get(id)`: a later member replaces an earlier one of the same id.
pub member_by_id : String → List Member → Option Member
member_by_id id [] = none
member_by_id id (m ∷ members) =
    or_else (member_by_id id members) (if str_eq m.id id then some m else none)

abbrev pub is_active : Option Member → Bool
is_active none = false
is_active (some m) = not m.is_deleted

-- The ids that the last loop leaves.
abbrev stays : String → List Member → String → Bool
stays me members id = str_eq id me || is_active (member_by_id id members)

pub household_ids : String → List MemberRelationship → List Member → List String
household_ids me relationships members =
    let children = collect_children me relationships [] in
    let co_parents = collect_co_parents me children relationships [] in
    keep (stays me members) (add_all co_parents (add_all children (me ∷ [])))

pub is_direct_guardian : String → String → List MemberRelationship → Bool
is_direct_guardian actor target =
    any (λ r. str_eq r.from_member_id actor && str_eq r.to_member_id target && is_parent_edge r)

-- Opens the component, for tests that run it.
unfoldable pub run_household : Unit {0}
unfolding household_ids collect_children collect_co_parents add_all add member_by_id is_parent_edge
    is_direct_guardian
run_household = tt
