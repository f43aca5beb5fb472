-- ===== src/Household/Closure.antt =====
-- The household as a rule on the edges: one hop down, and one hop up from a shared child.
use open_troop.Prelude.{
  String, ◌≡◌, refl, sym, ap, ◌∙◌, subst, inl, inr, Bool, true, not, ◌&&◌, ◌||◌, List, [], ◌∷◌,
  ◌++◌, arith, str_eq, eq_iff, Bool-cases, keep, any,
}
use open_troop.Household.{
  is_parent_edge, has, add, add_all, collect_children, collect_co_parents, member_by_id, is_active,
  stays, household_ids, is_direct_guardian, MemberRelationship, Member,
}

-- An edge from a parent or guardian to a child.
abbrev pub has_edge : String → String → List MemberRelationship → Bool
has_edge parent child =
    any (λ r. str_eq r.from_member_id parent && is_parent_edge r && str_eq child r.to_member_id)

-- Another parent or guardian of a child of the member.
abbrev pub shares_child : String → String → List MemberRelationship → List MemberRelationship → Bool
shares_child me x every = any (λ r.
    has_edge me r.to_member_id every
    && not (str_eq r.from_member_id me)
    && is_parent_edge r
    && str_eq x r.from_member_id)

has-append : (x : String) (xs ys : List String) → has x (xs ++ ys) ≡ (has x xs || has x ys)
has-append x [] ys = refl
has-append x (y ∷ xs) ys = ground (arith, has-append x xs ys)

has-add : (x y : String) (ids : List String) → has x (add y ids) ≡ (has x ids || str_eq x y)
unfolding add
has-add x y ids = elim (Bool-cases (has y ids)) [
  | inl there ↦ elim (Bool-cases (str_eq x y)) [
    | inl same ↦
        let held : has x ids ≡ true =
          subst (λ z. has z ids ≡ true) (sym ((eq_iff x y).0 same)) there in
        rw (there, held) (ground arith)
    | inr differs ↦ rw (there, differs) (ground arith)
  ]
  | inr missing ↦ rw (missing, has-append x ids (y ∷ [])) (ground arith)
]

has-add_all : (x : String) (ys ids : List String) → has x (add_all ys ids) ≡ (has x ids || has x ys)
unfolding add_all
has-add_all x [] ids = ground arith
has-add_all x (y ∷ ys) ids = ground (arith, has-add_all x ys (add y ids), has-add x y ids)

has-collect_children :
    (me x : String) (rels : List MemberRelationship) (children : List String)
    → has x (collect_children me rels children) ≡ (has x children || has_edge me x rels)
unfolding collect_children
has-collect_children me x [] children = ground arith
has-collect_children me x (r ∷ rels) children = ground (
  arith,
  has-collect_children me x rels children,
  has-collect_children me x rels (add r.to_member_id children),
  has-add x r.to_member_id children,
)

has-collect_co_parents :
    (me x : String) (children : List String) (every rels : List MemberRelationship)
    (co_parents : List String)
    → ((y : String) → has y children ≡ has_edge me y every)
    → has x (collect_co_parents me children rels co_parents)
      ≡ (has x co_parents || shares_child me x every rels)
unfolding collect_co_parents
has-collect_co_parents me x children every [] co_parents h = ground arith
has-collect_co_parents me x children every (r ∷ rels) co_parents h = ground (
  arith,
  h r.to_member_id,
  has-collect_co_parents me x children every rels co_parents h,
  has-collect_co_parents me x children every rels (add r.from_member_id co_parents) h,
  has-add x r.from_member_id co_parents,
)

has-keep :
    (x : String) (t : String → Bool) (ids : List String) → has x (keep t ids) ≡ (has x ids && t x)
has-keep x t [] = refl
has-keep x t (y ∷ ids) = elim (Bool-cases (str_eq x y)) [
  | inl same ↦ ground (arith, same, ap t ((eq_iff x y).0 same), has-keep x t ids)
  | inr differs ↦ ground (arith, differs, has-keep x t ids)
]

-- The household is the member and whoever is active and either a child or ward of the member, or
-- another parent or guardian of one of these: one hop through a shared child, and no further.
pub has-household_ids :
    (me x : String) (relationships : List MemberRelationship) (members : List Member)
    → has x (household_ids me relationships members) ≡ (
        str_eq x me
        || (is_active (member_by_id x members)
            && (has_edge me x relationships || shares_child me x relationships relationships)))
unfolding household_ids
has-household_ids me x relationships members =
    let children = collect_children me relationships [] in
    let co_parents = collect_co_parents me children relationships [] in
    ground (
      arith,
      has-keep x (stays me members) (add_all co_parents (add_all children (me ∷ []))),
      has-add_all x co_parents (add_all children (me ∷ [])),
      has-add_all x children (me ∷ []),
      has-collect_children me x relationships [],
      has-collect_co_parents me x children relationships relationships []
          (λ y. has-collect_children me y relationships []),
    )

is_direct_guardian-has_edge :
    (actor target : String) (rels : List MemberRelationship)
    → is_direct_guardian actor target rels ≡ has_edge actor target rels
unfolding is_direct_guardian
is_direct_guardian-has_edge actor target [] = refl
is_direct_guardian-has_edge actor target (r ∷ rels) = ground (
  arith,
  is_direct_guardian-has_edge actor target rels,
  eq_iff r.to_member_id target,
  eq_iff target r.to_member_id,
)

-- Who may sign for an active member may also answer for them: a direct guardian has the member in the
-- household.
pub household_ids-is_direct_guardian :
    (actor target : String) (relationships : List MemberRelationship) (members : List Member)
    → is_direct_guardian actor target relationships ≡ true
    → is_active (member_by_id target members) ≡ true
    → has target (household_ids actor relationships members) ≡ true
household_ids-is_direct_guardian actor target relationships members guardian active =
    let edge = sym (is_direct_guardian-has_edge actor target relationships) ∙ guardian in
    has-household_ids actor target relationships members ∙ rw (active, edge) (ground arith)
