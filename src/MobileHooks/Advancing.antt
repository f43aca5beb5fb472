-- ===== src/MobileHooks/Advancing.antt =====
-- What is fetched again after a change of advancement: apps/mobile/src/hooks/use-advancement.ts.
use open_troop.Prelude.{
  String, ◌≡◌, refl, ap, inl, inr, Bool, true, Option, none, some, arith, Bool-cases,
}
use open_troop.Doc.{Doc}
use open_troop.Web.{truthy, run_effects, value, Mutation, QueryClient}
use open_troop.Web.Reach.{IsPrefixOf}
use open_troop.Web.Refetch.{run_effects_refetch}
use open_troop.MobileHooks.{
  use_member_advancement, use_advancement_queue, moved_key, use_invalidate_advancement,
  use_record_completion, use_update_completion, use_revoke_completion, use_record_merit_badge,
  use_update_merit_badge, use_update_rank_progress,
}

-- The mutation hooks of the file, each with the variables of `mutate`.
pub data AdvancementMutation : Type 0 where
  record_completion : String → Doc → AdvancementMutation
  update_completion : String → Doc → AdvancementMutation
  revoke_completion : String → AdvancementMutation
  record_merit_badge : String → Doc → AdvancementMutation
  update_merit_badge : String → Doc → AdvancementMutation
  update_rank_progress : String → String → Doc → AdvancementMutation

abbrev pub advancement_mutation : Option String → AdvancementMutation → Mutation
advancement_mutation t (record_completion member_id fields) =
    use_record_completion t member_id fields
advancement_mutation t (update_completion id fields) = use_update_completion t id fields
advancement_mutation t (revoke_completion id) = use_revoke_completion t id
advancement_mutation t (record_merit_badge member_id fields) =
    use_record_merit_badge t member_id fields
advancement_mutation t (update_merit_badge id fields) = use_update_merit_badge t id fields
advancement_mutation t (update_rank_progress member_id rank_id fields) =
    use_update_rank_progress t member_id rank_id fields

-- The member that the variables name, where they name one.
abbrev pub member_of : AdvancementMutation → Option String
member_of (record_completion member_id fields) = some member_id
member_of (record_merit_badge member_id fields) = some member_id
member_of (update_rank_progress member_id rank_id fields) = some member_id
member_of _ = none

-- The change may be one of the advancement of the member.
abbrev pub Concerns : String → Option String → Type 0
Concerns id none = Unit {0}
Concerns id (some member_id) = member_id ≡ id

on_success-eq :
    (t : Option String) (m : AdvancementMutation)
    → (advancement_mutation t m).on_success ≡ use_invalidate_advancement t (member_of m)
on_success-eq t m = ground arith

module _ (client : QueryClient) (t : Option String) where
  open client use {Cache, needs_fetch}

  moved_key-IsPrefixOf :
      (id : String) (member : Option String)
      → Concerns id member
      → IsPrefixOf (moved_key t member) (use_member_advancement t (some id)).query_key
  moved_key-IsPrefixOf id none _ = (refl, (refl, tt))
  moved_key-IsPrefixOf id (some member_id) same = elim (Bool-cases (truthy member_id)) [
    | inl given ↦ rw given (refl, (refl, (ap (λ i. value (some i)) same, tt)))
    | inr empty ↦ rw empty (refl, (refl, tt))
  ]

  -- With any query client that keeps its laws and any cache: after an advancement mutation succeeds, the
  -- queue of the active tenant is fetched again, and so is the advancement of each member that the
  -- mutation may concern: the one that it names, or every one if it names none.
  pub advancement_refetched :
      (m : AdvancementMutation) (enabled : Bool) (id : String) (c : Cache)
      → Concerns id (member_of m)
      → (needs_fetch
            (use_member_advancement t (some id)).query_key
            (run_effects client (advancement_mutation t m).on_success c)
          ≡ true)
        × (needs_fetch
              (use_advancement_queue enabled t).query_key
              (run_effects client (advancement_mutation t m).on_success c)
            ≡ true)
  advancement_refetched m enabled id c concerns =
      let es = use_invalidate_advancement t (member_of m) in
      let moved = moved_key t (member_of m) in
      let queue = (use_advancement_queue enabled t).query_key in
      rw (on_success-eq t m) (
        run_effects_refetch client es moved (use_member_advancement t (some id)).query_key c tt
            (inl refl) (moved_key-IsPrefixOf id (member_of m) concerns),
        run_effects_refetch client es queue queue c tt (inr (inl refl)) (refl, (refl, tt)),
      )
