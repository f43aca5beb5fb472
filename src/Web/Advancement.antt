-- ===== src/Web/Advancement.antt =====
-- Advancement, apps/web/src/hooks/use-advancement.ts.
use open_troop.Prelude.{String, Bool, ◌&&◌, Option, none, some, List, [], ◌∷◌, if◌then◌else◌}
use open_troop.Web.{
  value, word, QueryKey, fetched, sent, bare, template, shown, truthy, when_active, when_given,
  invalidate, QueryOptions, Effect, Mutation,
}
use open_troop.Doc.{Doc}
use open_troop.Web.QueryKeys

abbrev pub use_advancement_ranks : String → QueryOptions
use_advancement_ranks t =
    when_active t (QueryKeys.advancement_ranks (some t)) (fetched "/advancement/ranks")

abbrev pub use_merit_badges : String → QueryOptions
use_merit_badges t = when_active t (QueryKeys.merit_badges (some t)) (fetched "/merit-badges")

abbrev pub use_member_advancement : String → Option String → QueryOptions
use_member_advancement t member_id =
    when_given t member_id (QueryKeys.member_advancement (some t) member_id)
      (fetched (template ("/members/" ∷ shown member_id ∷ "/advancement" ∷ [])))

abbrev pub use_advancement_scouts : String → QueryOptions
use_advancement_scouts t =
    when_active t (QueryKeys.advancement_scouts (some t)) (fetched "/advancement/scouts")

-- `enabled` is an argument of the hook.
abbrev pub use_advancement_queue : Bool → String → QueryOptions
use_advancement_queue enabled t = record {
  query_key = QueryKeys.advancement_queue (some t);
  query_fn = fetched "/advancement/queue";
  enabled = enabled && truthy t;
}

-- What is invalidated first: one member, or all of them where no member is given.
abbrev advancement_key : String → Option String → QueryKey
advancement_key t none = value (some t) ∷ word "member-advancement" ∷ []
advancement_key t (some id) =
    if truthy id
    then QueryKeys.member_advancement (some t) (some id)
    else value (some t) ∷ word "member-advancement" ∷ []

abbrev pub use_invalidate_advancement : String → Option String → List Effect
use_invalidate_advancement t member_id =
    invalidate (advancement_key t member_id)
    ∷ invalidate (QueryKeys.advancement_queue (some t))
    ∷ []

abbrev pub use_create_completion : String → String → Doc → Mutation
use_create_completion t member_id body = record {
  mutation_fn =
      sent "POST" (template ("/members/" ∷ member_id ∷ "/advancement/completions" ∷ [])) body;
  on_success = use_invalidate_advancement t (some member_id);
}

abbrev pub use_update_completion : String → String → Doc → Mutation
use_update_completion t id fields = record {
  mutation_fn = sent "PATCH" (template ("/advancement/completions/" ∷ id ∷ [])) fields;
  on_success = use_invalidate_advancement t none;
}

abbrev pub use_revoke_completion : String → String → Mutation
use_revoke_completion t id = record {
  mutation_fn = bare "DELETE" (template ("/advancement/completions/" ∷ id ∷ []));
  on_success = use_invalidate_advancement t none;
}

abbrev pub use_create_member_merit_badge : String → String → Doc → Mutation
use_create_member_merit_badge t member_id body = record {
  mutation_fn = sent "POST" (template ("/members/" ∷ member_id ∷ "/merit-badges" ∷ [])) body;
  on_success = use_invalidate_advancement t (some member_id);
}

abbrev pub use_update_member_merit_badge : String → String → Doc → Mutation
use_update_member_merit_badge t id fields = record {
  mutation_fn = sent "PATCH" (template ("/advancement/merit-badges/" ∷ id ∷ [])) fields;
  on_success = use_invalidate_advancement t none;
}

abbrev pub use_update_rank_progress : String → String → String → Doc → Mutation
use_update_rank_progress t member_id rank_id fields = record {
  mutation_fn =
      sent "PATCH" (template ("/members/" ∷ member_id ∷ "/advancement/ranks/" ∷ rank_id ∷ []))
        fields;
  on_success = use_invalidate_advancement t (some member_id);
}
