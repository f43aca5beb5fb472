-- ===== src/Web/Events.antt =====
-- Event and event type hooks, apps/web/src/hooks/use-events.ts.
use open_troop.Prelude.{String, Option, some, [], ◌∷◌}
use open_troop.Web.{
  fetched, sent, bare, template, shown, when_active, when_given, invalidate, set_data, QueryOptions,
  Mutation,
}
use open_troop.Doc.{Doc, Json, str}
use open_troop.Web.QueryKeys

abbrev pub use_events : String → QueryOptions
use_events t = when_active t (QueryKeys.events (some t)) (fetched "/events")

abbrev pub use_event : String → Option String → QueryOptions
use_event t id =
    when_given t id (QueryKeys.event (some t) id) (fetched (template ("/events/" ∷ shown id ∷ [])))

abbrev pub use_event_types : String → QueryOptions
use_event_types t = when_active t (QueryKeys.event_types (some t)) (fetched "/event-types")

abbrev pub use_event_type : String → Option String → QueryOptions
use_event_type t id =
    when_given t id (QueryKeys.event_type (some t) id)
      (fetched (template ("/event-types/" ∷ shown id ∷ [])))

abbrev pub use_create_event_type : String → Doc → Mutation
use_create_event_type t body = record {
  mutation_fn = sent "POST" "/event-types" body;
  on_success = invalidate (QueryKeys.event_types (some t)) ∷ [];
}

abbrev pub use_update_event_type : String → String → Doc → Json → Mutation
use_update_event_type t id fields updated = record {
  mutation_fn = sent "PATCH" (template ("/event-types/" ∷ id ∷ [])) fields;
  on_success =
      set_data (QueryKeys.event_type (some t) (some id)) updated
      ∷ invalidate (QueryKeys.event_types (some t))
      ∷ [];
}

abbrev pub use_delete_event_type : String → String → Mutation
use_delete_event_type t id = record {
  mutation_fn = bare "DELETE" (template ("/event-types/" ∷ id ∷ []));
  on_success = invalidate (QueryKeys.event_types (some t)) ∷ [];
}

abbrev pub use_event_participants : String → Option String → QueryOptions
use_event_participants t event_id =
    when_given t event_id (QueryKeys.event_participants (some t) event_id)
      (fetched (template ("/events/" ∷ shown event_id ∷ "/participants" ∷ [])))

abbrev pub use_event_counts : String → Option String → QueryOptions
use_event_counts t event_id =
    when_given t event_id (QueryKeys.event_counts (some t) event_id)
      (fetched (template ("/events/" ∷ shown event_id ∷ "/counts" ∷ [])))

abbrev pub use_add_participant : String → String → Doc → Mutation
use_add_participant t event_id body = record {
  mutation_fn = sent "POST" (template ("/events/" ∷ event_id ∷ "/participants" ∷ [])) body;
  on_success =
      invalidate (QueryKeys.event_participants (some t) (some event_id))
      ∷ invalidate (QueryKeys.event_counts (some t) (some event_id))
      ∷ [];
}

abbrev pub use_update_participant : String → String → String → Doc → Mutation
use_update_participant t event_id member_id body = record {
  mutation_fn =
      sent "PATCH" (template ("/events/" ∷ event_id ∷ "/participants/" ∷ member_id ∷ [])) body;
  on_success =
      invalidate (QueryKeys.event_participants (some t) (some event_id))
      ∷ invalidate (QueryKeys.event_counts (some t) (some event_id))
      ∷ [];
}

abbrev pub use_grant_permission : String → String → String → String → Mutation
use_grant_permission t event_id member_id signature = record {
  mutation_fn =
      sent "POST"
        (template ("/events/" ∷ event_id ∷ "/participants/" ∷ member_id ∷ "/permission" ∷ []))
        (("signature", str signature) ∷ []);
  on_success = invalidate (QueryKeys.event_participants (some t) (some event_id)) ∷ [];
}

abbrev pub use_create_event : String → Doc → Mutation
use_create_event t body = record {
  mutation_fn = sent "POST" "/events" body;
  on_success = invalidate (QueryKeys.events (some t)) ∷ [];
}

abbrev pub use_update_event : String → String → Doc → Json → Mutation
use_update_event t id fields updated = record {
  mutation_fn = sent "PATCH" (template ("/events/" ∷ id ∷ [])) fields;
  on_success =
      set_data (QueryKeys.event (some t) (some id)) updated
      ∷ invalidate (QueryKeys.events (some t))
      ∷ [];
}
