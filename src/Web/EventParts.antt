-- ===== src/Web/EventParts.antt =====
-- What hangs on an event: audiences and organizers of apps/web/src/hooks/use-events.ts, the slots of
-- use-event-slots.ts and the photos of use-event-photos.ts.
use open_troop.Prelude.{String, Option, some, [], ◌∷◌}
use open_troop.Web.{
  fetched, sent, bare, template, shown, string_or_null, when_active, when_given, invalidate,
  QueryOptions, Mutation,
}
use open_troop.Doc.{Doc, str}
use open_troop.Web.QueryKeys

abbrev pub use_event_audiences : String → Option String → QueryOptions
use_event_audiences t event_id =
    when_given t event_id (QueryKeys.event_audiences (some t) event_id)
      (fetched (template ("/events/" ∷ shown event_id ∷ "/audiences" ∷ [])))

abbrev pub use_add_event_audience : String → String → String → Mutation
use_add_event_audience t event_id group_id = record {
  mutation_fn =
      sent "POST" (template ("/events/" ∷ event_id ∷ "/audiences" ∷ []))
        (("group_id", str group_id) ∷ []);
  on_success = invalidate (QueryKeys.event_audiences (some t) (some event_id)) ∷ [];
}

abbrev pub use_remove_event_audience : String → String → String → Mutation
use_remove_event_audience t event_id group_id = record {
  mutation_fn = bare "DELETE" (template ("/events/" ∷ event_id ∷ "/audiences/" ∷ group_id ∷ []));
  on_success = invalidate (QueryKeys.event_audiences (some t) (some event_id)) ∷ [];
}

abbrev pub use_event_organizers : String → Option String → QueryOptions
use_event_organizers t event_id =
    when_given t event_id (QueryKeys.event_organizers (some t) event_id)
      (fetched (template ("/events/" ∷ shown event_id ∷ "/organizers" ∷ [])))

abbrev pub use_add_event_organizer : String → String → String → Mutation
use_add_event_organizer t event_id member_id = record {
  mutation_fn =
      sent "POST" (template ("/events/" ∷ event_id ∷ "/organizers" ∷ []))
        (("member_id", str member_id) ∷ []);
  on_success = invalidate (QueryKeys.event_organizers (some t) (some event_id)) ∷ [];
}

abbrev pub use_remove_event_organizer : String → String → String → Mutation
use_remove_event_organizer t event_id member_id = record {
  mutation_fn = bare "DELETE" (template ("/events/" ∷ event_id ∷ "/organizers/" ∷ member_id ∷ []));
  on_success = invalidate (QueryKeys.event_organizers (some t) (some event_id)) ∷ [];
}

abbrev pub use_event_slots : String → Option String → QueryOptions
use_event_slots t event_id =
    when_given t event_id (QueryKeys.event_slots (some t) event_id)
      (fetched (template ("/events/" ∷ shown event_id ∷ "/slots" ∷ [])))

abbrev pub use_create_slot : String → String → Doc → Mutation
use_create_slot t event_id fields = record {
  mutation_fn = sent "POST" (template ("/events/" ∷ event_id ∷ "/slots" ∷ [])) fields;
  on_success = invalidate (QueryKeys.event_slots (some t) (some event_id)) ∷ [];
}

abbrev pub use_update_slot : String → String → String → Doc → Mutation
use_update_slot t event_id slot_id fields = record {
  mutation_fn = sent "PATCH" (template ("/events/" ∷ event_id ∷ "/slots/" ∷ slot_id ∷ [])) fields;
  on_success = invalidate (QueryKeys.event_slots (some t) (some event_id)) ∷ [];
}

abbrev pub use_delete_slot : String → String → String → Mutation
use_delete_slot t event_id slot_id = record {
  mutation_fn = bare "DELETE" (template ("/events/" ∷ event_id ∷ "/slots/" ∷ slot_id ∷ []));
  on_success = invalidate (QueryKeys.event_slots (some t) (some event_id)) ∷ [];
}

abbrev pub use_join_slot : String → String → String → String → Mutation
use_join_slot t event_id slot_id member_id = record {
  mutation_fn =
      sent "POST" (template ("/events/" ∷ event_id ∷ "/slots/" ∷ slot_id ∷ "/signups" ∷ []))
        (("member_id", str member_id) ∷ []);
  on_success = invalidate (QueryKeys.event_slots (some t) (some event_id)) ∷ [];
}

abbrev pub use_leave_slot : String → String → String → String → Mutation
use_leave_slot t event_id slot_id member_id = record {
  mutation_fn =
      bare "DELETE"
        (template ("/events/" ∷ event_id ∷ "/slots/" ∷ slot_id ∷ "/signups/" ∷ member_id ∷ []));
  on_success = invalidate (QueryKeys.event_slots (some t) (some event_id)) ∷ [];
}

abbrev pub use_event_photos : String → Option String → QueryOptions
use_event_photos t event_id =
    when_given t event_id (QueryKeys.event_photos (some t) event_id)
      (fetched (template ("/events/" ∷ shown event_id ∷ "/photos" ∷ [])))

abbrev pub use_storage_usage : String → QueryOptions
use_storage_usage t = when_active t (QueryKeys.storage_usage (some t)) (fetched "/storage/usage")

abbrev pub use_delete_photo : String → String → String → Mutation
use_delete_photo t event_id photo_id = record {
  mutation_fn = bare "DELETE" (template ("/photos/" ∷ photo_id ∷ []));
  on_success =
      invalidate (QueryKeys.event_photos (some t) (some event_id))
      ∷ invalidate (QueryKeys.storage_usage (some t))
      ∷ [];
}

abbrev pub use_update_photo_caption : String → String → String → Option String → Mutation
use_update_photo_caption t event_id photo_id caption = record {
  mutation_fn =
      sent "PATCH" (template ("/photos/" ∷ photo_id ∷ []))
        (("caption", string_or_null caption) ∷ []);
  on_success = invalidate (QueryKeys.event_photos (some t) (some event_id)) ∷ [];
}
