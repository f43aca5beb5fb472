-- ===== src/MobileHooks.antt =====
-- The online hooks of the mobile app, apps/mobile/src/hooks/ (use-advancement.ts, use-event-photos.ts,
-- use-messaging.ts, use-data.ts) and `useApiRequest` of apps/mobile/src/lib/api.ts, with the query client
-- of Web.antt. The active tenant's id is optional: `undefined` is the segment of `none`.
pub mod Calendar
pub mod Advancing
use mathlib.Core.Option
use open_troop.Commands.Drain.{object_of, error_detail, HttpResponse}
use open_troop.Prelude.{
  ℕ, String, Bool, true, ◌&&◌, Option, none, some, get_or, List, [], ◌∷◌, map, leb, if◌then◌else◌,
}
use open_troop.Doc.{Doc, get, to_text, Json, null}
use open_troop.Web.{
  word, QueryKey, fetched, sent, bare, template, shown, truthy, is_some, value, Call, QueryOptions,
  Effect, invalidate, Mutation,
}

-- `[tenantId, kind]` and `[tenantId, kind, id]`
abbrev pub tenant_key : Option String → String → QueryKey
tenant_key t kind = value t ∷ word kind ∷ []

abbrev pub part_key : Option String → String → Option String → QueryKey
part_key t kind id = value t ∷ word kind ∷ value id ∷ []

abbrev online : Option String → String → String → QueryOptions
online t kind path = record {
  query_key = tenant_key t kind;
  query_fn = fetched path;
  enabled = is_some t;
}

abbrev online_part : Option String → Option String → String → String → QueryOptions
online_part t id kind path = record {
  query_key = part_key t kind id;
  query_fn = fetched path;
  enabled = is_some t && is_some id;
}

abbrev pub use_advancement_scouts : Option String → QueryOptions
use_advancement_scouts t = online t "advancement-scouts" "/advancement/scouts"

abbrev pub use_member_advancement : Option String → Option String → QueryOptions
use_member_advancement t member_id =
    online_part t member_id "member-advancement"
      (template ("/members/" ∷ shown member_id ∷ "/advancement" ∷ []))

abbrev pub use_merit_badge_catalog : Option String → QueryOptions
use_merit_badge_catalog t = online t "merit-badges" "/merit-badges"

abbrev pub use_tenant_settings : Option String → QueryOptions
use_tenant_settings t = online t "tenant-settings" "/tenant/settings"

-- `enabled` is an argument of the hook.
abbrev pub use_advancement_queue : Bool → Option String → QueryOptions
use_advancement_queue enabled t = record {
  query_key = tenant_key t "advancement-queue";
  query_fn = fetched "/advancement/queue";
  enabled = enabled && is_some t;
}

abbrev pub use_event_photos : Option String → Option String → QueryOptions
use_event_photos t event_id =
    online_part t event_id "event-photos" (template ("/events/" ∷ shown event_id ∷ "/photos" ∷ []))

abbrev pub use_storage_usage : Option String → QueryOptions
use_storage_usage t = online t "storage-usage" "/storage/usage"

-- `enabled` is an argument of the hook.
abbrev pub use_groups_online : Bool → Option String → QueryOptions
use_groups_online enabled t = record {
  query_key = tenant_key t "groups-online";
  query_fn = fetched "/groups";
  enabled = enabled && is_some t;
}

abbrev pub use_memberships : QueryOptions
use_memberships = record {
  query_key = word "memberships" ∷ [];
  query_fn = fetched "/auth/memberships";
  enabled = true;
}

-- What is invalidated first: one member, or all of them where no member is given
abbrev pub moved_key : Option String → Option String → QueryKey
moved_key t none = tenant_key t "member-advancement"
moved_key t (some id) =
    if truthy id
    then part_key t "member-advancement" (some id)
    else tenant_key t "member-advancement"

abbrev pub use_invalidate_advancement : Option String → Option String → List Effect
use_invalidate_advancement t member_id =
    invalidate (moved_key t member_id) ∷ invalidate (tenant_key t "advancement-queue") ∷ []

abbrev pub use_record_completion : Option String → String → Doc → Mutation
use_record_completion t member_id fields = record {
  mutation_fn =
      sent "POST" (template ("/members/" ∷ member_id ∷ "/advancement/completions" ∷ [])) fields;
  on_success = use_invalidate_advancement t (some member_id);
}

abbrev pub use_update_completion : Option String → String → Doc → Mutation
use_update_completion t id fields = record {
  mutation_fn = sent "PATCH" (template ("/advancement/completions/" ∷ id ∷ [])) fields;
  on_success = use_invalidate_advancement t none;
}

abbrev pub use_revoke_completion : Option String → String → Mutation
use_revoke_completion t id = record {
  mutation_fn = bare "DELETE" (template ("/advancement/completions/" ∷ id ∷ []));
  on_success = use_invalidate_advancement t none;
}

abbrev pub use_record_merit_badge : Option String → String → Doc → Mutation
use_record_merit_badge t member_id fields = record {
  mutation_fn = sent "POST" (template ("/members/" ∷ member_id ∷ "/merit-badges" ∷ [])) fields;
  on_success = use_invalidate_advancement t (some member_id);
}

abbrev pub use_update_merit_badge : Option String → String → Doc → Mutation
use_update_merit_badge t id fields = record {
  mutation_fn = sent "PATCH" (template ("/advancement/merit-badges/" ∷ id ∷ [])) fields;
  on_success = use_invalidate_advancement t none;
}

abbrev pub use_update_rank_progress : Option String → String → String → Doc → Mutation
use_update_rank_progress t member_id rank_id fields = record {
  mutation_fn =
      sent "PATCH" (template ("/members/" ∷ member_id ∷ "/advancement/ranks/" ∷ rank_id ∷ []))
        fields;
  on_success = use_invalidate_advancement t (some member_id);
}

abbrev pub use_delete_photo : Option String → String → String → Mutation
use_delete_photo t event_id photo_id = record {
  mutation_fn = bare "DELETE" (template ("/photos/" ∷ photo_id ∷ []));
  on_success =
      invalidate (part_key t "event-photos" (some event_id))
      ∷ invalidate (tenant_key t "storage-usage")
      ∷ [];
}

abbrev pub use_download_url : String → Call
use_download_url photo_id = fetched (template ("/photos/" ∷ photo_id ∷ "/download" ∷ []))

-- `ApiError`
pub record ApiError : Type 0 where
  pub status : ℕ
  pub message : String

pub data ApiResult : Type 0 where
  answered : Json → ApiResult
  refused : ApiError → ApiResult

-- `useApiRequest`, from the response on; `none` is no client.
abbrev pub use_api_request : Option (HttpResponse Json) → ApiResult
use_api_request none = refused (record { status = 0; message = "No active troop" })
use_api_request (some response) =
    if leb 400 response.status
    then refused
        (record { status = response.status; message = error_detail response.body response.status })
    else answered response.body

-- `created[part].id`, in a template literal
abbrev id_in : String → Json → String
id_in part created =
    get_or (Option.map to_text (get "id" (object_of (get_or (get part (object_of created)) null))))
      "undefined"

-- `request` is `useApiRequest`, with the awaits in their order.
module _ (request : Call → ApiResult) where
  abbrev sent_message : Json → ApiResult → ApiResult
  sent_message created (refused e) = refused e
  sent_message created (answered body) = answered created

  abbrev send_created : ApiResult → ApiResult
  send_created (refused e) = refused e
  send_created (answered created) =
      sent_message created
        (request (bare "POST" (template ("/messages/" ∷ id_in "message" created ∷ "/send" ∷ []))))

  -- `useComposeAndSend`
  abbrev pub use_compose_and_send : Doc → ApiResult
  use_compose_and_send data' = send_created (request (sent "POST" "/messages" data'))
