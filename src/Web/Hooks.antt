-- ===== src/Web/Hooks.antt =====
-- The tenant's hooks of apps/web/src/hooks/ in one place: every query and every mutation that works
-- on the active tenant, with the arguments that the hook and its `mutate` take.
use open_troop.Prelude.{String, Bool, Option, List}
use open_troop.Doc.{Doc, Json, Properties}
use open_troop.Web.{QueryOptions, Mutation}
use open_troop.Web.Groups.{
  use_groups, use_group, use_group_members, use_group_manual_members, use_group_roster,
  use_group_rules, use_create_group, use_update_group, use_delete_group, use_add_group_member,
  use_remove_group_member, use_upsert_group_rule, use_delete_group_rule,
}
use open_troop.Web.Events.{
  use_events, use_event, use_event_types, use_event_type, use_create_event_type,
  use_update_event_type, use_delete_event_type, use_event_participants, use_event_counts,
  use_add_participant, use_update_participant, use_grant_permission, use_create_event,
  use_update_event,
}
use open_troop.Web.EventParts.{
  use_event_audiences, use_add_event_audience, use_remove_event_audience, use_event_organizers,
  use_add_event_organizer, use_remove_event_organizer, use_event_slots, use_create_slot,
  use_update_slot, use_delete_slot, use_join_slot, use_leave_slot, use_event_photos,
  use_storage_usage, use_delete_photo, use_update_photo_caption,
}
use open_troop.Web.Roles.{
  use_positions, use_position, use_create_position, use_update_position, use_delete_position,
  use_position_functional_roles, use_attach_functional_role, use_detach_functional_role,
  use_functional_roles, use_functional_role, use_create_functional_role, use_update_functional_role,
  use_delete_functional_role, use_functional_role_permissions, use_grant_functional_role_permission,
  use_revoke_functional_role_permission,
}
use open_troop.Web.Members.{
  use_members, use_member, use_create_member, use_update_member, use_purge_member,
  use_member_positions, use_assign_member_position, use_update_member_position_term,
  use_remove_member_position, use_relationships, use_create_relationship, use_delete_relationship,
  use_family,
}
use open_troop.Web.Advancement.{
  use_advancement_ranks, use_merit_badges, use_member_advancement, use_advancement_scouts,
  use_advancement_queue, use_create_completion, use_update_completion, use_revoke_completion,
  use_create_member_merit_badge, use_update_member_merit_badge, use_update_rank_progress,
}
use open_troop.Web.Messages.{
  use_messages, use_message, use_recipient_preview, use_recipient_preview_for, use_inbox,
  use_create_message, use_send_message, use_mark_inbox_read,
}
use open_troop.Web.Account.{
  use_session, use_notification_preferences, use_update_notification_preferences,
  use_tenant_settings, use_update_tenant_settings, use_locations,
}
use open_troop.Web.Reports.{use_report_catalog, use_report}

-- The query hooks that read `useActiveTenant`
pub data TenantQuery : Type 0 where
  ask_groups : TenantQuery
  ask_group : (id : Option String) → TenantQuery
  ask_group_members : (group_id : Option String) → TenantQuery
  ask_group_manual_members : (group_id : Option String) → TenantQuery
  ask_group_roster : TenantQuery
  ask_group_rules : (group_id : Option String) → TenantQuery
  ask_events : TenantQuery
  ask_event : (id : Option String) → TenantQuery
  ask_event_types : TenantQuery
  ask_event_type : (id : Option String) → TenantQuery
  ask_event_participants : (event_id : Option String) → TenantQuery
  ask_event_counts : (event_id : Option String) → TenantQuery
  ask_event_audiences : (event_id : Option String) → TenantQuery
  ask_event_organizers : (event_id : Option String) → TenantQuery
  ask_event_slots : (event_id : Option String) → TenantQuery
  ask_event_photos : (event_id : Option String) → TenantQuery
  ask_storage_usage : TenantQuery
  ask_positions : TenantQuery
  ask_position : (position_id : Option String) → TenantQuery
  ask_position_functional_roles : (position_id : Option String) → TenantQuery
  ask_functional_roles : TenantQuery
  ask_functional_role : (role_id : Option String) → TenantQuery
  ask_functional_role_permissions : (role_id : Option String) → TenantQuery
  ask_members : TenantQuery
  ask_member : (id : Option String) → TenantQuery
  ask_member_positions : (member_id : Option String) → (history : Option Bool) → TenantQuery
  ask_relationships : (member_id : Option String) → TenantQuery
  ask_family : TenantQuery
  ask_advancement_ranks : TenantQuery
  ask_merit_badges : TenantQuery
  ask_member_advancement : (member_id : Option String) → TenantQuery
  ask_advancement_scouts : TenantQuery
  ask_advancement_queue : (enabled : Bool) → TenantQuery
  ask_messages : (enabled : Bool) → TenantQuery
  ask_message : (id : Option String) → TenantQuery
  ask_recipient_preview : (id : Option String) → TenantQuery
  ask_recipient_preview_for : (body : Option Doc) → TenantQuery
  ask_inbox : TenantQuery
  ask_session : (enabled : Bool) → TenantQuery
  ask_notification_preferences : TenantQuery
  ask_tenant_settings : TenantQuery
  ask_locations : TenantQuery
  ask_report_catalog : TenantQuery
  ask_report : (key : Option String) → (params : Doc) → TenantQuery

abbrev pub tenant_query : String → TenantQuery → QueryOptions
tenant_query t ask_groups = use_groups t
tenant_query t (ask_group id) = use_group t id
tenant_query t (ask_group_members group_id) = use_group_members t group_id
tenant_query t (ask_group_manual_members group_id) = use_group_manual_members t group_id
tenant_query t ask_group_roster = use_group_roster t
tenant_query t (ask_group_rules group_id) = use_group_rules t group_id
tenant_query t ask_events = use_events t
tenant_query t (ask_event id) = use_event t id
tenant_query t ask_event_types = use_event_types t
tenant_query t (ask_event_type id) = use_event_type t id
tenant_query t (ask_event_participants event_id) = use_event_participants t event_id
tenant_query t (ask_event_counts event_id) = use_event_counts t event_id
tenant_query t (ask_event_audiences event_id) = use_event_audiences t event_id
tenant_query t (ask_event_organizers event_id) = use_event_organizers t event_id
tenant_query t (ask_event_slots event_id) = use_event_slots t event_id
tenant_query t (ask_event_photos event_id) = use_event_photos t event_id
tenant_query t ask_storage_usage = use_storage_usage t
tenant_query t ask_positions = use_positions t
tenant_query t (ask_position position_id) = use_position t position_id
tenant_query t (ask_position_functional_roles position_id) =
    use_position_functional_roles t position_id
tenant_query t ask_functional_roles = use_functional_roles t
tenant_query t (ask_functional_role role_id) = use_functional_role t role_id
tenant_query t (ask_functional_role_permissions role_id) = use_functional_role_permissions t role_id
tenant_query t ask_members = use_members t
tenant_query t (ask_member id) = use_member t id
tenant_query t (ask_member_positions member_id history) = use_member_positions t member_id history
tenant_query t (ask_relationships member_id) = use_relationships t member_id
tenant_query t ask_family = use_family t
tenant_query t ask_advancement_ranks = use_advancement_ranks t
tenant_query t ask_merit_badges = use_merit_badges t
tenant_query t (ask_member_advancement member_id) = use_member_advancement t member_id
tenant_query t ask_advancement_scouts = use_advancement_scouts t
tenant_query t (ask_advancement_queue enabled) = use_advancement_queue enabled t
tenant_query t (ask_messages enabled) = use_messages enabled t
tenant_query t (ask_message id) = use_message t id
tenant_query t (ask_recipient_preview id) = use_recipient_preview t id
tenant_query t (ask_recipient_preview_for body) = use_recipient_preview_for t body
tenant_query t ask_inbox = use_inbox t
tenant_query t (ask_session enabled) = use_session enabled t
tenant_query t ask_notification_preferences = use_notification_preferences t
tenant_query t ask_tenant_settings = use_tenant_settings t
tenant_query t ask_locations = use_locations t
tenant_query t ask_report_catalog = use_report_catalog t
tenant_query t (ask_report key params) = use_report t key params

-- The mutation hooks that read `useActiveTenant`; what the server answers is an argument where the
-- success handler stores it
pub data TenantMutation : Type 0 where
  create_group : (body : Doc) → TenantMutation
  update_group : (id : String) → (fields : Doc) → TenantMutation
  delete_group : (id : String) → TenantMutation
  add_group_member : (group_id : String) → (member_id : String) → TenantMutation
  remove_group_member : (group_id : String) → (member_id : String) → TenantMutation
  upsert_group_rule :
      (group_id : String) → (dimension : String) → (values : Option (List String)) → TenantMutation
  delete_group_rule : (group_id : String) → (dimension : String) → TenantMutation
  create_event_type : (body : Doc) → TenantMutation
  update_event_type : (id : String) → (fields : Doc) → (updated : Json) → TenantMutation
  delete_event_type : (id : String) → TenantMutation
  add_participant : (event_id : String) → (body : Doc) → TenantMutation
  update_participant : (event_id : String) → (member_id : String) → (body : Doc) → TenantMutation
  grant_permission :
      (event_id : String) → (member_id : String) → (signature : String) → TenantMutation
  create_event : (body : Doc) → TenantMutation
  update_event : (id : String) → (fields : Doc) → (updated : Json) → TenantMutation
  add_event_audience : (event_id : String) → (group_id : String) → TenantMutation
  remove_event_audience : (event_id : String) → (group_id : String) → TenantMutation
  add_event_organizer : (event_id : String) → (member_id : String) → TenantMutation
  remove_event_organizer : (event_id : String) → (member_id : String) → TenantMutation
  create_slot : (event_id : String) → (fields : Doc) → TenantMutation
  update_slot : (event_id : String) → (slot_id : String) → (fields : Doc) → TenantMutation
  delete_slot : (event_id : String) → (slot_id : String) → TenantMutation
  join_slot : (event_id : String) → (slot_id : String) → (member_id : String) → TenantMutation
  leave_slot : (event_id : String) → (slot_id : String) → (member_id : String) → TenantMutation
  delete_photo : (event_id : String) → (photo_id : String) → TenantMutation
  update_photo_caption :
      (event_id : String) → (photo_id : String) → (caption : Option String) → TenantMutation
  create_position : (fields : Doc) → TenantMutation
  update_position : (id : String) → (fields : Doc) → TenantMutation
  delete_position : (id : String) → TenantMutation
  attach_functional_role : (position_id : String) → (functional_role_id : String) → TenantMutation
  detach_functional_role : (position_id : String) → (functional_role_id : String) → TenantMutation
  create_functional_role : (fields : Doc) → TenantMutation
  update_functional_role : (id : String) → (fields : Doc) → TenantMutation
  delete_functional_role : (id : String) → TenantMutation
  grant_functional_role_permission : (role_id : String) → (permission : String) → TenantMutation
  revoke_functional_role_permission : (role_id : String) → (permission : String) → TenantMutation
  create_member : (body : Doc) → TenantMutation
  update_member : (id : String) → (fields : Doc) → (updated : Properties) → TenantMutation
  purge_member : (id : String) → (confirm_name : String) → TenantMutation
  assign_member_position :
      (member_id : String)
      → (position_id : String) → (start_date : Option String) → (end_date : Option String)
      → TenantMutation
  update_member_position_term :
      (member_id : String) → (assignment_id : String) → (fields : Doc) → TenantMutation
  remove_member_position : (member_id : String) → (assignment_id : String) → TenantMutation
  create_relationship :
      (from_member_id : String)
      → (to_member_id : String) → (relationship_type : String) → TenantMutation
  delete_relationship : (rel_id : String) → (member_id : String) → TenantMutation
  create_completion : (member_id : String) → (body : Doc) → TenantMutation
  update_completion : (id : String) → (fields : Doc) → TenantMutation
  revoke_completion : (id : String) → TenantMutation
  create_member_merit_badge : (member_id : String) → (body : Doc) → TenantMutation
  update_member_merit_badge : (id : String) → (fields : Doc) → TenantMutation
  update_rank_progress : (member_id : String) → (rank_id : String) → (fields : Doc) → TenantMutation
  create_message : (fields : Doc) → TenantMutation
  send_message : (id : String) → TenantMutation
  mark_inbox_read : (recipient_id : String) → TenantMutation
  update_notification_preferences : (body : Doc) → TenantMutation
  update_tenant_settings : (body : Doc) → TenantMutation

abbrev pub tenant_mutation : String → TenantMutation → Mutation
tenant_mutation t (create_group body) = use_create_group t body
tenant_mutation t (update_group id fields) = use_update_group t id fields
tenant_mutation t (delete_group id) = use_delete_group t id
tenant_mutation t (add_group_member group_id member_id) = use_add_group_member t group_id member_id
tenant_mutation t (remove_group_member group_id member_id) =
    use_remove_group_member t group_id member_id
tenant_mutation t (upsert_group_rule group_id dimension values) =
    use_upsert_group_rule t group_id dimension values
tenant_mutation t (delete_group_rule group_id dimension) =
    use_delete_group_rule t group_id dimension
tenant_mutation t (create_event_type body) = use_create_event_type t body
tenant_mutation t (update_event_type id fields updated) = use_update_event_type t id fields updated
tenant_mutation t (delete_event_type id) = use_delete_event_type t id
tenant_mutation t (add_participant event_id body) = use_add_participant t event_id body
tenant_mutation t (update_participant event_id member_id body) =
    use_update_participant t event_id member_id body
tenant_mutation t (grant_permission event_id member_id signature) =
    use_grant_permission t event_id member_id signature
tenant_mutation t (create_event body) = use_create_event t body
tenant_mutation t (update_event id fields updated) = use_update_event t id fields updated
tenant_mutation t (add_event_audience event_id group_id) =
    use_add_event_audience t event_id group_id
tenant_mutation t (remove_event_audience event_id group_id) =
    use_remove_event_audience t event_id group_id
tenant_mutation t (add_event_organizer event_id member_id) =
    use_add_event_organizer t event_id member_id
tenant_mutation t (remove_event_organizer event_id member_id) =
    use_remove_event_organizer t event_id member_id
tenant_mutation t (create_slot event_id fields) = use_create_slot t event_id fields
tenant_mutation t (update_slot event_id slot_id fields) = use_update_slot t event_id slot_id fields
tenant_mutation t (delete_slot event_id slot_id) = use_delete_slot t event_id slot_id
tenant_mutation t (join_slot event_id slot_id member_id) =
    use_join_slot t event_id slot_id member_id
tenant_mutation t (leave_slot event_id slot_id member_id) =
    use_leave_slot t event_id slot_id member_id
tenant_mutation t (delete_photo event_id photo_id) = use_delete_photo t event_id photo_id
tenant_mutation t (update_photo_caption event_id photo_id caption) =
    use_update_photo_caption t event_id photo_id caption
tenant_mutation t (create_position fields) = use_create_position t fields
tenant_mutation t (update_position id fields) = use_update_position t id fields
tenant_mutation t (delete_position id) = use_delete_position t id
tenant_mutation t (attach_functional_role position_id functional_role_id) =
    use_attach_functional_role t position_id functional_role_id
tenant_mutation t (detach_functional_role position_id functional_role_id) =
    use_detach_functional_role t position_id functional_role_id
tenant_mutation t (create_functional_role fields) = use_create_functional_role t fields
tenant_mutation t (update_functional_role id fields) = use_update_functional_role t id fields
tenant_mutation t (delete_functional_role id) = use_delete_functional_role t id
tenant_mutation t (grant_functional_role_permission role_id permission) =
    use_grant_functional_role_permission t role_id permission
tenant_mutation t (revoke_functional_role_permission role_id permission) =
    use_revoke_functional_role_permission t role_id permission
tenant_mutation t (create_member body) = use_create_member t body
tenant_mutation t (update_member id fields updated) = use_update_member t id fields updated
tenant_mutation t (purge_member id confirm_name) = use_purge_member t id confirm_name
tenant_mutation t (assign_member_position member_id position_id start_date end_date) =
    use_assign_member_position t member_id position_id start_date end_date
tenant_mutation t (update_member_position_term member_id assignment_id fields) =
    use_update_member_position_term t member_id assignment_id fields
tenant_mutation t (remove_member_position member_id assignment_id) =
    use_remove_member_position t member_id assignment_id
tenant_mutation t (create_relationship from_member_id to_member_id relationship_type) =
    use_create_relationship t from_member_id to_member_id relationship_type
tenant_mutation t (delete_relationship rel_id member_id) =
    use_delete_relationship t rel_id member_id
tenant_mutation t (create_completion member_id body) = use_create_completion t member_id body
tenant_mutation t (update_completion id fields) = use_update_completion t id fields
tenant_mutation t (revoke_completion id) = use_revoke_completion t id
tenant_mutation t (create_member_merit_badge member_id body) =
    use_create_member_merit_badge t member_id body
tenant_mutation t (update_member_merit_badge id fields) = use_update_member_merit_badge t id fields
tenant_mutation t (update_rank_progress member_id rank_id fields) =
    use_update_rank_progress t member_id rank_id fields
tenant_mutation t (create_message fields) = use_create_message t fields
tenant_mutation t (send_message id) = use_send_message t id
tenant_mutation t (mark_inbox_read recipient_id) = use_mark_inbox_read t recipient_id
tenant_mutation t (update_notification_preferences body) =
    use_update_notification_preferences t body
tenant_mutation t (update_tenant_settings body) = use_update_tenant_settings t body
