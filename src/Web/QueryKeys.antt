-- ===== src/Web/QueryKeys.antt =====
-- The key factory of apps/web/src/lib/query-keys.ts. An optional parameter that is left out is `none`,
-- one that is `null` is `some none`.
use open_troop.Prelude.{String, Bool, Option, none, some, [], ◌∷◌, if◌then◌else◌}
use open_troop.Web.{value, object, word, QueryKey}
use open_troop.Doc.{Doc}

-- `string | null`
abbrev TenantId : Type 0
TenantId = Option String

abbrev scoped : TenantId → String → QueryKey
scoped t kind = value t ∷ word kind ∷ []

abbrev item : TenantId → String → Option String → QueryKey
item t kind id = value t ∷ word kind ∷ value id ∷ []

abbrev narrowed : TenantId → String → Option (Option String) → QueryKey
narrowed t kind none = scoped t kind
narrowed t kind (some id) = item t kind id

abbrev pub me : QueryKey
me = word "me" ∷ []

abbrev pub memberships : QueryKey
memberships = word "memberships" ∷ []

abbrev pub calendar_subscription : QueryKey
calendar_subscription = word "calendar-subscription" ∷ []

abbrev pub session : TenantId → QueryKey
session t = scoped t "session"

abbrev pub members : TenantId → QueryKey
members t = scoped t "members"

abbrev pub member : TenantId → Option String → QueryKey
member t id = item t "members" id

abbrev pub relationships : TenantId → Option String → QueryKey
relationships t id = item t "relationships" id

abbrev pub family : TenantId → QueryKey
family t = scoped t "family"

abbrev pub groups : TenantId → QueryKey
groups t = scoped t "groups"

abbrev pub group : TenantId → Option String → QueryKey
group t id = item t "groups" id

abbrev pub group_roster : TenantId → QueryKey
group_roster t = scoped t "group-roster"

abbrev pub group_rules : TenantId → Option String → QueryKey
group_rules t id = item t "group-rules" id

abbrev pub positions : TenantId → QueryKey
positions t = scoped t "positions"

abbrev pub position : TenantId → Option String → QueryKey
position t id = item t "positions" id

abbrev pub position_functional_roles : TenantId → Option String → QueryKey
position_functional_roles t id = item t "position-functional-roles" id

abbrev pub functional_roles : TenantId → QueryKey
functional_roles t = scoped t "functional-roles"

abbrev pub functional_role : TenantId → Option String → QueryKey
functional_role t id = item t "functional-roles" id

abbrev pub functional_role_permissions : TenantId → Option String → QueryKey
functional_role_permissions t id = item t "functional-role-permissions" id

abbrev pub events : TenantId → QueryKey
events t = scoped t "events"

abbrev pub event : TenantId → Option String → QueryKey
event t id = item t "events" id

abbrev pub event_types : TenantId → QueryKey
event_types t = scoped t "event-types"

abbrev pub event_type : TenantId → Option String → QueryKey
event_type t id = item t "event-types" id

abbrev pub event_participants : TenantId → Option String → QueryKey
event_participants t id = item t "event-participants" id

abbrev pub event_counts : TenantId → Option String → QueryKey
event_counts t id = item t "event-counts" id

abbrev pub event_audiences : TenantId → Option String → QueryKey
event_audiences t id = item t "event-audiences" id

abbrev pub event_organizers : TenantId → Option String → QueryKey
event_organizers t id = item t "event-organizers" id

abbrev pub event_photos : TenantId → Option String → QueryKey
event_photos t id = item t "event-photos" id

abbrev pub event_slots : TenantId → Option String → QueryKey
event_slots t id = item t "event-slots" id

abbrev pub storage_usage : TenantId → QueryKey
storage_usage t = scoped t "storage-usage"

abbrev pub locations : TenantId → QueryKey
locations t = scoped t "locations"

abbrev pub advancement_ranks : TenantId → QueryKey
advancement_ranks t = scoped t "advancement-ranks"

abbrev pub merit_badges : TenantId → QueryKey
merit_badges t = scoped t "merit-badges"

abbrev pub member_advancement : TenantId → Option String → QueryKey
member_advancement t id = item t "member-advancement" id

abbrev pub advancement_queue : TenantId → QueryKey
advancement_queue t = scoped t "advancement-queue"

abbrev pub advancement_scouts : TenantId → QueryKey
advancement_scouts t = scoped t "advancement-scouts"

abbrev pub messages : TenantId → QueryKey
messages t = scoped t "messages"

abbrev pub message : TenantId → Option String → QueryKey
message t id = item t "message" id

abbrev pub message_preview : TenantId → Option String → QueryKey
message_preview t id = item t "message-preview" id

abbrev pub inbox : TenantId → QueryKey
inbox t = scoped t "inbox"

abbrev pub tenant_settings : TenantId → QueryKey
tenant_settings t = scoped t "tenant-settings"

abbrev pub report_catalog : TenantId → QueryKey
report_catalog t = scoped t "report-catalog"

abbrev pub group_members : TenantId → Option (Option String) → QueryKey
group_members t id = narrowed t "group-members" id

abbrev pub group_manual_members : TenantId → Option (Option String) → QueryKey
group_manual_members t id = narrowed t "group-manual-members" id

abbrev pub member_positions : TenantId → Option String → Option Bool → QueryKey
member_positions t id none = item t "member-positions" id
member_positions t id (some history) =
    value t
    ∷ word "member-positions"
    ∷ value id
    ∷ word (if history then "history" else "current")
    ∷ []

abbrev pub report : TenantId → String → Doc → QueryKey
report t key params = value t ∷ word "report" ∷ word key ∷ object params ∷ []
