-- ===== src/Web/Sharing.antt =====
-- Queries that share a cache entry: hooks of apps/web/src/hooks/ with the same key.
use mathlib.Core.Bool.{false≢true}
use open_troop.Prelude.{
  String, ◌≡◌, refl, sym, ap, ◌∙◌, true, false, none, some, List, [], ◌∷◌, arith, str_eq,
  if◌then◌else◌,
}
use open_troop.Web.{value, object, QueryKey, fetched, template, shown, Segment, Call}
use open_troop.Web.Hooks.{
  tenant_query, TenantQuery, ask_member_positions, ask_recipient_preview_for, ask_report,
}
use open_troop.Web.Reports.{report_call}

-- The id that follows the kind in a key
abbrev id_in : List Segment → String
id_in (value id ∷ k) = shown id
id_in _ = ""

abbrev named_call : String → List Segment → Call
named_call path k = fetched (template (path ∷ id_in k ∷ []))

-- The collection, or the item that the key names
abbrev item_call : String → String → List Segment → Call
item_call collection items [] = fetched collection
item_call collection items (id ∷ k) = named_call items (id ∷ k)

abbrev part_call : String → String → List Segment → Call
part_call path part k = fetched (template (path ∷ id_in k ∷ part ∷ []))

abbrev positions_call : List Segment → Call
positions_call (id ∷ value (some past) ∷ []) = fetched (
    template (
      "/members/"
      ∷ id_in (id ∷ [])
      ∷ "/positions"
      ∷ (if str_eq past "history" then "?current=false" else "")
      ∷ []))
positions_call _ = fetched ""

abbrev preview_call : List Segment → Call
preview_call (object body ∷ []) = record {
  path = "/messages/recipients/preview";
  query = [];
  method = "POST";
  body = some body;
}
preview_call _ = fetched ""

abbrev reported_call : List Segment → Call
reported_call (value (some key) ∷ object params ∷ []) = report_call key "json" params
reported_call _ = fetched ""

-- What a tenant's key stands for on the server, from its kind and what follows
abbrev resources : List Segment → List (String × Call)
resources k =
    ("groups", item_call "/groups" "/groups/" k)
    ∷ ("group-members", part_call "/groups/" "/members" k)
    ∷ ("group-manual-members", part_call "/groups/" "/manual-members" k)
    ∷ ("group-rules", part_call "/groups/" "/rules" k)
    ∷ ("group-roster", fetched "/groups/roster")
    ∷ ("events", item_call "/events" "/events/" k)
    ∷ ("event-types", item_call "/event-types" "/event-types/" k)
    ∷ ("event-participants", part_call "/events/" "/participants" k)
    ∷ ("event-counts", part_call "/events/" "/counts" k)
    ∷ ("event-audiences", part_call "/events/" "/audiences" k)
    ∷ ("event-organizers", part_call "/events/" "/organizers" k)
    ∷ ("event-slots", part_call "/events/" "/slots" k)
    ∷ ("event-photos", part_call "/events/" "/photos" k)
    ∷ ("storage-usage", fetched "/storage/usage")
    ∷ ("positions", item_call "/positions" "/positions/" k)
    ∷ ("position-functional-roles", part_call "/positions/" "/functional-roles" k)
    ∷ ("functional-roles", item_call "/functional-roles" "/functional-roles/" k)
    ∷ ("functional-role-permissions", part_call "/functional-roles/" "/permissions" k)
    ∷ ("members", item_call "/members" "/members/" k)
    ∷ ("member-positions", positions_call k)
    ∷ ("relationships", named_call "/relationships?member_id=" k)
    ∷ ("family", fetched "/members/me/family")
    ∷ ("advancement-ranks", fetched "/advancement/ranks")
    ∷ ("merit-badges", fetched "/merit-badges")
    ∷ ("member-advancement", part_call "/members/" "/advancement" k)
    ∷ ("advancement-scouts", fetched "/advancement/scouts")
    ∷ ("advancement-queue", fetched "/advancement/queue")
    ∷ ("messages", fetched "/messages")
    ∷ ("message", named_call "/messages/" k)
    ∷ ("message-preview", part_call "/messages/" "/recipients/preview" k)
    ∷ ("recipient-preview", preview_call k)
    ∷ ("inbox", fetched "/messages/inbox")
    ∷ ("session", fetched "/auth/session")
    ∷ ("notification-preferences", fetched "/members/me/notification-preferences")
    ∷ ("tenant-settings", fetched "/tenant/settings")
    ∷ ("locations", fetched "/locations")
    ∷ ("report-catalog", fetched "/reports")
    ∷ ("report", reported_call k)
    ∷ []

abbrev choose : String → List (String × Call) → Call
choose kind [] = fetched ""
choose kind ((name, call) ∷ rest) =
    let later = choose kind rest in if str_eq name kind then call else later

abbrev resource : QueryKey → Call
resource (tenant ∷ value (some kind) ∷ k) = choose kind (resources k)
resource _ = fetched ""

query_key-resource :
    (t : String) (q : TenantQuery)
    → (tenant_query t q).enabled ≡ true
    → (tenant_query t q).query_fn ≡ resource (tenant_query t q).query_key
query_key-resource t q =
    elim q
      as (λ q.
        (tenant_query t q).enabled ≡ true
        → (tenant_query t q).query_fn ≡ resource (tenant_query t q).query_key) [
          | ask_member_positions id none ↦ λ _. refl
          | ask_member_positions id (some true) ↦ λ _. refl
          | ask_member_positions id (some false) ↦ λ _. refl
          | ask_report none params ↦ λ off. absurd (false≢true off)
          | ask_report (some key) params ↦ λ _. refl
          | ask_recipient_preview_for none ↦ λ off. ground arith
          | ask_recipient_preview_for (some body) ↦ λ _. refl
          | _ ↦ λ _. refl
        ]

-- Where two query hooks of the active tenant are enabled and have the same key, and so share a cache
-- entry, they send the same request: what one reads from the entry is what the other would fetch.
pub same_key_same_call :
    (t : String) (q r : TenantQuery)
    → (tenant_query t q).enabled ≡ true
    → (tenant_query t r).enabled ≡ true
    → (tenant_query t q).query_key ≡ (tenant_query t r).query_key
    → (tenant_query t q).query_fn ≡ (tenant_query t r).query_fn
same_key_same_call t q r on_q on_r same =
    query_key-resource t q on_q ∙ ap resource same ∙ sym (query_key-resource t r on_r)
