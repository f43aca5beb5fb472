-- ===== src/Examples/WebApps.antt =====
-- The web app's tenant, requests, uploads and drafts at concrete inputs.
use open_troop.Prelude.{String, ◌≡◌, refl, true, false, Option, none, some, List, [], ◌∷◌, ◌++◌}
use open_troop.Doc.{Doc, num, str}
use open_troop.Session.{Membership}
use open_troop.Web.Tenant.{resolve_tenant, WebTenant, MembershipsReply, answered}
use open_troop.Web.Tenant.Resolving.{fits, resolve_tenant_settles}
use open_troop.Web.Api.{RequestInit}
use open_troop.Web.Uploads.{
  fit_within, photo_effects, use_upload_photos, ImageFile, fulfilled, Browser, Servers,
  PhotoUploads,
}
use open_troop.Web.Uploads.Settling.{AreSettled, count_done, use_upload_photos_settles}
use open_troop.Web.Draft.{
  start_draft, take_places, Participant, RsvpPlace, DraftEvent, edits_locally, edits_at_once,
  leaves_field, fetches,
}
use open_troop.Web.Draft.Editing.{edit_in_turn, draft_survives_refetches}

abbrev troop : String → String → Membership
troop id slug = record { tenant_id = id; tenant_slug = slug; fields = [] }

abbrev troops : MembershipsReply
troops = answered (troop "t1" "fox" ∷ troop "t2" "owl" ∷ [])

-- Another tenant was active than the one of the subdomain.
abbrev on_owl : List String
on_owl = "owl" ∷ "opentroop" ∷ "dev" ∷ []

abbrev was_fox : WebTenant
was_fox = record { active = "t1"; stored = some "t9" }

resolve_tenant_settles_example :
    (resolve_tenant on_owl troops (resolve_tenant on_owl troops was_fox)
      ≡ resolve_tenant on_owl troops was_fox)
    × (fits on_owl troops (resolve_tenant on_owl troops was_fox).active ≡ true)
resolve_tenant_settles_example = resolve_tenant_settles on_owl troops was_fox

subdomain_wins : resolve_tenant on_owl troops was_fox ≡ record { active = "t2"; stored = some "t2" }
unfolding resolve_tenant
subdomain_wins = refl

stored_is_checked :
    resolve_tenant ("localhost" ∷ []) troops (record { active = ""; stored = some "t9" })
    ≡ record { active = "t1"; stored = some "t1" }
unfolding resolve_tenant
stored_is_checked = refl

abbrev form : RequestInit
form = record { headers = ("X-Tenant-ID", "t7") ∷ []; is_form_data = true }

fitted : fit_within 4096 1024 2048 ≡ (2048, 512)
unfolding fit_within
fitted = refl

-- The storage refuses; the first file is not an image.
abbrev chrome : Browser
chrome = record { decode = λ f. fulfilled (100, 50); has_context = true; encode = λ f w h. some 9 }

abbrev refusing : Servers (Unit {0})
refusing = record {
  initiate = λ event_id body w. (fulfilled (record { photo_id = "p1"; upload_url = "u1" } ∷ []), w);
  undefined_error = "undefined is not an object";
  put_object = λ url photo w. (fulfilled 403, w);
  complete = λ id w. (fulfilled tt, w);
}

abbrev picked : List ImageFile
picked =
    record { name = "notes"; mime_type = "text/plain" }
    ∷ record { name = "camp"; mime_type = "image/png" }
    ∷ []

abbrev idle_uploads : PhotoUploads (Unit {0})
idle_uploads = record { items = []; is_uploading = false; calls = []; world = tt }

abbrev after_upload : PhotoUploads (Unit {0})
after_upload = use_upload_photos chrome refusing "t1" "e1" picked idle_uploads

use_upload_photos_settles_example :
    (after_upload.is_uploading ≡ false)
    × AreSettled picked after_upload.items
    × (after_upload.calls ≡ [] ++ photo_effects "t1" "e1" (count_done after_upload.items))
use_upload_photos_settles_example =
    use_upload_photos_settles chrome refusing "t1" "e1" picked idle_uploads refl refl

abbrev draft_of : Option Participant → Doc
draft_of none = ("comment", str "") ∷ []
draft_of (some p) = p.fields

abbrev guest : Participant
guest = record { id = "r1"; fields = ("comment", str "") ∷ ("guest_count", num 0) ∷ [] }

abbrev place : RsvpPlace
place = record { tenant_id = "t1"; event_id = "e1"; member_id = "m1" }

-- A comment is typed while the participant is fetched again.
abbrev typing : List DraftEvent
typing =
    edits_locally (("comment", str "late") ∷ [])
    ∷ fetches (some guest)
    ∷ edits_at_once (("guest_count", num 2) ∷ [])
    ∷ leaves_field "comment"
    ∷ []

draft_survives_refetches_example :
    (take_places draft_of place typing (start_draft draft_of (some guest))).draft
    ≡ edit_in_turn typing guest.fields
draft_survives_refetches_example =
    draft_survives_refetches draft_of place "r1" typing (start_draft draft_of (some guest)) refl
      (tt, (refl, (tt, (tt, tt))))
