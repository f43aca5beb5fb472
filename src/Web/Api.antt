-- ===== src/Web/Api.antt =====
-- Requests of the web app, apps/web/src/lib/api.ts. `fetch` and the sign-in library are not in the
-- repository: what they come to is an argument.
pub mod Headers
use open_troop.Doc.Decimal.{show}
use open_troop.Prelude.{
  ℕ, String, Bool, false, not, ◌&&◌, ◌||◌, Option, none, some, get_or, List, [], ◌∷◌, str_eq, ltb,
  leb, ◌==◌, if◌then◌else◌, length, assign_entries,
}
use open_troop.Web.{template, truthy}

-- What is thrown: `ApiError` with its status and message, the `TypeError` of `fetch`, or another value
pub data Thrown : Type 0 where
  api_error : (status : ℕ) → (message : String) → Thrown
  type_error : Thrown
  other_error : Thrown

pub data Promise {ℓ} (A : Type ℓ) : Type ℓ where
  resolved : A → Promise A
  rejected : Thrown → Promise A

-- `new ApiError(status, detail)`
abbrev pub new_api_error : ℕ → String → Thrown
new_api_error status detail = api_error status (template (show status ∷ ": " ∷ detail ∷ []))

abbrev pub generic_error : String
generic_error = "Something went wrong — please try again."

abbrev pub network_error : String
network_error = "Could not reach the backend — is the server running?"

-- `byStatus?.[status]`
abbrev pub copy_for : ℕ → List (ℕ × String) → Option String
copy_for status [] = none
copy_for status ((s, text) ∷ by_status) =
    let rest = copy_for status by_status in if s == status then some text else rest

unfoldable pub api_error_message : Thrown → List (ℕ × String) → String
api_error_message (api_error status message) by_status =
    get_or (copy_for status by_status) generic_error
api_error_message type_error by_status = network_error
api_error_message other_error by_status = generic_error

-- A response: reading its body may fail, as text and as JSON.
pub record Response (B : Type 0) : Type 0 where
  pub status : ℕ
  pub status_text : String
  pub content_length : Option String
  pub text : Option String
  pub json : Promise B
  pub blob : Promise B

-- `init`: its headers, and whether its body is a form
pub record RequestInit : Type 0 where
  pub headers : List (String × String)
  pub is_form_data : Bool

abbrev pub auth_header : Option String → List (String × String)
auth_header none = []
auth_header (some token) =
    if truthy token then ("Authorization", template ("Bearer " ∷ token ∷ [])) ∷ [] else []

abbrev pub tenant_header : String → List (String × String)
tenant_header t = if truthy t then ("X-Tenant-ID", t) ∷ [] else []

abbrev pub content_header : Bool → List (String × String)
content_header form = if form then [] else ("Content-Type", "application/json") ∷ []

-- The object of the headers: what is spread later wins.
unfoldable pub request_headers : Option String → String → RequestInit → List (String × String)
request_headers token t init = assign_entries init.headers (
    assign_entries (tenant_header t)
      (assign_entries (auth_header token) (assign_entries (content_header init.is_form_data) [])))

unfoldable pub blob_headers : Option String → String → RequestInit → List (String × String)
blob_headers token t init =
    assign_entries init.headers
      (assign_entries (tenant_header t) (assign_entries (auth_header token) []))

-- A token that cannot be had is none.
abbrev pub token_of : Promise (Option String) → Option String
token_of (resolved token) = token
token_of (rejected e) = none

abbrev pub is_ok_status : ℕ → Bool
is_ok_status status = leb 200 status && ltb status 300

abbrev has_no_content : Option String → Bool
has_no_content none = false
has_no_content (some length) = str_eq length "0"

module _ {B : Type 0} where
  -- `undefined` is `none`.
  abbrev json_body : Promise B → Promise (Option B)
  json_body (resolved b) = resolved (some b)
  json_body (rejected e) = rejected e

  abbrev pub read_response : Response B → Promise (Option B)
  read_response r =
      if not (is_ok_status r.status)
      then rejected (new_api_error r.status (get_or r.text r.status_text))
      else if r.status == 204 || has_no_content r.content_length
      then resolved none
      else json_body r.json

  abbrev settle_request : Promise (Response B) → Promise (Option B)
  settle_request (rejected e) = rejected e
  settle_request (resolved r) = read_response r

  -- `fetch` is given the path behind `/api` and the headers.
  unfoldable pub request :
      (String → List (String × String) → Promise (Response B))
      → Promise (Option String)
      → String
      → String
      → RequestInit
      → Promise (Option B)
  request fetch token t path init =
      settle_request
        (fetch (template ("/api" ∷ path ∷ [])) (request_headers (token_of token) t init))

  abbrev pub read_blob : Response B → Promise B
  read_blob r =
      if not (is_ok_status r.status)
      then rejected (new_api_error r.status (get_or r.text r.status_text))
      else r.blob

  abbrev settle_blob : Promise (Response B) → Promise B
  settle_blob (rejected e) = rejected e
  settle_blob (resolved r) = read_blob r

  unfoldable pub request_blob :
      (String → List (String × String) → Promise (Response B))
      → Promise (Option String)
      → String
      → String
      → RequestInit
      → Promise B
  request_blob fetch token t path init =
      settle_blob (fetch (template ("/api" ∷ path ∷ [])) (blob_headers (token_of token) t init))
