-- ===== src/Web/Api/Headers.antt =====
-- Which headers a request carries.
use open_troop.Prelude.{
  String, ◌≡◌, refl, ap, ◌∙◌, subst, inl, inr, Bool, true, false, Option, none, some, List, [], ◌∷◌,
  str_eq, eq_iff, if◌then◌else◌, Bool-cases, or_else, lookup, assign, assign_entries, lookup-assign,
  lookup-assign_other,
}
use open_troop.Web.{template, truthy}
use open_troop.Web.Api.{auth_header, tenant_header, content_header, request_headers, RequestInit}

-- The caller's header if there is one, else the default
abbrev pub own_or : List (String × String) → String → Option String → Option String
own_or [] name default = default
own_or ((k, v) ∷ headers) name default =
    own_or headers name (if str_eq k name then some v else default)

lookup-assign_entries :
    (name : String) (headers m : List (String × String))
    → lookup name (assign_entries headers m) ≡ own_or headers name (lookup name m)
lookup-assign_entries name [] m = refl
lookup-assign_entries name ((k, v) ∷ headers) m =
    lookup-assign_entries name headers (assign k v m)
    ∙ ap (own_or headers name) (elim (Bool-cases (str_eq k name)) [
      | inl same ↦ rw same (
          subst (λ n. lookup n (assign k v m) ≡ some v) ((eq_iff k name).0 same)
            (lookup-assign k v m))
      | inr other ↦ rw other (lookup-assign_other k name v m other)
    ])

-- What the application sends by itself
abbrev pub tenant_default : String → Option String
tenant_default t = if truthy t then some t else none

abbrev pub bearer : Option String → Option String
bearer none = none
bearer (some token) = if truthy token then some (template ("Bearer " ∷ token ∷ [])) else none

abbrev pub content_default : Bool → Option String
content_default form = if form then none else some "application/json"

own_or-tenant_header :
    (t : String) (d : Option String)
    → (own_or (tenant_header t) "X-Tenant-ID" d ≡ or_else (tenant_default t) d)
      × (own_or (tenant_header t) "Authorization" d ≡ d)
      × (own_or (tenant_header t) "Content-Type" d ≡ d)
own_or-tenant_header t d = elim (Bool-cases (truthy t)) [
  | inl given ↦ rw given (refl, refl, refl)
  | inr empty ↦ rw empty (refl, refl, refl)
]

own_or-auth_header :
    (token : Option String) (d : Option String)
    → (own_or (auth_header token) "X-Tenant-ID" d ≡ d)
      × (own_or (auth_header token) "Authorization" d ≡ or_else (bearer token) d)
      × (own_or (auth_header token) "Content-Type" d ≡ d)
own_or-auth_header none d = (refl, refl, refl)
own_or-auth_header (some token) d = elim (Bool-cases (truthy token)) [
  | inl given ↦ rw given (refl, refl, refl)
  | inr empty ↦ rw empty (refl, refl, refl)
]

own_or-content_header :
    (form : Bool)
    → (own_or (content_header form) "X-Tenant-ID" none ≡ none)
      × (own_or (content_header form) "Authorization" none ≡ none)
      × (own_or (content_header form) "Content-Type" none ≡ content_default form)
own_or-content_header true = (refl, refl, refl)
own_or-content_header false = (refl, refl, refl)

or_else-none : (o : Option String) → or_else o none ≡ o
or_else-none none = refl
or_else-none (some s) = refl

lookup-request_headers :
    (token : Option String) (t name : String) (init : RequestInit)
    → lookup name (request_headers token t init)
      ≡ own_or init.headers name (
          own_or
            (tenant_header t)
            name
            (own_or (auth_header token) name (own_or (content_header init.is_form_data) name none)))
unfolding request_headers
lookup-request_headers token t name init =
    lookup-assign_entries name init.headers _
    ∙ ap (own_or init.headers name) (
        lookup-assign_entries name (tenant_header t) _
        ∙ ap (own_or (tenant_header t) name) (
            lookup-assign_entries name (auth_header token) _
            ∙ ap (own_or (auth_header token) name)
                (lookup-assign_entries name (content_header init.is_form_data) [])))

-- A request names the active tenant unless that is empty, carries the token if there is one, and says
-- that it sends JSON unless its body is a form; a header of the caller's takes the place of each.
pub request_headers_lem :
    (token : Option String) (t : String) (init : RequestInit)
    → (lookup "X-Tenant-ID" (request_headers token t init)
        ≡ own_or init.headers "X-Tenant-ID" (tenant_default t))
      × (lookup "Authorization" (request_headers token t init)
          ≡ own_or init.headers "Authorization" (bearer token))
      × (lookup "Content-Type" (request_headers token t init)
          ≡ own_or init.headers "Content-Type" (content_default init.is_form_data))
request_headers_lem token t init =
    let form = own_or-content_header init.is_form_data in
    (
      lookup-request_headers token t "X-Tenant-ID" init
          ∙ ap (own_or init.headers "X-Tenant-ID") (
              (own_or-tenant_header t _).0
              ∙ ap (or_else (tenant_default t)) ((own_or-auth_header token _).0 ∙ form.0)
              ∙ or_else-none (tenant_default t)),
      lookup-request_headers token t "Authorization" init
          ∙ ap (own_or init.headers "Authorization") (
              (own_or-tenant_header t _).1
              ∙ (own_or-auth_header token _).1
              ∙ ap (or_else (bearer token)) form.1
              ∙ or_else-none (bearer token)),
      lookup-request_headers token t "Content-Type" init
          ∙ ap (own_or init.headers "Content-Type")
              ((own_or-tenant_header t _).2 ∙ (own_or-auth_header token _).2 ∙ form.2),
    )
