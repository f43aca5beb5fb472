-- ===== src/Web/Tenant/Resolving.antt =====
-- The effect that resolves the tenant settles.
use open_troop.Prelude.{
  String, ◌≡◌, refl, sym, ap, ◌∙◌, inl, inr, Bool, true, false, ◌&&◌, Option, none, some, List, [],
  ◌∷◌, arith, str_eq, eq_iff, eq_refl, if◌then◌else◌, Bool-cases, if-holds,
}
use open_troop.Session.{Membership}
use open_troop.Web.{truthy}
use open_troop.Web.Tenant.{
  unavailable, answered, current_subdomain, activate, is_member_of, by_slug, resolve_stored,
  resolve_matched, resolve_on, resolve_tenant, WebTenant, MembershipsReply,
}

abbrev at : String → Option String → WebTenant
at active stored = record { active = active; stored = stored }

-- Nothing changes where the tenant is active already.
activate_active : (id : String) (stored : Option String) → activate id (at id stored) ≡ at id stored
activate_active id stored = rw (eq_refl id) refl

second : (a b : Bool) → (a && b) ≡ true → b ≡ true
second a b h = ground (arith, h)

module _ (m : Membership) (ms : List Membership) where
  Stays : WebTenant → Type 0
  Stays s = resolve_stored s.stored m ms s ≡ s

  Stays-first : Stays (at m.tenant_id (some m.tenant_id))
  unfolding Stays
  Stays-first =
      if-holds (λ s. s ≡ at m.tenant_id (some m.tenant_id))
        (truthy m.tenant_id && is_member_of m.tenant_id (m ∷ ms)) _ _
        (λ _. rw (eq_refl m.tenant_id) refl) (λ _. activate_active m.tenant_id (some m.tenant_id))

  activate-Stays :
      (active : String) (stored : Option String)
      → resolve_stored stored m ms (at active stored) ≡ activate m.tenant_id (at active stored)
      → Stays (activate m.tenant_id (at active stored))
  unfolding Stays
  activate-Stays active stored run = elim (Bool-cases (str_eq active m.tenant_id)) [
    | inl same ↦ rw same (run ∙ rw same refl)
    | inr other ↦ rw other Stays-first
  ]

  stored-Stays :
      (active id : String)
      → (truthy id && is_member_of id (m ∷ ms)) ≡ true
      → Stays (if str_eq active id then at active (some id) else at id (some id))
  unfolding Stays
  stored-Stays active id known = elim (Bool-cases (str_eq active id)) [
    | inl same ↦ rw (same, known, same) refl
    | inr other ↦ rw (other, known, eq_refl id) refl
  ]

  resolve_stored-Stays :
      (active : String) (stored : Option String)
      → Stays (resolve_stored stored m ms (at active stored))
  resolve_stored-Stays active none = activate-Stays active none refl
  resolve_stored-Stays active (some id) =
      elim (Bool-cases (truthy id && is_member_of id (m ∷ ms))) [
        | inl known ↦ rw known (stored-Stays active id known)
        | inr unknown ↦ rw unknown (activate-Stays active (some id) (rw unknown refl))
      ]

  IsKnown : WebTenant → Type 0
  IsKnown s = is_member_of s.active (m ∷ ms) ≡ true

  at_first : (stored : Option String) → IsKnown (at m.tenant_id stored)
  unfolding IsKnown
  at_first stored = rw (eq_refl m.tenant_id) refl

  at_same :
      (active id : String) (stored o : Option String)
      → str_eq active id ≡ true
      → IsKnown (at id o)
      → IsKnown (at active stored)
  unfolding IsKnown
  at_same active id stored o same known =
      ap (λ i. is_member_of i (m ∷ ms)) ((eq_iff active id).0 same) ∙ known

  activate-IsKnown :
      (active : String) (stored : Option String) → IsKnown (activate m.tenant_id (at active stored))
  activate-IsKnown active stored =
      if-holds IsKnown (str_eq active m.tenant_id) _ _
        (λ same. at_same active m.tenant_id stored none same (at_first none))
        (λ other. at_first (some m.tenant_id))

  IsKnown-id :
      (id : String) (stored : Option String)
      → (truthy id && is_member_of id (m ∷ ms)) ≡ true
      → IsKnown (at id stored)
  unfolding IsKnown
  IsKnown-id id stored h = second (truthy id) _ h

  resolve_stored-IsKnown :
      (active : String) (stored : Option String)
      → IsKnown (resolve_stored stored m ms (at active stored))
  resolve_stored-IsKnown active none = activate-IsKnown active none
  resolve_stored-IsKnown active (some id) =
      if-holds IsKnown (truthy id && is_member_of id (m ∷ ms)) _ _
        (λ known.
          if-holds IsKnown (str_eq active id) _ _
            (λ same. at_same active id (some id) (some id) same (IsKnown-id id (some id) known))
            (λ other. IsKnown-id id (some id) known))
        (λ unknown. activate-IsKnown active (some id))

-- What is asked of the active tenant: on the subdomain of one of the user's tenants, that tenant, and
-- elsewhere some tenant of the user.
abbrev fits_tenant : Option Membership → String → Bool
fits_tenant none active = true
fits_tenant (some m) active = str_eq active m.tenant_id

abbrev fits_on : Option String → List Membership → String → Bool
fits_on none ms active = is_member_of active ms
fits_on (some slug) ms active = fits_tenant (by_slug slug ms) active

abbrev pub fits : List String → MembershipsReply → String → Bool
fits labels unavailable active = true
fits labels (answered []) active = true
fits labels (answered (m ∷ ms)) active = fits_on (current_subdomain labels) (m ∷ ms) active

resolve_matched-fits :
    (o : Option Membership) (s : WebTenant) → fits_tenant o (resolve_matched o s).active ≡ true
resolve_matched-fits none s = refl
resolve_matched-fits (some m) s =
    if-holds (λ (r : WebTenant). str_eq r.active m.tenant_id ≡ true) (str_eq s.active m.tenant_id) _
      _ (λ same. same) (λ other. eq_refl m.tenant_id)

resolve_matched_twice :
    (o : Option Membership) (s : WebTenant)
    → resolve_matched o (resolve_matched o s) ≡ resolve_matched o s
resolve_matched_twice none s = refl
resolve_matched_twice (some m) s = elim (Bool-cases (str_eq s.active m.tenant_id)) [
  | inl same ↦ ap (activate m.tenant_id) (kept same)
  | inr other ↦
      ap (activate m.tenant_id) (changed other)
      ∙ activate_active m.tenant_id (some m.tenant_id)
      ∙ sym (changed other)
]
  where
    kept : str_eq s.active m.tenant_id ≡ true → activate m.tenant_id s ≡ s
    kept same = ap (λ b. if b then s else at m.tenant_id (some m.tenant_id)) same

    changed :
        str_eq s.active m.tenant_id ≡ false
        → activate m.tenant_id s ≡ at m.tenant_id (some m.tenant_id)
    changed other = ap (λ b. if b then s else at m.tenant_id (some m.tenant_id)) other

resolve_on-settles :
    (o : Option String) (m : Membership) (ms : List Membership) (s : WebTenant)
    → (resolve_on o m ms (resolve_on o m ms s) ≡ resolve_on o m ms s)
      × (fits_on o (m ∷ ms) (resolve_on o m ms s).active ≡ true)
unfolding Stays IsKnown
resolve_on-settles none m ms s =
    (resolve_stored-Stays m ms s.active s.stored, resolve_stored-IsKnown m ms s.active s.stored)
resolve_on-settles (some slug) m ms s = (
  resolve_matched_twice (by_slug slug (m ∷ ms)) s,
  resolve_matched-fits (by_slug slug (m ∷ ms)) s,
)

-- The effect that resolves the tenant runs again whenever it changes the active tenant, and then
-- changes nothing more: with the same answer, a second run leaves the state of the first. After the
-- first, the active tenant is the one of the subdomain, if that is one of the user's, and where there
-- is no subdomain it is some tenant of the user, whatever was stored; without memberships nothing is
-- asked of it.
pub resolve_tenant_settles :
    (labels : List String) (reply : MembershipsReply) (s : WebTenant)
    → (resolve_tenant labels reply (resolve_tenant labels reply s) ≡ resolve_tenant labels reply s)
      × (fits labels reply (resolve_tenant labels reply s).active ≡ true)
unfolding resolve_tenant
resolve_tenant_settles labels unavailable s = (refl, refl)
resolve_tenant_settles labels (answered []) s = (refl, refl)
resolve_tenant_settles labels (answered (m ∷ ms)) s =
    resolve_on-settles (current_subdomain labels) m ms s
