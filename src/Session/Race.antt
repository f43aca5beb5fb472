-- ===== src/Session/Race.antt =====
-- `rememberTenant` of apps/mobile/src/lib/tenant-context.tsx reads the list and writes it back, with an
-- await between: two selections that follow each other closely.
use open_troop.Prelude.{
  String, ◌≡◌, refl, sym, ap, ◌∙◌, subst, inl, inr, Bool, true, false, ◌||◌, some, [], ◌∷◌, ◌++◌,
  arith, str_eq, eq_refl, if◌then◌else◌, Bool-cases,
}
use open_troop.Session.{
  get_known_tenant_ids, contains_id, write_known, remember_tenant, set_active_tenant,
  wipe_all_local_data, Membership, SecureStore, Session, Access,
}
use open_troop.Session.Wipe.{contains_id-append}
use open_troop.TenantFiles.Handle.{delete_tenant_databases_lem}

-- Two calls, both of which have read before the first writes
abbrev pub remember_both : String → String → SecureStore → SecureStore
remember_both t u store =
    let known = get_known_tenant_ids true store in
    write_known true u known (write_known true t known store)

none_of : {a b : Bool} → a ≡ false → b ≡ false → (a || b) ≡ false
none_of p q = ground (arith, p, q)

-- A tenant that is not on the stored list keeps its database, whatever the device grants.
wipe_unlisted :
    (a : Access) (t : String) (s : Session)
    → contains_id t (get_known_tenant_ids true s.store) ≡ false
    → (wipe_all_local_data a s).device.files t ≡ s.device.files t
unfolding wipe_all_local_data
wipe_unlisted a t s out =
    let known = get_known_tenant_ids a.reads s.store in
    let unread : contains_id t known ≡ false = elim (Bool-cases a.reads) [
      | inl read ↦ ap (λ b. contains_id t (get_known_tenant_ids b s.store)) read ∙ out
      | inr failed ↦ ap (λ b. contains_id t (get_known_tenant_ids b s.store)) failed
    ] in
    (delete_tenant_databases_lem a.removes known t s.device).1 ∙ rw unread refl

-- The list of known tenants after two selections in quick succession of tenants that were not on it
-- holds the second but not the first, so the wipe leaves the first one's database on the device as it is.
pub remember_race_forgets :
    (a : Access) (t u : String) (s : Session)
    → contains_id t (get_known_tenant_ids true s.store) ≡ false
    → contains_id u (get_known_tenant_ids true s.store) ≡ false
    → str_eq u t ≡ false
    → let raced = record s { store = remember_both t u s.store } in
      (contains_id u (get_known_tenant_ids true raced.store) ≡ true)
      × ((wipe_all_local_data a raced).device.files t ≡ s.device.files t)
remember_race_forgets a t u s new_t new_u apart =
    let ids = get_known_tenant_ids true s.store in
    let first : SecureStore = record s.store { known_tenants = some (ids ++ t ∷ []) } in
    let raced : SecureStore = record s.store { known_tenants = some (ids ++ u ∷ []) } in
    let run : remember_both t u s.store ≡ raced =
      ap (λ b. write_known true u ids (if b || false then s.store else first)) new_t
      ∙ ap (λ b. if b || false then first else raced) new_u in
    subst
      (λ st.
        (contains_id u (get_known_tenant_ids true st) ≡ true)
        × ((wipe_all_local_data a (record s { store = st })).device.files t ≡ s.device.files t))
      (sym run)
      (
        contains_id-append u u ids ∙ ground (arith, eq_refl u),
        wipe_unlisted a t (record s { store = raced })
            (contains_id-append t u ids ∙ none_of new_t apart),
      )

-- Where the list cannot be read while a tenant is selected, it is replaced by that tenant alone, and the
-- next wipe leaves the databases of all others on the device.
pub unread_list_forgets :
    (removes : String → Bool) (a : Access) (t : String) (m : Membership) (s : Session)
    → str_eq m.tenant_id t ≡ false
    → let unread : Access = record { reads = false; writes = true; removes = removes } in
      (wipe_all_local_data a (set_active_tenant unread (some m) s)).device.files t
      ≡ s.device.files t
unfolding set_active_tenant remember_tenant
unread_list_forgets removes a t m s apart = wipe_unlisted a t _ (rw apart refl)
