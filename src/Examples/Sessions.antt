-- ===== src/Examples/Sessions.antt =====
-- A device on which tenants are selected, and users come and go.
use open_troop.Prelude.{String, ◌≡◌, refl, true, some, List, [], ◌∷◌}
use open_troop.Session.{
  get_known_tenant_ids, contains_id, remember_tenant, hydrate, set_active_tenant, open_active,
  wipe_all_local_data, identity_gate, launch, sign_out, happen, happen_in_turn, fresh, Membership,
  SessionEvent, Access, launches, hydrates, selects_tenant,
}
use open_troop.Session.Wipe.{wipe_leaves_nothing, IsWiped, IsGranted}
use open_troop.Session.Race.{remember_both, remember_race_forgets}

abbrev membership : String → Membership
membership id = record { tenant_id = id; tenant_slug = id; fields = [] }

abbrev granted : Access
granted = record { reads = true; writes = true; removes = λ t. true }

granted-IsGranted : IsGranted granted
granted-IsGranted = record { reads = refl; writes = refl; removes = λ t. refl }

abbrev history : List SessionEvent
history =
    launches granted (some "alex")
    ∷ hydrates granted
    ∷ selects_tenant granted (membership "t1")
    ∷ selects_tenant granted (membership "t2")
    ∷ []

wipe_leaves_nothing_example :
    IsWiped (sign_out granted (happen_in_turn history fresh))
    × IsWiped (launch granted (some "sam") (happen_in_turn history fresh))
unfolding happen launch identity_gate hydrate set_active_tenant open_active remember_tenant
    wipe_all_local_data
wipe_leaves_nothing_example =
    wipe_leaves_nothing history granted (some "sam")
      (granted-IsGranted, (tt, (granted-IsGranted, (granted-IsGranted, tt)))) granted-IsGranted refl

remember_race_forgets_example :
    let raced = record fresh { store = remember_both "t1" "t2" fresh.store } in
    (contains_id "t2" (get_known_tenant_ids true raced.store) ≡ true)
    × ((wipe_all_local_data granted raced).device.files "t1" ≡ fresh.device.files "t1")
remember_race_forgets_example = remember_race_forgets granted "t1" "t2" fresh refl refl refl
