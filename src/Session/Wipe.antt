-- ===== src/Session/Wipe.antt =====
-- The wipe reaches every database that was ever opened.
use mathlib.Core.Bool.{false≢true}
use open_troop.Prelude.{
  String, ◌≡◌, refl, sym, ap, ◌∙◌, subst, inl, inr, true, false, ◌||◌, Option, none, some, List, [],
  ◌∷◌, ◌++◌, arith, str_eq, eq_iff, eq_refl, Bool, not, All, if◌then◌else◌, Bool-cases, if-holds,
}
use open_troop.Session.{
  get_known_tenant_ids, contains_id, remember_tenant, hydrate_from, hydrate, set_active_tenant,
  open_for, open_active, wipe_all_local_data, is_other_user, note_user, wipe_if, identity_gate,
  launch, sign_out, launches, hydrates, selects_tenant, opens, signs_out, happen, happen_in_turn,
  fresh, Access, Membership, SecureStore, Session, SessionEvent,
}
use open_troop.TenantFiles.Handle.{open_tenant_database_lem, delete_tenant_databases_lem}
use open_troop.TenantFiles.{close_tenant_database}

-- A selection whose tenant is on the list of the known ones
abbrev Listed : Option Membership → List String → Type 0
Listed none known = Unit {0}
Listed (some m) known = contains_id m.tenant_id known ≡ true

record IsAccounted (s : Session) : Type 0 where
  files :
      (t : String)
      → contains_id t (get_known_tenant_ids true s.store) ≡ false
      → s.device.files t ≡ none
  active : Listed s.active (get_known_tenant_ids true s.store)
  stored : Listed s.store.active_tenant (get_known_tenant_ids true s.store)

pub contains_id-append :
    (t u : String) (known : List String)
    → contains_id t (known ++ u ∷ []) ≡ (contains_id t known || str_eq u t)
contains_id-append t u [] = ground arith
contains_id-append t u (k ∷ known) = ground (arith, contains_id-append t u known)

-- What is remembered is on the list, and what was on it stays.
record IsRemembered (t : String) (before after : List String) : Type 0 where
  here : contains_id t after ≡ true
  kept : (u : String) → contains_id u before ≡ true → contains_id u after ≡ true

-- Everything that the device is asked succeeds.
pub record IsGranted (a : Access) : Type 0 where
  pub reads : a.reads ≡ true
  pub writes : a.writes ≡ true
  pub removes : (t : String) → a.removes t ≡ true

-- A device on which all is granted
abbrev granting : (String → Bool) → Access
granting removes = record { reads = true; writes = true; removes = removes }

remember_tenant-IsRemembered :
    (r : String → Bool) (t : String) (store : SecureStore)
    → IsRemembered t
        (get_known_tenant_ids true store)
        (get_known_tenant_ids true (remember_tenant (granting r) t store))
unfolding remember_tenant
remember_tenant-IsRemembered r t store =
    let known = get_known_tenant_ids true store in
    elim (Bool-cases (contains_id t known)) [
      | inl old ↦ rw old (record { here = old; kept = λ u h. h })
      | inr new ↦ rw new (record {
        here = contains_id-append t t known ∙ rw (new, eq_refl t) refl;
        kept = λ u h. contains_id-append u t known ∙ rw h refl;
      })
    ]

active_tenant-remember_tenant :
    (a : Access) (t : String) (store : SecureStore)
    → (remember_tenant a t store).active_tenant ≡ store.active_tenant
unfolding remember_tenant
active_tenant-remember_tenant a t store =
    if-holds (λ st. st.active_tenant ≡ store.active_tenant)
      (contains_id t (get_known_tenant_ids a.reads store) || not a.writes) store _ (λ _. refl)
      (λ _. refl)

not_listed :
    (t u : String) (before after : List String)
    → IsRemembered t before after
    → contains_id u after ≡ false
    → contains_id u before ≡ false
not_listed t u before after r out = elim (Bool-cases (contains_id u before)) [
  | inl listed ↦ absurd (false≢true (sym out ∙ r.kept u listed))
  | inr free ↦ free
]

Listed-kept :
    (t : String) (m : Option Membership) (before after : List String)
    → IsRemembered t before after
    → Listed m before
    → Listed m after
Listed-kept t none before after r h = h
Listed-kept t (some m) before after r h = r.kept m.tenant_id h

hydrate_from-IsAccounted :
    (m : Option Membership) (s : Session)
    → Listed m (get_known_tenant_ids true s.store)
    → IsAccounted s
    → IsAccounted (hydrate_from m s)
hydrate_from-IsAccounted none s k h = record {
  files = h.files;
  active = h.active;
  stored = h.stored;
}
hydrate_from-IsAccounted (some m) s k h = record { files = h.files; active = k; stored = h.stored }

set_active_tenant-IsAccounted :
    (r : String → Bool) (m : Membership) (s : Session)
    → IsAccounted s
    → IsAccounted (set_active_tenant (granting r) (some m) s)
unfolding set_active_tenant
set_active_tenant-IsAccounted r m s h =
    let store : SecureStore = record s.store { active_tenant = some m } in
    let after = get_known_tenant_ids true (remember_tenant (granting r) m.tenant_id store) in
    let k = remember_tenant-IsRemembered r m.tenant_id store in
    record {
      files = λ t out. h.files t (not_listed m.tenant_id t _ _ k out);
      active = k.here;
      stored =
          subst (λ o. Listed o after)
            (sym (active_tenant-remember_tenant (granting r) m.tenant_id store)) k.here;
    }

apart_of_listed :
    (t u : String) (known : List String)
    → contains_id t known ≡ true
    → contains_id u known ≡ false
    → str_eq t u ≡ false
apart_of_listed t u known yes' no' = elim (Bool-cases (str_eq t u)) [
  | inl same ↦
      absurd
        (false≢true (sym no' ∙ sym (ap (λ v. contains_id v known) ((eq_iff t u).0 same)) ∙ yes'))
  | inr apart ↦ apart
]

open_for-IsAccounted :
    (m : Option Membership) (s : Session)
    → Listed m (get_known_tenant_ids true s.store)
    → IsAccounted s
    → IsAccounted (open_for m s)
open_for-IsAccounted none s k h = h
open_for-IsAccounted (some m) s k h = record {
  files = λ t out.
      (open_tenant_database_lem m.tenant_id t s.device (apart_of_listed m.tenant_id t _ k out)).2
      ∙ h.files t out;
  active = h.active;
  stored = h.stored;
}

-- What the wipe leaves
pub record IsWiped (s : Session) : Type 0 where
  pub files : (t : String) → s.device.files t ≡ none
  pub handle : s.device.handle ≡ none
  pub known : s.store.known_tenants ≡ none
  pub selection : s.store.active_tenant ≡ none

module _ (r : String → Bool) (removable : (t : String) → r t ≡ true) where
  wipe-IsWiped : (s : Session) → IsAccounted s → IsWiped (wipe_all_local_data (granting r) s)
  unfolding wipe_all_local_data
  wipe-IsWiped s h = record {
    files = λ t.
        let known = get_known_tenant_ids true s.store in
        (delete_tenant_databases_lem r known t s.device).1
        ∙ (elim (Bool-cases (contains_id t known)) [
          | inl listed ↦ rw (listed, removable t) refl
          | inr free ↦ rw free (h.files t free)
        ]);
    handle = (delete_tenant_databases_lem r (get_known_tenant_ids true s.store) "" s.device).0;
    known = refl;
    selection = refl;
  }

  wipe-IsAccounted :
      (s : Session)
      → s.active ≡ none
      → IsAccounted s
      → IsAccounted (wipe_all_local_data (granting r) s)
  unfolding wipe_all_local_data
  wipe-IsAccounted s idle h = record {
    files = λ t out. (wipe-IsWiped s h).files t;
    active = subst (λ m. Listed m []) (sym idle) tt;
    stored = tt;
  }

note_user-IsAccounted :
    (writes : Bool) (user : Option String) (s : Session)
    → IsAccounted s
    → IsAccounted (record s { store = note_user writes user s.store })
note_user-IsAccounted writes none s h = h
note_user-IsAccounted writes (some user) s h =
    if-holds (λ st. IsAccounted (record s { store = st })) (str_eq user "" || not writes) s.store _
      (λ _. h) (λ _. record { files = h.files; active = h.active; stored = h.stored })

note_user-IsWiped :
    (writes : Bool) (user : Option String) (s : Session)
    → IsWiped s
    → IsWiped (record s { store = note_user writes user s.store })
note_user-IsWiped writes none s h = h
note_user-IsWiped writes (some user) s h =
    if-holds (λ st. IsWiped (record s { store = st })) (str_eq user "" || not writes) s.store _
      (λ _. h)
      (λ _. record { files = h.files; handle = h.handle; known = h.known; selection = h.selection })

-- The session when the application starts, before the gate
abbrev started : Session → Session
started s = record s { active = none; is_hydrated = false; device = close_tenant_database s.device }

started-IsAccounted : (s : Session) → IsAccounted s → IsAccounted (started s)
unfolding close_tenant_database
started-IsAccounted s h = record { files = h.files; active = tt; stored = h.stored }

module _ (r : String → Bool) (removable : (t : String) → r t ≡ true) where
  launch-IsAccounted :
      (user : Option String) (s : Session)
      → IsAccounted s
      → IsAccounted (launch (granting r) user s)
  unfolding launch identity_gate
  launch-IsAccounted user s h = note_user-IsAccounted true user _ (
      if-holds IsAccounted (is_other_user user s.store.last_user_id)
        (wipe_all_local_data (granting r) (started s)) (started s)
        (λ _. wipe-IsAccounted r removable (started s) refl (started-IsAccounted s h))
        (λ _. started-IsAccounted s h))

  sign_out-IsAccounted : (s : Session) → IsAccounted s → IsAccounted (sign_out (granting r) s)
  unfolding sign_out set_active_tenant
  sign_out-IsAccounted s h = record {
    files = λ t out. (wipe-IsWiped r removable s h).files t;
    active = tt;
    stored = tt;
  }

-- What the device is asked at an event succeeds; the selection need not be read back.
abbrev pub IsGrantedAt : SessionEvent → Type 0
IsGrantedAt (launches a user) = IsGranted a
IsGrantedAt (hydrates a) = Unit {0}
IsGrantedAt (selects_tenant a m) = IsGranted a
IsGrantedAt opens = Unit {0}
IsGrantedAt (signs_out a) = IsGranted a

granting_eq : (a : Access) → IsGranted a → granting a.removes ≡ a
granting_eq a g i = record {
  reads = (sym g.reads) i;
  writes = (sym g.writes) i;
  removes = a.removes;
}

hydrate-IsAccounted :
    (reads : Bool) (s : Session)
    → IsAccounted s
    → IsAccounted (hydrate_from (if reads then s.store.active_tenant else none) s)
hydrate-IsAccounted true s h = hydrate_from-IsAccounted s.store.active_tenant s h.stored h
hydrate-IsAccounted false s h = hydrate_from-IsAccounted none s tt h

happen-IsAccounted :
    (e : SessionEvent) (s : Session) → IsGrantedAt e → IsAccounted s → IsAccounted (happen e s)
unfolding happen hydrate open_active
happen-IsAccounted (launches a user) s g h =
    subst (λ b. IsAccounted (launch b user s)) (granting_eq a g)
      (launch-IsAccounted a.removes g.removes user s h)
happen-IsAccounted (hydrates a) s g h = hydrate-IsAccounted a.reads s h
happen-IsAccounted (selects_tenant a m) s g h =
    let selected : IsAccounted (set_active_tenant a (some m) s) =
      subst (λ b. IsAccounted (set_active_tenant b (some m) s)) (granting_eq a g)
        (set_active_tenant-IsAccounted a.removes m s h) in
    open_for-IsAccounted _ (set_active_tenant a (some m) s) selected.active selected
happen-IsAccounted opens s g h = open_for-IsAccounted s.active s h.active h
happen-IsAccounted (signs_out a) s g h =
    subst (λ b. IsAccounted (sign_out b s)) (granting_eq a g)
      (sign_out-IsAccounted a.removes g.removes s h)

happen_in_turn-IsAccounted :
    (es : List SessionEvent) (s : Session)
    → All IsGrantedAt es
    → IsAccounted s
    → IsAccounted (happen_in_turn es s)
happen_in_turn-IsAccounted [] s gs h = h
happen_in_turn-IsAccounted (e ∷ es) s (g, gs) h =
    happen_in_turn-IsAccounted es _ gs (happen-IsAccounted e s g h)

fresh-IsAccounted : IsAccounted fresh
fresh-IsAccounted = record { files = λ t out. refl; active = tt; stored = tt }

sign_out-IsWiped :
    (r : String → Bool) (removable : (t : String) → r t ≡ true) (user : Option String) (s : Session)
    → IsAccounted s
    → is_other_user user s.store.last_user_id ≡ true
    → IsWiped (sign_out (granting r) s) × IsWiped (launch (granting r) user s)
unfolding launch identity_gate sign_out set_active_tenant wipe_all_local_data
sign_out-IsWiped r removable user s h other =
    let out = wipe-IsWiped r removable s h in
    (
      record { files = out.files; handle = out.handle; known = refl; selection = refl },
      note_user-IsWiped true user _ (
          subst (λ b. IsWiped (wipe_if b (granting r) (started s))) (sym other)
            (wipe-IsWiped r removable (started s) (started-IsAccounted s h))),
    )

-- After any launches, selections, openings and sign-outs since the installation, each carried out as a
-- whole, in which the reads and writes of the secure store and the deletions of files succeeded (a
-- selection that cannot be read back at a start does no harm): no tenant's database is left on the
-- device when the user signs out, nor, where another user than the last one is signed in, when the
-- application is launched next, if these succeed then too; no database is open, and the list of known
-- tenants and the stored selection are gone.
pub wipe_leaves_nothing :
    (es : List SessionEvent) (a : Access) (user : Option String)
    → All IsGrantedAt es
    → IsGranted a
    → is_other_user user (happen_in_turn es fresh).store.last_user_id ≡ true
    → IsWiped (sign_out a (happen_in_turn es fresh))
      × IsWiped (launch a user (happen_in_turn es fresh))
wipe_leaves_nothing es a user gs g other =
    let s : Session = happen_in_turn es fresh in
    subst (λ b. IsWiped (sign_out b s) × IsWiped (launch b user s)) (granting_eq a g)
      (sign_out-IsWiped a.removes g.removes user s
        (happen_in_turn-IsAccounted es fresh gs fresh-IsAccounted) other)
