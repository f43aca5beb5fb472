-- ===== src/Session.antt =====
-- The tenant selection on the device, apps/mobile/src/lib/tenant-context.tsx, and the wipe at sign-out,
-- local-wipe.ts and identity-gate.tsx: the entries of the secure store, beside the database files of
-- TenantFiles.antt.
pub mod Wipe
pub mod Race
use open_troop.Prelude.{
  String, Bool, true, false, not, ◌&&◌, ◌||◌, Option, none, some, get_or, List, [], ◌∷◌, ◌++◌,
  str_eq, if◌then◌else◌, any,
}
use open_troop.Doc.{Doc}
use open_troop.TenantFiles.{
  close_tenant_database, open_tenant_database, delete_tenant_databases, Device,
}

pub record Membership : Type 0 where
  pub tenant_id : String
  pub tenant_slug : String
  pub fields : Doc

-- The entries of `ACTIVE_TENANT_KEY` and `KNOWN_TENANTS_KEY`, as the values that their JSON text holds.
pub record SecureStore : Type 0 where
  pub active_tenant : Option Membership
  pub known_tenants : Option (List String)
  pub last_user_id : Option String

-- `isHydrated` only says when the selection has been read.
pub record Session : Type 0 where
  pub active : Option Membership
  pub is_hydrated : Bool
  pub store : SecureStore
  pub device : Device

-- How the device answers while something happens: whether the reads of the secure store succeed (with the
-- parse of what they read), whether its writes and deletions do, and which files can be deleted.
pub record Access : Type 0 where
  pub reads : Bool
  pub writes : Bool
  pub removes : String → Bool

-- `getKnownTenantIds`: a read that fails is an empty list.
abbrev pub get_known_tenant_ids : Bool → SecureStore → List String
get_known_tenant_ids false store = []
get_known_tenant_ids true store = get_or store.known_tenants []

abbrev pub contains_id : String → List String → Bool
contains_id t ids = any (λ id. str_eq id t) ids

-- What `rememberTenant` writes, from what it has read
abbrev pub write_known : Bool → String → List String → SecureStore → SecureStore
write_known writes t known store =
    if contains_id t known || not writes
    then store
    else record store { known_tenants = some (known ++ t ∷ []) }

unfoldable pub remember_tenant : Access → String → SecureStore → SecureStore
remember_tenant a t store = write_known a.writes t (get_known_tenant_ids a.reads store) store

-- The mount effect: what was stored becomes the selection, if it can be read.
abbrev pub hydrate_from : Option Membership → Session → Session
hydrate_from none s = record s { is_hydrated = true }
hydrate_from (some m) s = record s { active = some m; is_hydrated = true }

unfoldable pub hydrate : Access → Session → Session
hydrate a s = hydrate_from (if a.reads then s.store.active_tenant else none) s

abbrev pub write_active : Bool → Option Membership → SecureStore → SecureStore
write_active writes m store = if writes then record store { active_tenant = m } else store

-- `setActiveTenant`, with its writes carried out one after the other
unfoldable pub set_active_tenant : Access → Option Membership → Session → Session
set_active_tenant a none s = record s { active = none; store = write_active a.writes none s.store }
set_active_tenant a (some m) s = record s {
  active = some m;
  store = remember_tenant a m.tenant_id (write_active a.writes (some m) s.store);
}

-- The sync provider opens the database of the active tenant.
abbrev pub open_for : Option Membership → Session → Session
open_for none s = s
open_for (some m) s = record s { device = open_tenant_database m.tenant_id s.device }

unfoldable pub open_active : Session → Session
open_active s = open_for s.active s

-- `wipeAllLocalData`
unfoldable pub wipe_all_local_data : Access → Session → Session
wipe_all_local_data a s = record s {
  device = delete_tenant_databases a.removes (get_known_tenant_ids a.reads s.store) s.device;
  store =
      if a.writes then record s.store { active_tenant = none; known_tenants = none } else s.store;
}

abbrev pub text_of : Option String → String
text_of o = get_or o ""

-- `userId && lastUserId && lastUserId !== userId`
abbrev pub is_other_user : Option String → Option String → Bool
is_other_user user last =
    not (str_eq (text_of user) "")
    && not (str_eq (text_of last) "")
    && not (str_eq (text_of last) (text_of user))

abbrev pub note_user : Bool → Option String → SecureStore → SecureStore
note_user writes none store = store
note_user writes (some user) store =
    if str_eq user "" || not writes then store else record store { last_user_id = some user }

abbrev pub wipe_if : Bool → Access → Session → Session
wipe_if other a s = if other then wipe_all_local_data a s else s

-- The effect of `IdentityGate`: another user than the last one finds nothing; if the last one cannot be
-- read, nothing is done.
abbrev pub checked : Access → Option String → Session → Session
checked a user s =
    let wiped = wipe_if (is_other_user user s.store.last_user_id) a s in
    record wiped { store = note_user a.writes user wiped.store }

unfoldable pub identity_gate : Access → Option String → Session → Session
identity_gate a user s = if a.reads then checked a user s else s

-- The application starts: nothing is selected or open, and the gate comes before the providers.
unfoldable pub launch : Access → Option String → Session → Session
launch a user s =
    identity_gate a user
      (record s { active = none; is_hydrated = false; device = close_tenant_database s.device })

-- The settings screen's sign-out, once the push registration is gone
unfoldable pub sign_out : Access → Session → Session
sign_out a s = set_active_tenant a none (wipe_all_local_data a s)

-- What happens on a device, each as a whole.
pub data SessionEvent : Type 0 where
  launches : (a : Access) (user : Option String) → SessionEvent
  hydrates : (a : Access) → SessionEvent
  selects_tenant : (a : Access) (m : Membership) → SessionEvent
  opens : SessionEvent
  signs_out : (a : Access) → SessionEvent

unfoldable pub happen : SessionEvent → Session → Session
happen (launches a user) s = launch a user s
happen (hydrates a) s = hydrate a s
happen (selects_tenant a m) s = open_active (set_active_tenant a (some m) s)
happen opens s = open_active s
happen (signs_out a) s = sign_out a s

abbrev pub happen_in_turn : List SessionEvent → Session → Session
happen_in_turn [] s = s
happen_in_turn (e ∷ es) s = happen_in_turn es (happen e s)

-- A device on which the application was just installed
abbrev pub fresh : Session
fresh = record {
  active = none;
  is_hydrated = false;
  store = record { active_tenant = none; known_tenants = none; last_user_id = none };
  device = record { files = λ t. none; handle = none };
}
