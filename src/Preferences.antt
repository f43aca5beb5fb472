-- ===== src/Preferences.antt =====
-- `useNotificationPreferences` of
-- apps/mobile/src/hooks/use-notification-preferences.ts, the announcement email mode of the member.
-- Each event is one render: a tap sees the state that the event before it left.
pub mod Cycling
use open_troop.Prelude.{
  ℕ, ◌+◌, ◌%◌, String, Bool, true, false, not, ◌||◌, Option, none, some, List, [], ◌∷◌, ◌++◌, leb,
  if◌then◌else◌, length, get_elem?, take, drop,
}
use open_troop.Web.{is_some}

pub data AnnouncementEmailMode : Type 0 where
  every : AnnouncementEmailMode
  digest : AnnouncementEmailMode
  none_sent : AnnouncementEmailMode

-- `ORDER`
abbrev pub order : List AnnouncementEmailMode
order = every ∷ digest ∷ none_sent ∷ []

abbrev mode_eq : AnnouncementEmailMode → AnnouncementEmailMode → Bool
mode_eq every every = true
mode_eq digest digest = true
mode_eq none_sent none_sent = true
mode_eq _ _ = false

-- `indexOf`, for a mode that is in the list
abbrev index_of : AnnouncementEmailMode → List AnnouncementEmailMode → ℕ
index_of mode [] = 0
index_of mode (m ∷ ms) = let rest = index_of mode ms in if mode_eq m mode then 0 else 1 + rest

-- `ORDER[(ORDER.indexOf(mode) + 1) % ORDER.length]`, where `none` is `undefined`.
abbrev pub next_mode : AnnouncementEmailMode → Option AnnouncementEmailMode
next_mode mode = get_elem? order ((index_of mode order + 1) % length order)

-- The status and the mode of an answer.
pub record Answer : Type 0 where
  pub status : ℕ
  pub mode : AnnouncementEmailMode

-- `tenant` stands for `activeTenant` and `http`, which are there together; `loads` are the requests of
-- the effect in flight, by whether each is cancelled; `saves` the bodies of the requests of `cycle` in
-- flight.
pub record Preferences : Type 0 where
  pub tenant : Option String
  pub mode : Option AnnouncementEmailMode
  pub busy : Bool
  pub error : Option String
  pub loads : List Bool
  pub saves : List (Option AnnouncementEmailMode)

abbrev cancel : List Bool → List Bool
cancel [] = []
cancel (cancelled ∷ loads) = true ∷ cancel loads

-- The effect for a tenant, after the cleanup of the one before.
pub run_effect : Option String → Preferences → Preferences
run_effect none s = record s { tenant = none; loads = cancel s.loads }
run_effect (some t) s = record s { tenant = some t; loads = cancel s.loads ++ false ∷ [] }

-- What the settled request of an effect sets, where `none` is that `http` threw.
pub show_loaded : Bool → Option Answer → Preferences → Preferences
show_loaded true answer s = s
show_loaded false none s = record s { error = some "Could not load notification preferences." }
show_loaded false (some answer) s =
    if leb 400 answer.status
    then record s { error = some "Could not load notification preferences." }
    else record s { mode = some answer.mode }

-- The request of an effect at a place of `loads` is settled.
unfoldable pub finish_load : ℕ → Option Answer → Preferences → Preferences
unfolding show_loaded
finish_load i answer s = elim (get_elem? s.loads i) [
  | none ↦ s
  | some cancelled ↦
      show_loaded cancelled answer (record s { loads = take i s.loads ++ drop (i + 1) s.loads })
]

-- `cycle`, up to its request
unfoldable pub tap : Preferences → Preferences
tap s = elim s.mode [
  | none ↦ s
  | some mode ↦
      if not (is_some s.tenant) || s.busy
      then s
      else record s { busy = true; error = none; saves = s.saves ++ next_mode mode ∷ [] }
]

abbrev pub show_saved : Option Answer → Preferences → Preferences
show_saved none s = record s { error = some "Could not update notification preferences." }
show_saved (some answer) s =
    if leb 400 answer.status
    then record s { error = some "Could not update notification preferences." }
    else record s { mode = some answer.mode }

-- The rest of `cycle`, for the oldest request.
unfoldable pub finish_save : Option Answer → Preferences → Preferences
finish_save answer s = elim s.saves [
  | [] ↦ s
  | body ∷ saves ↦ record (show_saved answer (record s { saves = saves })) { busy = false }
]
