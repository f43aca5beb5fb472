-- ===== src/Pull.antt =====
-- apps/mobile/src/data/pull.ts: the pull loop, which consumes the keyset streams of the server into
-- the mirror, and the full refetch.
pub mod Boundary
pub mod Keeps
pub mod Refused
pub mod Streams
pub mod Rounds
pub mod Refetch
pub mod Epochs
use Prim.Native.String.{◌++◌ as join}
use mathlib.Core.Option
use open_troop.Prelude.{
  ℕ, zero, suc, ◌+◌, String, Bool, true, false, not, ◌&&◌, Option, none, some, get_or, List, [],
  ◌∷◌, map, str_eq, leb, ◌==◌, if◌then◌else◌,
}
use open_troop.Doc.{Doc, get, Json, null, bool, num, str, arr, obj, Items, nil, cons}
use open_troop.Doc.Decimal.{show, number}
use open_troop.Db.{
  entity_name, sync_entities, SyncEntity, SyncCursor, Db, transport, pull_error, malformed_page,
  not_advancing, out_of_fuel, Result, ok, err,
}
use open_troop.Schema.{get_meta, set_meta}
use open_troop.Mirror.{
  zero_cursor, get_cursor, Epoch, apply_pull_page, sweep_stale, run_mirror, SyncRow,
}
use open_troop.Commands.{Request}
use open_troop.Commands.Drain.{Client, run_ops, object_of, text_of, run_drain, HttpResponse}

-- `if (x)` on a JSON value
pub truthy_json : Json → Bool
truthy_json null = false
truthy_json (bool b) = b
truthy_json (num n) = not (n == 0)
truthy_json (str s) = not (str_eq s "")
truthy_json (arr xs) = true
truthy_json (obj ps) = true

abbrev items_list : Items → List Json
items_list nil = []
items_list (cons x xs) = x ∷ items_list xs

abbrev num_of : Option Json → Option ℕ
num_of (some (num n)) = some n
num_of _ = none

-- The columns of a tombstone are not read.
live_row : String → Doc → Option ℕ → Option String → Option SyncRow
live_row id d (some seq) (some at) =
    some (record { id = id; sync_seq = seq; updated_at = at; is_deleted = false; doc = d })
live_row id d _ _ = none

row_of : String → Doc → Bool → Option SyncRow
row_of id d true =
    some (record { id = id; sync_seq = 0; updated_at = ""; is_deleted = true; doc = d })
row_of id d false = live_row id d (num_of (get "sync_seq" d)) (text_of (get "updated_at" d))

-- A row of a page; `none` where a statement on it throws, since a column is NOT NULL.
pub read_row : Json → Option SyncRow
read_row item =
    let d = object_of item in
    elim (text_of (get "id" d)) [
      | none ↦ none
      | some id ↦ row_of id d (truthy_json (get_or (get "is_deleted" d) null))
    ]

-- A row that is `none` makes the page throw when the loop comes to it.
pub record SyncPage : Type 0 where
  pub items : List (Option SyncRow)
  pub next : SyncCursor
  pub has_more : Bool

page_with : Doc → Option Json → Option ℕ → Option SyncPage
page_with d (some (arr xs)) (some seq) = some (record {
  items = map read_row (items_list xs);
  next = record { last_seq = seq; last_id = text_of (get "next_since_id" d) };
  has_more = truthy_json (get_or (get "has_more" d) null);
})
page_with d _ _ = none

-- The body of a response as a page; `none` if it is malformed.
unfoldable pub page_of : Json → Option SyncPage
unfolding page_with read_row row_of live_row truthy_json
page_of body =
    let d = object_of body in page_with d (get "items" d) (num_of (get "next_since_seq" d))

abbrev pub page_limit : ℕ
page_limit = 500

abbrev pub epoch_key : String
epoch_key = "sync_epoch"

-- `Number(getMeta(db, EPOCH_KEY) ?? "1")`; `none` is NaN.
pub current_epoch : Db → Epoch
current_epoch db = number (get_or (get_meta epoch_key db) "1")

-- `String(epoch)`
pub epoch_text : Epoch → String
epoch_text none = "NaN"
epoch_text (some n) = show n

-- `epoch + 1`
abbrev pub next_epoch : Epoch → Epoch
next_epoch = Option.map suc

since_id : Option String → List (String × String)
since_id none = []
since_id (some id) = if str_eq id "" then [] else ("since_id", id) ∷ []

unfoldable pub pull_request : SyncEntity → SyncCursor → Request
unfolding since_id show
pull_request e cursor = record {
  path = join "/sync/" (entity_name e);
  query =
      ("since_seq", show cursor.last_seq) ∷ ("limit", show page_limit) ∷ since_id cursor.last_id;
  method = "GET";
  body = none;
}

abbrev pub same_id : Option String → Option String → Bool
same_id none none = true
same_id (some a) (some b) = str_eq a b
same_id _ _ = false

pub cursor_eq : SyncCursor → SyncCursor → Bool
cursor_eq a b = a.last_seq == b.last_seq && same_id a.last_id b.last_id

-- One round of the loop after the await: it ends, or it goes on from a cursor.
pub data Step : Type 0 where
  stop : Result (Unit {0}) → Db → Step
  again : SyncCursor → Db → Step

-- The tests behind `applyPullPage`.
pub after_page : SyncEntity → SyncCursor → SyncPage → Result (Unit {0}) × Db → Step
after_page e prev page (err failure, db) = stop (err failure) db
after_page e prev page (ok _, db) =
    if not page.has_more
    then stop (ok tt) db
    else if cursor_eq page.next prev
    then stop (err (not_advancing e)) db
    else again page.next db

pub take_page : SyncEntity → SyncCursor → Epoch → String → Db → Option SyncPage → Step
take_page e prev epoch now db none = stop (err (malformed_page e)) db
take_page e prev epoch now db (some page) =
    after_page e prev page (apply_pull_page e page.items page.next epoch now db)

pub pull_step : SyncEntity → SyncCursor → Epoch → Option (HttpResponse Json) → String → Db → Step
pull_step e prev epoch none now db = stop (err transport) db
pull_step e prev epoch (some r) now db =
    if leb 400 r.status
    then stop (err (pull_error e r.status)) db
    else take_page e prev epoch now db (page_of r.body)

abbrev pub start_cursor : Bool → SyncEntity → Db → SyncCursor
start_cursor true e db = zero_cursor
start_cursor false e db = get_cursor e db

pub stamp_pull {ℓ} : {W : Type ℓ} → String → Result (Unit {0}) × W × Db → Result (Unit {0}) × W × Db
stamp_pull now (err failure, w, db) = (err failure, w, db)
stamp_pull now (ok _, w, db) = (ok tt, w, set_meta "last_pull_at" now db)

pub sweep_all : List SyncEntity → Epoch → ℕ → Db → ℕ × Db
sweep_all [] epoch removed db = (removed, db)
sweep_all (e ∷ es) epoch removed db =
    let (n, db') = sweep_stale e epoch db in sweep_all es epoch (removed + n) db'

pub finish_refetch {ℓ} :
    {W : Type ℓ} → Epoch → String → Result (Unit {0}) × W × Db → Result ℕ × W × Db
finish_refetch epoch now (err failure, w, db) = (err failure, w, db)
finish_refetch epoch now (ok _, w, db) =
    let (removed, db') = sweep_all sync_entities epoch 0 db in
    (ok removed, w, set_meta "last_full_refetch_at" now db')

-- What follows a round: the end of the pull, or its next round.
pub resume {ℓ} :
    {W : Type ℓ}
    → (SyncCursor → W → Db → Result (Unit {0}) × W × Db)
    → W
    → Step
    → Result (Unit {0}) × W × Db
resume next_round w (stop result db) = (result, w, db)
resume next_round w (again cursor db) = next_round cursor w db

module _ {W : Type 0} (http : Client W Json) where
  -- The loop `for (;;)`, on fuel: a server may keep it going.
  pub pull_loop : ℕ → SyncEntity → Epoch → SyncCursor → W → Db → Result (Unit {0}) × W × Db
  pull_loop zero e epoch cursor w db = (err out_of_fuel, w, db)
  pull_loop (suc fuel) e epoch cursor w db =
      let (reply, w') = http (pull_request e cursor) w in
      resume (pull_loop fuel e epoch) w'
        (pull_step e cursor epoch reply.outcome reply.now (run_ops reply.meanwhile db))

  pub pull_entity : ℕ → SyncEntity → Epoch → Bool → W → Db → Result (Unit {0}) × W × Db
  pull_entity fuel e epoch from_zero w db =
      pull_loop fuel e epoch (start_cursor from_zero e db) w db

  -- The loop over the entities, which the first failure ends.
  pub pull_entities : ℕ → List SyncEntity → Epoch → Bool → W → Db → Result (Unit {0}) × W × Db
  pull_entities fuel [] epoch from_zero w db = (ok tt, w, db)
  pull_entities fuel (e ∷ es) epoch from_zero w db =
      let (result, w', db') = pull_entity fuel e epoch from_zero w db in
      elim result [
        | ok _ ↦ pull_entities fuel es epoch from_zero w' db'
        | err failure ↦ (err failure, w', db')
      ]

  -- `now` is the time at which the round ends.
  pub pull_round : ℕ → String → W → Db → Result (Unit {0}) × W × Db
  pull_round fuel now w db =
      stamp_pull now (pull_entities fuel sync_entities (current_epoch db) false w db)

  pub full_refetch : ℕ → String → W → Db → Result ℕ × W × Db
  full_refetch fuel now w db =
      let epoch = next_epoch (current_epoch db) in
      let db' = set_meta epoch_key (epoch_text epoch) db in
      finish_refetch epoch now (pull_entities fuel sync_entities epoch true w db')

-- Opens the component, for tests that run it.
unfoldable pub run_pull : Unit {0}
unfolding run_mirror run_drain page_of current_epoch epoch_text show number get_meta set_meta
    pull_request resume cursor_eq after_page take_page pull_step stamp_pull sweep_all finish_refetch
    pull_loop pull_entity pull_entities pull_round full_refetch
run_pull = tt
