-- ===== src/Examples/Pulls.antt =====
-- Pulls and syncs at concrete inputs.
use open_troop.Prelude.{
  ℕ, ◌+◌, ◌≤◌, ◌<◌, String, ◌≡◌, refl, ap, ◌∙◌, ◌⊎◌, inl, inr, Bool, true, false, Option, none,
  some, get_or, List, [], ◌∷◌, ◌++◌, map, arith, str_eq, ltb, ◌==◌, if◌then◌else◌, if-holds, length,
  drop, All,
}
use open_troop.Doc.{
  properties, get, Json, null, bool, num, str, arr, obj, Items, nil, cons, Properties, end,
  property,
}
use open_troop.Doc.Decimal.{number, number-show}
use open_troop.Db.{
  SyncEntity, event_types, locations, members, member_relationships, events, event_participants,
  inbox_messages, inbox_recipients, SyncCursor, pending, Db, pull_error, ok, err,
}
use open_troop.Db.Rows.{find_row, HasDistinctIds}
use open_troop.Schema.{get_meta}
use open_troop.Mirror.{zero_cursor, get_cursor, SyncRow}
use open_troop.Mirror.Pages.{last_for, settled}
use open_troop.Commands.{list_commands}
use open_troop.Commands.Drain.{Client, drain_queue, run_drain, HttpResponse, Reply}
use open_troop.Commands.Drain.Accounts.{IsQuiet}
use open_troop.Pull.{page_of, current_epoch, pull_request, pull_entity, full_refetch, run_pull}
use open_troop.Pull.Refused.{Refuses}
use open_troop.Engine.Stuck.{sync_outcomes, refused_cursor_stays}
use open_troop.Pull.Boundary.{handed, pull_entity_resumes, Pulled}
use open_troop.Pull.Streams.{pull_entity_streams, IsStream, IsCaughtUp}
use open_troop.Pull.Refetch.{IsUpTo, full_refetch_streams}
use open_troop.Engine.{full_refetch_due, sync_now}
use open_troop.Engine.Schedule.{full_refetch_due-IsUnstamped, sync_many, full_refetch_never_due}
use open_troop.Engine.CatchUp.{sync_now_streams}
use open_troop.Examples.Data.{two_events}
use open_troop.Examples.Outbox.{two_events-IsQueue}

abbrev campout_json : Properties
campout_json = property "id" (str "e1") (
    property "sync_seq" (num 1)
      (property "updated_at" (str "t1") (property "title" (str "Campout") end)))

abbrev hike_json : Properties
hike_json = property "id" (str "e2") (property "is_deleted" (bool true) end)

abbrev campout_row : SyncRow
campout_row = record {
  id = "e1";
  sync_seq = 1;
  updated_at = "t1";
  is_deleted = false;
  doc = properties campout_json;
}

abbrev hike_row : SyncRow
hike_row = record {
  id = "e2";
  sync_seq = 0;
  updated_at = "";
  is_deleted = true;
  doc = properties hike_json;
}

abbrev page_json : Items → ℕ → Bool → Json
page_json items seq more = obj (
    property "items" (arr items) (
      property "next_since_seq" (num seq)
        (property "next_since_id" null (property "has_more" (bool more) end))))

-- Where a cursor stands in the stream of the server: the rows have the numbers 5 and 6, and tombstones
-- below 5 are purged, so that a cursor from 1 to 4 is answered with 410.
data Place : Type 0 where
  first_row second_row none_left purged : Place

abbrev place : ℕ → Place
place n =
    if n == 0
    then first_row
    else if ltb n 5
    then purged
    else if n == 5
    then second_row
    else none_left

abbrev rows_at : Place → List SyncRow
rows_at first_row = campout_row ∷ []
rows_at second_row = hike_row ∷ []
rows_at _ = []

abbrev next_at : Place → ℕ
next_at first_row = 5
next_at _ = 6

abbrev rows_behind : Place → List SyncRow
rows_behind first_row = campout_row ∷ hike_row ∷ []
rows_behind second_row = hike_row ∷ []
rows_behind _ = []

abbrev is_first : Place → Bool
is_first first_row = true
is_first _ = false

abbrev is_served : Place → Bool
is_served purged = false
is_served _ = true

abbrev page_at : Place → Json
page_at first_row = page_json (cons (obj campout_json) nil) 5 true
page_at second_row = page_json (cons (obj hike_json) nil) 6 false
page_at _ = page_json nil 6 false

-- The world says whether a command was accepted: it makes the second row, the tombstone.
abbrev reply_at : Bool → Place → HttpResponse Json
reply_at w purged = record { status = 410; body = null }
reply_at false first_row = record {
  status = 200;
  body = page_json (cons (obj campout_json) nil) 5 false;
}
reply_at false second_row = record { status = 200; body = page_json nil 5 false }
reply_at w p = record { status = 200; body = page_at p }

abbrev since_of : List (String × String) → ℕ
since_of [] = 0
since_of ((k, v) ∷ query) = get_or (number v) 0

abbrev after : SyncEntity → SyncCursor → List SyncRow
after e c = rows_behind (place c.last_seq)

abbrev quietly : HttpResponse Json → Reply Json
quietly response = record { outcome = some response; meanwhile = []; now = "later" }

abbrev pages : Client Bool Json
pages request w =
    if str_eq request.method "GET"
    then (quietly (reply_at w (place (since_of request.query))), w)
    else (quietly (record { status = 200; body = null }), true)

since_of-pull_request :
    (e : SyncEntity) (c : SyncCursor) → since_of (pull_request e c).query ≡ c.last_seq
unfolding pull_request
since_of-pull_request e c = rw (number-show c.last_seq)

pages-pull_request :
    (e : SyncEntity) (c : SyncCursor) (w : Bool)
    → pages (pull_request e c) w ≡ (quietly (reply_at w (place c.last_seq)), w)
unfolding pull_request
pages-pull_request e c w = ap (λ n. (quietly (reply_at w (place n)), w)) (since_of-pull_request e c)

reply_at_lem :
    (p : Place)
    → is_served p ≡ true
    → ((reply_at true p).status < 400)
      × (page_of (reply_at true p).body
          ≡ some (record {
            items = map some (rows_at p);
            next = record { last_seq = next_at p; last_id = none };
            has_more = is_first p;
          }))
      × (rows_behind p ≡ rows_at p ++ rows_behind (place (next_at p)))
      × (((is_first p ≡ false) × (rows_behind (place (next_at p)) ≡ []))
          ⊎ ((is_first p ≡ true) × (1 ≤ length (rows_at p))))
unfolding page_of get
reply_at_lem first_row h = (omega arith, refl, refl, inr (refl, omega arith))
reply_at_lem second_row h = (omega arith, refl, refl, inl (refl, refl))
reply_at_lem none_left h = (omega arith, refl, refl, inl (refl, refl))
reply_at_lem purged h = cc

next_at-is_served : (p : Place) → is_served (place (next_at p)) ≡ true
next_at-is_served first_row = refl
next_at-is_served second_row = refl
next_at-is_served none_left = refl
next_at-is_served purged = refl

-- The promise holds for the streams as they are once a command was accepted.
pages-IsStream : IsStream pages after
pages-IsStream = record {
  Serves = λ e c w. (w ≡ true) × (is_served (place c.last_seq) ≡ true);
  answer = λ e c w. reply_at true (place c.last_seq);
  rows = λ e c w. rows_at (place c.last_seq);
  next = λ e c w. record { last_seq = next_at (place c.last_seq); last_id = none };
  more = λ e c w. is_first (place c.last_seq);
  outcome = λ e c w v.
      ap (λ x. x.0.outcome) (pages-pull_request e c w)
      ∙ ap (λ b. some (reply_at b (place c.last_seq))) v.0;
  quiet = λ e c w v. ap (λ x. x.0.meanwhile) (pages-pull_request e c w);
  succeeds = λ e c w v. (reply_at_lem (place c.last_seq) v.1).0;
  reads = λ e c w v. (reply_at_lem (place c.last_seq) v.1).1;
  front = λ e c w v. (reply_at_lem (place c.last_seq) v.1).2;
  progress = λ e c w v. (reply_at_lem (place c.last_seq) v.1).3;
  onward = λ e c w v more.
      (ap (λ x. x.1) (pages-pull_request e c w) ∙ v.0, next_at-is_served (place c.last_seq));
  stays = λ e f c d w v u. (ap (λ x. x.1) (pages-pull_request e c w) ∙ u.0, u.1);
}

serves :
    (e : SyncEntity) (c : SyncCursor) (w : Bool)
    → w ≡ true
    → is_served (place c.last_seq) ≡ true
    → pages-IsStream.Serves e c w
unfolding pages-IsStream
serves e c w p q = (p, q)

-- The database of the examples in its second epoch.
abbrev second_epoch : Db
second_epoch = record two_events { meta = λ k. if str_eq k "sync_epoch" then some "2" else none }

second_epoch_lem : current_epoch second_epoch ≡ some 2
unfolding run_pull
second_epoch_lem = refl

short_streams : (f : SyncEntity) → length (after f (get_cursor f second_epoch)) < 3
unfolding get_cursor
short_streams f = omega arith

events_distinct : (f : SyncEntity) → HasDistinctIds (second_epoch.mirror f)
unfolding find_row
events_distinct event_types = tt
events_distinct locations = tt
events_distinct members = tt
events_distinct member_relationships = tt
events_distinct events = (refl, (refl, tt))
events_distinct event_participants = tt
events_distinct inbox_messages = tt
events_distinct inbox_recipients = tt

events-IsUpTo : (f : SyncEntity) → IsUpTo 2 (second_epoch.mirror f)
events-IsUpTo event_types = tt
events-IsUpTo locations = tt
events-IsUpTo members = tt
events-IsUpTo member_relationships = tt
events-IsUpTo events = (omega arith, (omega arith, tt))
events-IsUpTo event_participants = tt
events-IsUpTo inbox_messages = tt
events-IsUpTo inbox_recipients = tt

pull_entity_streams_example :
    IsCaughtUp after 2 events
      (after events zero_cursor)
      second_epoch
      (pull_entity pages 3 events (some 2) true true second_epoch)
pull_entity_streams_example =
    pull_entity_streams pages after pages-IsStream 2 3 events true true second_epoch
      (serves events zero_cursor true refl refl) (omega arith)

full_refetch_streams_example :
    ((removed : ℕ) × ((full_refetch pages 3 "now" true second_epoch).0 ≡ ok removed))
    × ((f : SyncEntity) (id : String)
        → find_row id ((full_refetch pages 3 "now" true second_epoch).2.mirror f)
          ≡ settled 3 (last_for id (after f zero_cursor)) none)
    × ((full_refetch pages 3 "now" true second_epoch).2.pending_commands
        ≡ second_epoch.pending_commands)
full_refetch_streams_example =
    full_refetch_streams pages after pages-IsStream 2 3 "now" true second_epoch second_epoch_lem
      events_distinct events-IsUpTo (λ f. serves f zero_cursor true refl refl) (λ f. omega arith)

-- A cursor that the server no longer serves fails the pull with 410.
abbrev left_behind : Db
left_behind = record second_epoch {
  sync_state = λ e.
      some (record { cursor = record { last_seq = 3; last_id = none }; last_synced_at = "t1" });
}

left_behind_gone :
    (pull_entity pages 3 events (some 2) false true left_behind).0 ≡ err (pull_error events 410)
unfolding run_pull
left_behind_gone = refl

pull_entity_resumes_example :
    Pulled pages events
      (some 2)
      1
      (get_cursor events second_epoch)
      true
      second_epoch
      (pull_entity pages 1 events (some 2) false true second_epoch).0
      (get_cursor events (pull_entity pages 1 events (some 2) false true second_epoch).2)
      (pull_entity pages 1 events (some 2) false true second_epoch).1
      (pull_entity pages 1 events (some 2) false true second_epoch).2
pull_entity_resumes_example = pull_entity_resumes pages 1 events (some 2) true second_epoch

abbrev no_date : String → Option ℕ
no_date s = none

full_refetch_never_due_example :
    full_refetch_due no_date 900000000
      (sync_many pages no_date 3 ((1, "t1") ∷ (2, "t2") ∷ []) true two_events).1
    ≡ false
full_refetch_never_due_example =
    full_refetch_never_due pages no_date 3 ((1, "t1") ∷ (2, "t2") ∷ []) 900000000 true two_events
      (unfold get_meta in refl)

-- Its cursor of the events is behind the watermark of the server.
abbrev behind_watermark : Db
behind_watermark = record two_events {
  sync_state = λ e.
      some (record { cursor = record { last_seq = 2; last_id = none }; last_synced_at = "t0" });
}

pages-Refuses : Refuses pages events (record { last_seq = 2; last_id = none })
pages-Refuses w =
    ap (λ x. handed x.0.outcome)
      (pages-pull_request events (record { last_seq = 2; last_id = none }) w)

refused_cursor_stays_example :
    All
      (λ outcome. outcome.pulled ≡ false)
      (sync_outcomes pages no_date 3 events
        (record { last_seq = 2; last_id = none })
        ((1, "t1") ∷ (2, "t2") ∷ [])
        true
        behind_watermark)
    × (get_cursor events
          (sync_many pages no_date 3 ((1, "t1") ∷ (2, "t2") ∷ []) true behind_watermark).1
        ≡ record { last_seq = 2; last_id = none })
refused_cursor_stays_example =
    refused_cursor_stays pages no_date 3 events (record { last_seq = 2; last_id = none })
      ((1, "t1") ∷ (2, "t2") ∷ []) true behind_watermark pages-Refuses (unfold get_meta in refl)
      (unfold get_cursor in refl)

not_due : full_refetch_due no_date 5 second_epoch ≡ false
not_due = full_refetch_due-IsUnstamped no_date 5 second_epoch (unfold get_meta in refl)

pages-IsQuiet : IsQuiet pages
pages-IsQuiet request w =
    if-holds (λ (x : Reply Json × Bool). x.0.meanwhile ≡ []) (str_eq request.method "GET") _ _
      (λ pulls. refl) (λ sends. refl)

-- The commands of the queue are accepted, so that the stream has its second row when it is pulled.
drained_world : (drain_queue pages false second_epoch).1 ≡ true
unfolding run_drain
drained_world = refl

sync_now_streams_example :
    ((sync_now pages no_date 3 5 "now" false false second_epoch).0.pulled ≡ true)
    × ((sync_now pages no_date 3 5 "now" false false second_epoch).0.error ≡ none)
    × (list_commands (some pending) (sync_now pages no_date 3 5 "now" false false second_epoch).2
        ≡ drop
            ((sync_now pages no_date 3 5 "now" false false second_epoch).0.drain.sent
              + (sync_now pages no_date 3 5 "now" false false second_epoch).0.drain.failed)
            (list_commands (some pending) second_epoch))
    × ((f : SyncEntity)
        → after f (get_cursor f (sync_now pages no_date 3 5 "now" false false second_epoch).2) ≡ [])
sync_now_streams_example =
    sync_now_streams pages after pages-IsStream pages-IsQuiet no_date 2 3 5 "now" false second_epoch
      second_epoch_lem two_events-IsQueue not_due
      (λ f. serves f (get_cursor f second_epoch) _ drained_world (unfold get_cursor in refl))
      short_streams
