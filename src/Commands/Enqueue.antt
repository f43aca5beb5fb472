-- ===== src/Commands/Enqueue.antt =====
-- Queueing a command: both branches of `enqueueCommand`, and the invariant of the queue.
use Prim.Native.Nat.{max}
use mathlib.Core.Option.{some-injective}
use open_troop.Prelude.{
  ◌≤◌, String, ◌≡◌, sym, ap, ◌∙◌, subst, inl, inr, true, false, Option, none, some, List, [], ◌∷◌,
  ◌++◌, map, arith, str_eq, eq_refl, Bool-cases, Option-cases, find_first, any, All, All-find_first,
  All-of_find_first-none, any-false, All-mono,
}
use open_troop.Db.{CommandKind, CommandPayload, PendingCommand, Db, unique_constraint, ok, err}
use open_troop.Commands.{
  target_key, merge_payload, is_for, set_payload, max_position, get_command, coalesce, new_command,
  append_command, enqueue_body, enqueue_command,
}
use open_troop.Commands.Queue.{AllPairs-snoc, AllPairs-map, IsQueue, Apart}
use open_troop.Db.Transaction.{keep_or_revert, transaction_lem}

-- The pending command for a kind and target, if there is one.
abbrev pub waiting : CommandKind → CommandPayload → Db → Option PendingCommand
waiting kind payload db = find_first (is_for kind (target_key kind payload)) db.pending_commands

abbrev pub with_commands : List PendingCommand → Db → Db
with_commands queue db = record db { pending_commands = queue }

-- `enqueue_body` never throws where its reads find what was just written.
find_first-map-set_payload :
    (id : String) (p : CommandPayload) (q : List PendingCommand) (c : PendingCommand)
    → find_first (λ d. str_eq d.id id) q ≡ some c
    → find_first (λ d. str_eq d.id id) (map (set_payload id p) q) ≡ some (record c { payload = p })
find_first-map-set_payload id p [] c h = cc
find_first-map-set_payload id p (d ∷ q) c h = ground (arith, find_first-map-set_payload id p q c)

find_first_own :
    (kind : CommandKind) (key : String) (q : List PendingCommand) (c : PendingCommand)
    → IsQueue q
    → find_first (is_for kind key) q ≡ some c
    → find_first (λ d. str_eq d.id c.id) q ≡ some c
find_first_own kind key [] c h e = cc
find_first_own kind key (d ∷ q) c (apart, h) e = elim (Bool-cases (is_for kind key d)) [
  | inl here ↦
      subst (λ x. find_first (λ y. str_eq y.id x.id) (d ∷ q) ≡ some x)
        (some-injective d c (sym (rw here) ∙ e)) (rw (eq_refl d.id))
  | inr later ↦
      let found = sym (rw later) ∙ e in
      rw ((All-find_first (Apart d) (is_for kind key) q c apart found).ids)
        (find_first_own kind key q c h found)
]

coalesce_ok :
    (c : PendingCommand) (payload : CommandPayload) (db : Db)
    → find_first (λ d. str_eq d.id c.id) db.pending_commands ≡ some c
    → coalesce c payload db ≡ (
      ok (record c { payload = merge_payload c.payload payload }),
      with_commands
          (map (set_payload c.id (merge_payload c.payload payload)) db.pending_commands)
          db,
    )
unfolding coalesce get_command
coalesce_ok c payload db e = rw (
  find_first-map-set_payload c.id (merge_payload c.payload payload) db.pending_commands c e,
  get_command,
)

enqueue_body_merges :
    (id now : String) (kind : CommandKind) (payload : CommandPayload) (db : Db) (c : PendingCommand)
    → waiting kind payload db ≡ some c
    → enqueue_body id now kind payload db ≡ coalesce c payload db
unfolding enqueue_body
enqueue_body_merges id now kind payload db c e = rw (e, enqueue_body)

enqueue_body_appends :
    (id now : String) (kind : CommandKind) (payload : CommandPayload) (db : Db)
    → waiting kind payload db ≡ none
    → enqueue_body id now kind payload db
      ≡ append_command (new_command id now kind payload db.pending_commands) db
unfolding enqueue_body
enqueue_body_appends id now kind payload db e = rw (e, enqueue_body)

-- In a well-formed queue, a pending command for the kind and target takes a new payload in, in its
-- place: no other command changes, and its position, attempts and time stay.
pub enqueue_command_merges :
    (id now : String) (kind : CommandKind) (payload : CommandPayload) (db : Db) (c : PendingCommand)
    → IsQueue db.pending_commands
    → waiting kind payload db ≡ some c
    → enqueue_command id now kind payload db ≡ (
      ok (record c { payload = merge_payload c.payload payload }),
      with_commands
          (map (set_payload c.id (merge_payload c.payload payload)) db.pending_commands)
          db,
    )
unfolding enqueue_command
enqueue_command_merges id now kind payload db c h e =
    transaction_lem (enqueue_body id now kind payload) db
    ∙ ap (keep_or_revert db) (
        enqueue_body_merges id now kind payload db c e
        ∙ coalesce_ok c payload db
            (find_first_own kind (target_key kind payload) db.pending_commands c h e))

-- An id that no queued command has.
abbrev pub IsFreshId : String → List PendingCommand → Type 0
IsFreshId id q = any (λ d. str_eq d.id id) q ≡ false

appended :
    (c : PendingCommand) (db : Db)
    → IsFreshId c.id db.pending_commands
    → keep_or_revert db (append_command c db)
      ≡ (ok c, with_commands (db.pending_commands ++ c ∷ []) db)
unfolding append_command
appended c db fresh = rw fresh

-- If no pending command has the kind and target, and the id is fresh, the new command is appended,
-- pending, behind every position in use.
pub enqueue_command_appends :
    (id now : String) (kind : CommandKind) (payload : CommandPayload) (db : Db)
    → waiting kind payload db ≡ none
    → IsFreshId id db.pending_commands
    → enqueue_command id now kind payload db ≡ (
      ok (new_command id now kind payload db.pending_commands),
      with_commands
          (db.pending_commands ++ new_command id now kind payload db.pending_commands ∷ [])
          db,
    )
unfolding enqueue_command
enqueue_command_appends id now kind payload db e fresh =
    transaction_lem (enqueue_body id now kind payload) db
    ∙ ap (keep_or_revert db) (enqueue_body_appends id now kind payload db e)
    ∙ appended (new_command id now kind payload db.pending_commands) db fresh

reverted :
    (c : PendingCommand) (db : Db)
    → any (λ d. str_eq d.id c.id) db.pending_commands ≡ true
    → keep_or_revert db (append_command c db) ≡ (err unique_constraint, db)
unfolding append_command
reverted c db taken = rw taken

-- An id that is taken violates the primary key, and nothing changes.
pub enqueue_command_taken :
    (id now : String) (kind : CommandKind) (payload : CommandPayload) (db : Db)
    → waiting kind payload db ≡ none
    → any (λ d. str_eq d.id id) db.pending_commands ≡ true
    → enqueue_command id now kind payload db ≡ (err unique_constraint, db)
unfolding enqueue_command
enqueue_command_taken id now kind payload db e taken =
    transaction_lem (enqueue_body id now kind payload) db
    ∙ ap (keep_or_revert db) (enqueue_body_appends id now kind payload db e)
    ∙ reverted (new_command id now kind payload db.pending_commands) db taken

-- Positions in use are below the next one.
positions_below : (q : List PendingCommand) → All (λ c. c.position ≤ max_position q) q
unfolding max_position
positions_below [] = tt
positions_below (c ∷ q) = (
  omega arith,
  All-mono (λ d. d.position ≤ max_position q) (λ d. d.position ≤ max c.position (max_position q))
      (λ d h. omega arith) q (positions_below q),
)

set_payload-Apart :
    (id : String) (p : CommandPayload) (a b : PendingCommand)
    → Apart a b
    → Apart (set_payload id p a) (set_payload id p b)
set_payload-Apart id p a b h = elim (Bool-cases (str_eq a.id id)) [
  | inl ta ↦ elim (Bool-cases (str_eq b.id id)) [
    | inl tb ↦
        rw (ta, tb, set_payload) (record { ids = h.ids; ordered = h.ordered; targets = h.targets })
    | inr fb ↦
        rw (ta, fb, set_payload) (record { ids = h.ids; ordered = h.ordered; targets = h.targets })
  ]
  | inr fa ↦ elim (Bool-cases (str_eq b.id id)) [
    | inl tb ↦
        rw (fa, tb, set_payload) (record { ids = h.ids; ordered = h.ordered; targets = h.targets })
    | inr fb ↦ rw (fa, fb, set_payload) h
  ]
]

new_command-Apart :
    (id now : String) (kind : CommandKind) (payload : CommandPayload) (q r : List PendingCommand)
    → All (λ c. str_eq c.id id ≡ false) r
    → All (λ c. c.position ≤ max_position q) r
    → All (λ c. is_for kind (target_key kind payload) c ≡ false) r
    → All (λ c. Apart c (new_command id now kind payload q)) r
new_command-Apart id now kind payload q [] i p t = tt
new_command-Apart id now kind payload q (c ∷ r) (i, is) (p, ps) (t, ts) = (
  record { ids = i; ordered = omega arith; targets = rw t },
  new_command-Apart id now kind payload q r is ps ts,
)

-- Queueing keeps a well-formed queue so: ids and positions stay apart and in order, and no two
-- pending commands have one kind and target. This holds whichever branch it takes.
pub enqueue_command-IsQueue :
    (id now : String) (kind : CommandKind) (payload : CommandPayload) (db : Db)
    → IsQueue db.pending_commands
    → IsQueue (enqueue_command id now kind payload db).1.pending_commands
enqueue_command-IsQueue id now kind payload db h = elim (Option-cases (waiting kind payload db)) [
  | inl absent ↦ elim (Bool-cases (any (λ d. str_eq d.id id) db.pending_commands)) [
    | inl taken ↦ rw (enqueue_command_taken id now kind payload db absent taken) h
    | inr fresh ↦ rw (enqueue_command_appends id now kind payload db absent fresh) (
        AllPairs-snoc Apart db.pending_commands _ h (
          new_command-Apart id now kind payload db.pending_commands db.pending_commands
            (any-false (λ d. str_eq d.id id) db.pending_commands fresh)
            (positions_below db.pending_commands)
            (All-of_find_first-none _ db.pending_commands absent)))
  ]
  | inr (c, e) ↦ rw (enqueue_command_merges id now kind payload db c h e) (
      AllPairs-map Apart _ (set_payload-Apart c.id (merge_payload c.payload payload))
        db.pending_commands h)
]
