-- ===== src/Pull/Streams.antt =====
-- The pull against a server that keeps its promise: it ends, and the mirror table is then the one
-- that the whole of the stream makes.
use open_troop.Prelude.{
  ℕ, zero, suc, ◌≤◌, ◌<◌, String, ◌≡◌, refl, sym, ap, ◌∙◌, ◌⊎◌, inl, inr, Bool, true, false, not,
  Option, none, some, List, [], ◌∷◌, ◌++◌, map, append-nil, arith, eq_iff, leb, if◌then◌else◌,
  Bool-cases, or_else, length, length-append,
}
use open_troop.Doc.{Json}
use open_troop.Db.{SyncEntity, MirrorRow, SyncCursor, Db, Result, ok, err}
use open_troop.Mirror.{get_cursor, apply_pull_page, SyncRow}
use open_troop.Mirror.Pages.{last_for, settled, apply_pull_page_lem}
use open_troop.Commands.Drain.{Client, run_ops, HttpResponse}
use open_troop.Pull.{
  page_of, pull_request, same_id, cursor_eq, stop, again, after_page, take_page, pull_step,
  start_cursor, resume, pull_loop, pull_entity, SyncPage,
}
use open_troop.Db.Rows.{find_row}
use open_troop.Mirror.Elsewhere.{apply_pull_page_keeps}

-- The promise of the server, for the streams `after` and while nothing changes them: behind each cursor
-- of a stream stands a list of rows. `Serves e c w` says that in the world `w` it answers a request for
-- the stream `e` from the cursor `c` with success, and not with 403 or, for a cursor below the
-- watermark, with 410. An answer hands out rows from the front of the list and the cursor behind them,
-- and says that there is more only with a row in hand, and that there is no more only where none is
-- left; it goes on to serve the cursor that it hands out where there is more, and every other cursor
-- that it served.
pub record IsStream {W : Type 0} (http : Client W Json)
    (after : SyncEntity → SyncCursor → List SyncRow) : Type 1 where
  pub Serves : SyncEntity → SyncCursor → W → Type 0
  pub answer : SyncEntity → SyncCursor → W → HttpResponse Json
  pub rows : SyncEntity → SyncCursor → W → List SyncRow
  pub next : SyncEntity → SyncCursor → W → SyncCursor
  pub more : SyncEntity → SyncCursor → W → Bool
  pub outcome :
      (e : SyncEntity) (c : SyncCursor) (w : W)
      → Serves e c w
      → (http (pull_request e c) w).0.outcome ≡ some (answer e c w)
  pub quiet :
      (e : SyncEntity) (c : SyncCursor) (w : W)
      → Serves e c w
      → (http (pull_request e c) w).0.meanwhile ≡ []
  pub succeeds :
      (e : SyncEntity) (c : SyncCursor) (w : W) → Serves e c w → (answer e c w).status < 400
  pub reads :
      (e : SyncEntity) (c : SyncCursor) (w : W)
      → Serves e c w
      → page_of (answer e c w).body
        ≡ some (record { items = map some (rows e c w); next = next e c w; has_more = more e c w })
  pub front :
      (e : SyncEntity) (c : SyncCursor) (w : W)
      → Serves e c w
      → after e c ≡ rows e c w ++ after e (next e c w)
  pub progress :
      (e : SyncEntity) (c : SyncCursor) (w : W)
      → Serves e c w
      → ((more e c w ≡ false) × (after e (next e c w) ≡ []))
        ⊎ ((more e c w ≡ true) × (1 ≤ length (rows e c w)))
  pub onward :
      (e : SyncEntity) (c : SyncCursor) (w : W)
      → Serves e c w
      → more e c w ≡ true
      → Serves e (next e c w) (http (pull_request e c) w).1
  pub stays :
      (e f : SyncEntity) (c d : SyncCursor) (w : W)
      → Serves e c w
      → Serves f d w
      → Serves f d (http (pull_request e c) w).1

-- The database after a pull that began at `db` with `rows` behind its cursor.
pub record IsCaughtUp {W : Type 0} (after : SyncEntity → SyncCursor → List SyncRow) (n : ℕ)
    (e : SyncEntity) (rows : List SyncRow) (db : Db) (end_state : Result (Unit {0}) × W × Db)
    : Type 0 where
  pub success : end_state.0 ≡ ok tt
  pub table :
      (id : String)
      → find_row id (end_state.2.mirror e)
        ≡ settled n (last_for id rows) (find_row id (db.mirror e))
  pub cursor : after e (get_cursor e end_state.2) ≡ []
  pub queue : end_state.2.pending_commands ≡ db.pending_commands

last_for-append :
    (id : String) (a b : List SyncRow)
    → last_for id (a ++ b) ≡ or_else (last_for id b) (last_for id a)
last_for-append id [] b = ground arith
last_for-append id (r ∷ a) b = ground (arith, last_for-append id a b)

settled-or_else :
    (n : ℕ) (a b : Option SyncRow) (old : Option MirrorRow)
    → settled n (or_else a b) old ≡ settled n a (settled n b old)
settled-or_else n none b old = refl
settled-or_else n (some r) b old = refl

-- Rows settle in two parts as in one.
settled-append :
    (n : ℕ) (id : String) (a b : List SyncRow) (old : Option MirrorRow)
    → settled n (last_for id (a ++ b)) old
      ≡ settled n (last_for id b) (settled n (last_for id a) old)
settled-append n id a b old =
    ap (λ o. settled n o old) (last_for-append id a b) ∙ settled-or_else n _ _ old

same_id-eq : (a b : Option String) → same_id a b ≡ true → a ≡ b
same_id-eq none none h = refl
same_id-eq none (some b) h = cc
same_id-eq (some a) none h = cc
same_id-eq (some a) (some b) h = ap (λ x. some x) (ground (arith, eq_iff a b))

cursor_eq-eq : (a b : SyncCursor) → cursor_eq a b ≡ true → a ≡ b
unfolding cursor_eq
cursor_eq-eq a b h =
    let seqs : a.last_seq ≡ b.last_seq = ground arith in
    let ids = same_id-eq a.last_id b.last_id (ground arith) in
    λ i. record { last_seq = seqs i; last_id = ids i }

after_page_taken :
    (e : SyncEntity) (prev : SyncCursor) (p : SyncPage) (rs : Result (Unit {0}) × Db)
    → rs.0 ≡ ok tt
    → (p.has_more ≡ false) ⊎ (cursor_eq p.next prev ≡ false)
    → after_page e prev p rs ≡ (if not p.has_more then stop (ok tt) rs.1 else again p.next rs.1)
unfolding after_page
after_page_taken e prev p (ok _, db) h k = elim k [
  | inl done ↦ rw done
  | inr moved ↦ rw moved (ground arith)
]
after_page_taken e prev p (err failure, db) h k = cc

module _ {W : Type 0} (http : Client W Json) (after : SyncEntity → SyncCursor → List SyncRow)
    (s : IsStream http after) where
  -- A server that says there is more has moved the cursor.
  moved :
      (e : SyncEntity) (c : SyncCursor) (w : W)
      → s.Serves e c w
      → 1 ≤ length (s.rows e c w)
      → cursor_eq (s.next e c w) c ≡ false
  moved e c w v h = elim (Bool-cases (cursor_eq (s.next e c w) c)) [
    | inl same ↦
        let front = ap length (s.front e c w v) in
        let same_rows = ap (λ d. length (after e d)) (cursor_eq-eq _ _ same) in
        absurd (
          omega (arith, front, same_rows, h, length-append (s.rows e c w) (after e (s.next e c w))))
    | inr other ↦ other
  ]

  stalls :
      (e : SyncEntity) (c : SyncCursor) (w : W)
      → s.Serves e c w
      → (s.more e c w ≡ false) ⊎ (cursor_eq (s.next e c w) c ≡ false)
  stalls e c w v = elim (s.progress e c w v) [
    | inl (done, _) ↦ inl done
    | inr (_, some_rows) ↦ inr (moved e c w v some_rows)
  ]

  -- The round that the promise allows.
  served :
      (n : ℕ) (e : SyncEntity) (c : SyncCursor) (w : W) (now : String) (db : Db)
      → s.Serves e c w
      → pull_step e c (some n) (some (s.answer e c w)) now db ≡ (
          if not (s.more e c w)
          then stop
              (ok tt)
              (apply_pull_page e (map some (s.rows e c w)) (s.next e c w) (some n) now db).1
          else again
              (s.next e c w)
              (apply_pull_page e (map some (s.rows e c w)) (s.next e c w) (some n) now db).1)
  unfolding pull_step take_page
  served n e c w now db v =
      let low : leb 400 (s.answer e c w).status ≡ false = ground (arith, s.succeeds e c w v) in
      let taken = (apply_pull_page_lem e (s.rows e c w) (s.next e c w) n now db).0 in
      rw (low, s.reads e c w v, take_page) (after_page_taken e c _ _ taken (stalls e c w v))

  -- A round and what follows it.
  pull_loop_round :
      (n fuel : ℕ) (e : SyncEntity) (c : SyncCursor) (w : W) (db : Db)
      → s.Serves e c w
      → let now = (http (pull_request e c) w).0.now in
        let db' = (apply_pull_page e (map some (s.rows e c w)) (s.next e c w) (some n) now db).1 in
        pull_loop http (suc fuel) e (some n) c w db
        ≡ resume
            (pull_loop http fuel e (some n))
            (http (pull_request e c) w).1
            (if not (s.more e c w) then stop (ok tt) db' else again (s.next e c w) db')
  unfolding pull_loop run_ops
  pull_loop_round n fuel e c w db v =
      let now = (http (pull_request e c) w).0.now in
      rw (s.quiet e c w v, s.outcome e c w v, run_ops, served n e c w now db v) refl

  -- What was served before a pull is served after it.
  pull_loop-Serves :
      (n fuel : ℕ) (e f : SyncEntity) (c d : SyncCursor) (w : W) (db : Db)
      → s.Serves e c w
      → s.Serves f d w
      → s.Serves f d (pull_loop http fuel e (some n) c w db).1
  unfolding pull_loop resume
  pull_loop-Serves n zero e f c d w db v u = u
  pull_loop-Serves n (suc fuel) e f c d w db v u =
      let u' = s.stays e f c d w v u in
      rw (pull_loop_round n fuel e c w db v) (elim (Bool-cases (s.more e c w)) [
        | inl more ↦
            rw (more, resume)
              (pull_loop-Serves n fuel e f (s.next e c w) d _ _ (s.onward e c w v more) u')
        | inr done ↦ rw (done, resume) u'
      ])

  pull_loop_streams :
      (n fuel : ℕ) (e : SyncEntity) (c : SyncCursor) (w : W) (db : Db)
      → s.Serves e c w
      → length (after e c) < fuel
      → IsCaughtUp after n e (after e c) db (pull_loop http fuel e (some n) c w db)
  unfolding resume
  pull_loop_streams n zero e c w db v h = absurd (omega (arith, h))
  pull_loop_streams n (suc fuel) e c w db v h =
      let now = (http (pull_request e c) w).0.now in
      let items = map some (s.rows e c w) in
      let db' = (apply_pull_page e items (s.next e c w) (some n) now db).1 in
      let page = apply_pull_page_lem e (s.rows e c w) (s.next e c w) n now db in
      let kept = (apply_pull_page_keeps e items (s.next e c w) (some n) now db).0 in
      let settles = λ (id : String) (rs : List SyncRow).
        settled n (last_for id rs) (find_row id (db.mirror e)) in
      rw (pull_loop_round n fuel e c w db v) (elim (s.progress e c w v) [
        | inl (done, none_left) ↦
            let whole =
              s.front e c w v
              ∙ ap (λ rest. s.rows e c w ++ rest) none_left
              ∙ append-nil (s.rows e c w) in
            rw (done, resume)
              (record {
                success = refl;
                table = λ id. page.1 id ∙ ap (settles id) (sym whole);
                cursor = ap (after e) page.2 ∙ none_left;
                queue = kept;
              })
        | inr (more, some_rows) ↦
            let rest = after e (s.next e c w) in
            let ih =
              pull_loop_streams n fuel e (s.next e c w) (http (pull_request e c) w).1 db'
                (s.onward e c w v more)
                (omega (
                  arith,
                  h,
                  some_rows,
                  ap length (s.front e c w v),
                  length-append (s.rows e c w) rest,
                )) in
            rw (more, resume)
              (record {
                success = ih.success;
                table = λ id.
                    ih.table id
                    ∙ ap (settled n (last_for id rest)) (page.1 id)
                    ∙ sym (settled-append n id (s.rows e c w) rest (find_row id (db.mirror e)))
                    ∙ ap (settles id) (sym (s.front e c w v));
                cursor = ih.cursor;
                queue = ih.queue ∙ kept;
              })
      ])

  pub pull_entity-Serves :
      (n fuel : ℕ) (e f : SyncEntity) (from_zero : Bool) (d : SyncCursor) (w : W) (db : Db)
      → s.Serves e (start_cursor from_zero e db) w
      → s.Serves f d w
      → s.Serves f d (pull_entity http fuel e (some n) from_zero w db).1
  unfolding pull_entity
  pull_entity-Serves n fuel e f from_zero d w db v u =
      pull_loop-Serves n fuel e f (start_cursor from_zero e db) d w db v u

  -- Against a server that serves the cursor from which the pull of a stream begins, and whose streams
  -- stay as they are meanwhile, with no other task on the outbox and more fuel than there are rows
  -- behind that cursor: the pull ends well; each id has what the last row behind that cursor says of
  -- it, or what it had; the stream has no row behind the cursor that is stored; the queue is as it was.
  pub pull_entity_streams :
      (n fuel : ℕ) (e : SyncEntity) (from_zero : Bool) (w : W) (db : Db)
      → s.Serves e (start_cursor from_zero e db) w
      → length (after e (start_cursor from_zero e db)) < fuel
      → IsCaughtUp after n e
          (after e (start_cursor from_zero e db))
          db
          (pull_entity http fuel e (some n) from_zero w db)
  unfolding pull_entity
  pull_entity_streams n fuel e from_zero w db v h =
      pull_loop_streams n fuel e (start_cursor from_zero e db) w db v h
