-- ===== src/Pull/Boundary.antt =====
-- What a pull does, request by request, and that it ends at the boundary of a page.
use open_troop.Prelude.{
  ℕ, zero, suc, String, ◌≡◌, refl, sym, ap, ◌∙◌, subst, inl, inr, true, false, Option, none, some,
  List, leb, if◌then◌else◌, Bool-cases,
}
use open_troop.Db.{
  SyncEntity, SyncCursor, SyncState, Db, Failure, transport, pull_error, malformed_page,
  not_advancing, out_of_fuel, Result, ok, err,
}
use open_troop.Mirror.{zero_cursor, get_cursor, Epoch, apply_pull_page}
use open_troop.Mirror.Pages.{apply_pull_page_err}
use open_troop.Commands.Drain.{Client, run_ops, HttpResponse, LocalOp}
use open_troop.Pull.{
  page_of, pull_request, cursor_eq, stop, again, after_page, take_page, pull_step, resume,
  pull_loop, pull_entity, SyncPage, Step,
}
use open_troop.Doc.{Json}
use open_troop.Commands.Local.{run_ops-SameTables}
use open_troop.Mirror.Elsewhere.{get_cursor-apply_pull_page}

-- The page that an answer hands out; `none` is a request that fails, an error status or a body that is
-- no page.
abbrev pub handed : Option (HttpResponse Json) → Option SyncPage
handed none = none
handed (some r) = if leb 400 r.status then none else page_of r.body

module _ {W : Type 0} (http : Client W Json) (e : SyncEntity) (epoch : Epoch) where
  -- The answer to a request, the world after it, and the database when it is there: with what other
  -- tasks did meanwhile.
  abbrev pub answered : SyncCursor → W → Option SyncPage
  answered c w = handed (http (pull_request e c) w).0.outcome

  abbrev pub world : SyncCursor → W → W
  world c w = (http (pull_request e c) w).1

  abbrev pub arrived : SyncCursor → W → Db → Db
  arrived c w db = run_ops (http (pull_request e c) w).0.meanwhile db

  -- What `applyPullPage` makes of a page that is handed out at the cursor.
  abbrev pub applied : SyncCursor → W → Db → SyncPage → Result (Unit {0}) × Db
  applied c w db p =
      apply_pull_page e p.items p.next epoch (http (pull_request e c) w).0.now (arrived c w db)

  -- A pull of at most so many requests from a cursor, a world and a database: its result, the cursor,
  -- the world and the database at its end.
  pub data Pulled : ℕ → SyncCursor → W → Db → Result (Unit {0}) → SyncCursor → W → Db → Type 0 where
    cut_off : (c : SyncCursor) (w : W) (db : Db) → Pulled 0 c w db (err out_of_fuel) c w db
    refused :
        (n : ℕ) (c : SyncCursor) (w : W) (db : Db) (failure : Failure)
        → answered c w ≡ none
        → Pulled (suc n) c w db (err failure) c (world c w) (arrived c w db)
    reverted :
        (n : ℕ) (c : SyncCursor) (w : W) (db : Db) (p : SyncPage) (failure : Failure)
        → answered c w ≡ some p
        → (applied c w db p).0 ≡ err failure
        → Pulled (suc n) c w db (err failure) c (world c w) (arrived c w db)
    last_page :
        (n : ℕ) (c : SyncCursor) (w : W) (db : Db) (p : SyncPage)
        → answered c w ≡ some p
        → (applied c w db p).0 ≡ ok tt
        → p.has_more ≡ false
        → Pulled (suc n) c w db (ok tt) p.next (world c w) (applied c w db p).1
    stalled :
        (n : ℕ) (c : SyncCursor) (w : W) (db : Db) (p : SyncPage)
        → answered c w ≡ some p
        → (applied c w db p).0 ≡ ok tt
        → p.has_more ≡ true
        → cursor_eq p.next c ≡ true
        → Pulled (suc n) c w db (err (not_advancing e)) p.next (world c w) (applied c w db p).1
    page :
        (n : ℕ) (c c' : SyncCursor) (w w' : W) (db db' : Db) (p : SyncPage)
        (result : Result (Unit {0}))
        → answered c w ≡ some p
        → (applied c w db p).0 ≡ ok tt
        → p.has_more ≡ true
        → cursor_eq p.next c ≡ false
        → Pulled n p.next (world c w) (applied c w db p).1 result c' w' db'
        → Pulled (suc n) c w db result c' w' db'

-- What one round may do.
data IsStep (e : SyncEntity) (epoch : Epoch) (prev : SyncCursor) (now : String) (db : Db)
    (o : Option (HttpResponse Json)) : Step → Type 0 where
  unmoved :
      (failure : Failure) → handed o ≡ none → IsStep e epoch prev now db o (stop (err failure) db)
  undone :
      (p : SyncPage) (failure : Failure)
      → handed o ≡ some p
      → (apply_pull_page e p.items p.next epoch now db).0 ≡ err failure
      → IsStep e epoch prev now db o (stop (err failure) db)
  last :
      (p : SyncPage)
      → handed o ≡ some p
      → (apply_pull_page e p.items p.next epoch now db).0 ≡ ok tt
      → p.has_more ≡ false
      → IsStep e epoch prev now db o
          (stop (ok tt) (apply_pull_page e p.items p.next epoch now db).1)
  circling :
      (p : SyncPage)
      → handed o ≡ some p
      → (apply_pull_page e p.items p.next epoch now db).0 ≡ ok tt
      → p.has_more ≡ true
      → cursor_eq p.next prev ≡ true
      → IsStep e epoch prev now db o
          (stop (err (not_advancing e)) (apply_pull_page e p.items p.next epoch now db).1)
  onward :
      (p : SyncPage)
      → handed o ≡ some p
      → (apply_pull_page e p.items p.next epoch now db).0 ≡ ok tt
      → p.has_more ≡ true
      → cursor_eq p.next prev ≡ false
      → IsStep e epoch prev now db o
          (again p.next (apply_pull_page e p.items p.next epoch now db).1)

after_page-IsStep :
    (e : SyncEntity) (epoch : Epoch) (now : String) (db : Db) (prev : SyncCursor)
    (o : Option (HttpResponse Json)) (p : SyncPage) (rs : Result (Unit {0}) × Db)
    → handed o ≡ some p
    → apply_pull_page e p.items p.next epoch now db ≡ rs
    → IsStep e epoch prev now db o (after_page e prev p rs)
unfolding after_page
after_page-IsStep e epoch now db prev o p (err failure, db') given h =
    let h0 = ap (λ x. x.0) h in
    subst (λ d. IsStep e epoch prev now db o (stop (err failure) d))
      (sym (apply_pull_page_err e p.items p.next epoch now db failure h0) ∙ ap (λ x. x.1) h)
      (undone p failure given h0)
after_page-IsStep e epoch now db prev o p (ok tt, db') given h =
    let h0 = ap (λ x. x.0) h in
    let h1 = ap (λ x. x.1) h in
    elim (Bool-cases p.has_more) [
      | inl more ↦ elim (Bool-cases (cursor_eq p.next prev)) [
        | inl same ↦
            rw (more, same)
              (subst (λ d. IsStep e epoch prev now db o (stop (err (not_advancing e)) d)) h1
                (circling p given h0 more same))
        | inr moved ↦
            rw (more, moved)
              (subst (λ d. IsStep e epoch prev now db o (again p.next d)) h1
                (onward p given h0 more moved))
      ]
      | inr done ↦
          rw done
            (subst (λ d. IsStep e epoch prev now db o (stop (ok tt) d)) h1 (last p given h0 done))
    ]

take_page-IsStep :
    (e : SyncEntity) (epoch : Epoch) (now : String) (db : Db) (prev : SyncCursor)
    (o : Option (HttpResponse Json)) (p : Option SyncPage)
    → handed o ≡ p
    → IsStep e epoch prev now db o (take_page e prev epoch now db p)
unfolding take_page
take_page-IsStep e epoch now db prev o none given = unmoved (malformed_page e) given
take_page-IsStep e epoch now db prev o (some p) given =
    after_page-IsStep e epoch now db prev o p (apply_pull_page e p.items p.next epoch now db) given
      refl

pull_step-IsStep :
    (e : SyncEntity) (epoch : Epoch) (now : String) (db : Db) (prev : SyncCursor)
    (o : Option (HttpResponse Json))
    → IsStep e epoch prev now db o (pull_step e prev epoch o now db)
unfolding pull_step
pull_step-IsStep e epoch now db prev none = unmoved transport refl
pull_step-IsStep e epoch now db prev (some r) = elim (Bool-cases (leb 400 r.status)) [
  | inl bad ↦
      subst
        (λ b. IsStep e epoch prev now db (some r) (
          if b
          then stop (err (pull_error e r.status)) db
          else take_page e prev epoch now db (page_of r.body)))
        (sym bad) (unmoved (pull_error e r.status) (rw bad refl))
  | inr fine ↦
      subst
        (λ b. IsStep e epoch prev now db (some r) (
          if b
          then stop (err (pull_error e r.status)) db
          else take_page e prev epoch now db (page_of r.body)))
        (sym fine) (take_page-IsStep e epoch now db prev (some r) (page_of r.body) (rw fine refl))
]

module _ {W : Type 0} (http : Client W Json) (e : SyncEntity) (epoch : Epoch) where
  -- The cursor behind the last page that was taken, with the pull that leads to it.
  unfoldable pub Ends : ℕ → SyncCursor → W → Db → Result (Unit {0}) × W × Db → Type 0
  Ends n c w db x = (c' : SyncCursor) × Pulled http e epoch n c w db x.0 c' x.1 x.2

  step-Ends :
      (n : ℕ) (c : SyncCursor) (w : W) (db : Db) (x : Step)
      → ((c : SyncCursor) (w : W) (db : Db) → Ends n c w db (pull_loop http n e epoch c w db))
      → IsStep e epoch c
          (http (pull_request e c) w).0.now
          (arrived http e epoch c w db)
          (http (pull_request e c) w).0.outcome
          x
      → Ends (suc n) c w db (resume (pull_loop http n e epoch) (world http e epoch c w) x)
  unfolding Ends resume
  step-Ends n c w db _ ih (unmoved failure given) = (c, refused n c w db failure given)
  step-Ends n c w db _ ih (undone p failure given thrown) =
      (c, reverted n c w db p failure given thrown)
  step-Ends n c w db _ ih (last p given taken done) =
      (p.next, last_page n c w db p given taken done)
  step-Ends n c w db _ ih (circling p given taken more same) =
      (p.next, stalled n c w db p given taken more same)
  step-Ends n c w db _ ih (onward p given taken more moved) =
      let (c', later) = ih p.next (world http e epoch c w) (applied http e epoch c w db p).1 in
      (c', page n c c' w _ db _ p _ given taken more moved later)

  pub pull_loop-Pulled :
      (n : ℕ) (c : SyncCursor) (w : W) (db : Db) → Ends n c w db (pull_loop http n e epoch c w db)
  unfolding pull_loop Ends
  pull_loop-Pulled zero c w db = (c, cut_off c w db)
  pull_loop-Pulled (suc n) c w db =
      let reply = (http (pull_request e c) w).0 in
      unfold Ends in
      step-Ends n c w db _ (pull_loop-Pulled n)
        (pull_step-IsStep e epoch reply.now (arrived http e epoch c w db) c reply.outcome)

get_cursor-run_ops :
    (e : SyncEntity) (ops : List LocalOp) (db : Db)
    → get_cursor e (run_ops ops db) ≡ get_cursor e db
unfolding get_cursor
get_cursor-run_ops e ops db =
    ap
      (λ (s : SyncEntity → Option SyncState). elim (s e) [ none ↦ zero_cursor | some x ↦ x.cursor ])
      (run_ops-SameTables ops db).sync_state

module _ {W : Type 0} (http : Client W Json) (e : SyncEntity) (epoch : Epoch) where
  arrived-get_cursor :
      (c : SyncCursor) (w : W) (db : Db)
      → get_cursor e (arrived http e epoch c w db) ≡ get_cursor e db
  arrived-get_cursor c w db = get_cursor-run_ops e (http (pull_request e c) w).0.meanwhile db

  applied-get_cursor :
      (c : SyncCursor) (w : W) (db : Db) (p : SyncPage)
      → (applied http e epoch c w db p).0 ≡ ok tt
      → get_cursor e (applied http e epoch c w db p).1 ≡ p.next
  applied-get_cursor c w db p taken =
      get_cursor-apply_pull_page e p.items p.next epoch (http (pull_request e c) w).0.now
        (arrived http e epoch c w db) taken

  Pulled-get_cursor :
      (n : ℕ) (c c' : SyncCursor) (w w' : W) (db db' : Db) (result : Result (Unit {0}))
      → Pulled http e epoch n c w db result c' w' db'
      → get_cursor e db ≡ c
      → get_cursor e db' ≡ c'
  Pulled-get_cursor _ _ _ _ _ _ _ _ (cut_off c w db) h = h
  Pulled-get_cursor _ _ _ _ _ _ _ _ (refused n c w db failure given) h =
      arrived-get_cursor c w db ∙ h
  Pulled-get_cursor _ _ _ _ _ _ _ _ (reverted n c w db p failure given thrown) h =
      arrived-get_cursor c w db ∙ h
  Pulled-get_cursor _ _ _ _ _ _ _ _ (last_page n c w db p given taken done) h =
      applied-get_cursor c w db p taken
  Pulled-get_cursor _ _ _ _ _ _ _ _ (stalled n c w db p given taken more same) h =
      applied-get_cursor c w db p taken
  Pulled-get_cursor _ _ _ _ _ _ _ _ (page n c c' w w' db db' p result given taken more moved later)
        h =
      Pulled-get_cursor n p.next c' _ w' _ db' result later (applied-get_cursor c w db p taken)

-- What the incremental pull of a stream does, whatever the server answers and other tasks do: request
-- by request, the page that the answer hands out is applied, all its rows with its cursor and nothing
-- else, or, where there is none or it throws, nothing of it; the pull ends well exactly with a page
-- that says there is no more, and with an error where an answer hands out no page, a page throws or
-- does not advance, or the fuel is spent; and the cursor that is stored is that of the last page that
-- was applied, from which the next pull goes on.
pub pull_entity_resumes :
    {W : Type 0} (http : Client W Json) (fuel : ℕ) (e : SyncEntity) (epoch : Epoch) (w : W)
    (db : Db)
    → Pulled http e epoch fuel
        (get_cursor e db)
        w
        db
        (pull_entity http fuel e epoch false w db).0
        (get_cursor e (pull_entity http fuel e epoch false w db).2)
        (pull_entity http fuel e epoch false w db).1
        (pull_entity http fuel e epoch false w db).2
unfolding pull_entity Ends
pull_entity_resumes http fuel e epoch w db =
    let x = pull_loop http fuel e epoch (get_cursor e db) w db in
    let (c', p) = pull_loop-Pulled http e epoch fuel (get_cursor e db) w db in
    subst (λ c. Pulled http e epoch fuel (get_cursor e db) w db x.0 c x.1 x.2)
      (sym (Pulled-get_cursor http e epoch fuel (get_cursor e db) c' w x.1 db x.2 x.0 p refl)) p
