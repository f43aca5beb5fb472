-- ===== src/Commands/Drain/Removal.antt =====
-- Taking a command out of the queue, or marking it failed: what becomes of the others.
use open_troop.Prelude.{
  ℕ, suc, ◌+◌, String, ◌≡◌, refl, sym, ap, ◌∙◌, subst, inl, inr, Bool, true, false, not, some, List,
  [], ◌∷◌, map, arith, str_eq, eq_iff, eq_refl, Bool-cases, Option-cases, length, keep, All,
  All-keep, All-mono,
}
use open_troop.Doc.{Json}
use open_troop.Db.{CommandKind, pending, failed, PendingCommand, Db, Result}
use open_troop.Db.Transaction.{transaction_lem}
use open_troop.Mirror.{upsert_response_row}
use open_troop.Commands.{is_pending, in_state, discard_command}
use open_troop.Commands.Queue.{AllPairs-keep, AllPairs-map, IsQueue, Apart}
use open_troop.Commands.Drain.{
  error_detail, response_id, is_created409, write_response, accept_body, accept, fail_command,
  refuse, HttpResponse,
}

abbrev pub pending_of : List PendingCommand → List PendingCommand
pending_of = keep (in_state (some pending))

-- A filter that everything passes.
keep-All : {A : Type 0} (t : A → Bool) (xs : List A) → All (λ x. t x ≡ true) xs → keep t xs ≡ xs
keep-All t [] h = refl
keep-All t (x ∷ xs) (p, h) = rw p (ap (λ ys. x ∷ ys) (keep-All t xs h))

pub list_injective :
    {A : Type 0} (x y : A) (xs ys : List A)
    → ◌≡◌ {A = List A} (x ∷ xs) (y ∷ ys)
    → (x ≡ y) × (xs ≡ ys)
list_injective x y xs ys e = (cc, cc)

others :
    (c : PendingCommand) (q : List PendingCommand)
    → All (Apart c) q
    → All (λ d. not (str_eq d.id c.id) ≡ true) q
others c q =
    All-mono (Apart c) (λ d. not (str_eq d.id c.id) ≡ true)
      (λ d h. ground (arith, h.ids, eq_iff c.id d.id, eq_iff d.id c.id)) q

untouched :
    (c : PendingCommand) (reason : String) (q : List PendingCommand)
    → All (Apart c) q
    → map (fail_command c.id reason) q ≡ q
untouched c reason [] h = refl
untouched c reason (d ∷ q) (p, h) =
    ground (arith, p.ids, eq_iff c.id d.id, eq_iff d.id c.id, untouched c reason q h)

-- Taking the oldest pending command out, or marking it failed, leaves the other pending ones.
pub pending_of-discard :
    (cmd : PendingCommand) (cmds q : List PendingCommand)
    → IsQueue q
    → pending_of q ≡ cmd ∷ cmds
    → pending_of (keep (λ c. not (str_eq c.id cmd.id)) q) ≡ cmds
pending_of-discard cmd cmds [] h e = cc
pending_of-discard cmd cmds (c ∷ q) (p, h) e = elim (Bool-cases (is_pending c.state)) [
  | inl here ↦
      let same = list_injective c cmd (pending_of q) cmds (sym (rw here) ∙ e) in
      subst (λ x. pending_of (keep (λ d. not (str_eq d.id x.id)) (c ∷ q)) ≡ cmds) same.0
        (rw (eq_refl c.id) (ap pending_of (keep-All _ q (others c q p)) ∙ same.1))
  | inr gone ↦
      let ih = pending_of-discard cmd cmds q h (sym (rw gone) ∙ e) in
      elim (Bool-cases (str_eq c.id cmd.id)) [
        | inl same ↦ rw same ih
        | inr other ↦ rw (other, gone) ih
      ]
]

pub pending_of-fail :
    (cmd : PendingCommand) (reason : String) (cmds q : List PendingCommand)
    → IsQueue q
    → pending_of q ≡ cmd ∷ cmds
    → pending_of (map (fail_command cmd.id reason) q) ≡ cmds
pending_of-fail cmd reason cmds [] h e = cc
pending_of-fail cmd reason cmds (c ∷ q) (p, h) e = elim (Bool-cases (is_pending c.state)) [
  | inl here ↦
      let same = list_injective c cmd (pending_of q) cmds (sym (rw here) ∙ e) in
      subst (λ x. pending_of (map (fail_command x.id reason) (c ∷ q)) ≡ cmds) same.0
        (rw (eq_refl c.id, fail_command) (ap pending_of (untouched c reason q p) ∙ same.1))
  | inr gone ↦
      let ih = pending_of-fail cmd reason cmds q h (sym (rw gone) ∙ e) in
      elim (Bool-cases (str_eq c.id cmd.id)) [
        | inl same ↦ rw (same, fail_command) ih
        | inr other ↦ rw (other, fail_command) (rw gone ih)
      ]
]

-- The number of failed commands.
abbrev pub failed_count : List PendingCommand → ℕ
failed_count q = length (keep (in_state (some failed)) q)

pub failed_count-fail :
    (cmd : PendingCommand) (reason : String) (cmds q : List PendingCommand)
    → IsQueue q
    → pending_of q ≡ cmd ∷ cmds
    → failed_count (map (fail_command cmd.id reason) q) ≡ failed_count q + 1
failed_count-fail cmd reason cmds [] h e = cc
failed_count-fail cmd reason cmds (c ∷ q) (p, h) e = elim (Bool-cases (is_pending c.state)) [
  | inl here ↦
      let same = list_injective c cmd (pending_of q) cmds (sym (rw here) ∙ e) in
      subst (λ x. failed_count (map (fail_command x.id reason) (c ∷ q)) ≡ failed_count (c ∷ q) + 1)
        same.0
        (rw (eq_refl c.id, fail_command, here)
          (ap (λ xs. suc (failed_count xs)) (untouched c reason q p) ∙ omega arith))
  | inr gone ↦
      let ih = failed_count-fail cmd reason cmds q h (sym (rw gone) ∙ e) in
      elim (Bool-cases (str_eq c.id cmd.id)) [
        | inl same ↦ rw (same, fail_command, gone) (omega (arith, ih))
        | inr other ↦ rw (other, fail_command) (rw gone (omega (arith, ih)))
      ]
]

pub failed_count-discard :
    (cmd : PendingCommand) (cmds q : List PendingCommand)
    → IsQueue q
    → pending_of q ≡ cmd ∷ cmds
    → failed_count (keep (λ c. not (str_eq c.id cmd.id)) q) ≡ failed_count q
failed_count-discard cmd cmds [] h e = cc
failed_count-discard cmd cmds (c ∷ q) (p, h) e = elim (Bool-cases (is_pending c.state)) [
  | inl here ↦
      let same = list_injective c cmd (pending_of q) cmds (sym (rw here) ∙ e) in
      subst (λ x. failed_count (keep (λ d. not (str_eq d.id x.id)) (c ∷ q)) ≡ failed_count (c ∷ q))
        same.0 (rw (eq_refl c.id, here) (ap failed_count (keep-All _ q (others c q p))))
  | inr gone ↦
      let later = sym (rw gone) ∙ e in
      let apart = (subst (All (Apart c)) later (All-keep (Apart c) _ q p)).0.ids in
      rw (apart, gone) (ap suc (failed_count-discard cmd cmds q h later))
]

pub queue-write_response :
    (kind : CommandKind) (done : Bool) (body : Json) (now : String) (db : Db)
    → (write_response kind done body now db).pending_commands ≡ db.pending_commands
unfolding write_response upsert_response_row
queue-write_response kind true body now db = refl
queue-write_response kind false body now db = elim (Option-cases (response_id body)) [
  | inl absent ↦ rw (absent, write_response)
  | inr (id, there) ↦ rw (there, write_response)
]

-- The queue after an accepted and after a refused command.
pub queue-accept :
    (cmd : PendingCommand) (r : HttpResponse Json) (now : String) (db : Db)
    → (accept cmd r now db).pending_commands
      ≡ keep (λ c. not (str_eq c.id cmd.id)) db.pending_commands
unfolding accept accept_body discard_command
queue-accept cmd r now db =
    ap (λ (rs : Result (Unit {0}) × Db). rs.1.pending_commands)
      (transaction_lem (accept_body cmd r now) db)
    ∙ ap (keep (λ c. not (str_eq c.id cmd.id)))
        (queue-write_response cmd.kind (is_created409 cmd.kind r.status) r.body now db)

fail_command-Apart :
    (id reason : String) (a b : PendingCommand)
    → Apart a b
    → Apart (fail_command id reason a) (fail_command id reason b)
fail_command-Apart id reason a b h = elim (Bool-cases (str_eq a.id id)) [
  | inl ta ↦ elim (Bool-cases (str_eq b.id id)) [
    | inl tb ↦
        rw (ta, tb, fail_command)
          (record { ids = h.ids; ordered = h.ordered; targets = ground arith })
    | inr fb ↦
        rw (ta, fb, fail_command)
          (record { ids = h.ids; ordered = h.ordered; targets = ground arith })
  ]
  | inr fa ↦ elim (Bool-cases (str_eq b.id id)) [
    | inl tb ↦
        rw (fa, tb, fail_command)
          (record { ids = h.ids; ordered = h.ordered; targets = ground arith })
    | inr fb ↦ rw (fa, fb, fail_command) h
  ]
]

pub refuse-IsQueue :
    (cmd : PendingCommand) (r : HttpResponse Json) (db : Db)
    → IsQueue db.pending_commands
    → IsQueue (refuse cmd r db).pending_commands
unfolding refuse
refuse-IsQueue cmd r db h =
    AllPairs-map Apart (fail_command cmd.id (error_detail r.body r.status))
      (fail_command-Apart cmd.id _) db.pending_commands h

pub accept-IsQueue :
    (cmd : PendingCommand) (r : HttpResponse Json) (now : String) (db : Db)
    → IsQueue db.pending_commands
    → IsQueue (accept cmd r now db).pending_commands
accept-IsQueue cmd r now db h =
    rw (queue-accept cmd r now db) (AllPairs-keep Apart _ db.pending_commands h)
