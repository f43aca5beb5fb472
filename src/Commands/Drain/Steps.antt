-- ===== src/Commands/Drain/Steps.antt =====
-- One round of the drain: what each answer of the server does to the queue and to the mirror.
use open_troop.Prelude.{
  ◌+◌, String, ◌≡◌, refl, ◌⊎◌, inl, inr, true, ◌&&◌, Option, none, some, arith, ltb, leb, ◌==◌,
  if◌then◌else◌,
}
use open_troop.Doc.{Json}
use open_troop.Db.{CommandKind, participant_create, PendingCommand, Db}
use open_troop.Commands.{kind_eq}
use open_troop.Commands.Drain.{
  accept, refuse, halt, proceed, settle_response, settle, HttpResponse, DrainResult, Next,
}

-- The five kinds of answer.
pub data Verdict : Type 0 where
  offline unauthorized server_error accepted refused : Verdict

unfoldable pub verdict : CommandKind → Option (HttpResponse Json) → Verdict
verdict kind none = offline
verdict kind (some r) =
    if r.status == 401
    then unauthorized
    else if leb 500 r.status
    then server_error
    else if ltb r.status 400
    then accepted
    else if kind_eq kind participant_create && r.status == 409
    then accepted
    else refused

-- What a round does for each: three end the drain and touch nothing, one takes the command out, one
-- marks it, and the drain goes on.
abbrev pub round :
    PendingCommand → DrainResult → Option (HttpResponse Json) → String → Db → Verdict → Next
round cmd result o now db offline = halt (record result { halted = true })
round cmd result o now db unauthorized = halt (record result { halted = true; needs_auth = true })
round cmd result o now db server_error = halt (record result { halted = true })
round cmd result none now db _ = halt (record result { halted = true })
round cmd result (some r) now db accepted =
    proceed (record result { sent = result.sent + 1 }) (accept cmd r now db)
round cmd result (some r) now db refused =
    proceed (record result { failed = result.failed + 1 }) (refuse cmd r db)

pub settle_lem :
    (cmd : PendingCommand) (result : DrainResult) (o : Option (HttpResponse Json)) (now : String)
    (db : Db)
    → settle cmd result o now db ≡ round cmd result o now db (verdict cmd.kind o)
unfolding settle settle_response verdict
settle_lem cmd result none now db = refl
settle_lem cmd result (some r) now db = ground arith

pub Next-cases :
    (x : Next)
    → ((r : DrainResult) × (x ≡ halt r)) ⊎ ((r : DrainResult) × (db : Db) × (x ≡ proceed r db))
Next-cases (halt r) = inl (r, refl)
Next-cases (proceed r db) = inr (r, db, refl)

-- The counters of a round: one that ends the drain leaves them, one that goes on adds one.
pub settle-halt :
    (cmd : PendingCommand) (result r : DrainResult) (o : Option (HttpResponse Json)) (now : String)
    (db : Db)
    → settle cmd result o now db ≡ halt r
    → (r.sent ≡ result.sent) × (r.failed ≡ result.failed) × (r.halted ≡ true)
unfolding settle settle_response
settle-halt cmd result r none now db e = ground arith
settle-halt cmd result r (some h) now db e = ground arith

pub settle-proceed :
    (cmd : PendingCommand) (result r : DrainResult) (o : Option (HttpResponse Json)) (now : String)
    (db db' : Db)
    → settle cmd result o now db ≡ proceed r db'
    → (r.sent + r.failed ≡ result.sent + result.failed + 1)
      × (r.halted ≡ result.halted)
      × (r.needs_auth ≡ result.needs_auth)
unfolding settle settle_response
settle-proceed cmd result r none now db db' e = cc
settle-proceed cmd result r (some h) now db db' e = ground arith
