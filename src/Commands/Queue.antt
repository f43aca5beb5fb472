-- ===== src/Commands/Queue.antt =====
-- The well-formed queue: ids are distinct, positions rise, and no two pending commands have one kind
-- and target.
use open_troop.Prelude.{
  ◌<◌, String, ◌≡◌, ap, inl, inr, Bool, false, ◌&&◌, Option, List, [], ◌∷◌, ◌++◌, map, arith,
  str_eq, Bool-cases, keep, All, All-append, All-keep, sort_by, IsAscending, sort_by_of_IsAscending,
}
use open_troop.Db.{CommandState, PendingCommand, Db}
use open_troop.Commands.{is_pending, is_for, position_le, in_state, list_commands, discard_command}

abbrev pub same_target : PendingCommand → PendingCommand → Bool
same_target a b = is_for b.kind b.target_key a && is_pending b.state

-- `a` stands before `b` in the queue.
pub record Apart (a b : PendingCommand) : Type 0 where
  pub ids : str_eq a.id b.id ≡ false
  pub ordered : a.position < b.position
  pub targets : same_target a b ≡ false

module _ {ℓ κ} {A : Type ℓ} (R : A → A → Type κ) where
  abbrev pub AllPairs : List A → Type κ
  AllPairs [] = Unit
  AllPairs (x ∷ xs) = All (R x) xs × AllPairs xs

  pub AllPairs-snoc :
      (xs : List A) (y : A) → AllPairs xs → All (λ x. R x y) xs → AllPairs (xs ++ y ∷ [])
  AllPairs-snoc [] y h k = (tt, tt)
  AllPairs-snoc (x ∷ xs) y (p, h) (q, k) =
      (All-append (R x) xs (y ∷ []) p (q, tt), AllPairs-snoc xs y h k)

  pub AllPairs-keep : (t : A → Bool) (xs : List A) → AllPairs xs → AllPairs (keep t xs)
  AllPairs-keep t [] h = tt
  AllPairs-keep t (x ∷ xs) (p, h) = elim (Bool-cases (t x)) [
    | inl kept ↦ rw kept (All-keep (R x) t xs p, AllPairs-keep t xs h)
    | inr gone ↦ rw gone (AllPairs-keep t xs h)
  ]

  All-map :
      (f : A → A) (x : A)
      → ((y : A) → R x y → R (f x) (f y))
      → (ys : List A) → All (R x) ys
      → All (R (f x)) (map f ys)
  All-map f x k [] h = tt
  All-map f x k (y ∷ ys) (p, h) = (k y p, All-map f x k ys h)

  pub AllPairs-map :
      (f : A → A)
      → ((x y : A) → R x y → R (f x) (f y))
      → (xs : List A) → AllPairs xs
      → AllPairs (map f xs)
  AllPairs-map f k [] h = tt
  AllPairs-map f k (x ∷ xs) (p, h) = (All-map f x (k x) xs p, AllPairs-map f k xs h)

abbrev pub IsQueue : List PendingCommand → Type 0
IsQueue = AllPairs Apart

IsAscending-of_AllPairs :
    (xs : List PendingCommand) → AllPairs Apart xs → IsAscending position_le xs
IsAscending-of_AllPairs [] h = tt
IsAscending-of_AllPairs (x ∷ []) h = tt
IsAscending-of_AllPairs (x ∷ y ∷ ys) ((p, ps), h) =
    (ground (arith, p.ordered), IsAscending-of_AllPairs (y ∷ ys) h)

-- A well-formed queue is read in its own order: `ORDER BY position` moves nothing.
pub list_commands_lem :
    (state : Option CommandState) (db : Db)
    → IsQueue db.pending_commands
    → list_commands state db ≡ keep (in_state state) db.pending_commands
unfolding list_commands
list_commands_lem state db h =
    sort_by_of_IsAscending position_le _
      (IsAscending-of_AllPairs _ (AllPairs-keep Apart (in_state state) db.pending_commands h))

pub discard_command-IsQueue :
    (id : String) (db : Db)
    → IsQueue db.pending_commands
    → IsQueue (discard_command id db).pending_commands
unfolding discard_command
discard_command-IsQueue id db h = AllPairs-keep Apart _ db.pending_commands h

-- A query reads nothing but its table.
pub list_commands_same :
    (state : Option CommandState) (a b : Db)
    → a.pending_commands ≡ b.pending_commands
    → list_commands state a ≡ list_commands state b
unfolding list_commands
list_commands_same state a b h = ap (λ q. sort_by position_le (keep (in_state state) q)) h
