-- ===== src/Overlay/Indexing.antt =====
-- The map from targets to places that `overlayParticipants` keeps names each place of the list.
use mathlib.Core.Option.{some-injective}
use open_troop.Prelude.{
  ℕ, zero, suc, ◌+◌, ◌<◌, String, ◌≡◌, refl, sym, ap, ◌∙◌, subst, inl, inr, none, some, get_or,
  List, [], ◌∷◌, ◌++◌, arith, str_eq, eq_iff, eq_refl, ◌==◌, if◌then◌else◌, Bool-cases,
  Option-cases, or_else, length, get_elem?, set,
}
use open_troop.Db.{PendingCommand}
use open_troop.Overlay.{participant_key, target_at, index_from, ParticipantLike, Overlay}

-- Who takes part in what.
abbrev pub key_of : ParticipantLike → String
key_of p = participant_key p.event_id p.member_id

abbrev pub command_key : PendingCommand → String
command_key cmd = participant_key cmd.payload.event_id (get_or cmd.payload.member_id "")

-- The entries of the map name the places of their keys, and every place is named.
pub record IsIndexed (o : Overlay) : Type 0 where
  pub sound :
      (key : String) (i : ℕ)
      → target_at key o.by_target ≡ some i
      → (p : ParticipantLike) × (get_elem? o.out i ≡ some p) × (key_of p ≡ key)
  pub complete :
      (i : ℕ) (p : ParticipantLike)
      → get_elem? o.out i ≡ some p
      → target_at (key_of p) o.by_target ≡ some i

-- Each target stands once.
abbrev pub HasDistinctTargets : List ParticipantLike → Type 0
HasDistinctTargets rows =
    (i j : ℕ) (p q : ParticipantLike)
    → get_elem? rows i ≡ some p
    → get_elem? rows j ≡ some q
    → key_of p ≡ key_of q
    → i ≡ j

pub IsIndexed-HasDistinctTargets : (o : Overlay) → IsIndexed o → HasDistinctTargets o.out
IsIndexed-HasDistinctTargets o h i j p q ep eq k =
    some-injective i j
      (sym (h.complete i p ep) ∙ ap (λ x. target_at x o.by_target) k ∙ h.complete j q eq)

pub target_at-append :
    (key : String) (m : List (String × ℕ)) (k : String) (i : ℕ)
    → target_at key (m ++ (k, i) ∷ []) ≡ (if str_eq k key then some i else target_at key m)
unfolding target_at
target_at-append key [] k i = ground arith
target_at-append key ((j, n) ∷ m) k i = ground (arith, target_at-append key m k i)

pub get_elem?-append :
    {A : Type 0} (xs : List A) (y : A) (i : ℕ)
    → get_elem? (xs ++ y ∷ []) i ≡ (if i == length xs then some y else get_elem? xs i)
get_elem?-append [] y zero = refl
get_elem?-append [] y (suc i) = ground arith
get_elem?-append (x ∷ xs) y zero = ground arith
get_elem?-append (x ∷ xs) y (suc i) = get_elem?-append xs y i ∙ ground arith

pub get_elem?-set :
    {A : Type 0} (xs : List A) (v w : A) (i j : ℕ)
    → get_elem? xs i ≡ some w
    → get_elem? (set xs i v) j ≡ (if i == j then some v else get_elem? xs j)
get_elem?-set [] v w i j h = cc
get_elem?-set (x ∷ xs) v w zero zero h = refl
get_elem?-set (x ∷ xs) v w zero (suc j) h = ground arith
get_elem?-set (x ∷ xs) v w (suc i) zero h = ground arith
get_elem?-set (x ∷ xs) v w (suc i) (suc j) h = get_elem?-set xs v w i j h ∙ ground arith

pub get_elem?-lt :
    {A : Type 0} (xs : List A) (i : ℕ) (x : A) → get_elem? xs i ≡ some x → i < length xs
get_elem?-lt [] i x h = cc
get_elem?-lt (y ∷ ys) zero x h = omega arith
get_elem?-lt (y ∷ ys) (suc i) x h = omega (arith, get_elem?-lt ys i x h)

-- The map that the overlay starts from.
pub index_from_sound :
    (n : ℕ) (rows : List ParticipantLike) (key : String) (i : ℕ)
    → target_at key (index_from n rows) ≡ some i
    → (j : ℕ) × (p : ParticipantLike) × (i ≡ n + j) × (get_elem? rows j ≡ some p) × (key_of p ≡ key)
unfolding target_at index_from
index_from_sound n [] key i h = cc
index_from_sound n (r ∷ rows) key i h =
    elim (Option-cases (target_at key (index_from (suc n) rows))) [
      | inl absent ↦ elim (Bool-cases (str_eq (key_of r) key)) [
        | inl here ↦
            let first : target_at key (index_from n (r ∷ rows)) ≡ some n =
              rw (absent, or_else) (rw here) in
            (0, r, some-injective i n (sym h ∙ first) ∙ omega arith, refl, (eq_iff _ _).0 here)
        | inr other ↦
            let first : target_at key (index_from n (r ∷ rows)) ≡ none =
              rw (absent, or_else) (rw other) in
            cc (sym h ∙ first)
      ]
      | inr (k, later) ↦
          let (j, p, e, at, named) = index_from_sound (suc n) rows key k later in
          let first : target_at key (index_from n (r ∷ rows)) ≡ some k = rw (later, or_else) in
          (suc j, p, some-injective i k (sym h ∙ first) ∙ e ∙ omega arith, at, named)
    ]

pub HasDistinctTargets-tail :
    (r : ParticipantLike) (rows : List ParticipantLike)
    → HasDistinctTargets (r ∷ rows)
    → HasDistinctTargets rows
HasDistinctTargets-tail r rows d i j p q ep eq k = omega (arith, d (suc i) (suc j) p q ep eq k)

pub index_from_complete :
    (n : ℕ) (rows : List ParticipantLike) (i : ℕ) (p : ParticipantLike)
    → HasDistinctTargets rows
    → get_elem? rows i ≡ some p
    → target_at (key_of p) (index_from n rows) ≡ some (n + i)
unfolding target_at index_from
index_from_complete n [] i p d h = cc
index_from_complete n (r ∷ rows) zero p d h =
    elim (Option-cases (target_at (key_of p) (index_from (suc n) rows))) [
      | inl absent ↦
          rw (absent, or_else)
            (subst (λ x. (if str_eq (key_of x) (key_of p) then some n else none) ≡ some (n + 0))
              (some-injective p r (sym h))
              (rw (eq_refl (key_of p)) (ap (λ k. some k) (omega arith))))
      | inr (k, later) ↦
          let (j, q, e, at, named) = index_from_sound (suc n) rows (key_of p) k later in
          absurd (omega (arith, d zero (suc j) p q h at (sym named)))
    ]
index_from_complete n (r ∷ rows) (suc i) p d h =
    rw (index_from_complete (suc n) rows i p (HasDistinctTargets-tail r rows d) h, or_else)
      (ap (λ k. some k) (omega arith))

pub IsIndexed-start :
    (rows : List ParticipantLike)
    → HasDistinctTargets rows
    → IsIndexed (record { out = rows; by_target = index_from 0 rows })
IsIndexed-start rows d = record {
  sound = λ key i t.
      let (j, p, e, at, named) = index_from_sound 0 rows key i t in
      let same : j ≡ i = omega (arith, e) in
      (p, subst (λ k. get_elem? rows k ≡ some p) same at, named);
  complete = λ i p h. index_from_complete 0 rows i p d h ∙ ap (λ k. some k) (omega arith);
}
