-- ===== src/Prelude/Sorting.antt =====
-- `xs.sort(compare)` and `ORDER BY`: the stable insertion sort, and what is sorted already.
use mathlib.Core.Path.{◌≡◌, refl}
use mathlib.Core.Logic.{◌⊎◌, inl, inr}
use mathlib.Core.Bool.{Bool, true, false}
use native.Mathlib.Omega.{arith}
use mathlib.Core.Option.{none}
use mathlib.Core.List.{List, [], ◌∷◌}
use open_troop.Prelude.Tests.{if◌then◌else◌, Bool-cases}
use open_troop.Prelude.Lists.{length, keep, find_first, All}

module _ {ℓ} {A : Type ℓ} (le : A → A → Bool) where
  -- `x` goes in front of the first element that it does not exceed, so ties keep their order.
  pub insert_by : A → List A → List A
  insert_by x [] = x ∷ []
  insert_by x (y ∷ ys) = let rest = insert_by x ys in if le x y then x ∷ y ∷ ys else y ∷ rest

  unfoldable pub sort_by : List A → List A
  unfolding insert_by
  sort_by [] = []
  sort_by (x ∷ xs) = insert_by x (sort_by xs)

  -- Each element is at most its successor.
  abbrev pub IsAscending : List A → Type 0
  IsAscending [] = Unit
  IsAscending (x ∷ []) = Unit
  IsAscending (x ∷ y ∷ ys) = (le x y ≡ true) × IsAscending (y ∷ ys)

  pub sort_by_of_IsAscending : (xs : List A) → IsAscending xs → sort_by xs ≡ xs
  unfolding sort_by
  sort_by_of_IsAscending [] h = refl
  sort_by_of_IsAscending (x ∷ []) h = refl
  sort_by_of_IsAscending (x ∷ y ∷ ys) (p, h) = rw (sort_by_of_IsAscending (y ∷ ys) h) (rw p)

  -- Sorting moves the elements and no more: a test holds of as many as before.
  length-keep-insert_by :
      (p : A → Bool) (x : A) (xs : List A)
      → length (keep p (insert_by x xs)) ≡ length (keep p (x ∷ xs))
  unfolding insert_by
  length-keep-insert_by p x [] = refl
  length-keep-insert_by p x (y ∷ xs) = ground (arith, length-keep-insert_by p x xs)

  pub length-keep-sort_by :
      (p : A → Bool) (xs : List A) → length (keep p (sort_by xs)) ≡ length (keep p xs)
  unfolding sort_by
  length-keep-sort_by p [] = refl
  length-keep-sort_by p (x ∷ xs) =
      ground (arith, length-keep-insert_by p x (sort_by xs), length-keep-sort_by p xs)

  -- A total order sorts.
  module _ (total : (x y : A) → le x y ≡ false → le y x ≡ true) where
    insert_by-IsAscending : (x : A) (xs : List A) → IsAscending xs → IsAscending (insert_by x xs)
    unfolding insert_by
    insert_by-IsAscending x [] h = tt
    insert_by-IsAscending x (y ∷ []) h = elim (Bool-cases (le x y)) [
      | inl below ↦ rw below (below, tt)
      | inr above ↦ rw above (total x y above, tt)
    ]
    insert_by-IsAscending x (y ∷ z ∷ xs) (p, h) = elim (Bool-cases (le x y)) [
      | inl below ↦ rw below (below, (p, h))
      | inr above ↦ elim (Bool-cases (le x z)) [
        | inl here ↦ rw (above, here) (total x y above, (here, h))
        | inr later ↦ rw (above, later) (p, (rw later at (insert_by-IsAscending x (z ∷ xs) h)))
      ]
    ]

    pub sort_by-IsAscending : (xs : List A) → IsAscending (sort_by xs)
    unfolding sort_by
    sort_by-IsAscending [] = tt
    sort_by-IsAscending (x ∷ xs) = insert_by-IsAscending x (sort_by xs) (sort_by-IsAscending xs)

  -- What holds of each element holds of each after sorting.
  insert_by-All {κ} :
      (P : A → Type κ) (x : A) (xs : List A) → P x → All P xs → All P (insert_by x xs)
  unfolding insert_by
  insert_by-All P x [] p h = (p, tt)
  insert_by-All P x (y ∷ xs) p (q, h) = elim (Bool-cases (le x y)) [
    | inl below ↦ rw below (p, (q, h))
    | inr above ↦ rw above (q, insert_by-All P x xs p h)
  ]

  pub sort_by-All {κ} : (P : A → Type κ) (xs : List A) → All P xs → All P (sort_by xs)
  unfolding sort_by
  sort_by-All P [] h = tt
  sort_by-All P (x ∷ xs) (p, h) = insert_by-All P x (sort_by xs) p (sort_by-All P xs h)

  -- If at most one element passes the test, sorting does not change which one is found.
  pub find_first-insert_by :
      (t : A → Bool) (x : A) (xs : List A)
      → (t x ≡ false) ⊎ (find_first t xs ≡ none)
      → find_first t (insert_by x xs) ≡ find_first t (x ∷ xs)
  unfolding insert_by
  find_first-insert_by t x [] h = refl
  find_first-insert_by t x (y ∷ xs) (inl misses) =
      ground (arith, misses, find_first-insert_by t x xs (inl misses))
  find_first-insert_by t x (y ∷ xs) (inr nothing) = elim (Bool-cases (t y)) [
    | inl found ↦ cc (rw found at nothing)
    | inr missed ↦ ground (arith, missed, find_first-insert_by t x xs (inr (rw missed at nothing)))
  ]
