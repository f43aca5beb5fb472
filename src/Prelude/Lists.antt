-- ===== src/Prelude/Lists.antt =====
-- Lists measured and indexed by native numbers, filters by a Boolean test, and `All`.
use Prim.Native.Nat.{ℕ, zero, suc, ◌+◌, ◌≤◌}
use mathlib.Core.Path.{◌≡◌, refl, ap, subst, sym, ◌∙◌}
use mathlib.Core.Logic.{inl, inr}
use mathlib.Core.Bool.{Bool, true, false, ◌||◌}
use mathlib.Core.Option.{Option, none, some, some-injective}
use mathlib.Core.List.{List, [], ◌∷◌, ◌++◌}
use native.Mathlib.Omega.{arith}
use open_troop.Prelude.Tests.{if◌then◌else◌, Bool-cases}

module _ {ℓ} {A : Type ℓ} where
  abbrev pub length : List A → ℕ
  length [] = 0
  length (x ∷ xs) = suc (length xs)

  abbrev pub get_elem? : List A → ℕ → Option A
  get_elem? [] i = none
  get_elem? (x ∷ xs) zero = some x
  get_elem? (x ∷ xs) (suc i) = get_elem? xs i

  -- A write out of bounds changes nothing.
  abbrev pub set : List A → ℕ → A → List A
  set [] i v = []
  set (x ∷ xs) zero v = v ∷ xs
  set (x ∷ xs) (suc i) v = x ∷ set xs i v

  abbrev pub take : ℕ → List A → List A
  take zero xs = []
  take (suc n) [] = []
  take (suc n) (x ∷ xs) = x ∷ take n xs

  abbrev pub drop : ℕ → List A → List A
  drop zero xs = xs
  drop (suc n) [] = []
  drop (suc n) (x ∷ xs) = drop n xs

  -- `xs.filter(p)`
  abbrev pub keep : (A → Bool) → List A → List A
  keep p [] = []
  keep p (x ∷ xs) = let rest = keep p xs in if p x then x ∷ rest else rest

  -- `xs.find(p)`, and the first row of a query
  abbrev pub find_first : (A → Bool) → List A → Option A
  find_first p [] = none
  find_first p (x ∷ xs) = let rest = find_first p xs in if p x then some x else rest

  -- `xs.some(p)`
  abbrev pub any : (A → Bool) → List A → Bool
  any p [] = false
  any p (x ∷ xs) = p x || any p xs

  pub length-append : (xs ys : List A) → length (xs ++ ys) ≡ length xs + length ys
  length-append [] ys = omega arith
  length-append (x ∷ xs) ys = omega (arith, length-append xs ys)

  pub length-set : (xs : List A) (i : ℕ) (v : A) → length (set xs i v) ≡ length xs
  length-set [] i v = refl
  length-set (x ∷ xs) zero v = refl
  length-set (x ∷ xs) (suc i) v = ap suc (length-set xs i v)

  pub length-keep : (p : A → Bool) (xs : List A) → length (keep p xs) ≤ length xs
  length-keep p [] = omega arith
  length-keep p (x ∷ xs) = ground (arith, length-keep p xs)

  pub keep_pointwise :
      (p q : A → Bool) → ((x : A) → p x ≡ q x) → (xs : List A) → keep p xs ≡ keep q xs
  keep_pointwise p q h [] = refl
  keep_pointwise p q h (x ∷ xs) = ground (arith, h x, keep_pointwise p q h xs)

  pub keep_every : (xs : List A) → keep (λ x. true) xs ≡ xs
  keep_every [] = refl
  keep_every (x ∷ xs) = ap (λ ys. x ∷ ys) (keep_every xs)

  pub keep-append : (p : A → Bool) (xs ys : List A) → keep p (xs ++ ys) ≡ keep p xs ++ keep p ys
  keep-append p [] ys = refl
  keep-append p (x ∷ xs) ys = ground (arith, keep-append p xs ys)

module _ {ℓ κ} {A : Type ℓ} (P : A → Type κ) where
  abbrev pub All : List A → Type κ
  All [] = Unit
  All (x ∷ xs) = P x × All xs

module _ {ℓ κ} {A : Type ℓ} (P : A → Type κ) where
  pub All-append : (xs ys : List A) → All P xs → All P ys → All P (xs ++ ys)
  All-append [] ys _ k = k
  All-append (x ∷ xs) ys (p, h) k = (p, All-append xs ys h k)

  pub All-keep : (t : A → Bool) (xs : List A) → All P xs → All P (keep t xs)
  All-keep t [] _ = tt
  All-keep t (x ∷ xs) (p, h) = ground (arith, All-keep t xs h)

  pub All-find_first :
      (t : A → Bool) (xs : List A) (c : A) → All P xs → find_first t xs ≡ some c → P c
  All-find_first t [] c _ e = cc
  All-find_first t (x ∷ xs) c (p, h) e = elim (Bool-cases (t x)) [
    | inl here ↦ subst P (some-injective x c (sym (rw here) ∙ e)) p
    | inr later ↦ All-find_first t xs c h (sym (rw later) ∙ e)
  ]

module _ {ℓ} {A : Type ℓ} where
  pub find_first_passes :
      (t : A → Bool) (xs : List A) (c : A) → find_first t xs ≡ some c → t c ≡ true
  find_first_passes t [] c e = cc
  find_first_passes t (x ∷ xs) c e = elim (Bool-cases (t x)) [
    | inl here ↦ subst (λ y. t y ≡ true) (some-injective x c (sym (rw here) ∙ e)) here
    | inr later ↦ find_first_passes t xs c (sym (rw later) ∙ e)
  ]

  pub All-of_find_first-none :
      (t : A → Bool) (xs : List A) → find_first t xs ≡ none → All (λ x. t x ≡ false) xs
  All-of_find_first-none t [] e = tt
  All-of_find_first-none t (x ∷ xs) e = elim (Bool-cases (t x)) [
    | inl here ↦ cc (rw here at e)
    | inr later ↦ (later, All-of_find_first-none t xs (rw later at e))
  ]

  pub any-false : (t : A → Bool) (xs : List A) → any t xs ≡ false → All (λ x. t x ≡ false) xs
  any-false t [] h = tt
  any-false t (x ∷ xs) h = elim (Bool-cases (t x)) [
    | inl here ↦ cc (rw here at h)
    | inr later ↦ (later, any-false t xs (rw later at h))
  ]

module _ {ℓ κ μ} {A : Type ℓ} (P : A → Type κ) (Q : A → Type μ) where
  pub All-mono : ((x : A) → P x → Q x) → (xs : List A) → All P xs → All Q xs
  All-mono f [] _ = tt
  All-mono f (x ∷ xs) (p, h) = (f x p, All-mono f xs h)
