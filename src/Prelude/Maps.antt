-- ===== src/Prelude/Maps.antt =====
-- A JavaScript `Map` from strings, as the list of its entries in the order of their insertion.
use Prim.Native.String.{String}
use mathlib.Core.Path.{◌≡◌, refl, ◌∙◌, ap, subst}
use mathlib.Core.Logic.{inl, inr}
use mathlib.Core.Bool.{Bool, false}
use mathlib.Core.Option.{Option, none, some}
use mathlib.Core.List.{List, [], ◌∷◌, map}
use native.Mathlib.Omega.{arith}
use text.Mathlib.Text.{◌==◌ as str_eq}
use text.Mathlib.TextEquality.{eq_iff}
use text.Mathlib.TextPositions.{eq_refl}
use open_troop.Prelude.Lists.{any}
use open_troop.Prelude.Tests.{if◌then◌else◌, Bool-cases}

module _ {ℓ} {A : Type ℓ} where
  -- `map.get(key)`
  abbrev pub lookup : String → List (String × A) → Option A
  lookup key [] = none
  lookup key ((k, v) ∷ m) = let rest = lookup key m in if str_eq k key then some v else rest

  -- `map.set(key, value)`: a key that is there keeps its place.
  abbrev pub assign : String → A → List (String × A) → List (String × A)
  assign key v [] = (key, v) ∷ []
  assign key v ((k, w) ∷ m) =
      let rest = assign key v m in if str_eq k key then (k, v) ∷ m else (k, w) ∷ rest

  abbrev pub assign_entries : List (String × A) → List (String × A) → List (String × A)
  assign_entries [] m = m
  assign_entries ((k, v) ∷ entries) m = assign_entries entries (assign k v m)

  -- `new Map(entries)`
  abbrev pub new_map : List (String × A) → List (String × A)
  new_map entries = assign_entries entries []

  pub lookup-assign :
      (key : String) (v : A) (m : List (String × A)) → lookup key (assign key v m) ≡ some v
  lookup-assign key v [] = rw (eq_refl key)
  lookup-assign key v ((k, w) ∷ m) = elim (Bool-cases (str_eq k key)) [
    | inl here ↦ rw (here, here)
    | inr later ↦ rw (later, later) (lookup-assign key v m)
  ]

  pub lookup-assign_other :
      (key other : String) (v : A) (m : List (String × A))
      → str_eq key other ≡ false
      → lookup other (assign key v m) ≡ lookup other m
  lookup-assign_other key other v [] h = rw h
  lookup-assign_other key other v ((k, w) ∷ m) h = elim (Bool-cases (str_eq k key)) [
    | inl here ↦
        let e : str_eq k other ≡ false = ap (λ s. str_eq s other) ((eq_iff k key).0 here) ∙ h in
        rw (here, e)
    | inr later ↦ ground (arith, lookup-assign_other key other v m h)
  ]

-- Maps from the key of each value to the value: `new Map(xs.map((x) => [key(x), x]))`
module _ {ℓ} {A : Type ℓ} (key : A → String) (x : String) where
  -- A value is there, and its key is `x`.
  abbrev pub is_keyed : Option A → Bool
  is_keyed none = false
  is_keyed (some a) = str_eq (key a) x

  is_keyed-assign :
      (k : String) (a : A) (m : List (String × A))
      → is_keyed (lookup k (assign (key a) a m))
        ≡ (if str_eq (key a) k then str_eq k x else is_keyed (lookup k m))
  is_keyed-assign k a m = elim (Bool-cases (str_eq (key a) k)) [
    | inl same ↦ rw same (
        subst (λ k. is_keyed (lookup k (assign (key a) a m)) ≡ str_eq k x)
          ((eq_iff (key a) k).0 same) (rw (lookup-assign (key a) a m) refl))
    | inr other ↦ rw (other, lookup-assign_other (key a) k a m other) refl
  ]

  pub is_keyed-assign_entries :
      (k : String) (xs : List A) (m : List (String × A))
      → is_keyed (lookup k (assign_entries (map (λ a. (key a, a)) xs) m))
        ≡ (if any (λ a. str_eq (key a) k) xs then str_eq k x else is_keyed (lookup k m))
  is_keyed-assign_entries k [] m = refl
  is_keyed-assign_entries k (a ∷ xs) m =
      is_keyed-assign_entries k xs (assign (key a) a m) ∙ rw (is_keyed-assign k a m) (ground arith)
