-- ===== src/Doc/Decimal.antt =====
-- `String(n)` and `Number(text)` on natural numbers: how the sync epoch is kept in a text column.
use Prim.Native.Char.{code}
use Prim.Native.String.{◌++◌ as join}
use text.Mathlib.TextLemmas.{nil-append, cons-append}
use open_troop.Prelude.{
  ℕ, zero, suc, ◌+◌, ◌-◌, ◌*◌, ◌/◌, ◌%◌, ◌<◌, String, ◌≡◌, refl, ap, ◌&&◌, Option, none, some,
  arith, ltb, leb, ◌==◌, if◌then◌else◌, Bool-cases, ltb→lt, ltb-false, inl, inr, ◌∙◌,
}

digit : ℕ → String
digit d =
    if d == 0
    then "0"
    else if d == 1
    then "1"
    else if d == 2
    then "2"
    else if d == 3
    then "3"
    else if d == 4
    then "4"
    else if d == 5
    then "5"
    else if d == 6
    then "6"
    else if d == 7
    then "7"
    else if d == 8
    then "8"
    else "9"

-- Fuel above the number is enough: each round divides by ten.
show_fuel : ℕ → ℕ → String
show_fuel zero n = ""
show_fuel (suc f) n =
    let front = show_fuel f (n / 10) in if ltb n 10 then digit n else join front (digit (n % 10))

-- `String(n)`
unfoldable pub show : ℕ → String
unfolding show_fuel digit
show n = show_fuel (suc n) n

scan : ℕ → String → Option ℕ
scan acc String.[] = some acc
scan acc (String.◌∷◌ c s) =
    let d = code c in if leb 48 d && leb d 57 then scan (acc * 10 + (d - 48)) s else none

-- `Number(text)`; `none` is NaN. `Number("")` is 0. Signs, fractions, exponents, prefixes and white
-- space, which the clients never write, are left out.
unfoldable pub number : String → Option ℕ
unfolding scan
number s = scan 0 s

scan-digit : (acc d : ℕ) → d < 10 → scan acc (digit d) ≡ some (acc * 10 + d)
unfolding scan digit
scan-digit acc zero h = refl
scan-digit acc (suc zero) h = refl
scan-digit acc (suc (suc zero)) h = refl
scan-digit acc (suc (suc (suc zero))) h = refl
scan-digit acc (suc (suc (suc (suc zero)))) h = refl
scan-digit acc (suc (suc (suc (suc (suc zero))))) h = refl
scan-digit acc (suc (suc (suc (suc (suc (suc zero)))))) h = refl
scan-digit acc (suc (suc (suc (suc (suc (suc (suc zero))))))) h = refl
scan-digit acc (suc (suc (suc (suc (suc (suc (suc (suc zero)))))))) h = refl
scan-digit acc (suc (suc (suc (suc (suc (suc (suc (suc (suc zero))))))))) h = refl
scan-digit acc (suc (suc (suc (suc (suc (suc (suc (suc (suc (suc n)))))))))) h =
    absurd (omega arith)

-- A digit read after a text that reads as a number.
scan-join : (acc n : ℕ) (s t : String) → scan acc s ≡ some n → scan acc (join s t) ≡ scan n t
unfolding scan
scan-join acc n String.[] t h = rw nil-append (ground arith)
scan-join acc n (String.◌∷◌ c s) t h =
    rw cons-append (ground (arith, scan-join (acc * 10 + (code c - 48)) n s t))

scan-show_fuel : (f n : ℕ) → n < f → scan 0 (show_fuel f n) ≡ some n
unfolding show_fuel
scan-show_fuel zero n h = elim h [ ]
scan-show_fuel (suc f) n h = elim (Bool-cases (ltb n 10)) [
  | inl small ↦ rw small (scan-digit 0 n (ltb→lt n 10 small) ∙ ap (λ k. some k) (omega arith))
  | inr large ↦ rw large (
      scan-join 0 (n / 10) (show_fuel f (n / 10)) (digit (n % 10))
        (scan-show_fuel f (n / 10) (omega (arith, ltb-false n 10 large)))
      ∙ scan-digit (n / 10) (n % 10) (omega arith)
      ∙ ap (λ k. some k) (omega arith))
]

pub number-show : (n : ℕ) → number (show n) ≡ some n
unfolding number show
number-show n = scan-show_fuel (suc n) n (omega arith)
