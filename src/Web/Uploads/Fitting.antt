-- ===== src/Web/Uploads/Fitting.antt =====
-- The bounds of a scaled photo.
use Prim.Native.Nat.{max}
use native.Mathlib.Nat.{div-lt_iff_lt-mul, div-eq_of_lt-le, mul-le-mul, le_refl, mul_comm}
use open_troop.Prelude.{
  ℕ, ◌+◌, ◌*◌, ◌≤◌, ◌<◌, ◌≡◌, refl, subst, inl, inr, arith, leb, if◌then◌else◌, leb→le, leb-false,
  Bool-cases,
}
use open_troop.Web.Uploads.{scaled, fit_within}

scaled_within : (n k edge long : ℕ) → n * edge ≤ k * long → 0 < long → scaled n edge long ≤ k
scaled_within n k edge long h pos =
    let below : 2 * (n * edge) + long < (k + 1) * (2 * long) = omega (arith, h) in
    let lt =
      (div-lt_iff_lt-mul {k = 2 * long} {x = 2 * (n * edge) + long} {y = k + 1} (omega arith)).1
        below in
    omega (arith, lt)

scaled_self : (edge long : ℕ) → 0 < long → scaled long edge long ≡ edge
scaled_self edge long pos = div-eq_of_lt-le (2 * long) (omega arith) (omega arith)

-- The longer of two edges after scaling the longer one down to the bound
max-scaled :
    (w h edge : ℕ) → edge < max w h → max (scaled w edge (max w h)) (scaled h edge (max w h)) ≡ edge
max-scaled w h edge over = elim (Bool-cases (leb w h)) [
  | inl shorter ↦
      let le = leb→le w h shorter in
      let e : max w h ≡ h = ground (arith, le) in
      let small : scaled w edge h ≤ edge =
        scaled_within w edge edge h
          (subst (λ x. w * edge ≤ x) (mul_comm h edge) (mul-le-mul le (le_refl edge)))
          (omega (arith, e, over)) in
      let top = scaled_self edge h (omega (arith, e, over)) in rw e (ground (arith, small, top))
  | inr longer ↦
      let ge : h ≤ w = omega (arith, leb-false w h longer) in
      let e : max w h ≡ w = ground (arith, ge) in
      let small : scaled h edge w ≤ edge =
        scaled_within h edge edge w
          (subst (λ x. h * edge ≤ x) (mul_comm w edge) (mul-le-mul ge (le_refl edge)))
          (omega (arith, e, over)) in
      let top = scaled_self edge w (omega (arith, e, over)) in rw e (ground (arith, small, top))
]

scaled_shrinks : (n edge long : ℕ) → edge < long → scaled n edge long ≤ n
scaled_shrinks n edge long over =
    scaled_within n n edge long (mul-le-mul (le_refl n) (omega (arith, over))) (omega (arith, over))

-- Neither edge of a photo grows, and its longer edge becomes the smaller of what it was and the bound,
-- exactly: a photo within the bound keeps its size.
pub fit_within_lem :
    (width height edge : ℕ)
    → ((fit_within width height edge).0 ≤ width)
      × ((fit_within width height edge).1 ≤ height)
      × (max (fit_within width height edge).0 (fit_within width height edge).1
          ≡ (if leb (max width height) edge then max width height else edge))
unfolding fit_within
fit_within_lem width height edge = elim (Bool-cases (leb (max width height) edge)) [
  | inl fits ↦ rw fits (le_refl width, le_refl height, refl)
  | inr over ↦
      let lt = leb-false (max width height) edge over in
      rw over (
        scaled_shrinks width edge (max width height) lt,
        scaled_shrinks height edge (max width height) lt,
        max-scaled width height edge lt,
      )
]
