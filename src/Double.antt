-- ===== src/Double.antt =====
-- The rounding of a product of two doubles, as IEEE 754 prescribes it: to 53 significant bits, the
-- nearest, and of two the even one. A value is a whole number of some power of two, which is left
-- out, and is at least 1 of it.
use native.Mathlib.Nat.{div-add-mod', mod-lt}
use marketplace_template.Prelude.{
  ℕ, zero, suc, ◌+◌, ◌*◌, ◌/◌, ◌%◌, ◌^◌, ◌≤◌, ◌<◌, ◌≡◌, arith, ltb, if◌then◌else◌, Bool-cases, inl,
  inr, ◌⊎◌,
}

-- The distance of two neighbours at `p`, which is below 2^53 times 2^fuel.
unfoldable pub spacing : ℕ → ℕ → ℕ
spacing zero p = 1
spacing (suc fuel) p = let rest = spacing fuel (p / 2) in if ltb p (2 ^ 53) then 1 else 2 * rest

-- The multiple of `u` that is nearest to a number of quotient `q` and remainder `r`.
unfoldable pub nearest : ℕ → ℕ → ℕ → ℕ
nearest u q r =
    if ltb (2 * r) u then q * u else if ltb u (2 * r) then (q + 1) * u else (q + q % 2) * u

unfoldable pub round_double : ℕ → ℕ → ℕ
unfolding spacing nearest
round_double fuel p = let u = spacing fuel p in nearest u (p / u) (p % u)

nearest-near :
    (u q r : ℕ)
    → r < u
    → (2 * nearest u q r ≤ 2 * (q * u + r) + u) × (2 * (q * u + r) ≤ 2 * nearest u q r + u)
unfolding nearest
nearest-near u q r h = elim (Bool-cases (ltb (2 * r) u)) [
  | inl low ↦ rw (nearest, low) (ground arith)
  | inr other ↦ elim (Bool-cases (ltb u (2 * r))) [
    | inl high ↦ rw (nearest, other, high) (grind arith)
    | inr half ↦
        rw (nearest, other, half)
          (let bit : (q % 2 ≡ 0) ⊎ (q % 2 ≡ 1) = omega arith in
            elim bit [ inl even ↦ rw even (grind arith) | inr odd ↦ rw odd (grind arith) ])
  ]
]

spacing_bounds : (fuel p : ℕ) → (1 ≤ spacing fuel p) × (spacing fuel p ≤ 2 ^ fuel)
unfolding spacing
spacing_bounds zero p = (omega arith, omega arith)
spacing_bounds (suc fuel) p = let ih = spacing_bounds fuel (p / 2) in ground (arith, ih)

-- The fuel is enough: the result has no more than 53 significant bits.
spacing_enough : (fuel p : ℕ) → p < 2 ^ 53 * 2 ^ fuel → p < 2 ^ 53 * spacing fuel p
unfolding spacing
spacing_enough zero p h = h
spacing_enough (suc fuel) p h =
    let ih = spacing_enough fuel (p / 2) (omega arith) in ground (arith, ih)

-- A rounded value is half a distance away at most.
pub round_double-near :
    (fuel p : ℕ)
    → (2 * round_double fuel p ≤ 2 * p + 2 ^ fuel) × (2 * p ≤ 2 * round_double fuel p + 2 ^ fuel)
unfolding round_double
round_double-near fuel p =
    let u = spacing fuel p in
    let (positive, small) = spacing_bounds fuel p in
    let near = nearest-near u (p / u) (p % u) (mod-lt p positive) in
    let whole = div-add-mod' p u in omega (arith, near, small, whole)
