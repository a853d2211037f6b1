-- ===== src/Execution/Split/Sizes.antt =====
-- The sizes of a split: their sum, their number, their bounds.
use lufy.Prelude.{
  ℕ, zero, suc, ◌+◌, ◌-◌, ◌*◌, ◌/◌, ◌%◌, ◌≤◌, ◌<◌, ◌≡◌, refl, sym, ◌∙◌, ap, min, List, ◌++◌, length,
  replicate, All, Bool-cases, ltb, inl, inr, false, ok, arith,
}
use mathlib.Core.Path.{subst}
use native.Mathlib.Nat.{
  mul-div-mul_right, mul-le-mul_right, mul-pos, mod-lt, div-add-mod, le-div_iff_mul-le,
  div-mul-le_self,
}
use lufy.Prelude.Int.{pos}
use lufy.Execution.Split.{split_size}
use lufy.Execution.Split.Ladder.{ladder}
use lufy.Execution.Split.Laws.{sum, pieces, piece_count, split_size-pieces}

sum-replicate : (n a : ℕ) (xs : List ℕ) → sum (replicate n a ++ xs) ≡ n * a + sum xs
sum-replicate zero a xs = omega arith
sum-replicate (suc n) a xs = ground (arith, sum-replicate n a xs)

sum-ladder :
    (base step more rest : ℕ)
    → sum (ladder base step more rest) ≡ more * (base + step) + rest * base
sum-ladder base step zero zero = omega arith
sum-ladder base step zero (suc rest) = ground (arith, sum-ladder base step zero rest)
sum-ladder base step (suc more) rest = ground (arith, sum-ladder base step more rest)

length-ladder : (base step more rest : ℕ) → length (ladder base step more rest) ≡ more + rest
length-ladder base step zero zero = omega arith
length-ladder base step zero (suc rest) = ground (arith, length-ladder base step zero rest)
length-ladder base step (suc more) rest = ground (arith, length-ladder base step more rest)

All-ladder :
    (P : ℕ → Type 0) (base step more rest : ℕ)
    → P (base + step)
    → P base
    → All P (ladder base step more rest)
All-ladder P base step zero zero p q = tt
All-ladder P base step zero (suc rest) p q = (q, All-ladder P base step zero rest p q)
All-ladder P base step (suc more) rest p q = (p, All-ladder P base step more rest p q)

module _ (k n step : ℕ) (some : 0 < n) where
  pieces-ladder : pieces k n step ≡ ladder (k / n * step) step (k % n) (n - k % n)
  pieces-ladder = let h : ltb n 1 ≡ false = ground arith in rw h

  sum-pieces : sum (pieces k n step) ≡ k * step
  sum-pieces =
      let less : k % n < n = mod-lt k some in
      let total : (n * (k / n) + k % n) * step ≡ k * step = ap (λ m. m * step) (div-add-mod k n) in
      let whole : (k % n + (n - k % n)) * (k / n * step) ≡ n * (k / n * step) =
        ap (λ m. m * (k / n * step)) (omega arith) in
      ap sum pieces-ladder ∙ sum-ladder (k / n * step) step (k % n) (n - k % n) ∙ omega arith

  length-pieces : length (pieces k n step) ≡ n
  length-pieces =
      let less : k % n < n = mod-lt k some in
      ap length pieces-ladder ∙ length-ladder (k / n * step) step (k % n) (n - k % n) ∙ omega arith

  All-pieces :
      (P : ℕ → Type 0) → P (k / n * step + step) → P (k / n * step) → All P (pieces k n step)
  All-pieces P p q =
      subst (λ (xs : List ℕ). All P xs) (sym pieces-ladder)
        (All-ladder P (k / n * step) step (k % n) (n - k % n) p q)

-- A size that reaches the minimum is split without loss: the sizes sum to the size in whole steps,
-- there are as many as the count and the minimum allow, at least one, and no two of them differ by
-- more than one step.
pub split_size_exact :
    (t count minimum step : ℕ)
    → 0 < count
    → 0 < minimum
    → 0 < step
    → minimum ≤ t / step * step
    → (sizes : List ℕ) × (split_size (pos t) count minimum step ≡ ok sizes)
      × (sum sizes ≡ t / step * step)
      × (length sizes ≡ min count (t / step * step / minimum))
      × (0 < length sizes)
      × ((base : ℕ) × All (λ x. (base ≤ x) × (x ≤ base + step)) sizes)
split_size_exact t count minimum step pc pm ps enough =
    let k : ℕ = t / step in
    let below : k * step ≤ t = div-mul-le_self t step in
    let one : 1 ≤ k * step / minimum = (le-div_iff_mul-le pm).1 (omega arith) in
    let n : ℕ = piece_count t count minimum step in
    let some : 0 < n = omega arith in
    (
      pieces k n step,
      split_size-pieces t count minimum step (omega arith) pc pm ps,
      sum-pieces k n step some,
      length-pieces k n step some,
      subst (λ (l : ℕ). 0 < l) (sym (length-pieces k n step some)) some,
      (
        k / n * step,
        All-pieces k n step some (λ x. (k / n * step ≤ x) × (x ≤ k / n * step + step))
            (omega arith, omega arith) (omega arith, omega arith),
      ),
    )

-- Where the minimum is a whole number of steps, every size of a split reaches the minimum and is a
-- whole number of steps, so that no order of the ladder is one that the venue rejects for its size.
pub split_size_valid :
    (t count j step : ℕ)
    → 0 < t
    → 0 < count
    → 0 < j
    → 0 < step
    → (sizes : List ℕ) × (split_size (pos t) count (j * step) step ≡ ok sizes)
      × All (λ x. (j * step ≤ x) × ((m : ℕ) × (x ≡ m * step))) sizes
split_size_valid t count j step pt pc pj ps =
    let k : ℕ = t / step in
    let n : ℕ = piece_count t count (j * step) step in
    let pm : 0 < j * step = mul-pos pj ps in
    (
      pieces k n step,
      split_size-pieces t count (j * step) step pt pc pm ps,
      elim (Bool-cases (ltb n 1)) [
        | inl none ↦ rw none tt
        | inr there ↦
            let some : 0 < n = ground arith in
            let within : n ≤ k / j =
              subst (λ (m : ℕ). n ≤ m) (mul-div-mul_right k j ps) (omega arith) in
            let product : n * j ≤ k = (le-div_iff_mul-le pj).0 within in
            let each : j ≤ k / n = (le-div_iff_mul-le some).1 (omega arith) in
            let base : j * step ≤ k / n * step = mul-le-mul_right step each in
            All-pieces k n step some (λ x. (j * step ≤ x) × ((m : ℕ) × (x ≡ m * step)))
              (omega arith, (k / n + 1, omega arith)) (base, (k / n, refl))
      ],
    )
