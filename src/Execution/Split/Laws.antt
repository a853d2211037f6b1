-- ===== src/Execution/Split/Laws.antt =====
-- What `split_size` promises about the sizes.
use lufy.Prelude.{
  ℕ, ◌+◌, ◌-◌, ◌*◌, ◌/◌, ◌%◌, ◌≤◌, ◌<◌, ◌≡◌, ◌∙◌, ap, min, List, [], ◌∷◌, replicate, Bool-cases,
  ltb, ◌==◌, inl, inr, false, ok, if◌then◌else◌, arith,
}
use mathlib.Core.Path.{subst}
use native.Mathlib.Nat.{
  div-eq_of_lt, zero-mod, le-mul_of_pos_right, mod-lt, div-add-mod, div-div-eq-div-mul,
  mul-div-mul_right,
}
use lufy.Prelude.Int.{pos}
use lufy.Execution.Split.{quantize_floor, distribute, shares, split_quantized, split_size}
use lufy.Execution.Split.Ladder.{ladder, distribute-ladder}

-- The shares of a whole number of steps.
module _ (usable k step : ℕ) (some_piece : 0 < usable) (some_step : 0 < step) where
  share : k * step / usable / step ≡ k / usable
  share = div-div-eq-div-mul (k * step) usable step ∙ mul-div-mul_right k usable some_step

  left_over : k * step - k / usable * step * usable ≡ k % usable * step
  left_over =
      let e : (usable * (k / usable) + k % usable) * step ≡ k * step =
        ap (λ n. n * step) (div-add-mod k usable) in
      omega arith

  shares-ladder :
      shares usable (k * step) step
      ≡ ladder (k / usable * step) step (k % usable) (usable - k % usable)
  unfolding quantize_floor
  shares-ladder =
      let less : k % usable < usable = mod-lt k some_piece in
      let r : k % usable + (usable - k % usable) ≡ usable = omega arith in
      let base : ℕ = k / usable * step in
      let fuel : ℕ = k % usable * step in
      let start : 0 % usable ≡ 0 = zero-mod usable in
      let moved : 0 + k % usable ≡ k % usable = omega arith in
      let enough : k % usable ≤ k % usable * step = le-mul_of_pos_right (k % usable) some_step in
      rw (share, left_over)
        (subst
          (λ (i : ℕ).
            distribute fuel step usable i fuel (replicate usable base)
            ≡ ladder base step (k % usable) (usable - k % usable))
          start
          (subst
            (λ (n : ℕ).
              distribute fuel step usable (0 % usable) fuel (replicate usable base)
              ≡ ladder base step n (usable - k % usable))
            moved
            (subst
              (λ (n : ℕ).
                distribute fuel step usable (0 % usable) fuel (replicate n base)
                ≡ ladder base step (0 + k % usable) (usable - k % usable))
              r
              (distribute-ladder (k % usable) fuel base step 0 (usable - k % usable) usable
                some_step enough (omega arith)))))

abbrev pub sum : List ℕ → ℕ
sum [] = 0
sum (x ∷ xs) = x + sum xs

-- The split of `k` steps into `n` pieces, said directly: each piece has `k / n` steps, and the
-- first `k % n` pieces have one more.
abbrev pub pieces : ℕ → ℕ → ℕ → List ℕ
pieces k n step = if ltb n 1 then [] else ladder (k / n * step) step (k % n) (n - k % n)

-- How many pieces there are: no more than asked for, and no more than the minimum allows.
abbrev pub piece_count : ℕ → ℕ → ℕ → ℕ → ℕ
piece_count t count minimum step = min count (t / step * step / minimum)

split_quantized-pieces :
    (k count minimum step : ℕ)
    → 0 < minimum
    → 0 < step
    → split_quantized (k * step) count minimum step
      ≡ ok (pieces k (min count (k * step / minimum)) step)
split_quantized-pieces k count minimum step pm ps =
    let m : (minimum == 0) ≡ false = ground arith in
    elim (Bool-cases (ltb (k * step) minimum)) [
      | inl below ↦
          let none : k * step / minimum ≡ 0 = div-eq_of_lt (ground arith) in
          let no_count : min count 0 ≡ 0 = omega arith in rw (below, none, no_count)
      | inr enough ↦ elim (Bool-cases (ltb (min count (k * step / minimum)) 1)) [
        | inl no_piece ↦ rw (enough, m, no_piece)
        | inr some_piece ↦
            rw (enough, m, some_piece)
              (ap ok (shares-ladder (min count (k * step / minimum)) k step (ground arith) ps))
      ]
    ]

-- For a positive size, count, minimum and step, the split is the even one: of the size in whole
-- steps, as many pieces as the count and the minimum allow, the odd steps on the first pieces; it
-- is empty where the size does not reach the minimum.
pub split_size-pieces :
    (t count minimum step : ℕ)
    → 0 < t
    → 0 < count
    → 0 < minimum
    → 0 < step
    → split_size (pos t) count minimum step
      ≡ ok (pieces (t / step) (piece_count t count minimum step) step)
unfolding split_size quantize_floor
split_size-pieces t count minimum step pt pc pm ps =
    ground (arith, split_quantized-pieces (t / step) count minimum step pm ps)
