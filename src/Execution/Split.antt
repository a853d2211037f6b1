-- ===== src/Execution/Split.antt =====
-- arc/domain/money.py `quantize_floor` and arc/execution/submit.py `split_size`. Quantities are
-- whole numbers of the unit 10^-6. The venue's minimum and step are not negative. A share of the
-- total that is no whole number of units is cut to one: its floor to the step is the same.
pub mod Ladder
pub mod Laws
pub mod Sizes
use lufy.Prelude.{
  ℕ, zero, suc, ◌+◌, ◌-◌, ◌*◌, ◌/◌, ◌%◌, min, List, [], ◌∷◌, replicate, Result, ok, err, ltb, leb,
  ◌==◌, if◌then◌else◌,
}
use lufy.Prelude.Int.{pos, pos_part, leb_ℤ}
use lufy.Domain.Models.{Decimal}

-- `quantize_floor` on a quantity that is not negative, with a positive step
unfoldable pub quantize_floor : ℕ → ℕ → ℕ
quantize_floor value step = value / step * step

-- `SplitError` in its two uses, and what the decimal arithmetic raises: a step that is not
-- positive, and a division by a minimum of zero.
pub data SplitError : Type 0 where
  bad_count bad_total bad_step zero_minimum : SplitError

-- `sizes[index] += step`
abbrev pub add_at : ℕ → ℕ → List ℕ → List ℕ
add_at i x [] = []
add_at zero x (y ∷ ys) = (y + x) ∷ ys
add_at (suc i) x (y ∷ ys) = y ∷ add_at i x ys

-- `while remainder >= size_step`. Each round takes a step of at least one unit from the remainder,
-- so that the remainder itself is enough fuel.
unfoldable pub distribute : ℕ → ℕ → ℕ → ℕ → ℕ → List ℕ → List ℕ
distribute zero step usable index remainder sizes = sizes
distribute (suc fuel) step usable index remainder sizes =
    let rest =
      distribute fuel step usable ((index + 1) % usable) (remainder - step)
        (add_at index step sizes) in
    if leb step remainder then rest else sizes

abbrev pub shares : ℕ → ℕ → ℕ → List ℕ
shares usable total step =
    let base = quantize_floor (total / usable) step in
    let remainder = total - base * usable in
    distribute remainder step usable 0 remainder (replicate usable base)

abbrev pub split_quantized : ℕ → ℕ → ℕ → ℕ → Result SplitError (List ℕ)
split_quantized total count minimum step =
    if ltb total minimum
    then ok []
    else if minimum == 0
    then err SplitError.zero_minimum
    else let usable = min count (total / minimum) in
      if ltb usable 1 then ok [] else ok (shares usable total step)

unfoldable pub split_size : Decimal → ℕ → ℕ → ℕ → Result SplitError (List ℕ)
unfolding distribute quantize_floor
split_size total count minimum step =
    if ltb count 1
    then err SplitError.bad_count
    else if leb_ℤ total (pos 0)
    then err SplitError.bad_total
    else if step == 0
    then err SplitError.bad_step
    else split_quantized (quantize_floor (pos_part total) step) count minimum step
