-- ===== src/Domain/Money.antt =====
-- arc/domain/money.py: prices on the venue's tick ladder. The tick is a positive number of units.
use lufy.Prelude.{ℕ, suc, ◌+◌, ◌-◌, ◌*◌, ◌/◌}
use lufy.Prelude.Int.{pos, negsuc, ◌-ℤ◌}
use lufy.Domain.Models.{Decimal}

-- `quantize_price`: the floor, towards minus infinity, to a multiple of the tick
unfoldable pub quantize_price : Decimal → ℕ → Decimal
quantize_price (pos value) tick = pos (value / tick * tick)
quantize_price (negsuc n) tick = pos 0 -ℤ pos ((suc n + (tick - 1)) / tick * tick)
