-- ===== src/Risk/Limits.antt =====
-- arc/risk/limits.py: the bounds that the gates evaluate against.
use lufy.Prelude.{ℕ, Bool}
use lufy.Domain.Models.{Decimal}

pub record RiskLimits : Type 0 where
  pub max_trades_per_market : ℕ
  pub max_concurrent_positions : ℕ
  pub max_daily_loss_usd : Decimal
  pub max_consecutive_losses : ℕ
  pub entry_price_min : Decimal
  pub entry_price_max : Decimal
  pub min_tradable_size : Decimal
  pub allow_opposing_directions : Bool
