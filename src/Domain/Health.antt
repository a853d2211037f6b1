-- ===== src/Domain/Health.antt =====
-- arc/domain/health.py: the snapshot of the process that the risk gates read. The fields that only
-- feed a detail string are left out.
use lufy.Prelude.{ℕ, Bool, Option, List, Text}
use lufy.Domain.Enums.{SettlementSpecStatus}
use lufy.Domain.Models.{Decimal}

pub record RuntimeHealth : Type 0 where
  pub trading_enabled : Bool
  pub spec_status : SettlementSpecStatus
  pub execution_armed : Bool
  pub paused : Bool
  pub feed_blocked : Bool
  pub clock_drift_critical : Bool
  pub healthy : Bool
  pub open_positions : ℕ
  pub daily_loss_usd : Decimal
  pub consecutive_losses : ℕ
  pub supervisor_ready : Bool
  pub wallet_connected : Bool
  pub orphan_orders : List Text
  pub available_balance : Option Decimal
