-- ===== src/Risk/Context.antt =====
-- arc/risk/engine.py: `RiskContext`, `RiskVerdict`, `GATE_ORDER` and the gate identifiers.
-- The prose fields that only feed a detail string are left out, and so is the detail.
use lufy.Prelude.{ℕ, ◌+◌, Bool, true, false, not, Option, none, some, List, [], ◌∷◌, Text}
use lufy.Domain.Enums.{Direction, MarketPhase, DenialReason, SettlementSpecStatus}
use lufy.Domain.Models.{Decimal}

-- The gate names, as in `GATE_ORDER`.
pub data Gate : Type 0 where
  trading_enabled execution_armed market_phase window_triggered price_to_beat : Gate
  strategy_enabled duplicate_intent trade_quota opposing_direction position_limit : Gate
  entry_band exchange_minimum loss_limits feed_freshness runtime_health : Gate
  supervisor_ready wallet_connected orphan_orders available_balance : Gate

-- `GATE_ORDER`
abbrev pub gate_order : List Gate
gate_order =
    Gate.trading_enabled ∷ Gate.execution_armed ∷ Gate.market_phase ∷ Gate.window_triggered
    ∷ Gate.price_to_beat ∷ Gate.strategy_enabled ∷ Gate.duplicate_intent ∷ Gate.trade_quota
    ∷ Gate.opposing_direction ∷ Gate.position_limit ∷ Gate.entry_band ∷ Gate.exchange_minimum
    ∷ Gate.loss_limits ∷ Gate.feed_freshness ∷ Gate.runtime_health ∷ Gate.supervisor_ready
    ∷ Gate.wallet_connected ∷ Gate.orphan_orders ∷ Gate.available_balance ∷ []

pub record RiskContext : Type 0 where
  pub trading_enabled : Bool
  pub spec_status : SettlementSpecStatus
  pub paused : Bool
  pub execution_armed : Bool
  pub phase : MarketPhase
  pub window_triggered : Bool
  pub ptb : Option Decimal
  pub strategy_enabled : Bool
  pub intent_exists : Bool
  pub quota_used : ℕ
  pub quota_reserved : ℕ
  pub max_trades_per_market : ℕ
  pub direction : Direction
  -- `directions_held`, a set: membership of each of the two directions
  pub holds_up : Bool
  pub holds_down : Bool
  pub allow_opposing_directions : Bool
  pub open_positions : ℕ
  pub max_concurrent_positions : ℕ
  pub limit_price : Decimal
  pub size : Decimal
  pub entry_price_min : Decimal
  pub entry_price_max : Decimal
  pub min_tradable_size : Decimal
  pub daily_loss_usd : Decimal
  pub consecutive_losses : ℕ
  pub max_daily_loss_usd : Decimal
  pub max_consecutive_losses : ℕ
  pub feed_blocked : Bool
  pub clock_drift_critical : Bool
  pub runtime_healthy : Bool
  pub supervisor_ready : Bool
  pub wallet_connected : Bool
  pub orphan_orders : List Text
  pub available_balance : Option Decimal
  pub trace_id : Text

pub record RiskVerdict : Type 0 where
  pub allowed : Bool
  pub gate : Option Gate
  pub reason : Option DenialReason
  pub trace_id : Text

-- `RiskVerdict.denied`
abbrev pub denied : RiskVerdict → Bool
denied v = not v.allowed

-- `_ALLOWED`
abbrev pub allowed_verdict : RiskVerdict
allowed_verdict = record { allowed = true; gate = none; reason = none; trace_id = [] }

-- A verdict that refuses, as each gate builds it.
abbrev pub deny : Gate → DenialReason → RiskVerdict
deny g r = record { allowed = false; gate = some g; reason = some r; trace_id = [] }

unfoldable pub Gate-discrete : Discrete Gate
Gate-discrete = hlevel

-- `GATE_IDS`: the number behind the G of an identifier counts the names of a list from 1.
unfoldable pub number_of : Gate → ℕ → List Gate → Option ℕ
number_of g n [] = none
number_of g n (name ∷ rest) = elim (Gate-discrete g name) [
  | yes _ ↦ some n
  | no _ ↦ number_of g (n + 1) rest
]

-- `gate_id`, the number alone
unfoldable pub gate_id : Gate → Option ℕ
unfolding number_of
gate_id g = number_of g 1 gate_order
