-- ===== src/Risk/Tests.antt =====
-- A context that every gate admits, runs of the gates, and the theorems at these inputs.
use lufy.Prelude.{◌≡◌, refl, ◌↔◌, ◌+◌, length, true, false, none, some, []}
use lufy.Prelude.Int.{pos, ◌*ℤ◌}
use lufy.Domain.Enums.{Direction, MarketPhase, SettlementSpecStatus}
use lufy.Risk.Context.{Gate, gate_order, RiskContext, gate_id, Gate-discrete}
use lufy.Risk.Engine.{run_gate, evaluate}
use lufy.Risk.Gates
use lufy.Risk.Admission.{IsAdmissible, evaluate-allowed_iff}
use lufy.Risk.Denial.{FirstFailure, evaluate-FirstFailure}

abbrev admissible : RiskContext
admissible = record {
  trading_enabled = true;
  spec_status = SettlementSpecStatus.verified;
  paused = false;
  execution_armed = true;
  phase = MarketPhase.active;
  window_triggered = true;
  ptb = none;
  strategy_enabled = true;
  intent_exists = false;
  quota_used = 1;
  quota_reserved = 1;
  max_trades_per_market = 3;
  direction = Direction.up;
  holds_up = true;
  holds_down = false;
  allow_opposing_directions = false;
  open_positions = 1;
  max_concurrent_positions = 2;
  limit_price = pos 850000;
  size = pos 10000000;
  entry_price_min = pos 550000;
  entry_price_max = pos 850000;
  min_tradable_size = pos 5000000;
  daily_loss_usd = pos 0;
  consecutive_losses = 0;
  max_daily_loss_usd = pos 0;
  max_consecutive_losses = 3;
  feed_blocked = false;
  clock_drift_critical = false;
  runtime_healthy = true;
  supervisor_ready = true;
  wallet_connected = true;
  orphan_orders = [];
  available_balance = some (pos 8500000);
  trace_id = [];
}

-- The same with a cent less in the account, so that the last gate refuses.
abbrev short_of_money : RiskContext
short_of_money = record admissible { available_balance = some (pos 8490000) }

short_of_money-denied : (evaluate short_of_money).allowed ≡ false
unfolding evaluate Gates.gate_trading_enabled Gates.gate_execution_armed Gates.gate_market_phase
    Gates.gate_window_triggered Gates.gate_price_to_beat Gates.gate_strategy_enabled
    Gates.gate_duplicate_intent Gates.gate_trade_quota Gates.gate_opposing_direction
    Gates.gate_position_limit Gates.gate_entry_band Gates.gate_exchange_minimum
    Gates.gate_loss_limits Gates.gate_feed_freshness Gates.gate_runtime_health
    Gates.gate_supervisor_ready Gates.gate_wallet_connected Gates.gate_orphan_orders
    Gates.gate_available_balance run_gate ◌*ℤ◌
short_of_money-denied = refl

gate_id-available_balance : gate_id Gate.available_balance ≡ some 19
unfolding gate_id Gate-discrete
gate_id-available_balance = refl

evaluate-allowed_iff_example : ((evaluate admissible).allowed ≡ true) ↔ IsAdmissible admissible
evaluate-allowed_iff_example = evaluate-allowed_iff admissible

evaluate-FirstFailure_example :
    (f : FirstFailure gate_order short_of_money (evaluate short_of_money)) × (gate_id f.culprit
      ≡ some (1 + length f.before))
evaluate-FirstFailure_example = evaluate-FirstFailure short_of_money short_of_money-denied
