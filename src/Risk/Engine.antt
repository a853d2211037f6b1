-- ===== src/Risk/Engine.antt =====
-- arc/risk/engine.py: `RiskEngine.evaluate`. The look-up of a gate by its name is `run_gate`.
use lufy.Prelude.{List, [], ◌∷◌, if◌then◌else◌}
use lufy.Risk.Context.{Gate, gate_order, RiskContext, RiskVerdict, denied, allowed_verdict}
use lufy.Risk.Gates

-- `getattr(self, f"_gate_{name}")`
unfoldable pub run_gate : Gate → RiskContext → RiskVerdict
run_gate Gate.trading_enabled = Gates.gate_trading_enabled
run_gate Gate.execution_armed = Gates.gate_execution_armed
run_gate Gate.market_phase = Gates.gate_market_phase
run_gate Gate.window_triggered = Gates.gate_window_triggered
run_gate Gate.price_to_beat = Gates.gate_price_to_beat
run_gate Gate.strategy_enabled = Gates.gate_strategy_enabled
run_gate Gate.duplicate_intent = Gates.gate_duplicate_intent
run_gate Gate.trade_quota = Gates.gate_trade_quota
run_gate Gate.opposing_direction = Gates.gate_opposing_direction
run_gate Gate.position_limit = Gates.gate_position_limit
run_gate Gate.entry_band = Gates.gate_entry_band
run_gate Gate.exchange_minimum = Gates.gate_exchange_minimum
run_gate Gate.loss_limits = Gates.gate_loss_limits
run_gate Gate.feed_freshness = Gates.gate_feed_freshness
run_gate Gate.runtime_health = Gates.gate_runtime_health
run_gate Gate.supervisor_ready = Gates.gate_supervisor_ready
run_gate Gate.wallet_connected = Gates.gate_wallet_connected
run_gate Gate.orphan_orders = Gates.gate_orphan_orders
run_gate Gate.available_balance = Gates.gate_available_balance

-- The loop over the gates, which returns at the first denial.
unfoldable pub evaluate_from : List Gate → RiskContext → RiskVerdict
evaluate_from [] c = record allowed_verdict { trace_id = c.trace_id }
evaluate_from (name ∷ rest) c =
    let verdict = run_gate name c in
    if denied verdict then record verdict { trace_id = c.trace_id } else evaluate_from rest c

unfoldable pub evaluate : RiskContext → RiskVerdict
unfolding evaluate_from
evaluate c = evaluate_from gate_order c
