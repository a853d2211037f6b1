-- ===== src/Risk/Conditions.antt =====
-- What each gate asks of a context, written apart from the gates, and that each gate asks it.
use lufy.Prelude.{◌+◌, ◌<◌, ◌≡◌, refl, true, false, none, some, [], Option, arith}
use lufy.Prelude.Int.{pos, ◌*ℤ◌, ◌≤ℤ◌, ◌<ℤ◌}
use lufy.Domain.Enums.{MarketPhase, SettlementSpecStatus, opposite}
use lufy.Domain.Models.{Decimal, unit}
use lufy.Risk.Context.{Gate, RiskContext}
use lufy.Risk.Gates
use lufy.Risk.Gates.{holds}
use lufy.Risk.Engine.{run_gate}

-- The balance, where one is published, covers the price of the order.
abbrev pub Covers : Option Decimal → Decimal → Decimal → Type 0
Covers none price size = Unit
Covers (some balance) price size = price *ℤ size ≤ℤ balance *ℤ pos unit

abbrev pub Passes : Gate → RiskContext → Type 0
Passes Gate.trading_enabled c =
    (c.spec_status ≡ SettlementSpecStatus.verified)
    × (c.paused ≡ false)
    × (c.trading_enabled ≡ true)
Passes Gate.execution_armed c = c.execution_armed ≡ true
Passes Gate.market_phase c = c.phase ≡ MarketPhase.active
Passes Gate.window_triggered c = c.window_triggered ≡ true
Passes Gate.price_to_beat c = Unit
Passes Gate.strategy_enabled c = c.strategy_enabled ≡ true
Passes Gate.duplicate_intent c = c.intent_exists ≡ false
Passes Gate.trade_quota c = c.quota_used + c.quota_reserved < c.max_trades_per_market
Passes Gate.opposing_direction c =
    c.allow_opposing_directions ≡ false → holds c (opposite c.direction) ≡ false
Passes Gate.position_limit c = c.open_positions < c.max_concurrent_positions
Passes Gate.entry_band c =
    (c.entry_price_min ≤ℤ c.limit_price) × (c.limit_price ≤ℤ c.entry_price_max)
Passes Gate.exchange_minimum c = (c.min_tradable_size ≤ℤ c.size) × (pos 0 <ℤ c.size)
Passes Gate.loss_limits c =
    (pos 0 <ℤ c.max_daily_loss_usd → c.daily_loss_usd <ℤ c.max_daily_loss_usd)
    × (0 < c.max_consecutive_losses → c.consecutive_losses < c.max_consecutive_losses)
Passes Gate.feed_freshness c = c.feed_blocked ≡ false
Passes Gate.runtime_health c = (c.clock_drift_critical ≡ false) × (c.runtime_healthy ≡ true)
Passes Gate.supervisor_ready c = c.supervisor_ready ≡ true
Passes Gate.wallet_connected c = c.wallet_connected ≡ true
Passes Gate.orphan_orders c = c.orphan_orders ≡ []
Passes Gate.available_balance c = Covers c.available_balance c.limit_price c.size

-- A gate that allows has its condition.
pub run_gate-Passes : (g : Gate) (c : RiskContext) → (run_gate g c).allowed ≡ true → Passes g c
unfolding run_gate Gates.gate_trading_enabled Gates.gate_execution_armed Gates.gate_market_phase
    Gates.gate_window_triggered Gates.gate_strategy_enabled Gates.gate_duplicate_intent
    Gates.gate_trade_quota Gates.gate_opposing_direction Gates.gate_position_limit
    Gates.gate_entry_band Gates.gate_exchange_minimum Gates.gate_loss_limits
    Gates.gate_feed_freshness Gates.gate_runtime_health Gates.gate_supervisor_ready
    Gates.gate_wallet_connected Gates.gate_orphan_orders Gates.gate_available_balance
run_gate-Passes Gate.price_to_beat c h = tt
run_gate-Passes _ c h = ground arith

-- A gate whose condition holds allows.
pub Passes-run_gate : (g : Gate) (c : RiskContext) → Passes g c → (run_gate g c).allowed ≡ true
unfolding run_gate Gates.gate_trading_enabled Gates.gate_execution_armed Gates.gate_market_phase
    Gates.gate_window_triggered Gates.gate_price_to_beat Gates.gate_strategy_enabled
    Gates.gate_duplicate_intent Gates.gate_trade_quota Gates.gate_opposing_direction
    Gates.gate_position_limit Gates.gate_entry_band Gates.gate_exchange_minimum
    Gates.gate_loss_limits Gates.gate_feed_freshness Gates.gate_runtime_health
    Gates.gate_supervisor_ready Gates.gate_wallet_connected Gates.gate_orphan_orders
    Gates.gate_available_balance
Passes-run_gate Gate.price_to_beat c h = refl
Passes-run_gate _ c h = ground arith
