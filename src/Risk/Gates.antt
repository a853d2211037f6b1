-- ===== src/Risk/Gates.antt =====
-- arc/risk/engine.py: the methods `_gate_…` of `RiskEngine`, each with its source's conditions in
-- its source's order.
use lufy.Prelude.{
  ◌+◌, Bool, true, false, not, ◌&&◌, ◌||◌, Option, none, some, [], ◌∷◌, List, Text, ltb, leb,
  if◌then◌else◌,
}
use lufy.Prelude.Int.{pos, ◌*ℤ◌, ltb_ℤ, leb_ℤ}
use lufy.Domain.Enums.{Direction, MarketPhase, DenialReason, SettlementSpecStatus, opposite}
use lufy.Domain.Models.{Decimal, unit}
use lufy.Risk.Context.{Gate, RiskContext, RiskVerdict, allowed_verdict, deny}

abbrev pub is_verified : SettlementSpecStatus → Bool
is_verified SettlementSpecStatus.verified = true
is_verified _ = false

unfoldable pub gate_trading_enabled : RiskContext → RiskVerdict
gate_trading_enabled c =
    if not (is_verified c.spec_status)
    then deny Gate.trading_enabled DenialReason.trading_disabled_spec_unverified
    else if c.paused
    then deny Gate.trading_enabled DenialReason.trading_paused
    else if not c.trading_enabled
    then deny Gate.trading_enabled DenialReason.trading_disabled_spec_unverified
    else allowed_verdict

unfoldable pub gate_execution_armed : RiskContext → RiskVerdict
gate_execution_armed c =
    if not c.execution_armed
    then deny Gate.execution_armed DenialReason.execution_not_armed
    else allowed_verdict

-- The chain of phase tests, by cases on the phase.
abbrev pub phase_verdict : MarketPhase → RiskVerdict
phase_verdict MarketPhase.cancelling = deny Gate.market_phase DenialReason.market_cancelling
phase_verdict MarketPhase.dead = deny Gate.market_phase DenialReason.market_dead
phase_verdict MarketPhase.active = allowed_verdict
phase_verdict _ = deny Gate.market_phase DenialReason.market_not_active

unfoldable pub gate_market_phase : RiskContext → RiskVerdict
gate_market_phase c = phase_verdict c.phase

unfoldable pub gate_window_triggered : RiskContext → RiskVerdict
gate_window_triggered c =
    if not c.window_triggered
    then deny Gate.window_triggered DenialReason.window_not_triggered
    else allowed_verdict

-- The gate allows whatever the price to beat is.
unfoldable pub gate_price_to_beat : RiskContext → RiskVerdict
gate_price_to_beat c = allowed_verdict

unfoldable pub gate_strategy_enabled : RiskContext → RiskVerdict
gate_strategy_enabled c =
    if not c.strategy_enabled
    then deny Gate.strategy_enabled DenialReason.strategy_disabled
    else allowed_verdict

unfoldable pub gate_duplicate_intent : RiskContext → RiskVerdict
gate_duplicate_intent c =
    if c.intent_exists
    then deny Gate.duplicate_intent DenialReason.duplicate_intent
    else allowed_verdict

unfoldable pub gate_trade_quota : RiskContext → RiskVerdict
gate_trade_quota c =
    let committed = c.quota_used + c.quota_reserved in
    if leb c.max_trades_per_market committed
    then deny Gate.trade_quota DenialReason.trade_quota_exhausted
    else allowed_verdict

-- `direction in c.directions_held`
abbrev pub holds : RiskContext → Direction → Bool
holds c Direction.up = c.holds_up
holds c Direction.down = c.holds_down

unfoldable pub gate_opposing_direction : RiskContext → RiskVerdict
gate_opposing_direction c =
    if c.allow_opposing_directions
    then allowed_verdict
    else if holds c (opposite c.direction)
    then deny Gate.opposing_direction DenialReason.opposing_direction_blocked
    else allowed_verdict

unfoldable pub gate_position_limit : RiskContext → RiskVerdict
gate_position_limit c =
    if leb c.max_concurrent_positions c.open_positions
    then deny Gate.position_limit DenialReason.position_limit_reached
    else allowed_verdict

unfoldable pub gate_entry_band : RiskContext → RiskVerdict
gate_entry_band c =
    if ltb_ℤ c.entry_price_max c.limit_price
    then deny Gate.entry_band DenialReason.entry_price_limit
    else if ltb_ℤ c.limit_price c.entry_price_min
    then deny Gate.entry_band DenialReason.entry_price_below_min
    else allowed_verdict

unfoldable pub gate_exchange_minimum : RiskContext → RiskVerdict
gate_exchange_minimum c =
    if ltb_ℤ c.size c.min_tradable_size || leb_ℤ c.size (pos 0)
    then deny Gate.exchange_minimum DenialReason.size_below_exchange_minimum
    else allowed_verdict

unfoldable pub gate_loss_limits : RiskContext → RiskVerdict
gate_loss_limits c =
    if ltb_ℤ (pos 0) c.max_daily_loss_usd && leb_ℤ c.max_daily_loss_usd c.daily_loss_usd
    then deny Gate.loss_limits DenialReason.loss_limit_reached
    else if ltb 0 c.max_consecutive_losses && leb c.max_consecutive_losses c.consecutive_losses
    then deny Gate.loss_limits DenialReason.loss_limit_reached
    else allowed_verdict

unfoldable pub gate_feed_freshness : RiskContext → RiskVerdict
gate_feed_freshness c =
    if c.feed_blocked then deny Gate.feed_freshness DenialReason.feed_stale else allowed_verdict

unfoldable pub gate_runtime_health : RiskContext → RiskVerdict
gate_runtime_health c =
    if c.clock_drift_critical
    then deny Gate.runtime_health DenialReason.clock_drift_critical
    else if not c.runtime_healthy
    then deny Gate.runtime_health DenialReason.runtime_unhealthy
    else allowed_verdict

unfoldable pub gate_supervisor_ready : RiskContext → RiskVerdict
gate_supervisor_ready c =
    if not c.supervisor_ready
    then deny Gate.supervisor_ready DenialReason.runtime_supervisor_not_ready
    else allowed_verdict

unfoldable pub gate_wallet_connected : RiskContext → RiskVerdict
gate_wallet_connected c =
    if not c.wallet_connected
    then deny Gate.wallet_connected DenialReason.wallet_disconnected
    else allowed_verdict

-- `if c.orphan_orders`: a tuple is true when it is not empty
abbrev pub has_orphans : List Text → Bool
has_orphans [] = false
has_orphans (_ ∷ _) = true

unfoldable pub gate_orphan_orders : RiskContext → RiskVerdict
gate_orphan_orders c =
    if has_orphans c.orphan_orders
    then deny Gate.orphan_orders DenialReason.orphan_orders_unreconciled
    else allowed_verdict

-- The cost is a product of two amounts, so it counts units of 10^-12 and so does the balance here.
abbrev pub balance_verdict : RiskContext → Option Decimal → RiskVerdict
balance_verdict c none = allowed_verdict
balance_verdict c (some balance) =
    let cost = c.limit_price *ℤ c.size in
    if ltb_ℤ (balance *ℤ pos unit) cost
    then deny Gate.available_balance DenialReason.insufficient_balance
    else allowed_verdict

unfoldable pub gate_available_balance : RiskContext → RiskVerdict
gate_available_balance c = balance_verdict c c.available_balance
