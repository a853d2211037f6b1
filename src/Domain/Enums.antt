-- ===== src/Domain/Enums.antt =====
-- arc/domain/enums.py: the enumerations, with their constructors in the source's order.
use lufy.Prelude.{Bool, true, false, Text, codes}

pub data Mode : Type 0 where
  v1 v2 : Mode

pub data Direction : Type 0 where
  up down : Direction

-- `Direction.opposite`
abbrev pub opposite : Direction → Direction
opposite Direction.up = Direction.down
opposite Direction.down = Direction.up

abbrev pub same_direction : Direction → Direction → Bool
same_direction Direction.up Direction.up = true
same_direction Direction.down Direction.down = true
same_direction _ _ = false

pub data MarketPhase : Type 0 where
  discovered active cancelling settling settled dead : MarketPhase

pub data WindowState : Type 0 where
  pending frozen fired expired no_direction : WindowState

pub data OrderState : Type 0 where
  pending submitted partial filled cancelled expired rejected indeterminate : OrderState

abbrev pub same_state : OrderState → OrderState → Bool
same_state OrderState.pending OrderState.pending = true
same_state OrderState.submitted OrderState.submitted = true
same_state OrderState.partial OrderState.partial = true
same_state OrderState.filled OrderState.filled = true
same_state OrderState.cancelled OrderState.cancelled = true
same_state OrderState.expired OrderState.expired = true
same_state OrderState.rejected OrderState.rejected = true
same_state OrderState.indeterminate OrderState.indeterminate = true
same_state _ _ = false

-- membership in `LIVE_ORDER_STATES`
abbrev pub in_live_order_states : OrderState → Bool
in_live_order_states OrderState.pending = true
in_live_order_states OrderState.submitted = true
in_live_order_states OrderState.partial = true
in_live_order_states OrderState.indeterminate = true
in_live_order_states _ = false

-- membership in `TERMINAL_ORDER_STATES`
abbrev pub in_terminal_order_states : OrderState → Bool
in_terminal_order_states OrderState.filled = true
in_terminal_order_states OrderState.cancelled = true
in_terminal_order_states OrderState.expired = true
in_terminal_order_states OrderState.rejected = true
in_terminal_order_states _ = false

-- `ORDER_STATE_DISPLAY`, with the warning sign of the last label left off
abbrev pub order_state_display : OrderState → Text
order_state_display OrderState.pending = codes "Working"
order_state_display OrderState.submitted = codes "Working"
order_state_display OrderState.partial = codes "Partial"
order_state_display OrderState.filled = codes "Filled"
order_state_display OrderState.cancelled = codes "Cancelled"
order_state_display OrderState.expired = codes "Cancelled"
order_state_display OrderState.rejected = codes "Rejected"
order_state_display OrderState.indeterminate = codes "Unknown"

pub data Outcome : Type 0 where
  up down unresolved : Outcome

pub data DenialReason : Type 0 where
  trading_disabled_spec_unverified execution_not_armed trading_paused : DenialReason
  market_cancelling market_dead market_not_active : DenialReason
  ptb_unavailable window_not_triggered strategy_disabled : DenialReason
  entry_price_limit entry_price_below_min size_below_exchange_minimum : DenialReason
  trade_quota_exhausted opposing_direction_blocked position_limit_reached : DenialReason
  loss_limit_reached duplicate_intent wallet_disconnected insufficient_balance : DenialReason
  orphan_orders_unreconciled runtime_supervisor_not_ready feed_stale : DenialReason
  clock_drift_critical runtime_unhealthy no_book_liquidity : DenialReason

pub data SettlementSpecStatus : Type 0 where
  unverified verified failed : SettlementSpecStatus

-- `DEFAULT_ENGINE`
abbrev pub default_engine : Text
default_engine = codes "TWAP"

-- `POST_ONLY_WOULD_CROSS_REASON`
abbrev pub post_only_would_cross_reason : Text
post_only_would_cross_reason = codes "POST_ONLY_WOULD_CROSS"
