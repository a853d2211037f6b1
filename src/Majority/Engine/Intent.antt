-- ===== src/Majority/Engine/Intent.antt =====
-- arc/majority/engine.py: what `_submit` builds before it touches the store: the price, the intent,
-- and the risk layer's context.
use lufy.Prelude.{ℕ, true, false, not, ◌||◌, Option, none, some, or_else, if◌then◌else◌}
use lufy.Prelude.Int.{pos, leb_ℤ, ltb_ℤ}
use lufy.Domain.Enums.{Direction}
use lufy.Domain.Models.{Decimal, ExecutionIntent}
use lufy.Domain.Market.{directions_held}
use lufy.Domain.Money.{quantize_price}
use lufy.Execution.Intents.{IntentRow, has_intent}
use lufy.Risk.Limits.{RiskLimits}
use lufy.Risk.Context.{RiskContext}
use lufy.Majority.Trigger.{BookSnapshot, usable}
use lufy.Majority.State.{MajorityMarketState}
use lufy.Majority.Config.{MajorityWindowConfig, majority_engine, window_for}
use lufy.Majority.Identity.{majority_intent_id_for, majority_trace_id_for}
use lufy.Majority.Engine.{Setup, Pass}
use lufy.Majority.Engine.Gate.{side_bid}
use lufy.Prelude.{List}

-- `_limits_from_window`
abbrev pub limits_from_window : MajorityWindowConfig → RiskLimits
limits_from_window w = record {
  max_trades_per_market = 1;
  max_concurrent_positions = 999;
  max_daily_loss_usd = pos 0;
  max_consecutive_losses = 0;
  entry_price_min = w.entry_price_min;
  entry_price_max = w.entry_price_max;
  min_tradable_size = w.shares;
  allow_opposing_directions = false;
}

-- The price within the band of the window, where the window is configured.
abbrev pub banded : Decimal → Option MajorityWindowConfig → Option Decimal
banded price none = none
banded price (some w) =
    if ltb_ℤ price w.entry_price_min || ltb_ℤ w.entry_price_max price then none else some price

abbrev pub priced : ℕ → Option MajorityWindowConfig → Option Decimal → Option Decimal
priced tick w none = none
priced tick w (some bid) =
    let price = quantize_price bid tick in if leb_ℤ price (pos 0) then none else banded price w

abbrev pub price_of_book :
    ℕ → Option MajorityWindowConfig → Direction → Option BookSnapshot → Option Decimal
price_of_book tick w d none = none
price_of_book tick w d (some snapshot) =
    if not snapshot.fresh || not (usable snapshot)
    then none
    else priced tick w (side_bid d snapshot)

-- `_live_entry_price`
unfoldable pub live_entry_price : Setup → MajorityMarketState → Direction → Option Decimal
unfolding quantize_price window_for
live_entry_price e s d =
    price_of_book e.tick_size (window_for s.execution_window_seconds e.config) d s.decision_snapshot

-- the price of the order, by the combined switch
unfoldable pub entry_price :
    Setup → MajorityWindowConfig → MajorityMarketState → Direction → Option Decimal
unfolding live_entry_price
entry_price e w s d =
    if e.config.trigger_limit_enabled then some w.target_limit_price else live_entry_price e s d

unfoldable pub intent_of :
    Setup
    → MajorityWindowConfig
    → Pass
    → MajorityMarketState
    → Direction
    → Decimal
    → ExecutionIntent
unfolding majority_intent_id_for majority_trace_id_for
intent_of e w p s direction limit_price = record {
  market_slug = p.market.slug;
  offset_seconds = w.execution_window_seconds;
  direction = direction;
  signal_twap = pos 0;
  locked_trigger = or_else s.fired_level (pos 0);
  created_at = p.now;
  intent_id = majority_intent_id_for p.market.slug w.execution_window_seconds;
  trace_id = majority_trace_id_for e.digest p.market.slug w.execution_window_seconds;
  opening_twap = pos 0;
  ptb = or_else p.market.ptb (pos 0);
  buffer = w.buffer;
  limit_price = limit_price;
  size = w.shares;
  strategy_id = majority_engine;
  close_ts = p.market.close_ts;
}

-- `_risk_context`
unfoldable pub risk_context :
    Setup → MajorityWindowConfig → Pass → ExecutionIntent → List IntentRow → RiskContext
unfolding has_intent directions_held majority_trace_id_for
risk_context e w p i rows =
    let limits : RiskLimits = limits_from_window w in
    record {
      trading_enabled = p.health.trading_enabled;
      spec_status = p.health.spec_status;
      paused = p.health.paused;
      execution_armed = p.health.execution_armed;
      phase = p.market.phase;
      window_triggered = true;
      ptb = p.market.ptb;
      strategy_enabled = true;
      intent_exists = has_intent p.market.slug w.execution_window_seconds majority_engine rows;
      quota_used = 0;
      quota_reserved = 0;
      max_trades_per_market = limits.max_trades_per_market;
      direction = i.direction;
      holds_up = directions_held p.market Direction.up;
      holds_down = directions_held p.market Direction.down;
      allow_opposing_directions = limits.allow_opposing_directions;
      open_positions = p.health.open_positions;
      max_concurrent_positions = limits.max_concurrent_positions;
      limit_price = i.limit_price;
      size = i.size;
      entry_price_min = limits.entry_price_min;
      entry_price_max = limits.entry_price_max;
      min_tradable_size = limits.min_tradable_size;
      daily_loss_usd = p.health.daily_loss_usd;
      consecutive_losses = p.health.consecutive_losses;
      max_daily_loss_usd = limits.max_daily_loss_usd;
      max_consecutive_losses = limits.max_consecutive_losses;
      feed_blocked = p.health.feed_blocked;
      clock_drift_critical = p.health.clock_drift_critical;
      runtime_healthy = p.health.healthy;
      supervisor_ready = p.health.supervisor_ready;
      wallet_connected = p.health.wallet_connected;
      orphan_orders = p.health.orphan_orders;
      available_balance = p.health.available_balance;
      trace_id = majority_trace_id_for e.digest p.market.slug w.execution_window_seconds;
    }
