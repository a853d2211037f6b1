-- ===== src/Majority/Engine/Gate.antt =====
-- arc/majority/engine.py: `_gate_direction`, the last check of a proposal before the store and the
-- venue. The first check that fails is its answer; the detail of the answer is left out.
pub mod Passed
use lufy.Prelude.{
  ℕ, Bool, true, false, not, ◌&&◌, ◌||◌, Option, none, some, is_some, Text, text_eq, ◌==◌,
  if◌then◌else◌,
}
use lufy.Prelude.Int.{pos, leb_ℤ, eqb_ℤ}
use lufy.Domain.Enums.{Direction, same_direction}
use lufy.Domain.Models.{Decimal, ExecutionIntent}
use lufy.Domain.Market.{MarketInstance}
use lufy.Domain.Money.{quantize_price}
use lufy.Execution.Intents.{has_intent}
use lufy.Risk.Context.{RiskVerdict, denied}
use lufy.Majority.Trigger.{BookSnapshot, complete}
use lufy.Majority.State.{MajorityMarketState, side_locked}
use lufy.Majority.Config.{MajorityWindowConfig, majority_engine}
use lufy.Majority.Engine.{Cell}

-- The checks, by the text that each answers.
pub data Failure : Type 0 where
  market_mismatch window_mismatch state_window_mismatch engine_mismatch no_decision : Failure
  no_locked_direction direction_mismatch no_usable_bid price_not_positive : Failure
  price_off_grid quantity_invalid risk_denied stale_read : Failure
  duplicate_submission duplicate_intent : Failure

-- `snapshot.best_bid_up if direction is UP else snapshot.best_bid_down`
abbrev pub side_bid : Direction → BookSnapshot → Option Decimal
side_bid Direction.up b = b.best_bid_up
side_bid Direction.down b = b.best_bid_down

-- equality with an optional direction
abbrev pub is_side : Direction → Option Direction → Bool
is_side d none = false
is_side d (some d') = same_direction d d'

-- The checks 7 to 12, which look at the decision's book.
unfoldable pub gate_book :
    ℕ
    → Cell
    → MajorityWindowConfig
    → MarketInstance
    → ExecutionIntent
    → RiskVerdict
    → BookSnapshot
    → Option Failure
unfolding quantize_price has_intent
gate_book tick c w m i risk snapshot =
    if not (complete snapshot) || not (is_some (side_bid i.direction snapshot))
    then some no_usable_bid
    else if leb_ℤ i.limit_price (pos 0)
    then some Failure.price_not_positive
    else if not (eqb_ℤ (quantize_price i.limit_price tick) i.limit_price)
    then some price_off_grid
    else if leb_ℤ i.size (pos 0) || not (eqb_ℤ i.size w.shares)
    then some quantity_invalid
    else if denied risk
    then some risk_denied
    else if not snapshot.fresh
    then some stale_read
    else if c.submitted
    then some duplicate_submission
    else if has_intent m.slug w.execution_window_seconds majority_engine c.db.intents
    then some Failure.duplicate_intent
    else none

-- The checks 5 and 6, and the rest.
abbrev pub gate_side :
    ℕ
    → Cell
    → MajorityWindowConfig
    → MarketInstance
    → ExecutionIntent
    → RiskVerdict
    → BookSnapshot
    → Option Failure
gate_side tick c w m i risk snapshot =
    if not (side_locked c.state)
    then some no_locked_direction
    else if not (is_side i.direction c.state.selected_side)
    then some direction_mismatch
    else gate_book tick c w m i risk snapshot

-- The check 4, and the rest.
abbrev pub gate_decision :
    ℕ
    → Cell
    → MajorityWindowConfig
    → MarketInstance
    → ExecutionIntent
    → RiskVerdict
    → Bool
    → Option BookSnapshot
    → Option Failure
gate_decision tick c w m i risk false decision = some no_decision
gate_decision tick c w m i risk true none = some no_decision
gate_decision tick c w m i risk true (some snapshot) = gate_side tick c w m i risk snapshot

-- `_gate_direction`
unfoldable pub gate_direction :
    ℕ
    → Cell
    → MajorityWindowConfig
    → MarketInstance
    → ExecutionIntent
    → RiskVerdict
    → Option Failure
unfolding gate_book
gate_direction tick c w m i risk =
    if not (text_eq i.market_slug m.slug)
    then some market_mismatch
    else if not (i.offset_seconds == w.execution_window_seconds)
    then some window_mismatch
    else if not (c.state.execution_window_seconds == w.execution_window_seconds)
    then some state_window_mismatch
    else if not (text_eq i.strategy_id majority_engine)
    then some engine_mismatch
    else gate_decision tick c w m i risk (is_some c.state.verdict) c.state.decision_snapshot
