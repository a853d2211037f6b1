-- ===== src/Domain/Models.antt =====
-- The value objects of arc/domain/models.py that execution works on: an order, a fill, an intent.
-- An amount is an integer number of units of 10^-6, the finest step of the venue's prices and
-- collateral; a time is a number of milliseconds.
use lufy.Prelude.{ℕ, Bool, if◌then◌else◌, Text}
use lufy.Prelude.Int.{ℤ, pos, ◌-ℤ◌, ltb_ℤ}
use lufy.Domain.Enums.{Direction, OrderState, in_live_order_states}

-- `Decimal`
abbrev pub Decimal : Type 0
Decimal = ℤ

-- one whole unit, `Decimal("1")`
abbrev pub unit : ℕ
unit = 1000000

pub record Order : Type 0 where
  pub order_id : Text
  pub market_slug : Text
  pub offset_seconds : ℕ
  pub direction : Direction
  pub price : Decimal
  pub size : Decimal
  pub state : OrderState
  pub filled_size : Decimal
  pub created_at : ℕ
  pub updated_at : ℕ
  pub venue_order_id : Text
  pub reprice_chain_id : Text
  pub rejection_reason : Text
  pub trace_id : Text
  pub engine : Text

-- `Order.is_live`
abbrev pub is_live : Order → Bool
is_live o = in_live_order_states o.state

-- `Order.remaining_size`
unfoldable pub remaining_size : Order → Decimal
remaining_size o =
    let remaining = o.size -ℤ o.filled_size in if ltb_ℤ (pos 0) remaining then remaining else pos 0

pub record Fill : Type 0 where
  pub fill_id : Text
  pub order_id : Text
  pub market_slug : Text
  pub size : Decimal
  pub price : Decimal
  pub ts : ℕ
  pub trace_id : Text
  pub engine : Text

-- The decision to trade one window.
pub record ExecutionIntent : Type 0 where
  pub market_slug : Text
  pub offset_seconds : ℕ
  pub direction : Direction
  pub signal_twap : Decimal
  pub locked_trigger : Decimal
  pub created_at : ℕ
  pub intent_id : Text
  pub trace_id : Text
  pub opening_twap : Decimal
  pub ptb : Decimal
  pub buffer : Decimal
  pub limit_price : Decimal
  pub size : Decimal
  pub strategy_id : Text
  pub close_ts : ℕ
