-- ===== src/Domain/Market.antt =====
-- arc/domain/models.py: `TwapAccumulator`, `Observation` and `MarketInstance`, less the windows,
-- the intents, the reservations and the settlement of a market.
use lufy.Prelude.{
  ℕ, suc, Bool, true, false, ◌&&◌, not, Option, none, some, is_some, List, [], ◌∷◌, any, Text,
  Result, ok, err, ◌==◌, if◌then◌else◌,
}
use lufy.Prelude.Int.{pos, ◌+ℤ◌, ltb_ℤ, leb_ℤ}
use lufy.Domain.Enums.{Direction, MarketPhase, same_direction}
use lufy.Domain.Models.{Decimal, Order, Fill}
use lufy.Prelude.{text_eq}

pub record TwapAccumulator : Type 0 where
  pub running_sum : Decimal
  pub observation_count : ℕ

-- The mean of some observations, as the quotient of a sum by a positive count.
pub record Mean : Type 0 where
  pub sum : Decimal
  pub count : ℕ

abbrev pub empty_accumulator : TwapAccumulator
empty_accumulator = record { running_sum = pos 0; observation_count = 0 }

-- `TwapAccumulator.add`
unfoldable pub add : Decimal → TwapAccumulator → TwapAccumulator
add price a = record {
  running_sum = a.running_sum +ℤ price;
  observation_count = suc a.observation_count;
}

-- `TwapAccumulator.mean`. The source divides; the quotient is kept as its two parts, so that it
-- is exact.
unfoldable pub mean : TwapAccumulator → Option Mean
mean a =
    if a.observation_count == 0
    then none
    else some (record { sum = a.running_sum; count = a.observation_count })

pub record MarketInstance : Type 0 where
  pub slug : Text
  pub window_ts : ℕ
  pub close_ts : ℕ
  pub phase : MarketPhase
  pub accumulator : TwapAccumulator
  pub orders : List Order
  pub fills : List Fill
  pub ptb : Option Decimal
  pub last_btc : Option Decimal

-- The exceptions of the methods below.
pub data MarketError : Type 0 where
  already_frozen not_positive already_set observation_rejected : MarketError

unfoldable pub freeze_ptb : Decimal → MarketInstance → Result MarketError MarketInstance
freeze_ptb value m =
    if is_some m.ptb
    then err already_frozen
    else if leb_ℤ value (pos 0)
    then err not_positive
    else ok (record m { ptb = some value })

unfoldable pub restore_ptb : Decimal → MarketInstance → Result MarketError MarketInstance
restore_ptb value m = if is_some m.ptb then err already_set else ok (record m { ptb = some value })

abbrev pub signal_twap : MarketInstance → Option Mean
signal_twap m = mean m.accumulator

-- membership in `_OBSERVING_PHASES`
abbrev pub accepts_observations : MarketPhase → Bool
accepts_observations MarketPhase.discovered = true
accepts_observations MarketPhase.active = true
accepts_observations MarketPhase.cancelling = true
accepts_observations MarketPhase.settling = true
accepts_observations MarketPhase.settled = false
accepts_observations MarketPhase.dead = false

-- An observation is its price.
unfoldable pub add_observation : Decimal → MarketInstance → Result MarketError MarketInstance
unfolding add
add_observation price m =
    if not (accepts_observations m.phase)
    then err observation_rejected
    else ok (record m { last_btc = some price; accumulator = add price m.accumulator })

-- `order_direction.get(…)` on a dictionary in which the last order with an id wins
abbrev pub order_direction : Text → List Order → Option Direction → Option Direction
order_direction id [] found = found
order_direction id (o ∷ orders) found =
    order_direction id orders (if text_eq o.order_id id then some o.direction else found)

abbrev pub is_direction : Direction → Option Direction → Bool
is_direction d none = false
is_direction d (some d') = same_direction d d'

-- `direction in market.directions_held()`
unfoldable pub directions_held : MarketInstance → Direction → Bool
directions_held m d =
    any (λ f. is_direction d (order_direction f.order_id m.orders none) && ltb_ℤ (pos 0) f.size)
      m.fills
