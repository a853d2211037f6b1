-- ===== src/Majority/Trigger.antt =====
-- arc/majority/trigger.py: pure functions of one book snapshot. The prose reason of a verdict is
-- left out.
pub mod Laws
use lufy.Prelude.{ℕ, Bool, true, false, not, ◌&&◌, Option, none, some, is_some, if◌then◌else◌}
use lufy.Prelude.Int.{ℤ, ltb_ℤ, leb_ℤ, max_ℤ}
use lufy.Domain.Enums.{Direction}
use lufy.Domain.Models.{Decimal}

pub data MajorityOutcome : Type 0 where
  up down indeterminate : MajorityOutcome

-- `MajorityOutcome.direction`
abbrev pub outcome_direction : MajorityOutcome → Option Direction
outcome_direction MajorityOutcome.up = some Direction.up
outcome_direction MajorityOutcome.down = some Direction.down
outcome_direction MajorityOutcome.indeterminate = none

pub record BookSnapshot : Type 0 where
  pub best_bid_up : Option Decimal
  pub best_bid_down : Option Decimal
  pub read_at : ℕ
  pub fresh : Bool

-- `BookSnapshot.complete`
abbrev pub complete : BookSnapshot → Bool
complete s = is_some s.best_bid_up && is_some s.best_bid_down

-- `BookSnapshot.usable`
abbrev pub usable : BookSnapshot → Bool
usable s = s.fresh && complete s

pub record MajorityVerdict : Type 0 where
  pub outcome : MajorityOutcome
  pub best_bid_up : Option Decimal
  pub best_bid_down : Option Decimal

-- `MajorityVerdict.tradable`
abbrev pub tradable : MajorityVerdict → Bool
tradable v = is_some (outcome_direction v.outcome)

-- the two bids of a snapshot, larger first where both stand
abbrev pub larger_bid : Option Decimal → Option Decimal → Option Decimal
larger_bid (some u) (some d) = some (max_ℤ u d)
larger_bid (some u) none = none
larger_bid none d = none

unfoldable pub trigger_value : BookSnapshot → Option Decimal
trigger_value s = larger_bid s.best_bid_up s.best_bid_down

-- `best >= trigger_price`, where there is a best bid
abbrev pub reaches : Option Decimal → Decimal → Bool
reaches none trigger_price = false
reaches (some best) trigger_price = leb_ℤ trigger_price best

unfoldable pub is_triggered : BookSnapshot → Decimal → Bool
unfolding trigger_value
is_triggered s trigger_price =
    if not (usable s) then false else reaches (trigger_value s) trigger_price

-- The comparison of the two bids, a missing side first.
abbrev pub compare_bids : Option Decimal → Option Decimal → MajorityOutcome
compare_bids none d = MajorityOutcome.indeterminate
compare_bids (some u) none = MajorityOutcome.indeterminate
compare_bids (some u) (some d) =
    if ltb_ℤ d u
    then MajorityOutcome.up
    else if ltb_ℤ u d
    then MajorityOutcome.down
    else MajorityOutcome.indeterminate

unfoldable pub determine_majority : BookSnapshot → MajorityVerdict
determine_majority s =
    if not s.fresh
    then record {
      outcome = MajorityOutcome.indeterminate;
      best_bid_up = s.best_bid_up;
      best_bid_down = s.best_bid_down;
    }
    else record {
      outcome = compare_bids s.best_bid_up s.best_bid_down;
      best_bid_up = s.best_bid_up;
      best_bid_down = s.best_bid_down;
    }
