-- ===== src/Execution/Submit.antt =====
-- arc/execution/submit.py: `Submitter`. The venue's answer to each attempt at each order is a
-- parameter: an id, or the exception that the call raises. The wait for a token of the bucket
-- changes neither the order nor the store and is left out, as is logging.
pub mod Place
pub mod Stored
pub mod Replay
pub mod Single
use lufy.Prelude.{
  ℕ, zero, suc, ◌+◌, Bool, true, false, not, Option, none, some, List, [], ◌∷◌, ◌++◌, find, Text,
  codes, Result, ok, err, ◌>>=◌, ltb, if◌then◌else◌,
}
use lufy.Prelude.Int.{ℤ, pos}
use lufy.Domain.Enums.{Direction, MarketPhase, OrderState}
use lufy.Domain.Models.{Decimal, Order, ExecutionIntent}
use lufy.Execution.Ids.{OrderError}
use lufy.Execution.Orders.{new_order, transition}
use lufy.Execution.Venue.{
  VenueError, Disposition, classify, message, rejection_reason, immediate_retry_limit,
}
use lufy.Execution.Store.{Store, save_order, orders_for, has_order}
use lufy.Execution.Split.{SplitError, split_size}

-- What a submission may raise. The last is the model's: no fuel is left for the next attempt.
pub data SubmitError : Type 0 where
  market_phase : SubmitError
  split : SplitError → SubmitError
  transition_refused : OrderError → SubmitError
  out_of_fuel : SubmitError

-- What the executor answers to the attempt of a number at an order.
abbrev pub Place : Type 0
Place = Order → ℕ → Result VenueError Text

abbrev pub Placed : Type 0
Placed = Result SubmitError (Store × Order)

-- `transition`, then `save_order`, then `return`
abbrev pub saved : Store → Result OrderError Order → Placed
saved s (ok o) = ok (save_order o s, o)
saved s (err e) = err (transition_refused e)

abbrev pub finish : Order → OrderState → ℕ → Text → Store → Placed
finish o target now reason s = saved s (transition o target now reason)

-- The handler of an exception: another attempt, an unknown outcome, or a rejection.
abbrev pub place_failed : Disposition → VenueError → ℕ → Order → ℕ → Store → Placed → Placed
place_failed Disposition.indeterminate e attempts o now s again =
    finish o OrderState.indeterminate now (message e) s
place_failed Disposition.fail e attempts o now s again =
    finish o OrderState.rejected now (rejection_reason e) s
place_failed Disposition.retry_now e attempts o now s again =
    if ltb attempts immediate_retry_limit
    then again
    else finish o OrderState.rejected now (rejection_reason e) s

abbrev pub place_answered : Result VenueError Text → ℕ → Order → ℕ → Store → Placed → Placed
place_answered (ok venue_id) attempts o now s again =
    finish (record o { venue_order_id = venue_id }) OrderState.submitted now [] s
place_answered (err e) attempts o now s again = place_failed (classify e) e attempts o now s again

-- The loop, after some attempts.
unfoldable pub attempt : Place → ℕ → ℕ → Order → ℕ → Store → Placed
attempt place zero attempts o now s = err out_of_fuel
attempt place (suc fuel) attempts o now s =
    place_answered (place o (suc attempts)) (suc attempts) o now s
      (attempt place fuel (suc attempts) o now s)

-- `_existing`
unfoldable pub existing : Order → Store → Option Order
existing o s = find (has_order o.order_id) (orders_for o.market_slug s)

abbrev pub place_unless : Option Order → Place → Order → ℕ → Store → Placed
place_unless (some row) place o now s = ok (s, row)
place_unless none place o now s = attempt place immediate_retry_limit 0 o now (save_order o s)

-- `_place_one`
unfoldable pub place_one : Place → Order → ℕ → Store → Placed
unfolding attempt existing
place_one place o now s = place_unless (existing o s) place o now s

unfoldable pub place_all : Place → List Order → ℕ → Store → Result SubmitError (Store × List Order)
place_all place [] now s = ok (s, [])
place_all place (o ∷ orders) now s =
    place_one place o now s >>= λ p. place_all place orders now p.0 >>= λ q. ok (q.0, p.1 ∷ q.1)

-- The orders of a ladder from an index on.
abbrev pub orders_from : ExecutionIntent → Text → ℕ → ℕ → List ℕ → List Order
orders_from intent engine now index [] = []
orders_from intent engine now index (size ∷ sizes) =
    new_order intent.market_slug intent.offset_seconds index 0 intent.direction intent.limit_price
      (pos size) now intent.trace_id engine
    ∷ orders_from intent engine now (suc index) sizes

-- A `SplitError` leaves the plan.
abbrev pub or_split_error : {A : Type 0} → Result SplitError A → Result SubmitError A
or_split_error (ok a) = ok a
or_split_error (err e) = err (split e)

-- `SubmissionPlan.orders` of `plan`
unfoldable pub plan : ExecutionIntent → ℕ → ℕ → ℕ → ℕ → Text → Result SubmitError (List Order)
plan intent count now minimum size_step engine =
    or_split_error (split_size intent.size count minimum size_step) >>= λ sizes.
    ok (orders_from intent engine now 0 sizes)

abbrev pub is_active : MarketPhase → Bool
is_active MarketPhase.active = true
is_active MarketPhase.discovered = false
is_active MarketPhase.cancelling = false
is_active MarketPhase.settling = false
is_active MarketPhase.settled = false
is_active MarketPhase.dead = false

-- An empty plan places nothing.
unfoldable pub submit :
    Place
    → ExecutionIntent
    → ℕ
    → MarketPhase
    → ℕ
    → ℕ
    → ℕ
    → Text
    → Store
    → Result SubmitError (Store × List Order)
unfolding plan place_all
submit place intent count phase now minimum size_step engine s =
    if not (is_active phase)
    then err market_phase
    else plan intent count now minimum size_step engine >>= λ orders. place_all place orders now s
