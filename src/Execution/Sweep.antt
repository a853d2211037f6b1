-- ===== src/Execution/Sweep.antt =====
-- arc/execution/sweep.py: `Sweeper.sweep` retracts every live order of a market. The venue's answer
-- to each cancel is a parameter, `none` for an acknowledgement. Logging is left out.
pub mod Moves
pub mod Clean
use lufy.Prelude.{
  ℕ, Bool, true, false, not, ◌&&◌, Option, none, some, List, [], ◌∷◌, ◌++◌, Text, codes, text_eq,
  Result, ok, err, ◌>>=◌, if◌then◌else◌, is_list_empty,
}
use lufy.Domain.Enums.{OrderState, same_state}
use lufy.Domain.Models.{Order}
use lufy.Execution.Ids.{OrderError}
use lufy.Execution.Orders.{transition}
use lufy.Execution.Venue.{VenueError, Disposition, classify, message}
use lufy.Execution.Store.{Store, save_order, live_orders}

pub record SweepResult : Type 0 where
  pub market_slug : Text
  pub cancelled : List Text
  pub unknown : List Text

-- `SweepResult.clean`
abbrev pub clean : SweepResult → Bool
clean r = is_list_empty r.unknown

-- A transition that is then saved.
abbrev pub save_transition : Order → OrderState → ℕ → Text → Store → Result OrderError Store
save_transition o target now reason s =
    transition o target now reason >>= λ o'. ok (save_order o' s)

-- After a cancel of unknown outcome.
abbrev pub cancel_unknown : VenueError → Order → ℕ → Store → Result OrderError (Store × Bool)
cancel_unknown e o now s =
    if same_state o.state OrderState.indeterminate
    then ok (s, false)
    else (save_transition o OrderState.indeterminate now (message e) s >>= λ s'. ok (s', false))

abbrev pub cancel_failed :
    Disposition → VenueError → Order → ℕ → Store → Result OrderError (Store × Bool)
cancel_failed Disposition.fail e o now s =
    save_transition o OrderState.cancelled now (message e) s >>= λ s'. ok (s', true)
cancel_failed Disposition.retry_now e o now s = cancel_unknown e o now s
cancel_failed Disposition.indeterminate e o now s = cancel_unknown e o now s

abbrev pub cancel_answered :
    Option VenueError → Order → ℕ → Store → Result OrderError (Store × Bool)
cancel_answered none o now s =
    save_transition o OrderState.cancelled now (codes "settlement sweep") s >>= λ s'. ok (s', true)
cancel_answered (some e) o now s = cancel_failed (classify e) e o now s

unfoldable pub cancel_one :
    (Order → Option VenueError) → Order → ℕ → Store → Result OrderError (Store × Bool)
cancel_one cancel o now s =
    if same_state o.state OrderState.pending
    then (save_transition o OrderState.expired now (codes "swept before submission") s >>= λ s'.
        ok (s', true))
    else cancel_answered (cancel o) o now s

-- `engine is not None and order.engine != engine`, the other way round
abbrev pub owned_by : Option Text → Order → Bool
owned_by none o = true
owned_by (some engine) o = text_eq o.engine engine

abbrev pub record_one : Bool → Text → SweepResult → SweepResult
record_one true id r = record r { cancelled = r.cancelled ++ id ∷ [] }
record_one false id r = record r { unknown = r.unknown ++ id ∷ [] }

-- One round of the loop; the orders of another engine are passed over.
unfoldable pub sweep_one :
    (Order → Option VenueError)
    → Option Text
    → ℕ
    → Order
    → Store
    → SweepResult
    → Result OrderError (Store × SweepResult)
sweep_one cancel engine now o s r =
    if owned_by engine o
    then (cancel_one cancel o now s >>= λ p. ok (p.0, record_one p.1 o.order_id r))
    else ok (s, r)

unfoldable pub sweep_from :
    (Order → Option VenueError)
    → Option Text
    → ℕ
    → List Order
    → Store
    → SweepResult
    → Result OrderError (Store × SweepResult)
sweep_from cancel engine now [] s r = ok (s, r)
sweep_from cancel engine now (o ∷ orders) s r =
    sweep_one cancel engine now o s r >>= λ p. sweep_from cancel engine now orders p.0 p.1

unfoldable pub sweep :
    (Order → Option VenueError)
    → Text
    → ℕ
    → Option Text
    → Store
    → Result OrderError (Store × SweepResult)
unfolding sweep_from live_orders
sweep cancel market_slug now engine s =
    sweep_from cancel engine now (live_orders (some market_slug) s) s
      (record { market_slug = market_slug; cancelled = []; unknown = [] })
