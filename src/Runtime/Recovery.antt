-- ===== src/Runtime/Recovery.antt =====
-- arc/runtime/recovery.py: `RecoveryRunner`, run once before any new submission. The hooks of the
-- steps that belong to others, and the venue's lists of open orders, are parameters: an answer or
-- an exception, which the runner catches or not. The details of the steps and logging are left
-- out.
pub mod Dead
pub mod Loop
pub mod Safe
use lufy.Prelude.{
  ℕ, ◌+◌, Bool, true, false, not, ◌&&◌, ◌||◌, Option, none, some, List, [], ◌∷◌, ◌++◌, keep, map,
  find, length, is_list_empty, Text, codes, text_eq, Result, ok, err, ◌>>=◌, leb, if◌then◌else◌,
}
use lufy.Domain.Enums.{MarketPhase, OrderState, same_state}
use lufy.Domain.Models.{Order}
use lufy.Market.Table.{MarketRow, load_market_row}
use lufy.Execution.Ids.{OrderError}
use lufy.Execution.Store
use lufy.Execution.Store.{Store, orders_for, fills_for}
use lufy.Execution.Sweep.{save_transition}
use lufy.Execution.Reconcile.{VenueOrder, ReconcileResult, reconcile}

abbrev pub is_unsettled : MarketPhase → Bool
is_unsettled MarketPhase.settled = false
is_unsettled MarketPhase.dead = false
is_unsettled _ = true

-- `ORDER BY window_ts`
abbrev pub insert_by_window : MarketRow → List MarketRow → List MarketRow
insert_by_window m [] = m ∷ []
insert_by_window m (n ∷ rows) =
    if leb m.window_ts n.window_ts then m ∷ n ∷ rows else n ∷ insert_by_window m rows

abbrev pub by_window : List MarketRow → List MarketRow
by_window [] = []
by_window (m ∷ rows) = insert_by_window m (by_window rows)

-- `Store.unsettled_markets`
unfoldable pub unsettled_markets : List MarketRow → List Text
unsettled_markets rows = map (λ m. m.slug) (by_window (keep (λ m. is_unsettled m.phase) rows))

pub data RecoveryStep : Type 0 where
  reconnect feeds websocket wallet live_orders positions pending_orders windows : RecoveryStep

pub record StepResult : Type 0 where
  pub step : RecoveryStep
  pub success : Bool

pub record RecoveryReport : Type 0 where
  pub steps : List StepResult
  pub unresolved_orders : List Text
  pub orphans : List Text
  pub resumed_markets : List Text

abbrev pub all_ok : List StepResult → Bool
all_ok [] = true
all_ok (s ∷ steps) = s.success && all_ok steps

-- `RecoveryReport.ok`
abbrev pub report_ok : RecoveryReport → Bool
report_ok r = all_ok r.steps && is_list_empty r.orphans

-- `RecoveryReport.safe_to_trade`
abbrev pub safe_to_trade : RecoveryReport → Bool
safe_to_trade r = report_ok r && is_list_empty r.unresolved_orders

-- An exception of a hook or of the venue: an `ArcError` or an `OSError`, which the runner catches,
-- or any other, which leaves it.
pub data Raised : Type 0 where
  caught uncaught : Raised

-- A hook, where one is configured: it returns, or it raises.
abbrev pub Hook : Type 0
Hook = Option (Option Raised)

-- `_external`; nothing where an exception leaves it
abbrev pub external : RecoveryStep → Hook → Option StepResult
external step none = some (record { step = step; success = true })
external step (some none) = some (record { step = step; success = true })
external step (some (some caught)) = some (record { step = step; success = false })
external step (some (some uncaught)) = none

-- `executor.open_orders`
abbrev pub OpenOrders : Type 0
OpenOrders = Text → Result Raised (List VenueOrder)

-- What the loop of `_recover_orders` gathers.
pub record Gathered : Type 0 where
  pub unresolved : List Text
  pub orphans : List Text
  pub failed : Bool

-- A market that could not be reconciled: all its live orders stay unresolved.
abbrev pub unreconciled : Text → Store → Gathered → Gathered
unreconciled slug s g = record g {
  unresolved = g.unresolved ++ map (λ o. o.order_id) (Store.live_orders (some slug) s);
  failed = true;
}

-- The result of a market: an exception of a transition is an `ArcError`.
abbrev pub reconciled :
    Text → Store → Gathered → Result OrderError (Store × ReconcileResult) → Store × Gathered
reconciled slug s g (err e) = (s, unreconciled slug s g)
reconciled slug s g (ok (s', r)) =
    (s', record g { unresolved = g.unresolved ++ r.still_live; orphans = g.orphans ++ r.orphans })

-- The store, and what was gathered unless an exception leaves the loop.
abbrev pub GatheredOrLeft : Type 0
GatheredOrLeft = Store × Option Gathered

abbrev pub gathered : Store × Gathered → GatheredOrLeft
gathered (s, g) = (s, some g)

abbrev pub answered : Text → ℕ → Store → Gathered → Result Raised (List VenueOrder) → GatheredOrLeft
answered slug now s g (err caught) = (s, some (unreconciled slug s g))
answered slug now s g (err uncaught) = (s, none)
answered slug now s g (ok venue) = gathered (reconciled slug s g (reconcile venue slug now none s))

-- The next market, unless an exception has left the loop.
abbrev pub then_market : GatheredOrLeft → (Store → Gathered → GatheredOrLeft) → GatheredOrLeft
then_market (s, none) next = (s, none)
then_market (s, some g) next = next s g

-- The loop over the unsettled markets.
unfoldable pub recover_orders_from : OpenOrders → ℕ → List Text → Store → Gathered → GatheredOrLeft
unfolding reconcile Store.live_orders
recover_orders_from venue now [] s g = (s, some g)
recover_orders_from venue now (slug ∷ slugs) s g =
    then_market (answered slug now s g (venue slug)) (recover_orders_from venue now slugs)

-- `_recover_orders`, with its step's result left to the run
unfoldable pub recover_orders : OpenOrders → ℕ → List Text → Store → GatheredOrLeft
unfolding recover_orders_from
recover_orders venue now slugs s =
    recover_orders_from venue now slugs s (record { unresolved = []; orphans = []; failed = false })

-- the number that `_recover_positions` reports
unfoldable pub count_fills : List Text → Store → ℕ
unfolding fills_for
count_fills [] s = 0
count_fills (slug ∷ slugs) s = length (fills_for slug s) + count_fills slugs s

-- The rows of one market in `_recover_pending`.
unfoldable pub expire_pending : ℕ → List Order → Store → Result OrderError Store
expire_pending now [] s = ok s
expire_pending now (o ∷ orders) s =
    if not (same_state o.state OrderState.pending)
    then expire_pending now orders s
    else (save_transition o OrderState.expired now (codes "unsubmitted at restart") s
        >>= expire_pending now orders)

-- `_recover_pending`
unfoldable pub recover_pending : ℕ → List Text → Store → Result OrderError Store
unfolding expire_pending orders_for
recover_pending now [] s = ok s
recover_pending now (slug ∷ slugs) s =
    expire_pending now (orders_for slug s) s >>= recover_pending now slugs

-- `_recover_windows`: a hook that returns the markets that it resumed, or raises; nothing where the
-- exception leaves it
abbrev pub recover_windows : Option (Result Raised (List Text)) → Option (Bool × List Text)
recover_windows none = some (true, [])
recover_windows (some (ok resumed)) = some (true, resumed)
recover_windows (some (err caught)) = some (false, [])
recover_windows (some (err uncaught)) = none

pub record Hooks : Type 0 where
  pub reconnect : Hook
  pub feeds : Hook
  pub websocket : Hook
  pub wallet : Hook
  pub windows : Option (Result Raised (List Text))

-- The steps before the orders; nothing where an exception leaves one of them.
abbrev pub then_step : Option StepResult → Option (List StepResult) → Option (List StepResult)
then_step none steps = none
then_step (some step) none = none
then_step (some step) (some steps) = some (step ∷ steps)

abbrev pub external_steps : Hooks → Option (List StepResult)
external_steps hooks = then_step (external RecoveryStep.reconnect hooks.reconnect) (
    then_step (external RecoveryStep.feeds hooks.feeds) (
      then_step (external RecoveryStep.websocket hooks.websocket)
        (then_step (external RecoveryStep.wallet hooks.wallet) (some []))))

abbrev pub report_of : List StepResult → Gathered → Bool × List Text → RecoveryReport
report_of before g (resumed_ok, resumed) = record {
  steps =
      before
      ++ record { step = RecoveryStep.live_orders; success = not g.failed }
        ∷ record { step = RecoveryStep.positions; success = true }
        ∷ record { step = RecoveryStep.pending_orders; success = true }
        ∷ record { step = RecoveryStep.windows; success = resumed_ok }
        ∷ [];
  unresolved_orders = g.unresolved;
  orphans = g.orphans;
  resumed_markets = resumed;
}

-- An exception that leaves the run: a transition that is refused, or one of a hook or of the venue
-- that the runner does not catch, with the store as it stands then.
pub data RunError : Type 0 where
  refused : OrderError → RunError
  left_with : Store → RunError

abbrev pub finished :
    List StepResult
    → Gathered
    → Store
    → Option (Bool × List Text)
    → Result RunError (Store × RecoveryReport)
finished before g s none = err (left_with s)
finished before g s (some resumed) = ok (s, report_of before g resumed)

abbrev pub after_pending :
    Hooks
    → List StepResult
    → Gathered
    → Result OrderError Store
    → Result RunError (Store × RecoveryReport)
after_pending hooks before g (err e) = err (refused e)
after_pending hooks before g (ok s) = finished before g s (recover_windows hooks.windows)

unfoldable pub after_orders :
    Hooks
    → ℕ
    → List Text
    → List StepResult
    → GatheredOrLeft
    → Result RunError (Store × RecoveryReport)
unfolding recover_pending
after_orders hooks now slugs before (s, none) = err (left_with s)
after_orders hooks now slugs before (s, some g) =
    after_pending hooks before g (recover_pending now slugs s)

abbrev pub after_external :
    Store
    → Option (List StepResult)
    → (List StepResult → Result RunError (Store × RecoveryReport))
    → Result RunError (Store × RecoveryReport)
after_external s none next = err (left_with s)
after_external s (some before) next = next before

-- `RecoveryRunner.run`
unfoldable pub run :
    Hooks → OpenOrders → ℕ → List MarketRow → Store → Result RunError (Store × RecoveryReport)
unfolding unsettled_markets recover_orders after_orders
run hooks venue now markets s =
    let slugs = unsettled_markets markets in
    after_external s (external_steps hooks)
      λ before. after_orders hooks now slugs before (recover_orders venue now slugs s)

abbrev pub needs_sweep : Store → Option MarketRow → Bool
needs_sweep s none = false
needs_sweep s (some m) =
    if not (is_unsettled m.phase)
    then false
    else not (is_list_empty (Store.live_orders (some m.slug) s))

unfoldable pub markets_needing_sweep : List MarketRow → Store → List Text
unfolding unsettled_markets load_market_row Store.live_orders
markets_needing_sweep markets s =
    keep (λ slug. needs_sweep s (load_market_row slug markets)) (unsettled_markets markets)
