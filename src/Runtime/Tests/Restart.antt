-- ===== src/Runtime/Tests/Restart.antt =====
-- Recovery after a crash with one order unknown and one pending, and the theorem at these values.
use lufy.Prelude.{
  ℕ, ◌+◌, ◌≡◌, refl, true, false, none, some, List, [], ◌∷◌, Text, codes, text_eq, ok,
}
use lufy.Prelude.Int.{pos}
use lufy.Domain.Enums.{Direction, MarketPhase, OrderState}
use lufy.Domain.Models.{Order}
use lufy.Execution.Orders.{transition}
use lufy.Execution.Store.{Store, orders_for, save_order, upsert}
use lufy.Execution.Reconcile.{
  by_client, resolve, reconcile_one, reconcile_from, reconcile, orphans_of,
}
use lufy.Domain.Market.{empty_accumulator}
use lufy.Market.Table.{MarketRow}
use lufy.Runtime.Recovery.{
  RecoveryStep, RecoveryReport, OpenOrders, Hooks, unsettled_markets, report_of,
  recover_orders_from, recover_orders, expire_pending, recover_pending, after_orders, run,
}
use lufy.Runtime.Recovery.Safe.{Recovers, run_safe}

abbrev slug : Text
slug = codes "m"

abbrev row : Text → ℕ → MarketPhase → MarketRow
row slug window_ts phase = record {
  slug = slug;
  window_ts = window_ts;
  close_ts = window_ts + 300;
  phase = phase;
  ptb = none;
  accumulator = empty_accumulator;
  archived = false;
}

abbrev markets : List MarketRow
markets =
    row (codes "old") 1699999700 MarketPhase.settled ∷ row slug 1700000000 MarketPhase.active ∷ []

abbrev unknown : Order
unknown = record {
  order_id = codes "m:60:0:0";
  market_slug = slug;
  offset_seconds = 60;
  direction = Direction.up;
  price = pos 820000;
  size = pos 10000000;
  state = OrderState.indeterminate;
  filled_size = pos 0;
  created_at = 1700000100000;
  updated_at = 1700000100000;
  venue_order_id = [];
  reprice_chain_id = codes "m:60:0";
  rejection_reason = [];
  trace_id = codes "t";
  engine = codes "MAJORITY";
}

abbrev pending : Order
pending = record unknown { order_id = codes "m:30:0:0"; state = OrderState.pending }

abbrev hooks : Hooks
hooks = record {
  reconnect = some none;
  feeds = none;
  websocket = none;
  wallet = some none;
  windows = some (ok (slug ∷ []));
}

-- A venue on which nothing rests.
abbrev nothing : OpenOrders
nothing _ = ok []

abbrev with_orders : List Order → Store
with_orders orders = record { orders = orders; fills = [] }

abbrev report : List Text → RecoveryReport
report unresolved =
    report_of
      (record { step = RecoveryStep.reconnect; success = true }
        ∷ record { step = RecoveryStep.feeds; success = true }
        ∷ record { step = RecoveryStep.websocket; success = true }
        ∷ record { step = RecoveryStep.wallet; success = true }
        ∷ [])
      (record { unresolved = unresolved; orphans = []; failed = false }) (true, slug ∷ [])

-- The unknown order is settled, and the recovery is safe to trade after.
run-unknown :
    run hooks nothing 1700000200000 markets (with_orders (unknown ∷ []))
    ≡ ok (
      with_orders (
          record unknown {
            state = OrderState.cancelled;
            updated_at = 1700000200000;
            rejection_reason = codes "reconciled: absent from venue";
          }
          ∷ []),
      report [],
    )
unfolding run after_orders unsettled_markets recover_orders recover_orders_from recover_pending
    expire_pending reconcile reconcile_from reconcile_one resolve by_client orphans_of orders_for
    save_order upsert transition text_eq
run-unknown = refl

-- The pending order is expired, and yet it is reported as unresolved: trading is not safe.
run-pending :
    run hooks nothing 1700000200000 markets (with_orders (pending ∷ []))
    ≡ ok (
      with_orders (
          record pending {
            state = OrderState.expired;
            updated_at = 1700000200000;
            rejection_reason = codes "unsubmitted at restart";
          }
          ∷ []),
      report (codes "m:30:0:0" ∷ []),
    )
unfolding run after_orders unsettled_markets recover_orders recover_orders_from recover_pending
    expire_pending reconcile reconcile_from reconcile_one resolve by_client orphans_of orders_for
    save_order upsert transition text_eq
run-pending = refl

run_safe_example :
    Recovers hooks nothing
      (unsettled_markets markets)
      (run hooks nothing 1700000200000 markets (with_orders (unknown ∷ pending ∷ [])))
run_safe_example =
    run_safe hooks nothing 1700000200000 markets (with_orders (unknown ∷ pending ∷ []))
