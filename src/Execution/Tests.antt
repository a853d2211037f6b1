-- ===== src/Execution/Tests.antt =====
-- Orders of one market, and the theorems at these values.
mod Submission
mod Following
use lufy.Prelude.{
  ℕ, ◌≡◌, ◌≢◌, refl, ◌⊎◌, true, false, none, some, Option, List, [], ◌∷◌, codes, any, All, min,
  Text, text_eq, ok, err, length, ◌/◌, ◌*◌, ◌<◌, ◌≤◌, ◌+◌, arith, ltb, if◌then◌else◌, text_eq_self,
}
use lufy.Prelude.Int.{pos, ◌≤ℤ◌, ◌+ℤ◌, min_ℤ}
use lufy.Domain.Enums.{Direction, MarketPhase, OrderState, default_engine}
use lufy.Domain.Models.{Decimal, Order, Fill, ExecutionIntent, is_live}
use lufy.Execution.Ids.{
  order_id_for, next_generation_id, chain_id_for, engine_prefix, print, digits, has_colon,
}
use lufy.Execution.Ids.Laws.{next_generation_id-order_id_for, order_id_for_injective}
use lufy.Execution.Orders.{transition, apply_fill}
use lufy.Execution.Orders.Laws.{
  Event, move, fill, run, step, IsWithin, SameTerms, fills, run-IsWithin, run-terminal, run-fills,
}
use lufy.Execution.Orders.Laws
use lufy.Execution.Venue.{VenueError, connection_lost, transient_latency_reject}
use lufy.Execution.Store.{Store, foreign_key, save_fill, save_order, upsert, orders_for, has_order}
use lufy.Execution.Fills.{storage, ingest, ingest_from, ingest_one}
use lufy.Execution.Fills.Replay.{ingest_twice}
use lufy.Execution.Fills.Unlinked.{ingest_unlinked}
use lufy.Execution.Sweep.{SweepResult, sweep}
use lufy.Execution.Sweep.Clean.{Concerns, sweep_accounts}
use lufy.Execution.Split.{split_size, distribute, quantize_floor}
use lufy.Execution.Split.Laws.{pieces, piece_count, split_size-pieces, sum}
use lufy.Execution.Split.Sizes.{split_size_exact, split_size_valid}
use lufy.Execution.Submit.{Place, place_one, existing, submit, orders_from}
use lufy.Execution.Submit.Place.{Returns, place_one-Returns}
use lufy.Execution.Submit.Replay.{ids, IsApart, submit_again}
use lufy.Prelude.{◌↔◌}
use lufy.Prelude.Int.{eqb_ℤ, ◌<ℤ◌}
use lufy.Execution.Reconcile.{VenueOrder, ReconcileResult, resolve, reconcile, is_clean}
use lufy.Execution.Reconcile.Settle.{Settled, resolve-Settled}
use lufy.Execution.Reconcile.Clean.{is_unknown, reconcile_settles}
use lufy.Execution.Reprice.{RepricePolicy, Answers, target, stepped, maybe_reprice}
use lufy.Execution.Reprice.Pass.{IsDerived}
use lufy.Execution.Reprice.Ends.{Ends}
use lufy.Execution.Reprice.Chain.{maybe_reprice-Ends}
use lufy.Execution.RateLimit.{TokenBucket, token, new_bucket, refill, take, missing}
use lufy.Execution.RateLimit.Laws.{granted, forward, granted_bounded, take_after_delay}

abbrev slug : Text
slug = codes "btc-updown-5m"

abbrev majority : Text
majority = codes "MAJORITY"

abbrev order : Order
order = record {
  order_id = codes "btc-updown-5m:60:0:0";
  market_slug = slug;
  offset_seconds = 60;
  direction = Direction.up;
  price = pos 820000;
  size = pos 10000000;
  state = OrderState.submitted;
  filled_size = pos 2000000;
  created_at = 1700000100000;
  updated_at = 1700000100000;
  venue_order_id = codes "0xabc";
  reprice_chain_id = codes "btc-updown-5m:60:0";
  rejection_reason = [];
  trace_id = codes "t";
  engine = codes "WINDOWS";
}

abbrev a_fill : Fill
a_fill = record {
  fill_id = codes "f1";
  order_id = codes "btc-updown-5m:60:0:0";
  market_slug = slug;
  size = pos 3000000;
  price = pos 820000;
  ts = 1700000101000;
  trace_id = [];
  engine = [];
}

abbrev store : Store
store = record { orders = order ∷ []; fills = [] }

-- ids

id_text : order_id_for slug 60 0 0 default_engine ≡ codes "btc-updown-5m:60:0:0"
unfolding order_id_for chain_id_for engine_prefix print digits text_eq
id_text = refl

majority_id_text : order_id_for slug 60 0 0 majority ≡ codes "MAJORITY:btc-updown-5m:60:0:0"
unfolding order_id_for chain_id_for engine_prefix print digits text_eq
majority_id_text = refl

next_generation_id-order_id_for_example :
    next_generation_id (order_id_for slug 60 2 9 majority)
    ≡ ok (order_id_for slug 60 2 (9 + 1) majority)
next_generation_id-order_id_for_example = next_generation_id-order_id_for slug 60 2 9 majority

abbrev window : ℕ
window = 60

abbrev place_in_ladder : ℕ
place_in_ladder = 2

abbrev generation : ℕ
generation = 9

order_id_for_injective_example :
    (window ≡ window) × (place_in_ladder ≡ place_in_ladder) × (generation ≡ generation)
order_id_for_injective_example =
    order_id_for_injective slug majority window place_in_ladder generation window place_in_ladder
      generation refl

slug-has_colon : has_colon slug ≡ false
unfolding has_colon
slug-has_colon = refl

majority-default : text_eq majority default_engine ≡ false
unfolding text_eq
majority-default = refl

-- the life of one order

abbrev life : List Event
life =
    fill (pos 3000000) 1700000101000
    ∷ move OrderState.pending 1700000102000 []
    ∷ move OrderState.cancelled 1700000103000 (codes "settlement sweep")
    ∷ fill (pos 1000000) 1700000104000
    ∷ []

life_ends : (run order life).state ≡ OrderState.cancelled
unfolding run step transition apply_fill ◌+ℤ◌
life_ends = refl

order-IsWithin : IsWithin order
order-IsWithin = (omega arith, omega arith)

run-IsWithin_example :
    IsWithin (run order life)
    × (order.filled_size ≤ℤ (run order life).filled_size)
    × SameTerms order (run order life)
run-IsWithin_example = run-IsWithin life order order-IsWithin

abbrev rejected_order : Order
rejected_order = record order { state = OrderState.rejected; filled_size = pos 0 }

run-terminal_example : run rejected_order life ≡ rejected_order
run-terminal_example = run-terminal life rejected_order refl

abbrev two_sizes : List Decimal
two_sizes = pos 3000000 ∷ pos 9000000 ∷ []

run-fills_example :
    (run order (fills 1700000101000 two_sizes)).filled_size
    ≡ min_ℤ (pos 10000000) (pos 2000000 +ℤ Laws.sum two_sizes)
run-fills_example =
    run-fills two_sizes order 1700000101000 (omega arith, (omega arith, tt)) order-IsWithin refl

-- fills

abbrev stored_fill : Fill
stored_fill = record a_fill { trace_id = codes "t"; engine = codes "WINDOWS" }

abbrev store_after_fill : Store
store_after_fill = record {
  orders =
      record order {
        state = OrderState.partial;
        filled_size = pos 5000000;
        updated_at = 1700000101500;
      }
      ∷ [];
  fills = stored_fill ∷ [];
}

ingest-a_fill :
    ingest slug (a_fill ∷ []) 1700000101500 store ≡ (store_after_fill, ok (stored_fill ∷ []))
unfolding ingest ingest_from ingest_one orders_for save_fill save_order upsert apply_fill text_eq
    ◌+ℤ◌
ingest-a_fill = refl

ingest_twice_example :
    ingest slug (a_fill ∷ []) 1700000109000 store_after_fill ≡ (store_after_fill, ok [])
ingest_twice_example =
    ingest_twice slug (a_fill ∷ []) (stored_fill ∷ []) 1700000101500 1700000109000 store
      store_after_fill ingest-a_fill

abbrev foreign_fill : Fill
foreign_fill = record a_fill { order_id = codes "btc-updown-5m:60:7:0" }

no_such_order : any (has_order (codes "btc-updown-5m:60:7:0")) store.orders ≡ false
unfolding text_eq
no_such_order = refl

ingest_unlinked_example :
    ingest slug (foreign_fill ∷ a_fill ∷ []) 1700000101500 store
    ≡ (store, err (storage foreign_key))
ingest_unlinked_example =
    ingest_unlinked slug foreign_fill (a_fill ∷ []) 1700000101500 store (omega arith) no_such_order
      refl

-- the sweep: the venue acknowledges no cancel

abbrev lost : Order → Option VenueError
lost o = some (connection_lost (codes "no answer"))

sweep_accounts_example :
    (s' : Store) × (r : SweepResult) × (sweep lost slug 1700000298000 (some (codes "WINDOWS")) store
      ≡ ok (s', r))
    × All
        (λ o.
          Concerns slug (some (codes "WINDOWS")) o
          → is_live o ≡ true
          → (o.state ≡ OrderState.indeterminate) × (any (text_eq o.order_id) r.unknown ≡ true))
        s'.orders
sweep_accounts_example = sweep_accounts lost slug 1700000298000 (some (codes "WINDOWS")) store
