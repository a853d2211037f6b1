-- ===== src/Execution/Tests/Following.antt =====
-- Reconciling, repricing and throttling, and the theorems at these values.
use lufy.Prelude.{
  ℕ, ◌≡◌, refl, true, false, none, some, List, [], ◌∷◌, codes, any, All, Text, text_eq, ok, ◌*◌,
  ◌≤◌, ◌+◌, arith,
}
use lufy.Prelude.Int.{pos}
use lufy.Domain.Enums.{OrderState, default_engine}
use lufy.Domain.Models.{Order}
use lufy.Execution.Ids.{order_id_for, chain_id_for, engine_prefix, print, digits}
use lufy.Execution.Store.{Store, orders_for, has_order}
use lufy.Execution.Sweep.Clean.{Concerns}
use lufy.Prelude.{◌↔◌}
use lufy.Execution.Reconcile.{VenueOrder, ReconcileResult, resolve, reconcile, is_clean}
use lufy.Execution.Reconcile.Settle.{Settled, resolve-Settled}
use lufy.Execution.Reconcile.Clean.{is_unknown, reconcile_settles}
use lufy.Execution.Reprice.{RepricePolicy, Answers, maybe_reprice}
use lufy.Execution.Reprice.Pass.{IsDerived}
use lufy.Execution.Reprice.Ends.{Ends}
use lufy.Execution.Reprice.Chain.{maybe_reprice-Ends}
use lufy.Execution.RateLimit.{TokenBucket, token, new_bucket, refill, take, missing}
use lufy.Execution.RateLimit.Laws.{granted, forward, granted_bounded, take_after_delay}
use lufy.Execution.Tests.{slug, order, store}

-- reconciliation: the venue has one order, which the store does not know as unknown

abbrev unknown_order : Order
unknown_order = record order { state = OrderState.indeterminate }

abbrev unsure : Store
unsure = record { orders = unknown_order ∷ []; fills = [] }

abbrev venue_order : VenueOrder
venue_order = record {
  venue_order_id = codes "0xabc";
  client_order_id = codes "btc-updown-5m:60:0:0";
  price = pos 820000;
  size = pos 10000000;
  filled_size = pos 4000000;
  resting = true;
}

resolve-Settled_example :
    Settled unknown_order
      (some venue_order)
      unsure
      (resolve unknown_order (some venue_order) 1700000200000 unsure)
resolve-Settled_example = resolve-Settled unknown_order (some venue_order) 1700000200000 unsure refl

reconcile_settles_example :
    (s' : Store) × (r : ReconcileResult) × (reconcile
        (venue_order ∷ [])
        slug
        1700000200000
        none
        unsure
      ≡ ok (s', r))
    × All (λ o. Concerns slug none o → is_unknown o ≡ false) s'.orders
    × ((is_clean r ≡ true)
        ↔ All
            (λ v. any (has_order v.client_order_id) (orders_for slug unsure) ≡ true)
            (venue_order ∷ []))
reconcile_settles_example = reconcile_settles (venue_order ∷ []) slug 1700000200000 none unsure

-- repricing: the order rests a cent below the best bid, and has had its passes

abbrev policy : RepricePolicy
policy = record { band_min = pos 550000; band_max = pos 850000; tick = pos 10000 }

abbrev accepting : Answers
accepting = record { best = some (pos 830000); cancel = none; place = λ o. ok (codes "0xdef") }

abbrev plain_order : Order
plain_order = record order { engine = default_engine }

plain_order-IsDerived : IsDerived plain_order 0 0
unfolding order_id_for chain_id_for engine_prefix print digits text_eq
plain_order-IsDerived = record { id = refl; chain = refl }

abbrev five_passes : List (Text × ℕ)
five_passes = (codes "btc-updown-5m:60:0", 5) ∷ []

maybe_reprice-Ends_example : Ends policy accepting plain_order 0 0 store (
    maybe_reprice policy 5 accepting plain_order 1700000200000
      (record { passes = five_passes; store = store }))
maybe_reprice-Ends_example =
    maybe_reprice-Ends policy 5 accepting 1700000200000 plain_order 0 0 five_passes store
      plain_order-IsDerived

-- the token bucket: ten a second, at most twenty at once, and a clock that is set back

abbrev bucket : TokenBucket
bucket = record { sustained = 10; burst = 20; tokens = 20 * 1000; last = 1700000100000 }

bucket-new : new_bucket 10 20 1700000100000 ≡ ok bucket
unfolding new_bucket
bucket-new = refl

abbrev request_times : List ℕ
request_times = 1700000100000 ∷ 1700000100050 ∷ 1700000099000 ∷ 1700000100010 ∷ 1700000100020 ∷ []

granted_bounded_example :
    granted request_times bucket * token ≤ 20 * token + forward 1700000100000 request_times * 10
granted_bounded_example = granted_bounded request_times 10 20 1700000100000 bucket bucket-new

abbrev empty_bucket : TokenBucket
empty_bucket = record bucket { tokens = 400 }

empty_bucket-refuses : (take 1700000100010 empty_bucket).1 ≡ false
unfolding take refill
empty_bucket-refuses = refl

empty_bucket-waits : (missing 1700000100010 empty_bucket).1 ≤ 50 * 10
unfolding missing refill
empty_bucket-waits = omega arith

take_after_delay_example : (take (1700000100010 + 50) (take 1700000100010 empty_bucket).0).1 ≡ true
take_after_delay_example =
    take_after_delay 1700000100010 50 empty_bucket (omega arith) (omega arith) empty_bucket-refuses
      empty_bucket-waits
