-- ===== src/Execution/Tests/Submission.antt =====
-- Splitting a size and submitting its ladder, and the theorems at these values.
use lufy.Prelude.{
  ℕ, ◌≡◌, refl, ◌⊎◌, true, none, some, List, [], ◌∷◌, codes, All, min, text_eq, ok, err, length,
  ◌/◌, ◌*◌, ◌<◌, ◌≤◌, ◌+◌, arith, ltb, if◌then◌else◌, text_eq_self,
}
use lufy.Prelude.Int.{pos}
use lufy.Domain.Enums.{Direction, MarketPhase, OrderState}
use lufy.Domain.Models.{Order, ExecutionIntent}
use lufy.Execution.Venue.{connection_lost, transient_latency_reject}
use lufy.Execution.Store.{Store, save_order}
use lufy.Execution.Split.{split_size, distribute, quantize_floor}
use lufy.Execution.Split.Laws.{pieces, piece_count, split_size-pieces, sum}
use lufy.Execution.Split.Sizes.{split_size_exact, split_size_valid}
use lufy.Execution.Submit.{Place, place_one, existing, submit, orders_from}
use lufy.Execution.Submit.Place.{Returns, place_one-Returns}
use lufy.Execution.Submit.Replay.{ids, IsApart, submit_again}
use lufy.Execution.Tests.{slug, majority, order, store}

-- splitting: eleven shares in four orders, a step of one share and a minimum of two

abbrev eleven : ℕ
eleven = 11000000

split_size-eleven :
    split_size (pos 11000000) 4 2000000 1000000 ≡ ok (3000000 ∷ 3000000 ∷ 3000000 ∷ 2000000 ∷ [])
unfolding split_size distribute quantize_floor
split_size-eleven = refl

-- A minimum that is no whole number of steps: the last order does not reach it.
split_size-below_minimum :
    split_size (pos 11000000) 4 2750000 1000000 ≡ ok (3000000 ∷ 3000000 ∷ 3000000 ∷ 2000000 ∷ [])
unfolding split_size distribute quantize_floor
split_size-below_minimum = refl

split_size-pieces_example :
    split_size (pos 11000000) 4 2000000 1000000
    ≡ ok (pieces (11000000 / 1000000) (piece_count 11000000 4 2000000 1000000) 1000000)
split_size-pieces_example =
    split_size-pieces 11000000 4 2000000 1000000 (omega arith) (omega arith) (omega arith)
      (omega arith)

split_size_exact_example :
    (sizes : List ℕ) × (split_size (pos 11000000) 4 2000000 1000000 ≡ ok sizes)
    × (sum sizes ≡ 11000000 / 1000000 * 1000000)
    × (length sizes ≡ min 4 (11000000 / 1000000 * 1000000 / 2000000))
    × (0 < length sizes)
    × ((base : ℕ) × All (λ x. (base ≤ x) × (x ≤ base + 1000000)) sizes)
split_size_exact_example =
    split_size_exact 11000000 4 2000000 1000000 (omega arith) (omega arith) (omega arith)
      (omega arith)

split_size_valid_example :
    (sizes : List ℕ) × (split_size (pos 11000000) 4 (2 * 1000000) 1000000 ≡ ok sizes)
    × All (λ x. (2 * 1000000 ≤ x) × ((m : ℕ) × (x ≡ m * 1000000))) sizes
split_size_valid_example =
    split_size_valid 11000000 4 2 1000000 (omega arith) (omega arith) (omega arith) (omega arith)

-- submission

abbrev new_pending : Order
new_pending = record order {
  order_id = codes "btc-updown-5m:60:1:0";
  state = OrderState.pending;
  filled_size = pos 0;
}

-- A venue that answers twice that it is too busy, and then accepts.
abbrev busy : Place
busy o n = if ltb n 3 then err (transient_latency_reject (codes "busy")) else ok (codes "0xdef")

place_one-Returns_example :
    ((row : Order) × (existing new_pending store ≡ some row)
      × (place_one busy new_pending 1700000100000 store ≡ ok (store, row)))
    ⊎ ((existing new_pending store ≡ none)
        × Returns
            (codes "btc-updown-5m:60:1:0")
            slug
            (save_order new_pending store)
            (place_one busy new_pending 1700000100000 store))
place_one-Returns_example = place_one-Returns busy new_pending 1700000100000 store refl

abbrev intent : ExecutionIntent
intent = record {
  market_slug = slug;
  offset_seconds = 60;
  direction = Direction.up;
  signal_twap = pos 0;
  locked_trigger = pos 0;
  created_at = 1700000100000;
  intent_id = codes "MAJORITY:btc-updown-5m:60";
  trace_id = codes "t";
  opening_twap = pos 0;
  ptb = pos 0;
  buffer = pos 0;
  limit_price = pos 820000;
  size = pos 11000000;
  strategy_id = codes "MAJORITY";
  close_ts = 1700000300;
}

abbrev four : List ℕ
four = 3000000 ∷ 3000000 ∷ 3000000 ∷ 2000000 ∷ []

-- The one stored order is of the market of the intent.
store-IsApart : IsApart intent majority four store
store-IsApart =
    let here : text_eq slug slug ≡ true = text_eq_self slug in
    (((λ h. here), tt), (((λ h. here), tt), (((λ h. here), tt), (((λ h. here), tt), tt))))

submit_again_example :
    (s' : Store) × (placed : List Order) × (again : List Order) × (submit busy intent 4
        MarketPhase.active 1700000100000 2000000 1000000 majority store
      ≡ ok (s', placed))
    × (submit
          (λ o n. err (connection_lost []))
          intent
          4
          MarketPhase.active
          1700000200000
          2000000
          1000000
          majority
          s'
        ≡ ok (s', again))
    × (ids placed ≡ ids (orders_from intent majority 1700000100000 0 four))
    × (ids again ≡ ids placed)
submit_again_example =
    submit_again busy (λ o n. err (connection_lost [])) intent 4 1700000100000 1700000200000 2000000
      1000000 majority store four split_size-eleven store-IsApart
