-- ===== src/Execution/Reprice/Ends.antt =====
-- The ways in which a pass over a resting order can end.
use lufy.Prelude.{ℕ, ◌+◌, ◌≤◌, ◌≡◌, ◌≢◌, Option, none, some, List, Text, ok}
use lufy.Domain.Enums.{OrderState}
use lufy.Domain.Models.{Decimal, Order, remaining_size}
use lufy.Execution.Ids.{order_id_for}
use lufy.Execution.Store.{Store, save_order}
use lufy.Execution.Submit.Place.{IsSettled}
use lufy.Execution.Reprice.{RepricePolicy, Answers, PassResult, max_price_retries, target}

-- The order after a change of its state.
pub record IsMoved (o o' : Order) (state : OrderState) : Type 0 where
  pub same_id : o'.order_id ≡ o.order_id
  pub new_state : o'.state ≡ state

-- A successor: its place in the chain, the part that is not filled, and the price of the policy.
pub record Succeeds (p : RepricePolicy) (best : Option Decimal) (o : Order) (index generation : ℕ)
    (n : Order) : Type 0 where
  pub next_id :
      n.order_id ≡ order_id_for o.market_slug o.offset_seconds index (generation + 1) o.engine
  pub side : n.direction ≡ o.direction
  pub owner : n.engine ≡ o.engine
  pub remainder : n.size ≡ remaining_size o
  pub moved_price : target p o.price best o.direction ≡ some n.price

-- How a pass ends, with the passes counted anew.
pub data Ends (p : RepricePolicy) (a : Answers) (o : Order) (index generation : ℕ) (s : Store)
    (res : PassResult) : Type 0 where
  kept :
      (passes : List (Text × ℕ))
      → res ≡ (record { passes = passes; store = s }, ok o)
      → Ends p a o index generation s res
  in_question :
      (passes : List (Text × ℕ)) (o' : Order)
      → IsMoved o o' OrderState.indeterminate
      → a.cancel ≢ none
      → res ≡ (record { passes = passes; store = save_order o' s }, ok o')
      → Ends p a o index generation s res
  ended :
      (passes : List (Text × ℕ)) (o' : Order)
      → IsMoved o o' OrderState.cancelled
      → a.cancel ≡ none
      → res ≡ (record { passes = passes; store = save_order o' s }, ok o')
      → Ends p a o index generation s res
  replaced :
      (passes : List (Text × ℕ)) (o' n n' : Order)
      → IsMoved o o' OrderState.cancelled
      → a.cancel ≡ none
      → generation + 1 ≤ max_price_retries
      → Succeeds p a.best o index generation n
      → n'.order_id ≡ n.order_id
      → IsSettled n'.state
      → res ≡ (
        record { passes = passes; store = save_order n' (save_order n (save_order o' s)) },
        ok n',
      )
      → Ends p a o index generation s res
