-- ===== src/Execution/Submit/Place.antt =====
-- Placing one order: the loop ends within its limit, and the order is then persisted in a state
-- that the venue's answers explain.
use lufy.Prelude.{
  ℕ, zero, suc, ◌+◌, ◌≤◌, ◌≡◌, refl, ◌⊎◌, inl, inr, true, false, none, some, [], Text, Result, ok,
  err, ltb, arith, Bool-cases, Option-cases,
}
use lufy.Domain.Enums.{OrderState, same_state}
use lufy.Domain.Models.{Order}
use lufy.Execution.Orders.{transition, is_legal}
use lufy.Execution.Venue.{
  VenueError, Disposition, classify, message, rejection_reason, immediate_retry_limit,
}
use lufy.Execution.Store.{Store, save_order}
use lufy.Execution.Sweep.Moves.{moved}
use lufy.Execution.Submit.{
  Place, Placed, finish, place_failed, place_answered, attempt, existing, place_one,
}

-- The states in which an order may be left.
pub data IsSettled : OrderState → Type 0 where
  sent : IsSettled OrderState.submitted
  refused : IsSettled OrderState.rejected
  in_doubt : IsSettled OrderState.indeterminate

-- A placement that returns, with the order as it stands saved in the store.
pub record Returns (id slug : Text) (s : Store) (res : Placed) : Type 0 where
  pub order : Order
  pub same_id : order.order_id ≡ id
  pub same_market : order.market_slug ≡ slug
  pub settled : IsSettled order.state
  pub returned : res ≡ ok (save_order order s, order)

finish_legal :
    (o : Order) (target : OrderState) (now : ℕ) (reason : Text) (s : Store)
    → (is_legal o.state target ≡ true) × (same_state target o.state ≡ false)
    → finish o target now reason s
      ≡ ok (save_order (moved o target now reason) s, moved o target now reason)
unfolding transition
finish_legal o target now reason s (legal, other) = rw (other, legal)

legal_settled :
    (state target : OrderState)
    → state ≡ OrderState.pending
    → IsSettled target
    → (is_legal state target ≡ true) × (same_state target state ≡ false)
legal_settled state OrderState.pending fresh settled = elim settled [ ]
legal_settled state OrderState.partial fresh settled = elim settled [ ]
legal_settled state OrderState.filled fresh settled = elim settled [ ]
legal_settled state OrderState.cancelled fresh settled = elim settled [ ]
legal_settled state OrderState.expired fresh settled = elim settled [ ]
legal_settled state OrderState.submitted fresh sent = ground arith
legal_settled state OrderState.rejected fresh refused = ground arith
legal_settled state OrderState.indeterminate fresh in_doubt = ground arith

finish-Returns :
    (o : Order) (target : OrderState) (now : ℕ) (reason : Text) (s : Store)
    → o.state ≡ OrderState.pending
    → IsSettled target
    → Returns o.order_id o.market_slug s (finish o target now reason s)
finish-Returns o target now reason s fresh settled = record {
  order = moved o target now reason;
  same_id = refl;
  same_market = refl;
  settled = settled;
  returned = finish_legal o target now reason s (legal_settled o.state target fresh settled);
}

place_failed-Returns :
    (d : Disposition) (e : VenueError) (attempts : ℕ) (o : Order) (now : ℕ) (s : Store)
    (again : Placed)
    → o.state ≡ OrderState.pending
    → (suc attempts ≤ immediate_retry_limit → Returns o.order_id o.market_slug s again)
    → Returns o.order_id o.market_slug s (place_failed d e attempts o now s again)
place_failed-Returns Disposition.indeterminate e attempts o now s again fresh more =
    finish-Returns o OrderState.indeterminate now (message e) s fresh in_doubt
place_failed-Returns Disposition.fail e attempts o now s again fresh more =
    finish-Returns o OrderState.rejected now (rejection_reason e) s fresh refused
place_failed-Returns Disposition.retry_now e attempts o now s again fresh more =
    elim (Bool-cases (ltb attempts immediate_retry_limit)) [
      | inl left ↦ rw left (more (ground arith))
      | inr spent ↦
          rw spent (finish-Returns o OrderState.rejected now (rejection_reason e) s fresh refused)
    ]

place_answered-Returns :
    (a : Result VenueError Text) (attempts : ℕ) (o : Order) (now : ℕ) (s : Store) (again : Placed)
    → o.state ≡ OrderState.pending
    → (suc attempts ≤ immediate_retry_limit → Returns o.order_id o.market_slug s again)
    → Returns o.order_id o.market_slug s (place_answered a attempts o now s again)
place_answered-Returns (ok venue_id) attempts o now s again fresh more =
    finish-Returns (record o { venue_order_id = venue_id }) OrderState.submitted now [] s fresh sent
place_answered-Returns (err e) attempts o now s again fresh more =
    place_failed-Returns (classify e) e attempts o now s again fresh more

-- The fuel and the attempts made add up to the limit.
attempt-Returns :
    (place : Place) (fuel attempts : ℕ) (o : Order) (now : ℕ) (s : Store)
    → o.state ≡ OrderState.pending
    → fuel + attempts ≡ immediate_retry_limit
    → suc attempts ≤ immediate_retry_limit
    → Returns o.order_id o.market_slug s (attempt place fuel attempts o now s)
unfolding attempt
attempt-Returns place zero attempts o now s fresh e left = ground arith
attempt-Returns place (suc fuel) attempts o now s fresh e left =
    place_answered-Returns (place o (suc attempts)) (suc attempts) o now s _ fresh
      (λ more. attempt-Returns place fuel (suc attempts) o now s fresh (ground arith) more)

-- A new order is placed within the limit of attempts, whatever the venue answers to each: the call
-- returns it submitted, rejected or indeterminate, saved over its pending row. An order whose row
-- is stored already is not placed again: that row is returned, and the store stays as it is.
pub place_one-Returns :
    (place : Place) (o : Order) (now : ℕ) (s : Store)
    → o.state ≡ OrderState.pending
    → ((row : Order) × (existing o s ≡ some row) × (place_one place o now s ≡ ok (s, row)))
      ⊎ ((existing o s ≡ none)
          × Returns o.order_id o.market_slug (save_order o s) (place_one place o now s))
unfolding place_one
place_one-Returns place o now s fresh = elim (Option-cases (existing o s)) [
  | inl e ↦ rw e (
      inr (
        refl,
        attempt-Returns place immediate_retry_limit 0 o now (save_order o s) fresh (omega arith)
            (omega arith),
      ))
  | inr (row, e) ↦ rw e (inl (row, refl, refl))
]
