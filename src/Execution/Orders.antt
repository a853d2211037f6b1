-- ===== src/Execution/Orders.antt =====
-- arc/execution/orders.py: the legal transitions of an order, a new order, and a fill.
pub mod Laws
use lufy.Prelude.{
  ℕ, ◌+◌, Bool, true, false, not, ◌&&◌, ◌||◌, List, [], ◌∷◌, any, Text, is_empty, Result, ok, err,
  if◌then◌else◌,
}
use lufy.Prelude.Int.{ℤ, pos, ◌+ℤ◌, leb_ℤ, min_ℤ}
use lufy.Domain.Enums.{
  Direction, OrderState, same_state, in_live_order_states, in_terminal_order_states,
}
use lufy.Domain.Models.{Decimal, Order}
use lufy.Execution.Ids.{OrderError, no_op, illegal, bad_fill, not_live, chain_id_for, order_id_for}

-- `LEGAL_ORDER_TRANSITIONS`
abbrev pub legal_order_transitions : OrderState → List OrderState
legal_order_transitions OrderState.pending =
    OrderState.submitted ∷ OrderState.rejected ∷ OrderState.expired ∷ OrderState.indeterminate ∷ []
legal_order_transitions OrderState.submitted =
    OrderState.partial ∷ OrderState.filled ∷ OrderState.cancelled ∷ OrderState.expired
    ∷ OrderState.rejected ∷ OrderState.indeterminate ∷ []
legal_order_transitions OrderState.partial =
    OrderState.filled ∷ OrderState.cancelled ∷ OrderState.expired ∷ OrderState.indeterminate ∷ []
legal_order_transitions OrderState.indeterminate =
    OrderState.submitted ∷ OrderState.partial ∷ OrderState.filled ∷ OrderState.cancelled
    ∷ OrderState.expired ∷ OrderState.rejected ∷ []
legal_order_transitions OrderState.filled = []
legal_order_transitions OrderState.cancelled = []
legal_order_transitions OrderState.expired = []
legal_order_transitions OrderState.rejected = []

-- `target in LEGAL_ORDER_TRANSITIONS[state]`
abbrev pub is_legal : OrderState → OrderState → Bool
is_legal state target = any (same_state target) (legal_order_transitions state)

-- `is_terminal`
abbrev pub is_terminal : OrderState → Bool
is_terminal = in_terminal_order_states

unfoldable pub new_order :
    Text → ℕ → ℕ → ℕ → Direction → Decimal → Decimal → ℕ → Text → Text → Order
new_order market_slug offset_seconds index generation direction price size now trace_id engine =
    record {
      order_id = order_id_for market_slug offset_seconds index generation engine;
      market_slug = market_slug;
      offset_seconds = offset_seconds;
      direction = direction;
      price = price;
      size = size;
      state = OrderState.pending;
      filled_size = pos 0;
      created_at = now;
      updated_at = now;
      venue_order_id = [];
      reprice_chain_id = chain_id_for market_slug offset_seconds index engine;
      rejection_reason = [];
      trace_id = trace_id;
      engine = engine;
    }

-- The legality check comes first: a refused transition has changed nothing.
unfoldable pub transition : Order → OrderState → ℕ → Text → Result OrderError Order
transition o target now reason =
    if same_state target o.state
    then err no_op
    else if not (is_legal o.state target)
    then err illegal
    else ok (record o {
      state = target;
      updated_at = now;
      rejection_reason = if is_empty reason then o.rejection_reason else reason;
    })

unfoldable pub apply_fill : Order → Decimal → ℕ → Result OrderError Order
apply_fill o size now =
    if leb_ℤ size (pos 0)
    then err bad_fill
    else if not (in_live_order_states o.state)
    then err not_live
    else let filled = min_ℤ o.size (o.filled_size +ℤ size) in
      ok (record o {
        filled_size = filled;
        updated_at = now;
        state = if leb_ℤ o.size filled then OrderState.filled else OrderState.partial;
      })
