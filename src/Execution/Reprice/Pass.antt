-- ===== src/Execution/Reprice/Pass.antt =====
-- How a pass over one resting order can end.
use lufy.Prelude.{ℕ, ◌+◌, ◌≡◌, true, false, ◌∷◌, ◌++◌, Text, ok}
use lufy.Domain.Enums.{OrderState, same_state}
use lufy.Domain.Models.{Order}
use lufy.Execution.Ids.{colon, print, engine_prefix, chain_id_for, order_id_for}
use lufy.Execution.Ids.Decimals.{read_from-print, isdigit-print, has_colon-print}
use lufy.Execution.Ids.Laws.{
  rpartition-middle, chain_id_for-split, order_id_for-split, next_generation_id-order_id_for,
  has_colon-middle,
}
use lufy.Execution.Orders.{transition, is_legal}
use lufy.Execution.Sweep.Moves.{moved}
use lufy.Execution.Reprice.{
  RepriceState, PassResult, last_number, generation_of, index_of, save_in, move_and,
}

last_number-print : (s : Text) (n : ℕ) → last_number (s ++ (colon ∷ print n)) ≡ ok n
unfolding last_number
last_number-print s n = rw (
  rpartition-middle s (print n) (has_colon-print n),
  has_colon-middle s (print n),
  isdigit-print n,
  read_from-print n,
)

-- An order whose ids are derived: the market's, the window's, the piece's, the generation's.
pub record IsDerived (o : Order) (index generation : ℕ) : Type 0 where
  pub id : o.order_id ≡ order_id_for o.market_slug o.offset_seconds index generation o.engine
  pub chain : o.reprice_chain_id ≡ chain_id_for o.market_slug o.offset_seconds index o.engine

pub generation_of-IsDerived :
    (o : Order) (index generation : ℕ)
    → IsDerived o index generation
    → generation_of o ≡ ok (generation + 1)
unfolding generation_of
generation_of-IsDerived o index generation d =
    rw
      (
        d.id,
        next_generation_id-order_id_for o.market_slug o.offset_seconds index generation o.engine,
        order_id_for-split o.market_slug o.offset_seconds index (generation + 1) o.engine,
      )
      (last_number-print (chain_id_for o.market_slug o.offset_seconds index o.engine)
        (generation + 1))

pub index_of-IsDerived :
    (o : Order) (index generation : ℕ) → IsDerived o index generation → index_of o ≡ ok index
unfolding index_of
index_of-IsDerived o index generation d =
    rw (d.chain, chain_id_for-split o.market_slug o.offset_seconds index o.engine)
      (last_number-print
        (engine_prefix o.engine ++ (o.market_slug ++ (colon ∷ print o.offset_seconds))) index)

pub move_and_legal :
    (o : Order) (t : OrderState) (now : ℕ) (reason : Text) (st : RepriceState)
    (rest : Order → RepriceState → PassResult)
    → (is_legal o.state t ≡ true) × (same_state t o.state ≡ false)
    → move_and o t now reason st rest
      ≡ rest (moved o t now reason) (save_in (moved o t now reason) st)
unfolding transition
move_and_legal o t now reason st rest (legal, other) = rw (other, legal)
