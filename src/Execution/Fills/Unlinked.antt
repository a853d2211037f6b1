-- ===== src/Execution/Fills/Unlinked.antt =====
-- A fill of an order that the store does not have.
use lufy.Prelude.{
  ℕ, ◌≡◌, refl, ap, false, List, [], ◌∷◌, any, keep, none, Text, err, arith, Bool-cases, inl, inr,
}
use lufy.Prelude.Int.{pos, ◌<ℤ◌}
use lufy.Domain.Models.{Order, Fill}
use lufy.Execution.Store.{
  Store, foreign_key, save_fill, same_fill, has_order, in_market, insert_by_time, by_created_at,
}
use lufy.Execution.Fills.{storage, Step, and_then, ingest_one, ingest_from, ingest, get}

get-insert_by_time :
    (id : Text) (o : Order) (rows : List Order)
    → has_order id o ≡ false
    → get id rows ≡ none
    → get id (insert_by_time o rows) ≡ none
get-insert_by_time id o [] h k = ground arith
get-insert_by_time id o (r ∷ rows) h k = ground (arith, get-insert_by_time id o rows h)

get-orders_for :
    (id slug : Text) (rows : List Order)
    → any (has_order id) rows ≡ false
    → get id (by_created_at (keep (in_market slug) rows)) ≡ none
get-orders_for id slug [] h = refl
get-orders_for id slug (r ∷ rows) h = elim (Bool-cases (in_market slug r)) [
  | inl here ↦ rw here (
      get-insert_by_time id r (by_created_at (keep (in_market slug) rows)) (ground arith)
        (get-orders_for id slug rows (ground arith)))
  | inr other ↦ rw other (get-orders_for id slug rows (ground arith))
]

ingest_one_unlinked :
    (f : Fill) (now : ℕ) (s : Store) (book : List Order)
    → pos 0 <ℤ f.size
    → any (has_order f.order_id) s.orders ≡ false
    → any (same_fill f.fill_id) s.fills ≡ false
    → get f.order_id book ≡ none
    → ingest_one f now s book [] ≡ (s, err (storage foreign_key))
unfolding ingest_one save_fill
ingest_one_unlinked f now s book p no_order no_fill missing = ground arith

-- A new fill of an order that is not stored is not recorded: the foreign key of the fills table
-- refuses the row, the pass raises, and the store stays as it is, so that the fills behind it in
-- the batch are not taken either.
pub ingest_unlinked :
    (market_slug : Text) (f : Fill) (rest : List Fill) (now : ℕ) (s : Store)
    → pos 0 <ℤ f.size
    → any (has_order f.order_id) s.orders ≡ false
    → any (same_fill f.fill_id) s.fills ≡ false
    → ingest market_slug (f ∷ rest) now s ≡ (s, err (storage foreign_key))
unfolding ingest
ingest_unlinked market_slug f rest now s p no_order no_fill =
    let missing = get-orders_for f.order_id market_slug s.orders no_order in
    ap (λ (st : Step). and_then st (ingest_from rest now))
      (ingest_one_unlinked f now s _ p no_order no_fill missing)
