-- ===== src/Execution/Submit/Single.antt =====
-- Submitting an intent as one order.
use lufy.Prelude.{
  ℕ, ◌*◌, ◌/◌, ◌≤◌, ◌<◌, ◌≡◌, refl, ◌∙◌, ap, inl, inr, List, [], ◌∷◌, Text, ok, length, arith,
}
use lufy.Prelude.Int.{pos}
use lufy.Domain.Enums.{MarketPhase, OrderState}
use lufy.Domain.Models.{Decimal, Order, ExecutionIntent}
use lufy.Execution.Store.{Store, save_order}
use lufy.Execution.Orders.{new_order}
use lufy.Execution.Split.{split_size}
use lufy.Execution.Split.Sizes.{split_size_exact}
use lufy.Execution.Submit.{Place, place_one, place_all, plan, orders_from, submit}
use lufy.Execution.Submit.Place.{place_one-Returns}

place_one_returns :
    (place : Place) (o : Order) (now : ℕ) (s : Store)
    → o.state ≡ OrderState.pending
    → (s' : Store) × (o' : Order) × (place_one place o now s ≡ ok (s', o'))
place_one_returns place o now s fresh = elim (place_one-Returns place o now s fresh) [
  | inl (row, found, e) ↦ (s, row, e)
  | inr (new, r) ↦ (save_order r.order (save_order o s), r.order, r.returned)
]

place_all_one :
    (place : Place) (i : ExecutionIntent) (engine : Text) (now : ℕ) (s : Store) (sizes : List ℕ)
    → length sizes ≡ 1
    → (s' : Store) × (o : Order) × (place_all place (orders_from i engine now 0 sizes) now s
        ≡ ok (s', o ∷ []))
unfolding place_all new_order
place_all_one place i engine now s [] one = ground arith
place_all_one place i engine now s (x ∷ []) one =
    let (s', o, e) =
      place_one_returns place
        (new_order i.market_slug i.offset_seconds 0 0 i.direction i.limit_price (pos x) now
          i.trace_id engine)
        now s refl in
    (s', o, rw e refl)
place_all_one place i engine now s (x ∷ y ∷ sizes) one = ground arith

-- An intent whose size reaches the minimum is submitted as one order on an active market: whatever
-- the venue answers, the call returns with that order.
pub submit_one :
    (place : Place) (i : ExecutionIntent) (phase : MarketPhase) (now minimum step : ℕ)
    (engine : Text) (s : Store) (t : ℕ)
    → phase ≡ MarketPhase.active
    → i.size ≡ pos t
    → 0 < minimum
    → 0 < step
    → minimum ≤ t / step * step
    → (s' : Store) × (o : Order) × (submit place i 1 phase now minimum step engine s
        ≡ ok (s', o ∷ []))
unfolding submit plan place_all
submit_one place i phase now minimum step engine s t active size pm ps enough =
    let (sizes, split, _, count, some, _) =
      split_size_exact t 1 minimum step (omega arith) pm ps enough in
    let (s', o, e) = place_all_one place i engine now s sizes (omega arith) in
    let split_so : split_size i.size 1 minimum step ≡ ok sizes =
      ap (λ (x : Decimal). split_size x 1 minimum step) size ∙ split in
    (s', o, rw (active, split_so) e)
