-- ===== src/Execution/Reprice/Chain.antt =====
-- A pass over a resting order: it keeps the order, or it ends it before its successor exists.
use lufy.Prelude.{
  ℕ, ◌+◌, ◌≤◌, ◌≡◌, ◌≢◌, refl, sym, ◌⊎◌, inl, inr, true, false, ◌||◌, Option, none, some, List, [],
  Text, codes, Result, ok, err, arith, Bool-cases, leb, ltb,
}
use mathlib.Core.Path.{subst}
use lufy.Prelude.Int.{pos, leb_ℤ}
use lufy.Domain.Enums.{OrderState, same_state}
use lufy.Domain.Models.{Decimal, Order, remaining_size}
use lufy.Execution.Orders.{new_order, is_legal}
use lufy.Execution.Venue.{VenueError, Disposition, classify, message, rejection_reason}
use lufy.Execution.Store.{Store, save_order}
use lufy.Execution.Sweep.Moves.{moved}
use lufy.Execution.Submit.Place.{sent, refused, in_doubt}
use lufy.Execution.Reprice.{
  RepricePolicy, RepriceState, Answers, PassResult, max_price_retries, target, index_of, passes_of,
  set_passes, pop, placed, replace_with, not_cancelled, cancelled_then, consider, in_generation,
  maybe_reprice, is_indeterminate,
}
use lufy.Execution.Reprice.Pass.{
  IsDerived, generation_of-IsDerived, index_of-IsDerived, move_and_legal,
}
use lufy.Execution.Reprice.Ends.{IsMoved, Succeeds, Ends, kept, in_question, ended, replaced}

module _ (p : RepricePolicy) (a : Answers) (now : ℕ) (o : Order) (index generation : ℕ) where
  -- The placement of a saved successor.
  placed-Ends :
      (answer : Result VenueError Text) (chain : Text) (o' n : Order) (passes : List (Text × ℕ))
      (s : Store)
      → IsMoved o o' OrderState.cancelled
      → a.cancel ≡ none
      → generation + 1 ≤ max_price_retries
      → Succeeds p a.best o index generation n
      → n.state ≡ OrderState.pending
      → Ends p a o index generation s (
          placed answer chain n now
            (record { passes = passes; store = save_order n (save_order o' s) }))
  placed-Ends (err e) chain o' n passes s c acked within succ new =
      let st : RepriceState = record { passes = passes; store = save_order n (save_order o' s) } in
      elim (Bool-cases (is_indeterminate (classify e))) [
        | inl lost ↦ rw lost (
            replaced passes o' n (moved n OrderState.indeterminate now (rejection_reason e)) c acked
              within succ refl in_doubt
              (move_and_legal n OrderState.indeterminate now (rejection_reason e) st
                (λ x st'. (st', ok x)) (ground arith)))
        | inr refusal ↦ rw refusal (
            replaced passes o' n (moved n OrderState.rejected now (rejection_reason e)) c acked
              within succ refl refused
              (move_and_legal n OrderState.rejected now (rejection_reason e) st
                (λ x st'. (st', ok x)) (ground arith)))
      ]
  placed-Ends (ok venue_id) chain o' n passes s c acked within succ new =
      let st : RepriceState = record { passes = passes; store = save_order n (save_order o' s) } in
      let sent_order : Order = record n { venue_order_id = venue_id } in
      replaced (set_passes chain 0 passes) o' n (moved sent_order OrderState.submitted now []) c
        acked within succ refl sent
        (move_and_legal sent_order OrderState.submitted now [] st
          (λ x st'. (record st' { passes = set_passes chain 0 st'.passes }, ok x)) (ground arith))

  abbrev retired : Order
  retired = moved o OrderState.cancelled now (codes "reprice")

  retired-IsMoved : IsMoved o retired OrderState.cancelled
  retired-IsMoved = record { same_id = refl; new_state = refl }

  -- The order is cancelled, and what is not filled is placed again.
  replace_with-Ends :
      (price : Decimal) (passes : List (Text × ℕ)) (s : Store)
      → IsDerived o index generation
      → a.cancel ≡ none
      → generation + 1 ≤ max_price_retries
      → target p o.price a.best o.direction ≡ some price
      → Ends p a o index generation s (
          replace_with a price
            (generation + 1)
            retired
            now
            (record { passes = passes; store = save_order retired s }))
  unfolding remaining_size index_of new_order
  replace_with-Ends price passes s d acked within t =
      elim (Bool-cases (leb_ℤ (remaining_size o) (pos 0))) [
        | inl nothing ↦ rw nothing (ended passes retired retired-IsMoved acked refl)
        | inr something ↦
            let n : Order =
              new_order o.market_slug o.offset_seconds index (generation + 1) o.direction price
                (remaining_size o) now o.trace_id o.engine in
            let succ : Succeeds p a.best o index generation n = record {
              next_id = refl;
              side = refl;
              owner = refl;
              remainder = refl;
              moved_price = t;
            } in
            rw (something, index_of-IsDerived o index generation d)
              (placed-Ends (a.place n) o.reprice_chain_id retired n passes s retired-IsMoved acked
                within succ refl)
      ]

  -- The order rests: it has been sent, and it is not filled whole.
  abbrev Rests : Type 0
  Rests = (same_state o.state OrderState.submitted || same_state o.state OrderState.partial) ≡ true

  legal_from_rest :
      (t : OrderState)
      → Rests
      → (t ≡ OrderState.indeterminate) ⊎ (t ≡ OrderState.cancelled)
      → (is_legal o.state t ≡ true) × (same_state t o.state ≡ false)
  legal_from_rest t r h = ground arith

  not_cancelled-Ends :
      (d : Disposition) (e : VenueError) (passes : List (Text × ℕ)) (s : Store)
      → Rests
      → a.cancel ≢ none
      → Ends p a o index generation s
          (not_cancelled d e o now (record { passes = passes; store = s }))
  not_cancelled-Ends Disposition.retry_now e passes s r raised = kept passes refl
  not_cancelled-Ends Disposition.fail e passes s r raised = kept passes refl
  not_cancelled-Ends Disposition.indeterminate e passes s r raised =
      let st : RepriceState = record { passes = passes; store = s } in
      in_question passes (moved o OrderState.indeterminate now (message e))
        (record { same_id = refl; new_state = refl }) raised
        (move_and_legal o OrderState.indeterminate now (message e) st (λ x st'. (st', ok x))
          (legal_from_rest OrderState.indeterminate r (inl refl)))

  cancelled_then-Ends :
      (answer : Option VenueError) (price : Decimal) (passes : List (Text × ℕ)) (s : Store)
      → a.cancel ≡ answer
      → IsDerived o index generation
      → Rests
      → generation + 1 ≤ max_price_retries
      → target p o.price a.best o.direction ≡ some price
      → Ends p a o index generation s (
          cancelled_then answer a price
            (generation + 1)
            o
            now
            (record { passes = passes; store = s }))
  cancelled_then-Ends (some e) price passes s answered d r within t =
      not_cancelled-Ends (classify e) e passes s r (λ acked. ground arith)
  cancelled_then-Ends none price passes s acked d r within t =
      let st : RepriceState = record { passes = passes; store = s } in
      let move =
        move_and_legal o OrderState.cancelled now (codes "reprice") st
          (λ o' st'. replace_with a price (generation + 1) o' now st')
          (legal_from_rest OrderState.cancelled r (inr refl)) in
      subst (λ (res : PassResult). Ends p a o index generation s res) (sym move)
        (replace_with-Ends price passes s d acked within t)

  consider-Ends :
      (price : Option Decimal) (passes : List (Text × ℕ)) (s : Store)
      → IsDerived o index generation
      → Rests
      → generation + 1 ≤ max_price_retries
      → target p o.price a.best o.direction ≡ price
      → Ends p a o index generation s
          (consider price a (generation + 1) o now (record { passes = passes; store = s }))
  consider-Ends none passes s d r within t = kept passes refl
  consider-Ends (some price) passes s d r within t =
      cancelled_then-Ends a.cancel price passes s refl d r within t

  in_generation-Ends :
      (pre_attempts : ℕ) (passes : List (Text × ℕ)) (s : Store)
      → IsDerived o index generation
      → Rests
      → Ends p a o index generation s (
          in_generation p pre_attempts a
            (ok (generation + 1))
            o
            now
            (record { passes = passes; store = s }))
  in_generation-Ends pre_attempts passes s d r =
      elim (Bool-cases (ltb max_price_retries (generation + 1))) [
        | inl spent ↦ rw spent (kept (pop o.reprice_chain_id passes) refl)
        | inr left ↦
            elim (Bool-cases (leb (passes_of o.reprice_chain_id passes + 1) pre_attempts)) [
              | inl early ↦
                  rw (left, early)
                    (kept
                      (set_passes o.reprice_chain_id (passes_of o.reprice_chain_id passes + 1)
                        passes)
                      refl)
              | inr due ↦
                  rw (left, due)
                    (consider-Ends (target p o.price a.best o.direction)
                      (set_passes o.reprice_chain_id (passes_of o.reprice_chain_id passes + 1)
                        passes)
                      s d r (ground arith) refl)
            ]
      ]

-- A pass over an order with derived ids always returns, whatever the venue answers, and leaves the
-- store as it is, or with the order in question after a cancel that raised, or with the order
-- cancelled after a cancel that was acknowledged. A successor exists only in the last case: the
-- next of the chain, within the limit of retries, of the part that is not filled, at the price of
-- the policy, and submitted, rejected or in question.
pub maybe_reprice-Ends :
    (p : RepricePolicy) (pre_attempts : ℕ) (a : Answers) (now : ℕ) (o : Order)
    (index generation : ℕ) (passes : List (Text × ℕ)) (s : Store)
    → IsDerived o index generation
    → Ends p a o index generation s
        (maybe_reprice p pre_attempts a o now (record { passes = passes; store = s }))
unfolding maybe_reprice
maybe_reprice-Ends p pre_attempts a now o index generation passes s d =
    elim (Bool-cases
      (same_state o.state OrderState.submitted || same_state o.state OrderState.partial)) [
        | inr idle ↦ rw idle (kept (pop o.reprice_chain_id passes) refl)
        | inl rests ↦
            rw (rests, generation_of-IsDerived o index generation d)
              (in_generation-Ends p a now o index generation pre_attempts passes s d rests)
      ]
