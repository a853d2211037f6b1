-- ===== src/Execution/Orders/Laws.antt =====
-- What an order's transitions and fills keep.
use lufy.Prelude.{ℕ, ◌≡◌, refl, ◌⊎◌, inl, ◌∙◌, All, true, List, [], ◌∷◌, Text, after_call, arith}
use mathlib.Core.Path.{ap₂}
use lufy.Prelude.Int.{ℤ, pos, ◌+ℤ◌, ◌≤ℤ◌, ◌<ℤ◌, min_ℤ, int_laws, +ℤ_parts}
use lufy.Domain.Enums.{OrderState, in_live_order_states, in_terminal_order_states}
use lufy.Domain.Models.{Decimal, Order}
use lufy.Execution.Orders.{transition, apply_fill}

-- What may happen to an order: a transition, or a fill.
pub data Event : Type 0 where
  move : OrderState → ℕ → Text → Event
  fill : Decimal → ℕ → Event

unfoldable pub step : Order → Event → Order
unfolding transition apply_fill
step o (move target now reason) = after_call o (transition o target now reason)
step o (fill size now) = after_call o (apply_fill o size now)

unfoldable pub run : Order → List Event → Order
run o [] = o
run o (e ∷ es) = run (step o e) es

-- What was approved of an order: its identity, its market and side, its price and its size.
pub record SameTerms (o o' : Order) : Type 0 where
  pub order_id : o'.order_id ≡ o.order_id
  pub market : o'.market_slug ≡ o.market_slug
  pub window : o'.offset_seconds ≡ o.offset_seconds
  pub direction : o'.direction ≡ o.direction
  pub price : o'.price ≡ o.price
  pub size : o'.size ≡ o.size
  pub engine : o'.engine ≡ o.engine
  pub chain : o'.reprice_chain_id ≡ o.reprice_chain_id

-- The filled quantity lies between nothing and the approved size.
abbrev pub IsWithin : Order → Type 0
IsWithin o = (pos 0 ≤ℤ o.filled_size) × (o.filled_size ≤ℤ o.size)

step_lem :
    (o : Order) (e : Event)
    → IsWithin o
    → IsWithin (step o e) × (o.filled_size ≤ℤ (step o e).filled_size) × SameTerms o (step o e)
unfolding step
step_lem o (move target now reason) w = ground arith
step_lem o (fill size now) w = ground (arith, +ℤ_parts o.filled_size size)

SameTerms-trans : (a b c : Order) → SameTerms a b → SameTerms b c → SameTerms a c
SameTerms-trans a b c h k = ground arith

-- Through any transitions and fills, refused or not, the filled quantity stays within the size and
-- never falls, and the terms under which the order was approved stay as they are.
pub run-IsWithin :
    (es : List Event) (o : Order)
    → IsWithin o
    → IsWithin (run o es) × (o.filled_size ≤ℤ (run o es).filled_size) × SameTerms o (run o es)
unfolding run
run-IsWithin [] o w = ground arith
run-IsWithin (e ∷ es) o w =
    let (within, grows, terms) = step_lem o e w in
    let (within', grows', terms') = run-IsWithin es (step o e) within in
    (within', omega arith, SameTerms-trans o (step o e) (run o (e ∷ es)) terms terms')

step-terminal : (o : Order) (e : Event) → in_terminal_order_states o.state ≡ true → step o e ≡ o
unfolding step
step-terminal o (move target now reason) h = ground arith
step-terminal o (fill size now) h = ground arith

-- A terminal order never changes again: every transition and every fill is refused.
pub run-terminal :
    (es : List Event) (o : Order) → in_terminal_order_states o.state ≡ true → run o es ≡ o
unfolding run
run-terminal [] o h = refl
run-terminal (e ∷ es) o h = rw (step-terminal o e h) (run-terminal es o h)

-- The fills of the given sizes, at one instant.
abbrev pub fills : ℕ → List Decimal → List Event
fills now [] = []
fills now (size ∷ sizes) = fill size now ∷ fills now sizes

abbrev pub sum : List Decimal → Decimal
sum [] = pos 0
sum (size ∷ sizes) = size +ℤ sum sizes

-- Either the order can take a fill, or it has been filled whole.
abbrev Takes : Order → Type 0
Takes o = (in_live_order_states o.state ≡ true) ⊎ (o.filled_size ≡ o.size)

step-fill :
    (o : Order) (size : Decimal) (now : ℕ)
    → pos 0 <ℤ size
    → IsWithin o
    → Takes o
    → ((step o (fill size now)).filled_size ≡ min_ℤ o.size (o.filled_size +ℤ size))
      × ((step o (fill size now)).size ≡ o.size)
      × Takes (step o (fill size now))
unfolding step
step-fill o size now p w t = grind (int_laws)

sum_nonneg : (sizes : List Decimal) → All (λ size. pos 0 <ℤ size) sizes → pos 0 ≤ℤ sum sizes
sum_nonneg [] p = omega arith
sum_nonneg (size ∷ sizes) p = omega (int_laws, sum_nonneg sizes p.1)

min_twice : (a f x y : ℤ) → pos 0 ≤ℤ y → min_ℤ a (min_ℤ a (f +ℤ x) +ℤ y) ≡ min_ℤ a (f +ℤ (x +ℤ y))
min_twice a f x y h = grind int_laws

run-fills_from :
    (sizes : List Decimal) (o : Order) (now : ℕ)
    → All (λ size. pos 0 <ℤ size) sizes
    → IsWithin o
    → Takes o
    → (run o (fills now sizes)).filled_size ≡ min_ℤ o.size (o.filled_size +ℤ sum sizes)
unfolding run
run-fills_from [] o now p w t = grind int_laws
run-fills_from (size ∷ sizes) o now p w t =
    let (filled, same, takes) = step-fill o size now p.0 w t in
    let within = (step_lem o (fill size now) w).0 in
    let rest = run-fills_from sizes (step o (fill size now)) now p.1 within takes in
    rest
    ∙ ap₂ (λ (whole part : ℤ). min_ℤ whole (part +ℤ sum sizes)) same filled
    ∙ min_twice o.size o.filled_size size (sum sizes) (sum_nonneg sizes p.1)

-- Fills accumulate exactly: a live order that takes fills of positive sizes, one after the other,
-- ends with the sum of what it had and what they bring, capped at its size.
pub run-fills :
    (sizes : List Decimal) (o : Order) (now : ℕ)
    → All (λ size. pos 0 <ℤ size) sizes
    → IsWithin o
    → in_live_order_states o.state ≡ true
    → (run o (fills now sizes)).filled_size ≡ min_ℤ o.size (o.filled_size +ℤ sum sizes)
run-fills sizes o now p w live = run-fills_from sizes o now p w (inl live)
