-- ===== src/Execution/Store/Query.antt =====
-- Visiting the rows of a query one by one: what it selects, and which rows are still to be visited.
use lufy.Prelude.{
  ◌≡◌, refl, sym, ◌∙◌, ap, ◌⊎◌, inl, inr, Bool, true, List, [], ◌∷◌, keep, All, Any, Text, text_eq,
  text_eq_self, Bool-cases, leb, true≢false, false,
}
use lufy.Domain.Models.{Order}
use lufy.Execution.Store.{has_order, by_created_at, insert_by_time}

pub All-map :
    {P Q : Order → Type 0} (rows : List Order) → ((r : Order) → P r → Q r) → All P rows → All Q rows
All-map [] f ps = tt
All-map (r ∷ rows) f ps = (f r ps.0, All-map rows f ps.1)

-- A row that is behind the head of the list of those to visit.
pub past_head :
    (o o' r : Order) (rest : List Order)
    → o'.order_id ≡ o.order_id
    → has_order o'.order_id r ≡ false
    → Any (λ q. q ≡ r) (o ∷ rest)
    → Any (λ q. q ≡ r) rest
past_head o o' r rest same miss (inl e) =
    elim (true≢false (
      sym (text_eq_self r.order_id)
      ∙ ap (λ (id : Text). text_eq r.order_id id) (sym (same ∙ ap (λ (q : Order). q.order_id) e))
      ∙ miss)) [ ]
past_head o o' r rest same miss (inr later) = later

-- A row of the table that the query selects is among the rows that it returns.
insert_by_time-Any :
    (r o : Order) (rows : List Order)
    → (o ≡ r) ⊎ Any (λ q. q ≡ r) rows
    → Any (λ q. q ≡ r) (insert_by_time o rows)
insert_by_time-Any r o [] h = h
insert_by_time-Any r o (q ∷ rows) h = elim (Bool-cases (leb o.created_at q.created_at)) [
  | inl first ↦ rw first h
  | inr later ↦ rw later (elim h [
    | inl e ↦ inr (insert_by_time-Any r o rows (inl e))
    | inr (inl e) ↦ inl e
    | inr (inr there) ↦ inr (insert_by_time-Any r o rows (inr there))
  ])
]

pub selected-Any :
    (p : Order → Bool) (r : Order) (rows : List Order)
    → p r ≡ true
    → Any (λ q. q ≡ r) rows
    → Any (λ q. q ≡ r) (by_created_at (keep p rows))
selected-Any p r [] h there = elim there [ ]
selected-Any p r (o ∷ rows) h (inl e) =
    rw (ap p e ∙ h) (insert_by_time-Any r o (by_created_at (keep p rows)) (inl e))
selected-Any p r (o ∷ rows) h (inr there) = elim (Bool-cases (p o)) [
  | inl here ↦
      rw here
        (insert_by_time-Any r o (by_created_at (keep p rows)) (inr (selected-Any p r rows h there)))
  | inr other ↦ rw other (selected-Any p r rows h there)
]

pub keep-All : (p : Order → Bool) (rows : List Order) → All (λ o. p o ≡ true) (keep p rows)
keep-All p [] = tt
keep-All p (o ∷ rows) = elim (Bool-cases (p o)) [
  | inl here ↦ rw here (here, keep-All p rows)
  | inr other ↦ rw other (keep-All p rows)
]

pub All-self : (rows : List Order) → All (λ r. Any (λ q. q ≡ r) rows) rows
All-self rows = within rows rows (λ r h. h)
  where
    within :
        (part whole : List Order)
        → ((r : Order) → Any (λ q. q ≡ r) part → Any (λ q. q ≡ r) whole)
        → All (λ r. Any (λ q. q ≡ r) whole) part
    within [] whole h = tt
    within (r ∷ part) whole h = (h r (inl refl), within part whole (λ q later. h q (inr later)))
