-- ===== src/Execution/Reconcile/Clean.antt =====
-- What a reconciliation leaves behind: no order of unknown state.
use lufy.Prelude.{
  ℕ, ◌≡◌, ◌↔◌, refl, sym, ◌∙◌, ap, inl, inr, Bool, true, false, not, Option, List, [], ◌∷◌, keep,
  any, All, Any, Text, Result, ok, arith, Bool-cases, true≢false, if◌then◌else◌, is_list_empty,
}
use lufy.Domain.Enums.{OrderState, same_state}
use lufy.Domain.Models.{Order, is_live}
use lufy.Execution.Ids.{OrderError}
use lufy.Execution.Store.{
  Store, save_order, orders_for, in_market, has_order, overwrite, by_created_at,
}
use lufy.Execution.Store.Rows.{upsert-All}
use lufy.Execution.Store.Query.{past_head, selected-Any, All-self, All-map}
use lufy.Execution.Sweep.{owned_by}
use lufy.Execution.Sweep.Clean.{Concerns}
use lufy.Execution.Reconcile.{
  VenueOrder, ReconcileResult, by_client, note, note_live, reconcile_one, reconcile_from, reconcile,
  is_clean, orphans_of,
}
use lufy.Execution.Reconcile.Settle.{resolve-Settled, rests}

abbrev pub is_unknown : Order → Bool
is_unknown o = same_state o.state OrderState.indeterminate

pub is_unknown-state :
    (st : OrderState)
    → same_state st OrderState.indeterminate ≡ true
    → st ≡ OrderState.indeterminate
is_unknown-state st h = ground arith

module _ (slug : Text) (engine : Option Text) where
  -- A row of unknown state is still to be visited.
  abbrev Waits : List Order → Order → Type 0
  Waits rest r = Concerns slug engine r → is_unknown r ≡ true → Any (λ q. q ≡ r) rest

  row_settled :
      (o o' r : Order) (rest : List Order)
      → o'.order_id ≡ o.order_id
      → is_unknown o' ≡ false
      → Waits (o ∷ rest) r
      → Waits rest (overwrite o' r)
  row_settled o o' r rest same definite w = elim (Bool-cases (has_order o'.order_id r)) [
    | inl hit ↦ rw hit (λ c unknown. ground arith)
    | inr miss ↦ rw miss (λ c unknown. past_head o o' r rest same miss (w c unknown))
  ]

  row_passed :
      (o r : Order) (rest : List Order) → is_unknown o ≡ false → Waits (o ∷ rest) r → Waits rest r
  row_passed o r rest definite w c unknown = elim (w c unknown) [
    | inl e ↦ elim (true≢false (sym unknown ∙ ap is_unknown (sym e) ∙ definite)) [ ]
    | inr later ↦ later
  ]

  -- A round that returns, with every unknown row among those still to be visited.
  abbrev Visit : List Order → Result OrderError (Store × ReconcileResult) → Type 0
  Visit rest res =
      (s : Store) × (r : ReconcileResult) × (res ≡ ok (s, r)) × All (Waits rest) s.orders

  reconcile_one-Visit :
      (venue : List VenueOrder) (now : ℕ) (o : Order) (rest : List Order) (s : Store)
      (r : ReconcileResult)
      → All (Waits (o ∷ rest)) s.orders
      → Visit rest (reconcile_one venue now o s r)
  unfolding reconcile_one save_order
  reconcile_one-Visit venue now o rest s r waits = elim (Bool-cases (is_unknown o)) [
    | inl unknown ↦
        let v = by_client o.order_id venue in
        let settled = resolve-Settled o v now s (is_unknown-state o.state unknown) in
        (
          save_order settled.order s,
          note (not (rests v)) o.order_id r,
          rw (unknown, settled.returned),
          upsert-All (Waits rest) settled.order s.orders
              (λ c still. elim (true≢false (sym still ∙ settled.definite)) [ ])
              (All-map s.orders
                (λ q. row_settled o settled.order q rest settled.same_id settled.definite) waits),
        )
    | inr known ↦ (
      s,
      (if is_live o then note_live o.order_id r else r),
      rw known,
      All-map s.orders (λ q. row_passed o q rest known) waits,
    )
  ]

  reconcile_from-Visit :
      (venue : List VenueOrder) (now : ℕ) (orders : List Order) (s : Store) (r : ReconcileResult)
      → All (Waits orders) s.orders
      → Visit [] (reconcile_from venue now orders s r)
  unfolding reconcile_from
  reconcile_from-Visit venue now [] s r waits = (s, r, refl, waits)
  reconcile_from-Visit venue now (o ∷ orders) s r waits =
      let (s', r', e, waits') = reconcile_one-Visit venue now o orders s r waits in
      rw e (reconcile_from-Visit venue now orders s' r' waits')

pub kept-Any :
    (p : Order → Bool) (r : Order) (rows : List Order)
    → p r ≡ true
    → Any (λ q. q ≡ r) rows
    → Any (λ q. q ≡ r) (keep p rows)
kept-Any p r [] h there = there
kept-Any p r (o ∷ rows) h (inl e) = rw (ap p e ∙ h) (inl e)
kept-Any p r (o ∷ rows) h (inr there) = elim (Bool-cases (p o)) [
  | inl here ↦ rw here (inr (kept-Any p r rows h there))
  | inr other ↦ rw other (kept-Any p r rows h there)
]

-- Nothing is an orphan exactly where each order of the venue has a row.
orphans_of-none :
    (rows : List Order) (venue : List VenueOrder)
    → (is_list_empty (orphans_of venue rows) ≡ true)
      ↔ All (λ v. any (has_order v.client_order_id) rows ≡ true) venue
unfolding orphans_of
orphans_of-none rows venue = (forth venue, back venue)
  where
    forth :
        (vs : List VenueOrder)
        → is_list_empty (orphans_of vs rows) ≡ true
        → All (λ v. any (has_order v.client_order_id) rows ≡ true) vs
    forth [] h = tt
    forth (v ∷ vs) h = elim (Bool-cases (any (has_order v.client_order_id) rows)) [
      | inl known ↦ (known, forth vs (ground arith))
      | inr unknown ↦ ground arith
    ]

    back :
        (vs : List VenueOrder)
        → All (λ v. any (has_order v.client_order_id) rows ≡ true) vs
        → is_list_empty (orphans_of vs rows) ≡ true
    back [] h = refl
    back (v ∷ vs) h = rw h.0 (back vs h.1)

-- A reconciliation always returns, whatever the venue has: no order of the market, and of the
-- engine where one is given, is left in an unknown state, and the result is clean exactly where
-- every order that the venue reports has a row of the market, of any engine, under its client id.
pub reconcile_settles :
    (venue : List VenueOrder) (market_slug : Text) (now : ℕ) (engine : Option Text) (s : Store)
    → (s' : Store) × (r : ReconcileResult) × (reconcile venue market_slug now engine s ≡ ok (s', r))
      × All (λ o. Concerns market_slug engine o → is_unknown o ≡ false) s'.orders
      × ((is_clean r ≡ true)
          ↔ All (λ v. any (has_order v.client_order_id) (orders_for market_slug s) ≡ true) venue)
unfolding reconcile orders_for
reconcile_settles venue market_slug now engine s =
    let rows : List Order = by_created_at (keep (in_market market_slug) s.orders) in
    let (s', r, e, waits) =
      reconcile_from-Visit market_slug engine venue now (keep (owned_by engine) rows) s
        (record { market_slug = market_slug; resolved = []; still_live = []; orphans = [] })
        (All-map s.orders
          (λ q there c unknown.
            kept-Any (owned_by engine) q rows c.1
              (selected-Any (in_market market_slug) q s.orders c.0 there))
          (All-self s.orders)) in
    (
      s',
      record r { orphans = orphans_of venue rows },
      rw e,
      All-map s'.orders
          (λ q w c. elim (Bool-cases (is_unknown q)) [
            | inl unknown ↦ elim (w c unknown) [ ]
            | inr definite ↦ definite
          ])
          waits,
      orphans_of-none rows venue,
    )
