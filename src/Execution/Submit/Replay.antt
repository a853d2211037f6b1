-- ===== src/Execution/Submit/Replay.antt =====
-- Submitting the same intent again: the rows that the first submission wrote answer for it.
use lufy.Prelude.{
  ℕ, suc, ◌≡◌, refl, sym, ◌∙◌, inl, inr, true, some, List, [], ◌∷◌, Text, text_eq→eq, Result, ok,
  All, any, find, keep, map, arith,
}
use mathlib.Core.Path.{subst, ap₂}
use lufy.Domain.Enums.{OrderState, MarketPhase}
use lufy.Domain.Models.{Order, ExecutionIntent}
use lufy.Execution.Store.{Store, save_order, orders_for, has_order, in_market, by_created_at}
use lufy.Execution.Orders.{new_order}
use lufy.Execution.Split.{split_size}
use lufy.Execution.Submit.{
  Place, Placed, SubmitError, existing, place_one, place_all, plan, orders_from, submit,
}
use lufy.Execution.Submit.Place.{place_one-Returns}
use lufy.Execution.Submit.Stored.{
  row_of, IsStored, IsHomed, save_order-IsHomed, save_order-IsStored, saved-IsStored, query-any,
  any-find,
}

-- An order that is about to be placed: it is new, and it is of the market.
abbrev IsNew : Text → Order → Type 0
IsNew slug o = (o.state ≡ OrderState.pending) × (o.market_slug ≡ slug)

-- A placement returns, it leaves the order stored, and what was stored or homed stays so.
record Stores (slug : Text) (o : Order) (s : Store) (res : Placed) : Type 0 where
  pub store : Store
  pub row : Order
  pub returned : res ≡ ok (store, row)
  pub same_id : row.order_id ≡ o.order_id
  pub stored : IsStored slug o.order_id store
  pub keeps : (id : Text) → IsStored slug id s → IsStored slug id store
  pub homes : (id : Text) → IsHomed slug id s → IsHomed slug id store

find-any :
    (id : Text) (rows : List Order) (row : Order)
    → find (has_order id) rows ≡ some row
    → (any (has_order id) rows ≡ true) × (has_order id row ≡ true)
find-any id [] row e = ground arith
find-any id (r ∷ rows) row e = ground (arith, find-any id rows row)

place_one-Stores :
    (place : Place) (slug : Text) (o : Order) (now : ℕ) (s : Store)
    → IsNew slug o
    → IsHomed slug o.order_id s
    → Stores slug o s (place_one place o now s)
unfolding existing orders_for
place_one-Stores place slug o now s (fresh, here) homed =
    elim (place_one-Returns place o now s fresh) [
      | inl (row, found, e) ↦
          let query : List Order = by_created_at (keep (in_market o.market_slug) s.orders) in
          let (present, same) = find-any o.order_id query row found in
          record {
            store = s;
            row = row;
            returned = e;
            same_id = text_eq→eq row.order_id o.order_id same;
            stored =
                subst (λ (m : Text). any (row_of m o.order_id) s.orders ≡ true) here
                  (sym (query-any o.market_slug o.order_id s.orders) ∙ present);
            keeps = λ id h. h;
            homes = λ id h. h;
          }
      | inr (missing, r) ↦ record {
        store = save_order r.order (save_order o s);
        row = r.order;
        returned = r.returned;
        same_id = r.same_id;
        stored =
            save_order-IsStored slug o.order_id r.order (save_order o s)
              (saved-IsStored slug o.order_id o s refl here homed);
        keeps = λ id h.
            save_order-IsStored slug id r.order (save_order o s)
              (save_order-IsStored slug id o s h);
        homes = λ id h.
            save_order-IsHomed slug id r.order (save_order o s) (r.same_market ∙ here)
              (save_order-IsHomed slug id o s here h);
      }
    ]

abbrev pub ids : List Order → List Text
ids orders = map (λ o. o.order_id) orders

-- The first submission of a ladder.
record Submitted (slug : Text) (orders : List Order) (s : Store)
    (res : Result SubmitError (Store × List Order)) : Type 0 where
  pub store : Store
  pub rows : List Order
  pub returned : res ≡ ok (store, rows)
  pub same_ids : ids rows ≡ ids orders
  pub stored : All (λ id. IsStored slug id store) (ids orders)
  pub keeps : (id : Text) → IsStored slug id s → IsStored slug id store

place_all-Submitted :
    (place : Place) (slug : Text) (orders : List Order) (now : ℕ) (s : Store)
    → All (IsNew slug) orders
    → All (λ id. IsHomed slug id s) (ids orders)
    → Submitted slug orders s (place_all place orders now s)
unfolding place_all
place_all-Submitted place slug [] now s new homed = record {
  store = s;
  rows = [];
  returned = refl;
  same_ids = refl;
  stored = tt;
  keeps = λ id h. h;
}
place_all-Submitted place slug (o ∷ orders) now s new homed =
    let first = place_one-Stores place slug o now s new.0 homed.0 in
    let rest =
      place_all-Submitted place slug orders now first.store new.1
        (still first.store orders first.homes homed.1) in
    record {
      store = rest.store;
      rows = first.row ∷ rest.rows;
      returned = rw (first.returned, rest.returned);
      same_ids = ap₂ (λ (i : Text) (is : List Text). i ∷ is) first.same_id rest.same_ids;
      stored = (rest.keeps o.order_id first.stored, rest.stored);
      keeps = λ id h. rest.keeps id (first.keeps id h);
    }
  where
    still :
        (t : Store) (qs : List Order)
        → ((id : Text) → IsHomed slug id s → IsHomed slug id t)
        → All (λ id. IsHomed slug id s) (ids qs)
        → All (λ id. IsHomed slug id t) (ids qs)
    still t [] f hs = tt
    still t (q ∷ qs) f hs = (f q.order_id hs.0, still t qs f hs.1)

-- A ladder whose orders are stored is answered from the store.
place_all_again :
    (place : Place) (slug : Text) (orders : List Order) (now : ℕ) (s : Store)
    → All (IsNew slug) orders
    → All (λ id. IsStored slug id s) (ids orders)
    → (rows : List Order) × (place_all place orders now s ≡ ok (s, rows)) × (ids rows ≡ ids orders)
unfolding place_all place_one existing orders_for
place_all_again place slug [] now s new stored = ([], refl, refl)
place_all_again place slug (o ∷ orders) now s new stored =
    let here : any (row_of o.market_slug o.order_id) s.orders ≡ true =
      subst (λ (m : Text). any (row_of m o.order_id) s.orders ≡ true) (sym new.0.1) stored.0 in
    let (row, found, same) =
      any-find o.order_id (by_created_at (keep (in_market o.market_slug) s.orders))
        (query-any o.market_slug o.order_id s.orders ∙ here) in
    let (rows, e, sames) = place_all_again place slug orders now s new.1 stored.1 in
    (row ∷ rows, rw (found, e), ap₂ (λ (i : Text) (is : List Text). i ∷ is) same sames)

-- The orders of a ladder are new, and their ids do not depend on the time.
orders_from-IsNew :
    (intent : ExecutionIntent) (engine : Text) (now index : ℕ) (sizes : List ℕ)
    → All (IsNew intent.market_slug) (orders_from intent engine now index sizes)
unfolding new_order
orders_from-IsNew intent engine now index [] = tt
orders_from-IsNew intent engine now index (size ∷ sizes) =
    ((refl, refl), orders_from-IsNew intent engine now (suc index) sizes)

ids-orders_from :
    (intent : ExecutionIntent) (engine : Text) (now later index : ℕ) (sizes : List ℕ)
    → ids (orders_from intent engine now index sizes)
      ≡ ids (orders_from intent engine later index sizes)
unfolding new_order
ids-orders_from intent engine now later index [] = refl
ids-orders_from intent engine now later index (size ∷ sizes) =
    ap₂ (λ (i : Text) (is : List Text). i ∷ is) refl
      (ids-orders_from intent engine now later (suc index) sizes)

-- The ids of an intent's ladder name no row of another market.
abbrev pub IsApart : ExecutionIntent → Text → List ℕ → Store → Type 0
IsApart intent engine sizes s =
    All (λ id. All (λ r. has_order id r ≡ true → in_market intent.market_slug r ≡ true) s.orders)
      (ids (orders_from intent engine 0 0 sizes))

-- A submission in an active market of an intent whose size splits returns, whatever the venue
-- answers, and submitting the same intent again at any later time, as after a restart, changes
-- nothing: whatever the venue would answer, the store stays as the first submission left it, and
-- the rows that are returned have the ids of the first ladder. The ids of the ladder name no row of
-- another market.
pub submit_again :
    (place place' : Place) (intent : ExecutionIntent) (count now later minimum size_step : ℕ)
    (engine : Text) (s : Store) (sizes : List ℕ)
    → split_size intent.size count minimum size_step ≡ ok sizes
    → IsApart intent engine sizes s
    → (s' : Store) × (placed : List Order) × (again : List Order) × (submit place intent count
          MarketPhase.active now minimum size_step engine s
        ≡ ok (s', placed))
      × (submit place' intent count MarketPhase.active later minimum size_step engine s'
          ≡ ok (s', again))
      × (ids placed ≡ ids (orders_from intent engine now 0 sizes))
      × (ids again ≡ ids placed)
unfolding submit plan
submit_again place place' intent count now later minimum size_step engine s sizes e apart =
    let slug : Text = intent.market_slug in
    let first =
      place_all-Submitted place slug (orders_from intent engine now 0 sizes) now s
        (orders_from-IsNew intent engine now 0 sizes)
        (subst (λ (is : List Text). All (λ id. IsHomed slug id s) is)
          (ids-orders_from intent engine 0 now 0 sizes) apart) in
    let (again, e', same) =
      place_all_again place' slug (orders_from intent engine later 0 sizes) later first.store
        (orders_from-IsNew intent engine later 0 sizes)
        (subst (λ (is : List Text). All (λ id. IsStored slug id first.store) is)
          (ids-orders_from intent engine now later 0 sizes) first.stored) in
    (
      first.store,
      first.rows,
      again,
      rw e first.returned,
      rw e e',
      first.same_ids,
      same ∙ ids-orders_from intent engine later now 0 sizes ∙ sym first.same_ids,
    )
