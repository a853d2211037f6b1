-- ===== src/Execution/Reconcile.antt =====
-- arc/execution/reconcile.py: `Reconciler.reconcile` brings the orders of unknown state into
-- agreement with the venue, whose list of open orders is a parameter. Logging is left out.
pub mod Settle
pub mod Clean
use lufy.Prelude.{
  ℕ, Bool, true, false, not, ◌&&◌, Option, none, some, is_some, List, [], ◌∷◌, ◌++◌, keep, any, map,
  or_else, Text, codes, text_eq, is_empty, is_list_empty, Result, ok, err, ◌>>=◌, if◌then◌else◌,
}
use lufy.Prelude.Int.{pos, leb_ℤ, ltb_ℤ, min_ℤ}
use lufy.Domain.Enums.{OrderState, same_state}
use lufy.Domain.Models.{Decimal, Order, is_live}
use lufy.Execution.Ids.{OrderError}
use lufy.Execution.Store.{Store, orders_for, has_order}
use lufy.Execution.Sweep.{save_transition, owned_by}

-- arc/execution/protocol.py
pub record VenueOrder : Type 0 where
  pub venue_order_id : Text
  pub client_order_id : Text
  pub price : Decimal
  pub size : Decimal
  pub filled_size : Decimal
  pub resting : Bool

pub record ReconcileResult : Type 0 where
  pub market_slug : Text
  pub resolved : List Text
  pub still_live : List Text
  pub orphans : List Text

-- `ReconcileResult.clean`
abbrev pub is_clean : ReconcileResult → Bool
is_clean r = is_list_empty r.orphans

-- `by_client.get(order_id)`: of the venue's orders with one client id, the dict keeps the last.
unfoldable pub by_client : Text → List VenueOrder → Option VenueOrder
by_client id [] = none
by_client id (v ∷ venue) =
    let later = by_client id venue in
    if is_some later then later else if text_eq v.client_order_id id then some v else none

-- `a or b` on texts
abbrev pub or_text : Text → Text → Text
or_text a b = if is_empty a then b else a

-- The order with the venue's id and the venue's filled quantity.
abbrev pub as_reported : Order → VenueOrder → Order
as_reported o v = record o {
  venue_order_id = or_text v.venue_order_id o.venue_order_id;
  filled_size = min_ℤ o.size v.filled_size;
}

abbrev pub absent_target : Order → OrderState
absent_target o =
    if leb_ℤ o.size o.filled_size && ltb_ℤ (pos 0) o.size
    then OrderState.filled
    else OrderState.cancelled

abbrev pub finished_target : Order → OrderState
finished_target o = if leb_ℤ o.size o.filled_size then OrderState.filled else OrderState.cancelled

abbrev pub resting_target : Order → OrderState
resting_target o = if ltb_ℤ (pos 0) o.filled_size then OrderState.partial else OrderState.submitted

-- `_resolve`
unfoldable pub resolve : Order → Option VenueOrder → ℕ → Store → Result OrderError (Store × Bool)
resolve o none now s =
    save_transition o (absent_target o) now (codes "reconciled: absent from venue") s >>= λ s'.
    ok (s', true)
resolve o (some v) now s =
    let o' = as_reported o v in
    if not v.resting
    then (save_transition o' (finished_target o') now (codes "reconciled: no longer resting") s
        >>= λ s'. ok (s', true))
    else (save_transition o' (resting_target o') now (codes "reconciled: resting at venue") s
        >>= λ s'. ok (s', false))

-- One round of the loop.
abbrev pub note_live : Text → ReconcileResult → ReconcileResult
note_live id r = record r { still_live = r.still_live ++ id ∷ [] }

abbrev pub note : Bool → Text → ReconcileResult → ReconcileResult
note true id r = record r { resolved = r.resolved ++ id ∷ [] }
note false id r = note_live id r

unfoldable pub reconcile_one :
    List VenueOrder
    → ℕ
    → Order
    → Store
    → ReconcileResult
    → Result OrderError (Store × ReconcileResult)
unfolding by_client
reconcile_one venue now o s r =
    if not (same_state o.state OrderState.indeterminate)
    then ok (s, if is_live o then note_live o.order_id r else r)
    else (resolve o (by_client o.order_id venue) now s >>= λ p. ok (p.0, note p.1 o.order_id r))

unfoldable pub reconcile_from :
    List VenueOrder
    → ℕ
    → List Order
    → Store
    → ReconcileResult
    → Result OrderError (Store × ReconcileResult)
reconcile_from venue now [] s r = ok (s, r)
reconcile_from venue now (o ∷ orders) s r =
    reconcile_one venue now o s r >>= λ p. reconcile_from venue now orders p.0 p.1

-- `v.client_order_id not in known`
abbrev pub is_orphan : List Order → VenueOrder → Bool
is_orphan rows v = not (any (has_order v.client_order_id) rows)

unfoldable pub orphans_of : List VenueOrder → List Order → List Text
orphans_of venue rows =
    map (λ v. or_text v.client_order_id v.venue_order_id) (keep (is_orphan rows) venue)

unfoldable pub reconcile :
    List VenueOrder → Text → ℕ → Option Text → Store → Result OrderError (Store × ReconcileResult)
unfolding reconcile_from orders_for orphans_of
reconcile venue market_slug now engine s =
    let rows = orders_for market_slug s in
    reconcile_from venue now (keep (owned_by engine) rows) s
      (record { market_slug = market_slug; resolved = []; still_live = []; orphans = [] })
    >>= λ p. ok (p.0, record p.1 { orphans = orphans_of venue rows })
