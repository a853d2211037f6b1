-- ===== src/Execution/Reconcile/Settle.antt =====
-- What the resolution of one unknown order says of it.
use lufy.Prelude.{
  ℕ, ◌≡◌, refl, inl, inr, Bool, true, false, not, ◌&&◌, Option, none, some, Text, codes, Result, ok,
  arith, Bool-cases,
}
use lufy.Prelude.Int.{pos, min_ℤ, ◌≤ℤ◌, ◌<ℤ◌, leb_ℤ, ltb_ℤ}
use lufy.Domain.Enums.{OrderState, same_state}
use lufy.Domain.Models.{Order, Decimal, is_live}
use lufy.Execution.Ids.{OrderError}
use lufy.Execution.Orders.{is_legal}
use lufy.Execution.Store.{Store, save_order}
use lufy.Execution.Sweep.{save_transition}
use lufy.Execution.Sweep.Moves.{moved, save_transition_legal}
use lufy.Execution.Reconcile.{
  VenueOrder, as_reported, absent_target, finished_target, resting_target, resolve,
}

-- The quantity that is filled as the venue has it, or as it is stored where the venue has no order.
abbrev pub filled_at : Order → Option VenueOrder → Decimal
filled_at o none = o.filled_size
filled_at o (some v) = min_ℤ o.size v.filled_size

-- The venue has the order among those that rest.
abbrev pub rests : Option VenueOrder → Bool
rests none = false
rests (some v) = v.resting

-- The whole size is filled. An order of no size that the venue does not have is not counted as
-- filled.
abbrev pub IsComplete : Order → Option VenueOrder → Type 0
IsComplete o none = (o.size ≤ℤ filled_at o none) × (pos 0 <ℤ o.size)
IsComplete o (some v) = o.size ≤ℤ filled_at o (some v)

-- The state that agrees with what the venue has: for an order that rests there, whether anything of
-- it is filled; for one that does not, whether all of it is.
pub data Agrees (o : Order) (v : Option VenueOrder) : OrderState → Type 0 where
  rests_untouched : (rests v ≡ true) → (filled_at o v ≤ℤ pos 0) → Agrees o v OrderState.submitted
  rests_filled : (rests v ≡ true) → (pos 0 <ℤ filled_at o v) → Agrees o v OrderState.partial
  gone_filled : (rests v ≡ false) → IsComplete o v → Agrees o v OrderState.filled
  gone_open : (rests v ≡ false) → (IsComplete o v → ⊥) → Agrees o v OrderState.cancelled

-- An order that is settled, with its row saved: it is live exactly where the venue has it resting,
-- its filled quantity is the venue's, and its state agrees with it.
pub record Settled (o : Order) (v : Option VenueOrder) (s : Store)
    (res : Result OrderError (Store × Bool)) : Type 0 where
  pub order : Order
  pub same_id : order.order_id ≡ o.order_id
  pub same_market : order.market_slug ≡ o.market_slug
  pub definite : same_state order.state OrderState.indeterminate ≡ false
  pub live : is_live order ≡ rests v
  pub quantity : order.filled_size ≡ filled_at o v
  pub agrees : Agrees o v order.state
  pub returned : res ≡ ok (save_order order s, not (rests v))

absent-Agrees : (o : Order) → Agrees o none (absent_target o)
absent-Agrees o = elim (Bool-cases (leb_ℤ o.size o.filled_size && ltb_ℤ (pos 0) o.size)) [
  | inl all ↦ rw all (gone_filled refl (ground arith))
  | inr less ↦ rw less (gone_open refl (λ h. ground arith))
]

finished-Agrees :
    (o : Order) (v : VenueOrder)
    → v.resting ≡ false
    → Agrees o (some v) (finished_target (as_reported o v))
finished-Agrees o v gone = elim (Bool-cases (leb_ℤ o.size (min_ℤ o.size v.filled_size))) [
  | inl all ↦ rw all (gone_filled gone (ground arith))
  | inr less ↦ rw less (gone_open gone (λ h. ground arith))
]

resting-Agrees :
    (o : Order) (v : VenueOrder)
    → v.resting ≡ true
    → Agrees o (some v) (resting_target (as_reported o v))
resting-Agrees o v rest = elim (Bool-cases (ltb_ℤ (pos 0) (min_ℤ o.size v.filled_size))) [
  | inl touched ↦ rw touched (rests_filled rest (ground arith))
  | inr untouched ↦ rw untouched (rests_untouched rest (ground arith))
]

settle :
    (o : Order) (target : OrderState) (now : ℕ) (reason : Text) (s : Store)
    → o.state ≡ OrderState.indeterminate
    → same_state target OrderState.indeterminate ≡ false
    → same_state target OrderState.pending ≡ false
    → save_transition o target now reason s ≡ ok (save_order (moved o target now reason) s)
settle o target now reason s unknown definite sent =
    let (legal, other) = legal_move o.state target unknown definite sent in
    save_transition_legal o target now reason s legal other
  where
    legal_move :
        (state target : OrderState)
        → state ≡ OrderState.indeterminate
        → same_state target OrderState.indeterminate ≡ false
        → same_state target OrderState.pending ≡ false
        → (is_legal state target ≡ true) × (same_state target state ≡ false)
    legal_move state target unknown definite sent = ground arith

-- The resolution of an order of unknown state returns, with the order saved as the venue has it: its
-- filled quantity is the venue's, capped at the order's size, or the stored one where the venue
-- does not list it. Where the order rests, it is PARTIAL or SUBMITTED, by whether anything is
-- filled; where it does not, it is FILLED or CANCELLED, by whether all of it is, and one of no size
-- that the venue does not list is CANCELLED.
pub resolve-Settled :
    (o : Order) (v : Option VenueOrder) (now : ℕ) (s : Store)
    → o.state ≡ OrderState.indeterminate
    → Settled o v s (resolve o v now s)
unfolding resolve
resolve-Settled o none now s unknown = record {
  order = moved o (absent_target o) now (codes "reconciled: absent from venue");
  same_id = refl;
  same_market = refl;
  definite = ground arith;
  live = ground arith;
  quantity = refl;
  agrees = absent-Agrees o;
  returned = rw (
      settle o (absent_target o) now (codes "reconciled: absent from venue") s unknown
        (ground arith) (ground arith));
}
resolve-Settled o (some v) now s unknown = elim (Bool-cases v.resting) [
  | inl rest ↦
      let o' : Order = as_reported o v in
      let reason : Text = codes "reconciled: resting at venue" in
      record {
        order = moved o' (resting_target o') now reason;
        same_id = refl;
        same_market = refl;
        definite = ground arith;
        live = ground arith;
        quantity = refl;
        agrees = resting-Agrees o v rest;
        returned = rw (
          rest,
          settle o' (resting_target o') now reason s unknown (ground arith) (ground arith),
        );
      }
  | inr gone ↦
      let o' : Order = as_reported o v in
      let reason : Text = codes "reconciled: no longer resting" in
      record {
        order = moved o' (finished_target o') now reason;
        same_id = refl;
        same_market = refl;
        definite = ground arith;
        live = ground arith;
        quantity = refl;
        agrees = finished-Agrees o v gone;
        returned = rw (
          gone,
          settle o' (finished_target o') now reason s unknown (ground arith) (ground arith),
        );
      }
]
