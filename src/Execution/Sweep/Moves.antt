-- ===== src/Execution/Sweep/Moves.antt =====
-- How the cancel of one live order ends: every transition that it tries is legal.
use lufy.Prelude.{
  ℕ, ◌≡◌, refl, inl, inr, Bool, true, false, Option, none, some, codes, Text, is_empty, Result, ok,
  ◌>>=◌, arith, Bool-cases, if◌then◌else◌,
}
use lufy.Domain.Enums.{OrderState, same_state}
use lufy.Domain.Models.{Order, is_live}
use lufy.Execution.Ids.{OrderError}
use lufy.Execution.Orders.{transition, is_legal}
use lufy.Execution.Venue.{VenueError, Disposition, classify, message}
use lufy.Execution.Store.{Store, save_order}
use lufy.Execution.Sweep.{
  save_transition, cancel_one, cancel_answered, cancel_failed, cancel_unknown,
}

abbrev pub moved : Order → OrderState → ℕ → Text → Order
moved o target now reason = record o {
  state = target;
  updated_at = now;
  rejection_reason = if is_empty reason then o.rejection_reason else reason;
}

-- How the cancel of one order ends: gone, of unknown outcome and marked so, or still unknown.
pub data Swept (o : Order) (s : Store) (res : Result OrderError (Store × Bool)) : Type 0 where
  gone :
      (o' : Order)
      → o'.order_id ≡ o.order_id
      → is_live o' ≡ false
      → res ≡ ok (save_order o' s, true)
      → Swept o s res
  doubt :
      (o' : Order)
      → o'.order_id ≡ o.order_id
      → o'.state ≡ OrderState.indeterminate
      → res ≡ ok (save_order o' s, false)
      → Swept o s res
  still : o.state ≡ OrderState.indeterminate → res ≡ ok (s, false) → Swept o s res

pub save_transition_legal :
    (o : Order) (target : OrderState) (now : ℕ) (reason : Text) (s : Store)
    → is_legal o.state target ≡ true
    → same_state target o.state ≡ false
    → save_transition o target now reason s ≡ ok (save_order (moved o target now reason) s)
unfolding transition
save_transition_legal o target now reason s legal other = rw (other, legal)

-- The moves that the sweep makes are legal.
legal_cancel :
    (o : Order)
    → is_live o ≡ true
    → same_state o.state OrderState.pending ≡ false
    → (is_legal o.state OrderState.cancelled ≡ true)
      × (same_state OrderState.cancelled o.state ≡ false)
legal_cancel o live sent = ground arith

legal_doubt :
    (o : Order)
    → is_live o ≡ true
    → same_state o.state OrderState.indeterminate ≡ false
    → (is_legal o.state OrderState.indeterminate ≡ true)
      × (same_state OrderState.indeterminate o.state ≡ false)
legal_doubt o live known = ground arith

legal_expire :
    (o : Order)
    → same_state o.state OrderState.pending ≡ true
    → (is_legal o.state OrderState.expired ≡ true) × (same_state OrderState.expired o.state ≡ false)
legal_expire o unsent = ground arith

cancelled-Swept :
    (o : Order) (now : ℕ) (reason : Text) (s : Store)
    → is_live o ≡ true
    → same_state o.state OrderState.pending ≡ false
    → Swept o s (save_transition o OrderState.cancelled now reason s >>= λ s'. ok (s', true))
cancelled-Swept o now reason s live sent =
    let (legal, other) = legal_cancel o live sent in
    gone (moved o OrderState.cancelled now reason) refl refl
      (rw (save_transition_legal o OrderState.cancelled now reason s legal other))

unknown-Swept :
    (e : VenueError) (o : Order) (now : ℕ) (s : Store)
    → is_live o ≡ true
    → Swept o s (cancel_unknown e o now s)
unknown-Swept e o now s live = elim (Bool-cases (same_state o.state OrderState.indeterminate)) [
  | inl already ↦ still (ground arith) (rw already)
  | inr known ↦
      let (legal, other) = legal_doubt o live known in
      doubt (moved o OrderState.indeterminate now (message e)) refl refl
        (rw (known, save_transition_legal o OrderState.indeterminate now (message e) s legal other))
]

failed-Swept :
    (d : Disposition) (e : VenueError) (o : Order) (now : ℕ) (s : Store)
    → is_live o ≡ true
    → same_state o.state OrderState.pending ≡ false
    → Swept o s (cancel_failed d e o now s)
failed-Swept Disposition.fail e o now s live sent = cancelled-Swept o now (message e) s live sent
failed-Swept Disposition.retry_now e o now s live sent = unknown-Swept e o now s live
failed-Swept Disposition.indeterminate e o now s live sent = unknown-Swept e o now s live

answered-Swept :
    (a : Option VenueError) (o : Order) (now : ℕ) (s : Store)
    → is_live o ≡ true
    → same_state o.state OrderState.pending ≡ false
    → Swept o s (cancel_answered a o now s)
answered-Swept none o now s live sent = cancelled-Swept o now (codes "settlement sweep") s live sent
answered-Swept (some e) o now s live sent = failed-Swept (classify e) e o now s live sent

pub cancel_one-Swept :
    (cancel : Order → Option VenueError) (o : Order) (now : ℕ) (s : Store)
    → is_live o ≡ true
    → Swept o s (cancel_one cancel o now s)
unfolding cancel_one
cancel_one-Swept cancel o now s live = elim (Bool-cases (same_state o.state OrderState.pending)) [
  | inl unsent ↦
      let (legal, other) = legal_expire o unsent in
      let reason : Text = codes "swept before submission" in
      gone (moved o OrderState.expired now reason) refl refl
        (rw (unsent, save_transition_legal o OrderState.expired now reason s legal other))
  | inr sent ↦ rw sent (answered-Swept (cancel o) o now s live sent)
]
