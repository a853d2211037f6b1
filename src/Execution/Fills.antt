-- ===== src/Execution/Fills.antt =====
-- arc/execution/fill_engine.py: `FillEngine.ingest` folds the fills that the venue reports into the
-- store. Logging is left out. The list `book` is the dict of the market's orders, which the loop
-- updates in place.
pub mod Replay
pub mod Unlinked
use lufy.Prelude.{
  ℕ, Bool, true, false, Option, none, some, List, [], ◌∷◌, ◌++◌, find, Text, text_eq, Result, ok,
  err, if◌then◌else◌,
}
use lufy.Prelude.Int.{ℤ, pos, leb_ℤ}
use lufy.Domain.Models.{Decimal, Order, Fill}
use lufy.Execution.Ids.{OrderError}
use lufy.Execution.Orders.{apply_fill}
use lufy.Execution.Store.{Store, StorageError, save_fill, save_order, orders_for, has_order}

-- What a pass may raise.
pub data IngestError : Type 0 where
  storage : StorageError → IngestError
  transition : OrderError → IngestError

-- `orders.get(order_id)`
abbrev pub get : Text → List Order → Option Order
get id book = find (has_order id) book

-- The order object in the dict, as it stands after a change.
abbrev pub replace : Order → List Order → List Order
replace o [] = []
replace o (b ∷ book) = if text_eq b.order_id o.order_id then o ∷ book else b ∷ replace o book

-- The fill with the owner of the order that it fills.
abbrev pub linked : Fill → Order → Fill
linked f o = record f { trace_id = o.trace_id; engine = o.engine }

-- A step of the loop: the store as it stands after the step, also where the step raises, and the
-- dict with the fills accepted so far.
abbrev pub Step : Type 0
Step = Store × Result IngestError (List Order × List Fill)

-- A fill of an order that the dict does not have.
abbrev pub unlinked :
    Fill → Store → List Order → List Fill → Result StorageError (Store × Bool) → Step
unlinked f s book accepted (err e) = (s, err (storage e))
unlinked f s book accepted (ok (s', false)) = (s', ok (book, accepted))
unlinked f s book accepted (ok (s', true)) = (s', ok (book, accepted ++ f ∷ []))

-- The order after its fill, or the exception that its state raises; the fill is stored by then.
abbrev pub filled : Fill → Store → List Order → List Fill → Result OrderError Order → Step
filled f s book accepted (err e) = (s, err (transition e))
filled f s book accepted (ok o) = (save_order o s, ok (replace o book, accepted ++ f ∷ []))

-- A fill of a known order.
abbrev pub known :
    Fill → Order → ℕ → Store → List Order → List Fill → Result StorageError (Store × Bool) → Step
known f o now s book accepted (err e) = (s, err (storage e))
known f o now s book accepted (ok (s', false)) = (s', ok (book, accepted))
known f o now s book accepted (ok (s', true)) = filled f s' book accepted (apply_fill o f.size now)

abbrev pub look_up : Fill → ℕ → Store → List Order → List Fill → Option Order → Step
look_up f now s book accepted none = unlinked f s book accepted (save_fill f s)
look_up f now s book accepted (some o) =
    known (linked f o) o now s book accepted (save_fill (linked f o) s)

unfoldable pub ingest_one : Fill → ℕ → Store → List Order → List Fill → Step
ingest_one f now s book accepted =
    if leb_ℤ f.size (pos 0)
    then (s, ok (book, accepted))
    else look_up f now s book accepted (get f.order_id book)

abbrev pub Pass : Type 0
Pass = Store × Result IngestError (List Fill)

-- An exception ends the loop; otherwise it goes on from the store and the dict of the step.
abbrev pub and_then : Step → (Store → List Order → List Fill → Pass) → Pass
and_then (s, err e) rest = (s, err e)
and_then (s, ok (book, accepted)) rest = rest s book accepted

-- The loop over the reported fills.
unfoldable pub ingest_from : List Fill → ℕ → Store → List Order → List Fill → Pass
ingest_from [] now s book accepted = (s, ok accepted)
ingest_from (f ∷ reported) now s book accepted =
    and_then (ingest_one f now s book accepted) (ingest_from reported now)

unfoldable pub ingest : Text → List Fill → ℕ → Store → Pass
unfolding ingest_from orders_for
ingest market_slug reported now s = ingest_from reported now s (orders_for market_slug s) []
