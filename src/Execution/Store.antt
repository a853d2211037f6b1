-- ===== src/Execution/Store.antt =====
-- arc/storage/store.py: the orders and fills tables. A table is the list of its rows in the order
-- of their insertion; `ORDER BY created_at` is a stable sort. The markets that rows refer to are
-- taken to be stored, and no fault but that of a foreign key is modelled.
pub mod Rows
pub mod Query
use lufy.Prelude.{
  ℕ, ◌+◌, Bool, true, false, ◌&&◌, Option, none, some, List, [], ◌∷◌, ◌++◌, keep, any, map, Text,
  text_eq, Result, ok, err, leb, ◌==◌, if◌then◌else◌,
}
use lufy.Prelude.Int.{ℤ, pos, ◌+ℤ◌}
use lufy.Domain.Models.{Decimal, Order, Fill, is_live}

pub record Store : Type 0 where
  pub orders : List Order
  pub fills : List Fill

-- `DO UPDATE SET`: the columns that an update of an existing row writes
abbrev pub update_row : Order → Order → Order
update_row r o = record r {
  state = o.state;
  filled_size = o.filled_size;
  venue_order_id = o.venue_order_id;
  rejection_reason = o.rejection_reason;
  updated_at = o.updated_at;
}

abbrev pub has_order : Text → Order → Bool
has_order id o = text_eq o.order_id id

-- A row with the id of the order, updated; any other row as it is.
abbrev pub overwrite : Order → Order → Order
overwrite o r = if has_order o.order_id r then update_row r o else r

-- `INSERT … ON CONFLICT(order_id)`; the key is unique, so at most one row is updated
unfoldable pub upsert : Order → List Order → List Order
upsert o rows = if any (has_order o.order_id) rows then map (overwrite o) rows else rows ++ o ∷ []

unfoldable pub save_order : Order → Store → Store
unfolding upsert
save_order o s = record s { orders = upsert o s.orders }

-- `ORDER BY created_at`
abbrev pub insert_by_time : Order → List Order → List Order
insert_by_time o [] = o ∷ []
insert_by_time o (r ∷ rows) =
    if leb o.created_at r.created_at then o ∷ r ∷ rows else r ∷ insert_by_time o rows

abbrev pub by_created_at : List Order → List Order
by_created_at [] = []
by_created_at (o ∷ rows) = insert_by_time o (by_created_at rows)

abbrev pub in_market : Text → Order → Bool
in_market slug o = text_eq o.market_slug slug

unfoldable pub orders_for : Text → Store → List Order
orders_for slug s = by_created_at (keep (in_market slug) s.orders)

-- With a slug; with none, the live orders of every market.
abbrev pub in_market? : Option Text → Order → Bool
in_market? none o = true
in_market? (some slug) o = in_market slug o

unfoldable pub live_orders : Option Text → Store → List Order
live_orders slug s = by_created_at (keep (λ o. is_live o && in_market? slug o) s.orders)

abbrev pub same_fill : Text → Fill → Bool
same_fill id f = text_eq f.fill_id id

-- `StorageError`: the row names no row of the table that its foreign key refers to.
pub data StorageError : Type 0 where
  foreign_key : StorageError

-- `INSERT OR IGNORE` on the fill id, and whether the row is new. `OR IGNORE` passes over a
-- conflict on the key only: the foreign key on `order_id`, which the connection enforces, raises.
unfoldable pub save_fill : Fill → Store → Result StorageError (Store × Bool)
save_fill f s =
    if any (same_fill f.fill_id) s.fills
    then ok (s, false)
    else if any (has_order f.order_id) s.orders
    then ok (record s { fills = s.fills ++ f ∷ [] }, true)
    else err foreign_key

-- the rows of `fills` that join a row of `orders` in the window
abbrev pub in_window : Text → ℕ → Text → Order → Bool
in_window slug offset id o =
    text_eq o.order_id id && (in_market slug o && (o.offset_seconds == offset))

abbrev pub sum_sizes : List Fill → Decimal
sum_sizes [] = pos 0
sum_sizes (f ∷ fs) = f.size +ℤ sum_sizes fs

unfoldable pub filled_size_for_window : Text → ℕ → Store → Decimal
filled_size_for_window slug offset s =
    sum_sizes (keep (λ f. any (in_window slug offset f.order_id) s.orders) s.fills)

-- `ORDER BY ts`
abbrev pub insert_by_ts : Fill → List Fill → List Fill
insert_by_ts f [] = f ∷ []
insert_by_ts f (g ∷ fills) = if leb f.ts g.ts then f ∷ g ∷ fills else g ∷ insert_by_ts f fills

abbrev pub by_ts : List Fill → List Fill
by_ts [] = []
by_ts (f ∷ fills) = insert_by_ts f (by_ts fills)

unfoldable pub fills_for : Text → Store → List Fill
fills_for slug s = by_ts (keep (λ f. text_eq f.market_slug slug) s.fills)
