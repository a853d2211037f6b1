-- ===== src/Execution/Reprice.antt =====
-- arc/execution/reprice.py: `Repricer.maybe_reprice` cancels a resting order and places its
-- successor one tick on. The venue's answers are parameters: the best price, `none` where it could
-- not be read, the cancel, `none` for an acknowledgement, and the placement. Logging and the wait
-- for a token of the bucket are left out.
pub mod Policy
pub mod Pass
pub mod Ends
pub mod Chain
use lufy.Prelude.{
  ℕ, ◌+◌, Bool, true, false, not, ◌&&◌, ◌||◌, Option, none, some, List, [], ◌∷◌, keep, Text,
  text_eq, codes, Result, ok, err, leb, ltb, if◌then◌else◌,
}
use lufy.Prelude.Int.{ℤ, pos, ◌+ℤ◌, ◌-ℤ◌, leb_ℤ, ltb_ℤ, eqb_ℤ}
use lufy.Domain.Enums.{Direction, OrderState, same_state}
use lufy.Domain.Models.{Decimal, Order, remaining_size}
use lufy.Execution.Ids.{OrderError, rpartition, has_colon, isdigit, read_from, next_generation_id}
use lufy.Execution.Orders.{new_order, transition}
use lufy.Execution.Venue.{VenueError, Disposition, classify, message, rejection_reason}
use lufy.Execution.Store.{Store, save_order}

-- `MAX_PRICE_RETRIES`
abbrev pub max_price_retries : ℕ
max_price_retries = 3

pub record RepricePolicy : Type 0 where
  pub band_min : Decimal
  pub band_max : Decimal
  pub tick : Decimal

abbrev pub stepped : RepricePolicy → Decimal → Direction → Decimal
stepped p current Direction.up = current +ℤ p.tick
stepped p current Direction.down = current -ℤ p.tick

abbrev pub in_band : RepricePolicy → Decimal → Option Decimal
in_band p candidate =
    if leb_ℤ candidate (pos 0)
    then none
    else if ltb_ℤ candidate p.band_min || ltb_ℤ p.band_max candidate
    then none
    else some candidate

-- `RepricePolicy.target`
unfoldable pub target : RepricePolicy → Decimal → Option Decimal → Direction → Option Decimal
target p current none direction = none
target p current (some best) direction =
    if eqb_ℤ best current then none else in_band p (stepped p current direction)

-- What a pass may raise: an `OrderTransitionError`, or the error of `int` on an id's last part.
pub data RepriceError : Type 0 where
  order_error : OrderError → RepriceError
  no_number : RepriceError

-- `int(id.rsplit(":", 1)[1])`
unfoldable pub last_number : Text → Result RepriceError ℕ
unfolding rpartition has_colon read_from
last_number id =
    let (left, right) = rpartition id in
    if has_colon id && isdigit right then ok (read_from 0 right) else err no_number

abbrev pub number_of_next : Result OrderError Text → Result RepriceError ℕ
number_of_next (ok id) = last_number id
number_of_next (err e) = err (order_error e)

-- `_generation_of`: the generation of the successor
unfoldable pub generation_of : Order → Result RepriceError ℕ
unfolding next_generation_id last_number
generation_of o = number_of_next (next_generation_id o.order_id)

-- `_index_of`
unfoldable pub index_of : Order → Result RepriceError ℕ
unfolding last_number
index_of o = last_number o.reprice_chain_id

-- `_passes`, the polling passes that each chain has seen, and the store.
pub record RepriceState : Type 0 where
  pub passes : List (Text × ℕ)
  pub store : Store

-- `_passes.get(chain, 0)`
unfoldable pub passes_of : Text → List (Text × ℕ) → ℕ
passes_of chain [] = 0
passes_of chain ((c, n) ∷ rest) =
    let later = passes_of chain rest in if text_eq c chain then n else later

-- `_passes.pop(chain, None)`
abbrev pub pop : Text → List (Text × ℕ) → List (Text × ℕ)
pop chain passes = keep (λ (e : Text × ℕ). not (text_eq e.0 chain)) passes

-- `_passes[chain] = n`
abbrev pub set_passes : Text → ℕ → List (Text × ℕ) → List (Text × ℕ)
set_passes chain n passes = (chain, n) ∷ pop chain passes

-- What the venue answers in a pass.
pub record Answers : Type 0 where
  pub best : Option Decimal
  pub cancel : Option VenueError
  pub place : Order → Result VenueError Text

abbrev pub PassResult : Type 0
PassResult = RepriceState × Result RepriceError Order

abbrev pub save_in : Order → RepriceState → RepriceState
save_in o st = record st { store = save_order o st.store }

-- A transition, saved, and then the rest; an exception leaves the state as it is.
abbrev pub move_and :
    Order → OrderState → ℕ → Text → RepriceState → (Order → RepriceState → PassResult) → PassResult
move_and o target_state now reason st rest = go (transition o target_state now reason)
  where
    go : Result OrderError Order → PassResult
    go (err e) = (st, err (order_error e))
    go (ok o') = rest o' (save_in o' st)

abbrev pub is_indeterminate : Disposition → Bool
is_indeterminate Disposition.indeterminate = true
is_indeterminate Disposition.retry_now = false
is_indeterminate Disposition.fail = false

-- The placement of the successor, whose row is saved.
abbrev pub placed : Result VenueError Text → Text → Order → ℕ → RepriceState → PassResult
placed (err e) chain successor now st =
    move_and successor
      (if is_indeterminate (classify e) then OrderState.indeterminate else OrderState.rejected) now
      (rejection_reason e) st (λ o' st'. (st', ok o'))
placed (ok venue_id) chain successor now st =
    move_and (record successor { venue_order_id = venue_id }) OrderState.submitted now [] st
      (λ o' st'. (record st' { passes = set_passes chain 0 st'.passes }, ok o'))

-- After the order is cancelled: its successor has the part that is not filled.
abbrev pub replace_with : Answers → Decimal → ℕ → Order → ℕ → RepriceState → PassResult
replace_with a price generation o now st =
    if leb_ℤ (remaining_size o) (pos 0) then (st, ok o) else go (index_of o)
  where
    go : Result RepriceError ℕ → PassResult
    go (err e) = (st, err e)
    go (ok index) =
        let successor =
          new_order o.market_slug o.offset_seconds index generation o.direction price
            (remaining_size o) now o.trace_id o.engine in
        placed (a.place successor) o.reprice_chain_id successor now (save_in successor st)

-- A cancel that raises: the original stays, of unknown state if the outcome is unknown.
abbrev pub not_cancelled : Disposition → VenueError → Order → ℕ → RepriceState → PassResult
not_cancelled Disposition.indeterminate e o now st =
    move_and o OrderState.indeterminate now (message e) st (λ o' st'. (st', ok o'))
not_cancelled Disposition.retry_now e o now st = (st, ok o)
not_cancelled Disposition.fail e o now st = (st, ok o)

abbrev pub cancelled_then :
    Option VenueError → Answers → Decimal → ℕ → Order → ℕ → RepriceState → PassResult
cancelled_then (some e) a price generation o now st = not_cancelled (classify e) e o now st
cancelled_then none a price generation o now st =
    move_and o OrderState.cancelled now (codes "reprice") st
      (λ o' st'. replace_with a price generation o' now st')

abbrev pub consider : Option Decimal → Answers → ℕ → Order → ℕ → RepriceState → PassResult
consider none a generation o now st = (st, ok o)
consider (some price) a generation o now st = cancelled_then a.cancel a price generation o now st

-- The pass of an order that may move, by the generation of its successor.
abbrev pub in_generation :
    RepricePolicy → ℕ → Answers → Result RepriceError ℕ → Order → ℕ → RepriceState → PassResult
in_generation p pre_attempts a (err e) o now st = (st, err e)
in_generation p pre_attempts a (ok generation) o now st =
    let chain = o.reprice_chain_id in
    let n = passes_of chain st.passes + 1 in
    let st' = record st { passes = set_passes chain n st.passes } in
    if ltb max_price_retries generation
    then (record st { passes = pop chain st.passes }, ok o)
    else if leb n pre_attempts
    then (st', ok o)
    else consider (target p o.price a.best o.direction) a generation o now st'

unfoldable pub maybe_reprice : RepricePolicy → ℕ → Answers → Order → ℕ → RepriceState → PassResult
unfolding generation_of index_of passes_of target
maybe_reprice p pre_attempts a o now st =
    if not (same_state o.state OrderState.submitted || same_state o.state OrderState.partial)
    then (record st { passes = pop o.reprice_chain_id st.passes }, ok o)
    else in_generation p pre_attempts a (generation_of o) o now st
