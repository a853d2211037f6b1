-- ===== src/Market/Table.antt =====
-- arc/storage/store.py: the table of the markets. Its timestamps, the reason of a dead market and
-- the settlement's columns are left out. The slug is the table's key.
pub mod Rows
pub mod Kept
use lufy.Prelude.{
  ℕ, Bool, true, false, Option, none, some, List, [], ◌∷◌, ◌++◌, Text, text_eq, is_some, find,
  if◌then◌else◌,
}
use lufy.Domain.Enums.{MarketPhase}
use lufy.Domain.Models.{Decimal}
use lufy.Domain.Market.{TwapAccumulator, MarketInstance}

pub record MarketRow : Type 0 where
  pub slug : Text
  pub window_ts : ℕ
  pub close_ts : ℕ
  pub phase : MarketPhase
  pub ptb : Option Decimal
  pub accumulator : TwapAccumulator
  pub archived : Bool

abbrev pub MarketTable : Type 0
MarketTable = List MarketRow

-- `Store.load_market_row`
unfoldable pub load_market_row : Text → MarketTable → Option MarketRow
load_market_row slug rows = find (λ m. text_eq m.slug slug) rows

-- `UPDATE markets SET … WHERE slug = ?`
unfoldable pub update : Text → (MarketRow → MarketRow) → MarketTable → MarketTable
update slug f [] = []
update slug f (m ∷ rows) =
    if text_eq m.slug slug then f m ∷ update slug f rows else m ∷ update slug f rows

abbrev pub new_row : MarketInstance → MarketRow
new_row m = record {
  slug = m.slug;
  window_ts = m.window_ts;
  close_ts = m.close_ts;
  phase = m.phase;
  ptb = none;
  accumulator = m.accumulator;
  archived = false;
}

-- `INSERT OR IGNORE`: whether the row was inserted, and the table after it.
abbrev pub insert : MarketInstance → Option MarketRow → MarketTable → Bool × MarketTable
insert m none rows = (true, rows ++ (new_row m ∷ []))
insert m (some _) rows = (false, rows)

-- `Store.create_market`
unfoldable pub create_market : MarketInstance → MarketTable → Bool × MarketTable
unfolding load_market_row
create_market m rows = insert m (load_market_row m.slug rows) rows

abbrev pub write_ptb : Decimal → MarketRow → MarketRow
write_ptb value m = if is_some m.ptb then m else record m { ptb = some value }

-- `Store.save_ptb`, `WHERE slug = ? AND ptb IS NULL`
unfoldable pub save_ptb : Text → Decimal → MarketTable → MarketTable
unfolding update
save_ptb slug value rows = update slug (write_ptb value) rows

abbrev pub ptb_of : Option MarketRow → Option Decimal
ptb_of none = none
ptb_of (some m) = m.ptb

-- `Store.load_ptb`
unfoldable pub load_ptb : Text → MarketTable → Option Decimal
unfolding load_market_row
load_ptb slug rows = ptb_of (load_market_row slug rows)

unfoldable pub save_phase : Text → MarketPhase → MarketTable → MarketTable
unfolding update
save_phase slug phase rows = update slug (λ m. record m { phase = phase }) rows

unfoldable pub save_accumulator : Text → TwapAccumulator → MarketTable → MarketTable
unfolding update
save_accumulator slug accumulator rows =
    update slug (λ m. record m { accumulator = accumulator }) rows

unfoldable pub archive_market : Text → MarketTable → MarketTable
unfolding update
archive_market slug rows = update slug (λ m. record m { archived = true }) rows
