-- ===== src/Market/Rotation/Restart.antt =====
-- What a restart within a window reads back of the observations routed before it.
use lufy.Prelude.{ℕ, ◌≡◌, refl, ap, ◌∙◌, Option, none, some, List, [], ◌∷◌, ◌++◌, text_eq_self}
use lufy.Domain.Enums.{MarketPhase}
use lufy.Domain.Models.{Decimal}
use lufy.Domain.Timing.{window_ts_for, slug_for}
use lufy.Domain.Market.{TwapAccumulator, MarketInstance, empty_accumulator, add, add_observation}
use lufy.Market.Table.{MarketRow, MarketTable, load_market_row, create_market, save_phase, new_row}
use lufy.Market.Table.Rows.{load-update_same, load-append}
use lufy.Market.Rotation.{MarketRotator, new_rotator, create, open_window, restore, advance, route}

unfoldable pub route_all : List Decimal → MarketRotator → MarketRotator
unfolding route
route_all [] r = r
route_all (price ∷ prices) r = route_all prices (route price r)

-- An accumulator that has seen the prices.
unfoldable pub add_all : List Decimal → TwapAccumulator → TwapAccumulator
unfolding add
add_all [] a = a
add_all (price ∷ prices) a = add_all prices (add price a)

abbrev pub accumulator_of : Option MarketInstance → Option TwapAccumulator
accumulator_of none = none
accumulator_of (some m) = some m.accumulator

-- The only live market is open.
record IsOpen (accumulator : TwapAccumulator) (table : MarketTable) (r : MarketRotator)
    : Type 0 where
  market : MarketInstance
  is_current : r.current ≡ some market
  active : market.phase ≡ MarketPhase.active
  nothing_closing : r.closing ≡ none
  collected : market.accumulator ≡ accumulator
  written : r.table ≡ table

route-IsOpen :
    (price : Decimal) (a : TwapAccumulator) (table : MarketTable) (r : MarketRotator)
    → IsOpen a table r
    → IsOpen (add price a) table (route price r)
unfolding route add_observation add
route-IsOpen price a table r h =
    rw (h.is_current, h.nothing_closing, h.active)
      (record {
        market = record h.market {
          phase = MarketPhase.active;
          last_btc = some price;
          accumulator = add price h.market.accumulator;
        };
        is_current = refl;
        active = refl;
        nothing_closing = refl;
        collected = ap (add price) h.collected;
        written = h.written;
      })

route_all-IsOpen :
    (prices : List Decimal) (a : TwapAccumulator) (table : MarketTable) (r : MarketRotator)
    → IsOpen a table r
    → IsOpen (add_all prices a) table (route_all prices r)
unfolding route_all add_all
route_all-IsOpen [] a table r h = h
route_all-IsOpen (price ∷ prices) a table r h =
    route_all-IsOpen prices (add price a) table (route price r) (route-IsOpen price a table r h)

-- The table after a market was opened for the first time.
abbrev opened_table : ℕ → MarketTable → MarketTable
opened_table window_ts table =
    save_phase (slug_for window_ts) MarketPhase.active (table ++ (new_row (create window_ts) ∷ []))

advance-IsOpen :
    (table : MarketTable) (now : ℕ)
    → load_market_row (slug_for (window_ts_for now)) table ≡ none
    → IsOpen empty_accumulator
        (opened_table (window_ts_for now) table)
        (advance now (new_rotator table)).1
unfolding advance open_window create create_market
advance-IsOpen table now h = rw h (record {
  market = record (create (window_ts_for now)) { phase = MarketPhase.active };
  is_current = refl;
  active = refl;
  nothing_closing = refl;
  collected = refl;
  written = refl;
})

load-opened_table :
    (window_ts : ℕ) (table : MarketTable)
    → load_market_row (slug_for window_ts) table ≡ none
    → load_market_row (slug_for window_ts) (opened_table window_ts table)
      ≡ some (record (new_row (create window_ts)) { phase = MarketPhase.active })
unfolding save_phase create
load-opened_table window_ts table h =
    rw
      (
        load-update_same (slug_for window_ts) (λ m. record m { phase = MarketPhase.active })
            (λ m. refl) (table ++ (new_row (create window_ts) ∷ [])),
        load-append (slug_for window_ts) (new_row (create window_ts)) table,
        h,
        text_eq_self (slug_for window_ts),
      )
      refl

reopened :
    (table : MarketTable) (now : ℕ) (row : MarketRow)
    → load_market_row (slug_for (window_ts_for now)) table ≡ some row
    → row.phase ≡ MarketPhase.active
    → accumulator_of (advance now (new_rotator table)).1.current ≡ some row.accumulator
unfolding advance open_window create create_market restore
reopened table now row h active = rw (h, h, active) refl

-- A window's market is opened for the first time and observations are routed to it: it accumulates
-- every one. The process restarts within the window, on the same table: the market that is
-- restored has an empty accumulator.
pub restart_forgets :
    (table : MarketTable) (now : ℕ) (prices : List Decimal)
    → load_market_row (slug_for (window_ts_for now)) table ≡ none
    → (accumulator_of (route_all prices (advance now (new_rotator table)).1).current
        ≡ some (add_all prices empty_accumulator))
      × (accumulator_of
            (advance now
              (new_rotator (route_all prices (advance now (new_rotator table)).1).table)).1.current
          ≡ some empty_accumulator)
unfolding create
restart_forgets table now prices h =
    let w : ℕ = window_ts_for now in
    let o : IsOpen (add_all prices empty_accumulator) (opened_table w table)
        (route_all prices (advance now (new_rotator table)).1) =
      route_all-IsOpen prices empty_accumulator (opened_table w table)
        (advance now (new_rotator table)).1 (advance-IsOpen table now h) in
    (
      ap accumulator_of o.is_current ∙ ap some o.collected,
      rw o.written (
          reopened (opened_table w table) now
            (record (new_row (create w)) { phase = MarketPhase.active })
            (load-opened_table w table h) refl),
    )
