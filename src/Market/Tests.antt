-- ===== src/Market/Tests.antt =====
-- The opening reference and the rotation at concrete values, and the theorems at them.
use lufy.Prelude.{◌≡◌, refl, none, some, List, [], ◌∷◌, codes, text_eq, if◌then◌else◌}
use lufy.Prelude.Int.{pos}
use lufy.Domain.Models.{Decimal}
use lufy.Domain.Timing.{slug_for}
use lufy.Domain.Market.{empty_accumulator}
use lufy.Market.Ptb.{
  Parse, MarketMetadata, PtbSource, official_text_to_decimal, offer, for_window, resolve_ptb,
}
use lufy.Market.Ptb.Official.{Offer, offer_all, IsOfficial, resolve_ptb-IsOfficial}
use lufy.Market.Table.{load_ptb, load_market_row}
use lufy.Market.Rotation.{new_rotator, advance}
use lufy.Market.Rotation.Restart.{add_all, accumulator_of, route_all, restart_forgets}
use lufy.Market.Freezing.{Event, advances, observes, freezes, restarts, run_events}
use lufy.Market.Freezing.Frozen.{HasPtb, run_events_frozen}

-- Reads the two texts below.
abbrev read : Parse
read text =
    if text_eq text (codes "64000.5")
    then some (pos 64000500000)
    else if text_eq text (codes "0")
    then some (pos 0)
    else none

abbrev unpublished : MarketMetadata
unpublished = record { ptb_raw = none; final_price_raw = none }

abbrev published : MarketMetadata
published = record { ptb_raw = none; final_price_raw = some (codes "64000.5") }

-- The market before has published its price, and a slow answer for an older one came after it.
abbrev offers : List Offer
offers =
    record { metadata = published; settled_window_ts = 1699999500 }
    ∷ record { metadata = published; settled_window_ts = 1699999800 }
    ∷ []

resolves_previous :
    resolve_ptb read unpublished 1700000100 (for_window 1700000100 (offer_all read offers))
    ≡ record { value = some (pos 64000500000); source = PtbSource.official_previous_close }
unfolding resolve_ptb for_window offer_all offer official_text_to_decimal text_eq
resolves_previous = refl

resolve_ptb-IsOfficial_example :
    IsOfficial read unpublished 1700000100 offers
      (resolve_ptb read unpublished 1700000100 (for_window 1700000100 (offer_all read offers)))
resolve_ptb-IsOfficial_example = resolve_ptb-IsOfficial read unpublished 1700000100 offers

abbrev prices : List Decimal
prices = pos 64000000000 ∷ pos 64000500000 ∷ []

restart_forgets_example :
    (accumulator_of (route_all prices (advance 1700000150000 (new_rotator [])).1).current
      ≡ some (add_all prices empty_accumulator))
    × (accumulator_of
          (advance 1700000150000 (
            new_rotator
              (route_all prices (advance 1700000150000 (new_rotator [])).1).table)).1.current
        ≡ some empty_accumulator)
unfolding load_market_row
restart_forgets_example = restart_forgets [] 1700000150000 prices refl

abbrev before : List Event
before =
    advances 300000
    ∷ observes (pos 64000000000)
    ∷ freezes (record { value = some (pos 64000500000); source = PtbSource.official_metadata })
    ∷ []

-- A restart, another value that is resolved for the same market, and the next window.
abbrev after : List Event
after =
    restarts
    ∷ advances 301000
    ∷ freezes (record { value = some (pos 1); source = PtbSource.official_metadata })
    ∷ advances 600000
    ∷ []

frozen_before :
    load_ptb (slug_for 300) (run_events before (new_rotator [])).table ≡ some (pos 64000500000)
unfolding run_events load_ptb text_eq
frozen_before = refl

run_events_frozen_example :
    (load_ptb (slug_for 300) (run_events after (run_events before (new_rotator []))).table
      ≡ some (pos 64000500000))
    × HasPtb
        (slug_for 300)
        (pos 64000500000)
        (run_events after (run_events before (new_rotator []))).current
    × HasPtb
        (slug_for 300)
        (pos 64000500000)
        (run_events after (run_events before (new_rotator []))).closing
run_events_frozen_example =
    run_events_frozen [] before after (slug_for 300) (pos 64000500000) frozen_before
