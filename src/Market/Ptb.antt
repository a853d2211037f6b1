-- ===== src/Market/Ptb.antt =====
-- arc/market/ptb.py: the official opening reference of a market. Reading a decimal from a text is
-- Python's, a parameter; the details of a resolution and logging are left out.
pub mod Official
use lufy.Prelude.{
  ℕ, ◌+◌, Bool, true, false, Option, none, some, Text, Result, ok, ◌>>=◌, ◌==◌, ltb, if◌then◌else◌,
}
use lufy.Prelude.Int.{pos, leb_ℤ}
use lufy.Domain.Models.{Decimal}
use lufy.Domain.Timing.{market_duration_seconds}
use lufy.Domain.Market.{MarketInstance, MarketError, freeze_ptb}

-- What `to_decimal` reads from the stripped text: nothing where it raises or is not finite.
abbrev pub Parse : Type 0
Parse = Text → Option Decimal

-- The texts of `MarketMetadata` (arc/market/discovery.py) that this module reads.
pub record MarketMetadata : Type 0 where
  pub ptb_raw : Option Text
  pub final_price_raw : Option Text

pub record PreviousClosePtb : Type 0 where
  pub settled_window_ts : ℕ
  pub opens_window_ts : ℕ
  pub price : Decimal
  pub raw : Text

abbrev pub usable_for : ℕ → PreviousClosePtb → Bool
usable_for window_ts e = e.opens_window_ts == window_ts

abbrev pub positive : Option Decimal → Option Decimal
positive none = none
positive (some value) = if leb_ℤ value (pos 0) then none else some value

-- `_official_text_to_decimal`: nothing where it raises
unfoldable pub official_text_to_decimal : Parse → Text → Option Decimal
official_text_to_decimal parse text = positive (parse text)

-- `PreviousClosePtbCache._latest`
abbrev pub Cache : Type 0
Cache = Option PreviousClosePtb

abbrev pub entry_for : ℕ → Decimal → Text → PreviousClosePtb
entry_for settled price raw = record {
  settled_window_ts = settled;
  opens_window_ts = settled + market_duration_seconds;
  price = price;
  raw = raw;
}

-- The part of `offer` after the text was read: the answer, and the cache after it.
abbrev pub offer_price : ℕ → Decimal → Text → Cache → Option PreviousClosePtb × Cache
offer_price settled price raw none =
    (some (entry_for settled price raw), some (entry_for settled price raw))
offer_price settled price raw (some held) =
    if ltb settled held.settled_window_ts
    then (none, some held)
    else if held.settled_window_ts == settled
    then (some held, some held)
    else (some (entry_for settled price raw), some (entry_for settled price raw))

abbrev pub offer_read : ℕ → Text → Option Decimal → Cache → Option PreviousClosePtb × Cache
offer_read settled raw none cache = (none, cache)
offer_read settled raw (some price) cache = offer_price settled price raw cache

abbrev pub offer_text : Parse → ℕ → Option Text → Cache → Option PreviousClosePtb × Cache
offer_text parse settled none cache = (none, cache)
offer_text parse settled (some raw) cache =
    offer_read settled raw (official_text_to_decimal parse raw) cache

-- `PreviousClosePtbCache.offer`
unfoldable pub offer : Parse → MarketMetadata → ℕ → Cache → Option PreviousClosePtb × Cache
unfolding official_text_to_decimal
offer parse metadata settled cache = offer_text parse settled metadata.final_price_raw cache

-- `PreviousClosePtbCache.for_window`
unfoldable pub for_window : ℕ → Cache → Option PreviousClosePtb
for_window window_ts none = none
for_window window_ts (some e) = if usable_for window_ts e then some e else none

pub data PtbSource : Type 0 where
  official_metadata official_previous_close unavailable : PtbSource

pub record PtbResolution : Type 0 where
  pub value : Option Decimal
  pub source : PtbSource

-- The second source of `resolve_ptb`.
abbrev pub resolve_previous : ℕ → Option PreviousClosePtb → PtbResolution
resolve_previous window_ts none = record { value = none; source = PtbSource.unavailable }
resolve_previous window_ts (some e) =
    if usable_for window_ts e
    then record { value = some e.price; source = PtbSource.official_previous_close }
    else record { value = none; source = PtbSource.unavailable }

abbrev pub resolve_official : ℕ → Option PreviousClosePtb → Option Decimal → PtbResolution
resolve_official window_ts previous none = resolve_previous window_ts previous
resolve_official window_ts previous (some value) = record {
  value = some value;
  source = PtbSource.official_metadata;
}

-- What the metadata's own field says.
abbrev pub metadata_ptb : Parse → Option Text → Option Decimal
metadata_ptb parse none = none
metadata_ptb parse (some raw) = official_text_to_decimal parse raw

unfoldable pub resolve_ptb : Parse → MarketMetadata → ℕ → Option PreviousClosePtb → PtbResolution
unfolding official_text_to_decimal
resolve_ptb parse metadata window_ts previous =
    resolve_official window_ts previous (metadata_ptb parse metadata.ptb_raw)

abbrev pub freeze_value :
    Option Decimal → MarketInstance → Result MarketError (Bool × MarketInstance)
freeze_value none m = ok (false, m)
freeze_value (some value) m = freeze_ptb value m >>= λ m'. ok (true, m')

-- `freeze_ptb_for`
unfoldable pub freeze_ptb_for :
    PtbResolution → MarketInstance → Result MarketError (Bool × MarketInstance)
unfolding freeze_ptb
freeze_ptb_for resolution m = freeze_value resolution.value m
