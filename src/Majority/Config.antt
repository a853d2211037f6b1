-- ===== src/Majority/Config.antt =====
-- arc/majority/config.py: the configuration of the engine and of each of its windows, and the entry
-- mode of a window. Warnings are left out, and so are the texts that only storage reads back.
pub mod Values
pub mod Build
pub mod Valid
use lufy.Prelude.{
  ℕ, Bool, true, false, not, ◌&&◌, ◌||◌, Option, none, some, List, [], ◌∷◌, find, keep, Text, codes,
  is_empty, is_list_empty, ltb, leb, ◌==◌, if◌then◌else◌,
}
use lufy.Prelude.Int.{pos, leb_ℤ}
use lufy.Domain.Models.{Decimal}

-- `MAJORITY_ENGINE`
abbrev pub majority_engine : Text
majority_engine = codes "MAJORITY"

-- `PRICE_RETRY_ATTEMPTS_MIN`, `PRICE_RETRY_ATTEMPTS_MAX`, `PRICE_RETRY_ATTEMPTS_DEFAULT`
abbrev pub price_retry_attempts_min : ℕ
price_retry_attempts_min = 5

abbrev pub price_retry_attempts_max : ℕ
price_retry_attempts_max = 10

abbrev pub price_retry_attempts_default : ℕ
price_retry_attempts_default = 5

pub record MajorityWindowConfig : Type 0 where
  pub execution_window_seconds : ℕ
  pub buffer : Decimal
  pub trigger_price : Decimal
  pub target_limit_price : Decimal
  pub shares : Decimal
  pub entry_price_min : Decimal
  pub entry_price_max : Decimal
  pub disable_reason : Text

-- `MajorityWindowConfig.tradable`
abbrev pub window_tradable : MajorityWindowConfig → Bool
window_tradable w = is_empty w.disable_reason

pub data EntryMode : Type 0 where
  direct btc_trigger twap_support : EntryMode

-- `EntryMode.for_window`
unfoldable pub for_window : MajorityWindowConfig → Bool → EntryMode
for_window w buffer_enabled =
    if not buffer_enabled
    then EntryMode.direct
    else if leb_ℤ w.buffer (pos 0)
    then if ltb 30 w.execution_window_seconds then EntryMode.direct else EntryMode.twap_support
    else if ltb 30 w.execution_window_seconds
    then EntryMode.btc_trigger
    else EntryMode.twap_support

abbrev pub mode_text : EntryMode → Text
mode_text EntryMode.direct = codes "DIRECT"
mode_text EntryMode.btc_trigger = codes "BTC_TRIGGER"
mode_text EntryMode.twap_support = codes "TWAP_SUPPORT"

pub record MajorityConfig : Type 0 where
  pub enabled : Bool
  pub windows : List MajorityWindowConfig
  pub trigger_limit_enabled : Bool
  pub buffer_enabled : Bool
  pub price_retry_enabled : Bool
  pub price_retry_attempts : ℕ
  pub disable_reason : Text

abbrev pub all_tradable : List MajorityWindowConfig → Bool
all_tradable [] = true
all_tradable (w ∷ ws) = window_tradable w && all_tradable ws

-- `MajorityConfig.tradable`
unfoldable pub config_tradable : MajorityConfig → Bool
config_tradable c =
    if not c.enabled || (not (is_empty c.disable_reason) || is_list_empty c.windows)
    then false
    else all_tradable c.windows

-- `sorted(…, key=…)`, a stable sort by the window's length
abbrev pub insert_window :
    MajorityWindowConfig → List MajorityWindowConfig → List MajorityWindowConfig
insert_window w [] = w ∷ []
insert_window w (v ∷ ws) =
    if leb w.execution_window_seconds v.execution_window_seconds
    then w ∷ v ∷ ws
    else v ∷ insert_window w ws

abbrev pub sort_windows : List MajorityWindowConfig → List MajorityWindowConfig
sort_windows [] = []
sort_windows (w ∷ ws) = insert_window w (sort_windows ws)

unfoldable pub windows_by_offset : MajorityConfig → List MajorityWindowConfig
windows_by_offset c = sort_windows c.windows

unfoldable pub tradable_windows : MajorityConfig → List MajorityWindowConfig
unfolding windows_by_offset
tradable_windows c = keep window_tradable (windows_by_offset c)

unfoldable pub window_for : ℕ → MajorityConfig → Option MajorityWindowConfig
window_for offset c = find (λ w. w.execution_window_seconds == offset) c.windows

-- `MAJORITY_DISABLED`
abbrev pub majority_disabled : MajorityConfig
majority_disabled = record {
  enabled = false;
  windows = [];
  trigger_limit_enabled = false;
  buffer_enabled = false;
  price_retry_enabled = false;
  price_retry_attempts = price_retry_attempts_default;
  disable_reason = [];
}
