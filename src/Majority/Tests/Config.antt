-- ===== src/Majority/Tests/Config.antt =====
-- Settings of two windows, one of them with a target of its own, and the theorem at their values.
use lufy.Prelude.{
  ℕ, ◌≡◌, refl, true, false, Option, none, some, List, [], ◌∷◌, Text, codes, text_eq, ok,
  if◌then◌else◌,
}
use lufy.Prelude.Int.{ℤ, pos, ◌-ℤ◌}
use lufy.Domain.Models.{Decimal}
use lufy.Execution.Ids.{isdigit, read_from, print, digits}
use lufy.Majority.Config.{MajorityWindowConfig, MajorityConfig}
use lufy.Majority.Config.Values.{
  Readers, Settings, strip, bool_value, require_decimal, parse_parts, parse_window_list,
  split_windows, window_value,
}
use lufy.Majority.Config.Build.{
  build_with_buffer, build_one_window, build_windows, build_attempts, build_rest, build_enabled,
  build_majority_config,
}
use lufy.Majority.Config.Valid.{IsSound, build_majority_config-IsSound}

-- Numbers written as digits only.
abbrev read_number : Text → Option ℤ
read_number s = if isdigit s then some (pos (read_from 0 s)) else none

abbrev readers : Readers
readers = record { to_decimal = read_number; to_int = read_number }

abbrev entry : Text → List (Text × Text) → Option Text
entry name [] = none
entry name ((key, value) ∷ rest) = if text_eq key name then some value else entry name rest

abbrev table : List (Text × Text)
table =
    (codes "majority_enabled", codes " TRUE ")
    ∷ (codes "majority_trigger_limit_enabled", codes "on")
    ∷ (codes "majority_execution_windows", codes "60, 15,,60")
    ∷ (codes "majority_buffer", codes "0")
    ∷ (codes "majority_trigger_price", codes "820000")
    ∷ (codes "majority_target_limit_price", codes "900000")
    ∷ (codes "majority_w_15_target_limit_price", codes "850000")
    ∷ (codes "majority_shares", codes "10000000")
    ∷ (codes "majority_entry_price_min", codes "800000")
    ∷ (codes "majority_entry_price_max", codes "950000")
    ∷ []

abbrev settings : Settings
settings name = entry name table

abbrev window : ℕ → Decimal → MajorityWindowConfig
window seconds target = record {
  execution_window_seconds = seconds;
  buffer = pos 0;
  trigger_price = pos 820000;
  target_limit_price = target;
  shares = pos 10000000;
  entry_price_min = pos 800000;
  entry_price_max = pos 950000;
  disable_reason = [];
}

abbrev config : MajorityConfig
config = record {
  enabled = true;
  windows = window 15 (pos 850000) ∷ window 60 (pos 900000) ∷ [];
  trigger_limit_enabled = true;
  buffer_enabled = false;
  price_retry_enabled = false;
  price_retry_attempts = 5;
  disable_reason = [];
}

built : build_majority_config readers settings (pos 5000000) (pos 10000) ≡ ok config
unfolding build_majority_config build_enabled build_rest build_attempts build_windows
    build_one_window build_with_buffer bool_value require_decimal parse_parts parse_window_list
    split_windows window_value strip text_eq print digits read_from ◌-ℤ◌
built = refl

build_majority_config-IsSound_example : IsSound (pos 5000000) (pos 10000) config
build_majority_config-IsSound_example =
    build_majority_config-IsSound readers settings (pos 5000000) (pos 10000) config built
