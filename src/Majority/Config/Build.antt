-- ===== src/Majority/Config/Build.antt =====
-- arc/majority/config.py: `_build_one_window` and `build_majority_config`, each check in the order
-- of the source. A failed check is the error that it raises.
use lufy.Prelude.{
  ℕ, Bool, true, false, ◌&&◌, List, [], ◌∷◌, Text, codes, is_empty, Result, ok, err, ◌>>=◌,
  if◌then◌else◌,
}
use lufy.Prelude.Int.{ℤ, pos, pos_part, ◌-ℤ◌, ltb_ℤ, leb_ℤ}
use lufy.Domain.Models.{Decimal}
use lufy.Domain.Timing.{market_duration_seconds}
use lufy.Majority.Config.{
  MajorityWindowConfig, MajorityConfig, majority_disabled, price_retry_attempts_min,
  price_retry_attempts_max, price_retry_attempts_default,
}
use lufy.Majority.Config.Values.{
  ConfigError, Settings, Readers, Field, bool_value, require_decimal, or_error, strip, get,
  split_windows, window_value,
}
use lufy.Majority.Config.Values

-- `if bad: raise …`, one check after the other
abbrev pub refuse : List (Bool × ConfigError) → Result ConfigError Unit
refuse [] = ok tt
refuse ((true, e) ∷ checks) = err e
refuse ((false, e) ∷ checks) = refuse checks

-- The checks on a window's numbers, after all of them are read.
abbrev pub number_checks : Decimal → Decimal → MajorityWindowConfig → List (Bool × ConfigError)
number_checks min_tradable_size tick_size w =
    (leb_ℤ w.trigger_price (pos 0), Values.price_not_positive)
    ∷ (leb_ℤ w.target_limit_price (pos 0), Values.price_not_positive)
    ∷ (leb_ℤ w.entry_price_max w.entry_price_min, Values.inverted_band)
    ∷ (leb_ℤ w.entry_price_min (pos 0), Values.band_not_positive)
    ∷ (ltb_ℤ (w.entry_price_max -ℤ w.entry_price_min) tick_size, Values.narrow_band)
    ∷ (ltb_ℤ w.entry_price_max w.target_limit_price, Values.target_above_band)
    ∷ (ltb_ℤ w.target_limit_price w.entry_price_min, Values.target_below_band)
    ∷ (leb_ℤ w.shares (pos 0), Values.shares_not_positive)
    ∷ (ltb_ℤ w.shares min_tradable_size, Values.shares_below_minimum)
    ∷ []

abbrev pub checked :
    Decimal → Decimal → MajorityWindowConfig → Result ConfigError MajorityWindowConfig
checked min_tradable_size tick_size w =
    refuse (number_checks min_tradable_size tick_size w) >>= λ _. ok w

-- The window of the numbers that are read; the first of them that cannot be read is the error.
abbrev pub assemble :
    ℤ
    → Decimal
    → Result ConfigError Decimal
    → Result ConfigError Decimal
    → Result ConfigError Decimal
    → Result ConfigError Decimal
    → Result ConfigError Decimal
    → Result ConfigError MajorityWindowConfig
assemble window buffer (ok trigger) (ok target) (ok entry_min) (ok entry_max) (ok shares) =
    ok (record {
      execution_window_seconds = pos_part window;
      buffer = buffer;
      trigger_price = trigger;
      target_limit_price = target;
      shares = shares;
      entry_price_min = entry_min;
      entry_price_max = entry_max;
      disable_reason = [];
    })
assemble window buffer (err e) _ _ _ _ = err e
assemble window buffer (ok _) (err e) _ _ _ = err e
assemble window buffer (ok _) (ok _) (err e) _ _ = err e
assemble window buffer (ok _) (ok _) (ok _) (err e) _ = err e
assemble window buffer (ok _) (ok _) (ok _) (ok _) (err e) = err e

abbrev pub buffer_checks : Decimal → List (Bool × ConfigError)
buffer_checks buffer = (ltb_ℤ buffer (pos 0), Values.negative_buffer) ∷ []

-- The rest of `_build_one_window`, once the buffer is read.
unfoldable pub build_with_buffer :
    Readers
    → ℤ
    → (Field → Text)
    → Decimal
    → Decimal
    → Decimal
    → Result ConfigError MajorityWindowConfig
build_with_buffer r window values min_tradable_size tick_size buffer =
    refuse (buffer_checks buffer) >>= λ _.
    assemble window buffer (require_decimal r (values Field.trigger_price))
      (require_decimal r (values Field.target_limit_price))
      (require_decimal r (values Field.entry_price_min))
      (require_decimal r (values Field.entry_price_max)) (require_decimal r (values Field.shares))
    >>= checked min_tradable_size tick_size

-- the tests on the length of a window
abbrev pub length_checks : ℤ → List (Bool × ConfigError)
length_checks window =
    (leb_ℤ window (pos 0), Values.window_not_positive)
    ∷ (leb_ℤ (pos market_duration_seconds) window, Values.window_too_long)
    ∷ []

-- `_build_one_window`, on the texts of the window
unfoldable pub build_one_window :
    Readers → ℤ → (Field → Text) → Decimal → Decimal → Result ConfigError MajorityWindowConfig
unfolding build_with_buffer
build_one_window r window values min_tradable_size tick_size =
    refuse (length_checks window) >>= λ _.
    require_decimal r (values Field.buffer)
    >>= build_with_buffer r window values min_tradable_size tick_size

-- The loop over the windows.
unfoldable pub build_windows :
    Readers → List ℤ → Settings → Decimal → Decimal → Result ConfigError (List MajorityWindowConfig)
unfolding build_one_window window_value
build_windows r [] values min_tradable_size tick_size = ok []
build_windows r (window ∷ windows) values min_tradable_size tick_size =
    build_one_window r window (window_value values window) min_tradable_size tick_size >>= λ w.
    build_windows r windows values min_tradable_size tick_size >>= λ ws. ok (w ∷ ws)

abbrev pub attempts_in_range : ℤ → Result ConfigError ℕ
attempts_in_range n =
    if leb_ℤ (pos price_retry_attempts_min) n && leb_ℤ n (pos price_retry_attempts_max)
    then ok (pos_part n)
    else err Values.attempts_out_of_range

-- The number of attempts, with its default where the text is blank.
abbrev pub attempts_of : Readers → Text → Result ConfigError ℕ
attempts_of r raw =
    if is_empty raw
    then ok price_retry_attempts_default
    else (or_error Values.not_integer (r.to_int raw) >>= λ n. attempts_in_range n)

unfoldable pub build_attempts : Readers → Settings → Result ConfigError ℕ
unfolding strip
build_attempts r values = attempts_of r (strip (get values (codes "majority_price_retry_attempts")))

-- The configuration from its switches, its attempts and its windows.
abbrev pub enabled_config : Bool → Bool → Bool → ℕ → List MajorityWindowConfig → MajorityConfig
enabled_config trigger_limit buffer price_retry attempts windows = record {
  enabled = true;
  windows = windows;
  trigger_limit_enabled = trigger_limit;
  buffer_enabled = buffer;
  price_retry_enabled = price_retry;
  price_retry_attempts = attempts;
  disable_reason = [];
}

-- What follows the switches.
unfoldable pub build_rest :
    Readers → Settings → Decimal → Decimal → Bool → Bool → Bool → Result ConfigError MajorityConfig
unfolding build_attempts build_windows
build_rest r values min_tradable_size tick_size trigger_limit buffer price_retry =
    build_attempts r values >>= λ attempts. split_windows r values >>= λ offsets.
    build_windows r offsets values min_tradable_size tick_size >>= λ windows.
    ok (enabled_config trigger_limit buffer price_retry attempts windows)

-- The configuration once MAJORITY is on. No window named is a configuration with no window.
unfoldable pub build_enabled :
    Readers → Settings → Decimal → Decimal → Result ConfigError MajorityConfig
unfolding bool_value build_rest
build_enabled r values min_tradable_size tick_size =
    bool_value values (codes "majority_trigger_limit_enabled") >>= λ trigger_limit_enabled.
    bool_value values (codes "majority_buffer_enabled") >>= λ buffer_enabled.
    bool_value values (codes "majority_price_retry_enabled") >>= λ price_retry_enabled.
    build_rest r values min_tradable_size tick_size trigger_limit_enabled buffer_enabled
      price_retry_enabled

-- `build_majority_config`
unfoldable pub build_majority_config :
    Readers → Settings → Decimal → Decimal → Result ConfigError MajorityConfig
unfolding bool_value build_enabled
build_majority_config r values min_tradable_size tick_size =
    bool_value values (codes "majority_enabled") >>= λ enabled.
    if enabled then build_enabled r values min_tradable_size tick_size else ok majority_disabled
