-- ===== src/Majority/Config/Valid.antt =====
-- What a configuration that the builder accepts is like.
use lufy.Prelude.{
  ◌≤◌, ◌<◌, ◌≡◌, refl, Bool, true, false, inl, inr, List, [], ◌∷◌, Text, codes, All, Result, ok,
  err, ◌>>=◌, leb, ◌&&◌, if◌then◌else◌, is_empty, arith, Bool-cases,
}
use lufy.Prelude.Int.{ℤ, pos, negsuc, ◌-ℤ◌, ◌≤ℤ◌, ◌<ℤ◌, pos_part}
use lufy.Domain.Models.{Decimal}
use lufy.Majority.Config.{MajorityWindowConfig, MajorityConfig, majority_disabled}
use lufy.Majority.Config.Values
use lufy.Majority.Config.Values.{
  or_error, ConfigError, Settings, Readers, Field, bool_value, require_decimal, split_windows,
  window_value,
}
use lufy.Majority.Config.Build.{
  refuse, number_checks, checked, assemble, build_with_buffer, length_checks, buffer_checks,
  build_one_window, build_windows, attempts_in_range, attempts_of, build_attempts, enabled_config,
  build_rest, build_enabled, build_majority_config,
}

-- A window that may trade: its numbers are positive, and its target price lies in its band.
pub record IsValid (min_tradable_size tick_size : Decimal) (w : MajorityWindowConfig) : Type 0 where
  pub window_positive : 0 < w.execution_window_seconds
  pub window_short : w.execution_window_seconds < 300
  pub buffer_not_negative : pos 0 ≤ℤ w.buffer
  pub trigger_positive : pos 0 <ℤ w.trigger_price
  pub band_positive : pos 0 <ℤ w.entry_price_min
  pub band_wide : tick_size ≤ℤ w.entry_price_max -ℤ w.entry_price_min
  pub target_above_min : w.entry_price_min ≤ℤ w.target_limit_price
  pub target_below_max : w.target_limit_price ≤ℤ w.entry_price_max
  pub shares_positive : pos 0 <ℤ w.shares
  pub shares_enough : min_tradable_size ≤ℤ w.shares
  pub enabled : w.disable_reason ≡ []

-- What a call returns, if it returns, has the property.
abbrev pub Yields : {A : Type 0} → (A → Type 0) → Result ConfigError A → Type 0
Yields P (ok a) = P a
Yields P (err e) = Unit

>>=-Yields :
    {A B : Type 0} (P : B → Type 0) (x : Result ConfigError A) (f : A → Result ConfigError B)
    → ((a : A) → x ≡ ok a → Yields P (f a))
    → Yields P (x >>= f)
>>=-Yields P (ok a) f h = h a refl
>>=-Yields P (err e) f h = tt

-- No check of the list is one that raises.
abbrev NoneBad : List (Bool × ConfigError) → Type 0
NoneBad checks = All (λ (c : Bool × ConfigError). c.0 ≡ false) checks

refuse-All : (checks : List (Bool × ConfigError)) → refuse checks ≡ ok tt → NoneBad checks
refuse-All [] h = tt
refuse-All ((true, e) ∷ checks) h = ground arith
refuse-All ((false, e) ∷ checks) h = (refl, refuse-All checks h)

checked-IsValid :
    (minimum tick : Decimal) (w : MajorityWindowConfig)
    → 0 < w.execution_window_seconds
    → w.execution_window_seconds < 300
    → pos 0 ≤ℤ w.buffer
    → w.disable_reason ≡ []
    → Yields (IsValid minimum tick) (checked minimum tick w)
checked-IsValid minimum tick w some short buffer enabled =
    >>=-Yields (IsValid minimum tick) (refuse (number_checks minimum tick w)) (λ _. ok w)
      (λ a h.
        let p : NoneBad (number_checks minimum tick w) =
          refuse-All (number_checks minimum tick w) h in
        ground arith)

-- What `assemble` gives has the buffer and the length that it was given.
record IsAssembled (window : ℤ) (buffer : Decimal) (w : MajorityWindowConfig) : Type 0 where
  same_window : w.execution_window_seconds ≡ pos_part window
  same_buffer : w.buffer ≡ buffer
  enabled : w.disable_reason ≡ []

assemble-IsAssembled :
    (window : ℤ) (buffer : Decimal) (a b c d e : Result ConfigError Decimal)
    → Yields (IsAssembled window buffer) (assemble window buffer a b c d e)
assemble-IsAssembled window buffer (ok _) (ok _) (ok _) (ok _) (ok _) = record {
  same_window = refl;
  same_buffer = refl;
  enabled = refl;
}
assemble-IsAssembled window buffer (err _) _ _ _ _ = tt
assemble-IsAssembled window buffer (ok _) (err _) _ _ _ = tt
assemble-IsAssembled window buffer (ok _) (ok _) (err _) _ _ = tt
assemble-IsAssembled window buffer (ok _) (ok _) (ok _) (err _) _ = tt
assemble-IsAssembled window buffer (ok _) (ok _) (ok _) (ok _) (err _) = tt

yielded :
    {A : Type 0} (P : A → Type 0) (x : Result ConfigError A) (a : A) → Yields P x → x ≡ ok a → P a
yielded P (ok b) a p h = ground arith
yielded P (err e) a p h = ground arith

module _ (r : Readers) (window : ℤ) (values : Field → Text) (minimum tick : Decimal) where
  abbrev assembled : Decimal → Result ConfigError MajorityWindowConfig
  assembled buffer =
      assemble window buffer (require_decimal r (values Field.trigger_price))
        (require_decimal r (values Field.target_limit_price))
        (require_decimal r (values Field.entry_price_min))
        (require_decimal r (values Field.entry_price_max)) (require_decimal r (values Field.shares))

  build_with_buffer-IsValid :
      (buffer : Decimal)
      → NoneBad (length_checks window)
      → Yields (IsValid minimum tick) (build_with_buffer r window values minimum tick buffer)
  unfolding build_with_buffer
  build_with_buffer-IsValid buffer length =
      >>=-Yields (IsValid minimum tick) (refuse (buffer_checks buffer))
        (λ _. assembled buffer >>= checked minimum tick)
        (λ a h. >>=-Yields (IsValid minimum tick) (assembled buffer) (checked minimum tick) (λ w e.
          let l : IsAssembled window buffer w =
            yielded (IsAssembled window buffer) (assembled buffer) w
              (assemble-IsAssembled window buffer _ _ _ _ _) e in
          let p : NoneBad (buffer_checks buffer) = refuse-All (buffer_checks buffer) h in
          checked-IsValid minimum tick w (ground arith) (ground arith) (ground arith) l.enabled))

  pub build_one_window-IsValid :
      Yields (IsValid minimum tick) (build_one_window r window values minimum tick)
  unfolding build_one_window
  build_one_window-IsValid =
      >>=-Yields (IsValid minimum tick) (refuse (length_checks window))
        (λ _.
          require_decimal r (values Field.buffer)
          >>= build_with_buffer r window values minimum tick)
        (λ a h.
          >>=-Yields (IsValid minimum tick) (require_decimal r (values Field.buffer))
            (build_with_buffer r window values minimum tick)
            (λ buffer _. build_with_buffer-IsValid buffer (refuse-All (length_checks window) h)))

build_windows-All :
    (r : Readers) (offsets : List ℤ) (values : Settings) (minimum tick : Decimal)
    → Yields (All (IsValid minimum tick)) (build_windows r offsets values minimum tick)
unfolding build_windows
build_windows-All r [] values minimum tick = tt
build_windows-All r (window ∷ offsets) values minimum tick =
    >>=-Yields (All (IsValid minimum tick))
      (build_one_window r window (window_value values window) minimum tick)
      (λ w. build_windows r offsets values minimum tick >>= λ ws. ok (w ∷ ws))
      (λ w e.
        >>=-Yields (All (IsValid minimum tick)) (build_windows r offsets values minimum tick)
          (λ ws. ok (w ∷ ws))
          (λ ws e'. (
            yielded (IsValid minimum tick)
                (build_one_window r window (window_value values window) minimum tick) w
                (build_one_window-IsValid r window (window_value values window) minimum tick) e,
            yielded (All (IsValid minimum tick)) (build_windows r offsets values minimum tick) ws
                (build_windows-All r offsets values minimum tick) e',
          )))

attempts_of-bounds :
    (r : Readers) (raw : Text) → Yields (λ n. (5 ≤ n) × (n ≤ 10)) (attempts_of r raw)
attempts_of-bounds r raw = elim (Bool-cases (is_empty raw)) [
  | inl blank ↦ rw blank (omega arith, omega arith)
  | inr set ↦ rw set (
      >>=-Yields (λ n. (5 ≤ n) × (n ≤ 10)) (or_error Values.not_integer (r.to_int raw))
        attempts_in_range (λ n e. in_range n))
]
  where
    in_range : (n : ℤ) → Yields (λ n. (5 ≤ n) × (n ≤ 10)) (attempts_in_range n)
    in_range (pos n) = elim (Bool-cases (leb 5 n && leb n 10)) [
      | inl within ↦ ground arith
      | inr outside ↦ ground arith
    ]
    in_range (negsuc n) = ground arith

-- A configuration that the engine may run under.
pub record IsSound (minimum tick : Decimal) (c : MajorityConfig) : Type 0 where
  pub windows_valid : All (IsValid minimum tick) c.windows
  pub attempts_min : 5 ≤ c.price_retry_attempts
  pub attempts_max : c.price_retry_attempts ≤ 10

build_rest-IsSound :
    (r : Readers) (values : Settings) (minimum tick : Decimal) (a b c : Bool)
    → Yields (IsSound minimum tick) (build_rest r values minimum tick a b c)
unfolding build_rest
build_rest-IsSound r values minimum tick a b c =
    >>=-Yields (IsSound minimum tick) (build_attempts r values)
      (λ attempts. split_windows r values >>= λ offsets.
        build_windows r offsets values minimum tick >>= λ windows.
        ok (enabled_config a b c attempts windows))
      (λ n en.
        >>=-Yields (IsSound minimum tick) (split_windows r values)
          (λ offsets. build_windows r offsets values minimum tick >>= λ windows.
            ok (enabled_config a b c n windows))
          (λ offsets eo.
            >>=-Yields (IsSound minimum tick) (build_windows r offsets values minimum tick)
              (λ windows. ok (enabled_config a b c n windows))
              (λ windows ew.
                let bounds : (5 ≤ n) × (n ≤ 10) =
                  yielded (λ n. (5 ≤ n) × (n ≤ 10)) (build_attempts r values) n
                    (attempts_of-bounds r _) en in
                record {
                  windows_valid =
                      yielded (All (IsValid minimum tick))
                        (build_windows r offsets values minimum tick) windows
                        (build_windows-All r offsets values minimum tick) ew;
                  attempts_min = bounds.0;
                  attempts_max = bounds.1;
                })))

build_enabled-IsSound :
    (r : Readers) (values : Settings) (minimum tick : Decimal)
    → Yields (IsSound minimum tick) (build_enabled r values minimum tick)
unfolding build_enabled
build_enabled-IsSound r values minimum tick =
    >>=-Yields (IsSound minimum tick) (bool_value values (codes "majority_trigger_limit_enabled"))
      (λ a. bool_value values (codes "majority_buffer_enabled") >>= λ b.
        bool_value values (codes "majority_price_retry_enabled") >>= λ c.
        build_rest r values minimum tick a b c)
      (λ a ea.
        >>=-Yields (IsSound minimum tick) (bool_value values (codes "majority_buffer_enabled"))
          (λ b. bool_value values (codes "majority_price_retry_enabled") >>= λ c.
            build_rest r values minimum tick a b c)
          (λ b eb.
            >>=-Yields (IsSound minimum tick)
              (bool_value values (codes "majority_price_retry_enabled"))
              (build_rest r values minimum tick a b)
              (λ c ec. build_rest-IsSound r values minimum tick a b c)))

-- Every configuration that the builder accepts, from whatever settings, is sound: it has between
-- five and ten attempts, and each of its windows is shorter than the market, has a buffer that is
-- not negative, positive prices, a band at least one tick wide with the target price inside it,
-- and a share count that reaches the exchange's minimum.
pub build_majority_config-IsSound :
    (r : Readers) (values : Settings) (minimum tick : Decimal) (c : MajorityConfig)
    → build_majority_config r values minimum tick ≡ ok c
    → IsSound minimum tick c
unfolding build_majority_config
build_majority_config-IsSound r values minimum tick c =
    yielded (IsSound minimum tick) (build_majority_config r values minimum tick) c (
      >>=-Yields (IsSound minimum tick) (bool_value values (codes "majority_enabled"))
        (λ enabled. if enabled then build_enabled r values minimum tick else ok majority_disabled)
        (λ enabled e. on_or_off enabled))
  where
    on_or_off :
        (enabled : Bool)
        → Yields
            (IsSound minimum tick)
            (if enabled then build_enabled r values minimum tick else ok majority_disabled)
    on_or_off true = build_enabled-IsSound r values minimum tick
    on_or_off false = record {
      windows_valid = tt;
      attempts_min = omega arith;
      attempts_max = omega arith;
    }
