-- ===== src/Majority/Config/Values.antt =====
-- arc/majority/config.py: the settings as texts by name, read one by one. What `int` and
-- `Decimal` make of a text is Python's, and a parameter.
use lufy.Prelude.{
  ℕ, suc, Bool, true, false, not, ◌&&◌, ◌||◌, Option, none, some, List, [], ◌∷◌, ◌++◌, Text, codes,
  text_eq, is_empty, Result, ok, err, ◌>>=◌, leb, ◌+◌, or_else, ◌==◌, if◌then◌else◌,
}
use lufy.Prelude.Int.{ℤ, pos, negsuc, leb_ℤ, eqb_ℤ, ltb_ℤ}
use lufy.Domain.Models.{Decimal}
use lufy.Execution.Ids.{print}

-- `ConfigInvariantError`, by the check that raised it; the last is the bare `ValueError` of `int`
pub data ConfigError : Type 0 where
  not_boolean not_set not_decimal not_integer : ConfigError
  window_not_positive window_too_long negative_buffer price_not_positive : ConfigError
  inverted_band band_not_positive narrow_band target_above_band target_below_band : ConfigError
  shares_not_positive shares_below_minimum attempts_out_of_range value_error : ConfigError

-- `dict[str, str]`
abbrev pub Settings : Type 0
Settings = Text → Option Text

-- What the interpreter reads from a text.
pub record Readers : Type 0 where
  pub to_decimal : Text → Option Decimal
  pub to_int : Text → Option ℤ

-- the white space of ASCII
abbrev pub is_space : ℕ → Bool
is_space c = (c == 32) || (leb 9 c && leb c 13)

abbrev pub lstrip : Text → Text
lstrip [] = []
lstrip (c ∷ s) = if is_space c then lstrip s else c ∷ s

abbrev pub rstrip : Text → Text
rstrip [] = []
rstrip (c ∷ s) = let rest = rstrip s in if is_empty rest && is_space c then [] else c ∷ rest

-- `s.strip()`
unfoldable pub strip : Text → Text
strip s = rstrip (lstrip s)

-- `s.lower()` on ASCII
abbrev pub lower : Text → Text
lower [] = []
lower (c ∷ s) = (if leb b'A' c && leb c b'Z' then c + 32 else c) ∷ lower s

-- `values.get(name, "")`
abbrev pub get : Settings → Text → Text
get values name = or_else (values name) []

abbrev pub is_true_text : Text → Bool
is_true_text s =
    text_eq s (codes "true")
    || (text_eq s (codes "1") || (text_eq s (codes "yes") || text_eq s (codes "on")))

abbrev pub is_false_text : Text → Bool
is_false_text s =
    text_eq s (codes "false")
    || (text_eq s (codes "0")
        || (text_eq s (codes "no") || (text_eq s (codes "off") || is_empty s)))

-- `_bool_value`
unfoldable pub bool_value : Settings → Text → Result ConfigError Bool
unfolding strip
bool_value values name =
    let raw = lower (strip (get values name)) in
    if is_true_text raw then ok true else if is_false_text raw then ok false else err not_boolean

abbrev pub or_error : {A : Type 0} → ConfigError → Option A → Result ConfigError A
or_error e none = err e
or_error e (some a) = ok a

-- `_require_decimal`
unfoldable pub require_decimal : Readers → Text → Result ConfigError Decimal
unfolding strip
require_decimal r raw =
    let value = strip raw in
    if is_empty value then err not_set else or_error not_decimal (r.to_decimal value)

-- `raw.split(",")`, its parts stripped
abbrev pub split_commas : Text → Text → List Text
split_commas part [] = part ∷ []
split_commas part (c ∷ s) =
    let rest = split_commas [] s in
    if c == b',' then part ∷ rest else split_commas (part ++ c ∷ []) s

-- `sorted(set(…))`
abbrev pub insert_once : ℤ → List ℤ → List ℤ
insert_once n [] = n ∷ []
insert_once n (m ∷ ms) =
    if eqb_ℤ n m then m ∷ ms else if ltb_ℤ n m then n ∷ m ∷ ms else m ∷ insert_once n ms

abbrev pub parse_part : Readers → Text → Result ConfigError ℤ
parse_part r part = or_error not_integer (r.to_int part) >>= λ value.
    if leb_ℤ value (pos 0) then err window_not_positive else ok value

-- The loop over the parts, and the sorted set of what it has gathered.
unfoldable pub parse_parts : Readers → List Text → Result ConfigError (List ℤ)
unfolding strip
parse_parts r [] = ok []
parse_parts r (part ∷ parts) =
    let rest = parse_parts r parts in
    if is_empty (strip part)
    then rest
    else parse_part r (strip part) >>= λ value. rest >>= λ values. ok (insert_once value values)

-- `_parse_window_list`
unfoldable pub parse_window_list : Readers → Text → Result ConfigError (List ℤ)
unfolding strip parse_parts
parse_window_list r raw =
    if is_empty (strip raw) then ok [] else parse_parts r (split_commas [] (strip raw))

-- the windows of `_split_window_values`, the legacy scalar where no list is set
unfoldable pub split_windows : Readers → Settings → Result ConfigError (List ℤ)
unfolding strip parse_window_list
split_windows r values =
    let listed = strip (get values (codes "majority_execution_windows")) in
    let legacy = strip (get values (codes "majority_execution_window_seconds")) in
    if not (is_empty listed)
    then parse_window_list r listed
    else if not (is_empty legacy)
    then (or_error value_error (r.to_int legacy) >>= λ window. ok (window ∷ []))
    else ok []

-- `shared_fields`, without the prefix that the names share
pub data Field : Type 0 where
  buffer trigger_price target_limit_price shares entry_price_min entry_price_max : Field

abbrev pub field_name : Field → Text
field_name Field.buffer = codes "buffer"
field_name Field.trigger_price = codes "trigger_price"
field_name Field.target_limit_price = codes "target_limit_price"
field_name Field.shares = codes "shares"
field_name Field.entry_price_min = codes "entry_price_min"
field_name Field.entry_price_max = codes "entry_price_max"

abbrev pub print_ℤ : ℤ → Text
print_ℤ (pos n) = print n
print_ℤ (negsuc n) = b'-' ∷ print (suc n)

-- A blank override falls back to the shared value.
abbrev pub overridden : Option Text → Text → Text
overridden none shared = shared
overridden (some override) shared = if is_empty (strip override) then shared else override

-- one window's sub-dictionary of `_split_window_values`
unfoldable pub window_value : Settings → ℤ → Field → Text
unfolding strip print
window_value values window f =
    overridden (values (codes "majority_w_" ++ (print_ℤ window ++ (codes "_" ++ field_name f))))
      (get values (codes "majority_" ++ field_name f))
