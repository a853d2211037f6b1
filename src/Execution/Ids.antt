-- ===== src/Execution/Ids.antt =====
-- arc/execution/orders.py: the order ids. An id is a text, and the number at its right end is
-- printed and read in decimal; `isdigit` is that of the ASCII digits, the only ones an id holds.
pub mod Decimals
pub mod Laws
use lufy.Prelude.{
  ℕ, zero, suc, ◌+◌, ◌-◌, ◌*◌, ◌/◌, ◌%◌, Bool, true, false, not, ◌&&◌, ◌||◌, List, [], ◌∷◌, ◌++◌,
  Text, codes, text_eq, is_empty, Result, ok, err, leb, ◌==◌, if◌then◌else◌,
}
use lufy.Domain.Enums.{default_engine}

abbrev pub colon : ℕ
colon = b':'

-- The decimal digits of a number, before a text. The fuel is one more than the number.
unfoldable pub digits : ℕ → ℕ → Text → Text
digits zero n out = out
digits (suc f) n out =
    let rest = digits f (n / 10) ((b'0' + n % 10) ∷ out) in
    if n / 10 == 0 then (b'0' + n % 10) ∷ out else rest

-- `str(n)`
unfoldable pub print : ℕ → Text
unfolding digits
print n = digits (suc n) n []

abbrev pub is_digit : ℕ → Bool
is_digit c = leb b'0' c && leb c b'9'

abbrev pub all_digits : Text → Bool
all_digits [] = true
all_digits (c ∷ s) = is_digit c && all_digits s

-- `s.isdigit()`
abbrev pub isdigit : Text → Bool
isdigit s = not (is_empty s) && all_digits s

-- `int(s)` on digits
unfoldable pub read_from : ℕ → Text → ℕ
read_from n [] = n
read_from n (c ∷ s) = read_from (n * 10 + (c - b'0')) s

unfoldable pub has_colon : Text → Bool
has_colon [] = false
has_colon (c ∷ s) = c == colon || has_colon s

-- `s.rpartition(":")` without its middle part; with no colon the left part is empty
unfoldable pub rpartition : Text → Text × Text
unfolding has_colon
rpartition [] = ([], [])
rpartition (c ∷ s) =
    let (left, right) = rpartition s in
    if has_colon s then (c ∷ left, right) else if c == colon then ([], s) else ([], c ∷ s)

unfoldable pub engine_prefix : Text → Text
engine_prefix engine = if text_eq engine default_engine then [] else engine ++ colon ∷ []

unfoldable pub chain_id_for : Text → ℕ → ℕ → Text → Text
unfolding print engine_prefix
chain_id_for market_slug offset_seconds index engine =
    engine_prefix engine
    ++ (market_slug ++ (colon ∷ (print offset_seconds ++ (colon ∷ print index))))

unfoldable pub order_id_for : Text → ℕ → ℕ → ℕ → Text → Text
unfolding chain_id_for print
order_id_for market_slug offset_seconds index generation engine =
    chain_id_for market_slug offset_seconds index engine ++ (colon ∷ print generation)

-- `OrderTransitionError`, by the call that raised it, its message left out
pub data OrderError : Type 0 where
  not_derived no_op illegal bad_fill not_live : OrderError

-- The id from the two parts of the old one.
abbrev pub advance : Text → Text → Result OrderError Text
advance chain generation =
    if is_empty chain || not (isdigit generation)
    then err not_derived
    else ok (chain ++ (colon ∷ print (read_from 0 generation + 1)))

unfoldable pub next_generation_id : Text → Result OrderError Text
unfolding rpartition print read_from
next_generation_id order_id =
    let (chain, generation) = rpartition order_id in advance chain generation
