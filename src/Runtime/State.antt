-- ===== src/Runtime/State.antt =====
-- arc/runtime/state.py: `RuntimeState`, and the table of arc/storage/store.py that its flags are
-- written to. The methods return the gate, which is a view of the state; here they return the state
-- and the table. The instants of the writes are left out.
pub mod Table
pub mod Safety
pub mod Arming
use lufy.Prelude.{
  Bool, true, false, not, ◌&&◌, Option, none, some, List, [], ◌∷◌, Text, codes, text_eq, is_empty,
  Result, ok, err, if◌then◌else◌,
}
use lufy.Domain.Enums.{SettlementSpecStatus}

abbrev pub Table : Type 0
Table = List (Text × Text)

-- `Store.get_runtime_state`
unfoldable pub get_runtime_state : Text → Table → Option Text
get_runtime_state key [] = none
get_runtime_state key ((k, v) ∷ rows) =
    let later = get_runtime_state key rows in if text_eq k key then some v else later

-- `Store.set_runtime_state`
unfoldable pub set_runtime_state : Text → Text → Table → Table
set_runtime_state key value [] = (key, value) ∷ []
set_runtime_state key value ((k, v) ∷ rows) =
    let later = set_runtime_state key value rows in
    if text_eq k key then (k, value) ∷ rows else (k, v) ∷ later

-- `KEY_TRADING_ENABLED`, `KEY_TRADING_REASON`, `KEY_SPEC_STATUS`
abbrev pub key_trading_enabled : Text
key_trading_enabled = codes "trading_enabled"

abbrev pub key_trading_reason : Text
key_trading_reason = codes "trading_disabled_reason"

abbrev pub key_spec_status : Text
key_spec_status = codes "settlement_spec_status"

-- `_TRUE` and `_FALSE`
abbrev pub flag_text : Bool → Text
flag_text true = codes "true"
flag_text false = codes "false"

-- `SettlementSpecStatus.value`
abbrev pub status_text : SettlementSpecStatus → Text
status_text SettlementSpecStatus.unverified = codes "UNVERIFIED"
status_text SettlementSpecStatus.verified = codes "VERIFIED"
status_text SettlementSpecStatus.failed = codes "FAILED"

-- `SettlementSpecStatus(text)`, `none` for a `ValueError`
unfoldable pub status_of : Text → Option SettlementSpecStatus
status_of t =
    if text_eq t (codes "UNVERIFIED")
    then some SettlementSpecStatus.unverified
    else if text_eq t (codes "VERIFIED")
    then some SettlementSpecStatus.verified
    else if text_eq t (codes "FAILED")
    then some SettlementSpecStatus.failed
    else none

-- `DenialReason.TRADING_DISABLED_SPEC_UNVERIFIED.value`
abbrev pub unverified_reason : Text
unverified_reason = codes "TRADING_DISABLED_SPEC_UNVERIFIED"

-- The flags in memory.
pub record RuntimeState : Type 0 where
  pub enabled : Bool
  pub reason : Text
  pub spec_status : SettlementSpecStatus
  pub armed : Bool

-- `TradingGate.submitting`
abbrev pub submitting : RuntimeState → Bool
submitting m = m.enabled && m.armed

-- `RuntimeState.__init__`
abbrev pub initial : RuntimeState
initial = record {
  enabled = false;
  reason = unverified_reason;
  spec_status = SettlementSpecStatus.unverified;
  armed = false;
}

pub record System : Type 0 where
  pub memory : RuntimeState
  pub table : Table

abbrev pub load_enabled : Option Text → RuntimeState → RuntimeState
load_enabled none m = m
load_enabled (some stored) m = record m { enabled = text_eq stored (codes "true") }

abbrev pub load_reason : Option Text → RuntimeState → RuntimeState
load_reason (some stored) m = record m { reason = stored }
load_reason none m = if m.enabled then record m { reason = [] } else m

abbrev pub load_parsed : Option SettlementSpecStatus → RuntimeState → RuntimeState
load_parsed (some status) m = record m { spec_status = status }
load_parsed none m = record m {
  spec_status = SettlementSpecStatus.unverified;
  enabled = false;
  reason = unverified_reason;
}

abbrev pub load_status : Option Text → RuntimeState → RuntimeState
load_status none m = m
load_status (some stored) m = load_parsed (status_of stored) m

unfoldable pub load : Table → RuntimeState → RuntimeState
unfolding get_runtime_state status_of
load t m = load_status (get_runtime_state key_spec_status t) (
    load_reason (get_runtime_state key_trading_reason t)
      (load_enabled (get_runtime_state key_trading_enabled t) m))

abbrev pub arm_execution : System → System
arm_execution s = record s { memory = record s.memory { armed = true } }

abbrev pub disarm_execution : System → System
disarm_execution s = record s { memory = record s.memory { armed = false } }

-- `_persist`
unfoldable pub persist : Bool → Text → System → System
unfolding set_runtime_state
persist enabled reason s = record {
  memory = record s.memory { enabled = enabled; reason = reason };
  table =
      set_runtime_state key_trading_reason reason
        (set_runtime_state key_trading_enabled (flag_text enabled) s.table);
}

-- The `ValueError` of a blank reason.
pub data BlankReason : Type 0 where
  blank_reason : BlankReason

unfoldable pub disable_trading : Text → System → Result BlankReason System
unfolding persist
disable_trading reason s = if is_empty reason then err blank_reason else ok (persist false reason s)

abbrev pub is_verified : SettlementSpecStatus → Bool
is_verified SettlementSpecStatus.verified = true
is_verified SettlementSpecStatus.unverified = false
is_verified SettlementSpecStatus.failed = false

unfoldable pub enable_trading : System → Result BlankReason System
unfolding persist disable_trading
enable_trading s =
    if not (is_verified s.memory.spec_status)
    then disable_trading unverified_reason s
    else ok (persist true [] s)

unfoldable pub record_spec_status : SettlementSpecStatus → Text → System → Result BlankReason System
unfolding set_runtime_state disable_trading
record_spec_status status reason s =
    let s' : System = record {
      memory = record s.memory { spec_status = status };
      table = set_runtime_state key_spec_status (status_text status) s.table;
    } in
    if is_verified status
    then ok s'
    else disable_trading (if is_empty reason then unverified_reason else reason) s'
