-- ===== src/Runtime/State/Safety.antt =====
-- The runtime flags through any calls and restarts.
use lufy.Prelude.{
  ◌≡◌, refl, sym, ◌∙◌, ap, Bool, true, false, Option, none, some, List, [], ◌∷◌, Text, codes,
  text_eq, text_eq→eq, is_empty, ok, err, after_call, arith, Bool-cases, inl, inr, true≢false,
  if◌then◌else◌, Option-cases, or_else,
}
use lufy.Domain.Enums.{SettlementSpecStatus}
use lufy.Runtime.State.{
  get_runtime_state, set_runtime_state, key_trading_enabled, key_trading_reason, key_spec_status,
  flag_text, status_text, status_of, RuntimeState, System, initial, load, load_enabled, load_reason,
  load_status, arm_execution, disarm_execution, persist, blank_reason, is_verified,
  unverified_reason, disable_trading, enable_trading, record_spec_status,
}
use lufy.Runtime.State.Table.{get-set, get-set_other}

-- The calls on the flags, and a restart: new memory over the old table.
pub data Call : Type 0 where
  restart arm disarm enable : Call
  disable : Text → Call
  record_status : SettlementSpecStatus → Text → Call

-- A call that raises, which only a blank reason does, leaves the system as it is.
unfoldable pub call : Call → System → System
unfolding load enable_trading disable_trading record_spec_status
call restart s = record { memory = load s.table initial; table = s.table }
call arm s = arm_execution s
call disarm s = disarm_execution s
call enable s = after_call s (enable_trading s)
call (disable reason) s = after_call s (disable_trading reason s)
call (record_status status reason) s = after_call s (record_spec_status status reason s)

unfoldable pub run : List Call → System → System
run [] s = s
run (c ∷ cs) s = run cs (call c s)

-- Trading is enabled, in memory and in the table, only where the specification is verified.
pub record IsSafe (s : System) : Type 0 where
  pub in_memory : s.memory.enabled ≡ true → s.memory.spec_status ≡ SettlementSpecStatus.verified
  pub in_table :
      get_runtime_state key_trading_enabled s.table ≡ some (codes "true")
      → get_runtime_state key_spec_status s.table ≡ some (codes "VERIFIED")
  pub agrees :
      s.memory.spec_status ≡ SettlementSpecStatus.verified
      → get_runtime_state key_spec_status s.table ≡ some (codes "VERIFIED")

-- Reading the two flags after `_persist`.
persist-enabled :
    (b : Bool) (reason : Text) (s : System)
    → get_runtime_state key_trading_enabled (persist b reason s).table ≡ some (flag_text b)
unfolding persist text_eq
persist-enabled b reason s =
    get-set_other key_trading_enabled key_trading_reason reason _ refl
    ∙ get-set key_trading_enabled (flag_text b) s.table

persist-status :
    (b : Bool) (reason : Text) (s : System)
    → get_runtime_state key_spec_status (persist b reason s).table
      ≡ get_runtime_state key_spec_status s.table
unfolding persist text_eq
persist-status b reason s =
    get-set_other key_spec_status key_trading_reason reason _ refl
    ∙ get-set_other key_spec_status key_trading_enabled (flag_text b) s.table refl

texts_differ : codes "false" ≡ codes "true" → ⊥
unfolding text_eq
texts_differ e = true≢false (ap (λ t. text_eq t (codes "false")) e)

some_injective : {a b : Text} → some a ≡ some b → a ≡ b
some_injective {a} {b} e = ap (λ o. or_else o a) e

disabled-IsSafe :
    (reason : Text) (s : System)
    → (s.memory.spec_status ≡ SettlementSpecStatus.verified
        → get_runtime_state key_spec_status s.table ≡ some (codes "VERIFIED"))
    → IsSafe (persist false reason s)
unfolding persist
disabled-IsSafe reason s agrees = record {
  in_memory = λ e. elim (true≢false (sym e)) [ ];
  in_table =
      λ e. elim (texts_differ (some_injective (sym (persist-enabled false reason s) ∙ e))) [ ];
  agrees = λ v. persist-status false reason s ∙ agrees v;
}

enabled-IsSafe :
    (s : System)
    → s.memory.spec_status ≡ SettlementSpecStatus.verified
    → IsSafe s
    → IsSafe (persist true [] s)
unfolding persist
enabled-IsSafe s v safe = record {
  in_memory = λ e. v;
  in_table = λ e. persist-status true [] s ∙ safe.agrees v;
  agrees = λ w. persist-status true [] s ∙ safe.agrees w;
}

status_of-verified : status_of (codes "VERIFIED") ≡ some SettlementSpecStatus.verified
unfolding status_of text_eq
status_of-verified = refl

status_of-text :
    (t : Text) → status_of t ≡ some SettlementSpecStatus.verified → t ≡ codes "VERIFIED"
unfolding status_of
status_of-text t h = elim (Bool-cases (text_eq t (codes "VERIFIED"))) [
  | inl same ↦ text_eq→eq t (codes "VERIFIED") same
  | inr other ↦ ground arith
]

-- What a restart restores: the status as the table has it.
load_status-IsSafe :
    (v : Option Text) (m : RuntimeState)
    → m.spec_status ≡ SettlementSpecStatus.unverified
    → (m.enabled ≡ true → v ≡ some (codes "VERIFIED"))
    → ((load_status v m).enabled ≡ true
        → (load_status v m).spec_status ≡ SettlementSpecStatus.verified)
      × ((load_status v m).spec_status ≡ SettlementSpecStatus.verified
          → v ≡ some (codes "VERIFIED"))
load_status-IsSafe none m fresh h = ((λ e. ground (arith, h e)), (λ w. ground arith))
load_status-IsSafe (some stored) m fresh h = elim (Option-cases (status_of stored)) [
  | inl unknown ↦ rw unknown (ground arith, ground arith)
  | inr (status, known) ↦ rw known (
    (λ e. ground (arith, sym known ∙ ap status_of (some_injective (h e)) ∙ status_of-verified)),
    (λ w. ap some (status_of-text stored (known ∙ ap some w))),
  )
]

loaded : (r e : Option Text) → RuntimeState
loaded r e = load_reason r (load_enabled e initial)

loaded_lem :
    (r e : Option Text)
    → ((loaded r e).spec_status ≡ SettlementSpecStatus.unverified)
      × ((loaded r e).enabled ≡ true → e ≡ some (codes "true"))
unfolding loaded
loaded_lem none none = (refl, (λ h. ground arith))
loaded_lem (some x) none = (refl, (λ h. ground arith))
loaded_lem none (some x) = elim (Bool-cases (text_eq x (codes "true"))) [
  | inl same ↦ rw same (refl, (λ h. ap some (text_eq→eq x (codes "true") same)))
  | inr other ↦ rw other (refl, (λ h. ground arith))
]
loaded_lem (some y) (some x) = (refl, (λ h. ap some (text_eq→eq x (codes "true") h)))

restart-IsSafe :
    (s : System) → IsSafe s → IsSafe (record { memory = load s.table initial; table = s.table })
unfolding load loaded
restart-IsSafe s safe =
    let e = get_runtime_state key_trading_enabled s.table in
    let r = get_runtime_state key_trading_reason s.table in
    let v = get_runtime_state key_spec_status s.table in
    let (fresh, stored) = loaded_lem r e in
    let (first, second) = load_status-IsSafe v (loaded r e) fresh (λ h. safe.in_table (stored h)) in
    record { in_memory = first; in_table = safe.in_table; agrees = second }

disable_trading-persist :
    (reason : Text) (s : System)
    → is_empty reason ≡ false
    → disable_trading reason s ≡ ok (persist false reason s)
unfolding disable_trading
disable_trading-persist reason s given = rw given

disable_trading-blank :
    (reason : Text) (s : System)
    → is_empty reason ≡ true
    → disable_trading reason s ≡ err blank_reason
unfolding disable_trading
disable_trading-blank reason s blank = rw blank

reason_given :
    (reason : Text) → is_empty (if is_empty reason then unverified_reason else reason) ≡ false
reason_given [] = refl
reason_given (c ∷ reason) = refl

refused-IsSafe :
    (status : SettlementSpecStatus) (reason : Text) (s : System)
    → is_verified status ≡ false
    → IsSafe (after_call s (record_spec_status status reason s))
unfolding record_spec_status
refused-IsSafe status reason s h =
    let s' : System = record {
      memory = record s.memory { spec_status = status };
      table = set_runtime_state key_spec_status (status_text status) s.table;
    } in
    let given : Text = if is_empty reason then unverified_reason else reason in
    rw (h, disable_trading-persist given s' (reason_given reason))
      (disabled-IsSafe given s' (λ w. ground arith))

pub call-IsSafe : (c : Call) (s : System) → IsSafe s → IsSafe (call c s)
unfolding call enable_trading record_spec_status
call-IsSafe restart s safe = restart-IsSafe s safe
call-IsSafe arm s safe = record {
  in_memory = safe.in_memory;
  in_table = safe.in_table;
  agrees = safe.agrees;
}
call-IsSafe disarm s safe = record {
  in_memory = safe.in_memory;
  in_table = safe.in_table;
  agrees = safe.agrees;
}
call-IsSafe enable s safe = elim (Bool-cases (is_verified s.memory.spec_status)) [
  | inl verified_spec ↦ rw verified_spec (enabled-IsSafe s (ground arith) safe)
  | inr other ↦ rw other (disabled-IsSafe unverified_reason s safe.agrees)
]
call-IsSafe (disable reason) s safe = elim (Bool-cases (is_empty reason)) [
  | inl blank ↦
      let e : disable_trading reason s ≡ err blank_reason = disable_trading-blank reason s blank in
      rw e safe
  | inr given ↦ rw (disable_trading-persist reason s given) (disabled-IsSafe reason s safe.agrees)
]
call-IsSafe (record_status SettlementSpecStatus.verified reason) s safe =
    let w = get-set key_spec_status (codes "VERIFIED") s.table in
    record { in_memory = λ e. refl; in_table = λ e. w; agrees = λ e. w }
call-IsSafe (record_status SettlementSpecStatus.unverified reason) s safe =
    refused-IsSafe SettlementSpecStatus.unverified reason s refl
call-IsSafe (record_status SettlementSpecStatus.failed reason) s safe =
    refused-IsSafe SettlementSpecStatus.failed reason s refl

pub run-IsSafe : (cs : List Call) (s : System) → IsSafe s → IsSafe (run cs s)
unfolding run
run-IsSafe [] s safe = safe
run-IsSafe (c ∷ cs) s safe = run-IsSafe cs (call c s) (call-IsSafe c s safe)
