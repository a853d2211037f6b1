-- ===== src/Runtime/State/Arming.antt =====
-- Orders are submitted only when the specification is verified and an operator has armed the engine.
use lufy.Prelude.{
  ◌≡◌, refl, sym, ◌∙◌, true, false, Option, none, some, List, [], ◌∷◌, Any, Text, after_call, arith,
  Bool-cases, inl, inr, true≢false,
}
use lufy.Domain.Enums.{SettlementSpecStatus}
use lufy.Runtime.State.{
  get_runtime_state, key_trading_enabled, key_trading_reason, key_spec_status, status_of,
  RuntimeState, System, submitting, initial, load, load_enabled, load_reason, load_parsed,
  load_status, disable_trading, enable_trading, record_spec_status,
}
use lufy.Runtime.State.Safety.{
  Call, restart, arm, disarm, enable, disable, record_status, call, run, IsSafe, call-IsSafe,
  run-IsSafe,
}

-- The first start: new memory over an empty table.
abbrev pub first_start : System
first_start = record { memory = initial; table = [] }

-- The call arms the engine.
abbrev pub IsArm : Call → Type 0
IsArm arm = Unit
IsArm _ = ⊥

load_armed :
    (v r e : Option Text) (m : RuntimeState)
    → (load_status v (load_reason r (load_enabled e m))).armed ≡ m.armed
load_armed v r e m =
    status v (load_reason r (load_enabled e m)) ∙ reason r (load_enabled e m) ∙ flag e m
  where
    parsed :
        (p : Option SettlementSpecStatus) (n : RuntimeState) → (load_parsed p n).armed ≡ n.armed
    parsed none n = refl
    parsed (some x) n = refl

    status : (w : Option Text) (n : RuntimeState) → (load_status w n).armed ≡ n.armed
    status none n = refl
    status (some x) n = parsed (status_of x) n

    reason : (w : Option Text) (n : RuntimeState) → (load_reason w n).armed ≡ n.armed
    reason (some x) n = refl
    reason none n = ground arith

    flag : (w : Option Text) (n : RuntimeState) → (load_enabled w n).armed ≡ n.armed
    flag none n = refl
    flag (some x) n = refl

restart_armed : (s : System) → (call restart s).memory.armed ≡ false
unfolding call load
restart_armed s =
    load_armed (get_runtime_state key_spec_status s.table)
      (get_runtime_state key_trading_reason s.table) (get_runtime_state key_trading_enabled s.table)
      initial

-- The other calls leave the operator's flag as it is.
disable_armed :
    (reason : Text) (s : System)
    → (after_call s (disable_trading reason s)).memory.armed ≡ s.memory.armed
unfolding disable_trading
disable_armed reason s = ground arith

call-IsArm :
    (c : Call) (s : System) → s.memory.armed ≡ false → (call c s).memory.armed ≡ true → IsArm c
unfolding call enable_trading record_spec_status
call-IsArm arm s h k = tt
call-IsArm restart s h k = true≢false (sym k ∙ restart_armed s)
call-IsArm disarm s h k = true≢false (sym k)
call-IsArm enable s h k = ground arith
call-IsArm (disable reason) s h k = true≢false (sym k ∙ disable_armed reason s ∙ h)
call-IsArm (record_status status reason) s h k = ground arith

armed-run :
    (cs : List Call) (s : System)
    → s.memory.armed ≡ false
    → (run cs s).memory.armed ≡ true
    → Any IsArm cs
unfolding run
armed-run [] s h k = true≢false (sym k ∙ h)
armed-run (c ∷ cs) s h k = elim (Bool-cases (call c s).memory.armed) [
  | inl now_armed ↦ inl (call-IsArm c s h now_armed)
  | inr disarmed ↦ inr (armed-run cs (call c s) disarmed k)
]

-- After any calls and restarts from the first start on, orders are submitted only with the
-- specification verified, and with a call that armed the engine since the last restart: a restart
-- is disarmed, whatever the table holds.
pub submitting_verified :
    (before since : List Call)
    → submitting (run since (call restart (run before first_start))).memory ≡ true
    → ((run since (call restart (run before first_start))).memory.spec_status
        ≡ SettlementSpecStatus.verified)
      × Any IsArm since
unfolding get_runtime_state
submitting_verified before since h =
    let s = call restart (run before first_start) in
    let none_stored : IsSafe first_start = record {
      in_memory = λ e. ground arith;
      in_table = λ e. ground arith;
      agrees = λ e. ground arith;
    } in
    let safe =
      run-IsSafe since s (
        call-IsSafe restart (run before first_start) (run-IsSafe before first_start none_stored)) in
    (
      safe.in_memory (ground arith),
      armed-run since s (restart_armed (run before first_start)) (ground arith),
    )
