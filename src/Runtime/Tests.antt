-- ===== src/Runtime/Tests.antt =====
-- The flags through a first run and a restart.
mod Restart
use lufy.Prelude.{◌≡◌, refl, true, List, [], ◌∷◌, codes, Any, text_eq}
use lufy.Domain.Enums.{SettlementSpecStatus}
use lufy.Runtime.State.{
  submitting, load, get_runtime_state, set_runtime_state, status_of, persist, disable_trading,
  enable_trading, record_spec_status,
}
use lufy.Runtime.State.Safety.{Call, restart, arm, enable, disable, record_status, call, run}
use lufy.Runtime.State.Arming.{first_start, IsArm, submitting_verified}

abbrev first_run : List Call
first_run =
    enable
    ∷ record_status SettlementSpecStatus.verified []
    ∷ enable
    ∷ arm
    ∷ disable (codes "drift")
    ∷ enable
    ∷ []

abbrev second_run : List Call
second_run = arm ∷ []

second_run-submits :
    submitting (run second_run (call restart (run first_run first_start))).memory ≡ true
unfolding run call load get_runtime_state set_runtime_state status_of persist disable_trading
    enable_trading record_spec_status text_eq
second_run-submits = refl

submitting_verified_example :
    ((run second_run (call restart (run first_run first_start))).memory.spec_status
      ≡ SettlementSpecStatus.verified)
    × Any IsArm second_run
submitting_verified_example = submitting_verified first_run second_run second_run-submits
