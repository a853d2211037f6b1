-- ===== src/Domain/Window.antt =====
-- arc/domain/models.py: `ExecutionWindow`, whose five values freeze together. A method that raises
-- has written nothing. The conversions to a decimal are of values that are decimals already.
pub mod Trigger
pub mod Frozen
use lufy.Prelude.{
  ℕ, Bool, true, false, not, ◌||◌, Option, none, some, Result, ok, err, if◌then◌else◌,
}
use lufy.Prelude.Int.{ℤ, pos, ◌+ℤ◌, ◌-ℤ◌, leb_ℤ, ltb_ℤ, eqb_ℤ}
use lufy.Domain.Enums.{Direction, WindowState}
use lufy.Domain.Models.{Decimal}

pub record ExecutionWindow : Type 0 where
  pub offset_seconds : ℕ
  pub state : WindowState
  pub opening_twap : Option Decimal
  pub ptb : Option Decimal
  pub buffer : Option Decimal
  pub direction : Option Direction
  pub locked_trigger : Option Decimal
  pub frozen_at : Option ℕ
  pub fired_at : Option ℕ

abbrev pub frozen_state : WindowState → Bool
frozen_state WindowState.frozen = true
frozen_state WindowState.fired = true
frozen_state WindowState.pending = false
frozen_state WindowState.expired = false
frozen_state WindowState.no_direction = false

-- `is_frozen`
abbrev pub is_frozen : ExecutionWindow → Bool
is_frozen w = frozen_state w.state

-- `WindowFreezeError`, by its cause, and `NoDirectionError`
pub data WindowError : Type 0 where
  already_frozen bad_buffer bad_ptb bad_twap no_direction_error bad_state cannot_fire : WindowError

abbrev pub trigger_of : Direction → Decimal → Decimal → Decimal
trigger_of Direction.up twap buffer = twap +ℤ buffer
trigger_of Direction.down twap buffer = twap -ℤ buffer

unfoldable pub freeze :
    Decimal → Decimal → Decimal → ℕ → ExecutionWindow → Result WindowError ExecutionWindow
freeze twap ptb buffer frozen_at w =
    if is_frozen w
    then err already_frozen
    else if leb_ℤ buffer (pos 0)
    then err bad_buffer
    else if leb_ℤ ptb (pos 0)
    then err bad_ptb
    else if leb_ℤ twap (pos 0)
    then err bad_twap
    else if eqb_ℤ twap ptb
    then err no_direction_error
    else let direction : Direction = if ltb_ℤ ptb twap then Direction.up else Direction.down in
      ok (record w {
        opening_twap = some twap;
        ptb = some ptb;
        buffer = some buffer;
        direction = some direction;
        locked_trigger = some (trigger_of direction twap buffer);
        frozen_at = some frozen_at;
        state = WindowState.frozen;
      })

-- the states that a window can be restored into
abbrev pub restorable : WindowState → Bool
restorable WindowState.frozen = true
restorable WindowState.fired = true
restorable WindowState.expired = true
restorable WindowState.pending = false
restorable WindowState.no_direction = false

unfoldable pub restore_frozen :
    Decimal
    → Decimal
    → Decimal
    → Direction
    → Decimal
    → ℕ
    → WindowState
    → ExecutionWindow
    → Result WindowError ExecutionWindow
restore_frozen twap ptb buffer direction trigger frozen_at state w =
    if not (restorable state)
    then err bad_state
    else ok (record w {
      opening_twap = some twap;
      ptb = some ptb;
      buffer = some buffer;
      direction = some direction;
      locked_trigger = some trigger;
      frozen_at = some frozen_at;
      state = state;
    })

abbrev pub fires : Option Decimal → Option Direction → Option Decimal → Bool
fires none d twap = false
fires (some trigger) none twap = false
fires (some trigger) (some d) none = false
fires (some trigger) (some Direction.up) (some twap) = leb_ℤ trigger twap
fires (some trigger) (some Direction.down) (some twap) = leb_ℤ twap trigger

-- `is_triggered`
unfoldable pub is_window_triggered : ExecutionWindow → Option Decimal → Bool
is_window_triggered w twap =
    if not (is_frozen w) then false else fires w.locked_trigger w.direction twap

abbrev pub fire_from : WindowState → ℕ → ExecutionWindow → Result WindowError ExecutionWindow
fire_from WindowState.frozen at w = ok (record w { state = WindowState.fired; fired_at = some at })
fire_from WindowState.pending at w = err cannot_fire
fire_from WindowState.fired at w = err cannot_fire
fire_from WindowState.expired at w = err cannot_fire
fire_from WindowState.no_direction at w = err cannot_fire

unfoldable pub mark_fired : ℕ → ExecutionWindow → Result WindowError ExecutionWindow
mark_fired at w = fire_from w.state at w

abbrev pub expire_state : WindowState → WindowState
expire_state WindowState.pending = WindowState.expired
expire_state WindowState.frozen = WindowState.expired
expire_state WindowState.fired = WindowState.fired
expire_state WindowState.expired = WindowState.expired
expire_state WindowState.no_direction = WindowState.no_direction

unfoldable pub mark_expired : ExecutionWindow → ExecutionWindow
mark_expired w = record w { state = expire_state w.state }
