-- ===== src/System.antt =====
-- stm32_firmware/core-master/system.h and grbl.h: the states of the machine, the bits of
-- `spindle_stop_t`, and the realtime command characters.
use cnc_3d.Common.{ℕ, Bool, true, false, ◌||◌, ◌==◌}

-- The values of `sys_state_t`.
pub data SysState : Type 0 where
  idle alarm check_mode homing cycle hold jog safety_door sleep estop tool_change : SysState

-- The value of a state: a bit for each but the idle state.
abbrev pub code : SysState → ℕ
code idle = 0
code alarm = 1
code check_mode = 2
code homing = 4
code cycle = 8
code hold = 16
code jog = 32
code safety_door = 64
code sleep = 128
code estop = 256
code tool_change = 512

abbrev pub same_state : SysState → SysState → Bool
same_state a b = code a == code b

-- `state == STATE_IDLE || state & (STATE_CYCLE | STATE_HOLD)`
abbrev pub is_idle_cycle_or_hold : SysState → Bool
is_idle_cycle_or_hold idle = true
is_idle_cycle_or_hold cycle = true
is_idle_cycle_or_hold hold = true
is_idle_cycle_or_hold _ = false

abbrev pub is_hold : SysState → Bool
is_hold hold = true
is_hold _ = false

abbrev pub is_safety_door : SysState → Bool
is_safety_door safety_door = true
is_safety_door _ = false

-- `spindle_stop_t`
pub record SpindleStop : Type 0 where
  pub enabled : Bool
  pub initiate : Bool
  pub restore : Bool
  pub restore_cycle : Bool

-- `spindle_stop.value != 0`
abbrev pub any_stop : SpindleStop → Bool
any_stop s = s.enabled || s.initiate || s.restore || s.restore_cycle

-- The override commands (CMD_OVERRIDE_ is left out of the names).
abbrev pub feed_reset : ℕ
feed_reset = 0x90

abbrev pub feed_coarse_plus : ℕ
feed_coarse_plus = 0x91

abbrev pub feed_coarse_minus : ℕ
feed_coarse_minus = 0x92

abbrev pub feed_fine_plus : ℕ
feed_fine_plus = 0x93

abbrev pub feed_fine_minus : ℕ
feed_fine_minus = 0x94

abbrev pub rapid_reset : ℕ
rapid_reset = 0x95

abbrev pub rapid_medium : ℕ
rapid_medium = 0x96

abbrev pub rapid_low : ℕ
rapid_low = 0x97

abbrev pub spindle_reset : ℕ
spindle_reset = 0x99

abbrev pub spindle_coarse_plus : ℕ
spindle_coarse_plus = 0x9a

abbrev pub spindle_coarse_minus : ℕ
spindle_coarse_minus = 0x9b

abbrev pub spindle_fine_plus : ℕ
spindle_fine_plus = 0x9c

abbrev pub spindle_fine_minus : ℕ
spindle_fine_minus = 0x9d

abbrev pub spindle_stop : ℕ
spindle_stop = 0x9e

abbrev pub coolant_flood_toggle : ℕ
coolant_flood_toggle = 0xa0

abbrev pub coolant_mist_toggle : ℕ
coolant_mist_toggle = 0xa1

abbrev pub fan0_toggle : ℕ
fan0_toggle = 0x8a
