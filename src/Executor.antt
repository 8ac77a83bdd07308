-- ===== src/Executor.antt =====
-- stm32_firmware/core-master/protocol.c: `protocol_exec_rt_system`, the realtime executor, which
-- hands the pending alarm and the pending requests to the state machine and executes the overrides.
pub mod Types
pub mod Alarm
pub mod Requests
pub mod Coherent
pub mod Reset
pub mod Ajar
pub mod Suspend
mod Examples
use cnc_3d.Common.{Bool, true, false, not, ◌&&◌, ◌||◌, ℕ, List, [], if◌then◌else◌}
use cnc_3d.System.{SysState, cycle, hold, safety_door, homing, sleep, jog}
use cnc_3d.StateMachine.Types.{st_prep_buffer, Core, Coords}
use cnc_3d.StateMachine.Simple.{emit}
use cnc_3d.Protocol.Overrides.{exec_overrides}
use Types.{Executor, Setup}
use Alarm.{Ended, still_blocked, left, exec_pending_alarm}
use Requests.{Outcome, returned, goes_on, exec_requests}

-- The states in which the segment buffer is filled.
abbrev pub may_move : SysState → Bool
may_move cycle = true
may_move hold = true
may_move safety_door = true
may_move homing = true
may_move sleep = true
may_move jog = true
may_move _ = false

-- A ring holds 15 commands.
abbrev pub override_fuel : ℕ
override_fuel = 16

-- What a call ends with: `none` while it is in the loop of a critical event.
pub data Result (F : Type 0) : Type 0 where
  blocked : Executor F → Result F
  result : (value : Bool) → Executor F → Result F

module _ {F : Type 0} (ops : Coords F) (u : Setup F) where
  -- The overrides, on the stop of the spindle that the state machine has.
  unfoldable pub exec_override_commands : Executor F → Executor F
  exec_override_commands x =
      let over =
        exec_overrides override_fuel (record (x.env) { state = x.core.sys_state })
          (record (x.over) { stop = x.core.spindle_stop }) in
      record x { over = over; core = record (x.core) { spindle_stop = over.stop } }

  unfoldable pub fill_segments : Executor F → Executor F
  fill_segments x =
      if may_move x.core.sys_state then record x { core = emit st_prep_buffer x.core } else x

  unfoldable pub after_requests : Outcome F → Result F
  after_requests (returned v x) = result v x
  after_requests (goes_on x) =
      let x1 = fill_segments (exec_override_commands x) in result (not (x1.abort || x1.cancel)) x1

  unfoldable pub after_alarm : Ended F → Result F
  after_alarm (still_blocked x) = blocked x
  after_alarm (left x) = result false x
  after_alarm (Ended.goes_on killed x) = after_requests (exec_requests ops u killed x)

  unfoldable pub protocol_exec_rt_system : Executor F → Result F
  protocol_exec_rt_system x = after_alarm (exec_pending_alarm u x)
