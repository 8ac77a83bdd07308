-- ===== src/Executor/Types.antt =====
-- What the realtime executor works on, and what one call of it sees.
use cnc_3d.Common.{ℕ, Bool, ◌||◌, List, Option}
use cnc_3d.Protocol.Overrides.{Env, Machine}
use cnc_3d.StateMachine.Types.{RtExec, Core, World}

-- The state machine's variables with `sys`, and the overrides; `core.rt` is `sys.rt_exec_state`,
-- `core.exec_alarm` is `sys.rt_exec_alarm`; `line` has the characters before `char_counter`.
pub record Executor (F : Type 0) : Type 0 where
  pub core : Core F
  pub over : Machine
  pub env : Env
  pub reset_pending : Bool
  pub abort : Bool
  pub cancel : Bool
  pub keep_input : Bool
  pub position_lost : Bool
  pub line : List ℕ
  pub keep_rt_commands : Bool
  pub last_error : ℕ

-- A round of the loop that a critical event ends in: what is requested, whether the emergency stop or
-- a motor fault is signalled, the character that is read, if any, and what has become of the state
-- machine when `system_execute_line` has executed a line, with its status, and when the functions
-- on `on_execute_realtime` have run.
pub record BlockRound (F : Type 0) : Type 0 where
  pub requests : RtExec
  pub signalled : Bool
  pub received : Option ℕ
  pub system_execute_line : List ℕ → Core F → ℕ × Core F
  pub on_execute_realtime : Core F → Core F

-- `stopped` is the world after a stop has reset parser and planner, `stepping` the rounds of waiting
-- for the steppers beyond the first, `meanwhile` what is requested in these.
pub record Setup (F : Type 0) : Type 0 where
  pub world : World F
  pub stopped : World F
  pub rounds : List (BlockRound F)
  pub e_stop : Bool
  pub motor_fault : Bool
  pub cancels_input : Bool
  pub is_stepping : Bool
  pub stepping : ℕ
  pub meanwhile : RtExec
  pub modal_feed_hold_disable : Bool
  pub modal_sync : Bool
  pub modal_parking_disable : Bool

-- `rt_exec | more`
abbrev pub join : RtExec → RtExec → RtExec
join a b = record {
  status_report = a.status_report || b.status_report;
  cycle_start = a.cycle_start || b.cycle_start;
  cycle_complete = a.cycle_complete || b.cycle_complete;
  feed_hold = a.feed_hold || b.feed_hold;
  stop = a.stop || b.stop;
  reset = a.reset || b.reset;
  safety_door = a.safety_door || b.safety_door;
  motion_cancel = a.motion_cancel || b.motion_cancel;
  sleep = a.sleep || b.sleep;
  tool_change = a.tool_change || b.tool_change;
  pid_report = a.pid_report || b.pid_report;
  gcode_report = a.gcode_report || b.gcode_report;
  tlo_report = a.tlo_report || b.tlo_report;
  rt_command = a.rt_command || b.rt_command;
  door_closed = a.door_closed || b.door_closed;
}
