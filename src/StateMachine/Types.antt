-- ===== src/StateMachine/Types.antt =====
-- state_machine.c and system.h: the variables of the state machine, and what it reads and calls.
use cnc_3d.Common.{ℕ, Bool, false, ◌||◌, Option, List, ◌==◌}
use cnc_3d.System.{SysState, SpindleStop}

-- The functions that `stateHandler` points to.
pub data Handler : Type 0 where
  on_idle on_cycle await_hold noop await_motion_cancel await_resume : Handler
  await_toolchanged await_waypoint_retract restore await_resumed await_restart_retract : Handler

-- `parking_state_t` and `hold_state_t`, by their values.
abbrev pub parking_door_closed : ℕ
parking_door_closed = 0

abbrev pub parking_door_ajar : ℕ
parking_door_ajar = 1

abbrev pub parking_retracting : ℕ
parking_retracting = 2

abbrev pub parking_resuming : ℕ
parking_resuming = 4

abbrev pub hold_not_holding : ℕ
hold_not_holding = 0

abbrev pub hold_complete : ℕ
hold_complete = 1

abbrev pub hold_pending : ℕ
hold_pending = 2

-- The alarms that the state machine tells apart.
abbrev pub alarm_none : ℕ
alarm_none = 0

abbrev pub alarm_e_stop : ℕ
alarm_e_stop = 10

abbrev pub alarm_spindle : ℕ
alarm_spindle = 14

-- Hard limit, soft limit, emergency stop and motor fault.
abbrev pub is_critical : ℕ → Bool
is_critical a = a == 1 || a == 2 || a == 10 || a == 17

-- The bits of `rt_exec_t`; EXEC_MOTION_CANCEL and EXEC_MOTION_CANCEL_FAST are one bit.
pub record RtExec : Type 0 where
  pub status_report : Bool
  pub cycle_start : Bool
  pub cycle_complete : Bool
  pub feed_hold : Bool
  pub stop : Bool
  pub reset : Bool
  pub safety_door : Bool
  pub motion_cancel : Bool
  pub sleep : Bool
  pub tool_change : Bool
  pub pid_report : Bool
  pub gcode_report : Bool
  pub tlo_report : Bool
  pub rt_command : Bool
  pub door_closed : Bool

abbrev pub no_request : RtExec
no_request = record {
  status_report = false;
  cycle_start = false;
  cycle_complete = false;
  feed_hold = false;
  stop = false;
  reset = false;
  safety_door = false;
  motion_cancel = false;
  sleep = false;
  tool_change = false;
  pid_report = false;
  gcode_report = false;
  tlo_report = false;
  rt_command = false;
  door_closed = false;
}

-- What is left of the bits when that of a cycle start is taken away.
abbrev pub other_request : RtExec → Bool
other_request r =
    r.status_report || r.cycle_complete || r.feed_hold || r.stop || r.reset || r.safety_door
    || r.motion_cancel || r.sleep || r.tool_change || r.pid_report || r.gcode_report || r.tlo_report
    || r.rt_command || r.door_closed

-- `rt_exec != 0`
abbrev pub any_request : RtExec → Bool
any_request r = r.cycle_start || other_request r

-- `step_control_t`
pub record StepControl : Type 0 where
  pub end_motion : Bool
  pub execute_hold : Bool
  pub execute_sys_motion : Bool
  pub update_spindle_rpm : Bool

abbrev pub no_control : StepControl
no_control = record {
  end_motion = false;
  execute_hold = false;
  execute_sys_motion = false;
  update_spindle_rpm = false;
}

module _ (F : Type 0) where
  -- A spindle with its state, in `restore_condition`, in the parser and in a block. `hal` is the
  -- address of its driver, none for NULL; `state` the bits of `spindle_state_t`, bit 0 for on.
  pub record Spindle : Type 0 where
    pub hal : Option ℕ
    pub rpm : F
    pub state : ℕ

  -- `restore_condition_t`
  pub record Restore : Type 0 where
    pub coolant : ℕ
    pub spindle_num : ℕ
    pub spindles : List Spindle

  -- The fields of `plan_line_data_t` that parking uses.
  pub record PlanData : Type 0 where
    pub system_motion : Bool
    pub no_feed_override : Bool
    pub feed_rate : F
    pub coolant : ℕ
    pub spindle : Spindle

  -- `parking_data_t`, with its flags.
  pub record Park : Type 0 where
    pub active : Bool
    pub motion : Bool
    pub restart : Bool
    pub restoring : Bool
    pub target : ℕ → F
    pub restore_target : ℕ → F
    pub retract_waypoint : F
    pub plan : PlanData

  -- Calls into other modules.
  pub data Effect : Type 0 where
    st_go_idle spindle_all_off st_prep_buffer st_wake_up plan_cycle_reinitialize : Effect
    plan_reset st_reset sync_position parking_setup_buffer parking_restore_buffer gc_spindle_off :
        Effect
    enqueue_spindle_stop reset_data tool_changed report_tool spindle_state_changed : Effect
    coolant_set_state coolant_restore gc_coolant : ℕ → Effect
    sleep_message door_message spindle_message none_message : Effect
    driver_reset reset_read_buffer cancel_read_buffer init_parser execute_startup : Effect
    report_status report_gcode_modes report_tool_offsets report_pid : Effect
    e_stop_message motor_fault_message critical_message stop_message : Effect
    update_block_parameters suspend_read : Bool → Effect
    spindle_restore spindle_programmed : Spindle → Effect
    spindle_set_state : Option ℕ → ℕ → Effect
    parking_motion : (ℕ → F) → PlanData → Effect
    state_changed : SysState → Effect
    alarm_message status_message : ℕ → Effect
    null_access : Effect

-- The static variables of state_machine.c and the parts of `sys` that it works on; `log` has the
-- latest effect first.
pub record Core (F : Type 0) : Type 0 where
  pub handler : Handler
  pub sys_state : SysState
  pub pending_state : SysState
  pub condition : Restore F
  pub park : Park F
  pub suspend : Bool
  pub step : StepControl
  pub parking_state : ℕ
  pub holding_state : ℕ
  pub steppers_deenergize : Bool
  pub feed_hold_pending : Bool
  pub soft_limit : Bool
  pub is_homing : Bool
  pub alarm : ℕ
  pub alarm_pending : ℕ
  pub exec_alarm : ℕ
  pub blocking_event : Bool
  pub spindle_stop : SpindleStop
  pub feed_hold_disable : Bool
  pub sync : Bool
  pub parking_disable : Bool
  pub rt : RtExec
  pub log : List (Effect F)

-- Comparison and addition of coordinates.
pub record Coords (F : Type 0) : Type 0 where
  pub zero : F
  pub lt : F → F → Bool
  pub le : F → F → Bool
  pub add : F → F → F

-- What `plan_get_current_block` points to.
pub record Block (F : Type 0) : Type 0 where
  pub spindle : Spindle F
  pub synchronized : Bool
  pub coolant : ℕ
  pub units_per_rev : Bool
  pub has_reset_data : Bool

-- What one round of the wait for the spindle's index pulse sees: whether the pulse has come, and
-- after `on_execute_realtime` whether 5 s have passed and a reset or stop is requested.
pub record PulseRound : Type 0 where
  pub index_reached : Bool
  pub timed_out : Bool
  pub stop_requested : Bool

-- What one call reads: settings, `hal`, the planner, the parser. `spindles` is what
-- `gc_spindle_get` returns for each of the N_SYS_SPINDLE numbers. `delay` is what has become of the
-- machine when `spindle_restore` or `coolant_restore` has waited for the spindle or the coolant
-- (`delay_sec` in nuts_bolts.c): at each step of that wait the realtime executor is called, from
-- within the call that waits, and a spindle that does not reach its speed raises an alarm
-- (`spindle_set_state_wait` in spindle_control.c).
pub record World (F : Type 0) : Type 0 where
  pub parking_enabled : Bool
  pub laser_mode : Bool
  pub disable_laser_during_hold : Bool
  pub keep_coolant_on : Bool
  pub restore_after_feed_hold : Bool
  pub parking_axis : ℕ
  pub parking_target : F
  pub pullout_increment : F
  pub pullout_rate : F
  pub parking_rate : F
  pub axis_homed : Bool
  pub position : ℕ → F
  pub line_accepted : (ℕ → F) → Bool
  pub aborted : Bool
  pub new_plan : PlanData F
  pub block : Option (Block F)
  pub spindles : List (Option (Spindle F))
  pub is_laser : ℕ → Bool
  pub spindle_is_on : ℕ → Bool
  pub spindle_rpm_zero : Bool
  pub coolant_state : ℕ
  pub modal_coolant : ℕ
  pub door_ajar : Bool
  pub tool_change_pending : Bool
  pub has_suspend_read : Bool
  pub driver_started : Bool
  pub pulses : List PulseRound
  pub delay : Core F → Core F
