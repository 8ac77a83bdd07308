-- ===== src/Executor/Requests.antt =====
-- protocol.c: the pending requests, reset and stop first, the rest by the state machine.
use cnc_3d.Common.{Bool, true, false, not, ◌&&◌, ◌||◌, ℕ, zero, suc, ◌==◌, if◌then◌else◌}
use cnc_3d.System.{idle, alarm, safety_door, same_state}
use cnc_3d.Override.{flush_override_buffers}
use cnc_3d.StateMachine.Types.{
  RtExec, no_request, any_request, no_control, Effect, driver_reset, e_stop_message,
  motor_fault_message, stop_message, reset_read_buffer, cancel_read_buffer, suspend_read,
  init_parser, plan_reset, st_reset, sync_position, gc_spindle_off, gc_coolant, st_prep_buffer,
  execute_startup, report_status, report_gcode_modes, report_tool_offsets, report_pid, alarm_none,
  alarm_e_stop, Core, Coords, World,
}
use cnc_3d.StateMachine.Simple.{emit, system_raise_alarm}
use cnc_3d.StateMachine.Events.{state_set}
use cnc_3d.StateMachine.Update.{state_update}
use cnc_3d.Executor.Types.{Executor, Setup, join}
use cnc_3d.Executor.Alarm.{kill}

pub data Outcome (F : Type 0) : Type 0 where
  returned : (value : Bool) → Executor F → Outcome F
  goes_on : Executor F → Outcome F

-- The alarms that a stop leaves.
abbrev pub keeps_alarm : ℕ → Bool
keeps_alarm a = a == 11 || a == 12 || a == 13

abbrev pub alarm_motor_fault : ℕ
alarm_motor_fault = 17

-- What is left for the state machine.
abbrev pub remaining : RtExec → RtExec
remaining rt = record rt {
  stop = false;
  status_report = false;
  gcode_report = false;
  pid_report = false;
  tlo_report = false;
  rt_command = false;
}

abbrev pub cancel_request : RtExec
cancel_request = record no_request { motion_cancel = true }

module _ {F : Type 0} where
  -- `st_prep_buffer` in each round of waiting for the steppers.
  unfoldable pub await_steppers : ℕ → Core F → Core F
  await_steppers zero m = emit st_prep_buffer m
  await_steppers (suc n) m = await_steppers n (emit st_prep_buffer m)

  abbrev pub emit_if : Bool → Effect F → Core F → Core F
  emit_if b e m = if b then emit e m else m

  unfoldable pub make_reports : RtExec → Core F → Core F
  make_reports rt m = emit_if rt.rt_command execute_startup (
      emit_if rt.pid_report report_pid (
        emit_if rt.tlo_report report_tool_offsets
          (emit_if rt.gcode_report report_gcode_modes (emit_if rt.status_report report_status m))))

module _ {F : Type 0} (ops : Coords F) (u : Setup F) where
  -- The emergency stop and a motor fault keep a reset from ending in an abort.
  unfoldable pub reset_fault : Core F → Core F
  reset_fault m =
      let m1 = emit reset_read_buffer m in
      if u.e_stop
      then emit e_stop_message (system_raise_alarm u.world alarm_e_stop m1)
      else (if u.motor_fault
          then emit motor_fault_message (system_raise_alarm u.world alarm_motor_fault m1)
          else m)

  unfoldable pub exec_reset_request : Bool → Executor F → Outcome F
  exec_reset_request killed x =
      let abort = not u.e_stop && not u.motor_fault in
      let core = reset_fault (if killed then x.core else kill x.core) in
      returned (not abort)
        (record x { core = if killed then core else emit driver_reset core; abort = abort })

  -- The world with the tool change called off.
  abbrev pub no_tool_change : World F
  no_tool_change = record (u.world) { tool_change_pending = false }

  abbrev pub modal_overrides : Core F → Core F
  modal_overrides m =
      if m.sync
      then record m {
        feed_hold_disable = u.modal_feed_hold_disable;
        sync = u.modal_sync;
        parking_disable = u.modal_parking_disable;
      }
      else m

  -- Input that waits is dropped, unless a program is to go on.
  abbrev pub drop_input : Bool → Core F → Core F
  drop_input keep m =
      if not keep && u.world.has_suspend_read
      then emit_if u.cancels_input cancel_read_buffer (emit (suspend_read false) m)
      else m

  -- The end of the motion that a stop meets, with what is requested meanwhile.
  unfoldable pub end_motion : Core F → RtExec × Core F
  end_motion m =
      let m1 = await_steppers u.stepping (state_update ops no_tool_change cancel_request m) in
      if m.alarm_pending == alarm_none
      then (if u.is_stepping
          then (join m1.rt u.meanwhile, record m1 { rt = no_request })
          else (no_request, m))
      else (
        no_request,
        record (system_raise_alarm no_tool_change m.alarm_pending m) { alarm_pending = alarm_none },
      )

  -- Everything is reset, and spindle and coolant are off.
  abbrev pub reset_modules : Core F → Core F
  reset_modules m = emit (gc_coolant 0) (
      emit gc_spindle_off
        (emit sync_position (emit st_reset (emit plan_reset (emit init_parser m)))))

  unfoldable pub leave_stop : Core F → Core F
  leave_stop m =
      let m1 = state_set ops u.stopped (if u.stopped.door_ajar then safety_door else idle) m in
      if same_state m.sys_state alarm && keeps_alarm m.alarm then m else emit stop_message m1

  unfoldable pub begin_stop : Executor F → Core F
  begin_stop x =
      let m1 = record (x.core) { step = no_control; feed_hold_pending = false } in
      drop_input x.keep_input (emit driver_reset (modal_overrides m1))

  unfoldable pub exec_stop_request : RtExec → Executor F → RtExec × Executor F
  exec_stop_request rt x =
      let m1 = begin_stop x in
      let (more, m2) = end_motion m1 in
      (
        join rt more,
        record x {
          cancel = true;
          keep_input = false;
          position_lost = if m1.alarm_pending == alarm_none then x.position_lost else u.is_stepping;
          env = record (x.env) {
            feed_delay = false;
            spindle_delay = false;
            coolant_delay = false;
            spindle_on = false;
          };
          over = record (x.over) {
            buffers = flush_override_buffers x.over.buffers;
            coolant = record { flood = false; mist = false };
          };
          core = leave_stop (reset_modules m2);
        },
      )

  -- Reports, and the state machine.
  unfoldable pub exec_rest : World F → RtExec → Executor F → Executor F
  exec_rest w rt x =
      let m = make_reports rt x.core in
      record x {
        core = if any_request (remaining rt) then state_update ops w (remaining rt) m else m;
      }

  unfoldable pub exec_requests : Bool → Executor F → Outcome F
  exec_requests killed x =
      let rt = x.core.rt in
      let x1 = record x { core = record (x.core) { rt = no_request }; reset_pending = rt.reset } in
      let (rt2, x2) = exec_stop_request rt x1 in
      if not (any_request rt)
      then goes_on x
      else (if rt.reset
          then exec_reset_request killed x1
          else goes_on (if rt.stop then exec_rest u.stopped rt2 x2 else exec_rest u.world rt x1))
