-- ===== src/StateMachine/Update.antt =====
-- state_machine.c: `state_update`, through which the realtime executor drives the state machine, and
-- the functions that report on it.
use cnc_3d.Common.{
  Bool, true, false, not, ◌&&◌, ◌||◌, Option, some, List, ◌∷◌, ℕ, ◌+◌, ◌%◌, if◌then◌else◌,
}
use cnc_3d.System.{alarm, estop, cycle, hold, safety_door, any_stop, is_safety_door}
use cnc_3d.StateMachine.Types.{
  Handler, on_idle, on_cycle, await_hold, noop, await_motion_cancel, await_resume,
  await_toolchanged, await_waypoint_retract, restore, await_resumed, await_restart_retract, RtExec,
  spindle_programmed, spindle_set_state, spindle_state_changed, spindle_message, Core, Coords,
  World, Spindle,
}
use cnc_3d.StateMachine.Simple.{emit}
use cnc_3d.StateMachine.Hold.{restore_spindle, blank, spindle_at}
use cnc_3d.StateMachine.Parking.{no_stop, state_await_hold, state_await_waypoint_retract}
use cnc_3d.StateMachine.Events.{
  state_set, state_idle, state_cycle, state_await_toolchanged, state_await_motion_cancel,
}
use cnc_3d.StateMachine.Resume.{
  is_on, state_spindle_restore, state_await_restart_retract, state_await_resumed, state_restore,
  state_await_resume, hal_is_on,
}

abbrev pub is_await_resume : Handler → Bool
is_await_resume await_resume = true
is_await_resume _ = false

module _ {F : Type 0} (ops : Coords F) (w : World F) where
  -- `stateHandler(rt_exec)`
  unfoldable pub handle : Handler → RtExec → Core F → Core F
  handle on_idle rt m = state_idle ops w rt m
  handle on_cycle rt m = state_cycle ops w rt m
  handle await_hold rt m = state_await_hold ops w rt m
  handle noop rt m = m
  handle await_motion_cancel rt m = state_await_motion_cancel ops w rt m
  handle await_resume rt m = state_await_resume ops w rt m
  handle await_toolchanged rt m = state_await_toolchanged ops w rt m
  handle await_waypoint_retract rt m = state_await_waypoint_retract ops w rt m
  handle restore rt m = state_restore ops w rt m
  handle await_resumed rt m = state_await_resumed ops w rt m
  handle await_restart_retract rt m = state_await_restart_retract ops w rt m

  unfoldable pub state_update : RtExec → Core F → Core F
  state_update rt m =
      let m1 =
        if rt.safety_door && not (is_safety_door m.sys_state)
        then state_set ops w safety_door m
        else m in
      handle m1.handler rt m1

  unfoldable pub state_door_reopened : Core F → Bool
  state_door_reopened m = w.parking_enabled && m.park.restart

  -- `state_get_substate`; `probing` is whether the probe is active or triggered.
  unfoldable pub state_get_substate : Bool → Core F → ℕ
  state_get_substate probing m = elim m.sys_state [
    | cycle ↦ if m.feed_hold_pending then 1 else (if probing then 2 else 0)
    | hold ↦ (m.holding_state + 255) % 256
    | estop ↦ m.alarm
    | alarm ↦ m.alarm
    | safety_door ↦ m.parking_state
    | _ ↦ 0
  ]

  abbrev pub spindle_running : List (Option (Spindle F)) → Bool
  spindle_running (some s ∷ rest) = is_on s.state
  spindle_running _ = false

  -- The start of a spindle stop.
  unfoldable pub stop_spindle : Core F → Core F
  stop_spindle m =
      let s = restore_spindle ops w m in
      let off = record s { state = 0; rpm = ops.zero } in
      let m1 =
        emit spindle_state_changed
          (emit (spindle_set_state s.hal 0) (emit (spindle_programmed off) m)) in
      record m1 { spindle_stop = record no_stop { enabled = true } }

  unfoldable pub restart_spindle : Core F → Core F
  restart_spindle m =
      let m1 = state_spindle_restore ops w (restore_spindle ops w m) (emit spindle_message m) in
      emit spindle_state_changed (record m1 { spindle_stop = no_stop })

  -- `initiate` clears `restore` before that is tested.
  unfoldable pub state_suspend_manager : Core F → Core F
  state_suspend_manager m =
      let stopped =
        if m.spindle_stop.initiate
        then stop_spindle m
        else (if m.spindle_stop.restore then restart_spindle m else m) in
      let first = spindle_at (blank ops w) 0 m.condition.spindles in
      let respeeded = record (state_spindle_restore ops w (restore_spindle ops w m) m) {
        step = record (m.step) { update_spindle_rpm = false };
      } in
      if not (is_await_resume m.handler) || not (spindle_running w.spindles)
      then m
      else (if any_stop m.spindle_stop
          then stopped
          else (if m.step.update_spindle_rpm && hal_is_on ops w first.hal then respeeded else m))
