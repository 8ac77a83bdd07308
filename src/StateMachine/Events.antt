-- ===== src/StateMachine/Events.antt =====
-- state_machine.c: `state_set`, and the handlers of idle, cycle, tool change and motion cancel.
use cnc_3d.Common.{Bool, true, false, not, ◌&&◌, ◌==◌, if◌then◌else◌}
use cnc_3d.System.{
  SysState, idle, alarm, check_mode, homing, cycle, hold, jog, safety_door, sleep, estop,
  tool_change, same_state,
}
use cnc_3d.StateMachine.Types.{
  Handler, await_waypoint_retract, await_motion_cancel, parking_retracting, alarm_none, RtExec,
  other_request, no_control, door_message, suspend_read, tool_changed, report_tool,
  update_block_parameters, plan_reset, st_reset, sync_position, Core, Coords, World,
}
use cnc_3d.StateMachine.Simple.{
  emit, change, set_idle, set_locked, set_jog, set_tool_change, set_cycle,
}
use cnc_3d.StateMachine.Hold.{initiate_hold, set_hold}
use cnc_3d.StateMachine.Parking.{enter_sleep, hold_complete_step}

abbrev pub is_waypoint : Handler → Bool
is_waypoint await_waypoint_retract = true
is_waypoint _ = false

-- The states in which the safety door has no effect.
abbrev pub ignores_door : SysState → Bool
ignores_door alarm = true
ignores_door estop = true
ignores_door sleep = true
ignores_door check_mode = true
ignores_door _ = false

module _ {F : Type 0} (ops : Coords F) (w : World F) where
  -- A sleeping machine that is not being parked goes to sleep at once.
  unfoldable pub sleep_unless_parking : Core F → Core F
  sleep_unless_parking m =
      if same_state m.sys_state sleep && not (is_waypoint m.handler) then enter_sleep m else m

  -- What follows `initiate_hold`: a machine at rest is taken to have reached the end of the hold,
  -- but for a jog, whose state is kept.
  unfoldable pub enter_parked : SysState → Bool → Core F → Core F
  enter_parked new moving m =
      if moving
      then record m { sys_state = new }
      else (if same_state m.pending_state new
          then m
          else hold_complete_step ops w (record m { sys_state = new }))

  -- The part of `state_set` that sleep and the safety door share.
  unfoldable pub set_parked : SysState → Core F → Core F
  set_parked new m =
      let (moving, m1) =
        initiate_hold ops w new (record m { parking_state = parking_retracting }) in
      sleep_unless_parking (enter_parked new moving m1)

  unfoldable pub set_door : Core F → Bool × Core F
  set_door m =
      if ignores_door m.sys_state
      then (true, m)
      else (false, set_parked safety_door (emit door_message m))

  -- The `switch` of `state_set`.
  unfoldable pub set_branch : SysState → Core F → Bool × Core F
  set_branch idle m = set_idle m
  set_branch cycle m = set_cycle w m
  set_branch jog m = set_jog m
  set_branch tool_change m = set_tool_change m
  set_branch hold m = set_hold ops w m
  set_branch safety_door m = set_door m
  set_branch sleep m = (false, set_parked sleep m)
  set_branch alarm m = set_locked alarm m
  set_branch estop m = set_locked estop m
  set_branch homing m = set_locked homing m
  set_branch check_mode m = set_locked check_mode m

  unfoldable pub state_set : SysState → Core F → Core F
  state_set new m = change new (set_branch new) m

  unfoldable pub state_idle : RtExec → Core F → Core F
  state_idle rt m =
      let m1 = if rt.cycle_start then state_set cycle m else m in
      let m2 = if rt.feed_hold then state_set hold m1 else m1 in
      let m3 = if rt.tool_change then state_set tool_change (emit (suspend_read true) m2) else m2 in
      if rt.sleep then state_set sleep m3 else m3

  -- The end of a cycle, and a motion cancel.
  unfoldable pub end_cycle : RtExec → Core F → Core F
  end_cycle rt m =
      let next = if w.tool_change_pending then tool_change else idle in
      if rt.cycle_complete then state_set next m else m

  unfoldable pub cancel_motion : RtExec → Core F → Core F
  cancel_motion rt m =
      if rt.motion_cancel
      then record (emit (update_block_parameters true) m) {
        suspend = true;
        step = record (m.step) { execute_hold = true };
        handler = await_motion_cancel;
      }
      else m

  -- A cycle start alone needs no other tests.
  unfoldable pub state_cycle : RtExec → Core F → Core F
  state_cycle rt m =
      let m1 = if rt.tool_change then emit (suspend_read true) m else m in
      let m2 = cancel_motion rt (end_cycle rt m1) in
      if rt.cycle_start && not (other_request rt)
      then m
      else (if rt.feed_hold then state_set hold m2 else m2)

  -- The end of a tool change, if it is not requested again.
  unfoldable pub end_tool_change : Core F → Core F
  end_tool_change m =
      let m1 = if w.has_suspend_read then emit (suspend_read false) m else m in
      let m2 = if w.tool_change_pending then m else emit report_tool (emit tool_changed m1) in
      record m2 { pending_state = if w.tool_change_pending then tool_change else idle }

  unfoldable pub state_await_toolchanged : RtExec → Core F → Core F
  state_await_toolchanged rt m =
      let m1 = state_set cycle (state_set idle (end_tool_change m)) in
      if rt.cycle_start then record m1 { rt = record (m1.rt) { status_report = true } } else m

  -- What a cancelled jog leaves.
  unfoldable pub clear_jog : Core F → Core F
  clear_jog m =
      if same_state m.sys_state jog
      then record (emit sync_position (emit st_reset (emit plan_reset m))) {
        step = no_control;
        suspend = false;
      }
      else m

  -- The pending alarm is raised, or a tool change goes on.
  unfoldable pub after_cancel : Core F → Core F
  after_cancel m =
      if m.alarm_pending == alarm_none
      then (if w.tool_change_pending then state_set tool_change m else m)
      else record m { exec_alarm = m.alarm_pending; alarm_pending = alarm_none }

  unfoldable pub state_await_motion_cancel : RtExec → Core F → Core F
  state_await_motion_cancel rt m =
      if rt.cycle_complete then after_cancel (state_set m.pending_state (clear_jog m)) else m
