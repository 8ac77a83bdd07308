-- ===== src/StateMachine/Parking.antt =====
-- state_machine.c: the handlers that park the tool and switch the outputs off.
use cnc_3d.Common.{Bool, true, false, not, ◌&&◌, ◌||◌, ℕ, ◌==◌, if◌then◌else◌}
use cnc_3d.System.{SysState, safety_door, sleep, tool_change, same_state, SpindleStop}
use cnc_3d.StateMachine.Types.{
  noop, await_resume, await_waypoint_retract, parking_door_closed, parking_door_ajar, hold_complete,
  alarm_none, RtExec, no_control, st_go_idle, spindle_all_off, coolant_set_state, sleep_message,
  parking_restore_buffer, plan_cycle_reinitialize, st_wake_up, st_prep_buffer, parking_setup_buffer,
  spindle_set_state, parking_motion, Core, Coords, World,
}
use cnc_3d.StateMachine.Simple.{emit, state_set_idle}
use cnc_3d.StateMachine.Hold.{restore_spindle}

abbrev pub no_stop : SpindleStop
no_stop = record { enabled = false; initiate = false; restore = false; restore_cycle = false }

module _ {F : Type 0} where
  -- De-energize and wait for nothing.
  unfoldable pub enter_sleep : Core F → Core F
  enter_sleep m =
      record (emit sleep_message
        (emit (coolant_set_state 0) (emit spindle_all_off (emit st_go_idle m)))) { handler = noop }

  -- The end of a parking motion.
  unfoldable pub end_sys_motion : Core F → Core F
  end_sys_motion m =
      if m.step.execute_sys_motion
      then emit parking_restore_buffer
          (record m { step = record (m.step) { execute_sys_motion = false } })
      else m

  -- A position with another coordinate on one axis.
  abbrev pub move_axis : ℕ → F → (ℕ → F) → ℕ → F
  move_axis axis x position a = if a == axis then x else position a

module _ {F : Type 0} (w : World F) where
  abbrev pub door_parking_state : ℕ
  door_parking_state = if w.door_ajar then parking_door_ajar else parking_door_closed

  -- `mc_parking_motion` of motion_control.c, with whether the planner accepts the line.
  unfoldable pub mc_parking_motion : (ℕ → F) → Core F → Bool × Core F
  mc_parking_motion target m =
      let m1 = emit (parking_motion target m.park.plan) m in
      if not w.aborted && w.line_accepted target
      then (
        true,
        record (emit st_wake_up (emit st_prep_buffer (emit parking_setup_buffer m1))) {
          step = record (m.step) { execute_sys_motion = true; end_motion = false };
        },
      )
      else (false, m)

  -- `state_await_resume` at the end of a motion; `true` stands for its return.
  unfoldable pub resume_complete : Core F → Bool × Core F
  resume_complete m =
      let m1 = record (end_sys_motion m) { parking_state = door_parking_state } in
      if w.parking_enabled
      then (if same_state m.sys_state sleep then (true, enter_sleep m1) else (false, m1))
      else (false, m)

  -- The fast retract to the parking position.
  unfoldable pub fast_retract : Coords F → Core F → Bool × Core F
  fast_retract ops m =
      if m.park.motion && ops.lt (m.park.target w.parking_axis) w.parking_target
      then mc_parking_motion (move_axis w.parking_axis w.parking_target m.park.target) (record m {
        park = record (m.park) { plan = record (m.park.plan) { feed_rate = w.parking_rate } };
      })
      else (false, m)

module _ {F : Type 0} (ops : Coords F) (w : World F) where
  -- Spindle and coolant off once the tool is out of the work.
  unfoldable pub deenergize_parked : Core F → Core F
  deenergize_parked m =
      let off = record (m.park.plan.spindle) { state = 0; rpm = ops.zero } in
      let m1 =
        emit (spindle_set_state off.hal 0)
          (record m { park = record (m.park) { plan = record (m.park.plan) { spindle = off } } }) in
      if w.keep_coolant_on
      then m1
      else emit (coolant_set_state 0)
          (record m1 { park = record (m1.park) { plan = record (m1.park.plan) { coolant = 0 } } })

  -- `state_await_waypoint_retract` at the end of a motion.
  unfoldable pub waypoint_complete : Core F → Core F
  waypoint_complete m =
      let m1 = record (deenergize_parked (end_sys_motion m)) { handler = await_resume } in
      let (moving, m2) = fast_retract w ops m1 in if moving then m2 else (resume_complete w m2).1

  unfoldable pub state_await_waypoint_retract : RtExec → Core F → Core F
  state_await_waypoint_retract rt m = if rt.cycle_complete then waypoint_complete m else m

  -- Outputs off where no parking motion is made.
  unfoldable pub deenergize : Core F → Core F
  deenergize m =
      let m1 = emit spindle_all_off m in
      let m2 =
        if not w.keep_coolant_on || same_state m.sys_state sleep
        then emit (coolant_set_state 0) m1
        else m1 in
      record m2 { parking_state = door_parking_state w }

  -- Where the parking motion starts, and where it goes: out of the work first.
  unfoldable pub aim_retract : Core F → Core F
  aim_retract m =
      if m.park.restart
      then record m { park = record (m.park) { target = w.position } }
      else (let out = ops.add w.pullout_increment (m.park.restore_target w.parking_axis) in
          record m {
            park = record (m.park) {
              target = m.park.restore_target;
              retract_waypoint = if ops.lt out w.parking_target then out else w.parking_target;
            };
          })

  -- The slow retract; its plan keeps coolant and spindle as they were.
  unfoldable pub slow_retract : Core F → Bool × Core F
  slow_retract m =
      let s = restore_spindle ops w m in
      let target = move_axis w.parking_axis m.park.retract_waypoint m.park.target in
      let m1 = record m {
        park = record (m.park) {
          target = target;
          plan = record (m.park.plan) {
            feed_rate = w.pullout_rate;
            coolant = m.condition.coolant;
            spindle = s;
          };
        };
      } in
      if ops.lt (m.park.target w.parking_axis) m.park.retract_waypoint
      then mc_parking_motion w target m1
      else (false, m)

  unfoldable pub start_retract : Core F → Core F
  start_retract m =
      let m1 = aim_retract (record m { handler = await_waypoint_retract }) in
      let (moving, m2) = slow_retract m1 in
      let m3 =
        if m1.park.restart then m2 else record m2 { park = record (m2.park) { motion = moving } } in
      if moving then m3 else waypoint_complete m3

  -- The stored position, taken once for each time the door opens.
  abbrev pub store_position : Core F → Core F
  store_position m =
      if m.park.active
      then m
      else record m { park = record (m.park) { active = true; restore_target = w.position } }

  -- The case of the sleep and safety door states: whether another handler is set, and the state.
  unfoldable pub retract : Core F → Bool × Core F
  retract m =
      let m1 = record m { spindle_stop = no_stop } in
      let m2 = store_position m1 in
      if w.parking_enabled && not m.parking_disable && not w.laser_mode
      then (if w.axis_homed && ops.lt (m2.park.restore_target w.parking_axis) w.parking_target
          then (true, start_retract m2)
          else (false, deenergize m2))
      else (false, deenergize m1)

  -- The `switch` over the state in `state_await_hold`.
  unfoldable pub hold_reached : SysState → Core F → Bool × Core F
  hold_reached tool_change m = (false, emit (coolant_set_state 0) (emit spindle_all_off m))
  hold_reached sleep m = retract m
  hold_reached safety_door m = retract m
  hold_reached _ m = (false, m)

  -- The planner starts afresh, and an alarm that has waited for the hold is raised.
  unfoldable pub stop_motion : Core F → Core F
  stop_motion m =
      let m1 = record (emit plan_cycle_reinitialize m) { step = no_control } in
      if m.alarm_pending == alarm_none
      then m1
      else record m1 { exec_alarm = m.alarm_pending; alarm_pending = alarm_none }

  unfoldable pub end_hold : Bool → Core F → Core F
  end_hold handler_changed m =
      if handler_changed
      then m
      else (if m.soft_limit
          then state_set_idle m
          else record m { holding_state = hold_complete; handler = await_resume })

  -- `state_await_hold` at the end of a motion.
  unfoldable pub hold_complete_step : Core F → Core F
  hold_complete_step m =
      let m1 = stop_motion m in
      let (handler_changed, m2) = hold_reached m1.sys_state m1 in end_hold handler_changed m2

  unfoldable pub state_await_hold : RtExec → Core F → Core F
  state_await_hold rt m = if rt.cycle_complete then hold_complete_step m else m
