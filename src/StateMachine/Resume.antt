-- ===== src/StateMachine/Resume.antt =====
-- state_machine.c: the handlers that bring the machine back from a hold or from parking.
use cnc_3d.Common.{
  Bool, true, false, not, ◌&&◌, ◌||◌, Option, none, some, ℕ, zero, suc, length, ◌%◌, ◌==◌,
  if◌then◌else◌,
}
use cnc_3d.System.{
  SysState, idle, cycle, hold, safety_door, sleep, tool_change, same_state, any_stop,
}
use cnc_3d.StateMachine.Types.{
  await_hold, restore, await_resumed, await_restart_retract, parking_door_closed,
  parking_retracting, parking_resuming, RtExec, no_control, door_message, update_block_parameters,
  parking_restore_buffer, spindle_message, none_message, gc_spindle_off, spindle_programmed,
  spindle_restore, coolant_restore, gc_coolant, null_access, Core, Coords, World, Spindle,
}
use cnc_3d.StateMachine.Simple.{emit}
use cnc_3d.StateMachine.Hold.{restore_spindle, blank, spindle_at}
use cnc_3d.StateMachine.Parking.{
  no_stop, end_sys_motion, move_axis, mc_parking_motion, resume_complete, hold_complete_step,
  door_parking_state,
}
use cnc_3d.StateMachine.Events.{state_set}

-- Bit 0 of `spindle_state_t`.
abbrev pub is_on : ℕ → Bool
is_on state = state % 2 == 1

abbrev pub differ : Bool → Bool → Bool
differ a b = if a then not b else b

module _ {F : Type 0} (ops : Coords F) (w : World F) where
  -- The call returns when its wait is over.
  unfoldable pub state_spindle_restore : Spindle F → Core F → Core F
  state_spindle_restore s m = elim s.hal [
    | none ↦ m
    | some h ↦ w.delay (emit (spindle_restore s) (emit (spindle_programmed s) m))
  ]

  -- The loop goes from spindle `n - 1` of the N_SYS_SPINDLE ones down; each is read when its turn comes.
  unfoldable pub restore_spindles : ℕ → Core F → Core F
  restore_spindles zero m = m
  restore_spindles (suc n) m =
      restore_spindles n (state_spindle_restore (spindle_at (blank ops w) n m.condition.spindles) m)

  -- `coolant_restore`, its wait, and `gc_coolant`, for which the condition is read again.
  unfoldable pub coolant_back : Core F → Core F
  coolant_back m =
      let m1 = w.delay (emit (coolant_restore m.condition.coolant) m) in
      emit (gc_coolant m1.condition.coolant) m1

  -- `state_await_restart_retract` at the end of a motion.
  unfoldable pub restart_complete : Core F → Core F
  restart_complete m = hold_complete_step ops w (record (end_sys_motion m) { handler = await_hold })

  unfoldable pub state_await_restart_retract : RtExec → Core F → Core F
  state_await_restart_retract rt m = if rt.cycle_complete then restart_complete m else m

  unfoldable pub restart_retract : Core F → Core F
  restart_retract m =
      let m1 = record (emit door_message m) {
        handler = await_restart_retract;
        park = record (m.park) { restart = true };
        parking_state = parking_retracting;
      } in
      if m.step.execute_sys_motion
      then emit (update_block_parameters false)
          (record m1 { step = record (m1.step) { execute_hold = true; execute_sys_motion = true } })
      else restart_complete m1

  -- The tool is back in the work.
  unfoldable pub leave_park : Core F → Core F
  leave_park m =
      let m1 = record m {
        parking_state = parking_door_closed;
        park = record (m.park) {
          active = false;
          motion = false;
          restart = false;
          restoring = false;
        };
      } in
      if m.step.execute_sys_motion
      then emit parking_restore_buffer (record m1 { step = no_control })
      else m1

  -- `state_await_resumed` at the end of a motion.
  unfoldable pub resumed_complete : Core F → Core F
  resumed_complete m = state_set ops w cycle (state_set ops w idle (leave_park m))

  unfoldable pub state_await_resumed : RtExec → Core F → Core F
  state_await_resumed rt m =
      if rt.safety_door
      then restart_retract m
      else (if rt.cycle_complete then resumed_complete m else m)

  unfoldable pub restore_coolant : Core F → Core F
  restore_coolant m = if w.modal_coolant == w.coolant_state then m else coolant_back m

  unfoldable pub restore_outputs : Core F → Core F
  restore_outputs m = restore_coolant (
      restore_spindles (length w.spindles)
        (record m { park = record (m.park) { restoring = true } }))

  unfoldable pub state_restore_conditions : Core F → Core F
  state_restore_conditions m =
      let m1 = restore_outputs m in
      if not w.parking_enabled || not m.park.restart
      then record m1 { park = record (m1.park) { restoring = false }; spindle_stop = no_stop }
      else m

  -- The slow plunge back into the work.
  unfoldable pub plunge : Core F → Bool × Core F
  plunge m =
      let s = restore_spindle ops w m in
      if m.park.motion
      then mc_parking_motion w m.park.restore_target (record m {
        parking_state = parking_resuming;
        park = record (m.park) {
          plan = record (m.park.plan) {
            feed_rate = w.pullout_rate;
            coolant = m.condition.coolant;
            spindle = record (m.park.plan.spindle) { state = s.state; rpm = s.rpm };
          };
        };
      })
      else (false, m)

  -- With no motion to wait for, the next step follows at once.
  unfoldable pub after_plunge : Bool → Core F → Core F
  after_plunge moving m = if moving then m else resumed_complete m

  -- What follows the restoring: the door may have been opened meanwhile.
  unfoldable pub after_restore : Core F → Core F
  after_restore m =
      let (moving, m1) = plunge m in
      if m.park.restart then restart_retract m else after_plunge moving m1

  unfoldable pub begin_restore : Core F → Core F
  begin_restore m =
      let m1 = end_sys_motion m in
      record m1 { park = record (m1.park) { restart = false }; handler = await_resumed }

  -- `state_restore` at the end of a motion.
  unfoldable pub restore_complete : Core F → Core F
  restore_complete m = after_restore (state_restore_conditions (begin_restore m))

  unfoldable pub state_restore : RtExec → Core F → Core F
  state_restore rt m =
      if rt.safety_door
      then (if m.park.restoring
          then record m { park = record (m.park) { restart = true } }
          else restart_retract m)
      else (if rt.cycle_complete then restore_complete m else m)

  -- The fast motion to the pull-out position, if the tool has been parked.
  unfoldable pub fast_plunge : Core F → Bool × Core F
  fast_plunge m =
      let target = move_axis w.parking_axis m.park.retract_waypoint m.park.restore_target in
      let m1 = record m { park = record (m.park) { restart = false } } in
      if m.park.motion
      then (if ops.le (m.park.restore_target w.parking_axis) w.parking_target
          then mc_parking_motion w target (record m1 {
            park = record (m1.park) { plan = record (m1.park.plan) { feed_rate = w.parking_rate } };
          })
          else (false, m1))
      else (false, m)

  unfoldable pub after_fast_plunge : Bool → Core F → Core F
  after_fast_plunge moving m = if moving then m else restore_complete m

  -- A cycle start in the safety door state.
  unfoldable pub resume_door : Core F → Core F
  resume_door m =
      let (moving, m1) =
        fast_plunge (record m { handler = restore; parking_state = parking_resuming }) in
      if m.park.restart || not w.door_ajar then after_fast_plunge moving m1 else m

  -- The spindle driver is read without a test for NULL.
  abbrev pub hal_is_on : Option ℕ → Bool
  hal_is_on none = false
  hal_is_on (some h) = w.spindle_is_on h

  abbrev pub read_hal : Option ℕ → Core F → Core F
  read_hal none m = emit null_access m
  read_hal (some h) m = m

  unfoldable pub restore_hold_spindle : Spindle F → Core F → Core F
  restore_hold_spindle s m =
      if differ (is_on s.state) (hal_is_on s.hal)
      then state_spindle_restore s (emit spindle_message m)
      else m

  unfoldable pub restore_hold_coolant : Core F → Core F
  restore_hold_coolant m = if m.condition.coolant == w.coolant_state then m else coolant_back m

  -- A cycle start in any other state: spindle and coolant as they were before the hold.
  unfoldable pub resume_outputs : Core F → Core F
  resume_outputs m =
      let s = restore_spindle ops w m in
      let m1 = read_hal s.hal m in
      let m2 = restore_hold_coolant (restore_hold_spindle s m1) in
      if w.restore_after_feed_hold
      then emit none_message (record m2 { spindle_stop = no_stop })
      else record (if hal_is_on s.hal then m1 else emit gc_spindle_off m1) {
        spindle_stop = no_stop;
      }

  unfoldable pub resume_in : SysState → Core F → Core F
  resume_in tool_change m = m
  resume_in sleep m = m
  resume_in safety_door m = resume_door m
  resume_in _ m = resume_outputs m

  abbrev pub is_sleep_or_door : SysState → Bool
  is_sleep_or_door sleep = true
  is_sleep_or_door safety_door = true
  is_sleep_or_door _ = false

  -- `state_set(STATE_IDLE)` that keeps the step control, and the cycle again.
  unfoldable pub restart_cycle : Core F → Core F
  restart_cycle m =
      let m1 = record (state_set ops w idle m) { step = m.step } in state_set ops w cycle m1

  -- A hold that has not stopped the spindle lets it be restored with the cycle.
  unfoldable pub mark_restore_cycle : Core F → Core F
  mark_restore_cycle m =
      if same_state m.sys_state hold && not (any_stop m.spindle_stop)
      then record m { spindle_stop = record (m.spindle_stop) { restore_cycle = true } }
      else m

  unfoldable pub after_resume : Core F → Core F
  after_resume m = if is_sleep_or_door m.sys_state then m else restart_cycle m

  unfoldable pub resume : Core F → Core F
  resume m = let m1 = mark_restore_cycle m in after_resume (resume_in m1.sys_state m1)

  -- The requests that a resting machine answers, the door first.
  unfoldable pub answer : RtExec → Core F → Core F
  answer rt m =
      if rt.safety_door
      then record m { parking_state = door_parking_state w }
      else (if rt.cycle_start
          then resume m
          else (if rt.door_closed && not w.door_ajar
              then record m { parking_state = parking_door_closed }
              else m))

  unfoldable pub state_await_resume : RtExec → Core F → Core F
  state_await_resume rt m =
      let (returned, m1) = resume_complete w m in
      let m2 = if rt.cycle_complete then m1 else m in
      let m3 = if rt.sleep then state_set ops w sleep m2 else m2 in
      if rt.cycle_complete && returned then m1 else answer rt m3
