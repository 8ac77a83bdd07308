-- ===== src/StateMachine/Examples.antt =====
-- A machine with a spindle and one block in the planner, for tests.
use cnc_3d.Common.{if◌then◌else◌, true, false, ℕ, ◌≡◌, ◌+◌, refl, [], ◌∷◌, ◌++◌, some, ltb, leb}
use cnc_3d.System.{alarm, idle, cycle, hold, jog, safety_door, check_mode}
use cnc_3d.StateMachine.Types.{
  restore, on_idle, on_cycle, await_hold, await_resume, no_control, RtExec, no_request, Spindle,
  PlanData, Park, Core, Coords, Block, World, state_changed, spindle_all_off, coolant_set_state,
  st_prep_buffer, st_wake_up, plan_cycle_reinitialize, door_message, update_block_parameters,
  hold_complete, parking_door_ajar, hold_not_holding, none_message, gc_coolant, coolant_restore,
  spindle_restore, spindle_programmed, spindle_message,
}
use cnc_3d.StateMachine.Simple.{
  state_set_locked, system_raise_alarm, finish, set_cycle, start_queued, start_block, synchronize,
  set_locked,
}
use cnc_3d.StateMachine.Hold.{
  initiate_hold, slow_down, stop_laser, restore_conditions, fill, lowest_chosen,
}
use cnc_3d.StateMachine.Parking.{
  end_sys_motion, end_hold, hold_reached, stop_motion, retract, deenergize, hold_complete_step,
  no_stop, state_await_hold,
}
use cnc_3d.StateMachine.Events.{
  state_set, set_branch, set_door, set_parked, sleep_unless_parking, enter_parked, state_idle,
}
use cnc_3d.StateMachine.Resume.{
  state_restore, restore_complete, after_restore, state_restore_conditions, restore_outputs,
  restore_spindles, state_spindle_restore, restart_retract, restart_complete, begin_restore, plunge,
  restore_coolant, coolant_back, after_plunge,
}
use cnc_3d.StateMachine.Update.{handle, state_update}
use cnc_3d.StateMachine.Coherent.{is_locked}
use cnc_3d.StateMachine.Reach.{Reach}
use cnc_3d.StateMachine.Door.{door_deenergizes, ajar_stays}
use cnc_3d.StateMachine.Resumed.{hold_resumes}
use cnc_3d.StateMachine.Jog.{laser_calls, held_driver}
use cnc_3d.StateMachine.Traps.{door_lost}

abbrev pub natural : Coords ℕ
natural = record { zero = 0; lt = ltb; le = leb; add = λ a b. a + b }

abbrev mill : Spindle ℕ
mill = record { hal = some 7; rpm = 12000; state = 1 }

abbrev rest : PlanData ℕ
rest = record {
  system_motion = false;
  no_feed_override = false;
  feed_rate = 0;
  coolant = 0;
  spindle = mill;
}

abbrev unparked : Park ℕ
unparked = record {
  active = false;
  motion = false;
  restart = false;
  restoring = false;
  target = λ i. 0;
  restore_target = λ i. 0;
  retract_waypoint = 0;
  plan = rest;
}

abbrev pub waiting : Core ℕ
waiting = record {
  handler = on_idle;
  sys_state = idle;
  pending_state = idle;
  condition = record { coolant = 0; spindle_num = 0; spindles = [] };
  park = unparked;
  suspend = false;
  step = no_control;
  parking_state = 0;
  holding_state = 0;
  steppers_deenergize = false;
  feed_hold_pending = false;
  soft_limit = false;
  is_homing = false;
  alarm = 0;
  alarm_pending = 0;
  exec_alarm = 0;
  blocking_event = false;
  spindle_stop = no_stop;
  feed_hold_disable = false;
  sync = false;
  parking_disable = false;
  rt = no_request;
  log = [];
}

-- The block that waits.
abbrev queued : Block ℕ
queued = record {
  spindle = mill;
  synchronized = false;
  coolant = 2;
  units_per_rev = false;
  has_reset_data = false;
}

-- The door is open.
abbrev pub shop : World ℕ
shop = record {
  parking_enabled = false;
  laser_mode = false;
  disable_laser_during_hold = false;
  keep_coolant_on = false;
  restore_after_feed_hold = true;
  parking_axis = 2;
  parking_target = 100;
  pullout_increment = 5;
  pullout_rate = 100;
  parking_rate = 500;
  axis_homed = true;
  position = λ i. 40;
  line_accepted = λ t. true;
  aborted = false;
  new_plan = rest;
  block = some queued;
  spindles = some mill ∷ [];
  is_laser = λ h. false;
  spindle_is_on = λ h. true;
  spindle_rpm_zero = false;
  coolant_state = 2;
  modal_coolant = 2;
  door_ajar = true;
  tool_change_pending = false;
  has_suspend_read = true;
  driver_started = true;
  pulses = [];
  delay = λ m. m;
}

abbrev start_requested : RtExec
start_requested = record no_request { cycle_start = true }

abbrev door_opened : RtExec
door_opened = record no_request { safety_door = true }

abbrev motion_ended : RtExec
motion_ended = record no_request { cycle_complete = true }

-- A cycle that is underway; then the door opens, and then the motion ends.
abbrev running : Core ℕ
running = record waiting { sys_state = cycle; handler = on_cycle }

abbrev opened : Core ℕ
opened = record running {
  sys_state = safety_door;
  handler = await_hold;
  suspend = true;
  parking_state = 2;
}

abbrev stopped : Core ℕ
stopped = record opened { handler = await_resume; parking_state = 1; holding_state = 1 }

running_test :
    (state_update natural shop start_requested waiting).log
    ≡ state_changed cycle ∷ (st_wake_up ∷ (st_prep_buffer ∷ []))
unfolding state_update handle state_idle state_set set_branch set_cycle start_queued start_block
    synchronize finish
running_test = refl

opened_test :
    (state_update natural shop door_opened running).log
    ≡ state_changed safety_door ∷ (update_block_parameters false ∷ (door_message ∷ []))
unfolding state_update handle state_set set_branch set_door set_parked sleep_unless_parking
    enter_parked initiate_hold slow_down stop_laser state_await_hold finish restore_conditions fill
    lowest_chosen
opened_test = refl

abbrev checking : Core ℕ
checking = state_set natural shop check_mode waiting

abbrev jogging : Core ℕ
jogging = record waiting { sys_state = jog; handler = on_cycle }

-- The door is opened in each wait, unless that locks the machine.
abbrev reopened : Core ℕ → Core ℕ
reopened n =
    let m = state_update natural shop door_opened n in if is_locked m.sys_state then n else m

abbrev interrupted : World ℕ
interrupted = record shop { door_ajar = false; delay = reopened }

-- The door is opened and closed, and the restoring that a cycle start begins is interrupted.
abbrev resumed_once : Core ℕ
resumed_once =
    state_update natural interrupted start_requested (state_set natural shop safety_door waiting)

door_deenergizes_example :
    let m' = state_update natural shop motion_ended opened in
    (m'.sys_state ≡ safety_door)
    × (m'.handler ≡ await_resume)
    × (m'.holding_state ≡ hold_complete)
    × (m'.parking_state ≡ parking_door_ajar)
    × (m'.step ≡ no_control)
    × (m'.log ≡ coolant_set_state 0 ∷ (spindle_all_off ∷ (plan_cycle_reinitialize ∷ [])))
door_deenergizes_example =
    door_deenergizes natural shop motion_ended opened refl refl refl refl refl

ajar_stays_example :
    let m' = state_update natural shop start_requested stopped in
    (m'.sys_state ≡ safety_door) × (m'.handler ≡ await_resume) × (m'.log ≡ [])
ajar_stays_example = ajar_stays natural shop start_requested stopped refl refl refl refl refl

door_lost_example :
    let m1 = state_update natural shop door_opened jogging in
    let m2 = state_update natural shop motion_ended m1 in
    (m1.sys_state ≡ jog)
    × (m1.handler ≡ await_hold)
    × (m1.step.execute_hold ≡ true)
    × (m1.log
        ≡ update_block_parameters false
          ∷ (laser_calls natural shop (held_driver natural shop jogging)
              ++ (door_message ∷ jogging.log)))
    × (m2.sys_state ≡ jog)
    × (m2.handler ≡ await_resume)
    × (m2.log ≡ plan_cycle_reinitialize ∷ m1.log)
unfolding state_update handle state_set set_branch set_door set_parked sleep_unless_parking
    enter_parked initiate_hold slow_down stop_laser state_await_hold finish restore_conditions fill
    lowest_chosen
door_lost_example =
    door_lost natural shop door_opened motion_ended jogging refl refl refl refl refl refl

-- The door opens again while the restored spindle speeds up, and the spindle does not reach its speed.
abbrev slow_spindle : World ℕ
slow_spindle = record shop {
  door_ajar = false;
  delay = λ m. system_raise_alarm shop 14 (restart_retract natural shop m);
}

abbrev restoring : Core ℕ
restoring = record waiting {
  sys_state = safety_door;
  handler = restore;
  condition = record { coolant = 0; spindle_num = 0; spindles = record mill { state = 1 } ∷ [] };
}

-- The alarm is left with a handler that lets a cycle start end it.
alarm_while_restoring :
    let m = state_update natural slow_spindle motion_ended restoring in
    (m.sys_state ≡ alarm) × (m.handler ≡ await_resume)
unfolding state_update handle state_restore restore_complete after_restore state_restore_conditions
    restore_outputs restore_spindles state_spindle_restore restart_retract restart_complete
    hold_complete_step system_raise_alarm begin_restore plunge restore_coolant coolant_back
    after_plunge end_sys_motion end_hold hold_reached stop_motion retract deenergize
    state_set_locked set_locked finish
alarm_while_restoring = (refl, refl)

-- In a hold that has switched coolant and spindle off.
abbrev held : Core ℕ
held = record waiting {
  sys_state = hold;
  handler = await_resume;
  holding_state = 1;
  suspend = true;
  condition = record { coolant = 3; spindle_num = 0; spindles = record mill { state = 2 } ∷ [] };
}

hold_resumes_example :
    let m' = state_update natural shop start_requested held in
    let s = record mill { state = 2 } in
    (m'.sys_state ≡ cycle)
    × (m'.handler ≡ on_cycle)
    × (m'.holding_state ≡ hold_not_holding)
    × (m'.suspend ≡ false)
    × (m'.step ≡ no_control)
    × (m'.log
        ≡ state_changed cycle
          ∷ (st_wake_up
              ∷ (st_prep_buffer
                  ∷ (state_changed idle
                      ∷ (none_message
                          ∷ (gc_coolant 3
                              ∷ (coolant_restore 3
                                  ∷ (spindle_restore s
                                      ∷ (spindle_programmed s ∷ (spindle_message ∷ []))))))))))
hold_resumes_example =
    hold_resumes natural shop queued 7 start_requested held refl refl (λ n. refl) refl refl refl
      refl refl refl refl refl
