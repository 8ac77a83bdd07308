-- ===== src/StateMachine/Simple.antt =====
-- state_machine.c: `state_set` for the states that start no hold, and `system_raise_alarm` of system.c.
use cnc_3d.Common.{
  Bool, true, false, not, ◌&&◌, ◌||◌, Option, none, some, List, [], ◌∷◌, ℕ, ◌==◌, if◌then◌else◌,
}
use cnc_3d.System.{SysState, idle, alarm, homing, cycle, hold, jog, estop, tool_change, same_state}
use cnc_3d.StateMachine.Types.{
  on_idle, on_cycle, noop, await_toolchanged, parking_door_closed, hold_not_holding, alarm_none,
  alarm_spindle, alarm_e_stop, is_critical, no_control, Effect, st_prep_buffer, st_wake_up,
  reset_data, state_changed, alarm_message, Core, Block, PulseRound, World,
}

abbrev pub is_alarm_or_estop : SysState → Bool
is_alarm_or_estop alarm = true
is_alarm_or_estop estop = true
is_alarm_or_estop _ = false

-- How the wait for the index pulse ends; `waiting` if the rounds given do not end it.
pub data Pulse : Type 0 where
  reached timed_out stopped waiting : Pulse

unfoldable pub await_pulse : List PulseRound → Pulse
await_pulse [] = waiting
await_pulse (r ∷ rounds) =
    let later = await_pulse rounds in
    if r.index_reached
    then reached
    else (if r.timed_out then timed_out else (if r.stop_requested then stopped else later))

module _ {F : Type 0} where
  abbrev pub emit : Effect F → Core F → Core F
  emit e m = record m { log = e ∷ m.log }

  -- The end of `state_set`; `org` is the state before.
  unfoldable pub finish : SysState → Core F → Core F
  finish org m =
      let m1 = record m {
        is_homing = same_state m.sys_state homing;
        alarm = if is_alarm_or_estop m.sys_state then m.alarm else alarm_none;
      } in
      if same_state m.sys_state org then m1 else emit (state_changed m.sys_state) m1

  -- `state_set` around one case of its `switch`; `true` beside the state stands for a return.
  abbrev pub change : SysState → (Core F → Bool × Core F) → Core F → Core F
  change new branch m =
      let (returned, m1) = branch m in
      if same_state new m.sys_state then m else (if returned then m1 else finish m.sys_state m1)

  unfoldable pub set_idle : Core F → Bool × Core F
  set_idle m =
      let m1 = record m {
        suspend = false;
        step = no_control;
        parking_state = parking_door_closed;
        holding_state = hold_not_holding;
        sys_state = idle;
        pending_state = idle;
        park = record (m.park) {
          active = false;
          motion = false;
          restart = false;
          restoring = false;
        };
        handler = on_idle;
      } in
      if m1.feed_hold_pending
      then (false, record m1 { pending_state = hold; rt = record (m1.rt) { feed_hold = true } })
      else (false, m1)

  -- Alarm, emergency stop, homing and check mode.
  unfoldable pub set_locked : SysState → Core F → Bool × Core F
  set_locked new m = (false, record m { sys_state = new; suspend = false; handler = noop })

  unfoldable pub set_jog : Core F → Bool × Core F
  set_jog m = (
    false,
    record m {
      pending_state = if same_state m.sys_state tool_change then tool_change else m.pending_state;
      sys_state = jog;
      handler = on_cycle;
    },
  )

  unfoldable pub set_tool_change : Core F → Bool × Core F
  set_tool_change m = (false, record m { sys_state = tool_change; handler = await_toolchanged })

  -- `state_set(STATE_IDLE)`, and `state_set(new)` for a locked state.
  unfoldable pub state_set_idle : Core F → Core F
  state_set_idle m = change idle set_idle m

  unfoldable pub state_set_locked : SysState → Core F → Core F
  state_set_locked new m = change new (set_locked new) m

module _ {F : Type 0} where
  -- `failed` is the state with the alarm raised.
  unfoldable pub after_pulse : Pulse → Core F → Core F → Bool × Core F
  after_pulse reached failed m = (false, m)
  after_pulse timed_out failed m = (true, failed)
  after_pulse stopped failed m = (true, record m { rt = record (m.rt) { reset = true } })
  after_pulse waiting failed m = (true, m)

module _ {F : Type 0} (w : World F) where
  -- Homing only takes note of an alarm, unless a reset is underway.
  unfoldable pub system_raise_alarm : ℕ → Core F → Core F
  system_raise_alarm code m =
      let m1 =
        state_set_locked (if code == alarm_e_stop then estop else alarm)
          (record m { alarm = code; blocking_event = is_critical code }) in
      if same_state m.sys_state homing && not m.rt.reset
      then record m { exec_alarm = code }
      else (if code == m.alarm
          then m
          else (if w.driver_started || code == 16 then emit (alarm_message code) m1 else m1))

  -- The start of a cycle whose spindle is synchronized; `true` stands for a return.
  unfoldable pub synchronize : Block F → Core F → Bool × Core F
  synchronize b m =
      let m1 = if b.has_reset_data then emit reset_data m else m in
      let failed = system_raise_alarm alarm_spindle m1 in
      if b.synchronized
      then (if b.units_per_rev
          then (if w.spindle_rpm_zero then (true, failed) else (false, m1))
          else after_pulse (await_pulse w.pulses) failed m1)
      else (false, m)

  unfoldable pub start_block : Block F → Core F → Bool × Core F
  start_block b m =
      let m1 = emit st_prep_buffer (record m { sys_state = cycle; steppers_deenergize = false }) in
      let (returned, m2) = synchronize b m1 in
      if returned then (true, m2) else (false, emit st_wake_up (record m2 { handler = on_cycle }))

  unfoldable pub start_queued : Option (Block F) → Core F → Bool × Core F
  start_queued none m = (false, m)
  start_queued (some b) m = start_block b m

  -- Only from idle, and only if a block waits.
  unfoldable pub set_cycle : Core F → Bool × Core F
  set_cycle m = if same_state m.sys_state idle then start_queued w.block m else (false, m)

  unfoldable pub state_set_cycle : Core F → Core F
  state_set_cycle m = change cycle set_cycle m
