-- ===== src/StateMachine/Coherent.antt =====
-- Handler and state belong together: just a locked or sleeping machine waits for nothing. Here for
-- the states that start no hold.
pub mod Park
pub mod Set
pub mod Handlers
pub mod Resumes
pub mod Reached
use cnc_3d.Common.{
  Bool, true, false, not, ◌&&◌, ◌||◌, ℕ, ◌≡◌, ◌≢◌, ◌==◌, refl, arith, if◌then◌else◌, Option, List,
  some, none,
}
use cnc_3d.System.{
  SysState, idle, alarm, check_mode, homing, cycle, hold, jog, safety_door, sleep, estop,
  tool_change, same_state,
}
use cnc_3d.StateMachine.Types.{
  Handler, noop, await_resume, await_waypoint_retract, RtExec, Core, Coords, World, Block,
  alarm_e_stop, alarm_spindle, is_critical, reset_data, st_prep_buffer,
}
use cnc_3d.StateMachine.Simple.{
  emit, change, finish, set_idle, set_locked, set_jog, set_tool_change, set_cycle, state_set_idle,
  state_set_locked, system_raise_alarm, synchronize, start_block, start_queued, after_pulse, Pulse,
  await_pulse,
}

-- Alarm, emergency stop, check mode and homing.
abbrev pub is_locked : SysState → Bool
is_locked alarm = true
is_locked estop = true
is_locked check_mode = true
is_locked homing = true
is_locked _ = false

abbrev pub is_noop : Handler → Bool
is_noop noop = true
is_noop _ = false

abbrev pub fits_state : Handler → SysState → Bool
fits_state noop s = is_locked s || same_state s sleep
fits_state _ s = not (is_locked s)

abbrev pub IsCoherent : {F : Type 0} → Core F → Type 0
IsCoherent m = fits_state m.handler m.sys_state ≡ true

module _ {F : Type 0} where
  pub finish-state :
      (org : SysState) (m : Core F)
      → ((finish org m).handler ≡ m.handler) × ((finish org m).sys_state ≡ m.sys_state)
  unfolding finish
  finish-state org m = ground arith

  pub change-IsCoherent :
      (new : SysState) (branch : Core F → Bool × Core F) (m : Core F)
      → IsCoherent m
      → IsCoherent (branch m).1
      → IsCoherent (change new branch m)
  change-IsCoherent new branch m v w = ground (arith, finish-state m.sys_state (branch m).1)

  pub state_set_idle-IsCoherent : (m : Core F) → IsCoherent m → IsCoherent (state_set_idle m)
  unfolding state_set_idle set_idle
  state_set_idle-IsCoherent m v = change-IsCoherent idle set_idle m v (ground arith)

  -- From any other state the old handler does not matter.
  pub state_set_idle_awake :
      (m : Core F)
      → (same_state idle m.sys_state ≡ true → IsCoherent m)
      → IsCoherent (state_set_idle m)
  unfolding state_set_idle set_idle
  state_set_idle_awake m v = ground (arith, finish-state m.sys_state (set_idle m).1)

  pub state_set_idle-unlocked :
      (m : Core F) → is_locked m.sys_state ≡ false → is_locked (state_set_idle m).sys_state ≡ false
  unfolding state_set_idle set_idle
  state_set_idle-unlocked m v = ground (arith, finish-state m.sys_state (set_idle m).1)

  -- One of two states that fit.
  pub if-IsCoherent :
      (b : Bool) (x y : Core F) → IsCoherent x → IsCoherent y → IsCoherent (if b then x else y)
  if-IsCoherent true x y p q = p
  if-IsCoherent false x y p q = q

  pub state_set_locked-IsCoherent :
      (new : SysState) (m : Core F)
      → is_locked new ≡ true
      → IsCoherent m
      → IsCoherent (state_set_locked new m)
  unfolding state_set_locked set_locked
  state_set_locked-IsCoherent new m l v = change-IsCoherent new (set_locked new) m v (ground arith)

module _ {F : Type 0} (w : World F) where
  pub raise_alarm-IsCoherent :
      (code : ℕ) (m : Core F) → IsCoherent m → IsCoherent (system_raise_alarm w code m)
  unfolding system_raise_alarm
  raise_alarm-IsCoherent code m v =
      let new = if code == alarm_e_stop then estop else alarm in
      let m1 = record m { alarm = code; blocking_event = is_critical code } in
      let l : is_locked new ≡ true = ground arith in
      ground (arith, state_set_locked-IsCoherent new m1 l v)

  after_pulse-IsCoherent :
      (p : Pulse) (failed m : Core F)
      → IsCoherent failed
      → IsCoherent m
      → IsCoherent (after_pulse p failed m).1
  unfolding after_pulse
  after_pulse-IsCoherent p failed m a b = ground arith

  synchronize-IsCoherent :
      (b : Block F) (m : Core F) → IsCoherent m → IsCoherent (synchronize w b m).1
  unfolding synchronize
  synchronize-IsCoherent b m v =
      let m1 = if b.has_reset_data then emit reset_data m else m in
      let v1 : IsCoherent m1 = ground arith in
      let failed = raise_alarm-IsCoherent alarm_spindle m1 v1 in
      ground (
        arith,
        failed,
        after_pulse-IsCoherent (await_pulse w.pulses) (system_raise_alarm w alarm_spindle m1) m1
            failed v1,
      )

  -- A cycle that goes on is still the same.
  synchronize-state :
      (b : Block F) (m : Core F)
      → (synchronize w b m).0 ≡ false
      → (synchronize w b m).1.sys_state ≡ m.sys_state
  unfolding synchronize after_pulse
  synchronize-state b m h = ground arith

  start_block-IsCoherent :
      (b : Block F) (m : Core F) → is_noop m.handler ≡ false → IsCoherent (start_block w b m).1
  unfolding start_block
  start_block-IsCoherent b m h =
      let m1 = emit st_prep_buffer (record m { sys_state = cycle; steppers_deenergize = false }) in
      let v1 : IsCoherent m1 = ground arith in
      ground (arith, synchronize-IsCoherent b m1 v1, synchronize-state b m1)

  start_queued-IsCoherent :
      (b : Option (Block F)) (m : Core F)
      → is_noop m.handler ≡ false
      → IsCoherent m
      → IsCoherent (start_queued w b m).1
  unfolding start_queued
  start_queued-IsCoherent none m h v = v
  start_queued-IsCoherent (some b) m h v = start_block-IsCoherent b m h

  idle_waits :
      (m : Core F) → IsCoherent m → same_state m.sys_state idle ≡ true → is_noop m.handler ≡ false
  idle_waits m v h = ground arith

  pub set_cycle-IsCoherent : (m : Core F) → IsCoherent m → IsCoherent (set_cycle w m).1
  unfolding set_cycle
  set_cycle-IsCoherent m v = ground (arith, idle_waits m v, start_queued-IsCoherent w.block m)
