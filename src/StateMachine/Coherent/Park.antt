-- ===== src/StateMachine/Coherent/Park.antt =====
-- Parking keeps handler and state together.
use cnc_3d.Common.{Bool, true, false, ℕ, ◌≡◌, ap, ◌∙◌, arith, if◌then◌else◌}
use cnc_3d.System.{SysState, idle, same_state}
use cnc_3d.StateMachine.Types.{await_resume, await_waypoint_retract, Core, Coords, World}
use cnc_3d.StateMachine.Parking.{
  enter_sleep, end_sys_motion, mc_parking_motion, resume_complete, fast_retract, deenergize_parked,
  waypoint_complete, deenergize, aim_retract, slow_retract, start_retract, retract, hold_reached,
  no_stop, store_position, hold_complete_step, stop_motion, end_hold,
}
use cnc_3d.StateMachine.Coherent.{
  is_locked, IsCoherent, state_set_idle_awake, state_set_idle-unlocked,
}

-- The same handler and state as before.
abbrev pub SameWait : {F : Type 0} → Core F → Core F → Type 0
SameWait m' m = (m'.handler ≡ m.handler) × (m'.sys_state ≡ m.sys_state)

module _ {F : Type 0} (w : World F) where
  pub end_sys_motion-same : (m : Core F) → SameWait (end_sys_motion m) m
  unfolding end_sys_motion
  end_sys_motion-same m = ground arith

  pub parking_motion-same :
      (target : ℕ → F) (m : Core F) → SameWait (mc_parking_motion w target m).1 m
  unfolding mc_parking_motion
  parking_motion-same target m = ground arith

  -- The end of a motion puts a machine to sleep, or leaves handler and state.
  pub resume_complete-IsCoherent :
      (m : Core F)
      → IsCoherent m
      → IsCoherent (resume_complete w m).1 × ((resume_complete w m).1.sys_state ≡ m.sys_state)
  unfolding resume_complete enter_sleep
  resume_complete-IsCoherent m v = ground (arith, end_sys_motion-same m)

module _ {F : Type 0} (ops : Coords F) (w : World F) where
  fast_retract-same : (m : Core F) → SameWait (fast_retract w ops m).1 m
  unfolding fast_retract mc_parking_motion
  fast_retract-same m = ground arith

  deenergize_parked-same : (m : Core F) → SameWait (deenergize_parked ops w m) m
  unfolding deenergize_parked
  deenergize_parked-same m = ground arith

  pub waypoint_complete-IsCoherent :
      (m : Core F)
      → is_locked m.sys_state ≡ false
      → IsCoherent (waypoint_complete ops w m)
        × ((waypoint_complete ops w m).sys_state ≡ m.sys_state)
  unfolding waypoint_complete
  waypoint_complete-IsCoherent m l =
      let m0 = end_sys_motion m in
      let m1 = record (deenergize_parked ops w m0) { handler = await_resume } in
      let r = fast_retract w ops m1 in
      let v1 : IsCoherent m1 = ground (arith, end_sys_motion-same w m, deenergize_parked-same m0) in
      ground (
        arith,
        end_sys_motion-same w m,
        deenergize_parked-same m0,
        fast_retract-same m1,
        resume_complete-IsCoherent w r.1,
      )

  deenergize-same : (m : Core F) → SameWait (deenergize ops w m) m
  unfolding deenergize
  deenergize-same m = ground arith

  slow_retract-same : (m : Core F) → SameWait (slow_retract ops w m).1 m
  unfolding slow_retract mc_parking_motion
  slow_retract-same m = ground arith

  aim_retract-same : (m : Core F) → SameWait (aim_retract ops w m) m
  unfolding aim_retract
  aim_retract-same m = ground arith

  start_retract-IsCoherent :
      (m : Core F)
      → is_locked m.sys_state ≡ false
      → IsCoherent (start_retract ops w m) × ((start_retract ops w m).sys_state ≡ m.sys_state)
  unfolding start_retract
  start_retract-IsCoherent m l =
      let m0 = record m { handler = await_waypoint_retract } in
      let m1 = aim_retract ops w m0 in
      let r = slow_retract ops w m1 in
      let m3 =
        if m1.park.restart
        then r.1
        else record (r.1) { park = record (r.1.park) { motion = r.0 } } in
      ground (arith, aim_retract-same m0, slow_retract-same m1, waypoint_complete-IsCoherent m3)

  retract-IsCoherent :
      (m : Core F)
      → is_locked m.sys_state ≡ false
      → let (changed, m') = retract ops w m in
        (m'.sys_state ≡ m.sys_state)
        × (changed ≡ true → IsCoherent m')
        × (changed ≡ false → m'.handler ≡ m.handler)
  unfolding retract
  retract-IsCoherent m l =
      let m1 = record m { spindle_stop = no_stop } in
      let m2 = store_position ops w m1 in
      ground (arith, deenergize-same m1, deenergize-same m2, start_retract-IsCoherent m2)

  -- At the end of a hold the handler is changed by a retract only.
  hold_reached-IsCoherent :
      (s : SysState) (m : Core F)
      → is_locked m.sys_state ≡ false
      → let (changed, m') = hold_reached ops w s m in
        (m'.sys_state ≡ m.sys_state)
        × (changed ≡ true → IsCoherent m')
        × (changed ≡ false → m'.handler ≡ m.handler)
  unfolding hold_reached
  hold_reached-IsCoherent s m l = ground (arith, retract-IsCoherent m l)

  stop_motion-same : (m : Core F) → SameWait (stop_motion ops w m) m
  unfolding stop_motion
  stop_motion-same m = ground arith

  end_hold-IsCoherent :
      (changed : Bool) (m : Core F)
      → is_locked m.sys_state ≡ false
      → (changed ≡ true → IsCoherent m)
      → (same_state idle m.sys_state ≡ true → IsCoherent m)
      → IsCoherent (end_hold ops w changed m)
        × (is_locked (end_hold ops w changed m).sys_state ≡ false)
  unfolding end_hold
  end_hold-IsCoherent changed m l c v =
      ground (arith, state_set_idle_awake m v, state_set_idle-unlocked m l)

  -- The end of a hold leaves the state, or goes to idle.
  hold_complete_step_lem :
      (m : Core F)
      → is_locked m.sys_state ≡ false
      → (same_state idle m.sys_state ≡ true → IsCoherent m)
      → IsCoherent (hold_complete_step ops w m)
        × (is_locked (hold_complete_step ops w m).sys_state ≡ false)
  unfolding hold_complete_step
  hold_complete_step_lem m l v =
      let m1 = stop_motion ops w m in
      let (changed, m2) = hold_reached ops w m1.sys_state m1 in
      let e = stop_motion-same m in
      let l1 : is_locked m1.sys_state ≡ false = ap is_locked e.1 ∙ l in
      let (h, c, k) = hold_reached-IsCoherent m1.sys_state m1 l1 in
      end_hold-IsCoherent changed m2 (ap is_locked h ∙ l1) c (ground (arith, c, k, e, h))

  pub hold_complete_step-IsCoherent :
      (m : Core F)
      → is_locked m.sys_state ≡ false
      → (same_state idle m.sys_state ≡ true → IsCoherent m)
      → IsCoherent (hold_complete_step ops w m)
  hold_complete_step-IsCoherent m l v = (hold_complete_step_lem m l v).0

  pub hold_complete_step-unlocked :
      (m : Core F)
      → is_locked m.sys_state ≡ false
      → (same_state idle m.sys_state ≡ true → IsCoherent m)
      → is_locked (hold_complete_step ops w m).sys_state ≡ false
  hold_complete_step-unlocked m l v = (hold_complete_step_lem m l v).1
