-- ===== src/StateMachine/Door.antt =====
-- The safety door: what opening it stops, and when the machine may go on.
use cnc_3d.Common.{
  Bool, true, false, not, ◌&&◌, ◌≡◌, refl, ap, ◌∙◌, arith, if◌then◌else◌, List, [], ◌∷◌, ◌++◌,
}
use cnc_3d.System.{SysState, safety_door}
use cnc_3d.StateMachine.Types.{
  await_hold, await_resume, hold_complete, no_control, Effect, spindle_all_off, coolant_set_state,
  plan_cycle_reinitialize, RtExec, Core, Coords, World,
}
use cnc_3d.StateMachine.Parking.{
  no_stop, end_sys_motion, resume_complete, deenergize, retract, hold_reached, stop_motion,
  end_hold, hold_complete_step, state_await_hold, door_parking_state,
}
use cnc_3d.StateMachine.Resume.{
  resume_door, resume_in, mark_restore_cycle, after_resume, resume, answer, state_await_resume,
}
use cnc_3d.StateMachine.Update.{handle, state_update}
use cnc_3d.StateMachine.Coherent.Park.{SameWait}

module _ {F : Type 0} (ops : Coords F) (w : World F) where
  -- Parking motions are neither enabled nor allowed by the program, or the machine is a laser.
  abbrev pub may_park : Core F → Bool
  may_park m = w.parking_enabled && not m.parking_disable && not w.laser_mode

  retract_without_parking :
      (m : Core F)
      → may_park m ≡ false
      → retract ops w m ≡ (false, deenergize ops w (record m { spindle_stop = no_stop }))
  unfolding retract
  retract_without_parking m h = ground arith

  -- Only the log, the step control and the alarms differ.
  pub stop_motion_lem :
      (m : Core F)
      → let m1 = stop_motion ops w m in
        SameWait m1 m
        × (m1.log ≡ plan_cycle_reinitialize ∷ m.log)
        × (m1.step ≡ no_control)
        × (m1.soft_limit ≡ m.soft_limit)
        × (m1.parking_disable ≡ m.parking_disable)
  unfolding stop_motion
  stop_motion_lem m = ground arith

  -- What is known of the state after the outputs are off.
  record IsOff (m m' : Core F) : Type 0 where
    state_kept : m'.sys_state ≡ m.sys_state
    limit_kept : m'.soft_limit ≡ m.soft_limit
    step_kept : m'.step ≡ m.step
    door_shown : m'.parking_state ≡ door_parking_state w
    outputs_off :
        m'.log
        ≡ (if w.keep_coolant_on then [] else coolant_set_state 0 ∷ []) ++ (spindle_all_off ∷ m.log)

  deenergize-IsOff :
      (m : Core F)
      → m.sys_state ≡ safety_door
      → IsOff m (deenergize ops w (record m { spindle_stop = no_stop }))
  unfolding deenergize
  deenergize-IsOff m s = ground arith

  hold_reached_door :
      (s : SysState) (m : Core F) → s ≡ safety_door → hold_reached ops w s m ≡ retract ops w m
  unfolding hold_reached
  hold_reached_door s m e = rw e refl

  hold_reached-IsOff :
      (m : Core F)
      → m.sys_state ≡ safety_door
      → may_park m ≡ false
      → ((hold_reached ops w m.sys_state m).0 ≡ false)
        × IsOff m (hold_reached ops w m.sys_state m).1
  hold_reached-IsOff m s p =
      rw (hold_reached_door m.sys_state m s ∙ retract_without_parking m p)
        (refl, deenergize-IsOff m s)

  -- The end of a hold that no parking motion follows.
  pub off_lem :
      (changed : Bool) (m : Core F)
      → changed ≡ false
      → m.soft_limit ≡ false
      → end_hold ops w changed m
        ≡ record m { holding_state = hold_complete; handler = await_resume }
  unfolding end_hold
  off_lem changed m c l = ground arith

  door_complete :
      (m : Core F)
      → m.sys_state ≡ safety_door
      → may_park m ≡ false
      → m.soft_limit ≡ false
      → let m' = hold_complete_step ops w m in
        (m'.sys_state ≡ safety_door)
        × (m'.handler ≡ await_resume)
        × (m'.holding_state ≡ hold_complete)
        × (m'.parking_state ≡ door_parking_state w)
        × (m'.step ≡ no_control)
        × (m'.log
            ≡ (if w.keep_coolant_on then [] else coolant_set_state 0 ∷ [])
              ++ (spindle_all_off ∷ (plan_cycle_reinitialize ∷ m.log)))
  unfolding hold_complete_step
  door_complete m s p l =
      let m1 = stop_motion ops w m in
      let (changed, m2) = hold_reached ops w m1.sys_state m1 in
      let ((h, k), g, st, li, pd) = stop_motion_lem m in
      let (c, o) =
        hold_reached-IsOff m1 (k ∙ s)
          (ap (λ d. w.parking_enabled && not d && not w.laser_mode) pd ∙ p) in
      let f = off_lem changed m2 c (o.limit_kept ∙ li ∙ l) in
      (
        ap (λ (q : Core F). q.sys_state) f ∙ o.state_kept ∙ k ∙ s,
        ap (λ (q : Core F). q.handler) f,
        ap (λ (q : Core F). q.holding_state) f,
        ap (λ (q : Core F). q.parking_state) f ∙ o.door_shown,
        ap (λ (q : Core F). q.step) f ∙ o.step_kept ∙ st,
        ap (λ (q : Core F). q.log) f
            ∙ o.outputs_off
            ∙ ap
                (λ l.
                  (if w.keep_coolant_on then [] else coolant_set_state 0 ∷ [])
                  ++ (spindle_all_off ∷ l))
                g,
      )

  -- When the hold that the open door began is complete, and parking is not possible (`may_park` is
  -- false) and no soft limit has begun the hold, spindle and coolant are switched off, in this order and the coolant only if it is not kept on; then the
  -- machine waits, with the substate of the door, and stays in the safety door state.
  pub door_deenergizes :
      (rt : RtExec) (m : Core F)
      → m.sys_state ≡ safety_door
      → m.handler ≡ await_hold
      → rt.cycle_complete ≡ true
      → may_park m ≡ false
      → m.soft_limit ≡ false
      → let m' = state_update ops w rt m in
        (m'.sys_state ≡ safety_door)
        × (m'.handler ≡ await_resume)
        × (m'.holding_state ≡ hold_complete)
        × (m'.parking_state ≡ door_parking_state w)
        × (m'.step ≡ no_control)
        × (m'.log
            ≡ (if w.keep_coolant_on then [] else coolant_set_state 0 ∷ [])
              ++ (spindle_all_off ∷ (plan_cycle_reinitialize ∷ m.log)))
  unfolding state_update handle state_await_hold
  door_deenergizes rt m s h c p l = rw h (ground (arith, door_complete m s p l))

  resume_door_ajar :
      (m : Core F) → m.park.restart ≡ false → w.door_ajar ≡ true → resume_door ops w m ≡ m
  unfolding resume_door
  resume_door_ajar m p a = ground arith

  -- The log after the end of a parking motion.
  abbrev pub parked_log : RtExec → Core F → List (Effect F)
  parked_log rt m = if rt.cycle_complete && w.parking_enabled then (end_sys_motion m).log else m.log

  end_sys_motion-kept :
      (m : Core F)
      → let m' = end_sys_motion m in
        SameWait m' m × (m'.park ≡ m.park) × (m'.spindle_stop ≡ m.spindle_stop)
  unfolding end_sys_motion
  end_sys_motion-kept m = ground arith

  -- While the door is ajar and no restart is underway, a machine that waits in the safety door state
  -- cannot be made to move or to switch anything on: whatever else is requested, but for sleep, it
  -- stays in that state and calls nothing, except that a finished parking motion is cleared up.
  pub ajar_stays :
      (rt : RtExec) (m : Core F)
      → m.sys_state ≡ safety_door
      → m.handler ≡ await_resume
      → m.park.restart ≡ false
      → w.door_ajar ≡ true
      → rt.sleep ≡ false
      → let m' = state_update ops w rt m in
        (m'.sys_state ≡ safety_door) × (m'.handler ≡ await_resume) × (m'.log ≡ parked_log rt m)
  unfolding state_update handle state_await_resume resume_complete answer resume resume_in
      after_resume mark_restore_cycle
  ajar_stays rt m s h p a n =
      let m1 = record (end_sys_motion m) { parking_state = door_parking_state w } in
      ground (
        arith,
        end_sys_motion-kept m,
        resume_door_ajar m p a,
        resume_door_ajar m1 (ground (arith, end_sys_motion-kept m)) a,
      )
