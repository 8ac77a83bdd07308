-- ===== src/StateMachine/Traps.antt =====
-- Two orders of events that the handlers are not prepared for.
use cnc_3d.Common.{true, false, ◌≡◌, refl, ap, ◌∙◌, arith, ◌∷◌, ◌++◌}
use cnc_3d.System.{SysState, idle, jog}
use cnc_3d.StateMachine.Types.{
  on_cycle, await_hold, await_resume, await_motion_cancel, plan_cycle_reinitialize, door_message,
  suspend_read, update_block_parameters, RtExec, Core, Coords, World,
}
use cnc_3d.StateMachine.Simple.{emit, set_idle}
use cnc_3d.StateMachine.Parking.{stop_motion, hold_reached, hold_complete_step, state_await_hold}
use cnc_3d.StateMachine.Events.{
  state_set, set_branch, end_cycle, cancel_motion, state_cycle, state_await_motion_cancel,
}
use cnc_3d.StateMachine.Update.{handle, state_update}
use cnc_3d.StateMachine.Coherent.{finish-state}
use cnc_3d.StateMachine.Door.{stop_motion_lem, off_lem}
use cnc_3d.StateMachine.Jog.{IsHeld, laser_calls, held_driver, door_while_jogging}

module _ {F : Type 0} (ops : Coords F) (w : World F) where
  jog_reached : (s : SysState) (m : Core F) → s ≡ jog → hold_reached ops w s m ≡ (false, m)
  unfolding hold_reached
  jog_reached s m e = rw e refl

  jog_complete :
      (m : Core F)
      → m.sys_state ≡ jog
      → m.soft_limit ≡ false
      → let m' = hold_complete_step ops w m in
        (m'.sys_state ≡ jog)
        × (m'.handler ≡ await_resume)
        × (m'.log ≡ plan_cycle_reinitialize ∷ m.log)
  unfolding hold_complete_step
  jog_complete m s l =
      let m1 = stop_motion ops w m in
      let ((h, k), g, st, li, pd) = stop_motion_lem ops w m in
      let f = off_lem ops w false m1 refl (li ∙ l) in
      rw (jog_reached m1.sys_state m1 (k ∙ s)) (
        ap (λ (q : Core F). q.sys_state) f ∙ k ∙ s,
        ap (λ (q : Core F). q.handler) f,
        ap (λ (q : Core F). q.log) f ∙ g,
      )

  door_seen :
      (rt : RtExec) (m : Core F)
      → m.sys_state ≡ jog
      → rt.safety_door ≡ true
      → rt.cycle_complete ≡ false
      → IsHeld ops w
          (state_update ops w rt m)
          (laser_calls ops w (held_driver ops w m) ++ (door_message ∷ m.log))
  unfolding state_update handle state_await_hold
  door_seen rt m s d c = ground (arith, door_while_jogging ops w m s)

  hold_step :
      (rt : RtExec) (m : Core F)
      → m.handler ≡ await_hold
      → rt.safety_door ≡ false
      → rt.cycle_complete ≡ true
      → state_update ops w rt m ≡ hold_complete_step ops w m
  unfolding state_update handle state_await_hold
  hold_step rt m h d c = ground arith

  -- While the machine jogs, opening the safety door, with no soft limit left after it, does not put it
  -- in the safety door state. With the first call the step control is told to hold, and nothing else
  -- is called than the door's message, the stop of a laser that has to be off during holds, and the
  -- update of the planner's block parameters. When the motion ends it waits for a cycle start, still
  -- in the state of a jog, and only `plan_cycle_reinitialize` has been called: nothing but such a laser
  -- is switched off, and no parking motion is made.
  pub door_lost :
      (rt rt' : RtExec) (m : Core F)
      → m.sys_state ≡ jog
      → rt.safety_door ≡ true
      → rt.cycle_complete ≡ false
      → rt'.safety_door ≡ false
      → rt'.cycle_complete ≡ true
      → (state_update ops w rt m).soft_limit ≡ false
      → let m1 = state_update ops w rt m in
        let m2 = state_update ops w rt' m1 in
        (m1.sys_state ≡ jog)
        × (m1.handler ≡ await_hold)
        × (m1.step.execute_hold ≡ true)
        × (m1.log
            ≡ update_block_parameters false
              ∷ (laser_calls ops w (held_driver ops w m) ++ (door_message ∷ m.log)))
        × (m2.sys_state ≡ jog)
        × (m2.handler ≡ await_resume)
        × (m2.log ≡ plan_cycle_reinitialize ∷ m1.log)
  door_lost rt rt' m s d c d' c' l =
      let m1 = state_update ops w rt m in
      let (a, b, g, k) = door_seen rt m s d c in
      let (x, y, z) = jog_complete m1 a l in
      let e = hold_step rt' m1 b d' c' in
      (
        a,
        b,
        g,
        k,
        ap (λ (q : Core F). q.sys_state) e ∙ x,
        ap (λ (q : Core F). q.handler) e ∙ y,
        ap (λ (q : Core F). q.log) e ∙ z,
      )

  cancelled :
      (rt : RtExec) (m : Core F)
      → m.handler ≡ await_motion_cancel
      → rt.cycle_complete ≡ false
      → rt.safety_door ≡ false
      → state_update ops w rt m ≡ m
  unfolding state_update handle state_await_motion_cancel
  cancelled rt m h c d = ground arith

  idle_reached : (m : Core F) → (state_set ops w idle m).sys_state ≡ idle
  unfolding state_set set_branch set_idle
  idle_reached m = ground (arith, finish-state m.sys_state (set_idle m).1)

  cancel_late :
      (rt : RtExec) (m : Core F)
      → m.handler ≡ on_cycle
      → rt.motion_cancel ≡ true
      → rt.cycle_complete ≡ true
      → rt.safety_door ≡ false
      → rt.feed_hold ≡ false
      → w.tool_change_pending ≡ false
      → let m1 = state_update ops w rt m in
        (m1.sys_state ≡ idle) × (m1.handler ≡ await_motion_cancel) × (m1.suspend ≡ true)
  unfolding state_update handle state_cycle end_cycle cancel_motion
  cancel_late rt m h a c d f t =
      rw h (ground (arith, idle_reached m, idle_reached (emit (suspend_read true) m)))

  -- When a motion is cancelled and ends in the same round of the realtime executor, the machine is
  -- idle, yet suspended and waiting for the end of a motion: whatever is requested afterwards, but
  -- for the safety door and the end of a motion, has no effect.
  pub cancelled_at_end :
      (rt rt' : RtExec) (m : Core F)
      → m.handler ≡ on_cycle
      → rt.motion_cancel ≡ true
      → rt.cycle_complete ≡ true
      → rt.safety_door ≡ false
      → rt.feed_hold ≡ false
      → w.tool_change_pending ≡ false
      → rt'.cycle_complete ≡ false
      → rt'.safety_door ≡ false
      → let m1 = state_update ops w rt m in
        (m1.sys_state ≡ idle) × (m1.suspend ≡ true) × (state_update ops w rt' m1 ≡ m1)
  cancelled_at_end rt rt' m h a c d f t c' d' =
      let m1 = state_update ops w rt m in
      let (x, y, z) = cancel_late rt m h a c d f t in (x, z, cancelled rt' m1 y c' d')
