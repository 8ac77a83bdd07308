-- ===== src/StateMachine/Coherent/Reached.antt =====
-- Handler and state after `state_update`, in a world whose waits lock no machine.
use cnc_3d.Common.{
  Bool, true, false, not, ◌&&◌, ◌||◌, ℕ, ◌≡◌, refl, ap, ◌∙◌, arith, if◌then◌else◌, Option, none,
  some,
}
use cnc_3d.System.{SysState, idle, cycle, safety_door, sleep, is_safety_door}
use cnc_3d.StateMachine.Simple.{emit}
use cnc_3d.StateMachine.Types.{
  Handler, restore, parking_resuming, spindle_message, RtExec, Core, Coords, World, Spindle,
}
use cnc_3d.StateMachine.Hold.{restore_spindle}
use cnc_3d.StateMachine.Parking.{
  mc_parking_motion, resume_complete, state_await_hold, state_await_waypoint_retract,
}
use cnc_3d.StateMachine.Events.{state_set}
use cnc_3d.StateMachine.Resume.{
  state_await_restart_retract, state_await_resumed, state_restore, fast_plunge, after_fast_plunge,
  resume_door, resume_outputs, resume_in, restart_cycle, mark_restore_cycle, after_resume, resume,
  answer, state_await_resume, restore_hold_spindle, restore_hold_coolant, read_hal,
}
use cnc_3d.StateMachine.Update.{handle, state_update}
use cnc_3d.StateMachine.Coherent.{is_locked, IsCoherent, if-IsCoherent}
use cnc_3d.StateMachine.Coherent.Park.{
  SameWait, resume_complete-IsCoherent, hold_complete_step-IsCoherent, waypoint_complete-IsCoherent,
}
use cnc_3d.StateMachine.Coherent.Set.{state_set-IsCoherent}
use cnc_3d.StateMachine.Coherent.Handlers.{
  set_if-IsCoherent, same-IsCoherent, state_idle-IsCoherent, state_cycle-IsCoherent,
  state_await_toolchanged-IsCoherent, state_await_motion_cancel-IsCoherent,
}
use cnc_3d.StateMachine.Coherent.Resumes.{
  restart_complete-IsAwake, restart_retract-IsAwake, resumed_complete-IsCoherent,
  restore_complete-IsCoherent, IsCalm, coolant_back-IsCoherent, spindle_back-IsCoherent,
}

module _ {F : Type 0} (ops : Coords F) (w : World F) where
  fast_plunge-same : (m : Core F) → SameWait (fast_plunge ops w m).1 m
  unfolding fast_plunge mc_parking_motion
  fast_plunge-same m = ground arith

module _ {F : Type 0} (ops : Coords F) (w : World F) (c : IsCalm w) where
  after_fast_plunge-IsCoherent :
      (moving : Bool) (m : Core F)
      → is_locked m.sys_state ≡ false
      → IsCoherent m
      → IsCoherent (after_fast_plunge ops w moving m)
  unfolding after_fast_plunge
  after_fast_plunge-IsCoherent true m l v = v
  after_fast_plunge-IsCoherent false m l v = restore_complete-IsCoherent ops w c m l

  resume_door-IsCoherent :
      (m : Core F) → is_locked m.sys_state ≡ false → IsCoherent m → IsCoherent (resume_door ops w m)
  unfolding resume_door
  resume_door-IsCoherent m l v =
      let m0 = record m { handler = restore; parking_state = parking_resuming } in
      let (moving, m1) = fast_plunge ops w m0 in
      let e = fast_plunge-same ops w m0 in
      let v0 : IsCoherent m0 = ground arith in
      if-IsCoherent (m.park.restart || not w.door_ajar) (after_fast_plunge ops w moving m1) m
        (after_fast_plunge-IsCoherent moving m1 (ap is_locked e.1 ∙ l)
          (same-IsCoherent ops w m1 m0 e v0))
        v

  read_hal-same : (h : Option ℕ) (m : Core F) → SameWait (read_hal ops w h m) m
  read_hal-same none m = (refl, refl)
  read_hal-same (some h) m = (refl, refl)

  hold_spindle-IsCoherent :
      (s : Spindle F) (m : Core F) → IsCoherent m → IsCoherent (restore_hold_spindle ops w s m)
  unfolding restore_hold_spindle
  hold_spindle-IsCoherent s m v =
      ground (arith, v, spindle_back-IsCoherent ops w c s (emit spindle_message m) v)

  hold_coolant-IsCoherent : (m : Core F) → IsCoherent m → IsCoherent (restore_hold_coolant ops w m)
  unfolding restore_hold_coolant
  hold_coolant-IsCoherent m v = ground (arith, v, coolant_back-IsCoherent ops w c m v)

  resume_outputs-IsCoherent : (m : Core F) → IsCoherent m → IsCoherent (resume_outputs ops w m)
  unfolding resume_outputs
  resume_outputs-IsCoherent m v =
      let s = restore_spindle ops w m in
      let m1 = read_hal ops w s.hal m in
      let v1 = same-IsCoherent ops w m1 m (read_hal-same s.hal m) v in
      let m2 = restore_hold_spindle ops w s m1 in
      ground (arith, v1, hold_coolant-IsCoherent m2 (hold_spindle-IsCoherent s m1 v1))

  resume_in-IsCoherent :
      (s : SysState) (m : Core F)
      → m.sys_state ≡ s
      → IsCoherent m
      → IsCoherent (resume_in ops w s m)
  unfolding resume_in
  resume_in-IsCoherent s m e v =
      ground (arith, resume_door-IsCoherent m, resume_outputs-IsCoherent m v)

  restart_cycle-IsCoherent : (m : Core F) → IsCoherent m → IsCoherent (restart_cycle ops w m)
  unfolding restart_cycle
  restart_cycle-IsCoherent m v =
      state_set-IsCoherent ops w cycle (record (state_set ops w idle m) { step = m.step })
        (state_set-IsCoherent ops w idle m v)

  after_resume-IsCoherent : (m : Core F) → IsCoherent m → IsCoherent (after_resume ops w m)
  unfolding after_resume
  after_resume-IsCoherent m v = ground (arith, restart_cycle-IsCoherent m v)

  mark_restore_cycle-same : (m : Core F) → SameWait (mark_restore_cycle ops w m) m
  unfolding mark_restore_cycle
  mark_restore_cycle-same m = ground arith

  resume-IsCoherent : (m : Core F) → IsCoherent m → IsCoherent (resume ops w m)
  unfolding resume
  resume-IsCoherent m v =
      let m1 = mark_restore_cycle ops w m in
      after_resume-IsCoherent (resume_in ops w m1.sys_state m1) (
        resume_in-IsCoherent m1.sys_state m1 refl
          (same-IsCoherent ops w m1 m (mark_restore_cycle-same m) v))

  answer-IsCoherent : (rt : RtExec) (m : Core F) → IsCoherent m → IsCoherent (answer ops w rt m)
  unfolding answer
  answer-IsCoherent rt m v = ground (arith, resume-IsCoherent m v)

  state_await_resume-IsCoherent :
      (rt : RtExec) (m : Core F) → IsCoherent m → IsCoherent (state_await_resume ops w rt m)
  unfolding state_await_resume
  state_await_resume-IsCoherent rt m v =
      let r = resume_complete w m in
      let v1 = (resume_complete-IsCoherent w m v).0 in
      let m2 = if rt.cycle_complete then r.1 else m in
      let v2 = if-IsCoherent rt.cycle_complete r.1 m v1 v in
      let m3 = if rt.sleep then state_set ops w sleep m2 else m2 in
      if-IsCoherent (rt.cycle_complete && r.0) r.1 (answer ops w rt m3) v1
        (answer-IsCoherent rt m3 (set_if-IsCoherent ops w rt.sleep sleep m2 v2))

  state_restore-IsCoherent :
      (rt : RtExec) (m : Core F)
      → is_locked m.sys_state ≡ false
      → IsCoherent m
      → IsCoherent (state_restore ops w rt m)
  unfolding state_restore
  state_restore-IsCoherent rt m l v =
      ground (arith, restart_retract-IsAwake ops w m l, restore_complete-IsCoherent ops w c m l)

  state_await_resumed-IsCoherent :
      (rt : RtExec) (m : Core F)
      → is_locked m.sys_state ≡ false
      → IsCoherent m
      → IsCoherent (state_await_resumed ops w rt m)
  unfolding state_await_resumed
  state_await_resumed-IsCoherent rt m l v =
      ground (arith, restart_retract-IsAwake ops w m l, resumed_complete-IsCoherent ops w m v)

  -- A handler that waits belongs to a state that is not locked.
  handle-IsCoherent :
      (k : Handler) (rt : RtExec) (m : Core F)
      → m.handler ≡ k
      → IsCoherent m
      → IsCoherent (handle ops w k rt m)
  unfolding handle state_await_hold state_await_waypoint_retract state_await_restart_retract
  handle-IsCoherent k rt m e v = ground (
    arith,
    state_idle-IsCoherent ops w rt m v,
    state_cycle-IsCoherent ops w rt m,
    state_await_toolchanged-IsCoherent ops w rt m v,
    state_await_motion_cancel-IsCoherent ops w rt m v,
    state_await_resume-IsCoherent rt m v,
    state_restore-IsCoherent rt m,
    state_await_resumed-IsCoherent rt m,
    hold_complete_step-IsCoherent ops w m,
    waypoint_complete-IsCoherent ops w m,
    restart_complete-IsAwake ops w m,
  )

  pub state_update-IsCoherent :
      (rt : RtExec) (m : Core F) → IsCoherent m → IsCoherent (state_update ops w rt m)
  unfolding state_update
  state_update-IsCoherent rt m v =
      let b = rt.safety_door && not (is_safety_door m.sys_state) in
      let m1 = if b then state_set ops w safety_door m else m in
      handle-IsCoherent m1.handler rt m1 refl (set_if-IsCoherent ops w b safety_door m v)
