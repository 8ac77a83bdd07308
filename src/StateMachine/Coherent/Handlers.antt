-- ===== src/StateMachine/Coherent/Handlers.antt =====
-- The handlers that wait for no output keep handler and state together.
use cnc_3d.Common.{Bool, true, false, not, ◌&&◌, ◌≡◌, ◌==◌, ap₂, ◌∙◌, arith, if◌then◌else◌}
use cnc_3d.System.{SysState, idle, cycle, hold, sleep, tool_change}
use cnc_3d.StateMachine.Types.{RtExec, suspend_read, alarm_none, other_request, Core, Coords, World}
use cnc_3d.StateMachine.Simple.{emit, set_idle, set_tool_change}
use cnc_3d.StateMachine.Events.{
  state_set, state_idle, state_cycle, state_await_toolchanged, state_await_motion_cancel, clear_jog,
  end_cycle, cancel_motion, end_tool_change, after_cancel, set_branch,
}
use cnc_3d.StateMachine.Coherent.{is_locked, fits_state, IsCoherent, if-IsCoherent, finish-state}
use cnc_3d.StateMachine.Coherent.Park.{SameWait}
use cnc_3d.StateMachine.Coherent.Set.{state_set-IsCoherent}

module _ {F : Type 0} (ops : Coords F) (w : World F) where
  -- A request that is made of `state_set` or not.
  pub set_if-IsCoherent :
      (b : Bool) (new : SysState) (m : Core F)
      → IsCoherent m
      → IsCoherent (if b then state_set ops w new m else m)
  set_if-IsCoherent true new m v = state_set-IsCoherent ops w new m v
  set_if-IsCoherent false new m v = v

  pub state_idle-IsCoherent :
      (rt : RtExec) (m : Core F) → IsCoherent m → IsCoherent (state_idle ops w rt m)
  unfolding state_idle
  state_idle-IsCoherent rt m v =
      let m1 = if rt.cycle_start then state_set ops w cycle m else m in
      let v1 = set_if-IsCoherent rt.cycle_start cycle m v in
      let m2 = if rt.feed_hold then state_set ops w hold m1 else m1 in
      let v2 = set_if-IsCoherent rt.feed_hold hold m1 v1 in
      let m3 =
        if rt.tool_change then state_set ops w tool_change (emit (suspend_read true) m2) else m2 in
      let v3 : IsCoherent m3 =
        if-IsCoherent rt.tool_change (state_set ops w tool_change (emit (suspend_read true) m2)) m2
          (state_set-IsCoherent ops w tool_change (emit (suspend_read true) m2) v2) v2 in
      set_if-IsCoherent rt.sleep sleep m3 v3

  -- A cycle ends in a state that is not locked.
  end_cycle-unlocked :
      (rt : RtExec) (m : Core F)
      → is_locked m.sys_state ≡ false
      → is_locked (end_cycle ops w rt m).sys_state ≡ false
  unfolding end_cycle state_set set_branch set_tool_change set_idle
  end_cycle-unlocked rt m l = ground (
    arith,
    finish-state m.sys_state (set_idle m).1,
    finish-state m.sys_state (set_tool_change m).1,
  )

  end_cycle-IsCoherent :
      (rt : RtExec) (m : Core F) → IsCoherent m → IsCoherent (end_cycle ops w rt m)
  unfolding end_cycle
  end_cycle-IsCoherent rt m v =
      set_if-IsCoherent rt.cycle_complete (if w.tool_change_pending then tool_change else idle) m v

  cancel_motion-IsCoherent :
      (rt : RtExec) (m : Core F)
      → is_locked m.sys_state ≡ false
      → IsCoherent m
      → IsCoherent (cancel_motion ops w rt m)
  unfolding cancel_motion
  cancel_motion-IsCoherent rt m l v = ground arith

  pub state_cycle-IsCoherent :
      (rt : RtExec) (m : Core F)
      → is_locked m.sys_state ≡ false
      → IsCoherent m
      → IsCoherent (state_cycle ops w rt m)
  unfolding state_cycle
  state_cycle-IsCoherent rt m l v =
      let m1 = if rt.tool_change then emit (suspend_read true) m else m in
      let v1 : IsCoherent m1 = if-IsCoherent rt.tool_change (emit (suspend_read true) m) m v v in
      let l1 : is_locked m1.sys_state ≡ false = ground arith in
      let m2 = cancel_motion ops w rt (end_cycle ops w rt m1) in
      let v2 =
        cancel_motion-IsCoherent rt (end_cycle ops w rt m1) (end_cycle-unlocked rt m1 l1)
          (end_cycle-IsCoherent rt m1 v1) in
      if-IsCoherent (rt.cycle_start && not (other_request rt)) m
        (if rt.feed_hold then state_set ops w hold m2 else m2) v
        (set_if-IsCoherent rt.feed_hold hold m2 v2)

  end_tool_change-same : (m : Core F) → SameWait (end_tool_change ops w m) m
  unfolding end_tool_change
  end_tool_change-same m = ground arith

  clear_jog-same : (m : Core F) → SameWait (clear_jog ops w m) m
  unfolding clear_jog
  clear_jog-same m = ground arith

  pub same-IsCoherent : (m' m : Core F) → SameWait m' m → IsCoherent m → IsCoherent m'
  same-IsCoherent m' m e v = ap₂ fits_state e.0 e.1 ∙ v

  pub state_await_toolchanged-IsCoherent :
      (rt : RtExec) (m : Core F) → IsCoherent m → IsCoherent (state_await_toolchanged ops w rt m)
  unfolding state_await_toolchanged
  state_await_toolchanged-IsCoherent rt m v =
      let m0 = end_tool_change ops w m in
      let m1 = state_set ops w cycle (state_set ops w idle m0) in
      let v1 =
        state_set-IsCoherent ops w cycle (state_set ops w idle m0)
          (state_set-IsCoherent ops w idle m0 (same-IsCoherent m0 m (end_tool_change-same m) v)) in
      if-IsCoherent rt.cycle_start (record m1 { rt = record (m1.rt) { status_report = true } }) m v1
        v

  after_cancel-IsCoherent : (m : Core F) → IsCoherent m → IsCoherent (after_cancel ops w m)
  unfolding after_cancel
  after_cancel-IsCoherent m v =
      if-IsCoherent (m.alarm_pending == alarm_none)
        (if w.tool_change_pending then state_set ops w tool_change m else m)
        (record m { exec_alarm = m.alarm_pending; alarm_pending = alarm_none })
        (set_if-IsCoherent w.tool_change_pending tool_change m v) v

  pub state_await_motion_cancel-IsCoherent :
      (rt : RtExec) (m : Core F) → IsCoherent m → IsCoherent (state_await_motion_cancel ops w rt m)
  unfolding state_await_motion_cancel
  state_await_motion_cancel-IsCoherent rt m v =
      let m0 = clear_jog ops w m in
      let v0 = same-IsCoherent m0 m (clear_jog-same m) v in
      if-IsCoherent rt.cycle_complete (after_cancel ops w (state_set ops w m.pending_state m0)) m
        (after_cancel-IsCoherent (state_set ops w m.pending_state m0)
          (state_set-IsCoherent ops w m.pending_state m0 v0))
        v
