-- ===== src/StateMachine/Resumed.antt =====
-- The end of a feed hold: what is switched on before the motion goes on.
use cnc_3d.Common.{
  true, false, ℕ, ◌≡◌, ◌==◌, refl, ap, ap₂, ◌∙◌, arith, if◌then◌else◌, List, [], ◌∷◌, ◌++◌, some,
  Option,
}
use cnc_3d.System.{SysState, idle, cycle, hold}
use cnc_3d.StateMachine.Types.{
  on_cycle, await_resume, hold_not_holding, Effect, st_prep_buffer, st_wake_up, state_changed,
  spindle_message, spindle_restore, spindle_programmed, coolant_restore, gc_coolant, none_message,
  RtExec, Core, Coords, World, Block, Spindle, Restore,
}
use cnc_3d.StateMachine.Simple.{
  emit, finish, set_idle, set_cycle, start_queued, start_block, synchronize,
}
use cnc_3d.StateMachine.Hold.{restore_spindle}
use cnc_3d.StateMachine.Events.{state_set, set_branch}
use cnc_3d.StateMachine.Resume.{
  is_on, differ, state_spindle_restore, restore_hold_spindle, restore_hold_coolant, resume_outputs,
  coolant_back, resume_in, restart_cycle, mark_restore_cycle, after_resume, resume, answer,
  state_await_resume,
}
use cnc_3d.StateMachine.Update.{handle, state_update}

module _ {F : Type 0} (ops : Coords F) (w : World F) where
  -- The two steps of `restart_cycle`.
  hold_ended :
      (m : Core F)
      → m.sys_state ≡ hold
      → let m' = state_set ops w idle m in
        (m'.sys_state ≡ idle)
        × (m'.holding_state ≡ hold_not_holding)
        × (m'.suspend ≡ false)
        × (m'.log ≡ state_changed idle ∷ m.log)
  unfolding state_set set_branch set_idle finish
  hold_ended m s = ground arith

  block_started :
      (q : Option (Block F)) (b : Block F) (m : Core F)
      → q ≡ some b
      → b.synchronized ≡ false
      → start_queued w q m ≡ (
        false,
        record m {
          sys_state = cycle;
          steppers_deenergize = false;
          handler = on_cycle;
          log = st_wake_up ∷ (st_prep_buffer ∷ m.log);
        },
      )
  unfolding start_queued start_block synchronize
  block_started q b m e n = rw e (rw n refl)

  -- What a cycle start does in the idle state, with a block that waits for no spindle.
  record IsStarted (m m' : Core F) : Type 0 where
    state_of : m'.sys_state ≡ cycle
    handler_of : m'.handler ≡ on_cycle
    holding_of : m'.holding_state ≡ m.holding_state
    suspend_of : m'.suspend ≡ m.suspend
    step_of : m'.step ≡ m.step
    log_of : m'.log ≡ state_changed cycle ∷ (st_wake_up ∷ (st_prep_buffer ∷ m.log))

  finish-IsStarted :
      (m : Core F)
      → m.sys_state ≡ idle
      → IsStarted m (
          finish m.sys_state (record m {
            sys_state = cycle;
            steppers_deenergize = false;
            handler = on_cycle;
            log = st_wake_up ∷ (st_prep_buffer ∷ m.log);
          }))
  unfolding finish
  finish-IsStarted m s = ground arith

  state_set-IsStarted :
      (b : Block F) (m : Core F)
      → w.block ≡ some b
      → b.synchronized ≡ false
      → m.sys_state ≡ idle
      → IsStarted m (state_set ops w cycle m)
  unfolding state_set set_branch set_cycle
  state_set-IsStarted b m e n s =
      ground (arith, block_started w.block b m e n, finish-IsStarted m s)

  cycle_restarted :
      (b : Block F) (m : Core F)
      → w.block ≡ some b
      → b.synchronized ≡ false
      → m.sys_state ≡ hold
      → let m' = restart_cycle ops w m in
        (m'.sys_state ≡ cycle)
        × (m'.handler ≡ on_cycle)
        × (m'.holding_state ≡ hold_not_holding)
        × (m'.suspend ≡ false)
        × (m'.step ≡ m.step)
        × (m'.log
            ≡ state_changed cycle ∷ (st_wake_up ∷ (st_prep_buffer ∷ (state_changed idle ∷ m.log))))
  unfolding restart_cycle
  cycle_restarted b m e n s =
      let (a, c, d, f) = hold_ended m s in
      let i = state_set-IsStarted b (record (state_set ops w idle m) { step = m.step }) e n a in
      (
        i.state_of,
        i.handler_of,
        i.holding_of ∙ c,
        i.suspend_of ∙ d,
        i.step_of,
        i.log_of ∙ ap (λ l. state_changed cycle ∷ (st_wake_up ∷ (st_prep_buffer ∷ l))) f,
      )

  -- The calls that bring spindle and coolant back, the latest first.
  abbrev pub restoring_calls : ℕ → Spindle F → ℕ → List (Effect F)
  restoring_calls h s coolant =
      none_message
      ∷ ((if coolant == w.coolant_state
            then []
            else gc_coolant coolant ∷ (coolant_restore coolant ∷ []))
          ++ (if differ (is_on s.state) (w.spindle_is_on h)
              then spindle_restore s ∷ (spindle_programmed s ∷ (spindle_message ∷ []))
              else []))

  spindle_back :
      (h : ℕ) (s : Spindle F) (m : Core F)
      → ((n : Core F) → w.delay n ≡ n)
      → s.hal ≡ some h
      → let m' = restore_hold_spindle ops w s m in
        (m'.sys_state ≡ m.sys_state)
        × (m'.condition ≡ m.condition)
        × (m'.step ≡ m.step)
        × (m'.log
            ≡ (if differ (is_on s.state) (w.spindle_is_on h)
                then spindle_restore s ∷ (spindle_programmed s ∷ (spindle_message ∷ []))
                else [])
              ++ m.log)
  unfolding restore_hold_spindle state_spindle_restore
  spindle_back h s m d e =
      ground
        (arith, d (emit (spindle_restore s) (emit (spindle_programmed s) (emit spindle_message m))))

  coolant_restored :
      (m : Core F)
      → ((n : Core F) → w.delay n ≡ n)
      → let m' = restore_hold_coolant ops w m in
        (m'.sys_state ≡ m.sys_state)
        × (m'.step ≡ m.step)
        × (m'.log
            ≡ (if m.condition.coolant == w.coolant_state
                then []
                else gc_coolant m.condition.coolant ∷ (coolant_restore m.condition.coolant ∷ []))
              ++ m.log)
  unfolding restore_hold_coolant coolant_back
  coolant_restored m d = ground (arith, d (emit (coolant_restore m.condition.coolant) m))

  outputs_back :
      (h : ℕ) (m : Core F)
      → ((n : Core F) → w.delay n ≡ n)
      → (restore_spindle ops w m).hal ≡ some h
      → w.restore_after_feed_hold ≡ true
      → let m' = resume_outputs ops w m in
        (m'.sys_state ≡ m.sys_state)
        × (m'.step ≡ m.step)
        × (m'.log ≡ restoring_calls h (restore_spindle ops w m) m.condition.coolant ++ m.log)
  unfolding resume_outputs
  outputs_back h m d e r =
      let s = restore_spindle ops w m in
      let m1 = restore_hold_spindle ops w s m in
      ground (arith, spindle_back h s m d e, coolant_restored m1 d)

  resumed_in : (s : SysState) (m : Core F) → s ≡ hold → resume_in ops w s m ≡ resume_outputs ops w m
  unfolding resume_in
  resumed_in s m e = rw e refl

  marked :
      (m : Core F)
      → let m' = mark_restore_cycle ops w m in
        (m'.sys_state ≡ m.sys_state)
        × (m'.condition ≡ m.condition)
        × (m'.step ≡ m.step)
        × (m'.log ≡ m.log)
  unfolding mark_restore_cycle
  marked m = ground arith

  restarted : (m : Core F) → m.sys_state ≡ hold → after_resume ops w m ≡ restart_cycle ops w m
  unfolding after_resume
  restarted m s = ground arith

  resumed :
      (b : Block F) (h : ℕ) (m : Core F)
      → w.block ≡ some b
      → b.synchronized ≡ false
      → ((n : Core F) → w.delay n ≡ n)
      → (restore_spindle ops w m).hal ≡ some h
      → w.restore_after_feed_hold ≡ true
      → m.sys_state ≡ hold
      → let m' = resume ops w m in
        (m'.sys_state ≡ cycle)
        × (m'.handler ≡ on_cycle)
        × (m'.holding_state ≡ hold_not_holding)
        × (m'.suspend ≡ false)
        × (m'.step ≡ m.step)
        × (m'.log
            ≡ state_changed cycle
              ∷ (st_wake_up
                  ∷ (st_prep_buffer
                      ∷ (state_changed idle
                          ∷ (restoring_calls h (restore_spindle ops w m) m.condition.coolant
                              ++ m.log)))))
  unfolding resume
  resumed b h m e n w0 k r s =
      let m1 = mark_restore_cycle ops w m in
      let (a, c, d, f) = marked m in
      let i = ap (λ (q : _). restore_spindle ops w (record m { condition = q })) c in
      let (x, y, z) = outputs_back h m1 w0 (ap (λ (q : Spindle F). q.hal) i ∙ k) r in
      let m2 = resume_outputs ops w m1 in
      let (p, q, t, u, v, l) = cycle_restarted b m2 e n (x ∙ a ∙ s) in
      let j = resumed_in m1.sys_state m1 (a ∙ s) in
      let g = ap (after_resume ops w) j ∙ restarted m2 (x ∙ a ∙ s) in
      let o =
        ap₂
          (λ (q : Restore F) (rest : List (Effect F)).
            restoring_calls h (restore_spindle ops w (record m { condition = q })) q.coolant
            ++ rest)
          c f in
      (
        ap (λ (q : Core F). q.sys_state) g ∙ p,
        ap (λ (q : Core F). q.handler) g ∙ q,
        ap (λ (q : Core F). q.holding_state) g ∙ t,
        ap (λ (q : Core F). q.suspend) g ∙ u,
        ap (λ (q : Core F). q.step) g ∙ v ∙ y ∙ d,
        ap (λ (q : Core F). q.log) g
            ∙ l
            ∙ ap
                (λ r.
                  state_changed cycle ∷ (st_wake_up ∷ (st_prep_buffer ∷ (state_changed idle ∷ r))))
                (z ∙ o),
      )

  -- A cycle start after a feed hold, with a block that waits for no spindle, with outputs that are to
  -- be restored, a driver for the spindle among them, with no door, sleep or cycle-complete request
  -- beside it and with nothing that happens to the machine while the outputs are given time: before the steppers are prepared and started the spindle is programmed and
  -- restored, if it is on now and was off when the hold began or the other way round, and then the
  -- coolant, if it is not as it was then; the machine is in a cycle again, not suspended and not in a
  -- hold.
  pub hold_resumes :
      (b : Block F) (h : ℕ) (rt : RtExec) (m : Core F)
      → w.block ≡ some b
      → b.synchronized ≡ false
      → ((n : Core F) → w.delay n ≡ n)
      → (restore_spindle ops w m).hal ≡ some h
      → w.restore_after_feed_hold ≡ true
      → m.sys_state ≡ hold
      → m.handler ≡ await_resume
      → rt.cycle_start ≡ true
      → rt.cycle_complete ≡ false
      → rt.safety_door ≡ false
      → rt.sleep ≡ false
      → let m' = state_update ops w rt m in
        (m'.sys_state ≡ cycle)
        × (m'.handler ≡ on_cycle)
        × (m'.holding_state ≡ hold_not_holding)
        × (m'.suspend ≡ false)
        × (m'.step ≡ m.step)
        × (m'.log
            ≡ state_changed cycle
              ∷ (st_wake_up
                  ∷ (st_prep_buffer
                      ∷ (state_changed idle
                          ∷ (restoring_calls h (restore_spindle ops w m) m.condition.coolant
                              ++ m.log)))))
  unfolding state_update handle state_await_resume answer
  hold_resumes b h rt m e n w0 k r s a c g d p = rw a (ground (arith, resumed b h m e n w0 k r s))
