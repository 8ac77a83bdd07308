-- ===== src/Executor/Coherent.antt =====
-- What the realtime executor does to the state machine's handler and state.
use cnc_3d.Common.{
  Bool, true, false, ℕ, zero, suc, ◌∙◌, ap₂, refl, arith, List, [], ◌∷◌, if◌then◌else◌,
}
use cnc_3d.System.{idle, safety_door}
use cnc_3d.StateMachine.Types.{
  RtExec, no_request, Core, Coords, World, reset_read_buffer, report_status, st_prep_buffer,
}
use cnc_3d.StateMachine.Simple.{emit}
use cnc_3d.StateMachine.Update.{state_update}
use cnc_3d.StateMachine.Coherent.{fits_state, IsCoherent, raise_alarm-IsCoherent}
use cnc_3d.StateMachine.Coherent.Park.{SameWait}
use cnc_3d.StateMachine.Coherent.Resumes.{IsCalm}
use cnc_3d.StateMachine.Coherent.Set.{state_set-IsCoherent}
use cnc_3d.StateMachine.Coherent.Reached.{state_update-IsCoherent}
use cnc_3d.Executor.Types.{Executor, BlockRound, Setup}
use cnc_3d.Executor.Alarm.{
  Ended, still_blocked, left, kill, end_line, poll_char, protocol_poll_cmd, wait_round, await_reset,
  enter_block, raise_pending, exec_pending_alarm, critical_text,
}
use cnc_3d.Executor.Requests.{
  Outcome, returned, goes_on, await_steppers, make_reports, remaining, cancel_request, reset_fault,
  exec_reset_request, no_tool_change, end_motion, reset_modules, leave_stop, begin_stop,
  exec_stop_request, exec_rest, exec_requests, alarm_motor_fault,
}
use cnc_3d.Executor.{
  Result, blocked, result, exec_override_commands, fill_segments, after_requests, after_alarm,
  protocol_exec_rt_system,
}

abbrev pub core_of_result : {F : Type 0} → Result F → Core F
core_of_result (blocked x) = x.core
core_of_result (result v x) = x.core

abbrev core_of_outcome : {F : Type 0} → Outcome F → Core F
core_of_outcome (returned v x) = x.core
core_of_outcome (goes_on x) = x.core

abbrev core_of_ended : {F : Type 0} → Ended F → Core F
core_of_ended (still_blocked x) = x.core
core_of_ended (left x) = x.core
core_of_ended (Ended.goes_on k x) = x.core

module _ {F : Type 0} where
  same-IsCoherent : (m' m : Core F) → SameWait m' m → IsCoherent m → IsCoherent m'
  same-IsCoherent m' m e v = ap₂ fits_state e.0 e.1 ∙ v

  -- What a round of the loop executes besides keeps handler and state together.
  pub record IsKeeping (r : BlockRound F) : Type 0 where
    pub of_line :
        (line : List ℕ) (m : Core F) → IsCoherent m → IsCoherent (r.system_execute_line line m).1
    pub of_tasks : (m : Core F) → IsCoherent m → IsCoherent (r.on_execute_realtime m)

  abbrev pub AreKeeping : List (BlockRound F) → Type 0
  AreKeeping [] = Unit
  AreKeeping (r ∷ rounds) = IsKeeping r × AreKeeping rounds

  pub poll_cmd-IsCoherent :
      (r : BlockRound F)
      → IsKeeping r
      → (x : Executor F) → IsCoherent x.core
      → IsCoherent (protocol_poll_cmd r x).core
  unfolding protocol_poll_cmd poll_char end_line
  poll_cmd-IsCoherent r k x v = ground (arith, v, k.of_line x.line x.core v)

  wait_round-IsCoherent :
      (r : BlockRound F)
      → IsKeeping r
      → (x : Executor F) → IsCoherent x.core
      → IsCoherent (wait_round r x).core
  unfolding wait_round
  wait_round-IsCoherent r k x v =
      let core = if r.requests.status_report then emit report_status x.core else x.core in
      let x0 = record x {
        core = record core { rt = record (r.requests) { status_report = false } };
        abort = r.requests.reset;
      } in
      let x1 = protocol_poll_cmd r x0 in
      k.of_tasks x1.core (poll_cmd-IsCoherent r k x0 (ground (arith, v)))

  await_reset-IsCoherent :
      (rounds : List (BlockRound F))
      → AreKeeping rounds
      → (x : Executor F) → IsCoherent x.core
      → IsCoherent (core_of_ended (await_reset rounds x))
  unfolding await_reset
  await_reset-IsCoherent [] k x v = v
  await_reset-IsCoherent (r ∷ rounds) (k, ks) x v =
      ground (
        arith,
        await_reset-IsCoherent rounds ks (wait_round r x) (wait_round-IsCoherent r k x v),
        v,
      )

  await_steppers-same : (n : ℕ) (m : Core F) → SameWait (await_steppers n m) m
  unfolding await_steppers
  await_steppers-same zero m = (refl, refl)
  await_steppers-same (suc n) m = await_steppers-same n (emit st_prep_buffer m)

  make_reports-same : (rt : RtExec) (m : Core F) → SameWait (make_reports rt m) m
  unfolding make_reports
  make_reports-same rt m = ground arith

module _ {F : Type 0} (ops : Coords F) (u : Setup F) where
  raise_pending-IsCoherent :
      (code : ℕ) (x : Executor F) → IsCoherent x.core → IsCoherent (raise_pending u code x).core
  unfolding raise_pending
  raise_pending-IsCoherent code x v =
      let core = record (x.core) { exec_alarm = 0 } in
      let core1 = if x.core.rt.reset then kill core else core in
      let r = raise_alarm-IsCoherent u.world code core1 (ground (arith, v)) in ground (arith, r)

  exec_pending_alarm-IsCoherent :
      AreKeeping u.rounds
      → (x : Executor F) → IsCoherent x.core
      → IsCoherent (core_of_ended (exec_pending_alarm u x))
  unfolding exec_pending_alarm enter_block
  exec_pending_alarm-IsCoherent k x v =
      let code = x.core.exec_alarm in
      let x1 = raise_pending u code x in
      let v1 = raise_pending-IsCoherent code x v in
      let core =
        emit reset_read_buffer
          (emit (critical_text code) (record (x1.core) { exec_alarm = code })) in
      ground (
        arith,
        v,
        v1,
        await_reset-IsCoherent u.rounds k
            (record x1 {
              core = record core { rt = record (core.rt) { reset = false } };
              line = [];
            })
            v1,
      )

  reset_fault-IsCoherent : (m : Core F) → IsCoherent m → IsCoherent (reset_fault ops u m)
  unfolding reset_fault
  reset_fault-IsCoherent m v =
      let m1 = emit reset_read_buffer m in
      ground (
        arith,
        v,
        raise_alarm-IsCoherent u.world 10 m1 v,
        raise_alarm-IsCoherent u.world alarm_motor_fault m1 v,
      )

  exec_reset_request-IsCoherent :
      (killed : Bool) (x : Executor F)
      → IsCoherent x.core
      → IsCoherent (core_of_outcome (exec_reset_request ops u killed x))
  unfolding exec_reset_request
  exec_reset_request-IsCoherent true x v = reset_fault-IsCoherent x.core v
  exec_reset_request-IsCoherent false x v = reset_fault-IsCoherent (kill x.core) v

  begin_stop-same : (x : Executor F) → SameWait (begin_stop ops u x) x.core
  unfolding begin_stop
  begin_stop-same x = ground arith

module _ {F : Type 0} (ops : Coords F) (u : Setup F) (c : IsCalm u.world) where
  end_motion-IsCoherent : (m : Core F) → IsCoherent m → IsCoherent (end_motion ops u m).1
  unfolding end_motion
  end_motion-IsCoherent m v =
      let w = no_tool_change ops u in
      let d : IsCalm w = record { coherent = c.coherent; unlocked = c.unlocked } in
      let m0 = state_update ops w cancel_request m in
      let m1 = await_steppers u.stepping m0 in
      let v1 : IsCoherent m1 =
        same-IsCoherent m1 m0 (await_steppers-same u.stepping m0)
          (state_update-IsCoherent ops w d cancel_request m v) in
      ground (arith, v, v1, raise_alarm-IsCoherent w m.alarm_pending m v)

  leave_stop-IsCoherent : (m : Core F) → IsCoherent m → IsCoherent (leave_stop ops u m)
  unfolding leave_stop
  leave_stop-IsCoherent m v = ground (
    arith,
    v,
    state_set-IsCoherent ops u.stopped (if u.stopped.door_ajar then safety_door else idle) m v,
  )

  exec_stop_request-IsCoherent :
      (rt : RtExec) (x : Executor F)
      → IsCoherent x.core
      → IsCoherent (exec_stop_request ops u rt x).1.core
  unfolding exec_stop_request
  exec_stop_request-IsCoherent rt x v =
      let m1 = begin_stop ops u x in
      let v1 = same-IsCoherent m1 x.core (begin_stop-same ops u x) v in
      leave_stop-IsCoherent (reset_modules ops u (end_motion ops u m1).1)
        (end_motion-IsCoherent m1 v1)

  exec_rest-IsCoherent :
      (w : World F)
      → IsCalm w
      → (rt : RtExec) (x : Executor F) → IsCoherent x.core
      → IsCoherent (exec_rest ops u w rt x).core
  unfolding exec_rest
  exec_rest-IsCoherent w d rt x v =
      let m = make_reports rt x.core in
      let v1 = same-IsCoherent m x.core (make_reports-same rt x.core) v in
      ground (arith, v1, state_update-IsCoherent ops w d (remaining rt) m v1)

module _ {F : Type 0} (ops : Coords F) (u : Setup F) (c : IsCalm u.world)
    (d : IsCalm u.stopped) where
  exec_requests-IsCoherent :
      (killed : Bool) (x : Executor F)
      → IsCoherent x.core
      → IsCoherent (core_of_outcome (exec_requests ops u killed x))
  unfolding exec_requests
  exec_requests-IsCoherent killed x v =
      let rt = x.core.rt in
      let x1 = record x { core = record (x.core) { rt = no_request }; reset_pending = rt.reset } in
      let (rt2, x2) = exec_stop_request ops u rt x1 in
      let v2 = exec_stop_request-IsCoherent ops u c rt x1 v in
      ground (
        arith,
        v,
        exec_reset_request-IsCoherent ops u killed x1 v,
        exec_rest-IsCoherent ops u c u.stopped d rt2 x2 v2,
        exec_rest-IsCoherent ops u c u.world c rt x1 v,
      )

  finished-IsCoherent :
      (x : Executor F)
      → IsCoherent x.core
      → IsCoherent (fill_segments ops u (exec_override_commands ops u x)).core
  unfolding fill_segments exec_override_commands
  finished-IsCoherent x v = ground (arith, v)

  after_requests-IsCoherent :
      (o : Outcome F)
      → IsCoherent (core_of_outcome o)
      → IsCoherent (core_of_result (after_requests ops u o))
  unfolding after_requests
  after_requests-IsCoherent (returned r x) v = v
  after_requests-IsCoherent (goes_on x) v = finished-IsCoherent x v

  after_alarm-IsCoherent :
      (o : Ended F)
      → IsCoherent (core_of_ended o)
      → IsCoherent (core_of_result (after_alarm ops u o))
  unfolding after_alarm
  after_alarm-IsCoherent (still_blocked x) v = v
  after_alarm-IsCoherent (left x) v = v
  after_alarm-IsCoherent (Ended.goes_on k x) v =
      after_requests-IsCoherent (exec_requests ops u k x) (exec_requests-IsCoherent k x v)

  -- A call of the realtime executor, with any alarm and any requests pending, whatever the world
  -- answers, as long as the waits of restored outputs lock no machine, and these, system commands and
  -- tasks keep its handler and state together, and whether or not it returns, keeps the state machine's handler and state together: a
  -- locked machine waits for nothing, and in every other state but sleep it waits for some event.
  pub protocol_exec_rt_system-IsCoherent :
      AreKeeping u.rounds
      → (x : Executor F) → IsCoherent x.core
      → IsCoherent (core_of_result (protocol_exec_rt_system ops u x))
  unfolding protocol_exec_rt_system
  protocol_exec_rt_system-IsCoherent k x v =
      after_alarm-IsCoherent (exec_pending_alarm u x) (exec_pending_alarm-IsCoherent ops u k x v)
