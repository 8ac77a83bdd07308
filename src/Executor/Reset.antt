-- ===== src/Executor/Reset.antt =====
-- What a reset and a critical event do.
use cnc_3d.Common.{
  Bool, true, false, not, ◌&&◌, ◌||◌, ◌≡◌, ◌∙◌, ap, refl, arith, List, [], ◌∷◌, ◌++◌, append_assoc,
  sym, none, if◌then◌else◌, Bool-cases, inl, inr,
}
use cnc_3d.StateMachine.Types.{
  RtExec, no_request, is_critical, Effect, spindle_all_off, coolant_set_state, driver_reset,
  reset_read_buffer, report_status, Core, Coords,
}
use cnc_3d.StateMachine.Simple.{emit}
use cnc_3d.Executor.Types.{Executor, BlockRound, Setup}
use cnc_3d.Executor.Alarm.{
  Ended, left, wait_round, protocol_poll_cmd, await_reset, enter_block, raise_pending,
  exec_pending_alarm, critical_text,
}
use cnc_3d.Executor.Requests.{returned, reset_fault, exec_reset_request, exec_requests}
use cnc_3d.Executor.{Result, blocked, result, after_requests, after_alarm, protocol_exec_rt_system}

module _ {F : Type 0} where
  -- The user has asked for a reset, with neither the emergency stop nor a motor fault signalled.
  abbrev pub releases : BlockRound F → Bool
  releases r = r.requests.reset && not r.signalled

  abbrev pub is_released : List (BlockRound F) → Bool
  is_released [] = false
  is_released (r ∷ rounds) = releases r || is_released rounds

  -- No character is read, and the functions on `on_execute_realtime` leave the state machine alone.
  abbrev pub AreQuiet : List (BlockRound F) → Type 0
  AreQuiet [] = Unit
  AreQuiet (r ∷ rounds) =
      (r.received ≡ none) × ((n : Core F) → r.on_execute_realtime n ≡ n) × AreQuiet rounds

  -- One report for each round before the release that asks for it, the latest first.
  abbrev pub status_reports : List (BlockRound F) → List (Effect F)
  status_reports [] = []
  status_reports (r ∷ rounds) =
      if releases r
      then []
      else status_reports rounds ++ (if r.requests.status_report then report_status ∷ [] else [])

  -- Other requests, another abort flag and log, and everything else as in `x`.
  abbrev pub awaiting : RtExec → Bool → List (Effect F) → Executor F → Executor F
  awaiting rt abort log x = record x {
    core = record (x.core) { rt = rt; log = log };
    abort = abort;
  }

  -- The call has not returned, and has changed `x` in requests, abort flag and log only.
  abbrev pub IsBlocked : Executor F → List (Effect F) → Result F → Type 0
  IsBlocked x log o = (rt : RtExec) × ((abort : Bool) × (o ≡ blocked (awaiting rt abort log x)))

  -- The call has returned false, the machine is to be aborted and no alarm is left; but for the
  -- requests and the log all else is as in `x`.
  abbrev pub IsAborted : Executor F → List (Effect F) → Result F → Type 0
  IsAborted x log o =
      (rt : RtExec) × (o
        ≡ result false
            (awaiting rt true log (record x { core = record (x.core) { exec_alarm = 0 } })))

  quiet_round :
      (r : BlockRound F) (x : Executor F)
      → r.received ≡ none
      → ((n : Core F) → r.on_execute_realtime n ≡ n)
      → wait_round r x
        ≡ awaiting
            (record (r.requests) { status_report = false })
            r.requests.reset
            ((if r.requests.status_report then report_status ∷ [] else []) ++ x.core.log)
            x
  unfolding wait_round protocol_poll_cmd
  quiet_round r x e h =
      let core = if r.requests.status_report then emit report_status x.core else x.core in
      let core1 = record core { rt = record (r.requests) { status_report = false } } in
      ground (arith, e, h core1)

module _ {F : Type 0} (ops : Coords F) (u : Setup F) where
  pub no_alarm :
      (x : Executor F) → x.core.exec_alarm ≡ 0 → exec_pending_alarm u x ≡ Ended.goes_on false x
  unfolding exec_pending_alarm
  no_alarm x h = ground (arith, h)

  reset_first :
      (x : Executor F)
      → x.core.rt.reset ≡ true
      → exec_requests ops u false x
        ≡ exec_reset_request ops u false (record x {
          core = record (x.core) { rt = no_request };
          reset_pending = x.core.rt.reset;
        })
  unfolding exec_requests
  reset_first x h = ground (arith, h)

  exec_reset_request_lem :
      (x : Executor F)
      → u.e_stop ≡ false
      → u.motor_fault ≡ false
      → exec_reset_request ops u false x
        ≡ returned false (record x {
          abort = true;
          core = record (x.core) {
            log = driver_reset ∷ (coolant_set_state 0 ∷ (spindle_all_off ∷ x.core.log));
          };
        })
  unfolding exec_reset_request reset_fault
  exec_reset_request_lem x e f = rw e (rw f refl)

  -- A reset, with no alarm pending and neither emergency stop nor motor fault signalled, whatever else
  -- is requested: spindle and coolant are switched off and then the driver is reset, and nothing else
  -- is called; the machine is to be aborted, all requests are gone, and the call returns false with
  -- the state machine and the overrides as they were.
  pub reset_kills :
      (x : Executor F)
      → x.core.exec_alarm ≡ 0
      → x.core.rt.reset ≡ true
      → u.e_stop ≡ false
      → u.motor_fault ≡ false
      → protocol_exec_rt_system ops u x
        ≡ result false (record x {
          abort = true;
          reset_pending = true;
          core = record (x.core) {
            rt = no_request;
            log = driver_reset ∷ (coolant_set_state 0 ∷ (spindle_all_off ∷ x.core.log));
          };
        })
  unfolding protocol_exec_rt_system after_alarm after_requests
  reset_kills x a r e f =
      let x1 = record x {
        core = record (x.core) { rt = no_request };
        reset_pending = x.core.rt.reset;
      } in
      ap (after_alarm ops u) (no_alarm x a)
      ∙ ap (after_requests ops u) (reset_first x r ∙ exec_reset_request_lem x1 e f)
      ∙ ap
          (λ b. result false (record x {
            abort = true;
            reset_pending = b;
            core = record (x.core) {
              rt = no_request;
              log = driver_reset ∷ (coolant_set_state 0 ∷ (spindle_all_off ∷ x.core.log));
            };
          }))
          r

  ends :
      (r : BlockRound F) (rounds : List (BlockRound F)) (x : Executor F)
      → (r.requests.reset && not r.signalled) ≡ true
      → await_reset (r ∷ rounds) x
        ≡ left
            (record x { core = record (x.core) { rt = r.requests; exec_alarm = 0 }; abort = true })
  unfolding await_reset
  ends r rounds x h = ground (arith, h)

  stays :
      (r : BlockRound F) (rounds : List (BlockRound F)) (x : Executor F)
      → (r.requests.reset && not r.signalled) ≡ false
      → await_reset (r ∷ rounds) x ≡ await_reset rounds (wait_round r x)
  unfolding await_reset
  stays r rounds x h = ground (arith, h)

  critical :
      (x : Executor F)
      → is_critical x.core.exec_alarm ≡ true
      → exec_pending_alarm u x
        ≡ enter_block u x.core.exec_alarm (raise_pending u x.core.exec_alarm x)
  unfolding exec_pending_alarm
  critical x c = ground (arith, c)

  await_reset_lem :
      (rounds : List (BlockRound F)) (x : Executor F)
      → AreQuiet rounds
      → let o = after_alarm ops u (await_reset rounds x) in
        let log = status_reports rounds ++ x.core.log in
        (is_released rounds ≡ true → IsAborted x log o)
        × (is_released rounds ≡ false → IsBlocked x log o)
  unfolding await_reset after_alarm
  await_reset_lem [] x q = (λ h. absurd (ground arith), λ h. (x.core.rt, (x.abort, refl)))
  await_reset_lem (r ∷ rounds) x (e, t, q) = elim (Bool-cases (releases r)) [
    | inl h ↦
        let g = ap (after_alarm ops u) (ends r rounds x h) in
        (λ p. (r.requests, g ∙ rw h refl), λ p. absurd (ground (arith, h)))
    | inr h ↦
        let asked : List (Effect F) = if r.requests.status_report then report_status ∷ [] else [] in
        let x1 = wait_round r x in
        let (a, b) = await_reset_lem rounds x1 q in
        let w = quiet_round r x e t in
        let g = ap (after_alarm ops u) (stays r rounds x h) in
        let l : status_reports rounds ++ (asked ++ x.core.log)
            ≡ status_reports (r ∷ rounds) ++ x.core.log =
          rw h (sym (append_assoc (status_reports rounds) asked x.core.log)) in
        (
          λ p.
              let (rt, c) = a (ground (arith, h)) in
              (
                rt,
                g
                    ∙ c
                    ∙ ap
                        (λ (y : Executor F). result false (
                          awaiting rt true (status_reports rounds ++ y.core.log)
                            (record y { core = record (y.core) { exec_alarm = 0 } })))
                        w
                    ∙ ap
                        (λ (k : List (Effect F)). result false (
                          awaiting rt true k
                            (record x { core = record (x.core) { exec_alarm = 0 } })))
                        l,
              ),
          λ p.
              let (rt, (abort, c)) = b (ground (arith, h)) in
              (
                rt,
                (
                  abort,
                  g
                      ∙ c
                      ∙ ap
                          (λ (y : Executor F).
                            blocked (awaiting rt abort (status_reports rounds ++ y.core.log) y))
                          w
                      ∙ ap (λ (k : List (Effect F)). blocked (awaiting rt abort k x)) l,
                ),
              ),
        )
  ]

  -- The machine with the critical alarm raised and told to the user, and the input dropped.
  abbrev pub told : Executor F → Executor F
  told x =
      let alarm = x.core.exec_alarm in
      let x1 = raise_pending u alarm x in
      record x1 {
        core = record (x1.core) {
          exec_alarm = alarm;
          rt = record (x1.core.rt) { reset = false };
          log = reset_read_buffer ∷ (critical_text alarm ∷ x1.core.log);
        };
        line = [];
      }

  -- With a critical alarm pending (a limit, the emergency stop or a motor fault), and with no character
  -- read and no task acting on the machine while it is blocked, the call returns just if a reset is
  -- requested while neither the emergency stop nor a motor fault is signalled: then it returns false,
  -- the machine is to be aborted and no alarm is left. Whether or not it returns, after the alarm has
  -- been raised and told to the user a status report is made for each round before the release that
  -- asks for one, nothing else is called, and but for the requests, the abort flag and the pending
  -- alarm everything stays as it was.
  pub critical_blocks :
      (x : Executor F)
      → is_critical x.core.exec_alarm ≡ true
      → AreQuiet u.rounds
      → let o = protocol_exec_rt_system ops u x in
        let log = status_reports u.rounds ++ (told x).core.log in
        (is_released u.rounds ≡ true → IsAborted (told x) log o)
        × (is_released u.rounds ≡ false → IsBlocked (told x) log o)
  unfolding protocol_exec_rt_system enter_block
  critical_blocks x c q =
      let e = ap (after_alarm ops u) (critical x c) in
      let (a, b) = await_reset_lem u.rounds (told x) q in
      (
        λ p. let (rt, d) = a p in (rt, e ∙ d),
        λ p. let (rt, (abort, d)) = b p in (rt, (abort, e ∙ d)),
      )
