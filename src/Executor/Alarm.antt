-- ===== src/Executor/Alarm.antt =====
-- protocol.c: the pending alarm, the loop that a critical event ends in, and `protocol_poll_cmd`,
-- which reads system commands while the machine is blocked.
use cnc_3d.Common.{
  Bool, true, false, not, ◌&&◌, ℕ, ◌-◌, ◌==◌, leb, List, [], ◌∷◌, ◌++◌, length, none, some,
  if◌then◌else◌,
}
use cnc_3d.StateMachine.Types.{
  is_critical, Effect, spindle_all_off, coolant_set_state, driver_reset, e_stop_message,
  motor_fault_message, critical_message, reset_read_buffer, report_status, status_message, Core,
}
use cnc_3d.StateMachine.Simple.{emit, system_raise_alarm}
use cnc_3d.Protocol.Line.{line_buffer_size, is_eol, is_erase, is_empty, drop_last, starts_with}
use cnc_3d.Executor.Types.{Executor, BlockRound, Setup}

-- Status_SystemGClock
abbrev status_system_gclock : ℕ
status_system_gclock = 9

abbrev pub is_system_line : List ℕ → Bool
is_system_line line = starts_with b'$' line

-- A character within a line.
unfoldable pub add_char : ℕ → List ℕ → List ℕ
add_char c line =
    if is_erase c
    then (if is_empty line then line else drop_last line)
    else (if (if is_empty line
          then not (c == b' ')
          else not (leb (line_buffer_size - 1) (length line)))
        then line ++ (c ∷ [])
        else line)

-- How the part on alarms ends; `goes_on` with whether outputs are already off.
pub data Ended (F : Type 0) : Type 0 where
  still_blocked left : Executor F → Ended F
  goes_on : (killed : Bool) → Executor F → Ended F

module _ {F : Type 0} where
  -- Spindle and coolant off.
  abbrev pub kill : Core F → Core F
  kill m = emit (coolant_set_state 0) (emit spindle_all_off m)

  abbrev pub critical_text : ℕ → Effect F
  critical_text a =
      if a == 10
      then e_stop_message
      else (if a == 17 then motor_fault_message else critical_message)

  abbrev pub run_line : BlockRound F → List ℕ → Core F → ℕ × Core F
  run_line r line m =
      if is_system_line line
      then r.system_execute_line line m
      else ((if is_empty line then 0 else status_system_gclock), m)

  -- The end of a line: only a system command is executed.
  unfoldable pub end_line : BlockRound F → Executor F → Executor F
  end_line r x =
      let (status, core) = run_line r x.line x.core in
      record x { core = emit (status_message status) core; last_error = status; line = [] }

  unfoldable pub poll_char : BlockRound F → ℕ → Executor F → Executor F
  poll_char r c x =
      let x1 = if is_eol c then end_line r x else record x { line = add_char c x.line } in
      record x1 { keep_rt_commands = is_system_line x1.line }

  unfoldable pub protocol_poll_cmd : BlockRound F → Executor F → Executor F
  protocol_poll_cmd r x = elim r.received [ none ↦ x | some c ↦ poll_char r c x ]

  -- A round that does not end the loop: the status report that is asked for, the character that is
  -- read, and the functions on `on_execute_realtime`.
  unfoldable pub wait_round : BlockRound F → Executor F → Executor F
  wait_round r x =
      let core = if r.requests.status_report then emit report_status x.core else x.core in
      let x1 = protocol_poll_cmd r (record x {
        core = record core { rt = record (r.requests) { status_report = false } };
        abort = r.requests.reset;
      }) in
      record x1 { core = r.on_execute_realtime x1.core }

  -- The loop ends once reset is requested and nothing is signalled.
  unfoldable pub await_reset : List (BlockRound F) → Executor F → Ended F
  await_reset [] x = still_blocked x
  await_reset (r ∷ rounds) x =
      let later = await_reset rounds (wait_round r x) in
      if r.requests.reset && not r.signalled
      then left
          (record x { core = record (x.core) { rt = r.requests; exec_alarm = 0 }; abort = true })
      else later

module _ {F : Type 0} (u : Setup F) where
  unfoldable pub enter_block : ℕ → Executor F → Ended F
  enter_block alarm x =
      let core =
        emit reset_read_buffer
          (emit (critical_text alarm) (record (x.core) { exec_alarm = alarm })) in
      await_reset u.rounds
        (record x { core = record core { rt = record (core.rt) { reset = false } }; line = [] })

  -- An alarm is raised; a reset that is requested as well switches the outputs off before.
  unfoldable pub raise_pending : ℕ → Executor F → Executor F
  raise_pending alarm x =
      let killed = x.core.rt.reset in
      let core = record (x.core) { exec_alarm = 0 } in
      let core1 = system_raise_alarm u.world alarm (if killed then kill core else core) in
      record x {
        reset_pending = killed;
        core = record (if killed then emit driver_reset core1 else core1) {
          blocking_event = is_critical alarm;
        };
      }

  unfoldable pub exec_pending_alarm : Executor F → Ended F
  exec_pending_alarm x =
      let alarm = x.core.exec_alarm in
      let x1 = raise_pending alarm x in
      if alarm == 0
      then goes_on false x
      else (if is_critical alarm then enter_block alarm x1 else goes_on x.core.rt.reset x1)
