-- ===== src/Executor/Suspend.antt =====
-- protocol.c: `protocol_exec_rt_suspend`, the loop that the machine stays in while it is suspended.
use cnc_3d.Common.{Bool, true, not, ◌&&◌, ◌||◌, ◌==◌, List, [], ◌∷◌, ℕ, if◌then◌else◌}
use cnc_3d.System.{sleep, same_state, is_safety_door}
use cnc_3d.Sleep.{Watch, Sleeper, sleep_check}
use cnc_3d.StateMachine.Types.{reset_read_buffer, parking_door_ajar, hold_complete, Core, Coords}
use cnc_3d.StateMachine.Simple.{emit}
use cnc_3d.StateMachine.Update.{state_suspend_manager}
use cnc_3d.StateMachine.Reach.{Nested, Steps}
use cnc_3d.Executor.Types.{Executor, BlockRound, Setup}
use cnc_3d.Executor.Alarm.{protocol_poll_cmd}
use cnc_3d.Executor.{Result, blocked, result, protocol_exec_rt_system}

pub record Suspended (F : Type 0) : Type 0 where
  pub machine : Executor F
  pub sleeper : Sleeper

-- What one round sees, `watch` with the parts of the clock and the outputs, `input` with the
-- character that is read while the machine is blocked.
pub record SuspendRound (F : Type 0) : Type 0 where
  pub setup : Setup F
  pub watch : Watch
  pub sleep_enable : Bool
  pub input : BlockRound F

-- How the loop ends: `stuck` within a critical event, `waiting` if the rounds given do not end it.
pub data SuspendEnd (F : Type 0) : Type 0 where
  finished stuck waiting : Suspended F → SuspendEnd F

abbrev pub core_of_end : {F : Type 0} → SuspendEnd F → Core F
core_of_end (finished s) = s.machine.core
core_of_end (stuck s) = s.machine.core
core_of_end (waiting s) = s.machine.core

module _ {F : Type 0} (ops : Coords F) where
  abbrev pub is_over : Suspended F → Bool
  is_over s = not s.machine.core.suspend || s.machine.abort

  -- A closed door is reported again and again until the machine resumes.
  abbrev pub note_door : Bool → Core F → Core F
  note_door door_ajar m =
      if is_safety_door m.sys_state && not door_ajar
      then record m { rt = record (m.rt) { door_closed = true } }
      else m

  -- What the sleep check reads of the machine.
  abbrev pub watch_of : Watch → Core F → Watch
  watch_of w m = record w {
    state = m.sys_state;
    steppers_deenergize = m.steppers_deenergize;
    hold_complete = m.holding_state == hold_complete;
    door_ajar = m.parking_state == parking_door_ajar;
  }

  unfoldable pub check_sleep : SuspendRound F → Sleeper → Core F → Sleeper × Core F
  check_sleep r sleeper m =
      let s = sleep_check (watch_of r.watch m) (record sleeper { exec_sleep = m.rt.sleep }) in
      if r.sleep_enable
      then (s, record m { rt = record (m.rt) { sleep = s.exec_sleep } })
      else (sleeper, m)

  -- One round up to the realtime executor.
  unfoldable pub prepare_round : SuspendRound F → Suspended F → Suspended F
  prepare_round r s =
      let x =
        if s.machine.core.blocking_event then protocol_poll_cmd r.input s.machine else s.machine in
      let m = note_door r.setup.world.door_ajar (state_suspend_manager ops r.setup.world x.core) in
      let (sleeper, m1) = check_sleep r s.sleeper m in
      record { machine = record x { core = m1 }; sleeper = sleeper }

  unfoldable pub after_round : (Suspended F → SuspendEnd F) → Sleeper → Result F → SuspendEnd F
  after_round later sleeper (blocked x) = stuck (record { machine = x; sleeper = sleeper })
  after_round later sleeper (result v x) = later (record { machine = x; sleeper = sleeper })

  unfoldable pub suspend_loop : List (SuspendRound F) → Suspended F → SuspendEnd F
  suspend_loop [] s = if is_over s then finished s else waiting s
  suspend_loop (r ∷ rounds) s =
      let s1 = prepare_round r s in
      let o =
        after_round (λ (q : Suspended F). suspend_loop rounds q) s1.sleeper
          (protocol_exec_rt_system ops r.setup s1.machine) in
      if is_over s then finished s else o

  -- Input that waits is dropped when the machine sleeps.
  unfoldable pub protocol_exec_rt_suspend : List (SuspendRound F) → Suspended F → SuspendEnd F
  protocol_exec_rt_suspend rounds s =
      let m = s.machine.core in
      let sleeping = same_state m.sys_state sleep in
      let m1 = record m { blocking_event = sleeping } in
      suspend_loop rounds (record s {
        machine = record (s.machine) { core = if sleeping then emit reset_read_buffer m1 else m1 };
      })

  -- Whatever a round executes besides are calls of the state machine and of what it shares.
  abbrev pub DoSteps : List (BlockRound F) → Type 0
  DoSteps [] = Unit
  DoSteps (r ∷ rounds) =
      ((line : List ℕ) (n : Core F) → Steps ops n (r.system_execute_line line n).1)
      × ((n : Core F) → Steps ops n (r.on_execute_realtime n))
      × DoSteps rounds

  -- In all the waits of restored outputs, no nested call locks the machine; system commands and tasks
  -- call the state machine in any way.
  abbrev pub AreCalm : List (SuspendRound F) → Type 0
  AreCalm [] = Unit
  AreCalm (r ∷ rounds) =
      ((n : Core F) → Nested ops n (r.setup.world.delay n))
      × ((n : Core F) → Nested ops n (r.setup.stopped.delay n))
      × DoSteps r.setup.rounds
      × DoSteps (r.input ∷ [])
      × AreCalm rounds
