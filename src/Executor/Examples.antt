-- ===== src/Executor/Examples.antt =====
-- A machine at rest, with requests and alarms pending.
use cnc_3d.Common.{List, ℕ, ◌≡◌, refl, true, false, [], ◌∷◌, ◌++◌, none}
use cnc_3d.System.{idle, safety_door}
use cnc_3d.Override.{OverrideQueue}
use cnc_3d.StateMachine.Types.{
  no_request, await_resume, spindle_all_off, coolant_set_state, driver_reset,
}
use cnc_3d.StateMachine.Parking.{no_stop}
use cnc_3d.StateMachine.Reach.{over}
use cnc_3d.StateMachine.Examples.{natural, waiting, shop}
use cnc_3d.Executor.{result, protocol_exec_rt_system}
use cnc_3d.Executor.Types.{Executor, BlockRound, Setup}
use cnc_3d.Sleep.{Watch}
use cnc_3d.Executor.Suspend.{SuspendRound, Suspended}
use cnc_3d.Executor.Reset.{
  is_released, IsAborted, IsBlocked, status_reports, told, reset_kills, critical_blocks,
}

abbrev ring : OverrideQueue
ring = record { head = 0; tail = 0; buf = [] }

abbrev resting : Executor ℕ
resting = record {
  core = waiting;
  over = record {
    buffers = record { feed_queue = ring; spindle_queue = ring; coolant_queue = ring };
    rates = record { feed_rate = 100; rapid_rate = 100 };
    override_pct = 100;
    stop = no_stop;
    coolant = record { flood = false; mist = false };
    log = [];
  };
  env = record {
    feed_delay = false;
    spindle_delay = false;
    coolant_delay = false;
    feed_rates_disable = false;
    state = idle;
    spindle_on = false;
    has_mist = true;
    has_flood = true;
  };
  reset_pending = false;
  abort = false;
  cancel = false;
  keep_input = false;
  position_lost = false;
  line = [];
  keep_rt_commands = false;
  last_error = 0;
}

-- No character is read, and no task changes the machine.
abbrev quiet_round : BlockRound ℕ
quiet_round = record {
  requests = no_request;
  signalled = false;
  received = none;
  system_execute_line = λ line m. (0, m);
  on_execute_realtime = λ m. m;
}

-- The second round of the wait ends it.
abbrev setup : Setup ℕ
setup = record {
  world = shop;
  stopped = shop;
  rounds =
      record quiet_round { signalled = true }
      ∷ (record quiet_round { requests = record no_request { reset = true } } ∷ []);
  e_stop = false;
  motor_fault = false;
  cancels_input = true;
  is_stepping = true;
  stepping = 2;
  meanwhile = no_request;
  modal_feed_hold_disable = false;
  modal_sync = false;
  modal_parking_disable = false;
}

abbrev reset_requested : Executor ℕ
reset_requested = record resting {
  core = record waiting { rt = record no_request { reset = true; stop = true } };
}

-- The emergency stop.
abbrev alarmed : Executor ℕ
alarmed = record resting { core = record waiting { exec_alarm = 10 } }

reset_kills_example :
    protocol_exec_rt_system natural setup reset_requested
    ≡ result false (record resting {
      abort = true;
      reset_pending = true;
      core = record waiting { log = driver_reset ∷ (coolant_set_state 0 ∷ (spindle_all_off ∷ [])) };
    })
reset_kills_example = reset_kills natural setup reset_requested refl refl refl refl

critical_blocks_example :
    let o = protocol_exec_rt_system natural setup alarmed in
    let log = status_reports setup.rounds ++ (told natural setup alarmed).core.log in
    (is_released setup.rounds ≡ true → IsAborted (told natural setup alarmed) log o)
    × (is_released setup.rounds ≡ false → IsBlocked (told natural setup alarmed) log o)
critical_blocks_example =
    critical_blocks natural setup alarmed refl (refl, λ n. refl, (refl, λ n. refl, tt))

-- The machine waits with its door open; a cycle start, a hold and a report are requested.
abbrev door_open : Executor ℕ
door_open = record resting {
  core = record waiting {
    sys_state = safety_door;
    handler = await_resume;
    rt = record no_request { cycle_start = true; feed_hold = true; status_report = true };
  };
}

abbrev watch : Watch
watch = record {
  ticks = 100;
  ticks_after = 101;
  steppers_deenergize = false;
  auto_reporting = false;
  spindle_on = true;
  coolant_on = false;
  state = idle;
  hold_complete = false;
  door_ajar = false;
  task_ok = true;
  rounds =
      record { rx_changed = false; exec_pending = false; alarm_pending = false; fell_asleep = true }
      ∷ [];
}

-- Two rounds; the sleep timer runs out in the first.
abbrev two_rounds : List (SuspendRound ℕ)
two_rounds =
    record { setup = setup; watch = watch; sleep_enable = true; input = quiet_round }
    ∷ (record { setup = setup; watch = watch; sleep_enable = false; input = quiet_round } ∷ [])

abbrev suspended : Suspended ℕ
suspended = record {
  machine = record door_open {
    core = record (door_open.core) { suspend = true; parking_state = 1 };
  };
  sleeper = record { slumber = false; last_check = 0; exec_sleep = false; scheduled = false };
}
