-- ===== src/Sleep/Examples.antt =====
-- A concrete wait: the third round is the timer's.
use cnc_3d.Common.{◌≡◌, refl, arith, true, false, ◌↔◌, [], ◌∷◌}
use cnc_3d.System.{hold}
use cnc_3d.Sleep.{Round, Sleeper, Watch, await_timer, still_waiting, sleep_check}
use cnc_3d.Sleep.Expiry.{MaySleep, RunsOut, sleep_check_lem}

abbrev nothing_seen : Round
nothing_seen = record {
  rx_changed = false;
  exec_pending = false;
  alarm_pending = false;
  fell_asleep = false;
}

abbrev watch : Watch
watch = record {
  ticks = 10;
  ticks_after = 11;
  steppers_deenergize = false;
  auto_reporting = false;
  spindle_on = true;
  coolant_on = false;
  state = hold;
  hold_complete = true;
  door_ajar = false;
  task_ok = true;
  rounds = nothing_seen ∷ (nothing_seen ∷ (record nothing_seen { fell_asleep = true } ∷ []));
}

abbrev sleeper : Sleeper
sleeper = record { slumber = false; last_check = 4294967200; exec_sleep = false; scheduled = false }

sleep_check_lem_example :
    ((sleep_check watch sleeper).exec_sleep ≡ true)
    ↔ (MaySleep watch sleeper × RunsOut watch.rounds)
sleep_check_lem_example = sleep_check_lem watch sleeper refl

ends : await_timer watch.rounds ≡ still_waiting → ⊥
unfolding await_timer
ends e = ground arith
