-- ===== src/Sleep.antt =====
-- stm32_firmware/core-master/sleep.c: the timer that parks an idle machine.
pub mod Expiry
mod Examples
use cnc_3d.Common.{
  ℕ, ◌+◌, ◌-◌, ◌%◌, Bool, true, false, not, ◌&&◌, ◌||◌, List, [], ◌∷◌, ltb, if◌then◌else◌,
}
use cnc_3d.System.{SysState, idle, hold, safety_door}

-- What one round of the waiting loop sees after `on_execute_realtime`: input, realtime requests and
-- alarms, and whether the delayed task `fall_asleep` ran in it.
pub record Round : Type 0 where
  pub rx_changed : Bool
  pub exec_pending : Bool
  pub alarm_pending : Bool
  pub fell_asleep : Bool

-- How the loop ends; `still_waiting` when the rounds that are given do not end it.
pub data Wait : Type 0 where
  still_waiting woken expired : Wait

unfoldable pub await_timer : List Round → Wait
await_timer [] = still_waiting
await_timer (o ∷ rounds) =
    let later = await_timer rounds in
    if o.rx_changed || o.exec_pending || o.alarm_pending
    then woken
    else (if o.fell_asleep then expired else later)

-- `slumber`, `last_check`, whether EXEC_SLEEP is set, and whether the delayed task is scheduled.
pub record Sleeper : Type 0 where
  pub slumber : Bool
  pub last_check : ℕ
  pub exec_sleep : Bool
  pub scheduled : Bool

-- `task_ok` is the result of `task_add_delayed`.
unfoldable pub sleep_execute : Bool → List Round → Sleeper → Sleeper
sleep_execute task_ok rounds s =
    if task_ok then ended (await_timer rounds) else record s { slumber = false }
  where
    ended : Wait → Sleeper
    ended still_waiting = record s { slumber = true; scheduled = true }
    ended woken = record s { slumber = false; scheduled = false }
    ended expired = record s { slumber = false; scheduled = false; exec_sleep = true }

-- What `sleep_check` reads: the clock, twice, the outputs that are on, and the states.
pub record Watch : Type 0 where
  pub ticks : ℕ
  pub ticks_after : ℕ
  pub steppers_deenergize : Bool
  pub auto_reporting : Bool
  pub spindle_on : Bool
  pub coolant_on : Bool
  pub state : SysState
  pub hold_complete : Bool
  pub door_ajar : Bool
  pub task_ok : Bool
  pub rounds : List Round

-- The `switch` over the states.
abbrev pub may_sleep : Watch → SysState → Bool
may_sleep w idle = true
may_sleep w hold = w.hold_complete
may_sleep w safety_door = w.door_ajar
may_sleep w _ = false

unfoldable pub sleep_check : Watch → Sleeper → Sleeper
sleep_check w s =
    if ltb ((w.ticks + 4294967296 - s.last_check) % 4294967296) 50
    then s
    else (let s1 = record s { last_check = w.ticks_after } in
        if not (s1.slumber || w.steppers_deenergize || w.auto_reporting)
          && (w.spindle_on || w.coolant_on)
        then (if may_sleep w w.state then sleep_execute w.task_ok w.rounds s1 else s1)
        else s1)
