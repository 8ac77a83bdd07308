-- ===== src/Sleep/Expiry.antt =====
-- When the machine is put to sleep.
use cnc_3d.Common.{
  ◌+◌, ◌-◌, ◌%◌, ◌≤◌, ◌≡◌, refl, ap, ◌∙◌, ◌⊎◌, arith, true, false, ◌||◌, ◌↔◌, inl, inr, Bool-cases,
  List, [], ◌∷◌,
}
use cnc_3d.System.{SysState, idle, hold, safety_door}
use cnc_3d.Sleep.{
  Round, still_waiting, expired, await_timer, Sleeper, sleep_execute, Watch, may_sleep, sleep_check,
}

-- A round without any sign of activity.
pub record IsQuiet (o : Round) : Type 0 where
  pub no_input : o.rx_changed ≡ false
  pub no_request : o.exec_pending ≡ false
  pub no_alarm : o.alarm_pending ≡ false

-- The timer runs out in a round, and no round up to then shows any activity.
pub data RunsOut : List Round → Type 0 where
  here : {o : Round} {rounds : List Round} → IsQuiet o → o.fell_asleep ≡ true → RunsOut (o ∷ rounds)
  later :
      {o : Round} {rounds : List Round}
      → IsQuiet o
      → o.fell_asleep ≡ false
      → RunsOut rounds
      → RunsOut (o ∷ rounds)

await_timer_complete : (rounds : List Round) → RunsOut rounds → await_timer rounds ≡ expired
unfolding await_timer
await_timer_complete [] r = elim r [ ]
await_timer_complete (o ∷ rounds) (here q f) = ground arith
await_timer_complete (o ∷ rounds) (later q f r) = ground (arith, await_timer_complete rounds r)

quiet : (o : Round) → (o.rx_changed || o.exec_pending || o.alarm_pending) ≡ false → IsQuiet o
quiet o h = ground arith

await_timer_sound : (rounds : List Round) → await_timer rounds ≡ expired → RunsOut rounds
unfolding await_timer
await_timer_sound [] h = absurd (ground arith)
await_timer_sound (o ∷ rounds) h = elim (Bool-cases o.fell_asleep) [
  | inl f ↦ here (quiet o (ground arith)) f
  | inr f ↦ later (quiet o (ground arith)) f (await_timer_sound rounds (ground arith))
]

-- The machine is idle, in a hold that is complete, or at rest with its door ajar.
abbrev AtRest : Watch → Type 0
AtRest w =
    (w.state ≡ idle)
    ⊎ (((w.state ≡ hold) × (w.hold_complete ≡ true))
        ⊎ ((w.state ≡ safety_door) × (w.door_ajar ≡ true)))

may_sleep-AtRest : (w : Watch) (s : SysState) → w.state ≡ s → may_sleep w s ≡ true → AtRest w
may_sleep-AtRest w idle e h = inl e
may_sleep-AtRest w hold e h = inr (inl (e, h))
may_sleep-AtRest w safety_door e h = inr (inr (e, h))
may_sleep-AtRest w _ e h = absurd (ground arith)

AtRest-may_sleep : (w : Watch) → AtRest w → may_sleep w w.state ≡ true
AtRest-may_sleep w (inl e) = ap (may_sleep w) e
AtRest-may_sleep w (inr (inl (e, h))) = ap (may_sleep w) e ∙ h
AtRest-may_sleep w (inr (inr (e, h))) = ap (may_sleep w) e ∙ h

-- The conditions under which a check waits for the timer.
pub record MaySleep (w : Watch) (s : Sleeper) : Type 0 where
  pub long_enough : 50 ≤ (w.ticks + 4294967296 - s.last_check) % 4294967296
  pub awake : s.slumber ≡ false
  pub energized : w.steppers_deenergize ≡ false
  pub silent : w.auto_reporting ≡ false
  pub powered : (w.spindle_on || w.coolant_on) ≡ true
  pub at_rest : AtRest w
  pub timer : w.task_ok ≡ true

-- A check requests sleep just if 50 ticks have passed since the last one, on a clock that wraps
-- round; spindle or coolant are on, the steppers stay energized, no automatic reports are made and
-- no other wait is underway; the machine is idle, in a completed hold, or at rest with its door ajar;
-- the timer could be started; and it runs out before any input, request or alarm shows.
pub sleep_check_lem :
    (w : Watch) (s : Sleeper)
    → s.exec_sleep ≡ false
    → ((sleep_check w s).exec_sleep ≡ true) ↔ (MaySleep w s × RunsOut w.rounds)
unfolding sleep_check sleep_execute
sleep_check_lem w s e = (
  λ h.
      let a : may_sleep w w.state ≡ true = ground (arith, h) in
      let r = may_sleep-AtRest w w.state refl a in
      (
        record {
          long_enough = ground (arith, h);
          awake = ground (arith, h);
          energized = ground (arith, h);
          silent = ground (arith, h);
          powered = ground (arith, h);
          at_rest = r;
          timer = ground (arith, h);
        },
        ground (arith, await_timer_sound w.rounds),
      ),
  λ (m, r). ground (arith, AtRest-may_sleep w m.at_rest, await_timer_complete w.rounds r),
)

-- A check that ends, because of activity or because the timer ran out or could not be started,
-- leaves no timer behind: if no wait was underway before it, none is after it.
pub sleep_check-slumber :
    (w : Watch) (s : Sleeper)
    → s.slumber ≡ false
    → s.scheduled ≡ false
    → (await_timer w.rounds ≡ still_waiting → ⊥)
    → let s' = sleep_check w s in (s'.slumber ≡ false) × (s'.scheduled ≡ false)
unfolding sleep_check sleep_execute
sleep_check-slumber w s a b n = ground arith
