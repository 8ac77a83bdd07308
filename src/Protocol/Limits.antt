-- ===== src/Protocol/Limits.antt =====
-- What the feed overrides come to: rates that stay in their bounds.
use Prim.Native.Nat.{min, max}
use cnc_3d.Common.{
  ℕ, ◌+◌, ◌-◌, ◌<◌, ◌≤◌, ◌≡◌, refl, arith, true, false, List, [], ◌∷◌, ◌==◌, if◌then◌else◌,
}
use cnc_3d.Override.Valid.{AllValid}
use cnc_3d.Override.Refine.{view}
use cnc_3d.Override.Queue.{feed}
use cnc_3d.System.{
  feed_reset, feed_coarse_plus, feed_coarse_minus, feed_fine_plus, feed_fine_minus, rapid_reset,
  rapid_medium, rapid_low,
}
use cnc_3d.Protocol.Line.{is_empty}
use cnc_3d.Protocol.Overrides.{
  Env, Machine, Rates, Event, feed_rate_changed, update_velocities, report_overrides, feed_command,
  feed_step, plan_feed_override, exec_feed_overrides,
}
use cnc_3d.Protocol.Drain.{with_queue, NoZero, run_all, drain_all_lem}

-- A percentage that stops at 10 and at 200 instead of wrapping round.
abbrev pub up : ℕ → ℕ → ℕ
up d v = min 200 (v + d)

abbrev pub down : ℕ → ℕ → ℕ
down d v = max 10 (v - d)

-- What the user means by a command.
abbrev pub feed_meaning : ℕ → ℕ → ℕ
feed_meaning c v =
    if c == feed_reset
    then 100
    else (if c == feed_coarse_plus
        then up 10 v
        else (if c == feed_coarse_minus
            then down 10 v
            else (if c == feed_fine_plus
                then up 1 v
                else (if c == feed_fine_minus then down 1 v else v))))

abbrev pub rapid_meaning : ℕ → ℕ → ℕ
rapid_meaning c v =
    if c == rapid_reset
    then 100
    else (if c == rapid_medium then 50 else (if c == rapid_low then 25 else v))

abbrev pub InRange : ℕ → ℕ → ℕ → Type 0
InRange low high v = (low ≤ v) × (v ≤ high)

pub record InBounds (r : Rates) : Type 0 where
  pub feed_in : InRange 10 200 r.feed_rate
  pub rapid_in : InRange 5 100 r.rapid_rate

abbrev pub both_meanings : ℕ → Rates → Rates
both_meanings c r = record {
  feed_rate = feed_meaning c r.feed_rate;
  rapid_rate = rapid_meaning c r.rapid_rate;
}

feed_step_lem : (c : ℕ) (r : Rates) → InBounds r → feed_step c r ≡ both_meanings c r
unfolding feed_step feed_command
feed_step_lem c r h = ground arith

both_meanings-InBounds : (c : ℕ) (r : Rates) → InBounds r → InBounds (both_meanings c r)
both_meanings-InBounds c r h = ground arith

run_all-feed :
    (l : List ℕ) (r : Rates)
    → InBounds r
    → (run_all feed_step l r ≡ run_all both_meanings l r) × InBounds (run_all both_meanings l r)
run_all-feed [] r h = (refl, h)
run_all-feed (c ∷ l) r h =
    ground (
      arith,
      feed_step_lem c r h,
      run_all-feed l (both_meanings c r) (both_meanings-InBounds c r h),
    )

plan_feed_override_lem :
    (new old : Rates) (log : List Event)
    → InBounds new
    → (plan_feed_override false new old log).0 ≡ new
unfolding plan_feed_override
plan_feed_override_lem new old log h = ground arith

run_all-empty :
    {S : Type 0} (step : ℕ → S → S) (l : List ℕ) (s : S) → is_empty l ≡ true → run_all step l s ≡ s
run_all-empty step [] s h = refl
run_all-empty step (c ∷ l) s h = absurd (cc)

-- From rates in bounds and rings that are valid and hold no byte 0, with feed overrides enabled and
-- not delayed, every feed override that waits takes effect in the order of arrival as the user means
-- it: a rate goes up and down but stops at 10 and 200 percent instead of wrapping round. The rates
-- stay in bounds, the ring is left empty and the other rings as they were. Fuel for 15 commands is
-- enough.
pub exec_feed_overrides_lem :
    (fuel : ℕ) (v : Env) (m : Machine)
    → AllValid m.buffers
    → NoZero (view m.buffers).of_feed
    → InBounds m.rates
    → 15 < fuel
    → v.feed_delay ≡ false
    → v.feed_rates_disable ≡ false
    → let m' = exec_feed_overrides fuel v m in
      (m'.rates ≡ run_all both_meanings (view m.buffers).of_feed m.rates)
      × InBounds m'.rates
      × (view m'.buffers ≡ with_queue feed [] (view m.buffers))
      × AllValid m'.buffers
unfolding exec_feed_overrides
exec_feed_overrides_lem fuel v m ok z h f d e =
    let waiting = (view m.buffers).of_feed in
    let new = run_all both_meanings waiting m.rates in
    let all = run_all-feed waiting m.rates h in
    ground (
      arith,
      drain_all_lem feed feed_step fuel m.rates m.buffers ok z f,
      all,
      plan_feed_override_lem new m.rates m.log all.1,
      run_all-empty both_meanings waiting m.rates,
    )

-- When both rates change at once, no subscriber hears of the rapid rate: both rates are set, and
-- `on_override_changed` is called for the feed rate only.
pub plan_feed_override_unreported :
    (new old : Rates) (log : List Event)
    → InBounds new
    → (new.feed_rate == old.feed_rate) ≡ false
    → (new.rapid_rate == old.rapid_rate) ≡ false
    → plan_feed_override false new old log
      ≡ (new, feed_rate_changed ∷ (update_velocities ∷ (report_overrides ∷ log)))
unfolding plan_feed_override
plan_feed_override_unreported new old log h p q = ground arith
