-- ===== src/Protocol/Overrides.antt =====
-- protocol.c: the last part of `protocol_exec_rt_system`, which executes the override commands that
-- wait in the rings, and `plan_feed_override` of planner.c.
use cnc_3d.Common.{
  ℕ, zero, suc, ◌+◌, ◌-◌, ◌%◌, Bool, true, false, not, ◌&&◌, ◌||◌, List, ◌∷◌, ◌==◌, ltb,
  if◌then◌else◌,
}
use cnc_3d.Override.{OverrideBuffers, apply_op}
use cnc_3d.Override.Queue.{Kind, feed, spindle, coolant, get}
use cnc_3d.System.{
  SysState, is_hold, is_idle_cycle_or_hold, SpindleStop, any_stop, feed_reset, feed_coarse_plus,
  feed_coarse_minus, feed_fine_plus, feed_fine_minus, rapid_reset, rapid_medium, rapid_low,
  spindle_reset, spindle_coarse_plus, spindle_coarse_minus, spindle_fine_plus, spindle_fine_minus,
  spindle_stop, coolant_flood_toggle, coolant_mist_toggle,
}

-- `override_t` is `uint_fast16_t`, a word of 32 bits on this processor.
abbrev pub add_word : ℕ → ℕ → ℕ
add_word a b = (a + b) % 4294967296

abbrev pub sub_word : ℕ → ℕ → ℕ
sub_word a b = (a + 4294967296 - b) % 4294967296

abbrev pub constrain : ℕ → ℕ → ℕ → ℕ
constrain v low high = if ltb v low then low else (if ltb high v then high else v)

-- What the execution calls or reports, the latest first: the report of overrides, the
-- recalculation of the planned velocities, `on_override_changed`, `on_unknown_accessory_override`,
-- `spindle_set_override` and `gc_coolant`.
pub data Event : Type 0 where
  report_overrides update_velocities : Event
  feed_rate_changed rapid_rate_changed coolant_changed : Event
  unknown_override : ℕ → Event
  set_spindle_override : ℕ → Event
  gc_coolant : Bool → Bool → Event

-- `sys.override.feed_rate` and `sys.override.rapid_rate`
pub record Rates : Type 0 where
  pub feed_rate : ℕ
  pub rapid_rate : ℕ

-- The `switch` of the feed overrides.
unfoldable pub feed_command : ℕ → Rates → Rates
feed_command c r =
    if c == feed_reset
    then record r { feed_rate = 100 }
    else (if c == feed_coarse_plus
        then record r { feed_rate = add_word r.feed_rate 10 }
        else (if c == feed_coarse_minus
            then record r { feed_rate = sub_word r.feed_rate 10 }
            else (if c == feed_fine_plus
                then record r { feed_rate = add_word r.feed_rate 1 }
                else (if c == feed_fine_minus
                    then record r { feed_rate = sub_word r.feed_rate 1 }
                    else (if c == rapid_reset
                        then record r { rapid_rate = 100 }
                        else (if c == rapid_medium
                            then record r { rapid_rate = 50 }
                            else (if c == rapid_low then record r { rapid_rate = 25 } else r)))))))

unfoldable pub feed_step : ℕ → Rates → Rates
unfolding feed_command
feed_step c r = let r' = feed_command c r in record r' { feed_rate = constrain r'.feed_rate 10 200 }

-- The variables of the spindle's loop.
pub record SpindleOverride : Type 0 where
  pub last_s_override : ℕ
  pub stop : Bool
  pub unknown : List Event

unfoldable pub spindle_command : ℕ → SpindleOverride → SpindleOverride
spindle_command c s =
    if c == spindle_reset
    then record s { last_s_override = 100 }
    else (if c == spindle_coarse_plus
        then record s { last_s_override = add_word s.last_s_override 10 }
        else (if c == spindle_coarse_minus
            then record s { last_s_override = sub_word s.last_s_override 10 }
            else (if c == spindle_fine_plus
                then record s { last_s_override = add_word s.last_s_override 1 }
                else (if c == spindle_fine_minus
                    then record s { last_s_override = sub_word s.last_s_override 1 }
                    else (if c == spindle_stop
                        then record s { stop = not s.stop }
                        else record s { unknown = unknown_override c ∷ s.unknown })))))

unfoldable pub spindle_step : ℕ → SpindleOverride → SpindleOverride
unfolding spindle_command
spindle_step c s =
    let s' = spindle_command c s in
    record s' { last_s_override = constrain s'.last_s_override 10 200 }

-- `coolant_state_t`; nothing here touches its other bits.
pub record Coolant : Type 0 where
  pub flood : Bool
  pub mist : Bool

pub record CoolantOverride : Type 0 where
  pub coolant : Coolant
  pub unknown : List Event

-- What the overrides read: `sys.override_delay`, `sys.override.control.feed_rates_disable`,
-- `state_get()`, `gc_spindle_get(-1)->state.on` and `hal.coolant_cap`.
pub record Env : Type 0 where
  pub feed_delay : Bool
  pub spindle_delay : Bool
  pub coolant_delay : Bool
  pub feed_rates_disable : Bool
  pub state : SysState
  pub spindle_on : Bool
  pub has_mist : Bool
  pub has_flood : Bool

unfoldable pub coolant_step : Env → ℕ → CoolantOverride → CoolantOverride
coolant_step v c s =
    if c == coolant_mist_toggle
    then (if v.has_mist && is_idle_cycle_or_hold v.state
        then record s { coolant = record (s.coolant) { mist = not s.coolant.mist } }
        else s)
    else (if c == coolant_flood_toggle
        then (if v.has_flood && is_idle_cycle_or_hold v.state
            then record s { coolant = record (s.coolant) { flood = not s.coolant.flood } }
            else s)
        else record s { unknown = unknown_override c ∷ s.unknown })

-- `do { … } while((rt_exec = get_feed_override()))`, and the same for the other kinds, on fuel;
-- `rt_exec` is the command taken out last. `apply_op b k get` is the get function of kind `k`. The
-- interrupt puts nothing in while the loop runs.
unfoldable pub drain :
    {S : Type 0} → Kind → (ℕ → S → S) → ℕ → ℕ → S → OverrideBuffers → S × OverrideBuffers
drain k step zero rt_exec s b = (s, b)
drain k step (suc fuel) rt_exec s b =
    let s1 = step rt_exec s in
    let (next, b1) = apply_op b k get in
    let rest = drain k step fuel next s1 b1 in if next == 0 then (s1, b1) else rest

-- `if((rt_exec = get_feed_override())) { … }`: the loop, and `none` of it if nothing waits.
unfoldable pub drain_all :
    {S : Type 0} → Kind → (ℕ → S → S) → ℕ → S → OverrideBuffers → Bool × S × OverrideBuffers
drain_all k step fuel s b =
    let (first, b1) = apply_op b k get in
    let r = drain k step fuel first s b1 in if first == 0 then (false, s, b1) else (true, r.0, r.1)

-- `plan_feed_override`: what `sys.override` then holds, and the events. A change of the feed rate
-- keeps the test of the rapid rate from being made.
unfoldable pub plan_feed_override : Bool → Rates → Rates → List Event → Rates × List Event
plan_feed_override disabled new old log =
    let feed_override =
      if new.feed_rate == 0 then old.feed_rate else constrain new.feed_rate 10 200 in
    let rapid_override =
      if new.rapid_rate == 0 then old.rapid_rate else constrain new.rapid_rate 5 100 in
    let feed_changed = not (feed_override == old.feed_rate) in
    let rapid_changed = not feed_changed && not (rapid_override == old.rapid_rate) in
    if disabled
    then (old, log)
    else (if feed_changed || rapid_changed
        then (
          record { feed_rate = feed_override; rapid_rate = rapid_override },
          (if rapid_changed then rapid_rate_changed else feed_rate_changed)
              ∷ (update_velocities ∷ (report_overrides ∷ log)),
        )
        else (old, log))

-- The part of the machine's state that the overrides change.
pub record Machine : Type 0 where
  pub buffers : OverrideBuffers
  pub rates : Rates
  pub override_pct : ℕ
  pub stop : SpindleStop
  pub coolant : Coolant
  pub log : List Event

unfoldable pub exec_feed_overrides : ℕ → Env → Machine → Machine
exec_feed_overrides fuel v m =
    let (any, new, b) = drain_all feed feed_step fuel m.rates m.buffers in
    let (rates, log) = plan_feed_override v.feed_rates_disable new m.rates m.log in
    if v.feed_delay
    then m
    else (if any
        then record m { buffers = b; rates = rates; log = log }
        else record m { buffers = b })

-- The request to stop or restart the spindle, granted in a hold only.
unfoldable pub request_stop : Env → Bool → SpindleStop → SpindleStop
request_stop v stop s =
    if stop && is_hold v.state && v.spindle_on
    then (if any_stop s
        then (if s.enabled then record s { restore = true } else s)
        else record s { initiate = true })
    else s

unfoldable pub exec_spindle_overrides : ℕ → Env → Machine → Machine
exec_spindle_overrides fuel v m =
    let start : SpindleOverride = record {
      last_s_override = m.override_pct;
      stop = false;
      unknown = m.log;
    } in
    let (any, s, b) = drain_all spindle spindle_step fuel start m.buffers in
    if v.spindle_delay
    then m
    else (if any
        then record m {
          buffers = b;
          stop = request_stop v s.stop m.stop;
          log = set_spindle_override s.last_s_override ∷ s.unknown;
        }
        else record m { buffers = b })

abbrev same_flag : Bool → Bool → Bool
same_flag a b = if a then b else not b

abbrev pub same_coolant : Coolant → Coolant → Bool
same_coolant a b = same_flag a.flood b.flood && same_flag a.mist b.mist

unfoldable pub exec_coolant_overrides : ℕ → Env → Machine → Machine
exec_coolant_overrides fuel v m =
    let start : CoolantOverride = record { coolant = m.coolant; unknown = m.log } in
    let (any, s, b) = drain_all coolant (coolant_step v) fuel start m.buffers in
    if v.coolant_delay
    then m
    else (if any
        then record m {
          buffers = b;
          log =
              if same_coolant s.coolant m.coolant
              then s.unknown
              else coolant_changed ∷ (gc_coolant s.coolant.flood s.coolant.mist ∷ s.unknown);
        }
        else record m { buffers = b })

unfoldable pub exec_overrides : ℕ → Env → Machine → Machine
exec_overrides fuel v m =
    exec_coolant_overrides fuel v (exec_spindle_overrides fuel v (exec_feed_overrides fuel v m))
