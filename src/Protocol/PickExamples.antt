-- ===== src/Protocol/PickExamples.antt =====
-- Concrete rings and characters for the theorems on realtime commands and overrides.
use cnc_3d.Common.{
  ℕ, ◌≡◌, refl, arith, Bool, true, false, not, ◌&&◌, ◌||◌, none, [], ◌∷◌, ◌==◌, if◌then◌else◌,
  replicate,
}
use cnc_3d.Override.{OverrideQueue, OverrideBuffers}
use cnc_3d.Override.Queue.{feed}
use cnc_3d.Override.Valid.{IsValid, AllValid}
use cnc_3d.Override.Refine.{view}
use cnc_3d.System.{hold}
use cnc_3d.Protocol.Overrides.{Env, Machine, exec_feed_overrides, exec_overrides}
use cnc_3d.Protocol.Drain.{with_queue, run_all}
use cnc_3d.Protocol.Limits.{InBounds, both_meanings, exec_feed_overrides_lem}
use cnc_3d.Protocol.Realtime.{Setup, Picker, protocol_enqueue_realtime_command}
use cnc_3d.Protocol.Picked.{is_legacy_command, printable_kept}
use cnc_3d.Protocol.Emptied.{exec_overrides_lem}
use cnc_3d.Protocol.Routing.{NoZeros, routed_queues, protocol_enqueue_realtime_command_refines}

abbrev ring : ℕ → ℕ → OverrideQueue
ring a b = record { head = 2; tail = 0; buf = a ∷ (b ∷ replicate 14 0) }

ring-IsValid : (a b : ℕ) → IsValid (ring a b)
ring-IsValid a b = record { storage = refl; head_in = omega arith; tail_in = omega arith }

abbrev rings : OverrideBuffers
rings = record {
  feed_queue = ring 0x92 0x97;
  spindle_queue = ring 0x9e 0x9a;
  coolant_queue = ring 0xa0 0x8a;
}

rings-AllValid : AllValid rings
rings-AllValid = record {
  feed_valid = ring-IsValid 0x92 0x97;
  spindle_valid = ring-IsValid 0x9e 0x9a;
  coolant_valid = ring-IsValid 0xa0 0x8a;
}

rings-NoZeros : NoZeros (view rings)
rings-NoZeros = record {
  of_feed = (λ e. absurd (omega arith), (λ e. absurd (omega arith), tt));
  of_spindle = (λ e. absurd (omega arith), (λ e. absurd (omega arith), tt));
  of_coolant = (λ e. absurd (omega arith), (λ e. absurd (omega arith), tt));
}

abbrev env : Env
env = record {
  feed_delay = false;
  spindle_delay = false;
  coolant_delay = false;
  feed_rates_disable = false;
  state = hold;
  spindle_on = true;
  has_mist = true;
  has_flood = true;
}

abbrev machine : Machine
machine = record {
  buffers = rings;
  rates = record { feed_rate = 15; rapid_rate = 100 };
  override_pct = 195;
  stop = record { enabled = false; initiate = false; restore = false; restore_cycle = false };
  coolant = record { flood = false; mist = false };
  log = [];
}

machine-InBounds : InBounds machine.rates
machine-InBounds = record {
  feed_in = (omega arith, omega arith);
  rapid_in = (omega arith, omega arith);
}

exec_feed_overrides_lem_example :
    let m' = exec_feed_overrides 16 env machine in
    (m'.rates ≡ run_all both_meanings (view rings).of_feed machine.rates)
    × InBounds m'.rates
    × (view m'.buffers ≡ with_queue feed [] (view rings))
    × AllValid m'.buffers
exec_feed_overrides_lem_example =
    exec_feed_overrides_lem 16 env machine rings-AllValid rings-NoZeros.of_feed machine-InBounds
      (omega arith) refl refl

abbrev setup : Setup
setup = record {
  legacy_rt_commands = false;
  e_stop = false;
  state = hold;
  tool_offset = false;
  m66_result = false;
  probe_select = false;
  has_connected_toggle = false;
  has_stop_disable = false;
  has_single_block = false;
  is_mpg_stream = false;
  has_report_interval = false;
  has_reboot = false;
  on_unknown_realtime_cmd = none;
  has_on_jog_cancel = true;
  has_on_control_signals_changed = false;
  has_on_cycle_start = false;
}

abbrev picker : Bool → Picker
picker keep = record {
  char_counter = 0;
  keep_rt_commands = keep;
  esc = false;
  exec = record {
    exec_status_report = false;
    exec_cycle_start = false;
    exec_feed_hold = false;
    exec_stop = false;
    exec_safety_door = false;
    exec_gcode_report = false;
    exec_pid_report = false;
  };
  optional_stop_disable = false;
  single_block = false;
  auto_reporting = false;
  exit = false;
  tool_change = false;
  buffers = rings;
  calls = [];
}

printable_kept_example :
    let (drop, p') = protocol_enqueue_realtime_command setup b'!' (picker true) in
    let keep = if b'!' == b'$' && 0 == 0 then not false else true in
    (drop ≡ (is_legacy_command b'!' && (not true || false)))
    × (drop ≡ false → p' ≡ record (picker true) { keep_rt_commands = keep; esc = false })
printable_kept_example = printable_kept setup b'!' (picker true) (omega arith) (omega arith)

protocol_enqueue_realtime_command_refines_example :
    let p' = (protocol_enqueue_realtime_command setup 0x93 (picker true)).1 in
    (view p'.buffers ≡ routed_queues 0x93 (view rings))
    × AllValid p'.buffers
    × NoZeros (view p'.buffers)
protocol_enqueue_realtime_command_refines_example =
    protocol_enqueue_realtime_command_refines setup 0x93 (picker true) rings-AllValid rings-NoZeros

exec_overrides_lem_example :
    let b = (exec_overrides 16 env machine).buffers in
    (view b ≡ record {
      of_feed = if false then (view rings).of_feed else [];
      of_spindle = if false then (view rings).of_spindle else [];
      of_coolant = if false then (view rings).of_coolant else [];
    })
    × AllValid b
exec_overrides_lem_example =
    exec_overrides_lem 16 env machine rings-AllValid rings-NoZeros (omega arith)
