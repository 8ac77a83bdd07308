-- ===== src/Protocol/Realtime.antt =====
-- protocol.c: `protocol_enqueue_realtime_command`, which the interrupt of the input stream calls for
-- every character, built without KINEMATICS_API and at COMPATIBILITY_LEVEL 0.
use cnc_3d.Common.{
  ℕ, Bool, true, false, not, ◌&&◌, ◌||◌, Option, none, some, List, ◌∷◌, ◌==◌, ltb, leb,
  if◌then◌else◌,
}
use cnc_3d.Override.{
  OverrideBuffers, enqueue_feed_override, enqueue_spindle_override, enqueue_coolant_override,
}
use cnc_3d.System.{SysState, is_safety_door}
use cnc_3d.Protocol.Line.{ascii_bs, ascii_del}
use cnc_3d.Protocol.Commands.{
  Command, line_end, dollar, stop, reset, exit_cmd, status_report_all, status_report, cycle_start,
  feed_hold, safety_door, jog_cancel_cmd, gcode_report, probe_toggle, optional_stop_toggle,
  single_block_toggle, pid_report, mpg_mode_toggle, auto_reporting_toggle, feed_override,
  spindle_override, coolant_override, reboot_cmd, other, classify,
}

-- The bits of `sys.rt_exec_state` that the function sets.
pub record ExecFlags : Type 0 where
  pub exec_status_report : Bool
  pub exec_cycle_start : Bool
  pub exec_feed_hold : Bool
  pub exec_stop : Bool
  pub exec_safety_door : Bool
  pub exec_gcode_report : Bool
  pub exec_pid_report : Bool

-- Calls into other modules, the latest first. The report of all carries `tool_offset`, `m66result`
-- and `probe_id`; the signals are `stop_disable`, `single_block` and `cycle_start`.
pub data Call : Type 0 where
  cancel_read_buffer mc_reset jog_cancel probe_connected_toggle mpg_off reboot on_cycle_start : Call
  add_rt_report_all : Bool → Bool → Bool → Call
  unknown_realtime_cmd : ℕ → Call
  control_signals_changed : Bool → Bool → Bool → Call

-- The static variables and the parts of `sys` and `gc_state` that the function changes.
pub record Picker : Type 0 where
  pub char_counter : ℕ
  pub keep_rt_commands : Bool
  pub esc : Bool
  pub exec : ExecFlags
  pub optional_stop_disable : Bool
  pub single_block : Bool
  pub auto_reporting : Bool
  pub exit : Bool
  pub tool_change : Bool
  pub buffers : OverrideBuffers
  pub calls : List Call

-- What the function reads: settings, `hal` and `grbl`. A handler that is NULL is `none` or `false`.
pub record Setup : Type 0 where
  pub legacy_rt_commands : Bool
  pub e_stop : Bool
  pub state : SysState
  pub tool_offset : Bool
  pub m66_result : Bool
  pub probe_select : Bool
  pub has_connected_toggle : Bool
  pub has_stop_disable : Bool
  pub has_single_block : Bool
  pub is_mpg_stream : Bool
  pub has_report_interval : Bool
  pub has_reboot : Bool
  pub on_unknown_realtime_cmd : Option (ℕ → Bool)
  pub has_on_jog_cancel : Bool
  pub has_on_control_signals_changed : Bool
  pub has_on_cycle_start : Bool

-- `drop` and `signals` with the state.
pub record Outcome : Type 0 where
  pub drop : Bool
  pub stop_disable_signal : Bool
  pub single_block_signal : Bool
  pub cycle_start_signal : Bool
  pub picker : Picker

abbrev pub passing : Bool → Picker → Outcome
passing d p = record {
  drop = d;
  stop_disable_signal = false;
  single_block_signal = false;
  cycle_start_signal = false;
  picker = p;
}

abbrev pub calling : Call → Picker → Picker
calling k p = record p { calls = k ∷ p.calls }

-- A character that no case names: controls but backspace, and 0x80 to 0xBF.
unfoldable pub unknown_char : Setup → ℕ → Picker → Outcome
unknown_char u c p =
    if (ltb c 0x20 && not (c == ascii_bs)) || (ltb ascii_del c && leb c 0xbf)
    then elim u.on_unknown_realtime_cmd [
      | none ↦ passing true p
      | some handler ↦ passing (handler c) (calling (unknown_realtime_cmd c) p)
    ]
    else passing false p

-- The first `switch`.
unfoldable pub act : Setup → ℕ → Command → Picker → Outcome
unfolding unknown_char
act u c line_end p = passing false p
act u c dollar p =
    passing false
      (if p.char_counter == 0 then record p { keep_rt_commands = not u.legacy_rt_commands } else p)
act u c stop p = passing true (
    calling cancel_read_buffer
      (record p { exec = record (p.exec) { exec_stop = true }; char_counter = 0 }))
act u c reset p = passing true (if u.e_stop then p else calling mc_reset p)
act u c exit_cmd p = passing true (record (calling mc_reset p) { exit = true })
act u c status_report_all p =
    passing true (record (calling (add_rt_report_all u.tool_offset u.m66_result u.probe_select) p) {
      exec = record (p.exec) { exec_status_report = true };
    })
act u c status_report p = passing true (
    if p.auto_reporting
    then p
    else record p { exec = record (p.exec) { exec_status_report = true } })
act u c cycle_start p = record (passing false p) { cycle_start_signal = true }
act u c feed_hold p = passing true (record p { exec = record (p.exec) { exec_feed_hold = true } })
act u c safety_door p =
    if is_safety_door u.state
    then passing false p
    else passing true (record p { exec = record (p.exec) { exec_safety_door = true } })
act u c jog_cancel_cmd p =
    let p1 = calling cancel_read_buffer (record p { char_counter = 0 }) in
    passing true (if u.has_on_jog_cancel then calling jog_cancel p1 else p1)
act u c gcode_report p =
    passing true (record p { exec = record (p.exec) { exec_gcode_report = true } })
act u c probe_toggle p =
    passing false (if u.has_connected_toggle then calling probe_connected_toggle p else p)
act u c optional_stop_toggle p =
    record (passing false (
      if u.has_stop_disable
      then p
      else record p { optional_stop_disable = not p.optional_stop_disable })) {
        stop_disable_signal = not u.has_stop_disable;
      }
act u c single_block_toggle p =
    record (passing false
      (if u.has_single_block then p else record p { single_block = not p.single_block })) {
        single_block_signal = not u.has_single_block;
      }
act u c pid_report p = passing true (record p { exec = record (p.exec) { exec_pid_report = true } })
act u c mpg_mode_toggle p =
    if u.is_mpg_stream then passing true (calling mpg_off p) else passing false p
act u c auto_reporting_toggle p =
    if u.has_report_interval
    then passing true (record p { auto_reporting = not p.auto_reporting })
    else passing false p
act u c feed_override p = passing true (record p { buffers = enqueue_feed_override p.buffers c })
act u c spindle_override p =
    passing true (record p { buffers = enqueue_spindle_override p.buffers c })
act u c coolant_override p =
    passing true (record p { buffers = enqueue_coolant_override p.buffers c })
act u c reboot_cmd p = passing false (if p.esc && u.has_reboot then calling reboot p else p)
act u c other p = unknown_char u c p

-- The second `switch`, for what is not yet dropped.
unfoldable pub act_legacy : Setup → ℕ → Outcome → Outcome
act_legacy u c o =
    let p = o.picker in
    let active = not p.keep_rt_commands || u.legacy_rt_commands in
    if c == b'?'
    then (if active
        then record o {
          drop = true;
          picker = record p { exec = record (p.exec) { exec_status_report = true } };
        }
        else o)
    else (if c == b'~'
        then record o { cycle_start_signal = active }
        else (if c == b'!'
            then (if active
                then record o {
                  drop = true;
                  picker = record p { exec = record (p.exec) { exec_feed_hold = true } };
                }
                else o)
            else record o { drop = not (p.keep_rt_commands || ltb c 0x7f) }))

-- The signals, of which cycle start is a request of its own.
unfoldable pub act_signals : Setup → Outcome → Bool × Picker
act_signals u o =
    let any = o.stop_disable_signal || o.single_block_signal || o.cycle_start_signal in
    let p = o.picker in
    let changed =
      control_signals_changed o.stop_disable_signal o.single_block_signal o.cycle_start_signal in
    let p1 = if any && u.has_on_control_signals_changed then calling changed p else p in
    let p2 = record p1 {
      exec = record (p1.exec) { exec_cycle_start = true };
      tool_change = false;
    } in
    if o.cycle_start_signal
    then (true, if u.has_on_cycle_start then calling on_cycle_start p2 else p2)
    else (o.drop, p1)

-- Whether the character is taken out of the stream, and the state. `c` is below 256.
unfoldable pub protocol_enqueue_realtime_command : Setup → ℕ → Picker → Bool × Picker
unfolding classify
protocol_enqueue_realtime_command u c p =
    let o = act u c (classify c) p in
    let o2 = if o.drop then o else act_legacy u c o in
    let o3 = record o2 { picker = record (o2.picker) { esc = c == 0x1b } } in act_signals u o3
