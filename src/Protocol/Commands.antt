-- ===== src/Protocol/Commands.antt =====
-- protocol.c: the labels of the first `switch` of `protocol_enqueue_realtime_command`.
use cnc_3d.Common.{ℕ, Bool, ◌||◌, List, [], ◌∷◌, ◌==◌, if◌then◌else◌}
use cnc_3d.System.{
  feed_reset, feed_coarse_plus, feed_coarse_minus, feed_fine_plus, feed_fine_minus, rapid_reset,
  rapid_medium, rapid_low, spindle_reset, spindle_coarse_plus, spindle_coarse_minus,
  spindle_fine_plus, spindle_fine_minus, spindle_stop, coolant_flood_toggle, coolant_mist_toggle,
  fan0_toggle,
}

-- The cases of the first `switch`.
pub data Command : Type 0 where
  line_end dollar stop reset exit_cmd status_report_all status_report cycle_start : Command
  feed_hold safety_door jog_cancel_cmd gcode_report probe_toggle optional_stop_toggle : Command
  single_block_toggle pid_report mpg_mode_toggle auto_reporting_toggle : Command
  feed_override spindle_override coolant_override reboot_cmd other : Command

abbrev pub is_feed_command : ℕ → Bool
is_feed_command c =
    c == feed_reset
    || c == feed_coarse_plus
    || c == feed_coarse_minus
    || c == feed_fine_plus
    || c == feed_fine_minus
    || c == rapid_reset
    || c == rapid_medium
    || c == rapid_low

abbrev pub is_spindle_command : ℕ → Bool
is_spindle_command c =
    c == spindle_reset
    || c == spindle_coarse_plus
    || c == spindle_coarse_minus
    || c == spindle_fine_plus
    || c == spindle_fine_minus
    || c == spindle_stop

abbrev pub is_coolant_command : ℕ → Bool
is_coolant_command c = c == coolant_flood_toggle || c == coolant_mist_toggle || c == fan0_toggle

-- The labels of the override cases, which come after those of `classify`.
unfoldable pub classify_override : ℕ → Command
classify_override c =
    if is_feed_command c
    then feed_override
    else (if is_spindle_command c
        then spindle_override
        else (if is_coolant_command c
            then coolant_override
            else (if c == 0x14 then reboot_cmd else other)))

abbrev pub table : List (ℕ × Command)
table =
    (b'\n', line_end)
    ∷ (b'\r', line_end)
    ∷ (b'$', dollar)
    ∷ (0x19, stop)
    ∷ (0x18, reset)
    ∷ (0x03, exit_cmd)
    ∷ (0x87, status_report_all)
    ∷ (0x80, status_report)
    ∷ (0x05, status_report)
    ∷ (0x81, cycle_start)
    ∷ (0x82, feed_hold)
    ∷ (0x84, safety_door)
    ∷ (0x85, jog_cancel_cmd)
    ∷ (0x83, gcode_report)
    ∷ (0xa4, probe_toggle)
    ∷ (0x88, optional_stop_toggle)
    ∷ (0x89, single_block_toggle)
    ∷ (0xa2, pid_report)
    ∷ (0x8b, mpg_mode_toggle)
    ∷ (0x8c, auto_reporting_toggle)
    ∷ []

abbrev pub find_case : List (ℕ × Command) → ℕ → Command
find_case [] c = classify_override c
find_case ((k, command) ∷ rest) c = if c == k then command else find_case rest c

-- Which case of the first `switch` a character takes.
unfoldable pub classify : ℕ → Command
unfolding classify_override
classify c = find_case table c
