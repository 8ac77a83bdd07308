-- ===== src/Protocol/Picked.antt =====
-- What the interrupt takes out of the input, and what it leaves to the line editor.
use cnc_3d.Common.{
  ℕ, ◌<◌, ◌≤◌, ◌≡◌, ◌≢◌, arith, Bool, true, false, not, ◌&&◌, ◌||◌, ◌==◌, if◌then◌else◌,
}
use cnc_3d.Protocol.Commands.{Command, dollar, other, classify, classify_override}
use cnc_3d.Protocol.Realtime.{
  Setup, Picker, act, act_legacy, act_signals, unknown_char, protocol_enqueue_realtime_command,
}

-- The commands of the original protocol, which are printable.
abbrev pub is_legacy_command : ℕ → Bool
is_legacy_command c = c == b'?' || c == b'~' || c == b'!'

classify_printable :
    (c : ℕ) → 0x20 ≤ c → c < 0x7f → classify c ≡ (if c == b'$' then dollar else other)
unfolding classify classify_override
classify_printable c low high = ground arith

-- A printable character is taken out of the input just if it is one of `?`, `~` and `!` and these
-- are commands at this place: not in a comment or a setting, or wherever they stand if legacy
-- commands are enabled. A character that stays changes nothing but the memory of an escape and, for
-- a dollar at the start of a line, the handling of commands.
pub printable_kept :
    (u : Setup) (c : ℕ) (p : Picker)
    → 0x20 ≤ c
    → c < 0x7f
    → let (drop, p') = protocol_enqueue_realtime_command u c p in
      let keep =
        if c == b'$' && p.char_counter == 0 then not u.legacy_rt_commands else p.keep_rt_commands in
      (drop ≡ (is_legacy_command c && (not p.keep_rt_commands || u.legacy_rt_commands)))
      × (drop ≡ false → p' ≡ record p { keep_rt_commands = keep; esc = false })
unfolding protocol_enqueue_realtime_command act unknown_char act_legacy act_signals
printable_kept u c p low high = ground (arith, classify_printable c low high)

classify_high : (c : ℕ) → 0x7f ≤ c → classify c ≢ dollar
unfolding classify classify_override
classify_high c h e = ground arith

act-keep :
    (u : Setup) (c : ℕ) (k : Command) (p : Picker)
    → k ≢ dollar
    → (act u c k p).picker.keep_rt_commands ≡ p.keep_rt_commands
unfolding act unknown_char
act-keep u c k p h = ground arith

-- Outside comments and settings every character from delete on is taken out of the input, whatever
-- the handlers and the settings say.
pub high_dropped :
    (u : Setup) (c : ℕ) (p : Picker)
    → 0x7f ≤ c
    → p.keep_rt_commands ≡ false
    → (protocol_enqueue_realtime_command u c p).0 ≡ true
unfolding protocol_enqueue_realtime_command act_legacy act_signals
high_dropped u c p h k = ground (arith, act-keep u c (classify c) p (classify_high c h))
