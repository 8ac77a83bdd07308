-- ===== src/Protocol/Line.antt =====
-- protocol.c: the characters that `protocol_main_loop` and `recheck_line` read, and the dispatch of a
-- complete line.
use cnc_3d.Common.{
  ℕ, ◌-◌, Bool, true, false, not, ◌&&◌, ◌||◌, List, [], ◌∷◌, ◌++◌, ◌==◌, leb, if◌then◌else◌, length,
}

-- `line_flags_t`
pub record LineFlags : Type 0 where
  pub overflow : Bool
  pub comment_parentheses : Bool
  pub comment_semicolon : Bool

abbrev pub no_flags : LineFlags
no_flags = record { overflow = false; comment_parentheses = false; comment_semicolon = false }

-- LINE_BUFFER_SIZE
abbrev pub line_buffer_size : ℕ
line_buffer_size = 257

-- The characters that have a meaning to the editor.
abbrev pub ascii_bs : ℕ
ascii_bs = 0x08

abbrev pub ascii_del : ℕ
ascii_del = 0x7f

abbrev pub ascii_can : ℕ
ascii_can = 0x18

abbrev pub ascii_eof : ℕ
ascii_eof = 0x1a

abbrev pub is_eol : ℕ → Bool
is_eol c = c == b'\n' || c == b'\r'

abbrev pub is_erase : ℕ → Bool
is_erase c = c == ascii_bs || c == ascii_del

-- `keep_rt_commands` and the flags, as the scan of a line leaves them.
pub record Scan : Type 0 where
  pub keep : Bool
  pub flags : LineFlags

-- The `switch` of `recheck_line`; `quiet` is `hal.driver_cap.no_gcode_message_handling`.
unfoldable pub recheck_char : Bool → Bool → ℕ → Scan → Scan
recheck_char quiet first c s =
    if c == b'$' || c == b'['
    then (if first then record s { keep = true } else s)
    else (if c == b'('
        then (if s.keep
            then s
            else (let parentheses = not s.flags.comment_semicolon in
                record s {
                  flags = record (s.flags) { comment_parentheses = parentheses };
                  keep = if parentheses then not quiet else s.keep;
                }))
        else (if c == b')'
            then (if s.flags.comment_semicolon then s else record s {
              flags = record (s.flags) { comment_parentheses = false };
              keep = false;
            })
            else (if c == b';'
                then (if s.flags.comment_parentheses then s else record s {
                  flags = record (s.flags) { comment_semicolon = true };
                  keep = false;
                })
                else s)))

unfoldable pub recheck_from : Bool → Bool → List ℕ → Scan → Scan
recheck_from quiet first [] s = s
recheck_from quiet first (c ∷ line) s = recheck_from quiet false line (recheck_char quiet first c s)

unfoldable pub recheck_line : Bool → List ℕ → Scan
recheck_line quiet line = recheck_from quiet true line (record { keep = false; flags = no_flags })

-- The variables of the line editor: `line` up to `char_counter`, `keep_rt_commands`, `line_flags`
-- and `eol` (0 for '\0').
pub record Editor : Type 0 where
  pub line : List ℕ
  pub keep : Bool
  pub flags : LineFlags
  pub eol : ℕ

abbrev pub fresh : ℕ → Editor
fresh eol = record { line = []; keep = false; flags = no_flags; eol = eol }

-- The line without its last character.
abbrev pub drop_last : List ℕ → List ℕ
drop_last [] = []
drop_last (c ∷ []) = []
drop_last (c ∷ d ∷ line) = c ∷ drop_last (d ∷ line)

abbrev pub is_empty : List ℕ → Bool
is_empty [] = true
is_empty (c ∷ line) = false

-- The `switch` over a character that is kept, but for the erasing ones.
unfoldable pub comment_char : Bool → ℕ → Editor → Editor
comment_char quiet c e =
    if c == b'$' || c == b'['
    then (if is_empty e.line then record e { keep = true } else e)
    else (if c == b'('
        then (if e.keep
            then e
            else (let parentheses = not e.flags.comment_semicolon in
                record e {
                  flags = record (e.flags) { comment_parentheses = parentheses };
                  keep = if parentheses then not quiet else e.keep;
                }))
        else (if c == b')'
            then (if e.flags.comment_semicolon then e else record e {
              flags = record (e.flags) { comment_parentheses = false };
              keep = false;
            })
            else (if c == b';'
                then (if e.flags.comment_parentheses then e else record e {
                  flags = record (e.flags) { comment_semicolon = true };
                  keep = false;
                })
                else e)))

-- `line_flags.overflow = char_counter >= (LINE_BUFFER_SIZE - 1)`, and the write if it is not set.
unfoldable pub append_char : ℕ → Editor → Editor
append_char c e =
    let full = leb (line_buffer_size - 1) (length e.line) in
    record e {
      flags = record (e.flags) { overflow = full };
      line = if full then e.line else e.line ++ (c ∷ []);
    }

-- Backspace and delete.
unfoldable pub erase_char : Bool → Editor → Editor
erase_char quiet e =
    if is_empty e.line
    then e
    else (let line = drop_last e.line in
        let s = recheck_line quiet line in record e { line = line; keep = s.keep; flags = s.flags })

-- A character that is neither a line end nor stripped.
unfoldable pub type_char : Bool → ℕ → Editor → Editor
type_char quiet c e =
    if is_erase c then erase_char quiet e else append_char c (comment_char quiet c e)

-- What one character asks the main loop to do.
pub data Action : Type 0 where
  wait : Action
  cancel : Action
  file_end : Action
  execute : List ℕ → Bool → Action

-- One round of the inner loop of `protocol_main_loop`, up to the execution of a line. The editor is
-- reset after the line; `eol` is 0 again if the block that it holds fails.
unfoldable pub receive : Bool → ℕ → Editor → Action × Editor
receive quiet c e =
    if c == ascii_can
    then (cancel, fresh 0)
    else (if c == ascii_eof
        then (file_end, e)
        else (if is_eol c
            then (if is_empty e.line && not (e.eol == 0) && not (e.eol == c)
                then (wait, record e { eol = 0 })
                else (execute e.line e.flags.overflow, fresh c))
            else (if not (c == ascii_bs) && leb c (if is_empty e.line then 32 else 31)
                then (wait, e)
                else (wait, type_char quiet c e))))

-- The codes of `status_code_t` that the dispatch uses.
abbrev pub status_ok : ℕ
status_ok = 0

abbrev pub status_system_gc_lock : ℕ
status_system_gc_lock = 9

abbrev pub status_overflow : ℕ
status_overflow = 11

abbrev pub status_gcode_tool_change_pending : ℕ
status_gcode_tool_change_pending = 40

-- The system states that the dispatch tells apart.
pub record Mode : Type 0 where
  pub alarm_or_estop : Bool
  pub jogging : Bool

-- What becomes of a line: which module gets it, or why none does.
pub data Dispatch : Type 0 where
  overflowed empty_line locked demarcation held : Dispatch
  system_line : List ℕ → Dispatch
  user_command : List ℕ → Dispatch
  gcode_block : List ℕ → Dispatch

abbrev pub starts_with : ℕ → List ℕ → Bool
starts_with c [] = false
starts_with c (d ∷ line) = d == c

abbrev pub is_demarcation : List ℕ → Bool
is_demarcation [] = false
is_demarcation (c ∷ []) = c == b'%'
is_demarcation (c ∷ d ∷ line) = false

-- The choice for a complete line; `last_error` is that of the line before, `user` says whether
-- `grbl.on_user_command` is set. With COMPATIBILITY_LEVEL 0, a block is not executed after an error.
unfoldable pub dispatch : Mode → Bool → ℕ → List ℕ → Bool → Dispatch
dispatch mode user last_error line overflow =
    if overflow
    then overflowed
    else (if is_empty line
        then empty_line
        else (if starts_with b'$' line
            then system_line line
            else (if starts_with b'[' line && user
                then user_command line
                else (if mode.alarm_or_estop || mode.jogging
                    then (if is_demarcation line && mode.alarm_or_estop
                        then demarcation
                        else locked)
                    else (if last_error == status_ok
                          || last_error == status_gcode_tool_change_pending
                        then gcode_block line
                        else held)))))

-- `gc_state.last_error` after the line; `run` is the status that the module which gets it returns.
unfoldable pub line_status : Dispatch → (List ℕ → ℕ) → ℕ → ℕ
line_status overflowed run last_error = status_overflow
line_status empty_line run last_error = status_ok
line_status locked run last_error = status_system_gc_lock
line_status demarcation run last_error = status_ok
line_status held run last_error = last_error
line_status (system_line line) run last_error = run line
line_status (user_command line) run last_error = run line
line_status (gcode_block line) run last_error = run line
