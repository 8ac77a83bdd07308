-- ===== src/Protocol/Examples.antt =====
-- Concrete lines for the theorems on the line editor.
use cnc_3d.Common.{◌≡◌, refl, arith, true, false, [], ◌∷◌, ◌++◌, replicate, take, ltb}
use cnc_3d.Protocol.Line.{
  Editor, fresh, type_char, receive, execute, drop_last, recheck_line, recheck_from, recheck_char,
  recheck_line,
}
use cnc_3d.Protocol.Track.{IsTracked, receive-IsTracked}
use cnc_3d.Protocol.WholeLine.{feed, feed_line, waits, overflow_forgotten}

-- G1(x
abbrev typed : Editor
typed = record {
  line = b'G' ∷ b'1' ∷ b'(' ∷ b'x' ∷ [];
  keep = true;
  flags = record { overflow = false; comment_parentheses = true; comment_semicolon = false };
  eol = 0;
}

typed-IsTracked : IsTracked false typed
unfolding recheck_line recheck_from recheck_char
typed-IsTracked = record { bounded = omega arith; full = λ e. cc; tracked = λ e. refl }

receive-IsTracked_example : IsTracked false (receive false 0x7f typed).1
receive-IsTracked_example = receive-IsTracked false 0x7f typed typed-IsTracked

feed_line_example : feed false ((b'G' ∷ b'0' ∷ b' ' ∷ b'X' ∷ []) ++ (10 ∷ [])) (fresh 0) ≡ (
  waits (b'G' ∷ b'0' ∷ b' ' ∷ b'X' ∷ [])
      ++ (execute (take 256 (b'G' ∷ b'0' ∷ b' ' ∷ b'X' ∷ [])) (ltb 256 4) ∷ []),
  fresh 10,
)
feed_line_example = feed_line false b'G' (b'0' ∷ b' ' ∷ b'X' ∷ []) 10 0 (omega arith) refl

abbrev full_line : Editor
full_line = record (fresh 0) { line = replicate 256 b'1' }

overflow_forgotten_example :
    let e1 = type_char false b'2' full_line in
    let e2 = type_char false 0x7f e1 in
    (e1.line ≡ full_line.line)
    × (e1.flags.overflow ≡ true)
    × (e2.line ≡ drop_last full_line.line)
    × (e2.flags.overflow ≡ false)
overflow_forgotten_example = overflow_forgotten false b'2' 0x7f full_line refl refl refl
