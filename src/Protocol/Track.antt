-- ===== src/Protocol/Track.antt =====
-- The line editor: bounds, comment tracking, erasing, and what a whole line gives.
use cnc_3d.Common.{
  ℕ, ◌≤◌, ◌≡◌, refl, ap, arith, Bool, true, false, ◌&&◌, List, [], ◌∷◌, ◌++◌, length, length-append,
}
use cnc_3d.Protocol.Line.{
  Scan, Editor, fresh, recheck_char, recheck_from, recheck_line, drop_last, is_empty, comment_char,
  append_char, erase_char, type_char, receive,
}

length-drop_last : (line : List ℕ) → length (drop_last line) ≤ length line
length-drop_last [] = omega arith
length-drop_last (c ∷ []) = omega arith
length-drop_last (c ∷ d ∷ line) = omega (arith, length-drop_last (d ∷ line))

pub drop_last-append : (line : List ℕ) (c : ℕ) → drop_last (line ++ (c ∷ [])) ≡ line
drop_last-append [] c = refl
drop_last-append (b ∷ []) c = refl
drop_last-append (b ∷ d ∷ line) c = ap (λ l. b ∷ l) (drop_last-append (d ∷ line) c)

recheck_from-append :
    (quiet first : Bool) (line : List ℕ) (c : ℕ) (s : Scan)
    → recheck_from quiet first (line ++ (c ∷ [])) s
      ≡ recheck_char quiet (first && is_empty line) c (recheck_from quiet first line s)
unfolding recheck_from
recheck_from-append quiet true [] c s = refl
recheck_from-append quiet false [] c s = refl
recheck_from-append quiet true (b ∷ line) c s =
    recheck_from-append quiet false line c (recheck_char quiet true b s)
recheck_from-append quiet false (b ∷ line) c s =
    recheck_from-append quiet false line c (recheck_char quiet false b s)

abbrev pub scan_of : Editor → Scan
scan_of e = record { keep = e.keep; flags = e.flags }

-- The editor's switch and that of `recheck_line` agree.
pub comment-recheck :
    (quiet : Bool) (c : ℕ) (e : Editor)
    → (scan_of (comment_char quiet c e) ≡ recheck_char quiet (is_empty e.line) c (scan_of e))
      × ((comment_char quiet c e).line ≡ e.line)
      × ((comment_char quiet c e).flags.overflow ≡ e.flags.overflow)
      × ((comment_char quiet c e).eol ≡ e.eol)
unfolding comment_char recheck_char
comment-recheck quiet c e = ground arith

recheck_line-append :
    (quiet : Bool) (line : List ℕ) (c : ℕ)
    → recheck_line quiet (line ++ (c ∷ []))
      ≡ recheck_char quiet (is_empty line) c (recheck_line quiet line)
unfolding recheck_line
recheck_line-append quiet line c = recheck_from-append quiet true line c _

recheck_char-overflow :
    (quiet first : Bool) (c : ℕ) (s : Scan)
    → (recheck_char quiet first c s).flags.overflow ≡ s.flags.overflow
unfolding recheck_char
recheck_char-overflow quiet first c s = ground arith

recheck_from-overflow :
    (quiet first : Bool) (line : List ℕ) (s : Scan)
    → (recheck_from quiet first line s).flags.overflow ≡ s.flags.overflow
unfolding recheck_from
recheck_from-overflow quiet first [] s = refl
recheck_from-overflow quiet first (c ∷ line) s = ground (
  arith,
  recheck_from-overflow quiet false line (recheck_char quiet first c s),
  recheck_char-overflow quiet first c s,
)

pub recheck_line-overflow :
    (quiet : Bool) (line : List ℕ) → (recheck_line quiet line).flags.overflow ≡ false
unfolding recheck_line
recheck_line-overflow quiet line = recheck_from-overflow quiet true line _

-- The stored line fits the buffer with its terminator; the overflow flag is set only while it
-- is full; and until a character is dropped, the comment flags and the handling of realtime
-- commands are those that a scan of the stored line gives.
pub record IsTracked (quiet : Bool) (e : Editor) : Type 0 where
  pub bounded : length e.line ≤ 256
  pub full : e.flags.overflow ≡ true → 256 ≤ length e.line
  pub tracked : e.flags.overflow ≡ false → recheck_line quiet e.line ≡ scan_of e

fresh-IsTracked : (quiet : Bool) (eol : ℕ) → IsTracked quiet (fresh eol)
unfolding recheck_line recheck_from
fresh-IsTracked quiet eol = ground arith

erase_char-IsTracked :
    (quiet : Bool) (e : Editor) → IsTracked quiet e → IsTracked quiet (erase_char quiet e)
unfolding erase_char
erase_char-IsTracked quiet e v =
    ground (arith, length-drop_last e.line, recheck_line-overflow quiet (drop_last e.line))

append_char-IsTracked :
    (quiet : Bool) (c : ℕ) (e : Editor)
    → IsTracked quiet e
    → IsTracked quiet (append_char c (comment_char quiet c e))
unfolding append_char
append_char-IsTracked quiet c e v = ground (
  arith,
  comment-recheck quiet c e,
  recheck_line-append quiet e.line c,
  length-append e.line (c ∷ []),
)

type_char-IsTracked :
    (quiet : Bool) (c : ℕ) (e : Editor) → IsTracked quiet e → IsTracked quiet (type_char quiet c e)
unfolding type_char
type_char-IsTracked quiet c e v =
    ground (arith, erase_char-IsTracked quiet e v, append_char-IsTracked quiet c e v)

-- Every character keeps the editor tracked, whatever it is: the stored line fits the buffer with its
-- terminator, the overflow flag is set only while it is full, and until a character is dropped the
-- comment flags and the handling of realtime commands are those that `recheck_line` gives for the
-- stored line.
pub receive-IsTracked :
    (quiet : Bool) (c : ℕ) (e : Editor) → IsTracked quiet e → IsTracked quiet (receive quiet c e).1
unfolding receive
receive-IsTracked quiet c e v =
    ground
      (arith, type_char-IsTracked quiet c e v, fresh-IsTracked quiet 0, fresh-IsTracked quiet c)
