-- ===== src/Protocol/WholeLine.antt =====
-- What a line as it is typed gives the dispatch, and what erasing does.
use cnc_3d.Common.{
  ℕ, ◌≤◌, ◌<◌, ◌≡◌, ◌≢◌, refl, arith, Bool, true, false, List, [], ◌∷◌, ◌++◌, ◌==◌, ltb,
  if◌then◌else◌, length, length-append, take, length-take, take-append_full, take-append_room,
  append-nil, append_assoc, ◌⊎◌, inl, inr, take-nil,
}
use cnc_3d.Protocol.Line.{
  Editor, fresh, drop_last, is_empty, is_erase, append_char, erase_char, type_char, Action, wait,
  execute, receive, is_eol,
}
use cnc_3d.Protocol.Track.{IsTracked, comment-recheck, drop_last-append, recheck_line-overflow}

-- The characters in order: what each asks for, and the editor after them.
unfoldable pub feed : Bool → List ℕ → Editor → List Action × Editor
feed quiet [] e = ([], e)
feed quiet (c ∷ cs) e =
    let (a, e1) = receive quiet c e in let (rest, e2) = feed quiet cs e1 in (a ∷ rest, e2)

-- Printable characters; a line that holds any begins with one that is no space.
abbrev pub Printable : List ℕ → Type 0
Printable [] = Unit
Printable (c ∷ cs) = (32 ≤ c) × (c ≢ 127) × Printable cs

abbrev pub IsText : List ℕ → Type 0
IsText [] = Unit
IsText (c ∷ cs) = (32 < c) × (c ≢ 127) × Printable cs

abbrev pub waits : List ℕ → List Action
waits [] = []
waits (c ∷ cs) = wait ∷ waits cs

-- The editor after the text `typed` since the last line end.
record Holds (typed : List ℕ) (e : Editor) : Type 0 where
  stored : e.line ≡ take 256 typed
  dropped : e.flags.overflow ≡ ltb 256 (length typed)

is_empty-length : (l : List ℕ) → is_empty l ≡ (length l == 0)
is_empty-length [] = refl
is_empty-length (c ∷ l) = ground arith

receive-Holds :
    (quiet : Bool) (c : ℕ) (typed : List ℕ) (e : Editor)
    → 32 ≤ c
    → c ≢ 127
    → (32 < c) ⊎ (0 < length typed)
    → Holds typed e
    → let (a, e1) = receive quiet c e in (a ≡ wait) × Holds (typed ++ (c ∷ [])) e1
unfolding receive type_char append_char
receive-Holds quiet c typed e p n f h = ground (
  arith,
  comment-recheck quiet c e,
  length-take 256 typed,
  take-append_full 256 typed (c ∷ []),
  take-append_room 256 typed c,
  length-append typed (c ∷ []),
  is_empty-length e.line,
)

feed-Holds :
    (quiet : Bool) (cs typed : List ℕ) (e : Editor)
    → Printable cs
    → 0 < length typed
    → Holds typed e
    → let (acts, e1) = feed quiet cs e in (acts ≡ waits cs) × Holds (typed ++ cs) e1
unfolding feed
feed-Holds quiet [] typed e p n h = (refl, rw append-nil h)
feed-Holds quiet (c ∷ cs) typed e p n h =
    let (a, held) = receive-Holds quiet c typed e p.0 p.1 (inr n) h in
    let more = length-append typed (c ∷ []) in
    let (acts, ends) =
      feed-Holds quiet cs (typed ++ (c ∷ [])) (receive quiet c e).1 p.2 (omega arith) held in
    (rw (a, acts) refl, rw append_assoc at ends)

fresh-Holds : (eol : ℕ) → Holds [] (fresh eol)
fresh-Holds eol = ground (arith, take-nil {A = ℕ} 256)

text-Holds :
    (quiet : Bool) (cs : List ℕ) (eol : ℕ)
    → IsText cs
    → let (acts, e1) = feed quiet cs (fresh eol) in (acts ≡ waits cs) × Holds cs e1
unfolding feed
text-Holds quiet [] eol p = (refl, fresh-Holds eol)
text-Holds quiet (c ∷ cs) eol p =
    let (a, held) =
      receive-Holds quiet c [] (fresh eol) (omega arith) p.1 (inl p.0) (fresh-Holds eol) in
    let (acts, ends) =
      feed-Holds quiet cs (c ∷ []) (receive quiet c (fresh eol)).1 p.2 (omega arith) held in
    (rw (a, acts) refl, ends)

feed-append :
    (quiet : Bool) (cs : List ℕ) (d : ℕ) (e : Editor)
    → let (acts, e1) = feed quiet cs e in
      let (a, e2) = receive quiet d e1 in feed quiet (cs ++ (d ∷ [])) e ≡ (acts ++ (a ∷ []), e2)
unfolding feed
feed-append quiet [] d e = refl
feed-append quiet (c ∷ cs) d e = ground (arith, feed-append quiet cs d (receive quiet c e).1)

receive-eol :
    (quiet : Bool) (d : ℕ) (e : Editor)
    → is_eol d ≡ true
    → is_empty e.line ≡ false
    → receive quiet d e ≡ (execute e.line e.flags.overflow, fresh d)
unfolding receive
receive-eol quiet d e p n = ground arith

-- A printable text that begins with no space, fed to a fresh editor and ended by a line feed or a
-- carriage return, asks for nothing until its end; then the line executed is its first 256
-- characters, the overflow flag says just whether it is longer, and the editor is fresh again.
pub feed_line :
    (quiet : Bool) (c : ℕ) (cs : List ℕ) (d eol : ℕ)
    → IsText (c ∷ cs)
    → is_eol d ≡ true
    → let text = c ∷ cs in
      feed quiet (text ++ (d ∷ [])) (fresh eol)
      ≡ (waits text ++ (execute (take 256 text) (ltb 256 (length text)) ∷ []), fresh d)
feed_line quiet c cs d eol p q =
    let text = c ∷ cs in
    let (acts, held) = text-Holds quiet text eol p in
    let e1 = (feed quiet text (fresh eol)).1 in
    ground (
      arith,
      feed-append quiet text d (fresh eol),
      acts,
      held.stored,
      held.dropped,
      receive-eol quiet d e1 q,
      is_empty-length e1.line,
      length-take 256 text,
    )

-- The second character of a line end pair is no empty line: after a line ended by one of carriage
-- return and line feed, the other asks for nothing; the same one again is an empty line.
pub receive_line_end_pair :
    (quiet : Bool) (d d' : ℕ)
    → is_eol d ≡ true
    → is_eol d' ≡ true
    → (receive quiet d' (fresh d)).0 ≡ (if d == d' then execute [] false else wait)
unfolding receive
receive_line_end_pair quiet d d' p q = ground arith

-- Backspace or delete takes back one printable character that the line had room for, whatever the
-- character means: the line, the comment flags and the handling of realtime commands are as before.
pub erase-type :
    (quiet : Bool) (c b : ℕ) (e : Editor)
    → IsTracked quiet e
    → length e.line < 256
    → is_erase c ≡ false
    → is_erase b ≡ true
    → type_char quiet b (type_char quiet c e) ≡ e
unfolding type_char erase_char append_char
erase-type quiet c b e v room p q = ground (
  arith,
  comment-recheck quiet c e,
  drop_last-append e.line c,
  length-append e.line (c ∷ []),
  is_empty-length (e.line ++ (c ∷ [])),
)

-- Whatever character, but for backspace and delete, a buffer with 256 characters drops, it sets the
-- overflow flag and leaves the line; a backspace or delete after it clears the flag again, and leaves
-- the line without its last character.
pub overflow_forgotten :
    (quiet : Bool) (c b : ℕ) (e : Editor)
    → length e.line ≡ 256
    → is_erase c ≡ false
    → is_erase b ≡ true
    → let e1 = type_char quiet c e in
      let e2 = type_char quiet b e1 in
      (e1.line ≡ e.line)
      × (e1.flags.overflow ≡ true)
      × (e2.line ≡ drop_last e.line)
      × (e2.flags.overflow ≡ false)
unfolding type_char erase_char append_char
overflow_forgotten quiet c b e n p q = ground (
  arith,
  comment-recheck quiet c e,
  recheck_line-overflow quiet (drop_last e.line),
  is_empty-length e.line,
)
