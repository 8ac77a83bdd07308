-- ===== src/FlowCtrl/Keyword.antt =====
-- `read_command` recognises exactly the seventeen statement names.
use cnc_3d.Common.{
  ℕ, zero, suc, ◌+◌, ◌≡◌, ◌≢◌, refl, ap, arith, true, false, [], ◌∷◌, ◌++◌, length, some, get_or,
  drop, ◌∙◌,
}
use cnc_3d.FlowCtrl.Types.{
  NgcCmd, no_op, if_cmd, else_if, else_cmd, end_if, do_cmd, continue, break, while, end_while,
  repeat, end_repeat, sub_cmd, end_sub, call, return, raise_alarm, raise_error, Text,
}
use native.Mathlib.Numerals.{add-one}
use cnc_3d.FlowCtrl.Command.{codes, begins, Choices, choose, choices, read_command}

abbrev pub keyword : NgcCmd → Text
keyword no_op = []
keyword if_cmd = codes "IF"
keyword else_if = codes "ELSEIF"
keyword else_cmd = codes "ELSE"
keyword end_if = codes "ENDIF"
keyword do_cmd = codes "DO"
keyword continue = codes "CONTINUE"
keyword break = codes "BREAK"
keyword while = codes "WHILE"
keyword end_while = codes "ENDWHILE"
keyword repeat = codes "REPEAT"
keyword end_repeat = codes "ENDREPEAT"
keyword sub_cmd = codes "SUB"
keyword end_sub = codes "ENDSUB"
keyword call = codes "CALL"
keyword return = codes "RETURN"
keyword raise_alarm = codes "ALARM"
keyword raise_error = codes "ERROR"

-- ELSE is read only where the longer ELSEIF does not stand.
abbrev pub Readable : NgcCmd → Text → Type 0
Readable no_op rest = ⊥
Readable else_cmd rest = begins rest (codes "IF") ≡ false
Readable op rest = Unit

drop-length : (pre line : Text) → drop (length pre) (pre ++ line) ≡ line
drop-length [] line = refl
drop-length (c ∷ pre) line = drop-length pre line

get_or-length : (pre : Text) (c : ℕ) (line : Text) → get_or (pre ++ (c ∷ line)) (length pre) 0 ≡ c
get_or-length [] c line = refl
get_or-length (b ∷ pre) c line = get_or-length pre c line

drop-suc-length :
    (pre : Text) (c : ℕ) (line : Text) → drop (suc (length pre)) (pre ++ (c ∷ line)) ≡ line
drop-suc-length [] c line = refl
drop-suc-length (b ∷ pre) c line = drop-suc-length pre c line

read_at :
    (pre : Text) (c : ℕ) (line : Text)
    → read_command (pre ++ (c ∷ line)) (length pre) ≡ choose (choices c) line (length pre + 1)
unfolding read_command
read_at pre c line = rw (get_or-length pre c line, add-one, drop-suc-length pre c line)

choose-keyword :
    (op : NgcCmd) (rest : Text) (pos : ℕ)
    → Readable op rest
    → choose (choices (get_or (keyword op) 0 0)) (drop 1 (keyword op) ++ rest) pos
      ≡ (some op, pos + length (drop 1 (keyword op)))
unfolding choose
choose-keyword no_op rest pos h = absurd h
choose-keyword else_cmd rest pos h = rw h
choose-keyword _ rest pos h = refl

head_of :
    (op : NgcCmd) (rest : Text)
    → Readable op rest
    → keyword op ≡ get_or (keyword op) 0 0 ∷ drop 1 (keyword op)
head_of no_op rest h = absurd h
head_of else_cmd rest h = refl
head_of _ rest h = refl

-- A statement name is read wherever it stands in a line, whatever follows it, and the position is
-- left just behind it; but ELSE is only read where it is not the beginning of ELSEIF.
pub read_command-keyword :
    (op : NgcCmd) (pre rest : Text)
    → Readable op rest
    → read_command (pre ++ (keyword op ++ rest)) (length pre)
      ≡ (some op, length pre + length (keyword op))
read_command-keyword op pre rest h =
    let c = get_or (keyword op) 0 0 in
    let word = drop 1 (keyword op) in
    rw (head_of op rest h) (
      read_at pre c (word ++ rest)
      ∙ choose-keyword op rest (length pre + 1) h
      ∙ ap (λ k. (some op, k)) (omega arith))

-- Each entry is a statement name without its first letter.
abbrev Fits : ℕ → Choices → Type 0
Fits c [] = Unit
Fits c ((word, op) ∷ l) = (keyword op ≡ c ∷ word) × Fits c l

choices-Fits : (c : ℕ) → Fits c (choices c)
choices-Fits c = ground arith

choose_sound :
    (c : ℕ) (l : Choices) (text : Text) (pos q : ℕ) (op : NgcCmd)
    → Fits c l
    → choose l text pos ≡ (some op, q)
    → (begins (c ∷ text) (keyword op) ≡ true) × (q + 1 ≡ pos + length (keyword op))
unfolding choose
choose_sound c [] text pos q op f h = ground arith
choose_sound c ((word, op') ∷ l) text pos q op f h =
    ground (arith, choose_sound c l text pos q op f.1)

drop-cons :
    (line : Text) (pos : ℕ)
    → get_or line pos 0 ≢ 0
    → drop pos line ≡ get_or line pos 0 ∷ drop (suc pos) line
drop-cons [] pos h = absurd (h refl)
drop-cons (c ∷ line) zero h = refl
drop-cons (c ∷ line) (suc pos) h = drop-cons line pos h

no_choice :
    (c : ℕ) (text : Text) (pos q : ℕ) (op : NgcCmd)
    → choose (choices c) text pos ≡ (some op, q)
    → c ≢ 0
unfolding choose
no_choice c text pos q op h e = let h' = rw e at h in cc

-- Whatever is read is a statement name that stands at the position, and the new position is just
-- behind it.
pub read_command_sound :
    (line : Text) (pos q : ℕ) (op : NgcCmd)
    → read_command line pos ≡ (some op, q)
    → (begins (drop pos line) (keyword op) ≡ true) × (q ≡ pos + length (keyword op))
unfolding read_command
read_command_sound line pos q op h =
    let c = get_or line pos 0 in
    let some_letter = no_choice c (drop (pos + 1) line) (pos + 1) q op h in
    let (word, after) =
      choose_sound c (choices c) (drop (pos + 1) line) (pos + 1) q op (choices-Fits c) h in
    let word' : begins (c ∷ drop (suc pos) line) (keyword op) ≡ true = rw add-one at word in
    (rw (drop-cons line pos some_letter) word', omega arith)
