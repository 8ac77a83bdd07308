-- ===== src/FlowCtrl/Command.antt =====
-- ngc_flowctrl.c: `read_command`, which recognises a statement name.
use Prim.Native.Char.{code}
use Prim.Native.String.{String}
use cnc_3d.Common.{
  ℕ, ◌+◌, Bool, true, false, Option, none, some, List, [], ◌∷◌, ◌==◌, if◌then◌else◌, length, get_or,
  drop,
}
use cnc_3d.FlowCtrl.Types.{
  NgcCmd, if_cmd, else_if, else_cmd, end_if, do_cmd, continue, break, while, end_while, repeat,
  end_repeat, sub_cmd, end_sub, call, return, raise_alarm, raise_error, Text,
}

abbrev pub codes : String → Text
codes String.[] = []
codes (String.◌∷◌ c s) = code c ∷ codes s

-- `!strncmp(text, word, length of word)`
unfoldable pub begins : Text → Text → Bool
begins text [] = true
begins [] (c ∷ word) = false
begins (b ∷ text) (c ∷ word) = if b == c then begins text word else false

-- The tests after one first letter, in their order: what must follow, and what it means.
abbrev pub Choices : Type 0
Choices = List (Text × NgcCmd)

unfoldable pub choose : Choices → Text → ℕ → Option NgcCmd × ℕ
unfolding begins
choose [] text pos = (none, pos)
choose ((word, op) ∷ rest) text pos =
    if begins text word then (some op, pos + length word) else choose rest text pos

abbrev pub after_c : Choices
after_c = (codes "ONTINUE", continue) ∷ (codes "ALL", call) ∷ []

abbrev pub after_e : Choices
after_e =
    (codes "LSEIF", else_if)
    ∷ (codes "LSE", else_cmd)
    ∷ (codes "NDIF", end_if)
    ∷ (codes "NDWHILE", end_while)
    ∷ (codes "NDREPEAT", end_repeat)
    ∷ (codes "NDSUB", end_sub)
    ∷ (codes "RROR", raise_error)
    ∷ []

abbrev pub after_r : Choices
after_r = (codes "EPEAT", repeat) ∷ (codes "ETURN", return) ∷ []

-- The `switch` over the first letter.
abbrev pub choices : ℕ → Choices
choices c =
    if c == b'A'
    then (codes "LARM", raise_alarm) ∷ []
    else (if c == b'B'
        then (codes "REAK", break) ∷ []
        else (if c == b'C'
            then after_c
            else (if c == b'D'
                then (codes "O", do_cmd) ∷ []
                else (if c == b'E'
                    then after_e
                    else (if c == b'I'
                        then (codes "F", if_cmd) ∷ []
                        else (if c == b'R'
                            then after_r
                            else (if c == b'S'
                                then (codes "UB", sub_cmd) ∷ []
                                else (if c == b'W' then (codes "HILE", while) ∷ [] else []))))))))

-- The operation, or none for Status_FlowControlSyntaxError, and the position that it leaves.
unfoldable pub read_command : Text → ℕ → Option NgcCmd × ℕ
unfolding choose
read_command line pos = choose (choices (get_or line pos 0)) (drop (pos + 1) line) (pos + 1)
