-- ===== src/Expression/Operators.antt =====
-- ngc_expr.c: the binary operators, their names and precedence, and what they compute.
use Prim.Native.String.{String}
use cnc_3d.Common.{
  ℕ, Bool, Option, none, some, List, [], ◌∷◌, ◌==◌, leb, not, ◌&&◌, ◌||◌, if◌then◌else◌, length,
}
use cnc_3d.FlowCtrl.Types.{Text, status_ok}
use cnc_3d.FlowCtrl.Command.{codes, begins}
use cnc_3d.Expression.Types.{
  Cursor, peek, step, FloatMath, divide_by_zero, invalid_argument, unknown_op,
}

-- `ngc_binary_op_t`
pub data BinaryOp : Type 0 where
  no_op divided_by modulo power times and2 exclusive_or minus not_exclusive_or plus : BinaryOp
  right_bracket lt eq ne le ge gt : BinaryOp

-- The value of an enumeration constant.
abbrev pub code_of : BinaryOp → ℕ
code_of no_op = 0
code_of divided_by = 1
code_of modulo = 2
code_of power = 3
code_of times = 4
code_of and2 = 5
code_of exclusive_or = 6
code_of minus = 7
code_of not_exclusive_or = 8
code_of plus = 9
code_of right_bracket = 10
code_of lt = 11
code_of eq = 12
code_of ne = 13
code_of le = 14
code_of ge = 15
code_of gt = 16

unfoldable pub precedence : BinaryOp → ℕ
precedence right_bracket = 1
precedence and2 = 2
precedence exclusive_or = 2
precedence not_exclusive_or = 2
precedence lt = 3
precedence eq = 3
precedence ne = 3
precedence le = 3
precedence ge = 3
precedence gt = 3
precedence minus = 4
precedence plus = 4
precedence no_op = 5
precedence divided_by = 5
precedence modulo = 5
precedence times = 5
precedence power = 6

module _ {F : Type 0} (m : FloatMath F) where
  abbrev truth : Bool → F
  truth b = if b then m.one else m.zero

  abbrev is_zero : F → Bool
  is_zero v = m.eq v m.zero

  -- The status, and `*lhs` afterwards.
  unfoldable pub execute_binary1 : F → BinaryOp → F → ℕ × F
  execute_binary1 l divided_by r =
      if m.eq r m.zero || m.eq r (m.neg m.zero) then (divide_by_zero, l) else (status_ok, m.div l r)
  execute_binary1 l modulo r =
      let v = m.fmod l r in (status_ok, (if m.lt v m.zero then m.add v (m.fabs r) else v))
  execute_binary1 l power r =
      if m.lt l m.zero && not (m.eq (m.floor r) r)
      then (invalid_argument, l)
      else (status_ok, m.pow l r)
  execute_binary1 l times r = (status_ok, m.mul l r)
  execute_binary1 l _ r = (unknown_op, l)

  -- The distance of two operands, as EQ and NE compare them.
  unfoldable pub distance : F → F → F
  distance l r = let diff = m.sub l r in if m.lt diff m.zero then m.neg diff else diff

  unfoldable pub execute_binary2 : F → BinaryOp → F → ℕ × F
  unfolding distance
  execute_binary2 l and2 r = (status_ok, (if is_zero l || is_zero r then m.zero else m.one))
  execute_binary2 l exclusive_or r =
      (status_ok, truth ((is_zero l && not (is_zero r)) || (not (is_zero l) && is_zero r)))
  execute_binary2 l minus r = (status_ok, m.sub l r)
  execute_binary2 l not_exclusive_or r = (status_ok, truth (not (is_zero l) || not (is_zero r)))
  execute_binary2 l plus r = (status_ok, m.add l r)
  execute_binary2 l lt r = (status_ok, truth (m.lt l r))
  execute_binary2 l eq r = (status_ok, truth (m.lt (distance l r) m.tolerance))
  execute_binary2 l ne r = (status_ok, truth (m.le m.tolerance (distance l r)))
  execute_binary2 l le r = (status_ok, truth (m.le l r))
  execute_binary2 l ge r = (status_ok, truth (m.le r l))
  execute_binary2 l gt r = (status_ok, truth (m.lt r l))
  execute_binary2 l _ r = (unknown_op, l)

  unfoldable pub execute_binary : F → BinaryOp → F → ℕ × F
  unfolding execute_binary1 execute_binary2
  execute_binary l op r =
      if leb (code_of op) (code_of times) then execute_binary1 l op r else execute_binary2 l op r

-- The names that begin with one letter, in the order of the tests: what must follow, and what it
-- means.
abbrev pub Names : Type 0 → Type 0
Names A = List (Text × A)

unfoldable pub find_name : {A : Type 0} → Names A → Cursor → Option A × Cursor
unfolding begins
find_name [] c = (none, c)
find_name ((word, op) ∷ names) c =
    if begins c.rest word then (some op, step (length word) c) else find_name names c

abbrev one_name : {A : Type 0} → String → A → Names A
one_name word op = (codes word, op) ∷ []

-- The `switch` over the first character.
abbrev pub binary_names : ℕ → Names BinaryOp
binary_names c =
    if c == b'+'
    then one_name "" plus
    else (if c == b'-'
        then one_name "" minus
        else (if c == b'/'
            then one_name "" divided_by
            else (if c == b'*'
                then (codes "*", power) ∷ one_name "" times
                else (if c == b']'
                    then one_name "" right_bracket
                    else (if c == b'A'
                        then one_name "ND" and2
                        else (if c == b'M'
                            then one_name "OD" modulo
                            else (if c == b'O'
                                then one_name "R" not_exclusive_or
                                else (if c == b'X'
                                    then one_name "OR" exclusive_or
                                    else (if c == b'E'
                                        then one_name "Q" eq
                                        else (if c == b'N'
                                            then one_name "E" ne
                                            else (if c == b'G'
                                                then (codes "E", ge) ∷ one_name "T" gt
                                                else (if c == b'L'
                                                    then (codes "E", le) ∷ one_name "T" lt
                                                    else []))))))))))))

-- The operator, or none for Status_ExpressionUknownOp, and the position behind what was read.
unfoldable pub read_operation : Cursor → Option BinaryOp × Cursor
unfolding find_name
read_operation c = find_name (binary_names (peek c.rest)) (step 1 c)
