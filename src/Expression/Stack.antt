-- ===== src/Expression/Stack.antt =====
-- ngc_expr.c: the stack of operands and operators of `ngc_eval_expression`.
use cnc_3d.Common.{Bool, true, false, List, [], ◌∷◌, ◌==◌, leb, if◌then◌else◌}
use cnc_3d.FlowCtrl.Types.{status_ok}
use cnc_3d.Expression.Types.{FloatMath, Outcome, ok, error}
use cnc_3d.Expression.Operators.{BinaryOp, right_bracket, precedence, execute_binary}

-- The latest operand and operator first: `values[i]` with `operators[i]`, from `stack_index` down.
abbrev pub Stack : Type 0 → Type 0
Stack F = List (F × BinaryOp)

-- `operators[0] == NGCBinaryOp_RightBracket`, and false before the first one is read.
unfoldable pub closed : {F : Type 0} → Stack F → Bool
closed [] = false
closed ((v, right_bracket) ∷ []) = true
closed ((v, _) ∷ []) = false
closed (_ ∷ entry ∷ stack) = closed (entry ∷ stack)

-- `values[0]`
unfoldable pub first_value : {F : Type 0} → F → Stack F → F
first_value old [] = old
first_value old ((v, op) ∷ stack) = first_value v stack

module _ {F : Type 0} (m : FloatMath F) where
  -- The inner loop of `ngc_eval_expression`, and the `if` before it, which pushes.
  unfoldable pub reduce : F → BinaryOp → Stack F → Outcome (Stack F)
  unfolding execute_binary precedence
  reduce v op [] = ok ((v, op) ∷ [])
  reduce v op ((l, top) ∷ stack) =
      let (status, l') = execute_binary m l top v in
      let more = reduce l' op stack in
      if leb (precedence op) (precedence top)
      then (if status == status_ok then more else error status)
      else ok ((v, op) ∷ (l, top) ∷ stack)
