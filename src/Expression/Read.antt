-- ===== src/Expression/Read.antt =====
-- ngc_expr.c: the readers of parameters, operations, expressions and real values. They call one
-- another by `ngc_read_real_value`, which is the argument `real` of all others; none is a call that
-- ran out of fuel.
use mathlib.Core.Option
use cnc_3d.Common.{
  ℕ, zero, suc, Bool, true, false, Option, none, some, [], ◌==◌, leb, not, ◌&&◌, if◌then◌else◌,
  drop, length,
}
use cnc_3d.FlowCtrl.Types.{Text, status_ok}
use cnc_3d.Expression.Types.{
  Cursor, peek, step, is_digit, ℤ, pos, FloatMath, World, Got, Outcome, ok, error, is_invalid,
  bad_number_format, unsupported_command, expression_syntax_error, invalid_result, unknown_op,
}
use cnc_3d.Expression.Number.{read_float}
use cnc_3d.Expression.Operators.{BinaryOp, read_operation}
use cnc_3d.Expression.Stack.{Stack, reduce, closed, first_value}
use cnc_3d.Expression.Values.{
  to_integer, named_parameter, numbered_parameter, read_exists, close_setting, setting_bit,
}
use cnc_3d.Expression.Unary.{UnaryOp, atan, exists, parameter, execute_unary, read_operation_unary}

abbrev pub Reader : Type 0 → Type 0
Reader F = Cursor → F → Option (Got F)

-- What follows the execution of operators on the stack.
unfoldable pub with_stack :
    {F : Type 0}
    → (Stack F → Cursor → Option (Got F))
    → F
    → Cursor
    → Outcome (Stack F)
    → Option (Got F)
with_stack next old end (error status) =
    some (record { status = status; value = old; cursor = end })
with_stack next old end (ok stack) = next stack end

module _ {F : Type 0} (m : FloatMath F) where
  -- A number without a name or a bracket.
  unfoldable pub read_number : Cursor → F → Option (Got F)
  unfolding read_float
  read_number c old = elim (read_float m c) [
    | some (v, end) ↦ some (record { status = status_ok; value = v; cursor = end })
    | none ↦ some (record { status = bad_number_format; value = old; cursor = c })
  ]

  -- `isnan` and `isinf` override the status.
  unfoldable pub checked : Got F → Got F
  checked g = record g { status = (if is_invalid m g.value then invalid_result else g.status) }

  -- The loop, from the read of the first operand on; `next` is the next round.
  unfoldable pub with_operand :
      (Stack F → Cursor → Option (Got F))
      → F
      → Stack F
      → Option (Outcome (F × BinaryOp) × Cursor)
      → Option (Got F)
  unfolding with_stack reduce
  with_operand next old stack none = none
  with_operand next old stack (some (error status, end)) =
      some (record { status = status; value = old; cursor = end })
  with_operand next old stack (some (ok (v, op), end)) =
      with_stack next old end (reduce m v op stack)

module _ {F : Type 0} (m : FloatMath F) (w : World F) where
  module _ (real : Reader F) where
    unfoldable pub ngc_read_integer_value : Cursor → ℤ → Option (ℕ × ℤ × Cursor)
    unfolding to_integer
    ngc_read_integer_value c old = elim (real c (w.stale c.pos)) [
      | none ↦ none
      | some g ↦
          let (status, n) = to_integer m g.value in
          if g.status == status_ok
          then some (status, n, g.cursor)
          else some (g.status, old, g.cursor)
    ]

    unfoldable pub ngc_read_parameter : Cursor → F → Bool → Option (Got F)
    unfolding ngc_read_integer_value named_parameter numbered_parameter
    ngc_read_parameter c old check =
        let c' = step 1 c in
        let numbered =
          Option.map (λ r. numbered_parameter m w r old check)
            (ngc_read_integer_value c' (pos 0)) in
        if not (peek c.rest == b'#')
        then some (record { status = bad_number_format; value = old; cursor = c })
        else if peek c'.rest == b'<'
        then some (named_parameter m w c' old)
        else numbered

    -- One operand and the operator behind it.
    unfoldable pub read_operand : Cursor → Option (Outcome (F × BinaryOp) × Cursor)
    unfolding read_operation
    read_operand c = elim (real c (w.stale c.pos)) [
      | none ↦ none
      | some g ↦
          let (found, end) = read_operation g.cursor in
          let with_op : Outcome (F × BinaryOp) = elim found [
            | some op ↦ ok (g.value, op)
            | none ↦ error unknown_op
          ] in
          if g.status == status_ok then some (with_op, end) else some (error g.status, g.cursor)
    ]

    unfoldable pub eval_loop : ℕ → F → Stack F → Cursor → Option (Got F)
    unfolding read_operand with_operand closed first_value
    eval_loop zero old stack c = none
    eval_loop (suc fuel) old stack c = elim (closed stack) [
      | true ↦ some (record { status = status_ok; value = first_value old stack; cursor = c })
      | false ↦ with_operand m (eval_loop fuel old) old stack (read_operand c)
    ]

    unfoldable pub ngc_eval_expression : Cursor → F → Option (Got F)
    unfolding eval_loop
    ngc_eval_expression c old =
        if peek c.rest == b'['
        then eval_loop (suc (length c.rest)) old [] (step 1 c)
        else some (record { status = unsupported_command; value = old; cursor = c })

    unfoldable pub read_atan : Cursor → F → Option (Got F)
    read_atan c v =
        let c' = step 1 c in
        let second =
          Option.map
            (λ (g : Got F). record g {
              value = (if g.status == status_ok then m.mul (m.atan2 v g.value) m.deg_rad else v);
            })
            (ngc_eval_expression c' (w.stale c'.pos)) in
        if not (peek c.rest == b'/')
        then some (record { status = expression_syntax_error; value = v; cursor = c })
        else if not (peek c'.rest == b'[')
        then some (record { status = expression_syntax_error; value = v; cursor = c' })
        else second

    -- The operation on the value of the first expression.
    unfoldable pub apply_unary : UnaryOp → Got F → Option (Got F)
    unfolding read_atan execute_unary
    apply_unary atan g = read_atan g.cursor g.value
    apply_unary op g =
        let (status, v) = execute_unary m g.value op in
        some (record { status = status; value = v; cursor = g.cursor })

    unfoldable pub read_setting : Cursor → F → Option (Got F)
    unfolding ngc_read_integer_value setting_bit close_setting
    read_setting c old = elim (ngc_read_integer_value c (pos 0)) [
      | none ↦ none
      | some (status, id, end) ↦
          if not (status == status_ok)
          then some (record { status = status; value = old; cursor = end })
          else if peek end.rest == b','
          then Option.map (λ r. setting_bit m w id r old)
              (ngc_read_integer_value (step 1 end) (pos 0))
          else some (close_setting m w id none end old)
    ]

    -- The operation, once its name was read and a bracket follows.
    unfoldable pub run_unary : UnaryOp → Cursor → F → Option (Got F)
    unfolding read_exists read_setting apply_unary ngc_eval_expression
    run_unary exists c old = some (read_exists m w (step 1 c) old)
    run_unary parameter c old = read_setting (step 1 c) old
    run_unary op c old = elim (ngc_eval_expression c old) [
      | none ↦ none
      | some g ↦ if g.status == status_ok then apply_unary op g else some g
    ]

    -- What follows the name.
    unfoldable pub named_unary : Option UnaryOp × Cursor → F → Option (Got F)
    unfolding run_unary
    named_unary (none, end) old = some (record { status = unknown_op; value = old; cursor = end })
    named_unary (some op, end) old =
        if peek end.rest == b'['
        then run_unary op end old
        else some (record { status = expression_syntax_error; value = old; cursor = end })

    unfoldable pub read_unary : Cursor → F → Option (Got F)
    unfolding named_unary read_operation_unary
    read_unary c old = named_unary (read_operation_unary c) old

    -- Whether a sign stands before something that is no number.
    abbrev signs : Text → Bool
    signs text =
        let c1 = peek (drop 1 text) in not (c1 == 0) && not (is_digit c1) && not (c1 == b'.')

    -- The reader that the first character chooses.
    unfoldable pub read_chosen : Cursor → F → Option (Got F)
    unfolding ngc_eval_expression ngc_read_parameter read_unary read_number
    read_chosen c old =
        let ch = peek c.rest in
        if ch == b'['
        then ngc_eval_expression c old
        else if ch == b'#'
        then ngc_read_parameter c old false
        else if ch == b'+' && signs c.rest
        then real (step 1 c) old
        else if ch == b'-' && signs c.rest
        then Option.map (λ (g : Got F). record g { value = m.neg g.value }) (real (step 1 c) old)
        else if leb b'A' ch && leb ch b'Z'
        then read_unary c old
        else read_number m c old

  unfoldable pub ngc_read_real_value : ℕ → Reader F
  unfolding read_chosen checked
  ngc_read_real_value zero c old = none
  ngc_read_real_value (suc fuel) c old =
      let chosen = Option.map (checked m) (read_chosen (ngc_read_real_value fuel) c old) in
      if peek c.rest == 0
      then some (record { status = expression_syntax_error; value = old; cursor = c })
      else chosen
