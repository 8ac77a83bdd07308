-- ===== src/Expression/Unary.antt =====
-- ngc_expr.c: the unary operations, their names, and what they compute.
use cnc_3d.Common.{ℕ, Bool, Option, [], ◌∷◌, ◌==◌, ◌||◌, if◌then◌else◌}
use cnc_3d.FlowCtrl.Types.{status_ok}
use cnc_3d.FlowCtrl.Command.{codes}
use cnc_3d.Expression.Types.{Cursor, peek, step, FloatMath, argument_out_of_range, unknown_op}
use cnc_3d.Expression.Operators.{Names, find_name}

-- `ngc_unary_op_t`
pub data UnaryOp : Type 0 where
  abs acos asin atan cos exp fix fup ln round sin sqrt tan exists parameter : UnaryOp

module _ {F : Type 0} (m : FloatMath F) where
  abbrev outside_unit : F → Bool
  outside_unit v = m.lt v (m.neg m.one) || m.lt m.one v

  -- The status, and `*operand` afterwards.
  unfoldable pub execute_unary : F → UnaryOp → ℕ × F
  execute_unary v abs = (status_ok, (if m.lt v m.zero then m.mul (m.neg m.one) v else v))
  execute_unary v acos =
      if outside_unit v then (argument_out_of_range, v) else (status_ok, m.mul (m.acos v) m.deg_rad)
  execute_unary v asin =
      if outside_unit v then (argument_out_of_range, v) else (status_ok, m.mul (m.asin v) m.deg_rad)
  execute_unary v cos = (status_ok, m.cos (m.mul v m.rad_deg))
  execute_unary v exists = (status_ok, v)
  execute_unary v exp = (status_ok, m.exp v)
  execute_unary v fix = (status_ok, m.floor v)
  execute_unary v fup = (status_ok, m.ceil v)
  execute_unary v ln = if m.le v m.zero then (argument_out_of_range, v) else (status_ok, m.log v)
  execute_unary v round =
      (status_ok, m.of_fixed (m.fixed (m.add v (if m.lt v m.zero then m.neg m.half else m.half))))
  execute_unary v sin = (status_ok, m.sin (m.mul v m.rad_deg))
  execute_unary v sqrt = if m.lt v m.zero then (argument_out_of_range, v) else (status_ok, m.sqrt v)
  execute_unary v tan = (status_ok, m.tan (m.mul v m.rad_deg))
  execute_unary v _ = (unknown_op, v)

-- The `switch` over the first character, the tests of each letter in their order.
abbrev pub unary_names : ℕ → Names UnaryOp
unary_names c =
    if c == b'A'
    then (codes "BS", abs) ∷ (codes "COS", acos) ∷ (codes "SIN", asin) ∷ (codes "TAN", atan) ∷ []
    else (if c == b'C'
        then (codes "OS", cos) ∷ []
        else (if c == b'E'
            then (codes "XP", exp) ∷ (codes "XISTS", exists) ∷ []
            else (if c == b'F'
                then (codes "IX", fix) ∷ (codes "UP", fup) ∷ []
                else (if c == b'L'
                    then (codes "N", ln) ∷ []
                    else (if c == b'R'
                        then (codes "OUND", round) ∷ []
                        else (if c == b'S'
                            then (codes "IN", sin) ∷ (codes "QRT", sqrt) ∷ []
                            else (if c == b'T'
                                then (codes "AN", tan) ∷ []
                                else (if c == b'P' then (codes "RM", parameter) ∷ [] else []))))))))

-- The operation, or none for Status_ExpressionUknownOp, and the position behind what was read.
unfoldable pub read_operation_unary : Cursor → Option UnaryOp × Cursor
unfolding find_name
read_operation_unary c = find_name (unary_names (peek c.rest)) (step 1 c)
