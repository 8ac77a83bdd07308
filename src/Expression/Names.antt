-- ===== src/Expression/Names.antt =====
-- The operators' names as `read_operation` and `read_operation_unary` find them.
use cnc_3d.Common.{ℕ, ◌+◌, ◌≡◌, refl, Bool, true, false, not, some, Option, ◌++◌, length, arith}
use cnc_3d.FlowCtrl.Types.{Text}
use cnc_3d.FlowCtrl.Command.{codes, begins}
use cnc_3d.Expression.Types.{Cursor}
use cnc_3d.Expression.Operators.{BinaryOp, no_op, times, find_name, read_operation}
use cnc_3d.Expression.Unary.{UnaryOp, abs, read_operation_unary}
use cnc_3d.Expression.Tree.{name, unary_name}
use cnc_3d.Expression.Digits.{at, ends_number}

-- `*` is read together with a second one.
abbrev pub follows : BinaryOp → Text → Bool
follows times rest = not (begins rest (codes "*"))
follows _ rest = true

-- What stands behind an operand: an operator or the closing bracket.
abbrev pub ends_operand : BinaryOp → Bool
ends_operand no_op = false
ends_operand _ = true

abbrev found_op : BinaryOp → ℕ → Text → Option BinaryOp × Cursor
found_op op p rest = (some op, at (p + length (name op)) rest)

pub read_operation-name :
    (op : BinaryOp) (p : ℕ) (rest : Text)
    → ends_operand op ≡ true
    → follows op rest ≡ true
    → read_operation (at p (name op ++ rest)) ≡ found_op op p rest
unfolding read_operation find_name begins
read_operation-name no_op p rest h k = cc
read_operation-name times p rest h k = ground (arith, k)
read_operation-name op p rest h k = ground arith

pub read_operation_unary-name :
    (op : UnaryOp) (p : ℕ) (rest : Text)
    → read_operation_unary (at p (unary_name op ++ rest))
      ≡ (let r : Option UnaryOp × Cursor = (some op, at (p + length (unary_name op)) rest) in r)
unfolding read_operation_unary find_name begins
read_operation_unary-name abs p rest = ground arith
read_operation_unary-name op p rest = ground arith

pub ends_number-name :
    (op : BinaryOp) (rest : Text) → ends_operand op ≡ true → ends_number (name op ++ rest) ≡ true
ends_number-name no_op rest h = cc
ends_number-name op rest h = refl
