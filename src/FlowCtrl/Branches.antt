-- ===== src/FlowCtrl/Branches.antt =====
-- IF, ELSEIF, ELSE and ENDIF keep the invariant of the stack.
use cnc_3d.Common.{ℕ, arith}
use cnc_3d.FlowCtrl.Types.{FloatOps, Flow, Request}
use cnc_3d.FlowCtrl.Stack.{stack_push}
use cnc_3d.FlowCtrl.Branch.{exec_if, exec_else_if, exec_else, exec_end_if}
use cnc_3d.FlowCtrl.Valid.{IsValid, NoneSkips-of_top, OnlyTopSkips-below}

module _ {F : Type 0} (ops : FloatOps F) (c : Request F) {base : ℕ} (s : Flow F)
    (v : IsValid base s) where
  pub exec_if-IsValid : IsValid base (exec_if ops c s).1
  unfolding exec_if stack_push
  exec_if-IsValid = ground (arith, NoneSkips-of_top s.stack)

  pub exec_else_if-IsValid : IsValid base (exec_else_if ops c s).1
  unfolding exec_else_if
  exec_else_if-IsValid = ground arith

module _ {F : Type 0} (c : Request F) {base : ℕ} (s : Flow F) (v : IsValid base s) where
  pub exec_else-IsValid : IsValid base (exec_else c s).1
  unfolding exec_else
  exec_else-IsValid = ground arith

  pub exec_end_if-IsValid : IsValid base (exec_end_if c s).1
  unfolding exec_end_if
  exec_end_if-IsValid = ground (arith, OnlyTopSkips-below s.stack)
