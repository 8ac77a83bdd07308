-- ===== src/FlowCtrl/Invariant.antt =====
-- Every statement keeps the invariant of the stack.
use cnc_3d.Common.{ℕ, arith, drop, Bool, Option, none, some}
use cnc_3d.FlowCtrl.Types.{
  NgcCmd, no_op, if_cmd, else_if, else_cmd, end_if, do_cmd, continue, break, while, end_while,
  repeat, end_repeat, sub_cmd, end_sub, call, return, raise_alarm, raise_error, FloatOps, Flow,
  Request,
}
use cnc_3d.FlowCtrl.Exec.{
  exec_command, exec_raise_alarm, exec_raise_error, settle, ngc_flowctrl, run_found,
}
use cnc_3d.FlowCtrl.Command.{read_command}
use cnc_3d.FlowCtrl.Valid.{IsValid}
use cnc_3d.FlowCtrl.Branches.{
  exec_if-IsValid, exec_else_if-IsValid, exec_else-IsValid, exec_end_if-IsValid,
}
use cnc_3d.FlowCtrl.Loops.{
  exec_do-IsValid, exec_while-IsValid, exec_end_while-IsValid, exec_repeat-IsValid,
  exec_end_repeat-IsValid, exec_break-IsValid, exec_continue-IsValid,
}
use cnc_3d.FlowCtrl.Calls.{
  exec_sub_cmd-IsValid, exec_end_sub-IsValid, exec_call-IsValid, exec_return-IsValid,
  ngc_flowctrl_init-IsValid,
}

module _ {F : Type 0} (ops : FloatOps F) (c : Request F) {base : ℕ} where
  exec_raise_alarm-IsValid :
      (s : Flow F) → IsValid base s → IsValid base (exec_raise_alarm ops c s).1
  unfolding exec_raise_alarm
  exec_raise_alarm-IsValid s v = ground arith

  exec_raise_error-IsValid :
      (s : Flow F) → IsValid base s → IsValid base (exec_raise_error ops c s).1
  unfolding exec_raise_error
  exec_raise_error-IsValid s v = ground arith

  exec_command-IsValid :
      (op : NgcCmd) (s : Flow F) → IsValid base s → IsValid base (exec_command ops op c s).1
  unfolding exec_command
  exec_command-IsValid no_op s v = v
  exec_command-IsValid if_cmd s v = exec_if-IsValid ops c s v
  exec_command-IsValid else_if s v = exec_else_if-IsValid ops c s v
  exec_command-IsValid else_cmd s v = exec_else-IsValid c s v
  exec_command-IsValid end_if s v = exec_end_if-IsValid c s v
  exec_command-IsValid do_cmd s v = exec_do-IsValid c s v
  exec_command-IsValid while s v = exec_while-IsValid ops c (drop s.pos c.line) s v
  exec_command-IsValid end_while s v = exec_end_while-IsValid ops c s v
  exec_command-IsValid repeat s v = exec_repeat-IsValid ops c s v
  exec_command-IsValid end_repeat s v = exec_end_repeat-IsValid c s v
  exec_command-IsValid break s v = exec_break-IsValid c s v
  exec_command-IsValid continue s v = exec_continue-IsValid ops c s v
  exec_command-IsValid raise_alarm s v = exec_raise_alarm-IsValid s v
  exec_command-IsValid raise_error s v = exec_raise_error-IsValid s v
  exec_command-IsValid sub_cmd s v = exec_sub_cmd-IsValid c s v
  exec_command-IsValid end_sub s v = exec_end_sub-IsValid ops c s v
  exec_command-IsValid call s v = exec_call-IsValid ops c s v
  exec_command-IsValid return s v = exec_return-IsValid ops c s v

settle-IsValid :
    {F : Type 0} {base : ℕ} (r : ℕ × Flow F) → IsValid base r.1 → IsValid base (settle r).flow
unfolding settle
settle-IsValid (status, s) v = ground (arith, ngc_flowctrl_init-IsValid s v)

run_found-IsValid :
    {F : Type 0} (ops : FloatOps F) (op : Option NgcCmd) (c : Request F) (skip : Bool) {base : ℕ}
    (s : Flow F)
    → IsValid base s
    → IsValid base (run_found ops op c skip s).flow
unfolding run_found
run_found-IsValid ops none c skip s v = v
run_found-IsValid ops (some op) c skip s v =
    settle-IsValid (exec_command ops op c s) (exec_command-IsValid ops c op s v)

-- Whatever the statement, the expressions' values and the failures of allocation, one call keeps
-- the stack at most 20 deep, with one call level above `base` for each entry of a called
-- subroutine, and with no skipping block below the innermost one.
pub ngc_flowctrl-IsValid :
    {F : Type 0} (ops : FloatOps F) (c : Request F) (skip : Bool) {base : ℕ} (s : Flow F)
    → IsValid base s
    → IsValid base (ngc_flowctrl ops c skip s).flow
unfolding ngc_flowctrl
ngc_flowctrl-IsValid ops c skip s v =
    let (op, pos) = read_command c.line s.pos in
    run_found-IsValid ops op c skip (record s { pos = pos }) v
