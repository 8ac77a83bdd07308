-- ===== src/FlowCtrl/Exec.antt =====
-- ngc_flowctrl.c: `ngc_flowctrl`, which reads a statement and executes it.
use cnc_3d.Common.{Option, ℕ, Bool, false, none, some, ◌==◌, if◌then◌else◌, drop}
use cnc_3d.FlowCtrl.Types.{
  NgcCmd, no_op, if_cmd, else_if, else_cmd, end_if, do_cmd, continue, break, while, end_while,
  repeat, end_repeat, sub_cmd, end_sub, call, return, raise_alarm, raise_error, status_ok,
  status_syntax_error, FloatOps, alarm, Flow, Request,
}
use cnc_3d.FlowCtrl.Stack.{skipping, emit, ngc_flowctrl_init}
use cnc_3d.FlowCtrl.Branch.{exec_if, exec_else_if, exec_else, exec_end_if}
use cnc_3d.FlowCtrl.Loop.{
  exec_do, exec_while, exec_end_while, exec_repeat, exec_end_repeat, exec_break, exec_continue,
}
use cnc_3d.FlowCtrl.Subs.{exec_sub_cmd, exec_end_sub, exec_call, exec_return}
use cnc_3d.FlowCtrl.Command.{read_command}

module _ {F : Type 0} (ops : FloatOps F) where
  unfoldable pub exec_raise_alarm : Request F → Flow F → ℕ × Flow F
  exec_raise_alarm c s =
      let r = c.eval c.line s.pos in
      let s1 = record s { pos = r.next } in
      if skipping s
      then (status_ok, s)
      else (status_ok, if r.status == status_ok then emit (alarm (ops.to_alarm r.value)) s1 else s1)

  unfoldable pub exec_raise_error : Request F → Flow F → ℕ × Flow F
  exec_raise_error c s =
      let r = c.eval c.line s.pos in
      let s1 = record s { pos = r.next } in
      if skipping s
      then (status_ok, s)
      else (if r.status == status_ok then ops.to_status r.value else status_ok, s1)

  -- The `switch` over the statement.
  unfoldable pub exec_command : NgcCmd → Request F → Flow F → ℕ × Flow F
  exec_command if_cmd c s = exec_if ops c s
  exec_command else_if c s = exec_else_if ops c s
  exec_command else_cmd c s = exec_else c s
  exec_command end_if c s = exec_end_if c s
  exec_command do_cmd c s = exec_do c s
  exec_command while c s = exec_while ops c (drop s.pos c.line) s
  exec_command end_while c s = exec_end_while ops c s
  exec_command repeat c s = exec_repeat ops c s
  exec_command end_repeat c s = exec_end_repeat c s
  exec_command break c s = exec_break c s
  exec_command continue c s = exec_continue ops c s
  exec_command raise_alarm c s = exec_raise_alarm c s
  exec_command raise_error c s = exec_raise_error c s
  exec_command sub_cmd c s = exec_sub_cmd c s
  exec_command end_sub c s = exec_end_sub ops c s
  exec_command call c s = exec_call ops c s
  exec_command return c s = exec_return ops c s
  exec_command no_op c s = (status_syntax_error, s)

-- What a call of `ngc_flowctrl` leaves: its status, `*skip`, and the state.
pub record Outcome (F : Type 0) : Type 0 where
  pub status : ℕ
  pub skip : Bool
  pub flow : Flow F

module _ {F : Type 0} where
  -- The end of `ngc_flowctrl`: an error resets the stack.
  unfoldable pub settle : ℕ × Flow F → Outcome F
  settle (status, s) =
      if status == status_ok
      then record { status = status; skip = skipping s; flow = s }
      else record { status = status; skip = false; flow = ngc_flowctrl_init s }

module _ {F : Type 0} (ops : FloatOps F) where
  unfoldable pub run_found : Option NgcCmd → Request F → Bool → Flow F → Outcome F
  run_found none c skip s = record { status = status_syntax_error; skip = skip; flow = s }
  run_found (some op) c skip s = settle (exec_command ops op c s)

  -- `ngc_flowctrl`. If the statement cannot be read, it returns at once and leaves `*skip` as it is.
  unfoldable pub ngc_flowctrl : Request F → Bool → Flow F → Outcome F
  ngc_flowctrl c skip s =
      let (op, pos) = read_command c.line s.pos in run_found op c skip (record s { pos = pos })
