-- ===== src/FlowCtrl/Branch.antt =====
-- ngc_flowctrl.c: the cases IF, ELSEIF, ELSE and ENDIF of `ngc_flowctrl`, and the evaluation of an
-- expression that all cases share.
use cnc_3d.Common.{ℕ, Bool, true, false, not, [], ◌∷◌, ◌==◌, if◌then◌else◌}
use cnc_3d.FlowCtrl.Types.{
  NgcCmd, if_cmd, else_if, else_cmd, status_ok, status_syntax_error, FloatOps, Flow, Request,
}
use cnc_3d.FlowCtrl.Stack.{set_top, skipping, last_op, stack_push, stack_pull}

abbrev pub is_if_or_else_if : NgcCmd → Bool
is_if_or_else_if if_cmd = true
is_if_or_else_if else_if = true
is_if_or_else_if _ = false

abbrev pub is_if_else_if_or_else : NgcCmd → Bool
is_if_else_if_or_else else_cmd = true
is_if_else_if_or_else op = is_if_or_else_if op

module _ {F : Type 0} where
  -- `(status = ngc_eval_expression(line, pos, &value)) == Status_OK`, and what then follows.
  abbrev pub evaluate : Request F → Flow F → (F → Flow F → ℕ × Flow F) → ℕ × Flow F
  evaluate c s next =
      let r = c.eval c.line s.pos in
      let s1 = record s { pos = r.next } in
      if r.status == status_ok then next r.value s1 else (r.status, s1)

  -- `(status = stack_push(o_label, operation)) == Status_OK`, and what then follows.
  abbrev pub pushing : Request F → NgcCmd → Flow F → (Flow F → ℕ × Flow F) → ℕ × Flow F
  pushing c op s next =
      let (status, s1) = stack_push c.o_label op s in
      if status == status_ok then next s1 else (status, s1)

  -- A statement that does not belong to the block on top of the stack.
  abbrev pub misplaced : Flow F → ℕ × Flow F
  misplaced s = if skipping s then (status_ok, s) else (status_syntax_error, s)

module _ {F : Type 0} (ops : FloatOps F) where
  unfoldable pub exec_if : Request F → Flow F → ℕ × Flow F
  exec_if c s =
      if skipping s
      then (status_ok, s)
      else evaluate c s (λ v s1. pushing c if_cmd s1 (λ s2. (
        status_ok,
        set_top (λ e. record e { skip = ops.is_zero v; handled = not (ops.is_zero v) }) s2,
      )))

  unfoldable pub exec_else_if : Request F → Flow F → ℕ × Flow F
  exec_else_if c s =
      if is_if_or_else_if (last_op s)
      then elim s.stack [
        | [] ↦ (status_ok, s)
        | e ∷ rest ↦
            if c.o_label == e.o_label
            then (let s1 = set_top (λ e. record e { skip = e.handled }) s in
                if e.handled
                then (status_ok, s1)
                else evaluate c s1 (λ v s2.
                  if ops.is_zero v
                  then (status_ok, set_top (λ e. record e { skip = true }) s2)
                  else (
                    status_ok,
                    set_top (λ e. record e { skip = false; operation = else_if; handled = true })
                        s2,
                  )))
            else (status_ok, s)
      ]
      else misplaced s

module _ {F : Type 0} where
  unfoldable pub exec_else : Request F → Flow F → ℕ × Flow F
  exec_else c s =
      if is_if_or_else_if (last_op s)
      then elim s.stack [
        | [] ↦ (status_ok, s)
        | e ∷ rest ↦
            if c.o_label == e.o_label
            then (if e.handled
                then (status_ok, set_top (λ e. record e { skip = true }) s)
                else (status_ok, set_top (λ e. record e { skip = false; operation = else_cmd }) s))
            else (status_ok, s)
      ]
      else misplaced s

  unfoldable pub exec_end_if : Request F → Flow F → ℕ × Flow F
  unfolding stack_pull
  exec_end_if c s =
      if is_if_else_if_or_else (last_op s)
      then elim s.stack [
        | [] ↦ (status_ok, s)
        | e ∷ rest ↦
            if c.o_label == e.o_label then (status_ok, (stack_pull s).1) else (status_ok, s)
      ]
      else misplaced s
