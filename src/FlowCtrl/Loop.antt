-- ===== src/FlowCtrl/Loop.antt =====
-- ngc_flowctrl.c: the cases of `ngc_flowctrl` for DO, WHILE, REPEAT, BREAK and CONTINUE.
use cnc_3d.Common.{
  ℕ, ◌-◌, Bool, true, false, ◌||◌, ◌&&◌, none, some, List, [], ◌∷◌, ◌==◌, if◌then◌else◌,
}
use cnc_3d.FlowCtrl.Types.{
  NgcCmd, do_cmd, while, repeat, status_ok, status_syntax_error, status_out_of_memory,
  status_not_executing_macro, Text, Entry, FloatOps, Flow, Request,
}
use cnc_3d.FlowCtrl.Stack.{set_top, skipping, last_op, stack_pull, pull_to, seek, tell}
use cnc_3d.FlowCtrl.Branch.{evaluate, pushing, misplaced}

abbrev pub is_do : NgcCmd → Bool
is_do do_cmd = true
is_do _ = false

abbrev pub is_while : NgcCmd → Bool
is_while while = true
is_while _ = false

abbrev pub is_repeat : NgcCmd → Bool
is_repeat repeat = true
is_repeat _ = false

-- `stack[stack_idx].expr`; a WHILE entry that does not skip has one.
abbrev pub expr_of : Entry → Text
expr_of e = elim e.expr [ none ↦ [] | some t ↦ t ]

abbrev pub top_brk : List Entry → Bool
top_brk [] = false
top_brk (e ∷ rest) = e.brk

abbrev pub top_has_label : ℕ → List Entry → Bool
top_has_label label [] = false
top_has_label label (e ∷ rest) = label == e.o_label

module _ {F : Type 0} where
  -- `if(hal.stream.file) … else status = Status_FlowControlNotExecutingMacro`
  abbrev pub in_macro : Flow F → ℕ × Flow F → ℕ × Flow F
  in_macro s r = elim s.streams.file [ none ↦ (status_not_executing_macro, s) | some f ↦ r ]

  -- `vfs_seek(stack[stack_idx].file, stack[stack_idx].file_pos)`
  unfoldable pub rewind : Flow F → Flow F
  unfolding seek
  rewind s = elim s.stack [ [] ↦ s | e ∷ rest ↦ seek e.file e.file_pos s ]

  -- `stack_pull()` with its result ignored.
  unfoldable pub pull : Flow F → Flow F
  unfolding stack_pull
  pull s = (stack_pull s).1

  abbrev pub pull_if_skipped : ℕ × Flow F → ℕ × Flow F
  pull_if_skipped (status, s) = elim s.stack [
    | [] ↦ (status, s)
    | e ∷ rest ↦ if e.skip then (status, pull s) else (status, s)
  ]

  unfoldable pub exec_do : Request F → Flow F → ℕ × Flow F
  exec_do c s = in_macro s (
      if skipping s
      then (status_ok, s)
      else pushing c do_cmd s (λ s1. (
        status_ok,
        set_top (λ e. record e { file_pos = tell s1.streams.file s1; skip = false }) s1,
      )))

module _ {F : Type 0} (ops : FloatOps F) where
  -- WHILE that opens a block: the expression is kept for ENDWHILE.
  unfoldable pub open_while : Request F → Text → F → Flow F → ℕ × Flow F
  open_while c expr v s = pushing c while s (λ s1.
      if ops.is_zero v
      then (status_ok, set_top (λ e. record e { skip = true }) s1)
      else (if c.expr_alloc_ok
          then (
            status_ok,
            set_top
                (λ e. record e {
                  skip = false;
                  expr = some expr;
                  file = s1.streams.file;
                  file_pos = tell s1.streams.file s1;
                })
                s1,
          )
          else (status_out_of_memory, set_top (λ e. record e { skip = false }) s1)))

  -- `expr` is `line + *pos` as it was before the expression was evaluated.
  unfoldable pub exec_while : Request F → Text → Flow F → ℕ × Flow F
  exec_while c expr s = in_macro s (
      let closes_do = is_do (last_op s) && top_has_label c.o_label s.stack in
      if top_brk s.stack
      then (status_ok, if closes_do then pull s else s)
      else (if skipping s
          then (status_ok, s)
          else evaluate c s (λ v s1.
            if closes_do
            then (status_ok, if ops.is_zero v then pull s1 else rewind s1)
            else open_while c expr v s1)))

  -- The test of ENDWHILE and of CONTINUE in a WHILE: evaluate the kept expression, and go back to
  -- the start of the block or mark it as skipped.
  unfoldable pub test_again : Request F → Entry → Flow F → ℕ × Flow F
  unfolding rewind
  test_again c e s =
      if e.skip
      then (status_ok, s)
      else (let r = c.eval (expr_of e) 0 in
          if r.status == status_ok
          then (if ops.is_zero r.value
              then (status_ok, set_top (λ e. record e { skip = true }) s)
              else (status_ok, rewind (set_top (λ e. record e { skip = false }) s)))
          else (r.status, s))

  unfoldable pub exec_end_while : Request F → Flow F → ℕ × Flow F
  unfolding test_again pull
  exec_end_while c s = in_macro s (
      if is_while (last_op s)
      then elim s.stack [
        | [] ↦ (status_ok, s)
        | e ∷ rest ↦
            if c.o_label == e.o_label
            then pull_if_skipped (if skipping s then (status_ok, s) else test_again c e s)
            else (status_ok, s)
      ]
      else misplaced s)

  unfoldable pub exec_repeat : Request F → Flow F → ℕ × Flow F
  exec_repeat c s = in_macro s (
      if skipping s
      then (status_ok, s)
      else evaluate c s (λ v s1. pushing c repeat s1 (λ s2.
        let n = ops.nearbyint v in
        if ops.is_le_zero n then (status_ok, set_top (λ e. record e { skip = true }) s2) else (
          status_ok,
          set_top
              (λ e. record e {
                skip = false;
                file = s2.streams.file;
                file_pos = tell s2.streams.file s2;
                repeats = ops.to_uint n;
              })
              s2,
        ))))

module _ {F : Type 0} where
  -- `stack[stack_idx].repeats && --stack[stack_idx].repeats`: go round once more, or do `last`.
  unfoldable pub count_round : Entry → Flow F → (Flow F → Flow F) → Flow F
  unfolding rewind
  count_round e s last =
      if e.repeats == 0
      then last s
      else (let s1 = set_top (λ e. record e { repeats = e.repeats - 1 }) s in
          if e.repeats - 1 == 0 then last s1 else rewind s1)

  unfoldable pub exec_end_repeat : Request F → Flow F → ℕ × Flow F
  unfolding count_round pull
  exec_end_repeat c s = in_macro s (
      if is_repeat (last_op s)
      then elim s.stack [
        | [] ↦ (status_ok, s)
        | e ∷ rest ↦
            if c.o_label == e.o_label
            then (status_ok, if skipping s then pull s else count_round e s pull)
            else (status_ok, s)
      ]
      else misplaced s)

  unfoldable pub exec_break : Request F → Flow F → ℕ × Flow F
  exec_break c s = in_macro s (
      if skipping s
      then (status_ok, s)
      else (let s1 = pull_to (λ e. c.o_label == e.o_label) s in
          let op = last_op s1 in
          if is_do op || is_while op || is_repeat op
          then (
            status_ok,
            if top_has_label c.o_label s1.stack
                then set_top
                    (λ e. record e { repeats = 0; brk = true; skip = true; handled = true }) s1
                else s1,
          )
          else (status_syntax_error, s1)))

module _ {F : Type 0} (ops : FloatOps F) where
  -- CONTINUE at the entry that it looked for.
  unfoldable pub continue_at : Request F → Entry → Flow F → ℕ × Flow F
  continue_at c e s =
      if is_repeat e.operation
      then (status_ok, count_round e s (set_top (λ e. record e { skip = true })))
      else (if is_do e.operation
          then (status_ok, rewind s)
          else (if is_while e.operation
              then pull_if_skipped (test_again ops c e s)
              else (status_syntax_error, s)))

  unfoldable pub continue_in : Request F → List Entry → Flow F → ℕ × Flow F
  continue_in c [] s = (status_syntax_error, s)
  continue_in c (e ∷ rest) s = continue_at c e s

  unfoldable pub exec_continue : Request F → Flow F → ℕ × Flow F
  exec_continue c s = in_macro s (
      if skipping s
      then (status_ok, s)
      else (let s1 = pull_to (λ e. c.o_label == e.o_label) s in continue_in c s1.stack s1))
