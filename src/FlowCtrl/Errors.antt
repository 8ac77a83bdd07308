-- ===== src/FlowCtrl/Errors.antt =====
-- What an error leaves, and what a skipped block does.
use cnc_3d.Common.{
  ℕ, ◌≡◌, ◌≢◌, refl, arith, Bool, true, false, List, [], ◌∷◌, Option, none, some, ◌⊎◌, inl, inr,
}
use cnc_3d.FlowCtrl.Types.{
  NgcCmd, no_op, if_cmd, else_if, else_cmd, end_if, do_cmd, continue, break, while, end_while,
  repeat, end_repeat, sub_cmd, end_sub, call, return, raise_alarm, raise_error, FloatOps, Flow,
  Request, Entry, Sub, status_ok,
}
use cnc_3d.FlowCtrl.Stack.{ngc_flowctrl_init, clear_subs, pull_until, keep_subs, skipping}
use cnc_3d.FlowCtrl.Branch.{exec_if, exec_else_if, exec_else, exec_end_if}
use cnc_3d.FlowCtrl.Loop.{
  exec_do, exec_while, exec_end_while, exec_repeat, exec_end_repeat, exec_break, exec_continue,
  top_has_label,
}
use cnc_3d.FlowCtrl.Subs.{exec_call, exec_return}
use cnc_3d.FlowCtrl.Command.{read_command}
use cnc_3d.FlowCtrl.Exec.{
  exec_command, exec_raise_alarm, exec_raise_error, settle, run_found, ngc_flowctrl, Outcome,
}

pull_all : (l : List Entry) (level : ℕ) → (pull_until (λ e. false) l level).0 ≡ []
unfolding pull_until
pull_all [] level = refl
pull_all (e ∷ rest) level = pull_all rest _

keep_none : (l : List Sub) → keep_subs none l ≡ []
unfolding keep_subs
keep_none [] = refl
keep_none (x ∷ rest) = keep_none rest

module _ {F : Type 0} where
  abbrev pub IsReset : Outcome F → Type 0
  IsReset o = (o.flow.stack ≡ []) × (o.flow.subs ≡ []) × (o.skip ≡ false)

  settle_error : (r : ℕ × Flow F) → (settle r).status ≢ status_ok → IsReset (settle r)
  unfolding settle ngc_flowctrl_init clear_subs
  settle_error (status, s) h = ground (arith, pull_all s.stack s.call_level, keep_none s.subs)

  -- The state, its stack and `*skip` as they were, but for the position in the line.
  abbrev pub IsUntouched : Bool → Flow F → Outcome F → Type 0
  IsUntouched skip s o = (o.flow ≡ record s { pos = o.flow.pos }) × (o.skip ≡ skip)

module _ {F : Type 0} (ops : FloatOps F) (c : Request F) (skip : Bool) where
  run_found_error :
      (op : Option NgcCmd) (s : Flow F)
      → (run_found ops op c skip s).status ≢ status_ok
      → ((op ≡ none) × IsUntouched skip s (run_found ops op c skip s))
        ⊎ ((op ≢ none) × IsReset (run_found ops op c skip s))
  unfolding run_found
  run_found_error none s h = inl (refl, (refl, refl))
  run_found_error (some op) s h = inr (λ e. cc, settle_error (exec_command ops op c s) h)

  -- When a statement fails, either it could not be read, and then the state and `*skip` are as they
  -- were, or it was executed, and then the stack and the list of subroutines are empty and lines
  -- are no longer skipped.
  pub ngc_flowctrl_error :
      (s : Flow F)
      → let o = ngc_flowctrl ops c skip s in
        let op = (read_command c.line s.pos).0 in
        o.status ≢ status_ok → ((op ≡ none) × IsUntouched skip s o) ⊎ ((op ≢ none) × IsReset o)
  unfolding ngc_flowctrl
  ngc_flowctrl_error s h =
      let (op, pos) = read_command c.line s.pos in run_found_error op (record s { pos = pos }) h

-- The statements that a skipped block may hold; SUB and ENDSUB act also there.
abbrev pub is_plain : NgcCmd → Bool
is_plain sub_cmd = false
is_plain end_sub = false
is_plain no_op = false
is_plain _ = true

-- While a block of a file is skipped, a statement other than SUB and ENDSUB, with another label than
-- the innermost block's, succeeds and changes nothing: nested blocks are neither entered nor left, no expression is
-- evaluated, nothing is called, and no alarm or error is raised.
pub skipped_inert :
    {F : Type 0} (ops : FloatOps F) (op : NgcCmd) (c : Request F) (s : Flow F) (f : ℕ)
    → is_plain op ≡ true
    → s.streams.file ≡ some f
    → skipping s ≡ true
    → top_has_label c.o_label s.stack ≡ false
    → exec_command ops op c s ≡ (status_ok, s)
unfolding exec_command
skipped_inert ops no_op c s f p o k l = cc
skipped_inert ops sub_cmd c s f p o k l = cc
skipped_inert ops end_sub c s f p o k l = cc
skipped_inert ops if_cmd c s f p o k l = unfold exec_if in ground arith
skipped_inert ops else_if c s f p o k l = unfold exec_else_if in ground arith
skipped_inert ops else_cmd c s f p o k l = unfold exec_else in ground arith
skipped_inert ops end_if c s f p o k l = unfold exec_end_if in ground arith
skipped_inert ops do_cmd c s f p o k l = unfold exec_do in ground arith
skipped_inert ops while c s f p o k l = unfold exec_while in ground arith
skipped_inert ops end_while c s f p o k l = unfold exec_end_while in ground arith
skipped_inert ops repeat c s f p o k l = unfold exec_repeat in ground arith
skipped_inert ops end_repeat c s f p o k l = unfold exec_end_repeat in ground arith
skipped_inert ops break c s f p o k l = unfold exec_break in ground arith
skipped_inert ops continue c s f p o k l = unfold exec_continue in ground arith
skipped_inert ops call c s f p o k l = unfold exec_call in ground arith
skipped_inert ops return c s f p o k l = unfold exec_return in ground arith
skipped_inert ops raise_alarm c s f p o k l = unfold exec_raise_alarm in ground arith
skipped_inert ops raise_error c s f p o k l = unfold exec_raise_error in ground arith
