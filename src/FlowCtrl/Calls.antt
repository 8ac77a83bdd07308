-- ===== src/FlowCtrl/Calls.antt =====
-- SUB, ENDSUB, CALL and RETURN keep the invariant of the stack.
use cnc_3d.Common.{
  ℕ, zero, suc, ◌+◌, ◌≡◌, refl, List, [], ◌∷◌, arith, ◌==◌, Option, some, none, not, false,
}
use cnc_3d.FlowCtrl.Types.{FloatOps, call, Flow, Request, Entry, Sub, File, same}
use cnc_3d.FlowCtrl.Stack.{
  stack_push, seek, pull_to, stack_unwind_sub, leave_sub, clear_subs, ngc_flowctrl_unwind_stack,
  ngc_flowctrl_init, leave_top, skipping,
}
use cnc_3d.FlowCtrl.Subs.{
  exec_sub_cmd, exec_end_sub, exec_call, exec_return, return_value, read_args, set_params,
  enter_sub, lookup_sub, top_file, set_one_param, start_sub, fill_entry, call_found, call_params,
}
use cnc_3d.FlowCtrl.Valid.{IsValid, NoneSkips-of_top, OnlyTopSkips-below, pull_to-IsValid}

-- Two states with the same stack and call levels.
abbrev SameStack : {F : Type 0} → Flow F → Flow F → Type 0
SameStack s t = (t.stack ≡ s.stack) × (t.call_level ≡ s.call_level) × (t.skip_sub ≡ s.skip_sub)

module _ {F : Type 0} where
  seek-SameStack : (f : File) (p : ℕ) (s : Flow F) → SameStack s (seek f p s)
  unfolding seek
  seek-SameStack f p s = ground arith

  leave_sub-SameStack : (label : ℕ) (e : Entry) (s : Flow F) → SameStack s (leave_sub label e s)
  unfolding leave_sub
  leave_sub-SameStack label e s = ground arith

  read_args-SameStack : (c : Request F) (n : ℕ) (s : Flow F) → SameStack s (read_args c n s).2
  unfolding read_args
  read_args-SameStack c zero s = (refl, refl, refl)
  read_args-SameStack c (suc n) s =
      ground (arith, read_args-SameStack c n (record s { pos = (c.eval c.line s.pos).next }))

  lookup_sub-SameStack : (c : Request F) (s : Flow F) → SameStack s (lookup_sub c s).1
  unfolding lookup_sub
  lookup_sub-SameStack c s = ground arith

module _ {F : Type 0} (ops : FloatOps F) where
  set_one_param-SameStack :
      (c : Request F) (id : ℕ) (v : F) (r : ℕ × Flow F)
      → SameStack r.1 (set_one_param ops c id v r).1
  unfolding set_one_param
  set_one_param-SameStack c id v (status, s) = ground arith

  set_params-SameStack :
      (c : Request F) (id : ℕ) (vs : List F) (r : ℕ × Flow F)
      → SameStack r.1 (set_params ops c id vs r).1
  unfolding set_params
  set_params-SameStack c id [] r = (refl, refl, refl)
  set_params-SameStack c id (v ∷ vs) r = ground (
    arith,
    set_one_param-SameStack c id v r,
    set_params-SameStack c (id + 1) vs (set_one_param ops c id v r),
  )

  start_sub-SameStack :
      (c : Request F) (x : Sub) (vs : List F) (s : Flow F) → SameStack s (start_sub ops c x vs s).1
  unfolding start_sub seek
  start_sub-SameStack c x vs s = ground (arith, set_params-SameStack c 1 (call_params c vs) (0, s))

  return_value-SameStack : (c : Request F) (s : Flow F) → SameStack s (return_value ops c s)
  unfolding return_value
  return_value-SameStack c s = ground arith

module _ {F : Type 0} {base : ℕ} where
  leave_top-IsValid :
      (label : ℕ) (l : List Entry) (s : Flow F)
      → s.stack ≡ l
      → IsValid base s
      → IsValid base (leave_top label l s)
  unfolding leave_top
  leave_top-IsValid label [] s p v = v
  leave_top-IsValid label (e ∷ rest) s p v =
      ground (arith, leave_sub-SameStack label e s, OnlyTopSkips-below s.stack)

  stack_unwind_sub-IsValid :
      (label : ℕ) (s : Flow F) → IsValid base s → IsValid base (stack_unwind_sub label s)
  unfolding stack_unwind_sub
  stack_unwind_sub-IsValid label s v =
      let found = pull_to (λ e. e.o_label == label) s in
      ground (
        arith,
        leave_top-IsValid label found.stack found refl
            (pull_to-IsValid (λ e. e.o_label == label) s v),
      )

  ngc_flowctrl_unwind_stack-IsValid :
      (file : File) (s : Flow F) → IsValid base s → IsValid base (ngc_flowctrl_unwind_stack file s)
  unfolding ngc_flowctrl_unwind_stack
  ngc_flowctrl_unwind_stack-IsValid file s v =
      pull_to-IsValid (λ e. not (same e.file file)) (clear_subs file s) v

  pub ngc_flowctrl_init-IsValid : (s : Flow F) → IsValid base s → IsValid base (ngc_flowctrl_init s)
  unfolding ngc_flowctrl_init
  ngc_flowctrl_init-IsValid s v = pull_to-IsValid (λ e. false) (clear_subs none s) v

  pub exec_sub_cmd-IsValid :
      (c : Request F) (s : Flow F) → IsValid base s → IsValid base (exec_sub_cmd c s).1
  unfolding exec_sub_cmd
  exec_sub_cmd-IsValid c s v = ground arith

module _ {F : Type 0} (ops : FloatOps F) (c : Request F) {base : ℕ} (s : Flow F)
    (v : IsValid base s) where
  pub exec_end_sub-IsValid : IsValid base (exec_end_sub ops c s).1
  unfolding exec_end_sub
  exec_end_sub-IsValid = ground (
    arith,
    stack_unwind_sub-IsValid c.o_label s v,
    return_value-SameStack ops c (stack_unwind_sub c.o_label s),
  )

  pub exec_return-IsValid : IsValid base (exec_return ops c s).1
  unfolding exec_return
  exec_return-IsValid = ground (
    arith,
    stack_unwind_sub-IsValid c.o_label s v,
    ngc_flowctrl_unwind_stack-IsValid (top_file c s.stack) s v,
    return_value-SameStack ops c (stack_unwind_sub c.o_label s),
    return_value-SameStack ops c (ngc_flowctrl_unwind_stack (top_file c s.stack) s),
    return_value-SameStack ops c s,
  )

module _ {F : Type 0} {base : ℕ} where
  push_call-IsValid :
      (label : ℕ) (x : Sub) (s : Flow F)
      → skipping s ≡ false
      → IsValid base s
      → IsValid base (stack_push label call s).1
        × IsValid base (fill_entry x (stack_push label call s).1)
  unfolding stack_push fill_entry
  push_call-IsValid label x s quiet v = ground (arith, NoneSkips-of_top s.stack)

module _ {F : Type 0} (ops : FloatOps F) (c : Request F) {base : ℕ} where
  enter_sub-IsValid :
      (x : Sub) (s : Flow F)
      → skipping s ≡ false
      → IsValid base s
      → IsValid base (enter_sub ops c x s).1
  unfolding enter_sub
  enter_sub-IsValid x s quiet v =
      let r = read_args c 30 s in
      let pushed = (stack_push c.o_label call r.2).1 in
      ground (
        arith,
        read_args-SameStack c 30 s,
        push_call-IsValid {base = base} c.o_label x r.2,
        start_sub-SameStack ops c x r.1 (fill_entry x pushed),
      )

  call_found-IsValid :
      (found : Option Sub) (s : Flow F)
      → skipping s ≡ false
      → IsValid base s
      → IsValid base (call_found ops c found s).1
  unfolding call_found
  call_found-IsValid none s quiet v = v
  call_found-IsValid (some x) s quiet v = enter_sub-IsValid x s quiet v

  pub exec_call-IsValid : (s : Flow F) → IsValid base s → IsValid base (exec_call ops c s).1
  unfolding exec_call
  exec_call-IsValid s v =
      ground
        (arith, lookup_sub-SameStack c s, call_found-IsValid (lookup_sub c s).0 (lookup_sub c s).1)
