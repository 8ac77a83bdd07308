-- ===== src/FlowCtrl/Subs.antt =====
-- ngc_flowctrl.c: the cases of `ngc_flowctrl` for SUB, ENDSUB, CALL and RETURN.
use cnc_3d.Common.{
  ℕ, zero, suc, ◌+◌, ◌-◌, true, false, ◌&&◌, Option, none, some, List, [], ◌∷◌, ◌++◌, ◌==◌, ltb,
  if◌then◌else◌, length, get_or,
}
use cnc_3d.StreamFile.{stream_redirect_read}
use cnc_3d.FlowCtrl.Types.{
  call, status_ok, status_syntax_error, status_out_of_memory, max_param_id, File, same, Sub, Entry,
  FloatOps, value, value_returned, named_param_set, param_set, macro_return, Flow, Request,
}
use cnc_3d.FlowCtrl.Stack.{
  set_top, emit, skipping, stack_unwind_sub, ngc_flowctrl_unwind_stack, add_sub, seek, tell,
}
use cnc_3d.FlowCtrl.Branch.{pushing}
use cnc_3d.FlowCtrl.Loop.{in_macro}

-- The search of SUB: the first node that fits, or else the last one.
pub find_or_last : ℕ → File → List Sub → Option Sub
find_or_last label file [] = none
find_or_last label file (x ∷ []) = some x
find_or_last label file (x ∷ y ∷ rest) =
    if x.o_label == label && same x.file file then some x else find_or_last label file (y ∷ rest)

-- The search of CALL: the first node that fits.
pub find_sub : ℕ → File → List Sub → Option Sub
find_sub label file [] = none
find_sub label file (x ∷ rest) =
    if x.o_label == label && same x.file file then some x else find_sub label file rest

-- The numbers by which the model names the handlers of a named subroutine's file.
abbrev pub on_named_sub_error : Option ℕ
on_named_sub_error = some 1

abbrev pub on_named_sub_eof : Option ℕ
on_named_sub_eof = some 2

module _ {F : Type 0} where
  unfoldable pub exec_sub_cmd : Request F → Flow F → ℕ × Flow F
  unfolding find_or_last add_sub
  exec_sub_cmd c s = in_macro s (
      if ltb max_param_id c.o_label
      then elim (find_or_last c.o_label s.streams.file s.subs) [
        | none ↦ (status_syntax_error, s)
        | some x ↦ if x.o_label == c.o_label then (status_ok, s) else (status_syntax_error, s)
      ]
      else (let (added, s1) = add_sub c.sub_alloc_ok c.o_label s.streams.file s in
          elim added [
            | none ↦ (status_out_of_memory, record s1 { skip_sub = false })
            | some x ↦ (status_ok, record s1 { skip_sub = true })
          ]))

  -- The loop over the arguments of CALL, `n` of the 30 left: the status and the values read.
  unfoldable pub read_args : Request F → ℕ → Flow F → ℕ × List F × Flow F
  read_args c zero s = (status_ok, [], s)
  read_args c (suc n) s =
      let r = c.eval c.line s.pos in
      let (status, vs, s1) = read_args c n (record s { pos = r.next }) in
      if get_or c.line s.pos 0 == 0
      then (status_ok, [], s)
      else (if r.status == status_ok
          then (status, r.value ∷ vs, s1)
          else (r.status, r.value ∷ [], record s { pos = r.next }))

  -- `n` parameters from number `id` on, as they are before the call.
  current_params : Request F → ℕ → ℕ → List F
  current_params c id zero = []
  current_params c id (suc n) = c.param_get id ∷ current_params c (id + 1) n

  -- `params` after both loops. The second fills what the first left over only if
  -- `param_id < 30`: after 29 arguments the last element stays uninitialised.
  unfoldable pub call_params : Request F → List F → List F
  unfolding current_params
  call_params c vs =
      let param_id = length vs + 1 in
      if ltb param_id 30
      then vs ++ current_params c param_id (31 - param_id)
      else (if param_id == 30 then vs ++ (c.uninitialised ∷ []) else vs)

  -- The subroutine that CALL means: for a named one its file is opened and it is added. Whatever
  -- status the search leaves is replaced when it finds nothing.
  unfoldable pub lookup_sub : Request F → Flow F → Option Sub × Flow F
  unfolding find_sub add_sub stream_redirect_read
  lookup_sub c s =
      if ltb max_param_id c.o_label
      then (if c.has_name
          then (let (file, t) =
                stream_redirect_read c.opened c.stream_alloc_ok on_named_sub_error on_named_sub_eof
                  s.streams in
              let s1 = record s { streams = t } in
              elim file [
                | none ↦ (none, s1)
                | some f ↦ add_sub c.sub_alloc_ok c.o_label (some f) s1
              ])
          else (none, s))
      else (find_sub c.o_label s.streams.file s.subs, s)

  -- RETURN outside a subroutine unwinds the file of the top entry. With no entry the source reads
  -- the memory below the stack: `below_stack`.
  abbrev pub top_file : Request F → List Entry → File
  top_file c [] = c.below_stack
  top_file c (e ∷ rest) = e.file

  -- The fields of the new entry that CALL sets itself.
  unfoldable pub fill_entry : Sub → Flow F → Flow F
  fill_entry x s =
      record (set_top
        (λ e. record e {
          sub = some x.node;
          file = s.streams.file;
          file_pos = tell s.streams.file s;
          repeats = 1;
        })
        s) { exec_sub = some x.node }

module _ {F : Type 0} (ops : FloatOps F) where
  -- The loop that sets the parameters which are not zero; a failure is remembered.
  unfoldable pub set_one_param : Request F → ℕ → F → ℕ × Flow F → ℕ × Flow F
  set_one_param c id v (status, s) =
      if ops.is_zero v
      then (status, s)
      else (if c.param_set_ok id then status else status_out_of_memory, emit (param_set id v) s)

  unfoldable pub set_params : Request F → ℕ → List F → ℕ × Flow F → ℕ × Flow F
  set_params c id [] r = r
  set_params c id (v ∷ vs) r = set_params c (id + 1) vs (set_one_param c id v r)

  -- What CALL does once its entry is on the stack: pass the parameters and go to the subroutine.
  unfoldable pub start_sub : Request F → Sub → List F → Flow F → ℕ × Flow F
  start_sub c x vs s =
      let (status, s1) = set_params c 1 (call_params c vs) (status_ok, s) in
      if status == status_ok
      then (
        status_ok,
        seek x.file x.file_pos (
            emit (named_param_set value_returned ops.zero)
              (emit (named_param_set value ops.zero) s1)),
      )
      else (status, s1)

  -- The part of CALL once the subroutine is known.
  unfoldable pub enter_sub : Request F → Sub → Flow F → ℕ × Flow F
  enter_sub c x s =
      let (status, vs, s1) = read_args c 30 s in
      if status == status_ok
      then pushing c call s1 (λ s2. start_sub c x vs (fill_entry x s2))
      else (status, s1)

  unfoldable pub call_found : Request F → Option Sub → Flow F → ℕ × Flow F
  call_found c none s = (status_syntax_error, s)
  call_found c (some x) s = enter_sub c x s

  unfoldable pub exec_call : Request F → Flow F → ℕ × Flow F
  exec_call c s =
      let (found, s1) = lookup_sub c s in
      let called = if skipping s then (status_ok, s) else call_found c found s1 in
      if ltb max_param_id c.o_label then called else in_macro s called

  -- Set the value that a subroutine returns, if the statement has one.
  unfoldable pub return_value : Request F → Flow F → Flow F
  return_value c s =
      let r = c.eval c.line s.pos in
      let s1 = record s { pos = r.next } in
      if r.status == status_ok
      then emit (named_param_set value_returned ops.one) (emit (named_param_set value r.value) s1)
      else emit (named_param_set value_returned ops.zero) s1

  unfoldable pub exec_end_sub : Request F → Flow F → ℕ × Flow F
  exec_end_sub c s = in_macro s (
      let s1 = if s.skip_sub then s else return_value c (stack_unwind_sub c.o_label s) in
      (status_ok, record s1 { skip_sub = false }))

  unfoldable pub exec_return : Request F → Flow F → ℕ × Flow F
  exec_return c s = in_macro s (
      if skipping s then (status_ok, s) else elim s.exec_sub [
        | some x ↦ (status_ok, return_value c (stack_unwind_sub c.o_label s))
        | none ↦
            if c.has_macro_return
            then (
              status_ok,
              emit macro_return (return_value c (ngc_flowctrl_unwind_stack (top_file c s.stack) s)),
            )
            else (status_ok, return_value c s)
      ])
