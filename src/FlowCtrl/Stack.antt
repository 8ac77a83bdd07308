-- ===== src/FlowCtrl/Stack.antt =====
-- ngc_flowctrl.c: the statement stack and the list of subroutines.
use cnc_3d.Common.{
  ℕ, ◌+◌, ◌-◌, Bool, true, false, not, ◌&&◌, ◌||◌, Option, none, some, List, [], ◌∷◌, ◌++◌, ◌==◌,
  ltb, if◌then◌else◌, length,
}
use cnc_3d.StreamFile.{Streams, stream_redirect_close}
use cnc_3d.FlowCtrl.Types.{
  NgcCmd, no_op, sub_cmd, call, status_ok, status_stack_overflow, stack_depth, max_call_level,
  max_param_id, File, same, Sub, Entry, Effect, string_param_delete, null_seek, Flow,
}

abbrev pub is_call : NgcCmd → Bool
is_call call = true
is_call _ = false

abbrev pub top_skip : List Entry → Bool
top_skip [] = false
top_skip (e ∷ rest) = e.skip

abbrev pub update_top : (Entry → Entry) → List Entry → List Entry
update_top f [] = []
update_top f (e ∷ rest) = f e ∷ rest

abbrev pub top_sub : List Entry → Option ℕ
top_sub [] = none
top_sub (e ∷ rest) = e.sub

-- `ngc_call_pop` releases a call level, if there is one.
abbrev pub level_after : NgcCmd → ℕ → ℕ
level_after op level = if is_call op then level - 1 else level

-- `while(o_label != stack[stack_idx].o_label && stack_pull());` and the like: the entries that
-- stay on the stack, and the call levels. The loop ends at an empty stack.
unfoldable pub pull_until : (Entry → Bool) → List Entry → ℕ → List Entry × ℕ
pull_until stop [] level = ([], level)
pull_until stop (e ∷ rest) level =
    let below = pull_until stop rest (level_after e.operation level) in
    if stop e then (e ∷ rest, level) else below

-- The list that `clear_subs` leaves: NULL clears all.
unfoldable pub keep_subs : File → List Sub → List Sub
keep_subs file [] = []
keep_subs none (x ∷ rest) = keep_subs none rest
keep_subs (some f) (x ∷ rest) =
    if same (some f) x.file then keep_subs (some f) rest else x ∷ keep_subs (some f) rest

abbrev close_stream : File → Streams → Streams
close_stream none t = t
close_stream (some f) t = stream_redirect_close f t

module _ {F : Type 0} where
  abbrev pub emit : Effect F → Flow F → Flow F
  emit e s = record s { log = e ∷ s.log }

  -- `vfs_tell` and `vfs_seek`; a seek on NULL is a fault.
  abbrev pub tell : File → Flow F → ℕ
  tell none s = 0
  tell (some f) s = s.position f

  unfoldable pub seek : File → ℕ → Flow F → Flow F
  seek none p s = emit null_seek s
  seek (some f) p s = record s { position = λ g. if g == f then p else s.position g }

  abbrev pub set_top : (Entry → Entry) → Flow F → Flow F
  set_top f s = record s { stack = update_top f s.stack }

  -- `skipping` and `last_op` of `ngc_flowctrl`
  abbrev pub skipping : Flow F → Bool
  skipping s = s.skip_sub || top_skip s.stack

  abbrev pub last_op : Flow F → NgcCmd
  last_op s = elim s.stack [ [] ↦ if s.skip_sub then sub_cmd else no_op | e ∷ rest ↦ e.operation ]

  -- What `stack_push` writes into a cleared entry.
  abbrev pub fresh_entry : ℕ → NgcCmd → Flow F → Entry
  fresh_entry label op s = record {
    o_label = label;
    operation = op;
    sub = s.exec_sub;
    file = s.streams.file;
    file_pos = 0;
    expr = none;
    repeats = 0;
    skip = false;
    handled = false;
    brk = false;
  }

  -- `ngc_call_push` reserves a call level.
  unfoldable pub stack_push : ℕ → NgcCmd → Flow F → ℕ × Flow F
  stack_push label op s =
      if ltb (length s.stack) stack_depth && (not (is_call op) || ltb s.call_level max_call_level)
      then (
        status_ok,
        record s {
          stack = fresh_entry label op s ∷ s.stack;
          call_level = if is_call op then s.call_level + 1 else s.call_level;
        },
      )
      else (status_stack_overflow, s)

  unfoldable pub stack_pull : Flow F → Bool × Flow F
  stack_pull s = elim s.stack [
    | [] ↦ (false, s)
    | e ∷ rest ↦
        (true, record s { stack = rest; call_level = level_after e.operation s.call_level })
  ]

  abbrev pub pull_to : (Entry → Bool) → Flow F → Flow F
  pull_to stop s =
      let (stack, level) = pull_until stop s.stack s.call_level in
      record s { stack = stack; call_level = level }

  unfoldable pub clear_subs : File → Flow F → Flow F
  clear_subs file s = record s { subs = keep_subs file s.subs }

  -- `add_sub`: the node that it allocates, at the end of the list.
  unfoldable pub add_sub : Bool → ℕ → File → Flow F → Option Sub × Flow F
  add_sub false label file s = (none, s)
  add_sub true label file s =
      let new : Sub = record {
        node = s.next_node;
        o_label = label;
        file = file;
        file_pos = tell file s;
      } in
      (some new, record s { subs = s.subs ++ (new ∷ []); next_node = s.next_node + 1 })

-- The first loop of `get_refcount`: the label of the last named subroutine, 0 if there is none.
last_named : ℕ → List Sub → ℕ
last_named label [] = label
last_named label (x ∷ rest) =
    last_named (if ltb max_param_id x.o_label then x.o_label else label) rest

-- Its second loop: the last subroutine with that label, and how many have it.
count_label : ℕ → Option ℕ → ℕ → List Sub → Option ℕ × ℕ
count_label label last n [] = (last, n)
count_label label last n (x ∷ rest) =
    count_label label (if x.o_label == label then some x.node else last)
      (if x.o_label == label then n + 1 else n) rest

unfoldable pub get_refcount : List Sub → Option ℕ × ℕ
unfolding last_named count_label
get_refcount subs = count_label (last_named 0 subs) none 0 subs

module _ {F : Type 0} where
  -- The part of `stack_unwind_sub` at the entry that it looked for.
  unfoldable pub leave_sub : ℕ → Entry → Flow F → Flow F
  unfolding seek clear_subs
  leave_sub label e s =
      if ltb max_param_id label
      then (let (last, count) = get_refcount s.subs in
          let s1 =
            if same e.sub last && count == 1 then emit (string_param_delete label) s else s in
          let s2 = clear_subs e.file s1 in record s2 { streams = close_stream e.file s2.streams })
      else seek e.file e.file_pos s

  -- `stack` is that of the state.
  unfoldable pub leave_top : ℕ → List Entry → Flow F → Flow F
  unfolding stack_pull
  leave_top label [] s = s
  leave_top label (e ∷ rest) s = (stack_pull (leave_sub label e s)).1

  unfoldable pub stack_unwind_sub : ℕ → Flow F → Flow F
  stack_unwind_sub label s =
      let found = pull_to (λ e. e.o_label == label) s in
      let left = leave_top label found.stack found in record left { exec_sub = top_sub left.stack }

  unfoldable pub ngc_flowctrl_unwind_stack : File → Flow F → Flow F
  unfolding clear_subs
  ngc_flowctrl_unwind_stack file s = pull_to (λ e. not (same e.file file)) (clear_subs file s)

  -- `ngc_flowctrl_init`, but for the handler that its first call installs. `skip_sub` and `exec_sub`
  -- keep their values.
  unfoldable pub ngc_flowctrl_init : Flow F → Flow F
  unfolding clear_subs
  ngc_flowctrl_init s = pull_to (λ e. false) (clear_subs none s)

  -- `onNamedSubEOF`: the end of a file that the top entry reads.
  unfoldable pub on_named_sub_eof : File → Flow F → Flow F
  unfolding ngc_flowctrl_unwind_stack
  on_named_sub_eof file s = elim s.stack [
    | [] ↦ s
    | e ∷ rest ↦
        if same e.file file
        then ngc_flowctrl_unwind_stack e.file (record s { streams = close_stream e.file s.streams })
        else s
  ]
