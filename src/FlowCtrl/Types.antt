-- ===== src/FlowCtrl/Types.antt =====
-- The data of stm32_firmware/core-master/ngc_flowctrl.c: statements, stack entries, subroutines, the
-- static variables, and what one call of `ngc_flowctrl` takes from other modules.
use cnc_3d.Common.{ℕ, Bool, Option, none, some, List, ◌==◌, true, false}
use cnc_3d.StreamFile.{Streams}

-- `ngc_cmd_t`
pub data NgcCmd : Type 0 where
  no_op if_cmd else_if else_cmd end_if do_cmd continue break while end_while : NgcCmd
  repeat end_repeat sub_cmd end_sub call return raise_alarm raise_error : NgcCmd

-- The codes of `status_code_t` that the file uses.
abbrev pub status_ok : ℕ
status_ok = 0

abbrev pub status_not_executing_macro : ℕ
status_not_executing_macro = 80

abbrev pub status_syntax_error : ℕ
status_syntax_error = 81

abbrev pub status_stack_overflow : ℕ
status_stack_overflow = 82

abbrev pub status_out_of_memory : ℕ
status_out_of_memory = 83

-- NGC_STACK_DEPTH, NGC_MAX_CALL_LEVEL and NGC_MAX_PARAM_ID
abbrev pub stack_depth : ℕ
stack_depth = 20

abbrev pub max_call_level : ℕ
max_call_level = 10

abbrev pub max_param_id : ℕ
max_param_id = 65535

-- A C string without its terminator.
abbrev pub Text : Type 0
Text = List ℕ

-- A `vfs_file_t *`, which may be NULL.
abbrev pub File : Type 0
File = Option ℕ

-- Pointer equality.
abbrev pub same : Option ℕ → Option ℕ → Bool
same none none = true
same none (some b) = false
same (some a) none = false
same (some a) (some b) = a == b

-- `ngc_sub_t` in the list `subs`; `node` is its address.
pub record Sub : Type 0 where
  pub node : ℕ
  pub o_label : ℕ
  pub file : File
  pub file_pos : ℕ

-- `ngc_stack_entry_t`; `sub` is the address of the subroutine.
pub record Entry : Type 0 where
  pub o_label : ℕ
  pub operation : NgcCmd
  pub sub : Option ℕ
  pub file : File
  pub file_pos : ℕ
  pub expr : Option Text
  pub repeats : ℕ
  pub skip : Bool
  pub handled : Bool
  pub brk : Bool

-- The operations of `float` that the file uses, and its casts to integers and enumerations.
pub record FloatOps (F : Type 0) : Type 0 where
  pub zero : F
  pub one : F
  pub is_zero : F → Bool
  pub is_le_zero : F → Bool
  pub nearbyint : F → F
  pub to_uint : F → ℕ
  pub to_alarm : F → ℕ
  pub to_status : F → ℕ

-- The two parameters that subroutines set.
pub data ReturnParam : Type 0 where
  value value_returned : ReturnParam

-- Calls into other modules that change what lies outside this file.
pub data Effect (F : Type 0) : Type 0 where
  alarm : ℕ → Effect F
  string_param_delete : ℕ → Effect F
  named_param_set : ReturnParam → F → Effect F
  param_set : ℕ → F → Effect F
  macro_return : Effect F
  null_seek : Effect F

-- The static variables, the caller's `*pos`, the files' read positions, the input stream, the
-- number of call levels in use (`call_level + 1` of ngc_params.c), the next address that `malloc`
-- gives, and the effects so far, the latest first. `stack` has its top first: the entries above
-- `stack_idx` are zero, since `stack_pull` clears what it leaves.
pub record Flow (F : Type 0) : Type 0 where
  pub stack : List Entry
  pub skip_sub : Bool
  pub subs : List Sub
  pub exec_sub : Option ℕ
  pub call_level : ℕ
  pub next_node : ℕ
  pub pos : ℕ
  pub position : ℕ → ℕ
  pub streams : Streams
  pub log : List (Effect F)

-- What `ngc_eval_expression` leaves: its status, the value, and the position after it.
pub record Eval (F : Type 0) : Type 0 where
  pub status : ℕ
  pub value : F
  pub next : ℕ

-- The arguments of one call of `ngc_flowctrl` and what it reads from other modules meanwhile.
pub record Request (F : Type 0) : Type 0 where
  pub o_label : ℕ
  pub line : Text
  pub eval : Text → ℕ → Eval F
  pub has_name : Bool
  pub opened : File
  pub stream_alloc_ok : Bool
  pub sub_alloc_ok : Bool
  pub expr_alloc_ok : Bool
  pub param_get : ℕ → F
  pub param_set_ok : ℕ → Bool
  pub uninitialised : F
  pub has_macro_return : Bool
  pub below_stack : File
