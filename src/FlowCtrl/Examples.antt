-- ===== src/FlowCtrl/Examples.antt =====
-- A concrete program for the theorems on flow control: floats are replaced by natural numbers, and
-- the macro file 7 is read.
use cnc_3d.Common.{
  ℕ, ◌≡◌, ◌≢◌, refl, Bool, true, false, List, [], ◌∷◌, ◌++◌, none, some, ◌⊎◌, ◌==◌, arith,
  replicate,
}
use cnc_3d.StreamFile.{Streams, file_type, file_read}
use cnc_3d.FlowCtrl.Types.{
  while, else_cmd, call, FloatOps, Flow, Request, Entry, Text, status_ok, status_syntax_error,
}
use cnc_3d.FlowCtrl.Stack.{pull_until}
use cnc_3d.FlowCtrl.Loop.{exec_repeat, exec_break}
use cnc_3d.FlowCtrl.Command.{codes, begins, read_command}
use cnc_3d.FlowCtrl.Exec.{exec_command, ngc_flowctrl, run_found, settle}
use cnc_3d.FlowCtrl.Valid.{IsValid}
use cnc_3d.FlowCtrl.Chain.{run_chain, run_chain_lem, succeed, skipped, conditions}
use cnc_3d.FlowCtrl.Rounds.{rounds, repeat_rounds}
use cnc_3d.FlowCtrl.Errors.{IsReset, IsUntouched, ngc_flowctrl_error, skipped_inert}
use cnc_3d.FlowCtrl.Invariant.{ngc_flowctrl-IsValid}
use cnc_3d.FlowCtrl.Keyword.{keyword, read_command-keyword}

abbrev ops : FloatOps ℕ
ops = record {
  zero = 0;
  one = 1;
  is_zero = λ v. v == 0;
  is_le_zero = λ v. v == 0;
  nearbyint = λ v. v;
  to_uint = λ v. v;
  to_alarm = λ v. v;
  to_status = λ v. v;
}

abbrev macro : Streams
macro = record {
  rd_streams = [];
  type = file_type;
  read = file_read;
  file = some 7;
  file_stream = false;
  error_handler_ok = true;
}

abbrev start : Flow ℕ
start = record {
  stack = [];
  skip_sub = false;
  subs = [];
  exec_sub = none;
  call_level = 0;
  next_node = 1;
  pos = 0;
  position = λ f. 40;
  streams = macro;
  log = [];
}

-- A statement with label 5 whose expression has the value `v`.
abbrev request : Text → ℕ → Request ℕ
request line v = record {
  o_label = 5;
  line = line;
  eval = λ t p. record { status = 0; value = v; next = p };
  has_name = false;
  opened = none;
  stream_alloc_ok = true;
  sub_alloc_ok = true;
  expr_alloc_ok = true;
  param_get = λ n. 0;
  param_set_ok = λ n. true;
  uninitialised = 0;
  has_macro_return = false;
  below_stack = none;
}

-- IF 0, ELSEIF 0, ELSEIF 1, ELSEIF 1, ELSE: the third branch runs.
abbrev tests : List (Request ℕ × Bool)
tests = (request [] 0, false) ∷ (request [] 1, true) ∷ (request [] 1, true) ∷ []

run_chain_lem_example :
    let (results, status, s') = run_chain ops (request [] 0) tests (request [] 0) start in
    (results ≡ succeed (skipped false (false ∷ (conditions tests ++ (true ∷ [])))))
    × (status ≡ status_ok)
    × (s'.stack ≡ [])
run_chain_lem_example =
    run_chain_lem ops (request [] 0) false tests (request [] 0) start (refl, λ t p. (refl, refl))
      (
        (refl, λ t p. (refl, refl)),
        ((refl, λ t p. (refl, refl)), ((refl, λ t p. (refl, refl)), tt)),
      )
      (omega arith) refl

third_branch :
    skipped false (false ∷ false ∷ true ∷ true ∷ true ∷ []) ≡ true ∷ true ∷ false ∷ true ∷ true ∷ []
unfolding skipped
third_branch = refl

repeat_rounds_example :
    let (status, s1) = exec_repeat ops (request [] 3) start in
    let (starts, s') = rounds 3 0 (λ s. record s { position = λ f. 90 }) (request [] 0) 7 s1 in
    (status ≡ status_ok) × (starts ≡ replicate 3 40) × (s'.stack ≡ [])
repeat_rounds_example =
    repeat_rounds ops (request [] 3) 7 2 3 (λ s. record s { position = λ f. 90 }) (request [] 0)
      start refl refl (omega arith) refl refl refl refl (λ s. (refl, refl, refl)) (omega arith)

start-IsValid : IsValid 0 start
start-IsValid = record { depth = omega arith; levels = refl; innermost = tt }

ngc_flowctrl-IsValid_example :
    IsValid 0 (ngc_flowctrl ops (request (codes "REPEAT[3]") 3) false start).flow
ngc_flowctrl-IsValid_example =
    ngc_flowctrl-IsValid ops (request (codes "REPEAT[3]") 3) false start start-IsValid

-- BREAK outside a loop.
break_fails : (ngc_flowctrl ops (request (codes "BREAK") 0) true start).status ≡ status_syntax_error
unfolding ngc_flowctrl read_command run_found exec_command exec_break settle pull_until
break_fails = refl

ngc_flowctrl_error_example :
    let o = ngc_flowctrl ops (request (codes "BREAK") 0) true start in
    let op = (read_command (codes "BREAK") 0).0 in
    ((op ≡ none) × IsUntouched true start o) ⊎ ((op ≢ none) × IsReset o)
ngc_flowctrl_error_example =
    ngc_flowctrl_error ops (request (codes "BREAK") 0) true start (λ e. omega (arith, break_fails))

-- A skipped block with label 9, in which a statement has label 5.
abbrev skipping_block : Entry
skipping_block = record {
  o_label = 9;
  operation = while;
  sub = none;
  file = some 7;
  file_pos = 20;
  expr = none;
  repeats = 0;
  skip = true;
  handled = false;
  brk = false;
}

skipped_inert_example :
    exec_command ops call (request [] 1) (record start { stack = skipping_block ∷ [] })
    ≡ (status_ok, record start { stack = skipping_block ∷ [] })
skipped_inert_example =
    skipped_inert ops call (request [] 1) (record start { stack = skipping_block ∷ [] }) 7 refl refl
      refl refl

read_command-keyword_example :
    read_command (codes "O5" ++ (keyword else_cmd ++ codes " (no)")) 2 ≡ (some else_cmd, 6)
read_command-keyword_example =
    read_command-keyword else_cmd (codes "O5") (codes " (no)") (unfold begins in refl)
