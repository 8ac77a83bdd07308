-- ===== src/Expression/FlowExamples.antt =====
-- A line with IF and an expression, for the theorem on statements.
use cnc_3d.Common.{ℕ, ◌+◌, ◌≡◌, refl, false, true, none, [], ◌++◌, ◌==◌, length, arith}
use cnc_3d.StreamFile.{file_type, file_read}
use cnc_3d.FlowCtrl.Types.{FloatOps, Flow, Request, status_ok}
use cnc_3d.FlowCtrl.Command.{codes}
use cnc_3d.FlowCtrl.Exec.{ngc_flowctrl}
use cnc_3d.Expression.Tree.{text, bracket}
use cnc_3d.Expression.Examples.{math, world, tree, tree_value, tree-WellFormed}
use cnc_3d.Expression.Flow.{eval_text, opened_if, ngc_flowctrl-if}

abbrev ops : FloatOps ℕ
ops = record {
  zero = 0;
  one = 1;
  is_zero = λ v. v == 0;
  is_le_zero = λ v. v == 0;
  nearbyint = λ v. v;
  to_uint = λ v. v;
  to_alarm = λ v. v;
  to_status = λ v. v;
}

-- A program without a file, behind its `O1`.
abbrev flow : Flow ℕ
flow = record {
  stack = [];
  skip_sub = false;
  subs = [];
  exec_sub = none;
  call_level = 0;
  next_node = 1;
  pos = 2;
  position = λ f. 0;
  streams = record {
    rd_streams = [];
    type = file_type;
    read = file_read;
    file = none;
    file_stream = false;
    error_handler_ok = true;
  };
  log = [];
}

abbrev request : Request ℕ
request = record {
  o_label = 1;
  line = codes "O1" ++ (codes "IF" ++ (bracket true (text tree) ++ []));
  eval = eval_text math world;
  has_name = false;
  opened = none;
  stream_alloc_ok = true;
  sub_alloc_ok = true;
  expr_alloc_ok = true;
  param_get = λ n. 0;
  param_set_ok = λ n. true;
  uninitialised = 0;
  has_macro_return = false;
  below_stack = none;
}

ngc_flowctrl-if_example : ngc_flowctrl ops request false flow ≡ record {
  status = status_ok;
  skip = false;
  flow =
      opened_if ops request flow 15
        (length (codes "O1" ++ codes "IF") + length (bracket true (text tree)));
}
ngc_flowctrl-if_example =
    ngc_flowctrl-if ops math world request tree (codes "O1") [] false flow tree-WellFormed
      tree_value refl refl refl refl (omega arith)
