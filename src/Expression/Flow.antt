-- ===== src/Expression/Flow.antt =====
-- The expressions of ngc_expr.c in the statements of ngc_flowctrl.c: what `ngc_flowctrl` gets from its
-- calls of `ngc_eval_expression`, and IF with the text of an expression.
use cnc_3d.Common.{
  ℕ, ◌+◌, ◌<◌, ◌≡◌, refl, ap, ap₂, sym, ◌∙◌, Bool, true, false, not, Option, none, some, ◌∷◌, ◌++◌,
  append_assoc, drop, length, length-append, arith,
}
use cnc_3d.FlowCtrl.Types.{
  Text, status_ok, NgcCmd, if_cmd, Eval, FloatOps, Flow, Request, Entry, stack_depth,
}
use cnc_3d.FlowCtrl.Command.{codes, read_command}
use cnc_3d.FlowCtrl.Keyword.{read_command-keyword}
use cnc_3d.FlowCtrl.Stack.{skipping, fresh_entry, stack_push}
use cnc_3d.FlowCtrl.Branch.{exec_if}
use cnc_3d.FlowCtrl.Exec.{exec_command, settle, run_found, ngc_flowctrl}
use cnc_3d.Expression.Types.{FloatMath, World, Got, expression_syntax_error}
use cnc_3d.Expression.Read.{ngc_eval_expression, ngc_read_real_value}
use cnc_3d.Expression.Tree.{Expr, WellFormed, text, bracket, eval}
use cnc_3d.Expression.Digits.{at}
use cnc_3d.Expression.Name.{drop-append}
use cnc_3d.Expression.Shape.{length-bracket_any}
use cnc_3d.Expression.RoundTrip.{ngc_eval_expression-text}

module _ {F : Type 0} (m : FloatMath F) (w : World F) where
  -- What a reader leaves, for `ngc_flowctrl`; readers with enough fuel give no `none`.
  abbrev as_eval : F → ℕ → Option (Got F) → Eval F
  as_eval old p none = record { status = expression_syntax_error; value = old; next = p }
  as_eval old p (some g) = record { status = g.status; value = g.value; next = g.cursor.pos }

  -- The call of `ngc_eval_expression` with a line and `*pos`.
  unfoldable pub eval_text : Text → ℕ → Eval F
  eval_text line p =
      let rest = drop p line in
      as_eval (w.stale p) p
        (ngc_eval_expression m w (ngc_read_real_value m w (length rest)) (at p rest) (w.stale p))

  eval_text-text :
      (e : Expr) (pre rest : Text) {v : F}
      → WellFormed e
      → eval m w e ≡ some v
      → eval_text (pre ++ (bracket true (text e) ++ rest)) (length pre) ≡ record {
        status = status_ok;
        value = v;
        next = length pre + length (bracket true (text e));
      }
  unfolding eval_text
  eval_text-text e pre rest {v} h k =
      let p = length pre in
      let z = bracket true (text e) ++ rest in
      let room = length-append (bracket true (text e)) rest in
      let closing = length-bracket_any true (text e) in
      ap
        (λ t.
          as_eval (w.stale p) p
            (ngc_eval_expression m w (ngc_read_real_value m w (length t)) (at p t) (w.stale p)))
        (drop-append pre z)
      ∙ ap (as_eval (w.stale p) p)
          (ngc_eval_expression-text m w e (length z) p rest (w.stale p) h (omega arith) k)

module _ {F : Type 0} (ops : FloatOps F) where
  exec_if-value :
      (c : Request F) (s : Flow F) {v : F} {next : ℕ}
      → c.eval c.line s.pos ≡ record { status = status_ok; value = v; next = next }
      → skipping s ≡ false
      → length s.stack < stack_depth
      → exec_if ops c s ≡ (
          let entry : Entry = record (fresh_entry c.o_label if_cmd s) {
            skip = ops.is_zero v;
            handled = not (ops.is_zero v);
          } in
          let r : ℕ × Flow F = (status_ok, record s { pos = next; stack = entry ∷ s.stack }) in r)
  unfolding exec_if stack_push
  exec_if-value c s e k room = ground (arith, e)

-- What an IF with a condition of value `v` leaves.
abbrev pub opened_if : {F : Type 0} → FloatOps F → Request F → Flow F → F → ℕ → Flow F
opened_if ops c s v next =
    let entry : Entry = record (fresh_entry c.o_label if_cmd s) {
      skip = ops.is_zero v;
      handled = not (ops.is_zero v);
    } in
    record s { pos = next; stack = entry ∷ s.stack }

module _ {F : Type 0} (ops : FloatOps F) (c : Request F) where
  ngc_flowctrl-found :
      (skip : Bool) (s : Flow F) (p : ℕ)
      → read_command c.line s.pos ≡ (let r : Option NgcCmd × ℕ = (some if_cmd, p) in r)
      → ngc_flowctrl ops c skip s ≡ settle (exec_if ops c (record s { pos = p }))
  unfolding ngc_flowctrl run_found exec_command
  ngc_flowctrl-found skip s p h = rw (h, ngc_flowctrl) refl

  settle-if :
      (s : Flow F) (v : F) (next : ℕ)
      → skipping s ≡ false
      → settle (let r : ℕ × Flow F = (status_ok, opened_if ops c s v next) in r)
        ≡ record { status = status_ok; skip = ops.is_zero v; flow = opened_if ops c s v next }
  unfolding settle
  settle-if s v next h = ground (arith, h)

module _ {F : Type 0} (ops : FloatOps F) (m : FloatMath F) (w : World F) where
  -- IF with the text of a well-formed expression that has a value, wherever it stands in a line, with
  -- no block skipped and room on the stack: the call succeeds, leaves the position just behind the
  -- expression's closing bracket, opens a block, and has the lines of it skipped just if the value
  -- is zero.
  pub ngc_flowctrl-if :
      (c : Request F) (e : Expr) (pre rest : Text) (skip : Bool) (s : Flow F) {v : F}
      → WellFormed e
      → eval m w e ≡ some v
      → c.eval ≡ eval_text m w
      → c.line ≡ pre ++ (codes "IF" ++ (bracket true (text e) ++ rest))
      → s.pos ≡ length pre
      → skipping s ≡ false
      → length s.stack < stack_depth
      → ngc_flowctrl ops c skip s ≡ record {
        status = status_ok;
        skip = ops.is_zero v;
        flow = opened_if ops c s v (length (pre ++ codes "IF") + length (bracket true (text e)));
      }
  ngc_flowctrl-if c e pre rest skip s {v} h k eval_is line_is pos_is going room =
      let x = bracket true (text e) ++ rest in
      let two : length pre + 2 ≡ length (pre ++ codes "IF") =
        omega (arith, length-append pre (codes "IF")) in
      let read = ap₂ read_command line_is pos_is ∙ read_command-keyword if_cmd pre x tt in
      let s1 : Flow F = record s { pos = length pre + 2 } in
      let value =
        ap (λ f. f c.line (length pre + 2)) eval_is
        ∙ ap₂ (eval_text m w) (line_is ∙ sym (append_assoc pre (codes "IF") x)) two
        ∙ eval_text-text m w e (pre ++ codes "IF") rest h k in
      ngc_flowctrl-found ops c skip s (length pre + 2) read
      ∙ ap settle (exec_if-value ops c s1 value going room)
      ∙ settle-if ops c s v (length (pre ++ codes "IF") + length (bracket true (text e))) going
