-- ===== src/Expression/Ends.antt =====
-- The readers that call `ngc_read_real_value` end if it does: fuel above the length of what is left of the line is enough.
use mathlib.Core.Option
use mathlib.Core.Path.{subst}
use cnc_3d.Common.{
  ℕ, zero, suc, ◌≤◌, ◌<◌, ◌≡◌, refl, ap, sym, Bool, true, Option, some, [], ◌==◌, length, arith,
  Bool-cases, Option-cases, inl, inr, if◌then◌else◌,
}
use cnc_3d.FlowCtrl.Types.{status_ok}
use cnc_3d.Expression.Types.{
  Cursor, peek, step, ℤ, pos, FloatMath, World, Got, Outcome, ok, error, bad_number_format,
  unknown_op, unsupported_command, expression_syntax_error,
}
use cnc_3d.Expression.Operators.{BinaryOp, read_operation}
use cnc_3d.Expression.Stack.{Stack, reduce, closed, first_value}
use cnc_3d.Expression.Values.{to_integer, named_parameter, numbered_parameter}
use cnc_3d.Expression.Read.{
  Reader, ngc_read_integer_value, ngc_read_parameter, read_operand, with_stack, with_operand,
  eval_loop, ngc_eval_expression, read_atan,
}
use cnc_3d.Expression.Progress.{
  left, left-step, left-step_one, left-read_operation, left-read_operation-some,
  left-named_parameter, left-numbered_parameter,
}

-- A reader that returned, with at most so many characters left.
abbrev pub Ends : {F : Type 0} → ℕ → Option (Got F) → Type 0
Ends {F} bound r = (g : Got F) × (r ≡ some g) × (left g.cursor ≤ bound)

-- A reader that returns for every text of at most this length.
abbrev pub Total : {F : Type 0} → ℕ → Reader F → Type 0
Total {F} n real = (c : Cursor) (old : F) → left c ≤ n → Ends (left c) (real c old)

pub Ends-le : {F : Type 0} {i j : ℕ} (r : Option (Got F)) → i ≤ j → Ends i r → Ends j r
Ends-le r h (g, e, k) = (g, e, omega arith)

pub Ends-map :
    {F : Type 0} {i : ℕ} (f : Got F → Got F) (r : Option (Got F))
    → ((g : Got F) → (f g).cursor ≡ g.cursor)
    → Ends i r
    → Ends i (Option.map f r)
Ends-map f r h (g, e, k) = (f g, ap (Option.map f) e, omega (arith, ap left (h g)))

module _ {F : Type 0} (m : FloatMath F) (next : Stack F → Cursor → Option (Got F)) (old : F) where
  stack_Ends :
      (o : Outcome (Stack F)) (end : Cursor) {bound : ℕ}
      → left end ≤ bound
      → ((stack : Stack F) → Ends (left end) (next stack end))
      → Ends bound (with_stack next old end o)
  unfolding with_stack
  stack_Ends (error status) end h k =
      (record { status = status; value = old; cursor = end }, refl, h)
  stack_Ends (ok stack) end h k = Ends-le (next stack end) h (k stack)

  operand_Ends :
      (stack : Stack F) (r : Outcome (F × BinaryOp)) (end : Cursor) {bound : ℕ}
      → left end ≤ bound
      → ((x : F × BinaryOp) (stack' : Stack F) → r ≡ ok x → Ends (left end) (next stack' end))
      → Ends bound (with_operand m next old stack (some (r, end)))
  unfolding with_operand
  operand_Ends stack (error status) end h k =
      (record { status = status; value = old; cursor = end }, refl, h)
  operand_Ends stack (ok (v, op)) end h k =
      stack_Ends (reduce m v op stack) end h (λ stack'. k (v, op) stack' refl)

module _ {F : Type 0} (m : FloatMath F) (w : World F) (n : ℕ) (real : Reader F)
    (t : Total n real) where
  pub integer_ends :
      (c : Cursor) (old : ℤ)
      → left c ≤ n
      → (r : ℕ × ℤ × Cursor) × (ngc_read_integer_value m w real c old ≡ some r)
        × (left r.2 ≤ left c)
  unfolding ngc_read_integer_value
  integer_ends c old h =
      let (g, e, k) = t c (w.stale c.pos) h in
      elim (Bool-cases (g.status == status_ok)) [
        | inl b ↦ (
          ((to_integer m g.value).0, (to_integer m g.value).1, g.cursor),
          rw (e, ngc_read_integer_value) (rw b refl),
          k,
        )
        | inr b ↦ ((g.status, old, g.cursor), rw (e, ngc_read_integer_value) (rw b refl), k)
      ]

  pub parameter_shorter :
      (c : Cursor) (old : F) (check : Bool)
      → (peek c.rest == b'#') ≡ true
      → left c ≤ suc n
      → (g : Got F) × (ngc_read_parameter m w real c old check ≡ some g) × (left g.cursor < left c)
  unfolding ngc_read_parameter
  parameter_shorter c old check a h =
      let c' = step 1 c in
      let shorter = left-step_one c (ground (arith, a)) in
      elim (Bool-cases (peek c'.rest == b'<')) [
        | inl b ↦ (
          named_parameter m w c' old,
          rw (a, ngc_read_parameter) (rw b refl),
          omega (arith, left-named_parameter m w c' old),
        )
        | inr b ↦
            let (r, e, k) = integer_ends c' (pos 0) (omega arith) in
            (
              numbered_parameter m w r old check,
              rw (a, ngc_read_parameter)
                  (rw b (ap (Option.map (λ r. numbered_parameter m w r old check)) e)),
              omega (arith, left-numbered_parameter m w r old check),
            )
      ]

  pub parameter-Ends :
      (c : Cursor) (old : F) (check : Bool)
      → left c ≤ suc n
      → Ends (left c) (ngc_read_parameter m w real c old check)
  unfolding ngc_read_parameter
  parameter-Ends c old check h = elim (Bool-cases (peek c.rest == b'#')) [
    | inr a ↦ (
      record { status = bad_number_format; value = old; cursor = c },
      rw (a, ngc_read_parameter) refl,
      omega arith,
    )
    | inl a ↦ let (g, e, k) = parameter_shorter c old check a h in (g, e, omega arith)
  ]

  -- An operand and its operator take at least one character.
  operand_ends :
      (c : Cursor)
      → left c ≤ n
      → (r : Outcome (F × BinaryOp)) × (end : Cursor) × (read_operand m w real c
          ≡ (let o : Option (Outcome (F × BinaryOp) × Cursor) = some (r, end) in o))
        × (left end ≤ left c)
        × ((x : F × BinaryOp) → r ≡ ok x → left end < left c)
  unfolding read_operand
  operand_ends c h =
      let (g, e, k) = t c (w.stale c.pos) h in
      let end = (read_operation g.cursor).1 in
      let le = left-read_operation g.cursor in
      elim (Bool-cases (g.status == status_ok)) [
        | inr b ↦ (error g.status, g.cursor, rw (e, read_operand) (rw b refl), k, λ x h. cc)
        | inl b ↦ elim (Option-cases (read_operation g.cursor).0) [
          | inl f ↦ (
            error unknown_op,
            end,
            rw (e, read_operand) (rw b (rw f refl)),
            omega arith,
            λ x h. cc,
          )
          | inr (op, f) ↦
              let lt = left-read_operation-some g.cursor f in
              (
                ok (g.value, op),
                end,
                rw (e, read_operand) (rw b (rw f refl)),
                omega arith,
                λ x h. omega arith,
              )
        ]
      ]

  -- The loop ends with a round for each character at most.
  loop-Ends :
      (fuel : ℕ) (old : F) (stack : Stack F) (c : Cursor)
      → left c ≤ n
      → left c < fuel
      → Ends (left c) (eval_loop m w real fuel old stack c)
  unfolding eval_loop
  loop-Ends zero old stack c h k = absurd (omega arith)
  loop-Ends (suc fuel) old stack c h k =
      let (r, end, e, le, lt) = operand_ends c h in
      elim (Bool-cases (closed stack)) [
        | inl b ↦ (
          record { status = status_ok; value = first_value old stack; cursor = c },
          rw (b, eval_loop) refl,
          omega arith,
        )
        | inr b ↦
            rw (b, eval_loop)
              (subst (λ o. Ends (left c) (with_operand m (eval_loop m w real fuel old) old stack o))
                (sym e)
                (operand_Ends m (eval_loop m w real fuel old) old stack r end le (λ x stack' q.
                  let shorter = lt x q in
                  loop-Ends fuel old stack' end (omega arith) (omega arith))))
      ]

  pub expression-Ends :
      (c : Cursor) (old : F) → left c ≤ suc n → Ends (left c) (ngc_eval_expression m w real c old)
  unfolding ngc_eval_expression
  expression-Ends c old h = elim (Bool-cases (peek c.rest == b'[')) [
    | inr b ↦ (
      record { status = unsupported_command; value = old; cursor = c },
      rw (b, ngc_eval_expression) refl,
      omega arith,
    )
    | inl b ↦
        let shorter = left-step_one c (ground (arith, b)) in
        rw (b, ngc_eval_expression)
          (Ends-le (eval_loop m w real (suc (length c.rest)) old [] (step 1 c)) (omega arith)
            (loop-Ends (suc (length c.rest)) old [] (step 1 c) (omega arith) (omega arith)))
  ]

  pub atan-Ends : (c : Cursor) (v : F) → left c ≤ n → Ends (left c) (read_atan m w real c v)
  unfolding read_atan
  atan-Ends c v h =
      let c' = step 1 c in
      let shorter = left-step 1 c in
      elim (Bool-cases (peek c.rest == b'/')) [
        | inr a ↦ (
          record { status = expression_syntax_error; value = v; cursor = c },
          rw (a, read_atan) refl,
          omega arith,
        )
        | inl a ↦ elim (Bool-cases (peek c'.rest == b'[')) [
          | inr b ↦ (
            record { status = expression_syntax_error; value = v; cursor = c' },
            rw (a, read_atan) (rw b refl),
            omega arith,
          )
          | inl b ↦
              let (g, e, k) = expression-Ends c' (w.stale c'.pos) (omega arith) in
              let f = λ (g : Got F). record g {
                value = (if g.status == status_ok then m.mul (m.atan2 v g.value) m.deg_rad else v);
              } in
              (f g, rw (a, read_atan) (rw b (ap (Option.map f) e)), omega arith)
        ]
      ]
