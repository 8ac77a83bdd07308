-- ===== src/Expression/Total.antt =====
-- The readers end: fuel above the length of what is left of the line is enough.
use mathlib.Core.Option
use cnc_3d.Common.{
  ℕ, zero, suc, ◌≤◌, ◌<◌, ◌≡◌, refl, ap, Bool, true, false, Option, none, some, [], ◌∷◌, ◌==◌,
  length, arith, Bool-cases, Option-cases, inl, inr, if◌then◌else◌,
}
use cnc_3d.FlowCtrl.Types.{Text, status_ok}
use cnc_3d.Expression.Types.{
  Cursor, peek, step, pos, FloatMath, World, Got, bad_number_format, unknown_op,
  expression_syntax_error,
}
use cnc_3d.Expression.Number.{read_float}
use cnc_3d.Expression.Unary.{UnaryOp, atan, exists, parameter, read_operation_unary}
use cnc_3d.Expression.Values.{read_exists, close_setting, setting_bit}
use cnc_3d.Expression.Read.{
  Reader, ngc_read_parameter, apply_unary, read_setting, run_unary, named_unary, read_unary,
  read_number, read_chosen, checked, ngc_read_real_value,
}
use cnc_3d.Expression.Progress.{
  left, left-step, left-step_one, left-read_operation_unary, left-read_float, left-read_exists,
  left-close_setting, left-setting_bit,
}
use cnc_3d.Expression.Ends.{
  Ends, Total, Ends-le, Ends-map, integer_ends, parameter_shorter, parameter-Ends, expression-Ends,
  atan-Ends,
}

module _ {F : Type 0} (m : FloatMath F) (w : World F) (n : ℕ) (real : Reader F)
    (t : Total n real) where
  apply-Ends :
      (op : UnaryOp) (g : Got F)
      → left g.cursor ≤ n
      → Ends (left g.cursor) (apply_unary m w real op g)
  unfolding apply_unary
  apply-Ends atan g h = atan-Ends m w n real t g.cursor g.value h
  apply-Ends op g h = (_, refl, omega arith)

  setting-Ends : (c : Cursor) (old : F) → left c ≤ n → Ends (left c) (read_setting m w real c old)
  unfolding read_setting
  setting-Ends c old h =
      let ((status, id, end), e, k) = integer_ends m w n real t c (pos 0) h in
      let c' = step 1 end in
      let shorter = left-step 1 end in
      elim (Bool-cases (status == status_ok)) [
        | inr a ↦ (
          record { status = status; value = old; cursor = end },
          rw (e, read_setting) (rw a refl),
          k,
        )
        | inl a ↦ elim (Bool-cases (peek end.rest == b',')) [
          | inl b ↦
              let (r, f, l) = integer_ends m w n real t c' (pos 0) (omega arith) in
              (
                setting_bit m w id r old,
                rw (e, read_setting)
                    (rw a (rw b (ap (Option.map (λ r. setting_bit m w id r old)) f))),
                omega (arith, left-setting_bit m w id r old),
              )
          | inr b ↦ (
            close_setting m w id none end old,
            rw (e, read_setting) (rw a (rw b refl)),
            omega (arith, left-close_setting m w id none end old),
          )
        ]
      ]

  run-Ends :
      (op : UnaryOp) (c : Cursor) (old : F)
      → left c ≤ n
      → Ends (left c) (run_unary m w real op c old)
  unfolding run_unary
  run-Ends exists c old h = (
    read_exists m w (step 1 c) old,
    refl,
    omega (arith, left-read_exists m w (step 1 c) old, left-step 1 c),
  )
  run-Ends parameter c old h =
      Ends-le (read_setting m w real (step 1 c) old) (left-step 1 c)
        (setting-Ends (step 1 c) old (omega (arith, left-step 1 c)))
  run-Ends op c old h =
      let (g, e, k) = expression-Ends m w n real t c old (omega arith) in
      elim (Bool-cases (g.status == status_ok)) [
        | inr a ↦ (g, rw (e, run_unary) (rw a refl), k)
        | inl a ↦
            let (g', f, l) = apply-Ends op g (omega arith) in
            (g', rw (e, run_unary) (rw a f), omega arith)
      ]

  named-Ends :
      (r : Option UnaryOp × Cursor) (old : F)
      → left r.1 ≤ n
      → Ends (left r.1) (named_unary m w real r old)
  unfolding named_unary
  named-Ends (none, end) old h =
      (record { status = unknown_op; value = old; cursor = end }, refl, omega arith)
  named-Ends (some op, end) old h = elim (Bool-cases (peek end.rest == b'[')) [
    | inl b ↦ rw (b, named_unary) (run-Ends op end old h)
    | inr b ↦ (
      record { status = expression_syntax_error; value = old; cursor = end },
      rw (b, named_unary) refl,
      omega arith,
    )
  ]

  unary-Ends :
      (c : Cursor) (old : F)
      → (peek c.rest == 0) ≡ false
      → left c ≤ suc n
      → Ends (left c) (read_unary m w real c old)
  unfolding read_unary
  unary-Ends c old z h =
      let shorter = left-read_operation_unary c z in
      Ends-le (named_unary m w real (read_operation_unary c) old) (omega arith)
        (named-Ends (read_operation_unary c) old (omega arith))

  sign-Ends :
      (c : Cursor) (old : F)
      → (peek c.rest == 0) ≡ false
      → left c ≤ suc n
      → Ends (left c) (real (step 1 c) old)
  sign-Ends c old z h =
      let shorter = left-step_one c z in
      Ends-le (real (step 1 c) old) (omega arith) (t (step 1 c) old (omega arith))

  number-Ends : (c : Cursor) (old : F) → Ends (left c) (read_number m c old)
  unfolding read_number
  number-Ends c old = elim (Option-cases (read_float m c)) [
    | inl e ↦ (
      record { status = bad_number_format; value = old; cursor = c },
      rw (e, read_number) refl,
      omega arith,
    )
    | inr ((v, end), e) ↦ (
      record { status = status_ok; value = v; cursor = end },
      rw (e, read_number) refl,
      left-read_float m c e,
    )
  ]

  pick_Ends :
      {bound : ℕ} (b : Bool) (x y : Option (Got F))
      → Ends bound x
      → Ends bound y
      → Ends bound (if b then x else y)
  pick_Ends true x y h k = h
  pick_Ends false x y h k = k

  chosen-Ends :
      (c : Cursor) (old : F)
      → (peek c.rest == 0) ≡ false
      → left c ≤ suc n
      → Ends (left c) (read_chosen m w real c old)
  unfolding read_chosen
  chosen-Ends c old z h = pick_Ends _ _ _ (expression-Ends m w n real t c old h) (
      pick_Ends _ _ _ (parameter-Ends m w n real t c old false h) (
        pick_Ends _ _ _ (sign-Ends c old z h) (
          pick_Ends _ _ _
            (Ends-map (λ (g : Got F). record g { value = m.neg g.value }) (real (step 1 c) old)
              (λ g. refl) (sign-Ends c old z h))
            (pick_Ends _ _ _ (unary-Ends c old z h) (number-Ends c old)))))

module _ {F : Type 0} (m : FloatMath F) (w : World F) where
  checked_cursor : (g : Got F) → (checked m g).cursor ≡ g.cursor
  unfolding checked
  checked_cursor g = refl

  real_stop :
      (n : ℕ) (c : Cursor) (old : F)
      → (peek c.rest == 0) ≡ true
      → Ends (left c) (ngc_read_real_value m w (suc n) c old)
  unfolding ngc_read_real_value
  real_stop n c old z = (
    record { status = expression_syntax_error; value = old; cursor = c },
    rw (z, ngc_read_real_value) refl,
    omega arith,
  )

  real_chosen :
      (n : ℕ) (c : Cursor) (old : F)
      → (peek c.rest == 0) ≡ false
      → Ends (left c) (read_chosen m w (ngc_read_real_value m w n) c old)
      → Ends (left c) (ngc_read_real_value m w (suc n) c old)
  unfolding ngc_read_real_value
  real_chosen n c old z h =
      rw (z, ngc_read_real_value)
        (Ends-map (checked m) (read_chosen m w (ngc_read_real_value m w n) c old) checked_cursor h)

  some_left : (t : Text) → (peek t == 0) ≡ false → 0 < length t
  some_left [] h = cc
  some_left (x ∷ t) h = omega arith

  -- At every position and for every line, `ngc_read_real_value` returns, with a status, if its fuel is
  -- above the number of characters that are left; and the position that it leaves is not before the
  -- one where it began.
  pub ngc_read_real_value-Ends :
      (n : ℕ) (c : Cursor) (old : F)
      → left c ≤ n
      → Ends (left c) (ngc_read_real_value m w (suc n) c old)
  ngc_read_real_value-Ends zero c old h = elim (Bool-cases (peek c.rest == 0)) [
    | inl z ↦ real_stop 0 c old z
    | inr z ↦ absurd (omega (arith, some_left c.rest z))
  ]
  ngc_read_real_value-Ends (suc n) c old h = elim (Bool-cases (peek c.rest == 0)) [
    | inl z ↦ real_stop (suc n) c old z
    | inr z ↦
        real_chosen (suc n) c old z (
          chosen-Ends m w n (ngc_read_real_value m w (suc n)) (ngc_read_real_value-Ends n) c old z
            h)
  ]

  -- A reference to a parameter, which takes at least its `#`.
  pub ngc_read_parameter_ends :
      (n : ℕ) (c : Cursor) (old : F) (check : Bool)
      → (peek c.rest == b'#') ≡ true
      → left c ≤ suc n
      → (g : Got F) × (ngc_read_parameter m w (ngc_read_real_value m w (suc n)) c old check
          ≡ some g)
        × (left g.cursor < left c)
  ngc_read_parameter_ends n c old check b h =
      parameter_shorter m w n (ngc_read_real_value m w (suc n)) (ngc_read_real_value-Ends n) c old
        check b h
