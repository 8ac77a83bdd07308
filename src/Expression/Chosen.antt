-- ===== src/Expression/Chosen.antt =====
-- Which reader `ngc_read_real_value` chooses, for each way in which an operand begins.
use mathlib.Core.Option
use cnc_3d.Common.{
  ℕ, suc, ◌+◌, ◌≤◌, ◌<◌, ◌≡◌, refl, ap, ◌∙◌, false, some, List, [], ◌∷◌, ◌++◌, length, arith,
}
use cnc_3d.FlowCtrl.Types.{Text}
use cnc_3d.Expression.Types.{Cursor, FloatMath, World, Got, is_invalid}
use cnc_3d.Expression.Number.{read_float}
use cnc_3d.Expression.Unary.{UnaryOp, abs}
use cnc_3d.Expression.Read.{
  ngc_read_real_value, read_number, read_chosen, checked, ngc_eval_expression, ngc_read_parameter,
  read_unary,
}
use cnc_3d.Expression.Tree.{unary_name, digits, AllDigits}
use cnc_3d.Expression.Digits.{at}
use cnc_3d.Expression.Loop.{success}

module _ {F : Type 0} (m : FloatMath F) (w : World F) where
  pub checked-success :
      (v : F) (c : Cursor) → is_invalid m v ≡ false → checked m (success v c) ≡ success v c
  unfolding checked
  checked-success v c h = rw h refl

  module _ (n p : ℕ) (rest : Text) (old : F) where
    pub real-bracket :
        ngc_read_real_value m w (suc n) (at p (b'[' ∷ rest)) old
        ≡ Option.map
            (checked m)
            (ngc_eval_expression m w (ngc_read_real_value m w n) (at p (b'[' ∷ rest)) old)
    unfolding ngc_read_real_value read_chosen
    real-bracket = refl

    pub real-parameter :
        ngc_read_real_value m w (suc n) (at p (b'#' ∷ rest)) old
        ≡ Option.map
            (checked m)
            (ngc_read_parameter m w (ngc_read_real_value m w n) (at p (b'#' ∷ rest)) old false)
    unfolding ngc_read_real_value read_chosen
    real-parameter = refl

    pub real-negative :
        ngc_read_real_value m w (suc n) (at p (b'-' ∷ b'[' ∷ rest)) old
        ≡ Option.map (checked m) (
            Option.map
              (λ (g : Got F). record g { value = m.neg g.value })
              (ngc_read_real_value m w n (at (p + 1) (b'[' ∷ rest)) old))
    unfolding ngc_read_real_value read_chosen
    real-negative = refl

    pub real-unary :
        (op : UnaryOp)
        → ngc_read_real_value m w (suc n) (at p (unary_name op ++ rest)) old
          ≡ Option.map
              (checked m)
              (read_unary m w (ngc_read_real_value m w n) (at p (unary_name op ++ rest)) old)
    unfolding ngc_read_real_value read_chosen
    real-unary abs = refl
    real-unary op = refl

  read_number-success :
      (c : Cursor) (old : F) {v : F} {end : Cursor}
      → read_float m c ≡ some (v, end)
      → read_number m c old ≡ some (success v end)
  unfolding read_number
  read_number-success c old e = rw (e, read_number) refl

  real-digit :
      (n p d : ℕ) (rest : Text) (old : F)
      → d ≤ 9
      → ngc_read_real_value m w (suc n) (at p ((d + 48) ∷ rest)) old
        ≡ Option.map (checked m) (read_number m (at p ((d + 48) ∷ rest)) old)
  unfolding ngc_read_real_value read_chosen
  real-digit n p d rest old h = ground arith

  pub real-num :
      (n p : ℕ) (ds : List ℕ) (rest : Text) (old : F) {v : F} {end : Cursor}
      → 0 < length ds
      → AllDigits ds
      → read_float m (at p (digits ds ++ rest)) ≡ some (v, end)
      → ngc_read_real_value m w (suc n) (at p (digits ds ++ rest)) old
        ≡ Option.map (checked m) (some (success v end))
  unfolding digits
  real-num n p [] rest old h hd e = absurd (omega arith)
  real-num n p (d ∷ ds) rest old h (hd, _) e =
      real-digit n p d (digits ds ++ rest) old hd
      ∙ ap (Option.map (checked m)) (read_number-success (at p (digits (d ∷ ds) ++ rest)) old e)
