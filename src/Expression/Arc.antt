-- ===== src/Expression/Arc.antt =====
-- How ATAN is read, whose second argument stands behind a slash.
use mathlib.Core.Option
use cnc_3d.Common.{
  ℕ, suc, ◌+◌, ◌≡◌, refl, ap, ◌∙◌, true, Option, some, ◌∷◌, ◌++◌, ◌==◌, append_assoc, length,
  length-append, arith, if◌then◌else◌,
}
use cnc_3d.FlowCtrl.Types.{Text, status_ok}
use cnc_3d.FlowCtrl.Command.{codes}
use cnc_3d.Expression.Types.{Cursor, FloatMath, World, Got}
use cnc_3d.Expression.Unary.{atan}
use cnc_3d.Expression.Read.{
  Reader, ngc_eval_expression, read_atan, apply_unary, ngc_read_real_value, checked,
}
use cnc_3d.Expression.Tree.{bracket, finite}
use cnc_3d.Expression.Digits.{at}
use cnc_3d.Expression.Loop.{success}
use cnc_3d.Expression.Chosen.{checked-success, real-unary}
use cnc_3d.Expression.Operand.{Gives}
use cnc_3d.Expression.Forms.{finite-eq-some, read_unary-name, run_unary-eval}

module _ {F : Type 0} (m : FloatMath F) (w : World F) where
  read_atan-success :
      (real : Reader F) (p : ℕ) (t rest : Text) (u : F) {v : F} {end : Cursor}
      → ngc_eval_expression m w real (at (p + 1) (bracket true t ++ rest)) (w.stale (p + 1))
        ≡ some (success v end)
      → apply_unary m w real atan (success u (at p (b'/' ∷ (bracket true t ++ rest))))
        ≡ some (success (m.mul (m.atan2 u v) m.deg_rad) end)
  unfolding apply_unary read_atan bracket
  read_atan-success real p t rest u {v} {end} h =
      ap
        (Option.map λ (g : Got F). record g {
          value = (if g.status == status_ok then m.mul (m.atan2 u g.value) m.deg_rad else u);
        })
        h

  arc_text :
      (a b rest : Text)
      → (codes "ATAN" ++ (a ++ (b'/' ∷ b))) ++ rest ≡ codes "ATAN" ++ (a ++ (b'/' ∷ (b ++ rest)))
  arc_text a b rest = ap (λ x. codes "ATAN" ++ x) (append_assoc a (b'/' ∷ b) rest)

  pub arc-Gives :
      (n : ℕ) (a b : Text) {u v r : F}
      → Gives (ngc_eval_expression m w (ngc_read_real_value m w n)) (bracket true a) u
      → Gives (ngc_eval_expression m w (ngc_read_real_value m w n)) (bracket true b) v
      → finite m (m.mul (m.atan2 u v) m.deg_rad) ≡ some r
      → Gives
          (ngc_read_real_value m w (suc n))
          (codes "ATAN" ++ (bracket true a ++ (b'/' ∷ bracket true b)))
          r
  arc-Gives n a b {u} {v} {r} g k h p rest old e =
      let real = ngc_read_real_value m w n in
      let (good, same) = finite-eq-some m (m.mul (m.atan2 u v) m.deg_rad) h in
      let tail = b'/' ∷ (bracket true b ++ rest) in
      let q = p + 4 + length (bracket true a) in
      let end = at (q + 1 + length (bracket true b)) rest in
      let whole = codes "ATAN" ++ (bracket true a ++ (b'/' ∷ bracket true b)) in
      let z : q + 1 + length (bracket true b) ≡ p + length whole =
        omega (arith, length-append (bracket true a) (b'/' ∷ bracket true b)) in
      ap (λ x. ngc_read_real_value m w (suc n) (at p x) old)
        (arc_text (bracket true a) (bracket true b) rest)
      ∙ real-unary m w n p (bracket true a ++ tail) old atan
      ∙ ap (Option.map (checked m)) (
          read_unary-name m w real atan p a tail old
          ∙ run_unary-eval m w real atan (at (p + 4) (bracket true a ++ tail)) (at q tail) old refl
              (g (p + 4) tail old refl)
          ∙ read_atan-success real q b rest u (k (q + 1) rest (w.stale (q + 1)) e))
      ∙ ap some (checked-success m w (m.mul (m.atan2 u v) m.deg_rad) end good)
      ∙ ap (λ x. let s : Option (Got F) = some (success x end) in s) same
      ∙ ap (λ x. let s : Option (Got F) = some (success r (at x rest)) in s) z
