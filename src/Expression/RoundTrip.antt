-- ===== src/Expression/RoundTrip.antt =====
-- The written form of a tree is read back as its value.
use cnc_3d.Common.{ℕ, zero, suc, ◌+◌, ◌≤◌, ◌≡◌, ap₂, true, some, ◌∷◌, ◌++◌, length, arith}
use cnc_3d.FlowCtrl.Types.{Text}
use cnc_3d.FlowCtrl.Command.{codes}
use cnc_3d.Expression.Types.{FloatMath, World}
use cnc_3d.Expression.Operators.{precedence, execute_binary}
use cnc_3d.Expression.Unary.{execute_unary}
use cnc_3d.Expression.Values.{to_integer}
use cnc_3d.Expression.Read.{ngc_eval_expression, ngc_read_real_value}
use cnc_3d.Expression.Tree.{
  Expr, num, negative, param, unary, arc, bin, unary_name, WellFormed, digits, decimals, needs,
  bracket, text, rounds_of, rounds, depth, finite, unless_error, parameter_of, eval, ◌>>=◌,
}
use cnc_3d.Expression.Digits.{at}
use cnc_3d.Expression.Loop.{success}
use cnc_3d.Expression.Operand.{Gives, Reads-Gives, Runs, Gives-Runs}
use cnc_3d.Expression.Forms.{
  >>=-eq-some, unless_error-eq-some, param-Gives, negative-Gives, unary-Gives,
}
use cnc_3d.Expression.Arc.{arc-Gives}
use cnc_3d.Expression.Shape.{follows-text, depth-le-length}
use cnc_3d.Expression.Level.{
  needs_level, Level, num-Gives, Level-expression, Level-bracket, Level-operand, bin-Runs,
}

module _ {F : Type 0} (m : FloatMath F) (w : World F) where
  -- An operand behind a sign or `#`, and an argument behind a name.
  operand_Gives :
      (e : Expr) (n : ℕ) {v : F}
      → Level m w e
      → WellFormed e
      → depth e ≤ n
      → eval m w e ≡ some v
      → Gives (ngc_read_real_value m w (suc n)) (bracket true (text e)) v
  operand_Gives e n l h d k =
      Reads-Gives (ngc_read_real_value m w (suc n)) (bracket true (text e))
        (Level-bracket m w e n l h d k)

  argument_Gives :
      (e : Expr) (n : ℕ) {v : F}
      → Level m w e
      → WellFormed e
      → depth e ≤ n
      → eval m w e ≡ some v
      → Gives (ngc_eval_expression m w (ngc_read_real_value m w n)) (bracket true (text e)) v
  argument_Gives e n l h d k =
      Reads-Gives (ngc_eval_expression m w (ngc_read_real_value m w n)) (bracket true (text e))
        (Level-expression m w e n l h d k)

  -- A form that is one operand at every level.
  operand_Level :
      (n level : ℕ) (t : Text) {v : F}
      → Gives (ngc_read_real_value m w n) t v
      → Runs m w (ngc_read_real_value m w n) level 1 t v
  operand_Level n level t g = Gives-Runs m w (ngc_read_real_value m w n) level t g

  tree_Level : (e : Expr) → Level m w e
  unfolding text rounds depth eval
  tree_Level (num ds fs) zero level v h d b k = absurd (omega arith)
  tree_Level (num ds fs) (suc n) level v h d b k =
      operand_Level (suc n) level (digits ds ++ decimals fs) (num-Gives m w n ds fs h k)
  tree_Level (negative e) (suc (suc n)) level v h d b k =
      let (u, k', f) = >>=-eq-some (eval m w e) (λ u. finite m (m.neg u)) k in
      operand_Level (suc (suc n)) level (b'-' ∷ bracket true (text e)) (
        negative-Gives m w (suc n) (text e) (operand_Gives e n (tree_Level e) h (omega arith) k') f)
  tree_Level (negative e) _ level v h d b k = absurd (omega arith)
  tree_Level (param e) (suc (suc n)) level v h d b k =
      let (u, k', f) = >>=-eq-some (eval m w e) (λ u. parameter_of m w (to_integer m u)) k in
      operand_Level (suc (suc n)) level (b'#' ∷ bracket true (text e))
        (param-Gives m w (suc n) (text e) (operand_Gives e n (tree_Level e) h (omega arith) k') f)
  tree_Level (param e) _ level v h d b k = absurd (omega arith)
  tree_Level (unary op e) (suc n) level v (good, h) d b k =
      let (u, k', f) = >>=-eq-some (eval m w e) (λ u. unless_error m (execute_unary m u op)) k in
      operand_Level (suc n) level (unary_name op ++ bracket true (text e)) (
        unary-Gives m w n op (text e) good (argument_Gives e n (tree_Level e) h (omega arith) k') f)
  tree_Level (unary op e) _ level v h d b k = absurd (omega arith)
  tree_Level (arc x y) (suc n) level v (hx, hy) d b k =
      let last = λ (u t : F). finite m (m.mul (m.atan2 u t) m.deg_rad) in
      let (u, k', f) = >>=-eq-some (eval m w x) (λ u. eval m w y >>= last u) k in
      let (t, l, f') = >>=-eq-some (eval m w y) (last u) f in
      operand_Level (suc n) level
        (codes "ATAN" ++ (bracket true (text x) ++ (b'/' ∷ bracket true (text y))))
        (arc-Gives m w n (text x) (text y) (argument_Gives x n (tree_Level x) hx (omega arith) k')
          (argument_Gives y n (tree_Level y) hy (omega arith) l) f')
  tree_Level (arc x y) _ level v h d b k = absurd (omega arith)
  tree_Level (bin op x y) (suc n) level v (good, hx, hy) d b k =
      let last = λ (u t : F). unless_error m (execute_binary m u op t) in
      let (u, k', f) = >>=-eq-some (eval m w x) (λ u. eval m w y >>= last u) k in
      let (t, l, f') = >>=-eq-some (eval m w y) (last u) f in
      let (fine, _, same) = unless_error-eq-some m (execute_binary m u op t) f' in
      let q = precedence op in
      bin-Runs m w (ngc_read_real_value m w (suc n)) level op (rounds_of (needs q x) (rounds x))
        (rounds_of (needs (suc q) y) (rounds y)) (bracket (needs q x) (text x))
        (bracket (needs (suc q) y) (text y)) u t (needs_level op x y level b) good
        (λ z. follows-text op (needs (suc q) y) y z hy)
        (Level-operand m w x n q (tree_Level x) hx (omega arith) k')
        (Level-operand m w y n (suc q) (tree_Level y) hy (omega arith) l)
        (ap₂ (λ i z. let r : ℕ × F = (i, z) in r) fine same)
  tree_Level (bin op x y) _ level v h d b k = absurd (omega arith)

-- The same by `ngc_eval_expression`.
pub ngc_eval_expression-text :
    {F : Type 0} (m : FloatMath F) (w : World F) (e : Expr) (n p : ℕ) (rest : Text) (old : F)
    {v : F}
    → WellFormed e
    → length (text e) ≤ n
    → eval m w e ≡ some v
    → ngc_eval_expression m w (ngc_read_real_value m w n) (at p (bracket true (text e) ++ rest)) old
      ≡ some (success v (at (p + length (bracket true (text e))) rest))
ngc_eval_expression-text m w e n p rest old h le k =
    Level-expression m w e n (tree_Level m w e) h (omega (arith, depth-le-length e h)) k p rest old

-- A well-formed tree is written in brackets, with only the further brackets that the precedence asks
-- for. If the tree has a value, that is, if every operation in it succeeds and gives a number that
-- is neither NaN nor infinite, then `ngc_read_real_value` reads the text with Status_OK, that value
-- and the position just behind the closing bracket, whatever follows. Fuel above the text's length
-- is enough.
pub ngc_read_real_value-text :
    {F : Type 0} (m : FloatMath F) (w : World F) (e : Expr) (n p : ℕ) (rest : Text) (old : F)
    {v : F}
    → WellFormed e
    → length (text e) ≤ n
    → eval m w e ≡ some v
    → ngc_read_real_value m w (suc n) (at p (bracket true (text e) ++ rest)) old
      ≡ some (success v (at (p + length (bracket true (text e))) rest))
ngc_read_real_value-text m w e n p rest old h d k =
    Level-bracket m w e n (tree_Level m w e) h (omega (arith, depth-le-length e h)) k p rest old
