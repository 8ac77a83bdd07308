-- ===== src/Expression/Level.antt =====
-- What is proved of each part of a tree: its text is read as its value, at every level.
use cnc_3d.Common.{
  ℕ, suc, ◌+◌, ◌≤◌, ◌<◌, ◌≡◌, refl, ap, sym, ◌∙◌, true, false, Option, some, List, ◌∷◌, ◌++◌,
  append_assoc, length, length-append, arith, Bool-cases, inl, inr,
}
use cnc_3d.FlowCtrl.Types.{Text, status_ok}
use cnc_3d.Expression.Types.{FloatMath, World, Got}
use cnc_3d.Expression.Operators.{BinaryOp, precedence, no_op, plus, execute_binary}
use cnc_3d.Expression.Number.{read_float}
use cnc_3d.Expression.Stack.{Stack}
use cnc_3d.Expression.Read.{Reader, with_stack, eval_loop, ngc_eval_expression, ngc_read_real_value}
use cnc_3d.Expression.Tree.{
  Expr, num, bin, name, is_operator, WellFormed, digits, decimals, needs, bracket, text, rounds_of,
  rounds, depth, finite, eval, decimal_value,
}
use cnc_3d.Expression.Decimal.{read_float-num}
use cnc_3d.Expression.Digits.{at}
use cnc_3d.Expression.Names.{follows, ends_operand}
use cnc_3d.Expression.Loop.{success, Above, Above-trans, closed-push, reduce-push, reduce-execute}
use cnc_3d.Expression.Chosen.{checked-success, real-num}
use cnc_3d.Expression.Operand.{
  Gives, Reads, Reads-Gives, Runs, pushed, Gives-Runs, Runs-Reads, bracket-Reads,
}
use cnc_3d.Expression.Forms.{finite-eq-some}
use cnc_3d.Expression.Shape.{rounds-le-length, eval-valid}

operator_ends : (op : BinaryOp) → is_operator op ≡ true → ends_operand op ≡ true
operator_ends no_op h = cc
operator_ends plus h = refl
operator_ends op h = refl

precedence_pos : (op : BinaryOp) → 0 < precedence op
unfolding precedence
precedence_pos plus = omega arith
precedence_pos op = omega arith

pub needs_level :
    (op : BinaryOp) (x y : Expr) (level : ℕ)
    → needs level (bin op x y) ≡ false
    → level ≤ precedence op
unfolding needs
needs_level op x y level h = ground (arith, h)

module _ {F : Type 0} (m : FloatMath F) (w : World F) where
  pub num-Gives :
      (n : ℕ) (ds fs : List ℕ) {v : F}
      → WellFormed (num ds fs)
      → finite m (decimal_value m ds fs) ≡ some v
      → Gives (ngc_read_real_value m w (suc n)) (digits ds ++ decimals fs) v
  num-Gives n ds fs {v} (h, r, hd, hf) e p rest old k =
      let (good, same) = finite-eq-some m (decimal_value m ds fs) e in
      let end = at (p + length (digits ds ++ decimals fs)) rest in
      let split = append_assoc (digits ds) (decimals fs) rest in
      let read =
        ap (λ x. read_float m (at p x)) (sym split) ∙ read_float-num m p ds fs rest h r hd hf k in
      ap (λ x. ngc_read_real_value m w (suc n) (at p x) old) split
      ∙ real-num m w n p ds (decimals fs ++ rest) old h hd read
      ∙ ap some (checked-success m w (decimal_value m ds fs) end good)
      ∙ ap (λ x. let g : Option (Got F) = some (success x end) in g) same

  -- A tree's own text, without brackets around it.
  abbrev pub Level : Expr → Type 0
  Level e =
      (n level : ℕ) (v : F)
      → WellFormed e
      → depth e ≤ n
      → needs level e ≡ false
      → eval m w e ≡ some v
      → Runs m w (ngc_read_real_value m w n) level (rounds e) (text e) v

  -- No tree needs brackets where a whole expression stands.
  needs_one : (e : Expr) → needs 1 e ≡ false
  unfolding needs
  needs_one (num ds fs) = refl
  needs_one (bin op l r) = let h = precedence_pos op in ground arith
  needs_one e = refl

  -- In brackets, to `ngc_eval_expression` and as an operand.
  pub Level-expression :
      (e : Expr) (n : ℕ) {v : F}
      → Level e
      → WellFormed e
      → depth e ≤ n
      → eval m w e ≡ some v
      → Reads (ngc_eval_expression m w (ngc_read_real_value m w n)) (bracket true (text e)) v
  Level-expression e n {v} l h d k =
      Runs-Reads m w (ngc_read_real_value m w n) (rounds e) (text e) (rounds-le-length e h)
        (l n 1 v h d (needs_one e) k)

  pub Level-bracket :
      (e : Expr) (n : ℕ) {v : F}
      → Level e
      → WellFormed e
      → depth e ≤ n
      → eval m w e ≡ some v
      → Reads (ngc_read_real_value m w (suc n)) (bracket true (text e)) v
  Level-bracket e n {v} l h d k =
      bracket-Reads m w n (rounds e) (text e) (rounds-le-length e h) (eval-valid m w e k)
        (l n 1 v h d (needs_one e) k)

  -- An operand, with the brackets that it needs.
  pub Level-operand :
      (e : Expr) (n level : ℕ) {v : F}
      → Level e
      → WellFormed e
      → depth e ≤ n
      → eval m w e ≡ some v
      → Runs m w
          (ngc_read_real_value m w (suc n))
          level
          (rounds_of (needs level e) (rounds e))
          (bracket (needs level e) (text e))
          v
  unfolding rounds_of bracket
  Level-operand e n level {v} l h d k = elim (Bool-cases (needs level e)) [
    | inl b ↦ rw b (
        Gives-Runs m w (ngc_read_real_value m w (suc n)) level (bracket true (text e)) (
          Reads-Gives (ngc_read_real_value m w (suc n)) (bracket true (text e))
            (Level-bracket e n l h d k)))
    | inr b ↦ rw b (l (suc n) level v h (omega arith) b k)
  ]

  -- Two operands around an operator that binds at least as tightly as the level.
  bin_text :
      (a b : Text) (op o : BinaryOp) (rest : Text)
      → (a ++ (name op ++ b)) ++ (name o ++ rest) ≡ a ++ (name op ++ (b ++ (name o ++ rest)))
  bin_text a b op o rest =
      append_assoc a (name op ++ b) (name o ++ rest)
      ∙ ap (λ x. a ++ x) (append_assoc (name op) b (name o ++ rest))

  pushed-push :
      (real : Reader F) (fuel p : ℕ) (old u : F) (stack : Stack F) (op : BinaryOp) (rest : Text)
      → Above stack (precedence op)
      → pushed m w real fuel old stack u p op rest
        ≡ eval_loop m w real fuel old ((u, op) ∷ stack) (at (p + length (name op)) rest)
  unfolding with_stack
  pushed-push real fuel p old u stack op rest h =
      ap (with_stack (eval_loop m w real fuel old) old (at (p + length (name op)) rest))
        (reduce-push m u op stack h)

  pub bin-Runs :
      (real : Reader F) (level : ℕ) (op : BinaryOp) (i j : ℕ) (a b : Text) (u v : F) {x : F}
      → level ≤ precedence op
      → is_operator op ≡ true
      → ((y : Text) → follows op (b ++ y) ≡ true)
      → Runs m w real (precedence op) i a u
      → Runs m w real (suc (precedence op)) j b v
      → execute_binary m u op v ≡ (let e : ℕ × F = (status_ok, x) in e)
      → Runs m w real level (i + j) (a ++ (name op ++ b)) x
  bin-Runs real level op i j a b u v {x} le h f ra rb e fuel p old stack o rest above going k g fo =
      let q = precedence op in
      let tail = b ++ (name o ++ rest) in
      let above' = Above-trans stack level q above le in
      let z : i + j + fuel ≡ i + (j + fuel) = omega arith in
      let end : p + length a + length (name op) + length b ≡ p + length (a ++ (name op ++ b)) =
        omega (arith, length-append a (name op ++ b), length-append (name op) b) in
      ap (λ n. eval_loop m w real n old stack (at p ((a ++ (name op ++ b)) ++ (name o ++ rest)))) z
      ∙ ap (λ t. eval_loop m w real (i + (j + fuel)) old stack (at p t)) (bin_text a b op o rest)
      ∙ ra (j + fuel) p old stack op tail above' going (omega arith) (operator_ends op h)
          (f (name o ++ rest))
      ∙ pushed-push real (j + fuel) (p + length a) old u stack op tail above'
      ∙ rb fuel (p + length a + length (name op)) old ((u, op) ∷ stack) o rest (omega arith)
          (closed-push stack u op going h) (omega arith) g fo
      ∙ ap (λ t. pushed m w real fuel old ((u, op) ∷ stack) v t o rest) end
      ∙ ap
          (with_stack (eval_loop m w real fuel old) old
            (at (p + length (a ++ (name op ++ b)) + length (name o)) rest))
          (reduce-execute m v x u o op stack (omega arith) e)
