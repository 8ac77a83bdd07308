-- ===== src/Expression/Operand.antt =====
-- What it means that a text is read as a value, by the loop or as one operand, and how brackets
-- lead from the one to the other.
use mathlib.Core.Option
use cnc_3d.Common.{
  ℕ, suc, ◌+◌, ◌-◌, ◌≤◌, ◌≡◌, refl, ap, ◌∙◌, true, false, Option, some, [], ◌∷◌, ◌++◌, append_assoc,
  length, length-append, arith,
}
use cnc_3d.FlowCtrl.Types.{Text}
use cnc_3d.Expression.Types.{FloatMath, World, Got, is_invalid}
use cnc_3d.Expression.Operators.{BinaryOp, right_bracket, precedence}
use cnc_3d.Expression.Stack.{Stack, reduce, closed}
use cnc_3d.Expression.Read.{
  Reader, with_stack, eval_loop, ngc_eval_expression, ngc_read_real_value, checked,
}
use cnc_3d.Expression.Tree.{name, bracket}
use cnc_3d.Expression.Digits.{at, ends_number}
use cnc_3d.Expression.Names.{follows, ends_operand, ends_number-name}
use cnc_3d.Expression.Loop.{success, Above, eval_loop-operand, eval_loop-closed}
use cnc_3d.Expression.Chosen.{checked-success, real-bracket}

-- `read` gives this value for this text, and the position behind it.
abbrev pub Gives : {F : Type 0} → Reader F → Text → F → Type 0
Gives {F} read t v =
    (p : ℕ) (rest : Text) (old : F)
    → ends_number rest ≡ true
    → read (at p (t ++ rest)) old ≡ some (success v (at (p + length t) rest))

-- The same, whatever stands behind the text.
abbrev pub Reads : {F : Type 0} → Reader F → Text → F → Type 0
Reads {F} read t v =
    (p : ℕ) (rest : Text) (old : F)
    → read (at p (t ++ rest)) old ≡ some (success v (at (p + length t) rest))

pub Reads-Gives :
    {F : Type 0} (read : Reader F) (t : Text) {v : F} → Reads read t v → Gives read t v
Reads-Gives read t g p rest old e = g p rest old

abbrev pub pushed :
    {F : Type 0}
    → FloatMath F
    → World F
    → Reader F
    → ℕ
    → F
    → Stack F
    → F
    → ℕ
    → BinaryOp
    → Text
    → Option (Got F)
pushed m w real fuel old stack v p op rest =
    with_stack (eval_loop m w real fuel old) old (at (p + length (name op)) rest)
      (reduce m v op stack)

-- The loop takes `rounds` rounds for this text, and then has read this value before an operator
-- that binds no tighter than `level`.
abbrev pub Runs : {F : Type 0} → FloatMath F → World F → Reader F → ℕ → ℕ → Text → F → Type 0
Runs {F} m w real level rounds t v =
    (fuel p : ℕ) (old : F) (stack : Stack F) (op : BinaryOp) (rest : Text)
    → Above stack level
    → closed stack ≡ false
    → precedence op ≤ level
    → ends_operand op ≡ true
    → follows op rest ≡ true
    → eval_loop m w real (rounds + fuel) old stack (at p (t ++ (name op ++ rest)))
      ≡ pushed m w real fuel old stack v (p + length t) op rest

module _ {F : Type 0} (m : FloatMath F) (w : World F) where
  -- One operand.
  pub Gives-Runs :
      (real : Reader F) (level : ℕ) (t : Text) {v : F} → Gives real t v → Runs m w real level 1 t v
  Gives-Runs real level t {v} g fuel p old stack op rest a c h k f =
      let one : 1 + fuel ≡ suc fuel = omega arith in
      ap (λ n. eval_loop m w real n old stack (at p (t ++ (name op ++ rest)))) one
      ∙ eval_loop-operand m w real fuel old stack (at p (t ++ (name op ++ rest))) op rest c
          (g p (name op ++ rest) (w.stale p) (ends_number-name op rest k)) k f

  -- The call before the first round.
  eval_expression-bracket :
      (real : Reader F) (p : ℕ) (old : F) {x y : Text}
      → x ≡ y
      → ngc_eval_expression m w real (at p (b'[' ∷ x)) old
        ≡ eval_loop m w real (suc (suc (length y))) old [] (at (p + 1) y)
  unfolding ngc_eval_expression
  eval_expression-bracket real p old {x} e =
      ap (λ z. eval_loop m w real (suc (suc (length z))) old [] (at (p + 1) z)) e

  -- The round behind the closing bracket.
  pushed-closed :
      (real : Reader F) (fuel p : ℕ) (old v : F) (rest : Text)
      → pushed m w real (suc fuel) old [] v p right_bracket rest
        ≡ some (success v (at (p + 1) rest))
  unfolding with_stack reduce
  pushed-closed real fuel p old v rest = eval_loop-closed m w real fuel old v (at (p + 1) rest)

  closed_nil : closed {F = F} [] ≡ false
  unfolding closed
  closed_nil = refl

  loosest : precedence right_bracket ≤ 1
  unfolding precedence
  loosest = omega arith

  -- A text in brackets, by `ngc_eval_expression`.
  pub Runs-Reads :
      (real : Reader F) (rounds : ℕ) (t : Text) {v : F}
      → rounds ≤ length t
      → Runs m w real 1 rounds t v
      → Reads (ngc_eval_expression m w real) (bracket true t) v
  unfolding bracket
  Runs-Reads real rounds t {v} le r p rest old =
      let whole = append_assoc t (b']' ∷ []) rest in
      let y = t ++ (b']' ∷ rest) in
      let spare = suc (length y) - rounds in
      let size = length-append t (b']' ∷ rest) in
      let enough : suc (suc (length y)) ≡ rounds + suc spare = omega (arith, size) in
      let end : p + 1 + length t + 1 ≡ p + suc (length (t ++ (b']' ∷ []))) =
        omega (arith, length-append t (b']' ∷ [])) in
      eval_expression-bracket real p old whole
      ∙ ap (λ n. eval_loop m w real n old [] (at (p + 1) y)) enough
      ∙ r (suc spare) (p + 1) old [] right_bracket rest tt closed_nil loosest refl refl
      ∙ pushed-closed real spare (p + 1 + length t) old v rest
      ∙ ap (λ q. let g : Option (Got F) = some (success v (at q rest)) in g) end

  -- A text in brackets, as an operand.
  pub bracket-Reads :
      (n rounds : ℕ) (t : Text) {v : F}
      → rounds ≤ length t
      → is_invalid m v ≡ false
      → Runs m w (ngc_read_real_value m w n) 1 rounds t v
      → Reads (ngc_read_real_value m w (suc n)) (bracket true t) v
  unfolding bracket
  bracket-Reads n rounds t {v} le good r p rest old =
      let inner = Runs-Reads (ngc_read_real_value m w n) rounds t le r p rest old in
      real-bracket m w n p ((t ++ (b']' ∷ [])) ++ rest) old
      ∙ ap (Option.map (checked m)) inner
      ∙ ap some (checked-success m w v (at (p + length (bracket true t)) rest) good)
