-- ===== src/Expression/Shape.antt =====
-- The texts of trees: none begins with `*`, and the loop takes at most a round for each character.
use cnc_3d.Common.{
  ℕ, suc, ◌≤◌, ◌<◌, ◌≡◌, refl, ap, sym, ◌∙◌, Bool, true, false, some, List, [], ◌∷◌, ◌++◌,
  append_assoc, length, length-append, arith,
}
use cnc_3d.FlowCtrl.Types.{Text}
use cnc_3d.FlowCtrl.Command.{codes, begins}
use cnc_3d.Expression.Types.{FloatMath, World, is_invalid}
use cnc_3d.Expression.Operators.{
  BinaryOp, times, plus, no_op, right_bracket, precedence, execute_binary,
}
use cnc_3d.Expression.Unary.{UnaryOp, abs, execute_unary}
use cnc_3d.Expression.Values.{to_integer}
use cnc_3d.Expression.Tree.{
  Expr, num, negative, param, unary, arc, bin, name, unary_name, WellFormed, digits, decimals,
  needs, bracket, text, rounds_of, rounds, depth, is_operator, finite, unless_error, parameter_of,
  eval, decimal_value, ◌>>=◌,
}
use cnc_3d.Expression.Digits.{length-digits}
use cnc_3d.Expression.Names.{follows}
use cnc_3d.Expression.Forms.{>>=-eq-some, finite-eq-some, unless_error-eq-some, parameter_of-valid}

abbrev Unstarred : Text → Type 0
Unstarred t = (x : Text) → begins (t ++ x) (codes "*") ≡ false

bracket-Unstarred : (b : Bool) (t : Text) → Unstarred t → Unstarred (bracket b t)
unfolding bracket begins
bracket-Unstarred true t h x = refl
bracket-Unstarred false t h x = h x

append-Unstarred : (a b : Text) → Unstarred a → Unstarred (a ++ b)
append-Unstarred a b h x = ap (λ t. begins t (codes "*")) (append_assoc a b x) ∙ h (b ++ x)

unary_name-Unstarred : (op : UnaryOp) → Unstarred (unary_name op)
unfolding begins
unary_name-Unstarred abs x = refl
unary_name-Unstarred op x = refl

digits-Unstarred : (ds : List ℕ) → 0 < length ds → Unstarred (digits ds)
unfolding digits begins
digits-Unstarred [] h x = absurd (omega arith)
digits-Unstarred (d ∷ ds) h x = ground arith

text-Unstarred : (e : Expr) → WellFormed e → Unstarred (text e)
unfolding text begins
text-Unstarred (num ds fs) (h, _, _, _) x =
    append-Unstarred (digits ds) (decimals fs) (digits-Unstarred ds h) x
text-Unstarred (negative e) h x = refl
text-Unstarred (param e) h x = refl
text-Unstarred (unary op e) h x =
    append-Unstarred (unary_name op) (bracket true (text e)) (unary_name-Unstarred op) x
text-Unstarred (arc a b) h x = refl
text-Unstarred (bin op l r) (h, hl, hr) x =
    append-Unstarred (bracket (needs (precedence op) l) (text l))
      (name op ++ bracket (needs (suc (precedence op)) r) (text r))
      (bracket-Unstarred (needs (precedence op) l) (text l) (text-Unstarred l hl)) x

-- An operand never makes `*` into `**`.
pub follows-text :
    (op : BinaryOp) (b : Bool) (e : Expr) (x : Text)
    → WellFormed e
    → follows op (bracket b (text e) ++ x) ≡ true
follows-text times b e x h = rw (bracket-Unstarred b (text e) (text-Unstarred e h) x) refl
follows-text plus b e x h = refl
follows-text op b e x h = refl

length-bracket : (b : Bool) (n : ℕ) (t : Text) → n ≤ length t → rounds_of b n ≤ length (bracket b t)
unfolding bracket rounds_of
length-bracket true n t h = omega arith
length-bracket false n t h = h

length-closed : (t : Text) → 0 < length (bracket true t)
unfolding bracket
length-closed t = omega arith

pub rounds-le-length : (e : Expr) → WellFormed e → rounds e ≤ length (text e)
unfolding rounds text
rounds-le-length (num ds fs) (h, _, _, _) =
    omega (arith, length-append (digits ds) (decimals fs), length-digits ds)
rounds-le-length (negative e) h = omega arith
rounds-le-length (param e) h = omega arith
rounds-le-length (unary op e) h =
    omega (arith, length-append (unary_name op) (bracket true (text e)), length-closed (text e))
rounds-le-length (arc a b) h = omega arith
rounds-le-length (bin op l r) (h, hl, hr) =
    let a = bracket (needs (precedence op) l) (text l) in
    let b = bracket (needs (suc (precedence op)) r) (text r) in
    omega (
      arith,
      length-append a (name op ++ b),
      length-append (name op) b,
      length-bracket (needs (precedence op) l) (rounds l) (text l) (rounds-le-length l hl),
      length-bracket (needs (suc (precedence op)) r) (rounds r) (text r) (rounds-le-length r hr),
    )

length-name : (op : BinaryOp) → is_operator op ≡ true → 0 < length (name op)
length-name no_op h = cc
length-name plus h = omega arith
length-name right_bracket h = cc
length-name op h = omega arith

length-unary_name : (op : UnaryOp) → 0 < length (unary_name op)
length-unary_name abs = omega arith
length-unary_name op = omega arith

pub length-bracket_any : (b : Bool) (t : Text) → length t ≤ length (bracket b t)
unfolding bracket
length-bracket_any true t = omega (arith, length-append t (b']' ∷ []))
length-bracket_any false t = omega arith

-- The calls nest no deeper than the text is long.
pub depth-le-length : (e : Expr) → WellFormed e → depth e ≤ length (text e)
unfolding depth text
depth-le-length (num ds fs) (h, _, _, _) =
    omega (arith, length-append (digits ds) (decimals fs), length-digits ds)
depth-le-length (negative e) h =
    omega (arith, depth-le-length e h, length-append (text e) (b']' ∷ []))
depth-le-length (param e) h = omega (arith, depth-le-length e h, length-append (text e) (b']' ∷ []))
depth-le-length (unary op e) (_, h) = omega (
  arith,
  depth-le-length e h,
  length-append (unary_name op) (bracket true (text e)),
  length-bracket_any true (text e),
  length-unary_name op,
)
depth-le-length (arc a b) (ha, hb) = omega (
  arith,
  depth-le-length a ha,
  depth-le-length b hb,
  length-bracket_any true (text a),
  length-bracket_any true (text b),
  length-append (bracket true (text a)) (b'/' ∷ bracket true (text b)),
)
depth-le-length (bin op l r) (h, hl, hr) =
    let a = bracket (needs (precedence op) l) (text l) in
    let b = bracket (needs (suc (precedence op)) r) (text r) in
    omega (
      arith,
      length-append a (name op ++ b),
      length-append (name op) b,
      length-name op h,
      depth-le-length l hl,
      depth-le-length r hr,
      length-bracket_any (needs (precedence op) l) (text l),
      length-bracket_any (needs (suc (precedence op)) r) (text r),
    )

-- A value of a tree is a number.
pub eval-valid :
    {F : Type 0} (m : FloatMath F) (w : World F) (e : Expr) {v : F}
    → eval m w e ≡ some v
    → is_invalid m v ≡ false
unfolding eval
eval-valid m w (num ds fs) h =
    let (good, e) = finite-eq-some m (decimal_value m ds fs) h in ap (is_invalid m) (sym e) ∙ good
eval-valid m w (negative e) h =
    let (u, k, f) = >>=-eq-some (eval m w e) (λ u. finite m (m.neg u)) h in
    let (good, e) = finite-eq-some m (m.neg u) f in ap (is_invalid m) (sym e) ∙ good
eval-valid m w (param e) h =
    let (u, k, f) = >>=-eq-some (eval m w e) (λ u. parameter_of m w (to_integer m u)) h in
    parameter_of-valid m w (to_integer m u) f
eval-valid m w (unary op e) h =
    let (u, k, f) = >>=-eq-some (eval m w e) (λ u. unless_error m (execute_unary m u op)) h in
    let (fine, good, e) = unless_error-eq-some m (execute_unary m u op) f in
    ap (is_invalid m) (sym e) ∙ good
eval-valid {F} m w (arc a b) h =
    let last = λ (u v : F). finite m (m.mul (m.atan2 u v) m.deg_rad) in
    let (u, k, f) = >>=-eq-some (eval m w a) (λ u. eval m w b >>= last u) h in
    let (v, l, g) = >>=-eq-some (eval m w b) (last u) f in
    let (good, e) = finite-eq-some m (m.mul (m.atan2 u v) m.deg_rad) g in
    ap (is_invalid m) (sym e) ∙ good
eval-valid {F} m w (bin op a b) h =
    let last = λ (u v : F). unless_error m (execute_binary m u op v) in
    let (u, k, f) = >>=-eq-some (eval m w a) (λ u. eval m w b >>= last u) h in
    let (v, l, g) = >>=-eq-some (eval m w b) (last u) f in
    let (fine, good, e) = unless_error-eq-some m (execute_binary m u op v) g in
    ap (is_invalid m) (sym e) ∙ good
