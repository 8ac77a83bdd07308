-- ===== src/Expression/Tree.antt =====
-- The independent description of ngc_expr.c's expressions: their trees, how a tree is written with
-- only the brackets that the precedence asks for, and its value.
use Prim.Native.Nat.{max}
use cnc_3d.Common.{
  ℕ, zero, suc, ◌+◌, ◌*◌, ◌/◌, ◌%◌, ◌≤◌, ◌<◌, ◌≡◌, Bool, true, false, Option, none, some, List, [],
  ◌∷◌, ◌++◌, ltb, if◌then◌else◌, length,
}
use cnc_3d.FlowCtrl.Types.{Text}
use cnc_3d.FlowCtrl.Command.{codes}
use cnc_3d.Expression.Types.{ℤ, FloatMath, World, is_invalid}
use cnc_3d.Expression.Operators.{
  BinaryOp, no_op, divided_by, modulo, power, times, and2, exclusive_or, minus, not_exclusive_or,
  plus, right_bracket, lt, eq, ne, le, ge, gt, precedence, execute_binary,
}
use cnc_3d.Expression.Unary.{
  UnaryOp, abs, acos, asin, atan, cos, exp, fix, fup, ln, round, sin, sqrt, tan, exists, parameter,
  execute_unary,
}
use cnc_3d.Expression.Values.{to_integer, is_negative, param_id}

-- `num` has the digits before and behind the decimal point, `arc` is ATAN of two arguments.
pub data Expr : Type 0 where
  num : List ℕ → List ℕ → Expr
  negative param : Expr → Expr
  unary : UnaryOp → Expr → Expr
  arc : Expr → Expr → Expr
  bin : BinaryOp → Expr → Expr → Expr

-- How an operator is written.
abbrev pub name : BinaryOp → Text
name no_op = []
name divided_by = codes "/"
name modulo = codes "MOD"
name power = codes "**"
name times = codes "*"
name and2 = codes "AND"
name exclusive_or = codes "XOR"
name minus = codes "-"
name not_exclusive_or = codes "OR"
name plus = codes "+"
name right_bracket = codes "]"
name lt = codes "LT"
name eq = codes "EQ"
name ne = codes "NE"
name le = codes "LE"
name ge = codes "GE"
name gt = codes "GT"

abbrev pub unary_name : UnaryOp → Text
unary_name abs = codes "ABS"
unary_name acos = codes "ACOS"
unary_name asin = codes "ASIN"
unary_name atan = codes "ATAN"
unary_name cos = codes "COS"
unary_name exp = codes "EXP"
unary_name fix = codes "FIX"
unary_name fup = codes "FUP"
unary_name ln = codes "LN"
unary_name round = codes "ROUND"
unary_name sin = codes "SIN"
unary_name sqrt = codes "SQRT"
unary_name tan = codes "TAN"
unary_name exists = codes "EXISTS"
unary_name parameter = codes "PRM"

-- A binary operator that stands between two operands.
abbrev pub is_operator : BinaryOp → Bool
is_operator no_op = false
is_operator right_bracket = false
is_operator _ = true

-- An operation of one value: not ATAN, EXISTS or PRM.
abbrev pub is_function : UnaryOp → Bool
is_function atan = false
is_function exists = false
is_function parameter = false
is_function _ = true

abbrev pub AllDigits : List ℕ → Type 0
AllDigits [] = Unit {0}
AllDigits (d ∷ ds) = (d ≤ 9) × AllDigits ds

-- At most nine digits, one of them before the point, and operators where they belong.
abbrev pub WellFormed : Expr → Type 0
WellFormed (num ds fs) = (0 < length ds) × (length ds + length fs ≤ 9) × AllDigits ds × AllDigits fs
WellFormed (negative e) = WellFormed e
WellFormed (param e) = WellFormed e
WellFormed (unary op e) = (is_function op ≡ true) × WellFormed e
WellFormed (arc a b) = WellFormed a × WellFormed b
WellFormed (bin op l r) = (is_operator op ≡ true) × WellFormed l × WellFormed r

unfoldable pub digits : List ℕ → Text
digits [] = []
digits (d ∷ ds) = (d + 48) ∷ digits ds

unfoldable pub decimals : List ℕ → Text
unfolding digits
decimals [] = []
decimals (d ∷ ds) = b'.' ∷ digits (d ∷ ds)

-- Whether an operand needs brackets where operators below precedence `p` do.
unfoldable pub needs : ℕ → Expr → Bool
needs p (bin op l r) = ltb (precedence op) p
needs p _ = false

unfoldable pub bracket : Bool → Text → Text
bracket true t = b'[' ∷ (t ++ (b']' ∷ []))
bracket false t = t

-- An operator of the same precedence on the left needs no brackets, since evaluation goes from
-- left to right, and needs them on the right.
unfoldable pub text : Expr → Text
unfolding decimals needs bracket
text (num ds fs) = digits ds ++ decimals fs
text (negative e) = b'-' ∷ bracket true (text e)
text (param e) = b'#' ∷ bracket true (text e)
text (unary op e) = unary_name op ++ bracket true (text e)
text (arc a b) = codes "ATAN" ++ (bracket true (text a) ++ (b'/' ∷ bracket true (text b)))
text (bin op l r) =
    bracket (needs (precedence op) l) (text l)
    ++ (name op ++ bracket (needs (suc (precedence op)) r) (text r))

-- The number that digits stand for, behind those that stand for `n`.
unfoldable pub number : ℕ → List ℕ → ℕ
number n [] = n
number n (d ∷ ds) = number (n * 10 + d) ds

infixl 1 ◌>>=◌
abbrev pub ◌>>=◌ : {A B : Type 0} → Option A → (A → Option B) → Option B
none >>= f = none
some a >>= f = f a

module _ {F : Type 0} (m : FloatMath F) where
  -- A result that is a number.
  unfoldable pub finite : F → Option F
  finite v = if is_invalid m v then none else some v

  unfoldable pub unless_error : ℕ × F → Option F
  unfolding finite
  unless_error (zero, v) = finite v
  unless_error (suc _, v) = none

  -- Multiplied by `factor` a number of times.
  unfoldable pub multiplied : ℕ → F → F → F
  multiplied zero factor v = v
  multiplied (suc n) factor v = multiplied n factor (m.mul v factor)

  -- `k` decimals: by a hundredth for each pair of them, and by a tenth for one that is left.
  unfoldable pub decimals_of : ℕ → F → F
  unfolding multiplied
  decimals_of k v = multiplied (k % 2) m.tenth (multiplied (k / 2) m.hundredth v)

  unfoldable pub decimal_value : List ℕ → List ℕ → F
  unfolding number decimals_of
  decimal_value ds fs =
      let v = m.of_word (number (number 0 ds) fs) in
      if m.eq v m.zero then v else decimals_of (length fs) v

  module _ (w : World F) where
    -- The parameter that a value numbers.
    unfoldable pub parameter_of : ℕ × ℤ → Option F
    unfolding finite
    parameter_of (zero, n) = if is_negative n then none else (w.param_get (param_id n) >>= finite)
    parameter_of (suc _, n) = none

    -- The value of a tree, or none where an operation fails or gives no number.
    unfoldable pub eval : Expr → Option F
    unfolding unless_error parameter_of decimal_value
    eval (num ds fs) = finite (decimal_value ds fs)
    eval (negative e) = eval e >>= λ v. finite (m.neg v)
    eval (param e) = eval e >>= λ v. parameter_of (to_integer m v)
    eval (unary op e) = eval e >>= λ v. unless_error (execute_unary m v op)
    eval (arc a b) = eval a >>= λ v. eval b >>= λ u. finite (m.mul (m.atan2 v u) m.deg_rad)
    eval (bin op l r) = eval l >>= λ v. eval r >>= λ u. unless_error (execute_binary m v op u)

-- How deep the calls of `ngc_read_real_value` nest.
unfoldable pub depth : Expr → ℕ
unfolding needs
depth (num ds fs) = 1
depth (negative e) = suc (suc (depth e))
depth (param e) = suc (suc (depth e))
depth (unary op e) = suc (depth e)
depth (arc a b) = suc (max (depth a) (depth b))
depth (bin op l r) = suc (max (depth l) (depth r))

-- The rounds of the loop that a tree takes when it has no brackets around it.
unfoldable pub rounds_of : Bool → ℕ → ℕ
rounds_of true n = 1
rounds_of false n = n

unfoldable pub rounds : Expr → ℕ
unfolding needs rounds_of
rounds (bin op l r) =
    rounds_of (needs (precedence op) l) (rounds l)
    + rounds_of (needs (suc (precedence op)) r) (rounds r)
rounds _ = 1
