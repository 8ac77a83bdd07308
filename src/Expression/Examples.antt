-- ===== src/Expression/Examples.antt =====
-- Runs of the readers on short lines, with natural numbers in place of `float`.
use cnc_3d.Common.{
  ℕ, zero, suc, ◌+◌, ◌-◌, ◌*◌, ◌%◌, ◌/◌, ◌≤◌, ◌<◌, ◌≡◌, ◌⊎◌, refl, false, true, none, some, [], ◌∷◌,
  ◌++◌, ◌==◌, ltb, leb, Option, length, arith,
}
use cnc_3d.FlowCtrl.Types.{Text, status_ok}
use cnc_3d.FlowCtrl.Command.{codes}
use cnc_3d.Expression.Types.{Cursor, ℤ, pos, negsuc, FloatMath, World, Got}
use cnc_3d.Expression.Number.{read_float}
use cnc_3d.Expression.Operators.{plus, times, right_bracket, precedence, execute_binary}
use cnc_3d.Expression.Stack.{Stack, reduce, closed}
use cnc_3d.Expression.Values.{ngc_read_name}
use cnc_3d.Expression.Read.{Reader, read_operand, eval_loop, ngc_read_real_value}
use cnc_3d.Expression.Tree.{
  Expr, WellFormed, num, bin, text, eval, bracket, digits, decimals, decimals_of, multiplied,
  decimal_value,
}
use cnc_3d.Expression.Digits.{at}
use cnc_3d.Expression.Loop.{success}
use cnc_3d.Expression.Decimal.{read_float-num}
use cnc_3d.Expression.RoundTrip.{ngc_read_real_value-text}
use cnc_3d.Expression.Ends.{Ends}
use cnc_3d.Expression.Total.{ngc_read_real_value-Ends}
use cnc_3d.Expression.Depth.{Visits, start, round, max_stack, stack_bound}
use cnc_3d.Expression.Name.{ngc_read_name-name}
use cnc_3d.Expression.Format.{trim_spaces, read_reference, ngc_substitute_parameters}
use cnc_3d.Expression.Message.{no_format, substitute_fits, substitute_overflows}

abbrev raise : ℕ → ℕ → ℕ
raise a zero = 1
raise a (suc n) = a * raise a n

abbrev to_nat : ℤ → ℕ
to_nat (pos n) = n
to_nat (negsuc n) = 0

abbrev pub math : FloatMath ℕ
math = record {
  zero = 0;
  one = 1;
  half = 0;
  ten = 10;
  tenth = 1;
  hundredth = 1;
  tolerance = 1;
  nearly_one = 1;
  rad_deg = 1;
  deg_rad = 1;
  neg = λ a. 0;
  add = λ a b. a + b;
  sub = λ a b. a - b;
  mul = λ a b. a * b;
  div = λ a b. a / b;
  fmod = λ a b. a % b;
  pow = raise;
  atan2 = λ a b. a;
  lt = ltb;
  le = leb;
  eq = λ a b. a == b;
  fabs = λ a. a;
  floor = λ a. a;
  ceil = λ a. a;
  sin = λ a. a;
  cos = λ a. a;
  tan = λ a. a;
  asin = λ a. a;
  acos = λ a. a;
  exp = λ a. a;
  log = λ a. a;
  sqrt = λ a. a;
  is_nan = λ a. false;
  is_inf = λ a. ltb 1000000 a;
  of_word = λ n. n;
  of_fixed = to_nat;
  word = λ n. n;
  fixed = pos;
}

abbrev pub world : World ℕ
world = record {
  named_get = λ name. none;
  named_exists = λ name. false;
  param_exists = λ n. true;
  param_get = λ n. some (n + 100);
  setting = λ id. none;
  stale = λ p. 0;
}

-- Whole lines, with the value and the position that are left.
read : Text → Option (Got ℕ)
unfolding ngc_read_real_value
read line = ngc_read_real_value math world 20 (at 0 line) 0

reads_left_to_right : read (codes "[1+2*3**2-4/2]") ≡ some (success 17 (at 14 []))
unfolding read
reads_left_to_right = refl

reads_parameter : read (codes "#[1+#5]") ≡ some (success 206 (at 7 []))
unfolding read
reads_parameter = refl

-- 1 + 2 * [3 + 4]
abbrev pub tree : Expr
tree =
    bin plus (num (1 ∷ []) [])
      (bin times (num (2 ∷ []) []) (bin plus (num (3 ∷ []) []) (num (4 ∷ []) [])))

tree-text : text tree ≡ codes "1+2*[3+4]"
unfolding text precedence
tree-text = refl

pub tree_value : eval math world tree ≡ some 15
unfolding eval execute_binary decimals_of multiplied
tree_value = refl

digit_WellFormed : (d : ℕ) → d ≤ 9 → WellFormed (num (d ∷ []) [])
digit_WellFormed d h = (omega arith, omega arith, (h, tt), tt)

pub tree-WellFormed : WellFormed tree
tree-WellFormed =
    let one = digit_WellFormed 1 (omega arith) in
    let two = digit_WellFormed 2 (omega arith) in
    let three = digit_WellFormed 3 (omega arith) in
    let four = digit_WellFormed 4 (omega arith) in (refl, one, (refl, two, (refl, three, four)))

ngc_read_real_value-text_example :
    ngc_read_real_value math world 21 (at 3 (bracket true (text tree) ++ codes "X7")) 0
    ≡ some (success 15 (at (3 + length (bracket true (text tree))) (codes "X7")))
ngc_read_real_value-text_example =
    ngc_read_real_value-text math world tree 20 3 (codes "X7") 0 tree-WellFormed
      (rw tree-text (omega arith)) tree_value

ngc_read_real_value-Ends_example :
    Ends 5 (ngc_read_real_value math world 6 (at 2 (codes "[1+*4")) 0)
ngc_read_real_value-Ends_example =
    ngc_read_real_value-Ends math world 5 (at 2 (codes "[1+*4")) 0 (omega arith)

abbrev two_entries : Stack ℕ
two_entries = (2, times) ∷ (1, plus) ∷ []

abbrev real : Reader ℕ
real = ngc_read_real_value math world 20

two_rounds :
    Visits math world real (at 1 (codes "1+2*3]")) (0 + 1 + 1) two_entries (at 5 (codes "3]"))
unfolding reduce closed read_operand ngc_read_real_value
two_rounds =
    round (0 + 1) ((1, plus) ∷ []) (at 3 (codes "2*3]")) 2 times
      (round 0 [] (at 1 (codes "1+2*3]")) 1 plus start refl refl refl) refl refl refl

stack_bound_example :
    ((fuel : ℕ)
      → eval_loop math world real (0 + 1 + 1 + fuel) 0 [] (at 1 (codes "1+2*3]"))
        ≡ eval_loop math world real fuel 0 two_entries (at 5 (codes "3]")))
    × (((closed two_entries ≡ false) × (length two_entries + 1 < max_stack))
        ⊎ ((v : ℕ) × ((two_entries ≡ (v, right_bracket) ∷ [])
              × ((fuel : ℕ)
                  → eval_loop math world real (0 + 1 + 1 + suc fuel) 0 [] (at 1 (codes "1+2*3]"))
                    ≡ some (success v (at 5 (codes "3]")))))))
stack_bound_example =
    stack_bound math world real 0 (at 1 (codes "1+2*3]")) (at 5 (codes "3]")) (0 + 1 + 1) two_rounds

read_float-num_example :
    read_float math (at 1 ((digits (1 ∷ 2 ∷ []) ++ decimals (5 ∷ [])) ++ codes "Y"))
    ≡ some (
      decimal_value math (1 ∷ 2 ∷ []) (5 ∷ []),
      at (1 + length (digits (1 ∷ 2 ∷ []) ++ decimals (5 ∷ []))) (codes "Y"),
    )
read_float-num_example =
    read_float-num math 1 (1 ∷ 2 ∷ []) (5 ∷ []) (codes "Y") (omega arith) (omega arith)
      (omega arith) (omega arith) refl

ngc_read_name-name_example :
    ngc_read_name (at 1 (b'<' ∷ (codes "TOOL" ++ (b'>' ∷ codes "+1"))))
    ≡ (let r : ℕ × Text × Cursor = (status_ok, codes "TOOL", at (1 + 4 + 2) (codes "+1")) in r)
ngc_read_name-name_example =
    ngc_read_name-name 1 (codes "TOOL") (codes "+1") (refl, (refl, (refl, (refl, tt))))
      (omega arith)

-- A value of one digit is printed as a tally.
abbrev tally : ℕ → ℕ → Text
tally v decimals = b'1' ∷ []

message_plain : no_format math world tally 3 20 3 (at 0 (codes "X=#5 mm")) ≡ true
unfolding read_reference ngc_read_real_value
message_plain = refl

substitute_fits_example :
    (text : Text) × (ngc_substitute_parameters math world tally 3 20 0 (codes "X=#5 mm")
      ≡ (let r : Option (ℕ × Text) = some (length text + 1, text) in r))
unfolding trim_spaces
substitute_fits_example =
    substitute_fits math world tally 3 20 0 (codes "X=#5 mm") (omega arith) message_plain

substitute_overflows_example :
    ngc_substitute_parameters math world tally 3 3 0 (codes "% ")
    ≡ (let r : Option (ℕ × Text) = some (1, codes "% ") in r)
substitute_overflows_example = substitute_overflows math world tally 3 0 0 b' ' refl refl refl refl
