-- ===== src/Expression/Progress.antt =====
-- No reader moves backwards: what each one leaves of a line is not longer than what it got.
use cnc_3d.Common.{
  ℕ, zero, suc, ◌+◌, ◌≤◌, ◌<◌, ◌≡◌, refl, ap, Bool, true, false, ◌||◌, Option, none, some, List, [],
  ◌∷◌, ◌==◌, drop, length, arith, Bool-cases, Option-cases, inl, inr, if◌then◌else◌,
}
use cnc_3d.FlowCtrl.Types.{Text}
use cnc_3d.FlowCtrl.Command.{begins}
use cnc_3d.Expression.Types.{
  Cursor, peek, step, ℤ, FloatMath, World, value_out_of_range, bad_number_format,
}
use cnc_3d.Expression.Number.{Scan, no_digits, float_char, float_loop, finish_float, read_float}
use cnc_3d.Expression.Operators.{BinaryOp, Names, find_name, binary_names, read_operation}
use cnc_3d.Expression.Unary.{unary_names, read_operation_unary}
use cnc_3d.Expression.Values.{
  name_chars, up_to_bracket, param_id, magnitude, ngc_read_name, got_param, named_parameter,
  numbered_parameter, read_exists, close_setting, setting_bit,
}

pub length-drop {ℓ} : {A : Type ℓ} (n : ℕ) (xs : List A) → length (drop n xs) ≤ length xs
length-drop zero xs = omega arith
length-drop (suc n) [] = omega arith
length-drop (suc n) (x ∷ xs) = omega (arith, length-drop n xs)

-- What is left of the line.
abbrev pub left : Cursor → ℕ
left c = length c.rest

pub left-step : (k : ℕ) (c : Cursor) → left (step k c) ≤ left c
left-step k c = length-drop k c.rest

-- A step over a character that is there.
pub left-step_one : (c : Cursor) → (peek c.rest == 0) ≡ false → left (step 1 c) < left c
left-step_one c h = length-tail c.rest h
  where
    length-tail : (t : Text) → (peek t == 0) ≡ false → length (drop 1 t) < length t
    length-tail [] h = cc
    length-tail (x ∷ t) h = omega arith

pub left-find_name :
    {A : Type 0} (names : Names A) (c : Cursor) → left (find_name names c).1 ≤ left c
unfolding find_name
left-find_name [] c = omega arith
left-find_name ((word, op) ∷ names) c = elim (Bool-cases (begins c.rest word)) [
  | inl h ↦ rw h (left-step (length word) c)
  | inr h ↦ rw h (left-find_name names c)
]

pub left-read_operation : (c : Cursor) → left (read_operation c).1 ≤ left c
unfolding read_operation
left-read_operation c =
    omega (arith, left-find_name (binary_names (peek c.rest)) (step 1 c), left-step 1 c)

-- An operator that is found has at least one character.
pub left-read_operation-some :
    (c : Cursor) {op : BinaryOp}
    → (read_operation c).0 ≡ some op
    → left (read_operation c).1 < left c
unfolding read_operation find_name
left-read_operation-some c {op} h = elim (Bool-cases (peek c.rest == 0)) [
  | inl e ↦
      let z : peek c.rest ≡ 0 = ground (arith, e) in
      let none_there = ap (λ k. (find_name (binary_names k) (step 1 c)).0) z in cc (h)
  | inr e ↦ omega (arith, left-find_name (binary_names (peek c.rest)) (step 1 c), left-step_one c e)
]

pub left-read_operation_unary :
    (c : Cursor) → (peek c.rest == 0) ≡ false → left (read_operation_unary c).1 < left c
unfolding read_operation_unary
left-read_operation_unary c e =
    omega (arith, left-find_name (unary_names (peek c.rest)) (step 1 c), left-step_one c e)

left-float_loop : (s : Scan) (p : ℕ) (t : Text) → left (float_loop s p t).1 ≤ length t
unfolding float_loop
left-float_loop s p [] = omega arith
left-float_loop s p (c ∷ t) = elim (Option-cases (float_char s c)) [
  | inl h ↦ rw (h, float_loop) (omega arith)
  | inr (s', h) ↦ rw (h, float_loop) (omega (arith, left-float_loop s' (p + 1) t))
]

left-maybe_step : (b : Bool) (c : Cursor) → left (if b then step 1 c else c) ≤ left c
left-maybe_step true c = left-step 1 c
left-maybe_step false c = omega arith

module _ {F : Type 0} (m : FloatMath F) where
  left-finish_float :
      (b : Bool) (r : Scan × Cursor) {v : F} {end : Cursor}
      → finish_float m b r ≡ some (v, end)
      → end ≡ r.1
  unfolding finish_float
  left-finish_float b (s, c) {v} {end} h = ground (arith, h)

  pub left-read_float :
      (c : Cursor) {v : F} {end : Cursor} → read_float m c ≡ some (v, end) → left end ≤ left c
  unfolding read_float
  left-read_float c h =
      let sign = peek c.rest == b'-' || peek c.rest == b'+' in
      let start = if sign then step 1 c else c in
      let scan = float_loop no_digits start.pos start.rest in
      let end = ap left (left-finish_float (peek c.rest == b'-') scan h) in
      omega (arith, end, left-float_loop no_digits start.pos start.rest, left-maybe_step sign c)

  module _ (w : World F) where
    left-got_param :
        (o : Option F) (status : ℕ) (old : F) (c : Cursor) → (got_param o status old c).cursor ≡ c
    unfolding got_param
    left-got_param (some v) status old c = refl
    left-got_param none status old c = refl

    pub left-ngc_read_name : (c : Cursor) → left (ngc_read_name c).2 ≤ left c
    unfolding ngc_read_name
    left-ngc_read_name c =
        let k = length (name_chars 0 (drop 1 c.rest)) + 1 in
        ground (arith, left-step 1 c, left-step k c, left-step 1 (step k c))

    pub left-named_parameter :
        (c : Cursor) (old : F) → left (named_parameter m w c old).cursor ≤ left c
    unfolding named_parameter
    left-named_parameter c old =
        let (status, name, end) = ngc_read_name c in
        ground
          (arith, left-ngc_read_name c, left-got_param (w.named_get name) bad_number_format old end)

    pub left-read_exists : (c : Cursor) (old : F) → left (read_exists m w c old).cursor ≤ left c
    unfolding read_exists
    left-read_exists c old =
        let k = length (up_to_bracket (drop 2 c.rest)) + 2 in
        ground (arith, left-step k c, left-step 1 (step k c))

    pub left-numbered_parameter :
        (r : ℕ × ℤ × Cursor) (old : F) (check : Bool)
        → left (numbered_parameter m w r old check).cursor ≤ left r.2
    unfolding numbered_parameter
    left-numbered_parameter (status, n, end) old check =
        ground (arith, left-got_param (w.param_get (param_id n)) value_out_of_range old end)

    pub left-close_setting :
        (id : ℤ) (bit : Option ℕ) (c : Cursor) (old : F)
        → left (close_setting m w id bit c old).cursor ≤ left c
    unfolding close_setting
    left-close_setting id bit c old = ground (arith, left-step 1 c)

    pub left-setting_bit :
        (id : ℤ) (r : ℕ × ℤ × Cursor) (old : F) → left (setting_bit m w id r old).cursor ≤ left r.2
    unfolding setting_bit
    left-setting_bit id (status, n, c) old =
        ground (arith, left-close_setting id (some (magnitude n)) c old)
