-- ===== src/Expression/Values.antt =====
-- ngc_expr.c: names, numbers of parameters, settings, and what a reader makes of them.
use cnc_3d.Common.{
  ℕ, zero, suc, ◌+◌, ◌-◌, ◌%◌, ◌/◌, Bool, true, false, Option, none, some, [], ◌∷◌, ◌==◌, ltb, leb,
  not, ◌&&◌, ◌||◌, if◌then◌else◌, drop, length, get_or, take,
}
use cnc_3d.FlowCtrl.Types.{Text, status_ok, status_syntax_error}
use cnc_3d.Expression.Types.{
  Cursor, peek, step, ℤ, pos, negsuc, FloatMath, SettingValue, decimal, integer, other, World, Got,
  bad_number_format, value_not_integer, value_out_of_range, argument_out_of_range,
  expression_syntax_error,
}

-- The characters that the loop of `ngc_read_name` copies.
unfoldable pub name_chars : ℕ → Text → Text
name_chars len [] = []
name_chars len (c ∷ text) =
    if c == b'>' || not (leb len 30) then [] else c ∷ name_chars (len + 1) text

-- The status, what is written to `buffer` before the terminator, and the position.
unfoldable pub ngc_read_name : Cursor → ℕ × Text × Cursor
unfolding name_chars
ngc_read_name c =
    let name = name_chars 0 (drop 1 c.rest) in
    let after = step (length name + 1) c in
    if not (peek c.rest == b'<')
    then (bad_number_format, [], step 1 c)
    else if peek after.rest == b'>'
    then (status_ok, name, step 1 after)
    else (status_syntax_error, name, after)

-- The text up to the first `]`.
unfoldable pub up_to_bracket : Text → Text
up_to_bracket [] = []
up_to_bracket (c ∷ text) = if c == b']' then [] else c ∷ up_to_bracket text

-- `(int32_t)` of a `uint32_t`
unfoldable pub of_word32 : ℕ → ℤ
of_word32 n = if ltb n 2147483648 then pos n else negsuc (4294967295 - n)

abbrev pub is_negative : ℤ → Bool
is_negative (pos n) = false
is_negative (negsuc n) = true

-- `(ngc_param_id_t)`, a cast to 16 bits, of a number that is not negative.
abbrev pub param_id : ℤ → ℕ
param_id (pos n) = n % 65536
param_id (negsuc n) = 65535 - n % 65536

-- `bitnum < 0 || bitnum > 31`
abbrev pub is_bit : ℤ → Bool
is_bit (pos n) = leb n 31
is_bit (negsuc n) = false

abbrev pub magnitude : ℤ → ℕ
magnitude (pos n) = n
magnitude (negsuc n) = suc n

abbrev pub bit_of : ℕ → ℕ → Bool
bit_of n zero = n % 2 == 1
bit_of n (suc k) = bit_of (n / 2) k

-- A parameter's value, by name or by number; false in the source is none.
unfoldable pub got_param : {F : Type 0} → Option F → ℕ → F → Cursor → Got F
got_param (some v) status old c = record { status = status_ok; value = v; cursor = c }
got_param none status old c = record { status = status; value = old; cursor = c }

module _ {F : Type 0} (m : FloatMath F) where
  -- The rest of `ngc_read_integer_value`, once a value was read.
  unfoldable pub to_integer : F → ℕ × ℤ
  unfolding of_word32
  to_integer v =
      let n = m.fixed (m.floor v) in
      let gap = m.sub v (m.of_fixed n) in
      if m.lt m.nearly_one gap
      then (status_ok, of_word32 (m.word (m.ceil v)))
      else if m.lt m.tolerance gap
      then (value_not_integer, n)
      else (status_ok, n)

module _ {F : Type 0} (m : FloatMath F) (w : World F) where
  unfoldable pub named_parameter : Cursor → F → Got F
  unfolding got_param ngc_read_name
  named_parameter c old =
      let (status, name, end) = ngc_read_name c in
      if status == status_ok
      then got_param (w.named_get name) bad_number_format old end
      else record { status = status; value = old; cursor = end }

  unfoldable pub numbered_parameter : ℕ × ℤ × Cursor → F → Bool → Got F
  unfolding got_param
  numbered_parameter (status, n, end) old check =
      if not (status == status_ok)
      then record { status = status; value = old; cursor = end }
      else if is_negative n || check && not (w.param_exists (param_id n))
      then record { status = value_out_of_range; value = old; cursor = end }
      else got_param (w.param_get (param_id n)) value_out_of_range old end

  -- EXISTS, behind its bracket.
  unfoldable pub read_exists : Cursor → F → Got F
  unfolding up_to_bracket
  read_exists c old =
      let inner = up_to_bracket (drop 2 c.rest) in
      let after = step (length inner + 2) c in
      if peek c.rest == b'#'
        && peek (drop 1 c.rest) == b'<'
        && peek after.rest == b']'
        && get_or inner (length inner - 1) 0 == b'>'
      then record {
        status = status_ok;
        value = (if w.named_exists (take (length inner - 1) inner) then m.one else m.zero);
        cursor = step 1 after;
      }
      else record { status = expression_syntax_error; value = old; cursor = c }

  -- PRM, behind its arguments: a setting's value, or the bit `bitnum` of it.
  unfoldable pub setting_value : Option (SettingValue F) → Option ℕ → F → ℕ × F
  setting_value (some (decimal v)) bitnum old = (status_ok, v)
  setting_value (some (integer n)) none old = (status_ok, m.of_word n)
  setting_value (some (integer n)) (some k) old =
      (status_ok, (if bit_of (m.word (m.of_word n)) k then m.one else m.zero))
  setting_value (some other) bitnum old = (argument_out_of_range, old)
  setting_value none bitnum old = (argument_out_of_range, old)

  unfoldable pub close_setting : ℤ → Option ℕ → Cursor → F → Got F
  unfolding setting_value
  close_setting id bitnum c old =
      let (status, v) = setting_value (w.setting id) bitnum old in
      if peek c.rest == b']'
      then record { status = status; value = v; cursor = step 1 c }
      else record { status = expression_syntax_error; value = old; cursor = c }

  unfoldable pub setting_bit : ℤ → ℕ × ℤ × Cursor → F → Got F
  unfolding close_setting
  setting_bit id (status, n, c) old =
      if not (status == status_ok)
      then record { status = status; value = old; cursor = c }
      else if is_bit n
      then close_setting id (some (magnitude n)) c old
      else record { status = argument_out_of_range; value = old; cursor = c }
