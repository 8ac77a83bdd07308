-- ===== src/Expression/Number.antt =====
-- nuts_bolts.c: `read_float` and `read_uint`, which read a number out of a line.
use cnc_3d.Common.{
  ℕ, zero, suc, ◌+◌, ◌-◌, ◌*◌, ◌%◌, Bool, true, false, Option, none, some, [], ◌∷◌, ◌==◌, leb, not,
  ◌&&◌, ◌||◌, if◌then◌else◌,
}
use cnc_3d.FlowCtrl.Types.{Text, status_ok}
use cnc_3d.Expression.Types.{
  Cursor, peek, step, is_digit, FloatMath, bad_number_format, negative_value, value_not_integer,
}

abbrev word_range : ℕ
word_range = 4294967296

-- The variables of the loop; `exp` is `up` less `down`.
pub record Scan : Type 0 where
  pub ok : Bool
  pub is_decimal : Bool
  pub ndigit : ℕ
  pub intval : ℕ
  pub up : ℕ
  pub down : ℕ

abbrev pub no_digits : Scan
no_digits = record { ok = false; is_decimal = false; ndigit = 0; intval = 0; up = 0; down = 0 }

-- `if(c != 0 || intval) ndigit++`
unfoldable pub counted : Scan → ℕ → ℕ
counted s c = if not (c == 0) || not (s.intval == 0) then s.ndigit + 1 else s.ndigit

-- One digit of `read_float`: digits behind the ninth significant one are dropped.
unfoldable pub float_digit : Scan → ℕ → Scan
unfolding counted
float_digit s c =
    let n = counted s c in
    if leb n 9
    then record s {
      ok = true;
      ndigit = n;
      down = (if s.is_decimal then s.down + 1 else s.down);
      intval = (s.intval * 10 + c) % word_range;
    }
    else record s { ok = true; ndigit = n; up = (if s.is_decimal then s.up else s.up + 1) }

-- One character, or none where the loop is left.
unfoldable pub float_char : Scan → ℕ → Option Scan
unfolding float_digit
float_char s c =
    if is_digit c
    then some (float_digit s (c - 48))
    else if c == b'.' && not s.is_decimal
    then some (record s { is_decimal = true })
    else none

unfoldable pub float_loop : Scan → ℕ → Text → Scan × Cursor
unfolding float_char
float_loop s p [] = (s, record { pos = p; rest = [] })
float_loop s p (c ∷ rest) = elim (float_char s c) [
  | some s' ↦ float_loop s' (p + 1) rest
  | none ↦ (s, record { pos = p; rest = c ∷ rest })
]

module _ {F : Type 0} (m : FloatMath F) where
  -- The negative exponents, two places at a time.
  unfoldable pub scale_down : ℕ → F → F
  scale_down zero v = v
  scale_down (suc zero) v = m.mul v m.tenth
  scale_down (suc (suc n)) v = scale_down n (m.mul v m.hundredth)

  unfoldable pub scale_up : ℕ → F → F
  scale_up zero v = v
  scale_up (suc n) v = scale_up n (m.mul v m.ten)

  -- `intval` scaled by the exponent `up` less `down`.
  unfoldable pub scale : ℕ → ℕ → ℕ → F
  unfolding scale_down scale_up
  scale intval up down =
      let v = m.of_word intval in
      if m.eq v m.zero
      then v
      else if leb up down
      then scale_down (down - up) v
      else scale_up (up - down) v

  -- The value of the digits, without the sign.
  abbrev pub scaled : Scan → F
  scaled s = scale s.intval s.up s.down

  -- What is done behind the loop.
  unfoldable pub finish_float : Bool → Scan × Cursor → Option (F × Cursor)
  unfolding scale
  finish_float is_negative (s, end) =
      if s.ok then some ((if is_negative then m.neg (scaled s) else scaled s), end) else none

  -- The value and the position behind it, or none for `false`, which leaves both alone.
  unfoldable pub read_float : Cursor → Option (F × Cursor)
  unfolding finish_float float_loop
  read_float c =
      let is_negative = peek c.rest == b'-' in
      let start = if is_negative || peek c.rest == b'+' then step 1 c else c in
      finish_float is_negative (float_loop no_digits start.pos start.rest)

-- One digit of `read_uint`, or none for a decimal that is not zero.
unfoldable pub uint_digit : Scan → ℕ → Option Scan
uint_digit s c =
    let n =
      if not s.is_decimal && (not (c == 0) || not (s.intval == 0))
      then s.ndigit + 1
      else s.ndigit in
    if s.is_decimal && not (c == 0)
    then none
    else if (leb n 9 || leb c 4) && leb s.intval 429496729
    then some (record s { ok = true; ndigit = n; intval = (s.intval * 10 + c) % word_range })
    else some (record s { ok = true; ndigit = n; up = (if s.is_decimal then s.up else s.up + 1) })

-- One character: the scan so far, none inside for the early return, none where the loop is left.
unfoldable pub uint_char : Scan → ℕ → Option (Option Scan)
unfolding uint_digit
uint_char s c =
    if is_digit c
    then some (uint_digit s (c - 48))
    else if c == b'.' && not s.is_decimal
    then some (some (record s { is_decimal = true }))
    else none

unfoldable pub uint_loop : Scan → ℕ → Text → Option (Scan × Cursor)
unfolding uint_char
uint_loop s p [] = some (s, record { pos = p; rest = [] })
uint_loop s p (c ∷ rest) = elim (uint_char s c) [
  | some (some s') ↦ uint_loop s' (p + 1) rest
  | some none ↦ none
  | none ↦ some (s, record { pos = p; rest = c ∷ rest })
]

-- The status, the value and the position behind it; an error leaves both alone.
unfoldable pub read_uint : Cursor → ℕ → ℕ × ℕ × Cursor
unfolding uint_loop
read_uint c old =
    let start = if peek c.rest == b'+' then step 1 c else c in
    if peek c.rest == b'-'
    then (negative_value, old, c)
    else elim (uint_loop no_digits start.pos start.rest) [
      | none ↦ (value_not_integer, old, c)
      | some (s, end) ↦ if s.ok then (status_ok, s.intval, end) else (bad_number_format, old, c)
    ]

unfoldable pub ngc_read_integer_unsigned : Cursor → ℕ → ℕ × ℕ × Cursor
unfolding read_uint
ngc_read_integer_unsigned c old =
    if peek c.rest == b'+' then (value_not_integer, old, c) else read_uint c old
