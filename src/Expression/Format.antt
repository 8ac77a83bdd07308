-- ===== src/Expression/Format.antt =====
-- ngc_expr.c: `ngc_substitute_parameters`, which measures a message, allocates it and writes it, and
-- `ngc_process_comment`. How a value is printed is the argument `show`, and `default_decimals` is
-- the result of `ngc_float_decimals`.
use cnc_3d.Common.{
  ℕ, zero, suc, ◌+◌, ◌-◌, Bool, true, Option, none, some, [], ◌∷◌, ◌++◌, ◌==◌, leb, ◌&&◌, not,
  length, set, drop, if◌then◌else◌,
}
use cnc_3d.FlowCtrl.Types.{Text, status_ok}
use cnc_3d.FlowCtrl.Command.{codes, begins}
use cnc_3d.Expression.Types.{Cursor, peek, step, is_digit, FloatMath, World, Got}
use cnc_3d.Expression.Read.{ngc_read_parameter, ngc_read_real_value}

-- `parse_format`, `decimals`, and the static variable `d` of `get_format`.
pub record Format : Type 0 where
  pub stage : ℕ
  pub decimals : ℕ
  pub d : ℕ

-- The result of `get_format`: a negative one is the length of a format that is complete.
pub data Step : Type 0 where
  complete : ℕ → Step
  to : ℕ → Step

unfoldable pub get_format : ℕ → ℕ → Format → Step × Format
get_format default_decimals c f =
    if f.stage == 1
    then if c == b'd'
      then (complete 2, record f { decimals = 0 })
      else if c == b'f'
      then (complete 2, record f { decimals = default_decimals })
      else if c == b'.'
      then (to 2, f)
      else (to 0, f)
    else if f.stage == 2
    then if is_digit c then (to 3, record f { d = c - 48 }) else (to 0, f)
    else if c == b'f'
    then (complete 4, record f { decimals = f.d })
    else (to 0, f)

-- `fmt` up to its first NUL, as `strcat` reads it.
unfoldable pub c_string : Text → Text
c_string [] = []
c_string (c ∷ text) = if c == 0 then [] else c ∷ c_string text

abbrev pub no_text : Text
no_text = 0 ∷ 0 ∷ 0 ∷ 0 ∷ 0 ∷ []

unfoldable pub trim_spaces : Text → Text
trim_spaces [] = []
trim_spaces (c ∷ text) = if c == b' ' then trim_spaces text else c ∷ text

module _ {F : Type 0} (m : FloatMath F) (w : World F) (show : F → ℕ → Text)
    (default_decimals : ℕ) where
  -- What stands for a reference in the message, and the position behind it.
  unfoldable pub reference : Got F → ℕ → Text × Cursor
  reference g decimals =
      ((if g.status == status_ok then show g.value decimals else codes "N/A"), g.cursor)

  unfoldable pub read_reference : ℕ → Cursor → ℕ → Option (Text × Cursor)
  unfolding reference
  read_reference fuel c decimals =
      elim (ngc_read_parameter m w (ngc_read_real_value m w fuel) c (w.stale c.pos) true) [
        | none ↦ none
        | some g ↦ some (reference g decimals)
      ]

  -- One character of a format in the first pass: the format, and what is added to `len`.
  unfoldable pub measured_format : Step × Format → Format × ℕ
  measured_format (complete n, f) = (record f { stage = 0 }, n)
  measured_format (to n, f) = (record f { stage = n }, 0)

  -- The first pass: `len`, and the format as the second pass finds it.
  unfoldable pub measure : ℕ → Format → ℕ → Cursor → Option (ℕ × Format)
  unfolding get_format measured_format read_reference
  measure zero f len c = none
  measure (suc fuel) f len c =
      let (f', n) = measured_format (get_format default_decimals (peek c.rest) f) in
      let in_format = measure fuel f' (len + n) (step 1 c) in
      let started = measure fuel (record f { stage = 1 }) len (step 1 c) in
      let plain = measure fuel f (len + 1) (step 1 c) in
      let referred : Option (ℕ × Format) = elim (read_reference fuel c f.decimals) [
        | none ↦ none
        | some (text, end) ↦ measure fuel f (len + length text) end
      ] in
      if peek c.rest == 0
      then some (len, f)
      else if not (f.stage == 0)
      then in_format
      else if peek c.rest == b'%'
      then started
      else if peek c.rest == b'#'
      then referred
      else plain

  -- One character of a format in the second pass: a format that is not complete is written as it is.
  unfoldable pub written_format : Step × Format → Text → Format × Text
  unfolding c_string
  written_format (complete n, f) fmt = (record f { stage = 0 }, [])
  written_format (to n, f) fmt = (record f { stage = n }, (if n == 0 then c_string fmt else []))

  -- The second pass: what is written, behind `out`.
  unfoldable pub write : ℕ → Format → Text → Text → Cursor → Option Text
  unfolding get_format written_format read_reference
  write zero f fmt out c = none
  write (suc fuel) f fmt out c =
      let fmt' = set fmt f.stage (peek c.rest) in
      let (f', text) = written_format (get_format default_decimals (peek c.rest) f) fmt' in
      let in_format = write fuel f' fmt' (out ++ text) (step 1 c) in
      let started = write fuel (record f { stage = 1 }) (set fmt 0 b'%') out (step 1 c) in
      let plain = write fuel f fmt (out ++ (peek c.rest ∷ [])) (step 1 c) in
      let referred : Option Text = elim (read_reference fuel c f.decimals) [
        | none ↦ none
        | some (text, end) ↦ write fuel f fmt (out ++ text) end
      ] in
      if peek c.rest == 0
      then some out
      else if not (f.stage == 0)
      then in_format
      else if peek c.rest == b'%'
      then started
      else if peek c.rest == b'#'
      then referred
      else plain

  -- The size of the allocated message and the text that is written to it, without its terminator.
  unfoldable pub ngc_substitute_parameters : ℕ → ℕ → Text → Option (ℕ × Text)
  unfolding measure write trim_spaces
  ngc_substitute_parameters fuel d line =
      let start : Cursor = record { pos = 0; rest = trim_spaces line } in
      elim (measure fuel (record { stage = 0; decimals = default_decimals; d = d }) 0 start) [
        | none ↦ none
        | some (len, f) ↦ elim (write fuel f no_text [] start) [
          | none ↦ none
          | some out ↦ some (len + 1, out)
        ]
      ]

unfoldable pub upper_text : Text → Text
upper_text [] = []
upper_text (c ∷ text) = (if leb 97 c && leb c 122 then c - 32 else c) ∷ upper_text text

-- What `ngc_process_comment` hands to `ngc_substitute_parameters`, if it does, and what is left of
-- the comment for the event. A DEBUG message that is switched off is emptied from its start.
unfoldable pub ngc_process_comment : Bool → Text → Option Text × Text
unfolding upper_text begins
ngc_process_comment debug_out comment =
    let text = drop 6 comment in
    if begins (upper_text comment) (codes "DEBUG,")
    then if debug_out then (some text, codes "DEBUG,") else (none, [])
    else if begins (upper_text comment) (codes "PRINT,")
    then (some text, codes "PRINT,")
    else (none, comment)
