-- ===== src/Expression/Types.antt =====
-- The data of stm32_firmware/core-master/ngc_expr.c: status codes, positions in a line, the
-- operations of `float`, and what the readers take from other modules.
use cnc_3d.Common.{ℕ, ◌+◌, Bool, Option, ◌||◌, leb, ◌&&◌, drop, get_or}
use cnc_3d.FlowCtrl.Types.{Text}

-- The codes of `status_code_t` that the readers return.
abbrev pub bad_number_format : ℕ
bad_number_format = 2

abbrev pub negative_value : ℕ
negative_value = 4

abbrev pub unsupported_command : ℕ
unsupported_command = 20

abbrev pub value_not_integer : ℕ
value_not_integer = 23

abbrev pub value_out_of_range : ℕ
value_out_of_range = 39

abbrev pub unknown_op : ℕ
unknown_op = 71

abbrev pub divide_by_zero : ℕ
divide_by_zero = 72

abbrev pub argument_out_of_range : ℕ
argument_out_of_range = 73

abbrev pub invalid_argument : ℕ
invalid_argument = 74

abbrev pub expression_syntax_error : ℕ
expression_syntax_error = 75

abbrev pub invalid_result : ℕ
invalid_result = 76

-- A position in a line: `pos`, and the text from there on.
pub record Cursor : Type 0 where
  pub pos : ℕ
  pub rest : Text

-- `line[*pos]`, and 0 at the terminator.
abbrev pub peek : Text → ℕ
peek text = get_or text 0 0

-- `*pos += k`
abbrev pub step : ℕ → Cursor → Cursor
step k c = record { pos = c.pos + k; rest = drop k c.rest }

abbrev pub is_digit : ℕ → Bool
is_digit c = leb 48 c && leb c 57

-- `negsuc n` is -(n + 1).
pub data ℤ : Type 0 where
  pos : ℕ → ℤ
  negsuc : ℕ → ℤ

-- The operations of `float`, its constants and casts; `fixed` is a cast to `int` or `int32_t`, and
-- `word` one to `uint32_t`.
pub record FloatMath (F : Type 0) : Type 0 where
  pub zero : F
  pub one : F
  pub half : F
  pub ten : F
  pub tenth : F
  pub hundredth : F
  pub tolerance : F
  pub nearly_one : F
  pub rad_deg : F
  pub deg_rad : F
  pub neg : F → F
  pub add : F → F → F
  pub sub : F → F → F
  pub mul : F → F → F
  pub div : F → F → F
  pub fmod : F → F → F
  pub pow : F → F → F
  pub atan2 : F → F → F
  pub lt : F → F → Bool
  pub le : F → F → Bool
  pub eq : F → F → Bool
  pub fabs : F → F
  pub floor : F → F
  pub ceil : F → F
  pub sin : F → F
  pub cos : F → F
  pub tan : F → F
  pub asin : F → F
  pub acos : F → F
  pub exp : F → F
  pub log : F → F
  pub sqrt : F → F
  pub is_nan : F → Bool
  pub is_inf : F → Bool
  pub of_word : ℕ → F
  pub of_fixed : ℤ → F
  pub word : F → ℕ
  pub fixed : F → ℤ

-- The value of a setting as `PRM[]` reads it, by its datatype.
pub data SettingValue (F : Type 0) : Type 0 where
  decimal : F → SettingValue F
  integer : ℕ → SettingValue F
  other : SettingValue F

-- What the readers take from ngc_params.c and settings.c. `stale` gives, by position, what a local
-- variable or a slot of `values` holds before a value is read into it there.
pub record World (F : Type 0) : Type 0 where
  pub named_get : Text → Option F
  pub named_exists : Text → Bool
  pub param_exists : ℕ → Bool
  pub param_get : ℕ → Option F
  pub setting : ℤ → Option (SettingValue F)
  pub stale : ℕ → F

-- What a reader of a value leaves: its status, the value, and the position after it.
pub record Got (F : Type 0) : Type 0 where
  pub status : ℕ
  pub value : F
  pub cursor : Cursor

-- The result of a step that fails with a status code.
pub data Outcome (A : Type 0) : Type 0 where
  ok : A → Outcome A
  error : ℕ → Outcome A

-- `isnan(value) || isinf(value)`
abbrev pub is_invalid : {F : Type 0} → FloatMath F → F → Bool
is_invalid m v = m.is_nan v || m.is_inf v
