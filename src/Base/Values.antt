-- ===== src/Base/Values.antt =====
-- The values of the language that messages and settings hold before they are checked.
use Prim.Native.Nat.{ℕ, ◌+◌, ◌*◌, ◌/◌, ◌%◌}
use mathlib.Core.Path.{◌≡◌}
use mathlib.Core.Bool.{Bool, true, false}
use mathlib.Core.Option.{Option, none, some}
use native.Mathlib.Omega.{arith}
use forthway_command_center.Base.Tests.{◌==◌, if◌then◌else◌}
use forthway_command_center.Base.Texts.{Text, is_id}

-- A number, to the thousandth: `decimal n` is n / 1000, and `below_zero n` is -(n + 1) / 1000.
-- A time in milliseconds is so a whole number of microseconds.
pub data Number : Type 0 where
  nan infinity neg_infinity : Number
  decimal : ℕ → Number
  below_zero : ℕ → Number

-- A JSON value or `undefined`. A string stands with what `Number()` makes of it, and so does an
-- object or array: the parser of numerals belongs to the language.
pub data Value : Type 0 where
  undefined null : Value
  bool : Bool → Value
  num : Number → Value
  text : Text → Number → Value
  object : Number → Value

abbrev pub whole : ℕ → Value
whole n = Value.num (Number.decimal (n * 1000))

-- `Number(v)`
abbrev pub to_number : Value → Number
to_number Value.undefined = Number.nan
to_number Value.null = Number.decimal 0
to_number (Value.bool true) = Number.decimal 1000
to_number (Value.bool false) = Number.decimal 0
to_number (Value.num x) = x
to_number (Value.text s x) = x
to_number (Value.object x) = x

-- `Number.isFinite(x)`
abbrev pub is_finite : Number → Bool
is_finite (Number.decimal n) = true
is_finite (Number.below_zero n) = true
is_finite _ = false

-- `Number.isInteger(x) && x >= 0`, with the integer.
abbrev pub natural : Number → Option ℕ
natural (Number.decimal n) = if n % 1000 == 0 then some (n / 1000) else none
natural _ = none

-- `Number.isFinite(x) && x >= 0 ? Math.floor(x) : 0`
abbrev pub floor_or_zero : Number → ℕ
floor_or_zero (Number.decimal n) = n / 1000
floor_or_zero _ = 0

-- `typeof v === "string"`, with the string.
abbrev pub string_of : Value → Option Text
string_of (Value.text s x) = some s
string_of _ = none

-- `typeof v === "string" && ID_RE.test(v) ? v : null`
abbrev pub clean_id : Value → Option Text
clean_id (Value.text s x) = if is_id s then some s else none
clean_id _ = none

-- `Math.round(a / b)` for a positive divisor: the nearest integer, halves upwards.
abbrev pub round_div : ℕ → ℕ → ℕ
round_div a b = (2 * a + b) / (2 * b)

-- `Math.round` of a time in microseconds, in milliseconds.
abbrev pub round_ms : ℕ → ℕ
round_ms t = (t + 500) / 1000

abbrev pub micros : ℕ → ℕ
micros ms = ms * 1000

pub natural-whole : (n : ℕ) → natural (to_number (whole n)) ≡ some n
natural-whole n = ground arith
