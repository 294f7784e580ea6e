-- ===== src/Word.antt =====
-- Rust's unsigned integers as native numbers below 2 ^ w. The release profile checks overflow, so
-- an operation that leaves the range panics. Subtraction, division and remainder do not depend on
-- the width.
pub mod U16
pub mod U64
pub mod U128
pub mod I64
use sol_token_mill.Base.{if◌then◌else◌, leb, ltb, ℕ, ◌%◌, ◌-◌, ◌/◌, ◌==◌, ◌^◌}
use sol_token_mill.Errors.{Result, err, ok, panic, try_from_int}

-- A result that must lie below `lim`.
abbrev pub in_range : ℕ → ℕ → Result ℕ
in_range lim n = if ltb n lim then ok n else err panic

abbrev pub sub : ℕ → ℕ → Result ℕ
sub a b = if leb b a then ok (a - b) else err panic

abbrev pub div : ℕ → ℕ → Result ℕ
div a b = if b == 0 then err panic else ok (a / b)

abbrev pub rem : ℕ → ℕ → Result ℕ
rem a b = if b == 0 then err panic else ok (a % b)

-- `T::try_from(n)?` for a type with values below `lim`.
abbrev pub try_from : ℕ → ℕ → Result ℕ
try_from lim n = if ltb n lim then ok n else err try_from_int

-- `u128::pow(10, n)`.
unfoldable pub power_of_ten : ℕ → Result ℕ
power_of_ten n = in_range (2 ^ 128) (10 ^ n)
