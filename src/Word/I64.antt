-- ===== src/Word/I64.antt =====
-- `i64`, with the overflow checks of the release profile, and its cast to `u64`.
use sol_token_mill.Base.{Bool, if◌then◌else◌, ltb, suc, ℕ, ◌-◌, ◌^◌}
use sol_token_mill.Base.Int.{negsuc, pos, ℤ, ◌+ℤ◌, ◌-ℤ◌}
use sol_token_mill.Errors.{Result, err, ok, panic}

unfoldable pub in_bounds : ℤ → Bool
in_bounds (pos n) = ltb n (2 ^ 63)
in_bounds (negsuc n) = ltb n (2 ^ 63)

abbrev pub checked : ℤ → Result ℤ
checked z = if in_bounds z then ok z else err panic

abbrev pub add : ℤ → ℤ → Result ℤ
add a b = checked (a +ℤ b)

abbrev pub sub : ℤ → ℤ → Result ℤ
sub a b = checked (a -ℤ b)

-- `z as u64` keeps the bit pattern.
abbrev pub as_u64 : ℤ → ℕ
as_u64 (pos n) = n
as_u64 (negsuc n) = 2 ^ 64 - suc n
