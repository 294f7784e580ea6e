-- ===== src/Word/U16.antt =====
-- `u16`, with the overflow checks of the release profile.
use sol_token_mill.Base.{ℕ, ◌+◌, ◌^◌}
use sol_token_mill.Errors.{Result}
use sol_token_mill.Word.{in_range}

abbrev pub lim : ℕ
lim = 2 ^ 16

abbrev pub add : ℕ → ℕ → Result ℕ
add a b = in_range lim (a + b)
