-- ===== src/Constant.antt =====
-- programs/token-mill/src/constant.rs.
use sol_token_mill.Base.{ℕ}

abbrev pub prices_length : ℕ
prices_length = 11

abbrev pub interval_number : ℕ
interval_number = 10

abbrev pub max_total_supply : ℕ
max_total_supply = 1_000_000_000_000_000

abbrev pub max_price : ℕ
max_price = 1_000_000_000_000_000_000

abbrev pub mill_token_decimals : ℕ
mill_token_decimals = 6

abbrev pub base_precision : ℕ
base_precision = 1_000_000

abbrev pub scale : ℕ
scale = 10_000_000_000

abbrev pub staking_scale : ℕ
staking_scale = 1_000_000_000_000_000_000

abbrev pub max_bps : ℕ
max_bps = 10_000
