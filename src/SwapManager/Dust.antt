-- ===== src/SwapManager/Dust.antt =====
-- programs/token-mill/src/manager/swap_manager.rs: a sale by a quote amount that vanishes at the
-- internal scale.
use sol_token_mill.Word.U64
use sol_token_mill.Base.{arith, length, refl, ℕ, ◌*◌, ◌<◌, ◌^◌, ◌≡◌, ◌≤◌}
use sol_token_mill.Constant.{prices_length, scale}
use sol_token_mill.Errors.{ok}
use sol_token_mill.Market.{Market}
use sol_token_mill.Market.Exact.Dust.{dust_unpaid}
use sol_token_mill.Market.Supply.{ReserveValid}
use sol_token_mill.Ruint.{Ruint}
use sol_token_mill.SwapManager.{settle, swap, swap_amounts}
use sol_token_mill.SwapTypes.{exact_output, sell}

-- In a market whose reserve is in order and that has eleven bid prices, with a quote token of at most
-- 38 decimals: a sale by a quote amount that is worth less than one unit of the internal scale, which
-- has ten decimals, succeeds, takes no base tokens, pays the whole quote amount and leaves the market
-- as it was.
pub dust_sale :
    (R : Ruint) (m : Market) (n : ℕ)
    → ReserveValid m
    → length m.bid_prices ≡ prices_length
    → m.quote_token_decimals ≤ 38
    → n * scale < 10 ^ m.quote_token_decimals
    → swap R m sell exact_output n
      ≡ ok (record { base_amount = 0; quote_amount = n; swap_fee = 0 }, m)
unfolding swap swap_amounts settle
dust_sale R m n v eleven small lt =
    let same : U64.add m.base_reserve 0 ≡ ok m.base_reserve =
      ground (arith, v.reserve_le, v.supply.at_most) in
    rw (dust_unpaid R m n v eleven small lt, same) refl
