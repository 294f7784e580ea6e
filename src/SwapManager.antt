-- ===== src/SwapManager.antt =====
-- programs/token-mill/src/manager/swap_manager.rs: a swap against the curve of a market.
pub mod Reserve
pub mod RoundTrip
pub mod Parts
pub mod Dust
pub mod Pool
pub mod Complete
pub mod Unpriced
use sol_token_mill.Word
use sol_token_mill.Word.U64
use sol_token_mill.Market.Quote
use sol_token_mill.Market.Exact
use sol_token_mill.Base.{if◌then◌else◌, ltb, ℕ, ◌-◌}
use sol_token_mill.Errors.{Result, ok, ◌>>=◌}
use sol_token_mill.Market.{Market, circulating_supply}
use sol_token_mill.Math.{up}
use sol_token_mill.Ruint.{Ruint}
use sol_token_mill.SwapTypes.{SwapAmountType, SwapType, buy, exact_input, exact_output, sell}

unfoldable pub swap_amounts : Ruint → Market → SwapType → SwapAmountType → ℕ → Result (ℕ × ℕ)
swap_amounts R m buy exact_input amount = Exact.get_base_amount_out R m amount
swap_amounts R m buy exact_output amount = Quote.get_quote_amount R m amount exact_output
swap_amounts R m sell exact_input amount = Quote.get_quote_amount R m amount exact_input
swap_amounts R m sell exact_output amount = Exact.get_base_amount_in R m amount

-- What `swap` returns, in the order of its tuple.
pub record Swapped : Type 0 where
  pub base_amount : ℕ
  pub quote_amount : ℕ
  pub swap_fee : ℕ

-- The `match swap_type` of `swap`, with the swap fee and the market after it.
unfoldable pub settle : Ruint → Market → SwapType → ℕ → ℕ → Result (ℕ × Market)
settle R m buy base_amount quote_amount = do
  supply ← circulating_supply m
  (_, buyback_amount) ← Quote.get_quote_amount_with_parameters R m supply base_amount exact_input up
  let swap_fee = if ltb buyback_amount quote_amount then quote_amount - buyback_amount else 0
  base_reserve ← Word.sub m.base_reserve base_amount
  ok (swap_fee, record m { base_reserve = base_reserve })
settle R m sell base_amount quote_amount = do
  base_reserve ← U64.add m.base_reserve base_amount
  ok (0, record m { base_reserve = base_reserve })

unfoldable pub swap : Ruint → Market → SwapType → SwapAmountType → ℕ → Result (Swapped × Market)
swap R m swap_type swap_amount_type amount = do
  (base_amount, quote_amount) ← swap_amounts R m swap_type swap_amount_type amount
  (swap_fee, m') ← settle R m swap_type base_amount quote_amount
  ok (record { base_amount = base_amount; quote_amount = quote_amount; swap_fee = swap_fee }, m')
