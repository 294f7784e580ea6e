-- ===== src/Program/Trade/Safety.antt =====
-- programs/token-mill/src/instructions/swap.rs: a swap instruction keeps the stored market in order.
use sol_token_mill.SwapManager
use sol_token_mill.Base.{Bool, Option, ap, some, subst, sym, ℕ, ◌∙◌, ◌≡◌}
use sol_token_mill.Errors.{ok}
use sol_token_mill.Market.{Market, MarketFees, Pubkey}
use sol_token_mill.Program.{Account, World, market_account}
use sol_token_mill.Program.External.{Runtime}
use sol_token_mill.Program.Runs.{update_same}
use sol_token_mill.Program.Trade.{SwapAccounts, swap}
use sol_token_mill.Program.Trade.Effects.{swap-SwapEffect}
use sol_token_mill.Ruint.{Laws, Ruint}
use sol_token_mill.SwapManager.Reserve.{Moved, Tradable, swap-SwapDone}
use sol_token_mill.SwapTypes.{SwapAmountType, SwapType, buy, sell}

market_account-injective :
    {m n : Market} → some (market_account m) ≡ some (market_account n) → m ≡ n
market_account-injective h = cc

-- The fees of a market do not matter to what it can trade.
pub Tradable-fees :
    (m : Market) (fees : MarketFees) → Tradable m → Tradable (record m { fees = fees })
Tradable-fees m fees t = record {
  reserve = record {
    supply = t.reserve.supply;
    reserve_le = t.reserve.reserve_le;
    width = t.reserve.width;
  };
  bids_length = t.bids_length;
  asks_length = t.asks_length;
  bids_bounded = t.bids_bounded;
  asks_bounded = t.asks_bounded;
}

Moved-fees :
    (swap_type : SwapType) (base : ℕ) (m m' : Market) (fees : MarketFees)
    → Moved swap_type base m m'
    → Moved swap_type base m (record m' { fees = fees })
Moved-fees buy base m m' fees h = h
Moved-fees sell base m m' fees h = h

-- Where the 256-bit integers obey their laws and the stored market is tradable: after a swap
-- instruction that succeeds, the account still holds a tradable market, its reserve has moved by
-- exactly the base amount that the instruction returns, and the curves and the supply are as before.
pub swap-Tradable :
    {L : Type 0} {R : Ruint} (laws : Laws R) (E : Runtime L) (a : SwapAccounts)
    (signed : Pubkey → Bool) (swap_type : SwapType) (kind : SwapAmountType) (amount threshold : ℕ)
    (out : ℕ × ℕ) (w w' : World L) (m : Market)
    → w.accounts a.market ≡ some (market_account m)
    → Tradable m
    → swap R E a signed swap_type kind amount threshold w ≡ ok (out, w')
    → (m' : Market) × (w'.accounts a.market ≡ some (market_account m'))
      × Tradable m'
      × Moved swap_type out.0 m m'
      × (m' ≡ record m { base_reserve = m'.base_reserve; fees = m'.fees })
swap-Tradable {R = R} laws E a signed swap_type kind amount threshold out w w' m found t h =
    let e = swap-SwapEffect R E a signed swap_type kind amount threshold out w w' h in
    let same : m ≡ e.old = market_account-injective (sym found ∙ e.checked.market_found) in
    let d = swap-SwapDone laws m e.traded swap_type kind amount e.trade t (
      subst (λ (x : Market). SwapManager.swap R x swap_type kind amount ≡ ok (e.trade, e.traded))
        (sym same) e.trade_eq) in
    (
      record (e.traded) { fees = e.fees },
      ap (λ (f : Pubkey → Option Account). f a.market) e.after ∙ update_same w.accounts a.market _,
      Tradable-fees e.traded e.fees d.tradable,
      Moved-fees swap_type out.0 m e.traded e.fees (
          subst (λ (b : ℕ). Moved swap_type b m e.traded) (sym (ap (λ (p : ℕ × ℕ). p.0) e.returned))
            d.moved),
      ap (λ (x : Market). record x { fees = e.fees }) d.only_reserve,
    )
