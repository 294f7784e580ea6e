-- ===== src/Program/Stakers/Swaps.antt =====
-- programs/token-mill/src/instructions/swap.rs: a swap books fees for the stakers of its market.
use sol_token_mill.SwapManager
use sol_token_mill.Base.{
  Bool, Bool-cases, Option, ap, arith, false, inl, inr, refl, some, subst, sym, true, ℕ, ◌+◌, ◌-◌,
  ◌==◌, ◌∙◌, ◌≡◌,
}
use sol_token_mill.Errors.{ok}
use sol_token_mill.Market.{Market, MarketFees, Pubkey}
use sol_token_mill.Program.{Account, World, market_account, position_account, staking_account}
use sol_token_mill.Program.Evolution.Changes.{some-injective, update_at}
use sol_token_mill.Program.External.{Runtime}
use sol_token_mill.Program.Runs.{same_key}
use sol_token_mill.Program.Stakers.{Entries, StakersSolvent, booked, paid, positions}
use sol_token_mill.Program.Stakers.Frame.{Held-kept, Untouched-StakersSolvent}
use sol_token_mill.Program.Stakers.Moved.{market-injective}
use sol_token_mill.Program.Stakers.Writes.{IsMarket, market-Untouched, stays, was}
use sol_token_mill.Program.Trade.{SwapAccounts}
use sol_token_mill.Program.Trade.Effects.{SwapEffect}
use sol_token_mill.Ruint.{Ruint}
use sol_token_mill.StakingManager.Solvency.{Solvent, book-Solvent}
use sol_token_mill.SwapManager.{Swapped}
use sol_token_mill.SwapManager.Parts.{settle_sale, swap_parts}
use sol_token_mill.SwapManager.RoundTrip.{settle-Purchase}
use sol_token_mill.SwapTypes.{SwapAmountType, SwapType, buy, sell}

-- The swap manager does not touch the fees of the market.
pub swap_fees_kept :
    (R : Ruint) (m : Market) (swap_type : SwapType) (kind : SwapAmountType) (n : ℕ) (s : Swapped)
    (m' : Market)
    → SwapManager.swap R m swap_type kind n ≡ ok (s, m')
    → m'.fees ≡ m.fees
swap_fees_kept R m buy kind n s m' h =
    let parts = swap_parts R m buy kind n s m' h in
    ap (λ (x : Market). x.fees)
      (settle-Purchase R m s.base_amount s.quote_amount _ parts.settled).after
swap_fees_kept R m sell kind n s m' h =
    let parts = swap_parts R m sell kind n s m' h in
    ap (λ (x : Market). x.fees) (settle_sale R m s.base_amount s.quote_amount _ parts.settled)

pub swap-StakersSolvent :
    {L : Type 0} {R : Ruint} {E : Runtime L} {a : SwapAccounts} {signed : Pubkey → Bool}
    {swap_type : SwapType} {kind : SwapAmountType} {amount threshold : ℕ} {out : ℕ × ℕ}
    {w w' : World L} (key account : Pubkey) (es : Entries)
    → StakersSolvent key account es w
    → SwapEffect R E a signed swap_type kind amount threshold out w w'
    → StakersSolvent key account es w'
swap-StakersSolvent {R = R} {a = a} {swap_type = swap_type} {kind} {amount} {w = w} {w' = w'} key
      account es v e =
    let new : Market = record (e.traded) { fees = e.fees } in
    elim (Bool-cases (key == a.market)) [
      | inl here ↦
          let at : key ≡ a.market = same_key here in
          let state : v.state ≡ e.old =
            market-injective (sym v.market_found ∙ ap w.accounts at ∙ e.checked.market_found) in
          let fees : v.state.fees ≡ e.traded.fees =
            ap (λ (x : Market). x.fees) state
            ∙ sym (swap_fees_kept R e.old swap_type kind amount e.trade e.traded e.trade_eq) in
          let funds = booked key w.log - paid key w.log in
          let booked_now : booked key w'.log ≡ e.split.staking_fee + booked key w.log =
            let own : a.market == key ≡ true = ground (arith, at) in rw (e.logged, own) refl in
          let paid_now : paid key w'.log ≡ paid key w.log = rw (e.logged) (omega arith) in
          let solvent =
            book-Solvent funds e.traded.fees e.fees e.trade.swap_fee _ e.split v.stakes
              (positions es)
              (subst (λ (x : MarketFees). Solvent funds x v.stakes (positions es)) fees v.solvent)
              e.split_eq in
          record {
            state = new;
            stakes = v.stakes;
            market_found =
                ap (λ (f : Pubkey → Option Account). f key) e.after
                ∙ update_at w.accounts a.market key (market_account new) here;
            staking_found =
                stays w.accounts w'.accounts a.market account (staking_account v.stakes)
                  (market_account new) e.after
                  (λ c ec same.
                    absurd
                      (cc (sym e.checked.market_found ∙ ec ∙ ap (λ (x : Account). some x) same)))
                  v.staking_found;
            of_market = v.of_market;
            only_staking = λ k s found in_market.
                v.only_staking k s
                  (was w.accounts w'.accounts a.market k (staking_account s) (market_account new)
                    e.after (λ same. absurd (cc same)) found)
                  in_market;
            held =
                Held-kept w.accounts w'.accounts key es
                  (λ k p _ _ found.
                    stays w.accounts w'.accounts a.market k (position_account p)
                      (market_account new) e.after
                      (λ c ec same.
                        absurd (
                          cc (sym e.checked.market_found ∙ ec ∙ ap (λ (x : Account). some x) same)))
                      found)
                  v.held;
            complete = λ k p found in_market.
                v.complete k p
                  (was w.accounts w'.accounts a.market k (position_account p) (market_account new)
                    e.after (λ same. absurd (cc same)) found)
                  in_market;
            claimed = omega (arith, v.claimed, booked_now, paid_now);
            solvent =
                subst (λ (x : ℕ). Solvent x e.fees v.stakes (positions es))
                  (omega (arith, v.claimed, booked_now, paid_now)) solvent;
          }
      | inr away ↦
          let other : a.market == key ≡ false = ground (arith, away) in
          Untouched-StakersSolvent key account es v (
            market-Untouched w w' a.market (market_account new) e.after new refl
              (λ c ec. subst IsMarket (some-injective (sym e.checked.market_found ∙ ec)) tt) key
              (rw (e.logged, other) (omega arith)) (rw (e.logged) (omega arith))
              (rw (e.logged, other) (omega arith)) (rw (e.logged, other) (omega arith))
              (λ same. absurd (cc (sym away ∙ same))))
    ]
