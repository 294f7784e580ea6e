-- ===== src/Program/Pool/Calls.antt =====
-- programs/token-mill/src/lib.rs: what the trades of a market have left to it covers what it must pay,
-- over any sequence of calls.
use sol_token_mill.SwapManager
use sol_token_mill.Base.{
  Bool, Bool-cases, Option, ap, arith, false, inl, inr, refl, subst, sym, true, ℕ, ◌+◌, ◌==◌, ◌∙◌,
  ◌≡◌, ◌≤◌,
}
use sol_token_mill.Errors.{ok}
use sol_token_mill.Market.{Market, Pubkey}
use sol_token_mill.Market.Fees.{distribute_fee-Distributed}
use sol_token_mill.Program.{Account, World, market_account}
use sol_token_mill.Program.Evolution.Changes.{update_at, update_away}
use sol_token_mill.Program.External.{Runtime, position_seeds, staking_seeds}
use sol_token_mill.Program.Pool.{
  Funded-same, Handled-PoolKept, PoolFunded, PoolKept-PoolFunded, Untouched-PoolKept,
  opened-PoolKept,
}
use sol_token_mill.Program.Runs.{on_check, on_load_market, same_key}
use sol_token_mill.Program.Stake.{create_stake_position, create_staking}
use sol_token_mill.Program.Stakers.{paid_for, payouts, taken_in, takings}
use sol_token_mill.Program.Stakers.Effect.{
  CallEffect, dispatch-CallEffect, leaves, moves_stake, opens_position, opens_staking, swaps,
}
use sol_token_mill.Program.Stakers.Moved.{market-injective}
use sol_token_mill.Program.Stakers.Openings.{created_world}
use sol_token_mill.Program.Stakers.Solvency.{
  LoggedHistory, SameState-Untouched, began, called_by, elsewhere_changed,
}
use sol_token_mill.Program.Trade.{SwapAccounts}
use sol_token_mill.Program.Trade.Effects.{SwapEffect}
use sol_token_mill.Ruint.{Laws, Ruint}
use sol_token_mill.SwapManager.{Swapped}
use sol_token_mill.SwapManager.Pool.{Funded, Funded-le, buy-Funded, sell-Funded}
use sol_token_mill.SwapTypes.{SwapAmountType, SwapType, buy, sell}

Funded-sums :
    (m : Market) {kept kept' spent spent' : ℕ}
    → kept' ≡ kept
    → spent' ≡ spent
    → Funded m kept spent
    → Funded m kept' spent'
Funded-sums m ek es f = rw (ek, es) f

-- One trade of the market.
traded-Funded :
    {R : Ruint} (laws : Laws R) (m m' : Market) (swap_type : SwapType) (kind : SwapAmountType)
    (n kept spent : ℕ) (s : Swapped)
    → m.quote_token_decimals ≤ 10
    → Funded m kept spent
    → SwapManager.swap R m swap_type kind n ≡ ok (s, m')
    → (m'.quote_token_decimals ≤ 10)
      × Funded m'
          (taken_in swap_type s.quote_amount s.swap_fee + kept)
          (paid_for swap_type s.quote_amount + spent)
traded-Funded laws m m' buy kind n kept spent s small f h =
    let (same, f') = buy-Funded laws m m' kind n m.quote_token_decimals kept spent s (refl, f) h in
    (rw same small, Funded-sums m' (omega arith) (omega arith) f')
traded-Funded laws m m' sell kind n kept spent s small f h =
    let (same, f') =
      sell-Funded laws m m' kind n m.quote_token_decimals kept spent s (refl, f) (λ _. small) h in
    (rw same small, Funded-sums m' (omega arith) (omega arith) f')

module _ {L : Type 0} {R : Ruint} (laws : Laws R) (E : Runtime L) (key : Pubkey) where
  swapped_PoolFunded :
      {a : SwapAccounts} {signed : Pubkey → Bool} {swap_type : SwapType} {kind : SwapAmountType}
      {amount threshold : ℕ} {out : ℕ × ℕ} {w w' : World L}
      → PoolFunded key w
      → SwapEffect R E a signed swap_type kind amount threshold out w w'
      → PoolFunded key w'
  swapped_PoolFunded {a} {swap_type = swap_type} {kind} {amount} {w = w} {w' = w'} v e =
      let new : Market = record (e.traded) { fees = e.fees } in
      elim (Bool-cases (key == a.market)) [
        | inl here ↦
            let at : key ≡ a.market = same_key here in
            let own : a.market == key ≡ true = ground (arith, at) in
            let state : v.state ≡ e.old =
              market-injective (sym v.market_found ∙ ap w.accounts at ∙ e.checked.market_found) in
            let parts =
              distribute_fee-Distributed e.traded.fees e.trade.swap_fee _ (e.split, e.fees)
                e.split_eq in
            let now =
              subst
                (λ (x : Market).
                  (x.quote_token_decimals ≤ 10) × Funded x (takings key w.log) (payouts key w.log))
                state (v.small, v.funded) in
            let (small, funded) =
              traded-Funded laws e.old e.traded swap_type kind amount (takings key w.log)
                (payouts key w.log) e.trade now.0 now.1 e.trade_eq in
            record {
              state = new;
              market_found =
                  ap (λ (f : Pubkey → Option Account). f key) e.after
                  ∙ update_at w.accounts a.market key (market_account new) here;
              small = small;
              funded =
                  Funded-sums new (rw (e.logged, own, parts.conserved) refl)
                    (rw (e.logged, own) refl) (Funded-same e.traded e.traded.creator e.fees funded);
            }
        | inr away ↦
            let other : a.market == key ≡ false = ground (arith, away) in
            PoolKept-PoolFunded key v (record {
              state_kept = λ m found _. (
                m,
                ap (λ (f : Pubkey → Option Account). f key) e.after
                    ∙ update_away w.accounts a.market key (market_account new) away
                    ∙ found,
                refl,
              );
              takings_kept = rw (e.logged, other) (omega arith);
              payouts_kept = rw (e.logged, other) (omega arith);
            })
      ]

  CallEffect-PoolFunded :
      (w w' : World L) → PoolFunded key w → CallEffect R E key w w' → PoolFunded key w'
  unfolding create_staking create_stake_position
  CallEffect-PoolFunded w w' v (leaves u) = PoolKept-PoolFunded key v (Untouched-PoolKept key u)
  CallEffect-PoolFunded w w' v (swaps same e) =
      PoolKept-PoolFunded key (swapped_PoolFunded v e)
        (Untouched-PoolKept key (SameState-Untouched R E key same))
  CallEffect-PoolFunded w w' v (moves_stake same h) =
      PoolKept-PoolFunded key
        (PoolKept-PoolFunded key (PoolKept-PoolFunded key v (Untouched-PoolKept key (h.aside key)))
          (Handled-PoolKept key h))
        (Untouched-PoolKept key (SameState-Untouched R E key same))
  CallEffect-PoolFunded w w' v (opens_staking signed market staking payer h) =
      on_load_market market _ {w = w} h λ m _ h1. on_check (signed payer) _ _ {w = w} h1 λ _ h2.
        on_check (staking == (E.find_address (staking_seeds market)).0) _ _ {w = w} h2 λ _ h3.
          let (free, written, log) = created_world staking _ w w' h3 in
          PoolKept-PoolFunded key v (opened-PoolKept key staking _ free written log)
  CallEffect-PoolFunded w w' v (opens_position signed market position user h) =
      on_load_market market _ {w = w} h λ m _ h1. on_check (signed user) _ _ {w = w} h1 λ _ h2.
        on_check (position == (E.find_address (position_seeds market user)).0) _ _ {w = w} h2
          λ _ h3.
            let (free, written, log) = created_world position _ w w' h3 in
            PoolKept-PoolFunded key v (opened-PoolKept key position _ free written log)

  LoggedHistory-PoolFunded_all :
      {first w : World L} → PoolFunded key first → LoggedHistory R E first w → PoolFunded key w
  LoggedHistory-PoolFunded_all v began = v
  LoggedHistory-PoolFunded_all v (called_by {w} {w'} signed c past h) =
      CallEffect-PoolFunded w w' (LoggedHistory-PoolFunded_all v past)
        (dispatch-CallEffect R E key signed c w w' h)
  LoggedHistory-PoolFunded_all v (elsewhere_changed {w} {w'} past ea el) =
      PoolKept-PoolFunded key (LoggedHistory-PoolFunded_all v past)
        (Untouched-PoolKept key (SameState-Untouched R E key (ea, el)))

  -- Where the 256-bit integers obey their laws: from a world in which a market has its curves and a
  -- quote token of at most ten decimals, and is funded by the trades in the log, over every sequence of
  -- successful calls of any entry points by any signers, with whatever happens to the ledger and the
  -- clock between them, the market stays funded: what its sales have been paid is at most what its
  -- purchases have left to it, less all parts of their fees, and the rest covers the exact worth of the
  -- tokens in circulation at the bid prices.
  pub LoggedHistory-PoolFunded :
      {first w : World L}
      → PoolFunded key first
      → LoggedHistory R E first w
      → (payouts key w.log ≤ takings key w.log) × PoolFunded key w
  LoggedHistory-PoolFunded v past =
      let v' = LoggedHistory-PoolFunded_all v past in (Funded-le v'.state v'.funded, v')
