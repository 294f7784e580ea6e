-- ===== src/Program/Pool.antt =====
-- programs/token-mill/src/instructions: a market among the accounts, and what its trades in the log have
-- left to it.
pub mod Calls
use sol_token_mill.SwapManager
use sol_token_mill.Base.{Option, ap, none, refl, some, subst, sym, ℕ, ◌∙◌, ◌≡◌, ◌≤◌}
use sol_token_mill.Market.{Market, MarketFees, Pubkey}
use sol_token_mill.Market.Prices.{CurvesValid}
use sol_token_mill.Program.{Account, World, market_account, update}
use sol_token_mill.Program.Stakers.{SamePool, payouts, takings}
use sol_token_mill.Program.Stakers.Frame.{Untouched}
use sol_token_mill.Program.Stakers.Handled.{Handled}
use sol_token_mill.Program.Stakers.Moved.{market-injective}
use sol_token_mill.Program.Stakers.Restored.{at_market, at_position, at_staking, elsewhere, look_up}
use sol_token_mill.Program.Stakers.Writes.{stays}
use sol_token_mill.SwapManager.Pool.{Funded}

-- The market has its curves, a quote token of at most ten decimals, and is funded by the tallies of its
-- trades in the log.
pub record PoolFunded {L : Type 0} (key : Pubkey) (w : World L) : Type 0 where
  pub state : Market
  pub market_found : w.accounts key ≡ some (market_account state)
  pub small : state.quote_token_decimals ≤ 10
  pub funded : Funded state (takings key w.log) (payouts key w.log)

-- The creator and the fees of a market do not matter to what it can pay.
pub Funded-same :
    (m : Market) (creator : Pubkey) (fees : MarketFees) {kept spent : ℕ}
    → Funded m kept spent
    → Funded (record m { creator = creator; fees = fees }) kept spent
Funded-same m creator fees f = record {
  reserve = record {
    supply = f.reserve.supply;
    reserve_le = f.reserve.reserve_le;
    width = f.reserve.width;
  };
  curves = f.curves;
  covered = f.covered;
}

-- The market is found in the same state but for its creator and fees, and its trades are the same.
pub record PoolKept {L : Type 0} (key : Pubkey) (w w' : World L) : Type 0 where
  pub state_kept :
      (m : Market)
      → w.accounts key ≡ some (market_account m)
      → CurvesValid m.bid_prices m.ask_prices
      → (m' : Market) × (w'.accounts key ≡ some (market_account m')) × SamePool m m'
  pub takings_kept : takings key w'.log ≡ takings key w.log
  pub payouts_kept : payouts key w'.log ≡ payouts key w.log

pub PoolKept-PoolFunded :
    {L : Type 0} (key : Pubkey) {w w' : World L}
    → PoolFunded key w
    → PoolKept key w w'
    → PoolFunded key w'
PoolKept-PoolFunded key {w} {w'} v k =
    let (m', found, same) = k.state_kept v.state v.market_found v.funded.curves in
    record {
      state = m';
      market_found = found;
      small = rw (ap (λ (x : Market). x.quote_token_decimals) same) (v.small);
      funded =
          rw (k.takings_kept, k.payouts_kept)
            (subst (λ (x : Market). Funded x (takings key w.log) (payouts key w.log)) (sym same)
              (Funded-same v.state m'.creator m'.fees v.funded));
    }

pub Untouched-PoolKept :
    {L : Type 0} (key : Pubkey) {w w' : World L} → Untouched key w w' → PoolKept key w w'
Untouched-PoolKept key u = record {
  state_kept = λ m found curves.
      let (m', found', _, same) = u.state_kept m found in (m', found', same curves);
  takings_kept = u.takings_kept;
  payouts_kept = u.payouts_kept;
}

-- A stake that moves writes the fees of its market.
pub Handled-PoolKept :
    {L : Type 0} (key : Pubkey) {market staking position user : Pubkey} {w w' : World L}
    → (h : Handled market staking position user w w') → PoolKept key (h.mid) w'
Handled-PoolKept key {market} {staking} {position} {user} {w} {w'} h = record {
  state_kept = λ m found _.
      let after = ap (λ (f : Pubkey → Option Account). f key) h.written in
      elim (look_up h.mid.accounts market staking position h.state h.new key) [
        | at_position at e ↦ absurd (cc (sym found ∙ ap h.mid.accounts at ∙ h.found.position_found))
        | at_staking at e ↦ absurd (cc (sym found ∙ ap h.mid.accounts at ∙ h.found.staking_found))
        | at_market at e ↦
            let same : m ≡ h.state =
              market-injective (sym found ∙ ap h.mid.accounts at ∙ h.found.market_found) in
            (
              record (h.state) { fees = h.new.fees },
              after ∙ e,
              ap (λ (x : Market). record x { creator = h.state.creator; fees = h.new.fees })
                  (sym same),
            )
        | elsewhere e ↦ (m, after ∙ e ∙ found, refl)
      ];
  takings_kept = h.takings_kept key;
  payouts_kept = h.payouts_kept key;
}

-- An account that is new is not the market.
pub opened-PoolKept :
    {L : Type 0} (key opened : Pubkey) (b : Account) {w w' : World L}
    → w.accounts opened ≡ none
    → w'.accounts ≡ update w.accounts opened b
    → w'.log ≡ w.log
    → PoolKept key w w'
opened-PoolKept key opened b {w} {w'} free written log = record {
  state_kept = λ m found _. (
    m,
    stays w.accounts w'.accounts opened key (market_account m) b written
        (λ c e _. absurd (cc (sym free ∙ e))) found,
    refl,
  );
  takings_kept = ap (takings key) log;
  payouts_kept = ap (payouts key) log;
}
