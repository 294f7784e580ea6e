-- ===== src/Program/Stakers/Frame.antt =====
-- programs/token-mill/src/instructions: what a step that leaves the stakes of a market alone keeps.
use sol_token_mill.Base.{List, Option, [], ap, arith, refl, some, sym, true, ℕ, ◌∙◌, ◌∷◌, ◌≡◌}
use sol_token_mill.Market.{Market, MarketFees, Pubkey}
use sol_token_mill.Market.Prices.{CurvesValid}
use sol_token_mill.Program.{Account, World, market_account, position_account, staking_account}
use sol_token_mill.Program.Stakers.{
  Entries, Held, SamePool, StakersSolvent, booked, listed, paid, payouts, takings,
}
use sol_token_mill.Staking.{MarketStaking, StakePosition}
use sol_token_mill.StakingManager.Solvency.{Solvent}

-- The market keeps what is pending for its stakers and, once it has its curves, its reserve and curves;
-- its stakes and positions are the same, and so are its tallies.
pub record Untouched {L : Type 0} (market : Pubkey) (w w' : World L) : Type 0 where
  pub state_kept :
      (m : Market)
      → w.accounts market ≡ some (market_account m)
      → (m' : Market) × (w'.accounts market ≡ some (market_account m'))
        × (m'.fees.pending_staking_fees ≡ m.fees.pending_staking_fees)
        × (CurvesValid m.bid_prices m.ask_prices → SamePool m m')
  pub staking_kept :
      (key : Pubkey) (s : MarketStaking)
      → s.market ≡ market
      → w.accounts key ≡ some (staking_account s)
      → w'.accounts key ≡ some (staking_account s)
  pub staking_before :
      (key : Pubkey) (s : MarketStaking)
      → s.market ≡ market
      → w'.accounts key ≡ some (staking_account s)
      → w.accounts key ≡ some (staking_account s)
  pub position_kept :
      (key : Pubkey) (p : StakePosition)
      → p.market ≡ market
      → w.accounts key ≡ some (position_account p)
      → w'.accounts key ≡ some (position_account p)
  pub position_before :
      (key : Pubkey) (p : StakePosition)
      → p.market ≡ market
      → w'.accounts key ≡ some (position_account p)
      → w.accounts key ≡ some (position_account p)
  pub booked_kept : booked market w'.log ≡ booked market w.log
  pub paid_kept : paid market w'.log ≡ paid market w.log
  pub takings_kept : takings market w'.log ≡ takings market w.log
  pub payouts_kept : payouts market w'.log ≡ payouts market w.log

-- Entries stay held where every one of them stays.
pub Held-kept :
    (before after : Pubkey → Option Account) (market : Pubkey) (es : Entries)
    → ((key : Pubkey) (p : StakePosition)
        → p.market ≡ market
        → listed key es ≡ true
        → before key ≡ some (position_account p)
        → after key ≡ some (position_account p))
    → Held before market es
    → Held after market es
Held-kept before after market [] keep held = tt
Held-kept before after market ((k, p) ∷ es) keep held = (
  keep k p held.1 (ground arith) held.0,
  held.1,
  held.2,
  Held-kept before after market es
      (λ key q in_market l e. keep key q in_market (ground (arith, l)) e) held.3,
)

-- Only the pending fees of the market matter to its stakers.
pub Solvent-pending :
    {funds funds' : ℕ} {fees fees' : MarketFees} {s : MarketStaking} {ps : List StakePosition}
    → funds' ≡ funds
    → fees'.pending_staking_fees ≡ fees.pending_staking_fees
    → Solvent funds fees s ps
    → Solvent funds' fees' s ps
Solvent-pending ef ep v = record {
  staked = v.staked;
  vested = v.vested;
  behind = v.behind;
  funded = omega (arith, v.funded, ef, ep);
}

pub Untouched-StakersSolvent :
    {L : Type 0} (market staking : Pubkey) (es : Entries) {w w' : World L}
    → StakersSolvent market staking es w
    → Untouched market w w'
    → StakersSolvent market staking es w'
Untouched-StakersSolvent market staking es {w} {w'} v u =
    let (m', found, pending, _) = u.state_kept v.state v.market_found in
    record {
      state = m';
      stakes = v.stakes;
      market_found = found;
      staking_found = u.staking_kept staking v.stakes v.of_market v.staking_found;
      of_market = v.of_market;
      only_staking =
          λ key s e in_market. v.only_staking key s (u.staking_before key s in_market e) in_market;
      held =
          Held-kept w.accounts w'.accounts market es
            (λ key p in_market l e. u.position_kept key p in_market e) v.held;
      complete =
          λ key p e in_market. v.complete key p (u.position_before key p in_market e) in_market;
      claimed = omega (arith, v.claimed, u.booked_kept, u.paid_kept);
      solvent = Solvent-pending (omega (arith, u.booked_kept, u.paid_kept)) pending v.solvent;
    }

-- A world with the same accounts and the same tallies.
pub accounts-Untouched :
    {L : Type 0} (market : Pubkey) (w w' : World L)
    → w'.accounts ≡ w.accounts
    → booked market w'.log ≡ booked market w.log
    → paid market w'.log ≡ paid market w.log
    → takings market w'.log ≡ takings market w.log
    → payouts market w'.log ≡ payouts market w.log
    → Untouched market w w'
accounts-Untouched market w w' e eb ep et eo = record {
  state_kept =
      λ m found. (m, ap (λ (f : Pubkey → Option Account). f market) e ∙ found, refl, λ _. refl);
  staking_kept = λ key s _ h. ap (λ (f : Pubkey → Option Account). f key) e ∙ h;
  staking_before = λ key s _ h. sym (ap (λ (f : Pubkey → Option Account). f key) e) ∙ h;
  position_kept = λ key p _ h. ap (λ (f : Pubkey → Option Account). f key) e ∙ h;
  position_before = λ key p _ h. sym (ap (λ (f : Pubkey → Option Account). f key) e) ∙ h;
  booked_kept = eb;
  paid_kept = ep;
  takings_kept = et;
  payouts_kept = eo;
}
