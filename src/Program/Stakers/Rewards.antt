-- ===== src/Program/Stakers/Rewards.antt =====
-- programs/token-mill/src/instructions/staking/claim_staking_rewards.rs: a claim against the funds of the
-- stakers of its market.
use sol_token_mill.Base.{
  Bool, List, Option, [], ap, arith, refl, some, subst, sym, true, ℕ, ◌*◌, ◌+◌, ◌-◌, ◌<◌, ◌∙◌, ◌∷◌,
  ◌≡◌, ◌≤◌,
}
use sol_token_mill.Constant.{staking_scale}
use sol_token_mill.Errors.{ok}
use sol_token_mill.Market.{Market, Pubkey}
use sol_token_mill.Program.{Account, World, market_account, position_account, staking_account}
use sol_token_mill.Program.Events.{staking_rewards_claim}
use sol_token_mill.Program.Evolution.Stakes.{StakesFound, paid_out, restored}
use sol_token_mill.Program.External.{Runtime}
use sol_token_mill.Program.Payments.{carry_out}
use sol_token_mill.Program.Stake.{StakingRewardsClaim, claim_staking_rewards}
use sol_token_mill.Program.Stakers.Payout.{emptied, on_claim, rewards_to}
use sol_token_mill.Program.Stakers.Restored.{at_market_after, at_position_after, at_staking_after}
use sol_token_mill.Staking.{MarketStaking, StakePosition}
use sol_token_mill.StakingManager.{Stakes}
use sol_token_mill.StakingManager.Accrual.{owed_to}
use sol_token_mill.StakingManager.Entitled.{deposit-PositionAccrued}
use sol_token_mill.StakingManager.Moves.{StakesMoved, operate-StakesMoved}
use sol_token_mill.StakingManager.Operations.{deposits}
use sol_token_mill.StakingManager.Solvency.{SolventFor, operate-Solvent, paid_out-Solvent}

market-injective : {x y : Market} → some (market_account x) ≡ some (market_account y) → x ≡ y
market-injective h = cc

staking-injective :
    {x y : MarketStaking} → some (staking_account x) ≡ some (staking_account y) → x ≡ y
staking-injective h = cc

position-injective :
    {x y : StakePosition} → some (position_account x) ≡ some (position_account y) → x ≡ y
position-injective h = cc

-- The checks find one market and one stake.
found_same :
    {L : Type 0} (market staking position user : Pubkey) (w : World L) (m m' : Market)
    (s s' : Stakes)
    → StakesFound market staking position user w m s
    → StakesFound market staking position user w m' s'
    → ◌≡◌ {A = Market × Stakes} (m, s) (m', s')
found_same market staking position user w m m' s s' f f' =
    let em : m ≡ m' = market-injective (sym f.market_found ∙ f'.market_found) in
    let ef = f.fees_read ∙ ap (λ (x : Market). x.fees) em ∙ sym f'.fees_read in
    let es = staking-injective (sym f.staking_found ∙ f'.staking_found) in
    let ep = position-injective (sym f.position_found ∙ f'.position_found) in
    λ i. (em i, record { fees = ef i; staking = es i; position = ep i })

-- A stake that was found is found again after an operation, as it was written.
restored-StakesFound :
    {L : Type 0} (market staking position user : Pubkey) (w w' : World L) (m : Market)
    (s s' : Stakes)
    → StakesFound market staking position user w m s
    → StakesMoved s s'
    → w'.accounts ≡ restored w.accounts market staking position m s'
    → StakesFound market staking position user w' (record m { fees = s'.fees }) s'
restored-StakesFound market staking position user w w' m s s' f moved e = record {
  market_found =
      ap (λ (x : Pubkey → Option Account). x market) e
      ∙ at_market_after market staking position user w m s s' f;
  staking_found =
      ap (λ (x : Pubkey → Option Account). x staking) e
      ∙ at_staking_after market staking position user w m s s' f;
  position_found =
      ap (λ (x : Pubkey → Option Account). x position) e
      ∙ at_position_after market staking position user w m s s' f;
  fees_read = refl;
  of_market = moved.staking_market ∙ f.of_market;
  in_market = moved.position_market ∙ f.in_market;
  of_user = moved.user ∙ f.of_user;
}

module _ {L : Type 0} (E : Runtime L) where
  -- What a claim has paid and stored, from the stake that was found and the funds of the market's
  -- stakers.
  pub record RewardsPaid (a : StakingRewardsClaim) (signed : Pubkey → Bool) (funds n : ℕ)
      (others : List StakePosition) (w w' : World L) (m : Market) (s : Stakes) : Type 0 where
    pub decimals : ℕ
    pub new : Stakes
    pub by : signed a.user ≡ true
    pub is_quote : m.quote_token_mint ≡ a.quote_token_mint
    pub scale : E.mint_decimals w.ledger a.quote_token_mint ≡ some decimals
    pub from_market :
        E.is_associated w.ledger a.market_quote_token_ata a.quote_token_mint a.market
          a.quote_token_program
        ≡ true
    pub to_user :
        E.is_associated w.ledger a.user_quote_token_ata a.quote_token_mint a.user
          a.quote_token_program
        ≡ true
    pub entitled : n * staking_scale ≤ owed_to new.staking.acc_reward_amount_per_share s.position
    pub rounded :
        owed_to new.staking.acc_reward_amount_per_share s.position
        < n * staking_scale + staking_scale
    pub transferred : carry_out E (rewards_to a m decimals n ∷ []) w.ledger ≡ some w'.ledger
    pub logged : w'.log ≡ staking_rewards_claim a.market a.user n ∷ w.log
    pub after : w'.accounts ≡ restored w.accounts a.market a.staking a.stake_position m new
    pub stored :
        StakesFound a.market a.staking a.stake_position a.user w' (record m { fees = new.fees }) new
    pub nothing_left : owed_to new.staking.acc_reward_amount_per_share new.position ≡ 0
    pub staked_kept : new.position.amount_staked ≡ s.position.amount_staked
    pub vested_kept : new.position.total_amount_vested ≡ s.position.total_amount_vested
    pub within : n ≤ funds
    pub solvent : SolventFor (funds - n) new others

  -- Where the stake that the instruction finds is that of a market whose stakers are solvent and
  -- `claim_staking_rewards` succeeds: the user has signed; what is paid, and returned, is what his
  -- position was owed after the accrual, rounded down to whole units, and at most the funds; it goes in
  -- one transfer from the market's account to the user's, and is logged. The three accounts of the stake
  -- are stored and no other account changes; the stored position is owed nothing, with its stakes as
  -- before, and the stakers stay solvent with what is left of the funds.
  pub claim_staking_rewards-RewardsPaid :
      (a : StakingRewardsClaim) (signed : Pubkey → Bool) (funds n : ℕ) (others : List StakePosition)
      (w w' : World L) (m : Market) (s : Stakes)
      → StakesFound a.market a.staking a.stake_position a.user w m s
      → SolventFor funds s others
      → claim_staking_rewards E a signed w ≡ ok (n, w')
      → RewardsPaid a signed funds n others w w' m s
  claim_staking_rewards-RewardsPaid a signed funds n others w w' m s f v h =
      on_claim E a signed w w' n h
        λ m' s' decimals r f' is_quote scale from_market to_user by er out after transferred logged.
          let same = found_same a.market a.staking a.stake_position a.user w m m' s s' f f' in
          let v' = subst (λ (x : Market × Stakes). SolventFor funds x.1 others) same v in
          let (le, left) =
            paid_out-Solvent funds r.1 others
              (operate-Solvent funds r.0 (deposits 0) s' r.1 others v' er) in
          let c = deposit-PositionAccrued s' r.1 r.0 er in
          let moved = paid_out 0 (operate-StakesMoved (deposits 0) s' r.1 r.0 er) in
          let found' =
            restored-StakesFound a.market a.staking a.stake_position a.user w w' m' s' (emptied r.1)
              f' moved after in
          let gap : r.1.staking.acc_reward_amount_per_share
                - r.1.position.acc_reward_amount_per_share
              ≡ 0 =
            omega (arith, c.caught_up) in
          subst (λ (x : Market × Stakes). RewardsPaid a signed funds n others w w' x.0 x.1)
            (sym same)
            (record {
              decimals = decimals;
              new = emptied r.1;
              by = by;
              is_quote = is_quote;
              scale = scale;
              from_market = from_market;
              to_user = to_user;
              entitled = omega (arith, c.credited, out);
              rounded = omega (arith, c.whole, out);
              transferred = transferred;
              logged = logged;
              after = after;
              stored = found';
              nothing_left = rw gap (omega arith);
              staked_kept = c.staked_kept;
              vested_kept = c.vested_kept;
              within = omega (arith, le, out);
              solvent =
                  subst (λ (x : ℕ). SolventFor (funds - x) (emptied r.1) others) (sym out) left;
            })
