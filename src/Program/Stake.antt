-- ===== src/Program/Stake.antt =====
-- programs/token-mill/src/instructions/staking/.
use sol_token_mill.StakingManager
use sol_token_mill.Base.{Bool, leb, ℕ, ◌==◌}
use sol_token_mill.Errors.{
  constraint, error, insufficient_stake_amount, invalid_authority, invalid_market,
  invalid_mint_account,
}
use sol_token_mill.Market.{Market, Pubkey}
use sol_token_mill.Program.{
  Instruction, check, create, emit, lift, load_market, load_position, load_staking, market_account,
  position_account, return, staking_account, store, ◌>>=◌, ◌>>◌,
}
use sol_token_mill.Program.Checks.{
  check_associated, check_mint, transfer_from_eoa, transfer_from_pda,
}
use sol_token_mill.Program.Events.{staking_deposit, staking_rewards_claim, staking_withdrawal}
use sol_token_mill.Program.External.{Runtime, market_seeds, position_seeds, staking_seeds}
use sol_token_mill.Staking.{
  initialize_position, initialize_staking, zeroed_position, zeroed_staking,
}
use sol_token_mill.StakingManager.{Stakes}

-- The accounts of `StakeUpdate`.
pub record StakeUpdate : Type 0 where
  pub market : Pubkey
  pub staking : Pubkey
  pub stake_position : Pubkey
  pub base_token_mint : Pubkey
  pub market_base_token_ata : Pubkey
  pub user_base_token_ata : Pubkey
  pub user : Pubkey
  pub base_token_program : Pubkey

-- The accounts of `StakingRewardsClaim`.
pub record StakingRewardsClaim : Type 0 where
  pub market : Pubkey
  pub staking : Pubkey
  pub stake_position : Pubkey
  pub quote_token_mint : Pubkey
  pub market_quote_token_ata : Pubkey
  pub user_quote_token_ata : Pubkey
  pub user : Pubkey
  pub quote_token_program : Pubkey

module _ {L : Type 0} where
  -- The three accounts of a user's stake and the market, whose attributes are the same in every
  -- instruction: the two stakes are those of the market, and the position is the user's.
  unfoldable pub load_stakes :
      (market staking stake_position user : Pubkey) → Instruction L (Market × Stakes)
  load_stakes market staking stake_position user = do
    m ← load_market market
    s ← load_staking staking
    check (s.market == market) (error invalid_market)
    p ← load_position stake_position
    check (p.market == market) (error invalid_market)
    check (p.user == user) (error invalid_authority)
    return (m, record { fees = m.fees; staking = s; position = p })

  -- The three accounts are written back.
  unfoldable pub store_stakes :
      (market staking stake_position : Pubkey) → Market → Stakes → Instruction L (Unit {0})
  store_stakes market staking stake_position m w = do
    store market (market_account (record m { fees = w.fees }))
    store staking (staking_account w.staking)
    store stake_position (position_account w.position)

  unfoldable pub create_staking :
      Runtime L
      → (market staking payer : Pubkey) (signed : Pubkey → Bool) → Instruction L (Unit {0})
  create_staking E market staking payer signed = do
    _ ← load_market market
    check (signed payer) constraint
    check (staking == (E.find_address (staking_seeds market)).0) constraint
    create staking (staking_account (initialize_staking zeroed_staking market))

  unfoldable pub create_stake_position :
      Runtime L
      → (market stake_position user : Pubkey) (signed : Pubkey → Bool) → Instruction L (Unit {0})
  create_stake_position E market stake_position user signed = do
    _ ← load_market market
    check (signed user) constraint
    check (stake_position == (E.find_address (position_seeds market user)).0) constraint
    create stake_position (position_account (initialize_position zeroed_position market user))

module _ {L : Type 0} (E : Runtime L) where
  -- The checks of `StakeUpdate`, which return the decimals of the base token too.
  unfoldable pub stake_update :
      StakeUpdate → (signed : Pubkey → Bool) → Instruction L (Market × Stakes × ℕ)
  stake_update a signed = do
    (m, w) ← load_stakes a.market a.staking a.stake_position a.user
    check (m.base_token_mint == a.base_token_mint) (error invalid_mint_account)
    decimals ← check_mint E a.base_token_mint
    check_associated E a.market_base_token_ata a.base_token_mint a.market a.base_token_program
    check_associated E a.user_base_token_ata a.base_token_mint a.user a.base_token_program
    check (signed a.user) constraint
    return (m, w, decimals)

  unfoldable pub deposit :
      StakeUpdate → (signed : Pubkey → Bool) → (amount : ℕ) → Instruction L (Unit {0})
  deposit a signed amount = do
    (m, w, decimals) ← stake_update a signed
    (_, w') ← lift (StakingManager.deposit w amount)
    store_stakes a.market a.staking a.stake_position m w'
    transfer_from_eoa E a.base_token_mint decimals a.user a.user_base_token_ata
        a.market_base_token_ata a.base_token_program amount
    emit (staking_deposit a.market a.user amount)

  unfoldable pub withdraw :
      StakeUpdate → (signed : Pubkey → Bool) → (amount : ℕ) → Instruction L (Unit {0})
  withdraw a signed amount = do
    (m, w, decimals) ← stake_update a signed
    check (leb amount w.position.amount_staked) (error insufficient_stake_amount)
    (_, w') ← lift (StakingManager.withdraw w amount)
    store_stakes a.market a.staking a.stake_position m w'
    transfer_from_pda E a.base_token_mint decimals a.market a.market_base_token_ata
        a.user_base_token_ata a.base_token_program amount (market_seeds a.base_token_mint) m.bump
    emit (staking_withdrawal a.market a.user amount)

  unfoldable pub claim_staking_rewards :
      StakingRewardsClaim → (signed : Pubkey → Bool) → Instruction L ℕ
  claim_staking_rewards a signed = do
    (m, w) ← load_stakes a.market a.staking a.stake_position a.user
    check (m.quote_token_mint == a.quote_token_mint) (error invalid_mint_account)
    decimals ← check_mint E a.quote_token_mint
    check_associated E a.market_quote_token_ata a.quote_token_mint a.market a.quote_token_program
    check_associated E a.user_quote_token_ata a.quote_token_mint a.user a.quote_token_program
    check (signed a.user) constraint
    (_, w') ← lift (StakingManager.deposit w 0)
    let pending_rewards = w'.position.pending_rewards
    let paid = record (w'.position) { pending_rewards = 0 }
    store_stakes a.market a.staking a.stake_position m (record w' { position = paid })
    transfer_from_pda E a.quote_token_mint decimals a.market a.market_quote_token_ata
        a.user_quote_token_ata a.quote_token_program pending_rewards
        (market_seeds m.base_token_mint) m.bump
    emit (staking_rewards_claim a.market a.user pending_rewards)
    return pending_rewards
