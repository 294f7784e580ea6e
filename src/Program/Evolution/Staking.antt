-- ===== src/Program/Evolution/Staking.antt =====
-- programs/token-mill/src/instructions/staking: the instructions on stakes.
use sol_token_mill.StakingManager
use sol_token_mill.Base.{Bool, leb, sym, true, ℕ, ◌==◌, ◌∙◌, ◌≡◌}
use sol_token_mill.Errors.{ok}
use sol_token_mill.Market.{Market, Pubkey}
use sol_token_mill.Program.{World, emit, return, ◌>>◌}
use sol_token_mill.Program.Checks.{
  check_associated, check_mint, transfer_from_eoa, transfer_from_pda,
}
use sol_token_mill.Program.Events.{staking_rewards_claim}
use sol_token_mill.Program.Evolution.{AccountsValid, Evolves}
use sol_token_mill.Program.Evolution.Changes.{Evolves-at, Evolves-new, Evolves-refl}
use sol_token_mill.Program.Evolution.Stakes.{
  Stakes-Evolves, StakesFound, on_load_stakes, on_stake_update, paid_out, restored,
}
use sol_token_mill.Program.External.{Runtime, market_seeds, position_seeds, staking_seeds}
use sol_token_mill.Program.Frames.{
  check_associated-ReadOnly, check_mint-ReadOnly, transfer_from_eoa-KeepsAccounts,
  transfer_from_pda-KeepsAccounts,
}
use sol_token_mill.Program.Runs.{accounts_of, created, on_check, on_lift, on_load_market}
use sol_token_mill.Program.Runs.Keeps.{on_keep, on_read}
use sol_token_mill.Program.Stake.{
  StakeUpdate, StakingRewardsClaim, claim_staking_rewards, create_stake_position, create_staking,
  deposit, store_stakes, withdraw,
}
use sol_token_mill.StakingManager.{Stakes}
use sol_token_mill.StakingManager.Moves.{StakesMoved, operate-StakesMoved}
use sol_token_mill.StakingManager.Operations.{deposits, withdraws}

module _ {L : Type 0} (E : Runtime L) (signed : Pubkey → Bool) (w w' : World L)
    (v : AccountsValid w.accounts) where
  pub create_staking-Evolves :
      (market staking payer : Pubkey)
      → create_staking E market staking payer signed w ≡ ok (tt, w')
      → Evolves signed w.accounts w'.accounts
  unfolding create_staking
  create_staking-Evolves market staking payer h = on_load_market market _ {w = w} h λ m _ h1.
      on_check (signed payer) _ _ {w = w} h1 λ _ h2.
        on_check (staking == (E.find_address (staking_seeds market)).0) _ _ {w = w} h2
          λ _ h3. created staking _ w w' h3 λ free e. Evolves-new staking _ v free tt e

  pub create_stake_position-Evolves :
      (market position user : Pubkey)
      → create_stake_position E market position user signed w ≡ ok (tt, w')
      → Evolves signed w.accounts w'.accounts
  unfolding create_stake_position
  create_stake_position-Evolves market position user h = on_load_market market _ {w = w} h λ m _ h1.
      on_check (signed user) _ _ {w = w} h1 λ _ h2.
        on_check (position == (E.find_address (position_seeds market user)).0) _ _ {w = w} h2
          λ _ h3. created position _ w w' h3 λ free e. Evolves-new position _ v free tt e

  pub deposit-Evolves :
      (a : StakeUpdate) (amount : ℕ)
      → deposit E a signed amount w ≡ ok (tt, w')
      → Evolves signed w.accounts w'.accounts
  unfolding deposit store_stakes
  deposit-Evolves a amount h = on_stake_update E a signed _ w h λ m s decimals found by h1.
      on_lift (StakingManager.deposit s amount) _ {w = w} h1 λ r er h2.
        on_keep (transfer_from_eoa E _ _ _ _ _ _ _)
          (transfer_from_eoa-KeepsAccounts E _ _ _ _ _ _ _) _
          (record w { accounts = restored w.accounts a.market a.staking a.stake_position m r.1 }) h2
          λ _ w2 k2 h3. Evolves-at signed w.accounts (accounts_of h3 ∙ sym k2) (
            Stakes-Evolves signed w v a.market a.staking a.stake_position a.user m s r.1 w.accounts
              found by (operate-StakesMoved (deposits amount) s r.1 r.0 er)
              (Evolves-refl signed w.accounts v))

  pub withdraw-Evolves :
      (a : StakeUpdate) (amount : ℕ)
      → withdraw E a signed amount w ≡ ok (tt, w')
      → Evolves signed w.accounts w'.accounts
  unfolding withdraw store_stakes
  withdraw-Evolves a amount h = on_stake_update E a signed _ w h λ m s decimals found by h1.
      on_check (leb amount s.position.amount_staked) _ _ {w = w} h1 λ _ h2.
        on_lift (StakingManager.withdraw s amount) _ {w = w} h2 λ r er h3.
          on_keep (transfer_from_pda E _ _ _ _ _ _ _ _ _)
            (transfer_from_pda-KeepsAccounts E _ _ _ _ _ _ _ _ _) _
            (record w { accounts = restored w.accounts a.market a.staking a.stake_position m r.1 })
            h3
            λ _ w2 k2 h4. Evolves-at signed w.accounts (accounts_of h4 ∙ sym k2) (
              Stakes-Evolves signed w v a.market a.staking a.stake_position a.user m s r.1
                w.accounts found by (operate-StakesMoved (withdraws amount) s r.1 r.0 er)
                (Evolves-refl signed w.accounts v))

  -- The rest of a claim, from the accrual on.
  claimed :
      (a : StakingRewardsClaim) (n decimals : ℕ) (m : Market) (s s' : Stakes)
      → StakesFound a.market a.staking a.stake_position a.user w m s
      → signed a.user ≡ true
      → StakesMoved s s'
      → (store_stakes a.market a.staking a.stake_position m
              (record s' { position = record (s'.position) { pending_rewards = 0 } })
            >> (transfer_from_pda E a.quote_token_mint decimals a.market a.market_quote_token_ata
                  a.user_quote_token_ata a.quote_token_program s'.position.pending_rewards
                  (market_seeds m.base_token_mint)
                  m.bump
                >> (emit (staking_rewards_claim a.market a.user s'.position.pending_rewards)
                    >> return s'.position.pending_rewards)))
          w
        ≡ ok (n, w')
      → Evolves signed w.accounts w'.accounts
  unfolding store_stakes
  claimed a n decimals m s s' found by moved h =
      let paid : Stakes = record s' { position = record (s'.position) { pending_rewards = 0 } } in
      on_keep (transfer_from_pda E _ _ _ _ _ _ _ _ _)
        (transfer_from_pda-KeepsAccounts E _ _ _ _ _ _ _ _ _) _
        (record w { accounts = restored w.accounts a.market a.staking a.stake_position m paid }) h
        λ _ w2 k2 h1. Evolves-at signed w.accounts (accounts_of h1 ∙ sym k2) (
          Stakes-Evolves signed w v a.market a.staking a.stake_position a.user m s paid w.accounts
            found by (paid_out 0 moved) (Evolves-refl signed w.accounts v))

  pub claim_staking_rewards-Evolves :
      (a : StakingRewardsClaim) (n : ℕ)
      → claim_staking_rewards E a signed w ≡ ok (n, w')
      → Evolves signed w.accounts w'.accounts
  unfolding claim_staking_rewards store_stakes
  claim_staking_rewards-Evolves a n h =
      on_load_stakes a.market a.staking a.stake_position a.user _ w h λ m s found h1.
        on_check (m.quote_token_mint == a.quote_token_mint) _ _ {w = w} h1 λ _ h2.
          on_read (check_mint E a.quote_token_mint) (check_mint-ReadOnly E _) _ {w = w} h2
            λ decimals h3.
              on_read (check_associated E _ _ _ _) (check_associated-ReadOnly E _ _ _ _) _ {w = w}
                h3
                λ _ h4.
                  on_read (check_associated E _ _ _ _) (check_associated-ReadOnly E _ _ _ _) _
                    {w = w} h4
                    λ _ h5. on_check (signed a.user) _ _ {w = w} h5 λ by h6.
                      on_lift (StakingManager.deposit s 0) _ {w = w} h6 λ r er h7.
                        claimed a n decimals m s r.1 found by
                          (operate-StakesMoved (deposits 0) s r.1 r.0 er) h7
