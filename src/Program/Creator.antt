-- ===== src/Program/Creator.antt =====
-- programs/token-mill/src/instructions/creator/: the instructions of the creator of a market.
pub mod Effects
use sol_token_mill.Word.U16
use sol_token_mill.Base.{Bool, List, ℕ, ◌==◌}
use sol_token_mill.Errors.{
  constraint, error, invalid_authority, invalid_fee_share, invalid_quote_token_mint,
}
use sol_token_mill.Market.{Market, Pubkey, check_and_set_prices}
use sol_token_mill.Program.{
  Instruction, check, emit, lift, load_market, market_account, return, store, ◌>>=◌, ◌>>◌,
}
use sol_token_mill.Program.Checks.{check_associated, check_mint, transfer_from_pda}
use sol_token_mill.Program.Events.{
  creator_fee_claim, creator_update, market_fee_shares_update, market_price_set,
}
use sol_token_mill.Program.External.{Runtime, market_seeds}

module _ {L : Type 0} where
  -- The checks of `MarketSettingsUpdate`.
  unfoldable pub market_settings_update :
      (market creator : Pubkey) (signed : Pubkey → Bool) → Instruction L Market
  market_settings_update market creator signed = do
    m ← load_market market
    check (m.creator == creator) (error invalid_authority)
    check (signed creator) constraint
    return m

  unfoldable pub set_market_prices :
      (market creator : Pubkey) (signed : Pubkey → Bool) (bid_prices ask_prices : List ℕ)
      → Instruction L (Unit {0})
  set_market_prices market creator signed bid_prices ask_prices = do
    m ← market_settings_update market creator signed
    m' ← lift (check_and_set_prices m bid_prices ask_prices)
    store market (market_account m')
    emit (market_price_set market bid_prices ask_prices)

  unfoldable pub update_creator :
      (market creator : Pubkey) (signed : Pubkey → Bool) (new_creator : Pubkey)
      → Instruction L (Unit {0})
  update_creator market creator signed new_creator = do
    m ← market_settings_update market creator signed
    store market (market_account (record m { creator = new_creator }))
    emit (creator_update market new_creator)

  unfoldable pub update_market_fee_shares :
      (market creator : Pubkey) (signed : Pubkey → Bool)
      (new_creator_fee_share new_staking_fee_share : ℕ)
      → Instruction L (Unit {0})
  update_market_fee_shares market creator signed new_creator_fee_share new_staking_fee_share = do
    m ← market_settings_update market creator signed
    new ← lift (U16.add new_creator_fee_share new_staking_fee_share)
    old ← lift (U16.add m.fees.creator_fee_share m.fees.staking_fee_share)
    check (new == old) (error invalid_fee_share)
    store market (
        market_account (record m {
          fees = record (m.fees) {
            creator_fee_share = new_creator_fee_share;
            staking_fee_share = new_staking_fee_share;
          };
        }))
    emit (market_fee_shares_update market new_creator_fee_share new_staking_fee_share)

  unfoldable pub claim_creator_fees :
      Runtime L
      → (market quote_token_mint market_quote_token_ata creator_quote_token_ata creator
          quote_token_program : Pubkey)
      → (signed : Pubkey → Bool) → Instruction L (Unit {0})
  claim_creator_fees E market quote_token_mint market_quote_token_ata creator_quote_token_ata
        creator quote_token_program signed =
      do
        m ← load_market market
        check (m.creator == creator) (error invalid_authority)
        check (m.quote_token_mint == quote_token_mint) (error invalid_quote_token_mint)
        decimals ← check_mint E quote_token_mint
        check_associated E market_quote_token_ata quote_token_mint market quote_token_program
        check_associated E creator_quote_token_ata quote_token_mint creator quote_token_program
        check (signed creator) constraint
        let pending_fees = m.fees.pending_creator_fees
        store market
            (market_account (record m { fees = record (m.fees) { pending_creator_fees = 0 } }))
        transfer_from_pda E quote_token_mint decimals market market_quote_token_ata
            creator_quote_token_ata quote_token_program pending_fees
            (market_seeds m.base_token_mint) m.bump
        emit (creator_fee_claim market creator pending_fees)
