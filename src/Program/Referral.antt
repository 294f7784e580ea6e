-- ===== src/Program/Referral.antt =====
-- programs/token-mill/src/instructions/referrals/.
use sol_token_mill.Base.{Bool, ◌==◌}
use sol_token_mill.Config.{initialize_referral}
use sol_token_mill.Errors.{constraint}
use sol_token_mill.Market.{Pubkey}
use sol_token_mill.Program.{
  Instruction, check, create, emit, load_config, load_referral, referral_account, ◌>>=◌, ◌>>◌,
}
use sol_token_mill.Program.Checks.{
  check_associated, check_mint, check_token_account, transfer_from_pda,
}
use sol_token_mill.Program.Events.{referral_fee_claim}
use sol_token_mill.Program.External.{Runtime, referral_seeds}

module _ {L : Type 0} (E : Runtime L) where
  unfoldable pub create_referral_account :
      (config referral user : Pubkey) (signed : Pubkey → Bool) (referrer : Pubkey)
      → Instruction L (Unit {0})
  create_referral_account config referral user signed referrer = do
    _ ← load_config config
    check (signed user) constraint
    let (address, bump) = E.find_address (referral_seeds config referrer)
    check (referral == address) constraint
    create referral (referral_account (initialize_referral bump config referrer))

  unfoldable pub claim_referral_fees :
      (referral quote_token_mint referral_account_quote_token_ata referrer_quote_token_ata referrer
        quote_token_program : Pubkey)
      (signed : Pubkey → Bool)
      → Instruction L (Unit {0})
  claim_referral_fees referral quote_token_mint referral_account_quote_token_ata
        referrer_quote_token_ata referrer quote_token_program signed =
      do
        r ← load_referral referral
        check (r.referrer == referrer) constraint
        decimals ← check_mint E quote_token_mint
        check_associated E referral_account_quote_token_ata quote_token_mint referral
            quote_token_program
        check_associated E referrer_quote_token_ata quote_token_mint referrer quote_token_program
        check (signed referrer) constraint
        pending_fees ← check_token_account E referral_account_quote_token_ata
        transfer_from_pda E quote_token_mint decimals referral referral_account_quote_token_ata
            referrer_quote_token_ata quote_token_program pending_fees
            (referral_seeds r.config r.referrer) r.bump
        emit (referral_fee_claim referrer quote_token_mint pending_fees)
