-- ===== src/Program/Admin.antt =====
-- programs/token-mill/src/instructions/admin/: the instructions of the administrator. Each function
-- is the account checks of an instruction, then its handler. `signed` tells which accounts signed the
-- transaction; the parameters before it are the accounts of the instruction.
pub mod Ownership
use sol_token_mill.Base.{Bool, Option, leb, none, ℕ, ◌&&◌, ◌==◌}
use sol_token_mill.Config.{
  QuoteTokenBadgeStatus, TokenMillConfig, initialize_badge, initialize_config,
}
use sol_token_mill.Constant.{max_bps}
use sol_token_mill.Errors.{constraint, error, invalid_authority, invalid_fee_share}
use sol_token_mill.Market.{Pubkey}
use sol_token_mill.Program.{
  Instruction, badge_account, check, config_account, create, emit, load_badge, load_config, return,
  store, ◌>>=◌, ◌>>◌,
}
use sol_token_mill.Program.Checks.{check_mint, is_address, is_key}
use sol_token_mill.Program.Events.{
  config_creation, config_ownership_transfer, default_fee_shares_update,
  protocol_fee_recipient_update, quote_token_badge,
}
use sol_token_mill.Program.External.{Runtime, badge_seeds}

module _ {L : Type 0} where
  unfoldable pub create_config :
      (config payer : Pubkey) (signed : Pubkey → Bool) (authority protocol_fee_recipient : Pubkey)
      (protocol_fee_share referral_fee_share : ℕ)
      → Instruction L (Unit {0})
  create_config config payer signed authority protocol_fee_recipient protocol_fee_share
        referral_fee_share =
      do
        check (signed config && signed payer) constraint
        create config (
            config_account (
              initialize_config authority protocol_fee_recipient protocol_fee_share
                referral_fee_share))
        check (leb protocol_fee_share max_bps && leb referral_fee_share max_bps)
            (error invalid_fee_share)
        emit (config_creation config authority protocol_fee_share referral_fee_share)

  -- The checks of `ConfigUpdate`.
  unfoldable pub config_update :
      (config authority : Pubkey) (signed : Pubkey → Bool) → Instruction L TokenMillConfig
  config_update config authority signed = do
    check (signed authority) constraint
    c ← load_config config
    check (c.authority == authority) (error invalid_authority)
    return c

  unfoldable pub transfer_config_ownership :
      (config authority : Pubkey) (signed : Pubkey → Bool) (new_authority : Option Pubkey)
      → Instruction L (Unit {0})
  transfer_config_ownership config authority signed new_authority = do
    c ← config_update config authority signed
    store config (config_account (record c { pending_authority = new_authority }))

  unfoldable pub accept_config_ownership :
      (config pending_authority : Pubkey) (signed : Pubkey → Bool) → Instruction L (Unit {0})
  accept_config_ownership config pending_authority signed = do
    check (signed pending_authority) constraint
    c ← load_config config
    check (is_key c.pending_authority pending_authority) (error invalid_authority)
    store config
        (config_account (record c { authority = pending_authority; pending_authority = none }))
    emit (config_ownership_transfer config pending_authority)

  unfoldable pub update_default_fee_shares :
      (config authority : Pubkey) (signed : Pubkey → Bool)
      (new_default_protocol_fee_share new_referral_fee_share : ℕ)
      → Instruction L (Unit {0})
  update_default_fee_shares config authority signed new_default_protocol_fee_share
        new_referral_fee_share =
      do
        c ← config_update config authority signed
        check (leb new_default_protocol_fee_share max_bps && leb new_referral_fee_share max_bps)
            (error invalid_fee_share)
        store config (
            config_account (record c {
              default_protocol_fee_share = new_default_protocol_fee_share;
              referral_fee_share = new_referral_fee_share;
            }))
        emit
            (default_fee_shares_update config new_default_protocol_fee_share new_referral_fee_share)

  unfoldable pub update_protocol_fee_recipient :
      (config authority : Pubkey) (signed : Pubkey → Bool) (new_protocol_fee_recipient : Pubkey)
      → Instruction L (Unit {0})
  update_protocol_fee_recipient config authority signed new_protocol_fee_recipient = do
    c ← config_update config authority signed
    store config (config_account (record c { protocol_fee_recipient = new_protocol_fee_recipient }))
    emit (protocol_fee_recipient_update config new_protocol_fee_recipient)

module _ {L : Type 0} (E : Runtime L) where
  unfoldable pub create_quote_asset_badge :
      (config quote_asset_badge token_mint authority : Pubkey) (signed : Pubkey → Bool)
      → Instruction L (Unit {0})
  create_quote_asset_badge config quote_asset_badge token_mint authority signed = do
    _ ← config_update config authority signed
    _ ← check_mint E token_mint
    let (address, bump) = E.find_address (badge_seeds config token_mint)
    check (quote_asset_badge == address) constraint
    let badge = initialize_badge bump
    create quote_asset_badge (badge_account badge)
    emit (quote_token_badge config token_mint badge.status)

  unfoldable pub update_quote_asset_badge :
      (config quote_asset_badge token_mint authority : Pubkey) (signed : Pubkey → Bool)
      (status : QuoteTokenBadgeStatus)
      → Instruction L (Unit {0})
  update_quote_asset_badge config quote_asset_badge token_mint authority signed status = do
    _ ← config_update config authority signed
    badge ← load_badge quote_asset_badge
    check (is_address E (badge_seeds config token_mint) badge.bump quote_asset_badge) constraint
    _ ← check_mint E token_mint
    store quote_asset_badge (badge_account (record badge { status = status }))
    emit (quote_token_badge config token_mint status)
