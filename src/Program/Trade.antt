-- ===== src/Program/Trade.antt =====
-- programs/token-mill/src/instructions/swap.rs.
pub mod Effects
pub mod Transfers
pub mod Checked
pub mod Safety
use sol_token_mill.SwapManager
use sol_token_mill.Base.{Bool, Option, if◌then◌else◌, leb, ltb, none, not, some, ℕ, ◌==◌}
use sol_token_mill.Config.{TokenMillConfig}
use sol_token_mill.Errors.{
  amount_threshold_not_met, constraint, error, invalid_amount, invalid_config_account,
  invalid_mint_account,
}
use sol_token_mill.Market.{Market, Pubkey, distribute_fee}
use sol_token_mill.Program.{
  Instruction, check, emit, lift, load_config, load_market, market_account, return, store, ◌>>=◌,
  ◌>>◌,
}
use sol_token_mill.Program.Checks.{
  check_associated, check_has_mint, check_mint, check_token_account, transfer_from_eoa,
  transfer_from_pda,
}
use sol_token_mill.Program.Events.{swap_event}
use sol_token_mill.Program.External.{Runtime, market_seeds}
use sol_token_mill.Ruint.{Ruint}
use sol_token_mill.SwapTypes.{SwapAmountType, SwapType, buy, exact_input, exact_output, sell}

-- The accounts of `Swap`.
pub record SwapAccounts : Type 0 where
  pub config : Pubkey
  pub market : Pubkey
  pub base_token_mint : Pubkey
  pub quote_token_mint : Pubkey
  pub market_base_token_ata : Pubkey
  pub market_quote_token_ata : Pubkey
  pub user_base_token_account : Pubkey
  pub user_quote_token_account : Pubkey
  pub protocol_quote_token_ata : Pubkey
  pub referral_token_account : Option Pubkey
  pub user : Pubkey
  pub base_token_program : Pubkey
  pub quote_token_program : Pubkey

-- One side of the trade: an amount, and what the transfer of it names.
pub record Side : Type 0 where
  pub amount : ℕ
  pub mint : Pubkey
  pub decimals : ℕ
  pub user_token_account : Pubkey
  pub market_token_account : Pubkey
  pub token_program : Pubkey

-- The two sides, what comes in first.
abbrev pub sides : SwapType → Side → Side → Side × Side
sides buy base quote = (quote, base)
sides sell base quote = (base, quote)

-- The test of `other_amount_threshold`.
abbrev pub threshold_met : SwapAmountType → (amount_in amount_out threshold : ℕ) → Bool
threshold_met exact_input amount_in amount_out threshold = leb threshold amount_out
threshold_met exact_output amount_in amount_out threshold = leb amount_in threshold

abbrev pub referral_share : Option Pubkey → ℕ → Option ℕ
referral_share none share = none
referral_share (some account) share = some share

module _ {L : Type 0} (R : Ruint) (E : Runtime L) where
  -- The referral account, where there is one, must be a token account.
  abbrev pub check_referral : Option Pubkey → Instruction L (Unit {0})
  check_referral none = return tt
  check_referral (some account) = do _ ← check_token_account E account; return tt

  -- The checks of `Swap`, which return the accounts that the handler reads and the decimals of the
  -- base and the quote token.
  unfoldable pub swap_checks :
      SwapAccounts → (signed : Pubkey → Bool) → Instruction L (TokenMillConfig × Market × ℕ × ℕ)
  swap_checks a signed = do
    c ← load_config a.config
    m ← load_market a.market
    check (m.config == a.config) (error invalid_config_account)
    check (m.base_token_mint == a.base_token_mint) (error invalid_mint_account)
    check (m.quote_token_mint == a.quote_token_mint) (error invalid_mint_account)
    base_decimals ← check_mint E a.base_token_mint
    quote_decimals ← check_mint E a.quote_token_mint
    check_associated E a.market_base_token_ata a.base_token_mint a.market a.base_token_program
    check_associated E a.market_quote_token_ata a.quote_token_mint a.market a.quote_token_program
    check_has_mint E a.user_base_token_account a.base_token_mint
    check_has_mint E a.user_quote_token_account a.quote_token_mint
    check_associated E a.protocol_quote_token_ata a.quote_token_mint c.protocol_fee_recipient
        a.quote_token_program
    check_referral a.referral_token_account
    check (signed a.user) constraint
    return (c, m, base_decimals, quote_decimals)

  -- A payment of fees from the market, made only if there is something to pay.
  abbrev pub pay_fee : SwapAccounts → (bump decimals : ℕ) → Pubkey → ℕ → Instruction L (Unit {0})
  pay_fee a bump decimals account fee =
      let payment =
        transfer_from_pda E a.quote_token_mint decimals a.market a.market_quote_token_ata account
          a.quote_token_program fee (market_seeds a.base_token_mint) bump in
      if ltb 0 fee then payment else return tt

  abbrev pub pay_referral :
      SwapAccounts → (bump decimals : ℕ) → Option Pubkey → ℕ → Instruction L (Unit {0})
  pay_referral a bump decimals none fee = return tt
  pay_referral a bump decimals (some account) fee = pay_fee a bump decimals account fee

  unfoldable pub swap :
      SwapAccounts
      → (signed : Pubkey → Bool) → SwapType
      → SwapAmountType
      → (amount other_amount_threshold : ℕ) → Instruction L (ℕ × ℕ)
  swap a signed swap_type swap_amount_type amount other_amount_threshold = do
    (c, m, base_decimals, quote_decimals) ← swap_checks a signed
    check (not (amount == 0)) (error invalid_amount)
    (s, m') ← lift (SwapManager.swap R m swap_type swap_amount_type amount)
    (split, fees) ← lift (
        distribute_fee m'.fees s.swap_fee
          (referral_share a.referral_token_account c.referral_fee_share))
    store a.market (market_account (record m' { fees = fees }))
    let base : Side = record {
      amount = s.base_amount;
      mint = a.base_token_mint;
      decimals = base_decimals;
      user_token_account = a.user_base_token_account;
      market_token_account = a.market_base_token_ata;
      token_program = a.base_token_program;
    }
    let quote : Side = record {
      amount = s.quote_amount;
      mint = a.quote_token_mint;
      decimals = quote_decimals;
      user_token_account = a.user_quote_token_account;
      market_token_account = a.market_quote_token_ata;
      token_program = a.quote_token_program;
    }
    let (side_in, side_out) = sides swap_type base quote
    check (threshold_met swap_amount_type side_in.amount side_out.amount other_amount_threshold)
        (error amount_threshold_not_met)
    transfer_from_eoa E side_in.mint side_in.decimals a.user side_in.user_token_account
        side_in.market_token_account side_in.token_program side_in.amount
    transfer_from_pda E side_out.mint side_out.decimals a.market side_out.market_token_account
        side_out.user_token_account side_out.token_program side_out.amount
        (market_seeds a.base_token_mint) m.bump
    pay_fee a m.bump quote_decimals a.protocol_quote_token_ata split.protocol_fee
    pay_referral a m.bump quote_decimals a.referral_token_account split.referral_fee
    emit (
        swap_event a.user a.market swap_type s.base_amount s.quote_amount a.referral_token_account
          split.creator_fee split.staking_fee split.protocol_fee split.referral_fee)
    return (s.base_amount, s.quote_amount)
