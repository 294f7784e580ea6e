-- ===== src/Program/Trade/Transfers.antt =====
-- programs/token-mill/src/instructions/swap.rs: the transfers of a swap.
use sol_token_mill.Base.{List, Option, [], if◌then◌else◌, ltb, none, some, ℕ, ◌++◌, ◌∷◌}
use sol_token_mill.Market.{FeeSplit, Pubkey}
use sol_token_mill.Program.Checks.{transfer_from_pda}
use sol_token_mill.Program.External.{Runtime, Transfer, eoa, market_seeds, pda}
use sol_token_mill.Program.Payments.{
  Pays, if-Pays, return-Pays, transfer_from_pda-Pays, transfer_of,
}
use sol_token_mill.Program.Trade.{SwapAccounts, pay_fee, pay_referral}
use sol_token_mill.Ruint.{Ruint}
use sol_token_mill.SwapManager.{Swapped}
use sol_token_mill.SwapTypes.{SwapType, buy, sell}

-- The user and the market exchange the two amounts: the user's side first, on his signature, then the
-- market's, on that of its address.
abbrev pub exchange :
    SwapAccounts → SwapType → (bump base_decimals quote_decimals : ℕ) → Swapped → List Transfer
exchange a buy bump base_decimals quote_decimals s =
    transfer_of a.quote_token_program a.quote_token_mint a.user_quote_token_account
      a.market_quote_token_ata (eoa a.user) s.quote_amount quote_decimals
    ∷ transfer_of a.base_token_program a.base_token_mint a.market_base_token_ata
        a.user_base_token_account (pda a.market (market_seeds a.base_token_mint) bump) s.base_amount
        base_decimals
    ∷ []
exchange a sell bump base_decimals quote_decimals s =
    transfer_of a.base_token_program a.base_token_mint a.user_base_token_account
      a.market_base_token_ata (eoa a.user) s.base_amount base_decimals
    ∷ transfer_of a.quote_token_program a.quote_token_mint a.market_quote_token_ata
        a.user_quote_token_account (pda a.market (market_seeds a.base_token_mint) bump)
        s.quote_amount quote_decimals
    ∷ []

-- A fee above 0 goes from the market's quote tokens to the account.
abbrev pub fee_to : SwapAccounts → (bump quote_decimals : ℕ) → Pubkey → ℕ → List Transfer
fee_to a bump quote_decimals account fee =
    if ltb 0 fee
    then transfer_of a.quote_token_program a.quote_token_mint a.market_quote_token_ata account
        (pda a.market (market_seeds a.base_token_mint) bump) fee quote_decimals
      ∷ []
    else []

abbrev pub referral_to :
    SwapAccounts → (bump quote_decimals : ℕ) → Option Pubkey → ℕ → List Transfer
referral_to a bump quote_decimals none fee = []
referral_to a bump quote_decimals (some account) fee = fee_to a bump quote_decimals account fee

-- All transfers of a swap, in order.
abbrev pub swap_transfers :
    SwapAccounts
    → SwapType
    → (bump base_decimals quote_decimals : ℕ) → Swapped
    → FeeSplit
    → List Transfer
swap_transfers a swap_type bump base_decimals quote_decimals s split =
    exchange a swap_type bump base_decimals quote_decimals s
    ++ (fee_to a bump quote_decimals a.protocol_quote_token_ata split.protocol_fee
        ++ referral_to a bump quote_decimals a.referral_token_account split.referral_fee)

module _ {L : Type 0} (R : Ruint) (E : Runtime L) where
  pub pay_fee-Pays :
      (a : SwapAccounts) (bump decimals : ℕ) (account : Pubkey) (fee : ℕ)
      → Pays E (fee_to a bump decimals account fee) (pay_fee R E a bump decimals account fee)
  pay_fee-Pays a bump decimals account fee =
      if-Pays E (ltb 0 fee)
        (transfer_of a.quote_token_program a.quote_token_mint a.market_quote_token_ata account
            (pda a.market (market_seeds a.base_token_mint) bump) fee decimals
          ∷ [])
        (transfer_from_pda E a.quote_token_mint decimals a.market a.market_quote_token_ata account
          a.quote_token_program fee (market_seeds a.base_token_mint) bump)
        (transfer_from_pda-Pays E a.quote_token_mint decimals a.market a.market_quote_token_ata
          account a.quote_token_program fee (market_seeds a.base_token_mint) bump)

  pub pay_referral-Pays :
      (a : SwapAccounts) (bump decimals : ℕ) (account : Option Pubkey) (fee : ℕ)
      → Pays E
          (referral_to a bump decimals account fee)
          (pay_referral R E a bump decimals account fee)
  pay_referral-Pays a bump decimals (some account) fee = pay_fee-Pays a bump decimals account fee
  pay_referral-Pays a bump decimals none fee = return-Pays E
