-- ===== src/Program/Creation.antt =====
-- programs/token-mill/src/instructions/create_market.rs and create_market_with_spl.rs.
pub mod Badge
use Prim.Native.String.{String}
use sol_token_mill.Word
use sol_token_mill.Word.U16
use sol_token_mill.Market
use sol_token_mill.Base.{
  Bool, Option, false, if◌then◌else◌, ltb, none, some, true, ℕ, ◌&&◌, ◌==◌, ◌||◌,
}
use sol_token_mill.Config.{QuoteTokenBadgeStatus, TokenMillConfig, disabled, enabled}
use sol_token_mill.Constant.{max_bps, mill_token_decimals}
use sol_token_mill.Errors.{
  Result, constraint, err, error, invalid_fee_share, invalid_quote_asset_badge, ok,
  unsupported_token_mint,
}
use sol_token_mill.Market.{Market, Pubkey, zeroed}
use sol_token_mill.Program.{
  Instruction, check, create, emit, gets, invoke, lift, load_badge, load_config, market_account,
  return, store, ◌>>=◌, ◌>>◌,
}
use sol_token_mill.Program.Checks.{check_mint, check_mint_extensions, is_address}
use sol_token_mill.Program.Events.{market_creation}
use sol_token_mill.Program.External.{Runtime, badge_seeds, market_seeds, pda}

-- The accounts of `CreateMarket` and `CreateMarketWithSpl`.
pub record CreateMarket : Type 0 where
  pub config : Pubkey
  pub market : Pubkey
  pub base_token_mint : Pubkey
  pub market_base_token_ata : Pubkey
  pub quote_token_badge : Option Pubkey
  pub quote_token_mint : Pubkey
  pub creator : Pubkey
  pub token_program : Pubkey

-- The arguments of the two instructions.
pub record MarketArgs : Type 0 where
  pub name : String
  pub symbol : String
  pub uri : String
  pub total_supply : ℕ
  pub creator_fee_share : ℕ
  pub staking_fee_share : ℕ

abbrev pub is_enabled : QuoteTokenBadgeStatus → Bool
is_enabled enabled = true
is_enabled disabled = false

module _ {L : Type 0} (E : Runtime L) where
  -- The attribute of `quote_token_badge`. Where the optional account is left out, it tests nothing.
  unfoldable pub check_badge :
      TokenMillConfig
      → (config quote_token_mint creator : Pubkey) → Option Pubkey
      → Instruction L (Unit {0})
  check_badge c config quote_token_mint creator none = return tt
  check_badge c config quote_token_mint creator (some quote_token_badge) = do
    badge ← load_badge quote_token_badge
    check (is_address E (badge_seeds config quote_token_mint) badge.bump quote_token_badge)
        constraint
    check (is_enabled badge.status || creator == c.authority) (error invalid_quote_asset_badge)

  -- `total == MAX_BPS`, where the sum is computed in `u16`.
  abbrev pub check_fee_shares : TokenMillConfig → MarketArgs → Result (Unit {0})
  check_fee_shares c args = elim (U16.add args.creator_fee_share args.staking_fee_share) [
    | err e ↦ err e
    | ok own ↦ elim (U16.add own c.default_protocol_fee_share) [
      | err e ↦ err e
      | ok total ↦ if total == max_bps then ok tt else err (error invalid_fee_share)
    ]
  ]

  -- `initialize_token_metadata` of create_market.rs: the metadata, then the rent that they cost.
  unfoldable pub initialize_token_metadata :
      CreateMarket → MarketArgs → (bump : ℕ) → Instruction L (Unit {0})
  initialize_token_metadata a args bump = do
    invoke (
        E.initialize_metadata a.base_token_mint a.market a.creator args.name args.symbol args.uri
          (market_seeds a.base_token_mint) bump)
    ledger ← gets (λ w. w.ledger)
    extra_lamports ← lift (
        Word.sub (E.minimum_balance ledger a.base_token_mint) (E.lamports ledger a.base_token_mint))
    let payment = invoke (E.transfer_lamports a.creator a.base_token_mint extra_lamports)
    if ltb 0 extra_lamports then payment else return tt

  -- `initialize_token_metadata` of create_market_with_spl.rs, where the market keeps the right to
  -- update the metadata.
  unfoldable pub initialize_spl_metadata :
      CreateMarket → MarketArgs → (bump : ℕ) → Instruction L (Unit {0})
  initialize_spl_metadata a args bump = invoke (
      E.initialize_metadata a.base_token_mint a.market a.market args.name args.symbol args.uri
        (market_seeds a.base_token_mint) bump)

  unfoldable pub mint_supply_and_remove_authority :
      CreateMarket → (total_supply bump : ℕ) → Instruction L (Unit {0})
  mint_supply_and_remove_authority a total_supply bump = do
    invoke (
        E.mint_to a.base_token_mint a.market_base_token_ata
          (pda a.market (market_seeds a.base_token_mint) bump) total_supply)
    invoke (
        E.remove_mint_authority a.base_token_mint
          (pda a.market (market_seeds a.base_token_mint) bump))

  -- The checks of the accounts, with the creation of those under `init`. They return the
  -- configuration and the bump of the market.
  unfoldable pub create_market_checks :
      CreateMarket → (signed : Pubkey → Bool) → Instruction L (TokenMillConfig × ℕ)
  create_market_checks a signed = do
    c ← load_config a.config
    check (signed a.creator && signed a.base_token_mint) constraint
    let (address, bump) = E.find_address (market_seeds a.base_token_mint)
    check (a.market == address) constraint
    create a.market (market_account zeroed)
    invoke (E.init_mint a.base_token_mint a.market a.token_program mill_token_decimals)
    invoke (E.init_associated a.market_base_token_ata a.base_token_mint a.market a.token_program)
    check_badge c a.config a.quote_token_mint a.creator a.quote_token_badge
    return (c, bump)

  -- The two handlers, which differ in `metadata`.
  unfoldable pub create_market_with :
      (metadata : CreateMarket → MarketArgs → ℕ → Instruction L (Unit {0}))
      → CreateMarket
      → (signed : Pubkey → Bool) → MarketArgs
      → Instruction L (Unit {0})
  create_market_with metadata a signed args = do
    (c, bump) ← create_market_checks a signed
    decimals ← check_mint E a.quote_token_mint
    lift (check_fee_shares c args)
    supported ← check_mint_extensions E a.quote_token_mint
    check supported (error unsupported_token_mint)
    m ← lift (
        Market.initialize zeroed bump a.config a.creator a.base_token_mint a.quote_token_mint
          decimals args.total_supply args.creator_fee_share args.staking_fee_share)
    store a.market (market_account m)
    metadata a args bump
    mint_supply_and_remove_authority a args.total_supply bump
    emit (
        market_creation a.config a.market a.creator a.base_token_mint a.quote_token_mint
          args.total_supply c.default_protocol_fee_share c.referral_fee_share args.creator_fee_share
          args.staking_fee_share)

  unfoldable pub create_market :
      CreateMarket → (signed : Pubkey → Bool) → MarketArgs → Instruction L (Unit {0})
  unfolding create_market_with
  create_market = create_market_with initialize_token_metadata

  unfoldable pub create_market_with_spl :
      CreateMarket → (signed : Pubkey → Bool) → MarketArgs → Instruction L (Unit {0})
  unfolding create_market_with
  create_market_with_spl = create_market_with initialize_spl_metadata
