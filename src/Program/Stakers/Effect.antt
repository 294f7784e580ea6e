-- ===== src/Program/Stakers/Effect.antt =====
-- programs/token-mill/src/lib.rs: what each entry point does to a market, its stakes and its tallies.
use sol_token_mill.Program.Trade
use sol_token_mill.Program.Stake
use sol_token_mill.Program.Vest
use sol_token_mill.Base.{Bool, refl, ℕ, ◌≡◌}
use sol_token_mill.Errors.{ok}
use sol_token_mill.Market.{Pubkey}
use sol_token_mill.Program.{World}
use sol_token_mill.Program.Dispatch.{
  Call, accept_config_ownership, claim_creator_fees, claim_referral_fees, claim_staking_rewards,
  create_config, create_market, create_market_with_spl, create_quote_asset_badge,
  create_referral_account, create_stake_position, create_staking, create_vesting_plan, deposit,
  dispatch, release, set_market_prices, swap, transfer_config_ownership, update_creator,
  update_default_fee_shares, update_market_fee_shares, update_protocol_fee_recipient,
  update_quote_asset_badge, withdraw,
}
use sol_token_mill.Program.External.{Runtime}
use sol_token_mill.Program.Runs.{on_step}
use sol_token_mill.Program.Stakers.Claims.{claim_staking_rewards-Handled, release-Handled}
use sol_token_mill.Program.Stakers.Creations.{
  create_market-Untouched, create_market_with_spl-Untouched,
}
use sol_token_mill.Program.Stakers.Deposits.{
  create_vesting_plan-Handled, deposit-Handled, withdraw-Handled,
}
use sol_token_mill.Program.Stakers.Frame.{Untouched}
use sol_token_mill.Program.Stakers.Handled.{Handled}
use sol_token_mill.Program.Stakers.Markets.{
  claim_creator_fees-Untouched, set_market_prices-Untouched, update_creator-Untouched,
  update_market_fee_shares-Untouched,
}
use sol_token_mill.Program.Stakers.Settings.{
  accept_config_ownership-Untouched, claim_referral_fees-Untouched, create_config-Untouched,
  create_quote_asset_badge-Untouched, create_referral_account-Untouched,
  transfer_config_ownership-Untouched, update_default_fee_shares-Untouched,
  update_protocol_fee_recipient-Untouched, update_quote_asset_badge-Untouched,
}
use sol_token_mill.Program.Stakers.Writes.{come_to}
use sol_token_mill.Program.Trade.{SwapAccounts}
use sol_token_mill.Program.Trade.Effects.{SwapEffect, swap-SwapEffect}
use sol_token_mill.Ruint.{Ruint}
use sol_token_mill.SwapTypes.{SwapAmountType, SwapType}

-- The same accounts and log.
abbrev pub SameState : {L : Type 0} → World L → World L → Type 0
SameState w w' = (w'.accounts ≡ w.accounts) × (w'.log ≡ w.log)

module _ {L : Type 0} (R : Ruint) (E : Runtime L) (key : Pubkey) where
  -- A call that succeeds leaves the market and its stakes alone, or is a trade, or moves a stake, of this
  -- or of another market, or opens an account for stakes.
  pub data CallEffect (w w' : World L) : Type 0 where
    leaves : Untouched key w w' → CallEffect w w'
    swaps :
        {w1 : World L} {a : SwapAccounts} {signed : Pubkey → Bool} {swap_type : SwapType}
        {kind : SwapAmountType} {amount threshold : ℕ} {out : ℕ × ℕ}
        → SameState w1 w'
        → SwapEffect R E a signed swap_type kind amount threshold out w w1
        → CallEffect w w'
    moves_stake :
        {w1 : World L} {market staking position user : Pubkey}
        → SameState w1 w'
        → Handled market staking position user w w1
        → CallEffect w w'
    opens_staking :
        (signed : Pubkey → Bool) (market staking payer : Pubkey)
        → Stake.create_staking E market staking payer signed w ≡ ok (tt, w')
        → CallEffect w w'
    opens_position :
        (signed : Pubkey → Bool) (market position user : Pubkey)
        → Stake.create_stake_position E market position user signed w ≡ ok (tt, w')
        → CallEffect w w'

  pub dispatch-CallEffect :
      (signed : Pubkey → Bool) (c : Call) (w w' : World L)
      → dispatch R E signed c w ≡ ok (tt, w')
      → CallEffect w w'
  unfolding dispatch
  dispatch-CallEffect signed (create_config config payer authority recipient ps rs) w w' h =
      leaves (create_config-Untouched signed w w' key config payer authority recipient ps rs h)
  dispatch-CallEffect signed (create_market a args) w w' h =
      leaves (create_market-Untouched E signed w w' key a args h)
  dispatch-CallEffect signed (create_market_with_spl a args) w w' h =
      leaves (create_market_with_spl-Untouched E signed w w' key a args h)
  dispatch-CallEffect signed (set_market_prices market creator bids asks) w w' h =
      leaves (set_market_prices-Untouched signed w w' key market creator bids asks h)
  dispatch-CallEffect signed (swap a swap_type kind amount threshold) w w' h =
      on_step (Trade.swap R E a signed swap_type kind amount threshold) {w = w} h λ out w1 e h1.
        swaps (come_to h1) (swap-SwapEffect R E a signed swap_type kind amount threshold out w w1 e)
  dispatch-CallEffect signed (create_staking market staking payer) w w' h =
      opens_staking signed market staking payer h
  dispatch-CallEffect signed (create_stake_position market position user) w w' h =
      opens_position signed market position user h
  dispatch-CallEffect signed (deposit a amount) w w' h =
      moves_stake (refl, refl) (deposit-Handled E signed w w' a amount h)
  dispatch-CallEffect signed (withdraw a amount) w w' h =
      moves_stake (refl, refl) (withdraw-Handled E signed w w' a amount h)
  dispatch-CallEffect signed (claim_staking_rewards a) w w' h =
      on_step (Stake.claim_staking_rewards E a signed) {w = w} h λ n w1 e h1.
        let (ea, el) = come_to h1 in
        moves_stake (ea, el) (claim_staking_rewards-Handled E signed w w1 a n e)
  dispatch-CallEffect signed (create_vesting_plan a plan start amount duration cliff) w w' h =
      moves_stake (refl, refl)
        (create_vesting_plan-Handled E signed w w' a plan start amount duration cliff h)
  dispatch-CallEffect signed (release a plan) w w' h =
      on_step (Vest.release E a plan signed) {w = w} h λ n w1 e h1.
        let (ea, el) = come_to h1 in moves_stake (ea, el) (release-Handled E signed w w1 a plan n e)
  dispatch-CallEffect signed (create_referral_account config referral user referrer) w w' h =
      leaves (create_referral_account-Untouched signed w w' key E config referral user referrer h)
  dispatch-CallEffect signed (claim_referral_fees referral mint source destination referrer program)
        w w' h =
      leaves (
        claim_referral_fees-Untouched signed w w' key E referral mint source destination referrer
          program h)
  dispatch-CallEffect signed (update_creator market creator new_creator) w w' h =
      leaves (update_creator-Untouched signed w w' key market creator new_creator h)
  dispatch-CallEffect signed (update_market_fee_shares market creator cs ss) w w' h =
      leaves (update_market_fee_shares-Untouched signed w w' key market creator cs ss h)
  dispatch-CallEffect signed (claim_creator_fees market mint source destination creator program) w
        w' h =
      leaves (
        claim_creator_fees-Untouched signed w w' key E market mint source destination creator
          program h)
  dispatch-CallEffect signed (create_quote_asset_badge config badge mint authority) w w' h =
      leaves (create_quote_asset_badge-Untouched signed w w' key E config badge mint authority h)
  dispatch-CallEffect signed (update_quote_asset_badge config badge mint authority status) w w' h =
      leaves
        (update_quote_asset_badge-Untouched signed w w' key E config badge mint authority status h)
  dispatch-CallEffect signed (update_default_fee_shares config authority ps rs) w w' h =
      leaves (update_default_fee_shares-Untouched signed w w' key config authority ps rs h)
  dispatch-CallEffect signed (update_protocol_fee_recipient config authority recipient) w w' h =
      leaves (update_protocol_fee_recipient-Untouched signed w w' key config authority recipient h)
  dispatch-CallEffect signed (transfer_config_ownership config authority named) w w' h =
      leaves (transfer_config_ownership-Untouched signed w w' key config authority named h)
  dispatch-CallEffect signed (accept_config_ownership config next) w w' h =
      leaves (accept_config_ownership-Untouched signed w w' key config next h)
