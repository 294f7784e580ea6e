-- ===== src/Program/History.antt =====
-- programs/token-mill/src/lib.rs: what holds of the accounts after any sequence of calls.
use sol_token_mill.Program.Trade
use sol_token_mill.Program.Stake
use sol_token_mill.Program.Vest
use sol_token_mill.Base.{
  Bool, Option, ap, inl, inr, length, refl, some, subst, sym, true, ◌+◌, ◌∙◌, ◌≡◌,
}
use sol_token_mill.Constant.{prices_length}
use sol_token_mill.Errors.{ok}
use sol_token_mill.Market.{Market, Pubkey, are_prices_set}
use sol_token_mill.Program.{Account, World, market_account}
use sol_token_mill.Program.Dispatch.{
  Call, accept_config_ownership, claim_creator_fees, claim_referral_fees, claim_staking_rewards,
  create_config, create_market, create_market_with_spl, create_quote_asset_badge,
  create_referral_account, create_stake_position, create_staking, create_vesting_plan, deposit,
  dispatch, release, set_market_prices, swap, transfer_config_ownership, update_creator,
  update_default_fee_shares, update_market_fee_shares, update_protocol_fee_recipient,
  update_quote_asset_badge, withdraw,
}
use sol_token_mill.Program.Evolution.{
  AccountStep, AccountsValid, Evolves, MarketStep, badge_step, config_step, identity, market_step,
  plan_step, position_step, staking_step, unchanged,
}
use sol_token_mill.Program.Evolution.Changes.{Evolves-AccountsValid, Evolves-at}
use sol_token_mill.Program.Evolution.Configs.{
  accept_config_ownership-Evolves, create_config-Evolves, create_quote_asset_badge-Evolves,
  transfer_config_ownership-Evolves, update_default_fee_shares-Evolves,
  update_protocol_fee_recipient-Evolves, update_quote_asset_badge-Evolves,
}
use sol_token_mill.Program.Evolution.Creation.{
  create_market-Evolves, create_market_with_spl-Evolves,
}
use sol_token_mill.Program.Evolution.Markets.{
  claim_creator_fees-Evolves, set_market_prices-Evolves, swap-Evolves, update_creator-Evolves,
  update_market_fee_shares-Evolves,
}
use sol_token_mill.Program.Evolution.Staking.{
  claim_staking_rewards-Evolves, create_stake_position-Evolves, create_staking-Evolves,
  deposit-Evolves, withdraw-Evolves,
}
use sol_token_mill.Program.Evolution.Vesting.{
  claim_referral_fees-Evolves, create_referral_account-Evolves, create_vesting_plan-Evolves,
  release-Evolves,
}
use sol_token_mill.Program.External.{Runtime}
use sol_token_mill.Program.Runs.{accounts_of, on_step}
use sol_token_mill.Ruint.{Laws, Ruint}

-- The arguments have the types of the entry point: two price arrays of `PRICES_LENGTH` entries.
abbrev pub WellTyped : Call → Type 0
WellTyped (set_market_prices market creator bids asks) =
    (length bids ≡ prices_length) × (length asks ≡ prices_length)
WellTyped _ = Unit {0}

module _ {L : Type 0} {R : Ruint} (laws : Laws R) (E : Runtime L) where
  -- Where the 256-bit integers obey their laws and every account is valid: after a call of any entry
  -- point that succeeds, every account that was there is still there and valid, and what has changed
  -- in it is a step that its kind allows, with the signature that the step needs; and every account
  -- that is new is valid.
  pub dispatch-Evolves :
      (signed : Pubkey → Bool) (c : Call) (w w' : World L)
      → AccountsValid w.accounts
      → WellTyped c
      → dispatch R E signed c w ≡ ok (tt, w')
      → Evolves signed w.accounts w'.accounts
  unfolding dispatch
  dispatch-Evolves signed (create_config config payer authority recipient ps rs) w w' v t h =
      create_config-Evolves signed w w' v config payer authority recipient ps rs h
  dispatch-Evolves signed (create_market a args) w w' v t h =
      create_market-Evolves E signed w w' v a args h
  dispatch-Evolves signed (create_market_with_spl a args) w w' v t h =
      create_market_with_spl-Evolves E signed w w' v a args h
  dispatch-Evolves signed (set_market_prices market creator bids asks) w w' v t h =
      set_market_prices-Evolves signed w w' v market creator bids asks t.0 t.1 h
  dispatch-Evolves signed (swap a swap_type kind amount threshold) w w' v t h =
      on_step (Trade.swap R E a signed swap_type kind amount threshold) {w = w} h λ out w1 e h1.
        Evolves-at signed w.accounts (accounts_of h1)
          (swap-Evolves signed w w1 v laws E a swap_type kind amount threshold out e)
  dispatch-Evolves signed (create_staking market staking payer) w w' v t h =
      create_staking-Evolves E signed w w' v market staking payer h
  dispatch-Evolves signed (create_stake_position market position user) w w' v t h =
      create_stake_position-Evolves E signed w w' v market position user h
  dispatch-Evolves signed (deposit a amount) w w' v t h = deposit-Evolves E signed w w' v a amount h
  dispatch-Evolves signed (withdraw a amount) w w' v t h =
      withdraw-Evolves E signed w w' v a amount h
  dispatch-Evolves signed (claim_staking_rewards a) w w' v t h =
      on_step (Stake.claim_staking_rewards E a signed) {w = w} h λ n w1 e h1.
        Evolves-at signed w.accounts (accounts_of h1)
          (claim_staking_rewards-Evolves E signed w w1 v a n e)
  dispatch-Evolves signed (create_vesting_plan a plan start amount duration cliff) w w' v t h =
      create_vesting_plan-Evolves E signed w w' v a plan start amount duration cliff h
  dispatch-Evolves signed (release a plan) w w' v t h =
      on_step (Vest.release E a plan signed) {w = w} h λ n w1 e h1.
        Evolves-at signed w.accounts (accounts_of h1) (release-Evolves E signed w w1 v a plan n e)
  dispatch-Evolves signed (create_referral_account config referral user referrer) w w' v t h =
      create_referral_account-Evolves E signed w w' v config referral user referrer h
  dispatch-Evolves signed (claim_referral_fees referral mint source destination referrer program) w
        w' v t h =
      claim_referral_fees-Evolves E signed w w' v referral mint source destination referrer program
        h
  dispatch-Evolves signed (update_creator market creator new_creator) w w' v t h =
      update_creator-Evolves signed w w' v market creator new_creator h
  dispatch-Evolves signed (update_market_fee_shares market creator cs ss) w w' v t h =
      update_market_fee_shares-Evolves signed w w' v market creator cs ss h
  dispatch-Evolves signed (claim_creator_fees market mint source destination creator program) w w' v
        t h =
      claim_creator_fees-Evolves signed w w' v E market mint source destination creator program h
  dispatch-Evolves signed (create_quote_asset_badge config badge mint authority) w w' v t h =
      create_quote_asset_badge-Evolves signed w w' v E config badge mint authority h
  dispatch-Evolves signed (update_quote_asset_badge config badge mint authority status) w w' v t h =
      update_quote_asset_badge-Evolves signed w w' v E config badge mint authority status h
  dispatch-Evolves signed (update_default_fee_shares config authority ps rs) w w' v t h =
      update_default_fee_shares-Evolves signed w w' v config authority ps rs h
  dispatch-Evolves signed (update_protocol_fee_recipient config authority recipient) w w' v t h =
      update_protocol_fee_recipient-Evolves signed w w' v config authority recipient h
  dispatch-Evolves signed (transfer_config_ownership config authority named) w w' v t h =
      transfer_config_ownership-Evolves signed w w' v config authority named h
  dispatch-Evolves signed (accept_config_ownership config next) w w' v t h =
      accept_config_ownership-Evolves signed w w' v config next h

-- The worlds after `first`: calls that succeed, by any signers, and changes outside of the program, to
-- the ledger and the clock. A call that fails is undone, so it leads nowhere.
pub data History {L : Type 0} (R : Ruint) (E : Runtime L) (first : World L) : World L → Type 0 where
  start : History R E first first
  call :
      {w w' : World L} (signed : Pubkey → Bool) (c : Call)
      → History R E first w
      → WellTyped c
      → dispatch R E signed c w ≡ ok (tt, w')
      → History R E first w'
  outside : {w w' : World L} → History R E first w → w'.accounts ≡ w.accounts → History R E first w'

-- A market as it was, and after more of its history.
pub record MarketSince (m m' : Market) : Type 0 where
  pub identity_kept : identity m' ≡ identity m
  pub sum_kept :
      m'.fees.creator_fee_share + m'.fees.staking_fee_share
      ≡ m.fees.creator_fee_share + m.fees.staking_fee_share
  pub prices_kept :
      are_prices_set m ≡ ok true → (m'.bid_prices ≡ m.bid_prices) × (m'.ask_prices ≡ m.ask_prices)

still_set :
    (m m' : Market)
    → m'.ask_prices ≡ m.ask_prices
    → are_prices_set m ≡ ok true
    → are_prices_set m' ≡ ok true
unfolding are_prices_set
still_set m m' e h = rw e h

MarketSince-refl : (m : Market) → MarketSince m m
MarketSince-refl m = record {
  identity_kept = refl;
  sum_kept = refl;
  prices_kept = λ _. (refl, refl);
}

MarketSince-step :
    (signed : Pubkey → Bool) (m m1 m2 : Market)
    → MarketSince m m1
    → MarketStep signed m1 m2
    → MarketSince m m2
MarketSince-step signed m m1 m2 s step = record {
  identity_kept = step.identity_kept ∙ s.identity_kept;
  sum_kept = step.sum_kept ∙ s.sum_kept;
  prices_kept = λ set.
      let (eb, ea) = s.prices_kept set in
      elim step.prices [
        | inl (fb, fa) ↦ (fb ∙ eb, fa ∙ ea)
        | inr (unset, _) ↦ absurd (cc (still_set m m1 ea set))
      ];
}

-- A step from a market leads to a market.
market_after :
    (signed : Pubkey → Bool) (m m1 : Market) (a b : Account)
    → a ≡ market_account m1
    → AccountStep signed a b
    → MarketSince m m1
    → (m2 : Market) × (b ≡ market_account m2) × MarketSince m m2
market_after signed m m1 a b e (unchanged same) s = (m1, same ∙ e, s)
market_after signed m m1 a b e (market_step n n' ea eb step) s =
    (n', eb, MarketSince-step signed m n n' (subst (MarketSince m) (cc (sym e ∙ ea)) s) step)
market_after signed m m1 a b e (config_step c c' ea eb step) s = absurd (cc (sym e ∙ ea))
market_after signed m m1 a b e (staking_step c c' ea eb step) s = absurd (cc (sym e ∙ ea))
market_after signed m m1 a b e (position_step c c' ea eb step) s = absurd (cc (sym e ∙ ea))
market_after signed m m1 a b e (plan_step c c' ea eb step) s = absurd (cc (sym e ∙ ea))
market_after signed m m1 a b e (badge_step c c' ea eb step) s = absurd (cc (sym e ∙ ea))

module _ {L : Type 0} {R : Ruint} (laws : Laws R) (E : Runtime L) (first : World L)
    (v : AccountsValid first.accounts) where
  -- Where the 256-bit integers obey their laws: from a world in which every account is valid, every
  -- sequence of calls, with whatever happens outside of the program between them, leads to a world in
  -- which every account is valid.
  pub History-AccountsValid : {w : World L} → History R E first w → AccountsValid w.accounts
  History-AccountsValid start = v
  History-AccountsValid (call {w} {w'} signed c past t h) =
      Evolves-AccountsValid (dispatch-Evolves laws E signed c w w' (History-AccountsValid past) t h)
  History-AccountsValid (outside past e) = subst AccountsValid (sym e) (History-AccountsValid past)

  -- Where the 256-bit integers obey their laws and every account is valid at first: whatever the
  -- calls, and whatever happens outside of the program between them, a market stays at its address,
  -- with its configuration, mints, supply and width, and the sum of its shares; and once its prices
  -- are set, they never change.
  pub History-MarketSince :
      (key : Pubkey) (m : Market) {w : World L}
      → first.accounts key ≡ some (market_account m)
      → History R E first w
      → (m' : Market) × (w.accounts key ≡ some (market_account m')) × MarketSince m m'
  History-MarketSince key m found start = (m, found, MarketSince-refl m)
  History-MarketSince key m found (call {w} {w'} signed c past t h) =
      let (m1, e1, s1) = History-MarketSince key m found past in
      let ev = dispatch-Evolves laws E signed c w w' (History-AccountsValid past) t h in
      let (b, eb, step, _) = ev.kept key (market_account m1) e1 in
      let (m2, e2, s2) = market_after signed m m1 (market_account m1) b refl step s1 in
      (m2, eb ∙ ap (λ (x : Account). some x) e2, s2)
  History-MarketSince key m found (outside past e) =
      let (m1, e1, s1) = History-MarketSince key m found past in
      (m1, ap (λ (f : Pubkey → Option Account). f key) e ∙ e1, s1)
