-- ===== src/Tests/Histories.antt =====
-- Histories of calls, and the badge of a market's creation.
use sol_token_mill.Program.Creator
use sol_token_mill.Program.Trade
use sol_token_mill.Base.{
  Bool, Bool-cases, List, arith, inl, inr, refl, some, subst, ◌==◌, ◌∷◌, ◌≡◌, ◌↔◌,
}
use sol_token_mill.Config.{QuoteTokenBadge, disabled}
use sol_token_mill.Errors.{Result, err, ok}
use sol_token_mill.Market.{Market, Pubkey}
use sol_token_mill.Market.Prices.{CurvesValid}
use sol_token_mill.Program.{
  Account, World, badge_account, config_account, market_account, return, update,
}
use sol_token_mill.Program.Creation.{check_badge}
use sol_token_mill.Program.Creation.Badge.{BadgeAccepted, check_badge_iff}
use sol_token_mill.Program.Creator.{market_settings_update}
use sol_token_mill.Program.Dispatch.{Call, dispatch, swap, update_market_fee_shares}
use sol_token_mill.Program.Events.{market_fee_shares_update}
use sol_token_mill.Program.Evolution.{
  AccountValid, AccountsValid, ConfigValid, Evolves, MarketValid, SettingsKept,
}
use sol_token_mill.Program.External.{Transfer}
use sol_token_mill.Program.History.{
  History, History-AccountsValid, History-MarketSince, MarketSince, call, dispatch-Evolves, start,
}
use sol_token_mill.Program.Silence.{Silent-Owned, Silent-SettingsKept}
use sol_token_mill.Ruint.Concrete.{concrete, concrete-Laws}
use sol_token_mill.SwapTypes.{buy, exact_input}
use sol_token_mill.Tests.Instructions.{
  accounts, config, fees_after, recorder, swap_accounts, swap_run, world, world_after_swap,
}
use sol_token_mill.Tests.Trading.{after_buy, default_asks, default_bids, market, market-Tradable}

abbrev user_signs : Pubkey → Bool
user_signs key = key == 10

abbrev creator_signs : Pubkey → Bool
creator_signs key = key == 2

pub default_CurvesValid : CurvesValid default_bids default_asks
default_CurvesValid = record {
  bids_length = refl;
  asks_length = refl;
  bids_ascend = omega arith;
  asks_ascend = omega arith;
  ordered = omega arith;
  capped = λ last h. ground arith;
}

config-ConfigValid : ConfigValid config
config-ConfigValid = record { protocol_share = omega arith; referral_share = omega arith }

market-MarketValid : MarketValid market
market-MarketValid = record {
  tradable = market-Tradable;
  shares = record { shares_fit = omega arith };
  curves = inr default_CurvesValid;
}

some-injective : {a b : Account} → some a ≡ some b → a ≡ b
some-injective h = cc

world-AccountsValid : AccountsValid accounts
world-AccountsValid = record {
  valid = λ key a h. elim (Bool-cases (key == 5)) [
    | inl e ↦ subst AccountValid (some-injective (rw e at h)) market-MarketValid
    | inr e ↦ elim (Bool-cases (key == 1)) [
      | inl e1 ↦ subst AccountValid (some-injective (rw (e, e1) at h)) config-ConfigValid
      | inr e1 ↦ absurd (cc (rw (e, e1) at h))
    ]
  ];
}

abbrev purchase : Call
purchase = swap swap_accounts buy exact_input 1_000_000_000 399_000_000

then_return :
    {A : Type 0} {a : A} {w' : World (List Transfer)} (x : Result (A × World (List Transfer)))
    → x ≡ ok (a, w')
    → ◌≡◌ {A = Result (Unit {0} × World (List Transfer))}
        (elim x [ ok (_, w) ↦ return tt w | err e ↦ err e ])
        (ok (tt, w'))
then_return (ok (_, w)) h = ground arith
then_return (err e) h = absurd (ground arith)

purchase_run : dispatch concrete recorder user_signs purchase world ≡ ok (tt, world_after_swap)
unfolding dispatch
purchase_run =
    then_return
      (Trade.swap concrete recorder swap_accounts user_signs buy exact_input 1_000_000_000
        399_000_000 world)
      swap_run

dispatch-Evolves_example : Evolves user_signs accounts (world_after_swap.accounts)
dispatch-Evolves_example =
    dispatch-Evolves concrete-Laws recorder user_signs purchase world world_after_swap
      world-AccountsValid tt purchase_run

-- The creator moves shares after the purchase.
abbrev shares : Call
shares = update_market_fee_shares 5 2 4_000 5_000

abbrev market_at_end : Market
market_at_end = record after_buy {
  fees = record fees_after { creator_fee_share = 4_000; staking_fee_share = 5_000 };
}

abbrev world_at_end : World (List Transfer)
world_at_end = record world_after_swap {
  accounts = update (world_after_swap.accounts) 5 (market_account market_at_end);
  log = market_fee_shares_update 5 4_000 5_000 ∷ world_after_swap.log;
}

shares_run :
    dispatch concrete recorder creator_signs shares world_after_swap ≡ ok (tt, world_at_end)
unfolding dispatch Creator.update_market_fee_shares market_settings_update
shares_run = refl

two_calls : History concrete recorder world world_at_end
two_calls = call creator_signs shares (call user_signs purchase start tt purchase_run) tt shares_run

History-AccountsValid_example : AccountsValid (world_at_end.accounts)
History-AccountsValid_example =
    History-AccountsValid concrete-Laws recorder world world-AccountsValid two_calls

History-MarketSince_example :
    (m' : Market) × (world_at_end.accounts 5 ≡ some (market_account m')) × MarketSince market m'
History-MarketSince_example =
    History-MarketSince concrete-Laws recorder world world-AccountsValid 5 market refl two_calls

-- The badge of a mint, not enabled, at the address that the runtime gives.
abbrev badge : QuoteTokenBadge
badge = record { status = disabled; bump = 255 }

abbrev world_with_badge : World (List Transfer)
world_with_badge = record world { accounts = update accounts 5 (badge_account badge) }

check_badge_iff_example :
    (check_badge recorder config 1 4 20 (some 5) world_with_badge ≡ ok (tt, world_with_badge))
    ↔ BadgeAccepted recorder config 1 4 20 (some 5) world_with_badge
check_badge_iff_example = check_badge_iff recorder config 1 4 20 (some 5) world_with_badge

-- Neither run is signed by the authority of the configuration.
Silent-Owned_example : world_at_end.accounts 1 ≡ some (config_account config)
unfolding two_calls
Silent-Owned_example =
    Silent-Owned concrete-Laws recorder world world-AccountsValid 20 1 (config_account config) refl
      (refl, refl) two_calls (refl, (refl, tt))

-- The purchase alone is not signed by the creator.
Silent-SettingsKept_example :
    (m' : Market) × (world_after_swap.accounts 5 ≡ some (market_account m'))
    × SettingsKept market m'
Silent-SettingsKept_example =
    Silent-SettingsKept concrete-Laws recorder world world-AccountsValid 5 market refl
      (call user_signs purchase start tt purchase_run) (refl, tt)
