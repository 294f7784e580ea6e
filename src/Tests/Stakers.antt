-- ===== src/Tests/Stakers.antt =====
-- The stakers of a market while it is traded.
use sol_token_mill.Program.Trade
use sol_token_mill.Program.Stake
use sol_token_mill.SwapManager
use sol_token_mill.StakingManager
use sol_token_mill.Base.{
  Bool, Bool-cases, List, Option, [], arith, inl, inr, none, refl, some, true, ℕ, ◌*◌, ◌/◌, ◌==◌,
  ◌∷◌, ◌≡◌,
}
use sol_token_mill.Constant.{staking_scale}
use sol_token_mill.Errors.{ok}
use sol_token_mill.Market.{MarketFees, Pubkey, circulating_supply, distribute_fee}
use sol_token_mill.Market.Exact.{base_out_loop, get_base_amount_out}
use sol_token_mill.Market.Quote.{get_quote_amount_with_parameters, interval_quote, quote_loop}
use sol_token_mill.Math.{div, get_delta_base_out, get_sqrt_discriminant, mul_div, partial_base_out}
use sol_token_mill.Program.{
  Account, World, market_account, position_account, staking_account, update,
}
use sol_token_mill.Program.Checks.{transfer_from_eoa, transfer_from_pda}
use sol_token_mill.Program.Dispatch.{Call, claim_staking_rewards, dispatch, swap}
use sol_token_mill.Program.Events.{staking_rewards_claim, swap_event}
use sol_token_mill.Program.Evolution.Stakes.{StakesFound}
use sol_token_mill.Program.External.{Runtime, Seeds, Transfer, market_seeds, pda, staking_seeds}
use sol_token_mill.Program.Runs.{same_key}
use sol_token_mill.Program.Stake.{StakingRewardsClaim, load_stakes, store_stakes}
use sol_token_mill.Program.Stakers.{Entries, StakersSolvent, listed}
use sol_token_mill.Program.Stakers.Rewards.{RewardsPaid, claim_staking_rewards-RewardsPaid}
use sol_token_mill.Program.Stakers.Solvency.{LoggedHistory-StakersSolvent, began, called_by}
use sol_token_mill.Program.Trade.{swap_checks}
use sol_token_mill.Ruint.Concrete.{concrete}
use sol_token_mill.Staking.{MarketStaking, StakePosition, accrue_market, accrue_position}
use sol_token_mill.StakingManager.{Stakes, accrue_rewards}
use sol_token_mill.StakingManager.Solvency.{SolventFor}
use sol_token_mill.SwapManager.{settle, swap_amounts}
use sol_token_mill.SwapTypes.{buy, exact_input}
use sol_token_mill.Tests.Instructions.{
  accounts, fees_after, recorder, swap_accounts, world, world_after_swap,
}
use sol_token_mill.Tests.Trading.{after_buy, market}
use sol_token_mill.Word.{power_of_ten}

abbrev address : Seeds → Pubkey × ℕ
address (staking_seeds _) = (40, 254)
address _ = (5, 255)

abbrev runtime : Runtime (List Transfer)
runtime = record recorder { find_address = address }

abbrev staker : StakePosition
staker = record {
  market = 5;
  user = 10;
  amount_staked = 100;
  total_amount_vested = 0;
  pending_rewards = 0;
  acc_reward_amount_per_share = 0;
}

abbrev stakes : MarketStaking
stakes = record {
  market = 5;
  amount_staked = 100;
  total_amount_vested = 0;
  acc_reward_amount_per_share = 0;
}

abbrev with_stakes : Pubkey → Option Account
with_stakes = update (update accounts 40 (staking_account stakes)) 41 (position_account staker)

-- An earlier swap has set 100 aside.
abbrev first : World (List Transfer)
first = record world { accounts = with_stakes; log = swap_event 10 5 buy 1 1 none 200 100 0 0 ∷ [] }

abbrev traded : World (List Transfer)
traded = record first {
  accounts = update with_stakes 5 (market_account (record after_buy { fees = fees_after }));
  ledger = world_after_swap.ledger;
  log =
      swap_event 10 5 buy 399_680_510 1_000_000_000 (some 12) 45_000_000 45_000_000 8_000_002
        2_000_000
      ∷ first.log;
}

abbrev purchase : Call
purchase = swap swap_accounts buy exact_input 1_000_000_000 399_000_000

abbrev user_signs : Pubkey → Bool
user_signs key = key == 10

purchase_run : dispatch concrete runtime user_signs purchase first ≡ ok (tt, traded)
unfolding dispatch Trade.swap swap_checks transfer_from_eoa transfer_from_pda distribute_fee
    SwapManager.swap swap_amounts settle get_base_amount_out get_quote_amount_with_parameters
    circulating_supply base_out_loop quote_loop interval_quote get_delta_base_out partial_base_out
    get_sqrt_discriminant mul_div div power_of_ten concrete
purchase_run = refl

abbrev claim_accounts : StakingRewardsClaim
claim_accounts = record {
  market = 5;
  staking = 40;
  stake_position = 41;
  quote_token_mint = 4;
  market_quote_token_ata = 7;
  user_quote_token_ata = 9;
  user = 10;
  quote_token_program = 31;
}

abbrev paid_fees : MarketFees
paid_fees = record fees_after { pending_staking_fees = 0 }

abbrev per_share : ℕ
per_share = 45_000_100 * staking_scale / 100

abbrev claimed : World (List Transfer)
claimed = record traded {
  accounts =
      update
        (update (update traded.accounts 5 (market_account (record after_buy { fees = paid_fees })))
          40 (staking_account (record stakes { acc_reward_amount_per_share = per_share })))
        41 (position_account (record staker { acc_reward_amount_per_share = per_share }));
  ledger =
      (record {
        token_program = 31;
        mint = 4;
        source = 7;
        destination = 9;
        authority = pda 5 (market_seeds 3) 255;
        amount = 45_000_100;
        decimals = 9;
      })
      ∷ traded.ledger;
  log = staking_rewards_claim 5 10 45_000_100 ∷ traded.log;
}

claim_run :
    dispatch concrete runtime user_signs (claim_staking_rewards claim_accounts) traded
    ≡ ok (tt, claimed)
unfolding dispatch Stake.claim_staking_rewards load_stakes store_stakes transfer_from_pda
    StakingManager.deposit accrue_rewards accrue_market accrue_position
claim_run = refl

only_stakes :
    (key : Pubkey) (s : MarketStaking) → with_stakes key ≡ some (staking_account s) → key ≡ 40
only_stakes key s h = elim (Bool-cases (key == 41)) [
  | inl e ↦ absurd (cc (rw e at h))
  | inr e ↦ elim (Bool-cases (key == 40)) [
    | inl e1 ↦ same_key e1
    | inr e1 ↦ elim (Bool-cases (key == 5)) [
      | inl e2 ↦ absurd (cc (rw (e, e1, e2) at h))
      | inr e2 ↦ elim (Bool-cases (key == 1)) [
        | inl e3 ↦ absurd (cc (rw (e, e1, e2, e3) at h))
        | inr e3 ↦ absurd (cc (rw (e, e1, e2, e3) at h))
      ]
    ]
  ]
]

only_staker :
    (key : Pubkey) (p : StakePosition)
    → with_stakes key ≡ some (position_account p)
    → listed key ((41, staker) ∷ []) ≡ true
only_staker key p h = elim (Bool-cases (key == 41)) [
  | inl e ↦ rw e refl
  | inr e ↦ elim (Bool-cases (key == 40)) [
    | inl e1 ↦ absurd (cc (rw (e, e1) at h))
    | inr e1 ↦ elim (Bool-cases (key == 5)) [
      | inl e2 ↦ absurd (cc (rw (e, e1, e2) at h))
      | inr e2 ↦ elim (Bool-cases (key == 1)) [
        | inl e3 ↦ absurd (cc (rw (e, e1, e2, e3) at h))
        | inr e3 ↦ absurd (cc (rw (e, e1, e2, e3) at h))
      ]
    ]
  ]
]

first-StakersSolvent : StakersSolvent 5 40 ((41, staker) ∷ []) first
first-StakersSolvent = record {
  state = market;
  stakes = stakes;
  market_found = refl;
  staking_found = refl;
  of_market = refl;
  only_staking = λ key s h _. only_stakes key s h;
  held = (refl, refl, tt, tt);
  complete = λ key p h _. only_staker key p h;
  claimed = omega arith;
  solvent = omega arith;
}

LoggedHistory-StakersSolvent_example : (es : Entries) × StakersSolvent 5 40 es claimed
LoggedHistory-StakersSolvent_example =
    LoggedHistory-StakersSolvent concrete runtime 5 ((41, staker) ∷ []) first-StakersSolvent (
      called_by user_signs (claim_staking_rewards claim_accounts)
        (called_by user_signs purchase began purchase_run) claim_run)

-- The claim by itself: all that was set aside goes to the only staker.
abbrev due_stakes : Stakes
due_stakes = record { fees = fees_after; staking = stakes; position = staker }

payout_run :
    Stake.claim_staking_rewards runtime claim_accounts user_signs traded ≡ ok (45_000_100, claimed)
unfolding Stake.claim_staking_rewards load_stakes store_stakes transfer_from_pda
    StakingManager.deposit accrue_rewards accrue_market accrue_position
payout_run = refl

due_stakes-StakesFound :
    StakesFound 5 40 41 10 traded (record after_buy { fees = fees_after }) due_stakes
due_stakes-StakesFound = record {
  market_found = refl;
  staking_found = refl;
  position_found = refl;
  fees_read = refl;
  of_market = refl;
  in_market = refl;
  of_user = refl;
}

due_stakes-Solvent : SolventFor 45_000_100 due_stakes []
due_stakes-Solvent = omega arith

claim_staking_rewards-RewardsPaid_example :
    RewardsPaid runtime claim_accounts user_signs 45_000_100 45_000_100 [] traded claimed
      (record after_buy { fees = fees_after })
      due_stakes
claim_staking_rewards-RewardsPaid_example =
    claim_staking_rewards-RewardsPaid runtime claim_accounts user_signs 45_000_100 45_000_100 []
      traded claimed (record after_buy { fees = fees_after }) due_stakes due_stakes-StakesFound
      due_stakes-Solvent payout_run
