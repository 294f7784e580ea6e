-- ===== src/Program/Vest.antt =====
-- programs/token-mill/src/instructions/vesting/.
use sol_token_mill.Word.I64
use sol_token_mill.Vesting
use sol_token_mill.StakingManager
use sol_token_mill.Base.{Bool, false, if◌then◌else◌, ltb, true, ℕ, ◌&&◌, ◌==◌}
use sol_token_mill.Base.Int.{ltb_ℤ, pos, ℤ}
use sol_token_mill.Errors.{
  Result, constraint, err, error, invalid_stake_position, invalid_vesting_duration,
  invalid_vesting_start_time, ok,
}
use sol_token_mill.Market.{Pubkey}
use sol_token_mill.Program.{
  Instruction, check, create, emit, gets, lift, load_plan, plan_account, return, store, ◌>>=◌, ◌>>◌,
}
use sol_token_mill.Program.Checks.{transfer_from_eoa, transfer_from_pda}
use sol_token_mill.Program.Events.{vesting_plan_creation, vesting_plan_release}
use sol_token_mill.Program.External.{Runtime, market_seeds}
use sol_token_mill.Program.Stake.{StakeUpdate, stake_update, store_stakes}
use sol_token_mill.Vesting.{initialize_plan, zeroed_plan}

-- The guards of `create_vesting_plan` on its arguments, at time `now`.
unfoldable pub check_schedule : (start vesting_duration cliff_duration now : ℤ) → Result (Unit {0})
check_schedule start vesting_duration cliff_duration now =
    elim (ltb_ℤ (pos 0) start
      && ltb_ℤ (pos 0) vesting_duration
      && ltb_ℤ (pos 0) cliff_duration
      && ltb_ℤ cliff_duration vesting_duration) [
        | false ↦ err (error invalid_vesting_duration)
        | true ↦ elim (I64.add start vesting_duration) [
          | err e ↦ err e
          | ok end ↦ if ltb_ℤ now end then ok tt else err (error invalid_vesting_start_time)
        ]
      ]

-- The accounts of `CreateVestingPlan` and `Release` are those of `StakeUpdate` and the plan.
module _ {L : Type 0} (E : Runtime L) where
  unfoldable pub create_vesting_plan :
      StakeUpdate
      → (vesting_plan : Pubkey) (signed : Pubkey → Bool)
      → (start : ℤ) (vesting_amount : ℕ) (vesting_duration cliff_duration : ℤ)
      → Instruction L (Unit {0})
  create_vesting_plan a vesting_plan signed start vesting_amount vesting_duration cliff_duration =
      do
        (m, w, decimals) ← stake_update E a signed
        check (signed vesting_plan) constraint
        create vesting_plan (
            plan_account (
              initialize_plan zeroed_plan a.stake_position start vesting_amount vesting_duration
                cliff_duration))
        now ← gets (λ w. w.unix_timestamp)
        lift (check_schedule start vesting_duration cliff_duration now)
        (_, w') ← lift (StakingManager.deposit_vested w vesting_amount)
        store_stakes a.market a.staking a.stake_position m w'
        transfer_from_eoa E a.base_token_mint decimals a.user a.user_base_token_ata
            a.market_base_token_ata a.base_token_program vesting_amount
        emit (
            vesting_plan_creation a.market a.user vesting_plan vesting_amount start vesting_duration
              cliff_duration)

  unfoldable pub release :
      StakeUpdate → (vesting_plan : Pubkey) (signed : Pubkey → Bool) → Instruction L ℕ
  release a vesting_plan signed = do
    (m, w, decimals) ← stake_update E a signed
    plan ← load_plan vesting_plan
    check (plan.stake_position == a.stake_position) (error invalid_stake_position)
    now ← gets (λ w. w.unix_timestamp)
    (amount_released, plan') ← lift (Vesting.release plan now)
    (_, w') ← lift (StakingManager.withdraw_vested w amount_released)
    store vesting_plan (plan_account plan')
    store_stakes a.market a.staking a.stake_position m w'
    let payment =
        transfer_from_pda E a.base_token_mint decimals a.market a.market_base_token_ata
          a.user_base_token_ata a.base_token_program amount_released
          (market_seeds a.base_token_mint) m.bump
    if ltb 0 amount_released then payment else return tt
    emit (vesting_plan_release vesting_plan amount_released)
    return amount_released
