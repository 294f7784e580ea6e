-- ===== src/Program/Evolution/Vesting.antt =====
-- programs/token-mill/src/instructions/vesting and instructions/referrals: what they do to the accounts.
use sol_token_mill.Word.U64
use sol_token_mill.Word.I64
use sol_token_mill.StakingManager
use sol_token_mill.Vesting
use sol_token_mill.Base.{
  Bool, Option, ap, arith, if◌then◌else◌, ltb, refl, sym, ℕ, ◌<◌, ◌==◌, ◌∙◌, ◌≡◌,
}
use sol_token_mill.Base.Int.{negsuc, pos, ℤ, ◌+ℤ◌}
use sol_token_mill.Errors.{ok, on_ok}
use sol_token_mill.Market.{Pubkey}
use sol_token_mill.Program.{Account, World, plan_account, return, update}
use sol_token_mill.Program.Checks.{
  check_associated, check_mint, check_token_account, transfer_from_eoa, transfer_from_pda,
}
use sol_token_mill.Program.Evolution.{AccountsValid, Evolves, plan_step}
use sol_token_mill.Program.Evolution.Changes.{
  Evolves-at, Evolves-create, Evolves-new, Evolves-refl, Evolves-store,
}
use sol_token_mill.Program.Evolution.Stakes.{Stakes-Evolves, on_stake_update, restored}
use sol_token_mill.Program.External.{Runtime, market_seeds, referral_seeds}
use sol_token_mill.Program.Frames.{
  check_associated-ReadOnly, check_mint-ReadOnly, check_token_account-ReadOnly, if-KeepsAccounts,
  transfer_from_eoa-KeepsAccounts, transfer_from_pda-KeepsAccounts,
}
use sol_token_mill.Program.Referral.{claim_referral_fees, create_referral_account}
use sol_token_mill.Program.Runs.{
  accounts_of, created, on_check, on_create, on_lift, on_load_config, on_load_plan,
  on_load_referral,
}
use sol_token_mill.Program.Runs.Keeps.{on_keep, on_read}
use sol_token_mill.Program.Stake.{StakeUpdate, store_stakes}
use sol_token_mill.Program.Vest.{check_schedule, create_vesting_plan, release}
use sol_token_mill.StakingManager.{Stakes, accrue_rewards, deposit_vested}
use sol_token_mill.StakingManager.Moves.{operate-StakesMoved}
use sol_token_mill.StakingManager.Operations.{deposits_vested, withdraws_vested}
use sol_token_mill.Vesting.{VestingPlan, initialize_plan, zeroed_plan}
use sol_token_mill.Vesting.Payout.{later_plan}
use sol_token_mill.Vesting.Schedule.{PlanValid, Released, release-Released}

-- The guards of a new plan make it valid.
schedule-PlanValid :
    (key : Pubkey) (amount : ℕ) (start vesting_duration cliff_duration now : ℤ)
    → check_schedule start vesting_duration cliff_duration now ≡ ok tt
    → amount < U64.lim
    → PlanValid (initialize_plan zeroed_plan key start amount vesting_duration cliff_duration)
unfolding check_schedule initialize_plan I64.in_bounds ◌+ℤ◌
schedule-PlanValid key amount (pos s) (pos d) (pos c) now h fits = record {
  start = s;
  cliff = c;
  duration = d;
  start_eq = refl;
  cliff_eq = refl;
  duration_eq = refl;
  cliff_pos = ground arith;
  cliff_lt = ground arith;
  duration_fits = ground arith;
  released_le = omega arith;
  vested_fits = fits;
}
schedule-PlanValid key amount (negsuc s) d c now h fits = absurd (ground arith)
schedule-PlanValid key amount (pos s) (negsuc d) c now h fits = absurd (ground arith)
schedule-PlanValid key amount (pos s) (pos d) (negsuc c) now h fits = absurd (ground arith)

-- A vested deposit that succeeds is a `u64`.
deposit_vested-fits :
    (w : Stakes) (amount : ℕ) (r : ℕ × Stakes)
    → StakingManager.deposit_vested w amount ≡ ok r
    → amount < U64.lim
unfolding deposit_vested
deposit_vested-fits w amount r h =
    on_ok (accrue_rewards w) h
      λ x _ h1. on_ok (U64.add x.1.staking.total_amount_vested amount) h1 λ total e _. ground arith

Released-PlanValid : (p p' : VestingPlan) (n : ℕ) → PlanValid p → Released p n p' → PlanValid p'
Released-PlanValid p p' n v r =
    later_plan p p' v r.rest_kept
      (rw (ap (λ (x : VestingPlan). x.amount_vested) r.rest_kept) (r.bounded))

module _ {L : Type 0} (E : Runtime L) (signed : Pubkey → Bool) (w w' : World L)
    (v : AccountsValid w.accounts) where
  pub create_vesting_plan-Evolves :
      (a : StakeUpdate) (plan : Pubkey) (start : ℤ) (amount : ℕ)
      (vesting_duration cliff_duration : ℤ)
      → create_vesting_plan E a plan signed start amount vesting_duration cliff_duration w
        ≡ ok (tt, w')
      → Evolves signed w.accounts w'.accounts
  unfolding create_vesting_plan store_stakes
  create_vesting_plan-Evolves a plan start amount vesting_duration cliff_duration h =
      on_stake_update E a signed _ w h λ m s decimals found by h1.
        on_check (signed plan) _ _ {w = w} h1 λ _ h2. on_create plan _ _ w h2 λ free h3.
          let p : VestingPlan =
            initialize_plan zeroed_plan a.stake_position start amount vesting_duration
              cliff_duration in
          let mid : Pubkey → Option Account = update w.accounts plan (plan_account p) in
          on_lift (check_schedule start vesting_duration cliff_duration w.unix_timestamp) _
            {w = record w { accounts = mid }} h3
            λ _ scheduled h4.
              on_lift (StakingManager.deposit_vested s amount) _ {w = record w { accounts = mid }}
                h4
                λ r er h5.
                  on_keep (transfer_from_eoa E _ _ _ _ _ _ _)
                    (transfer_from_eoa-KeepsAccounts E _ _ _ _ _ _ _) _
                    (record w { accounts = restored mid a.market a.staking a.stake_position m r.1 })
                    h5
                    λ _ w2 k2 h6. Evolves-at signed w.accounts (accounts_of h6 ∙ sym k2) (
                      Stakes-Evolves signed w v a.market a.staking a.stake_position a.user m s r.1
                        mid found by (operate-StakesMoved (deposits_vested amount) s r.1 r.0 er)
                        (Evolves-create signed w.accounts w.accounts plan (plan_account p)
                          (Evolves-refl signed w.accounts v) free
                          (schedule-PlanValid a.stake_position amount start vesting_duration
                            cliff_duration w.unix_timestamp scheduled
                            (deposit_vested-fits s amount r er))))

  pub release-Evolves :
      (a : StakeUpdate) (plan : Pubkey) (n : ℕ)
      → release E a plan signed w ≡ ok (n, w')
      → Evolves signed w.accounts w'.accounts
  unfolding release store_stakes
  release-Evolves a plan n h = on_stake_update E a signed _ w h λ m s decimals found by h1.
      on_load_plan plan _ {w = w} h1 λ p p_found h2.
        on_check (p.stake_position == a.stake_position) _ _ {w = w} h2 λ _ h3.
          on_lift (Vesting.release p w.unix_timestamp) _ {w = w} h3 λ q eq h4.
            on_lift (StakingManager.withdraw_vested s q.0) _ {w = w} h4 λ r er h5.
              let valid = v.valid plan (plan_account p) p_found in
              let freed = release-Released p w.unix_timestamp q.0 q.1 valid eq in
              let mid : Pubkey → Option Account = update w.accounts plan (plan_account q.1) in
              let payment =
                transfer_from_pda E a.base_token_mint decimals a.market a.market_base_token_ata
                  a.user_base_token_ata a.base_token_program q.0 (market_seeds a.base_token_mint)
                  m.bump in
              on_keep (if ltb 0 q.0 then payment else return tt)
                (if-KeepsAccounts (ltb 0 q.0) payment
                  (transfer_from_pda-KeepsAccounts E _ _ _ _ _ _ _ _ _))
                _ (record w { accounts = restored mid a.market a.staking a.stake_position m r.1 })
                h5
                λ _ w2 k2 h6. Evolves-at signed w.accounts (accounts_of h6 ∙ sym k2) (
                  Stakes-Evolves signed w v a.market a.staking a.stake_position a.user m s r.1 mid
                    found by (operate-StakesMoved (withdraws_vested q.0) s r.1 r.0 er)
                    (Evolves-store signed w.accounts w.accounts plan (plan_account p)
                      (plan_account q.1) (Evolves-refl signed w.accounts v) p_found
                      (plan_step p q.1 refl refl
                        (record { terms = freed.rest_kept; released = omega (arith, freed.added) }))
                      (Released-PlanValid p q.1 q.0 valid freed)))

  pub create_referral_account-Evolves :
      (config referral user referrer : Pubkey)
      → create_referral_account E config referral user signed referrer w ≡ ok (tt, w')
      → Evolves signed w.accounts w'.accounts
  unfolding create_referral_account
  create_referral_account-Evolves config referral user referrer h =
      on_load_config config _ {w = w} h λ _ _ h1. on_check (signed user) _ _ {w = w} h1 λ _ h2.
        on_check (referral == (E.find_address (referral_seeds config referrer)).0) _ _ {w = w} h2
          λ _ h3. created referral _ w w' h3 λ free e. Evolves-new referral _ v free tt e

  pub claim_referral_fees-Evolves :
      (referral mint source destination referrer token_program : Pubkey)
      → claim_referral_fees E referral mint source destination referrer token_program signed w
        ≡ ok (tt, w')
      → Evolves signed w.accounts w'.accounts
  unfolding claim_referral_fees
  claim_referral_fees-Evolves referral mint source destination referrer token_program h =
      on_load_referral referral _ {w = w} h λ r _ h1.
        on_check (r.referrer == referrer) _ _ {w = w} h1 λ _ h2.
          on_read (check_mint E mint) (check_mint-ReadOnly E mint) _ {w = w} h2 λ decimals h3.
            on_read (check_associated E _ _ _ _) (check_associated-ReadOnly E _ _ _ _) _ {w = w} h3
              λ _ h4.
                on_read (check_associated E _ _ _ _) (check_associated-ReadOnly E _ _ _ _) _ {w = w}
                  h4
                  λ _ h5. on_check (signed referrer) _ _ {w = w} h5 λ _ h6.
                    on_read (check_token_account E source) (check_token_account-ReadOnly E source) _
                      {w = w} h6
                      λ pending h7.
                        on_keep (transfer_from_pda E _ _ _ _ _ _ _ _ _)
                          (transfer_from_pda-KeepsAccounts E _ _ _ _ _ _ _ _ _) _ w h7
                          λ _ w2 k2 h8.
                            Evolves-at signed w.accounts (accounts_of h8 ∙ sym k2)
                              (Evolves-refl signed w.accounts v)
