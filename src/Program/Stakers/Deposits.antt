-- ===== src/Program/Stakers/Deposits.antt =====
-- programs/token-mill/src/instructions/staking and vesting: the instructions that move a stake.
use sol_token_mill.StakingManager
use sol_token_mill.Base.{Bool, List, ap, leb, refl, some, sym, ℕ, ◌-◌, ◌∙◌, ◌∷◌, ◌≡◌}
use sol_token_mill.Base.Int.{ℤ}
use sol_token_mill.Errors.{ok, ok-injective}
use sol_token_mill.Market.{Market, Pubkey}
use sol_token_mill.Program.{Account, World, emit, plan_account}
use sol_token_mill.Program.Checks.{transfer_from_eoa, transfer_from_pda}
use sol_token_mill.Program.Events.{
  Event, staking_deposit, staking_withdrawal, vesting_plan_creation,
}
use sol_token_mill.Program.Evolution.Stakes.{StakesFound, on_stake_update, restored}
use sol_token_mill.Program.External.{Runtime}
use sol_token_mill.Program.Payments.{on_pay, transfer_from_eoa-Pays, transfer_from_pda-Pays}
use sol_token_mill.Program.Runs.{on_check, on_create, on_lift}
use sol_token_mill.Program.Stake.{StakeUpdate, deposit, store_stakes, withdraw}
use sol_token_mill.Program.Stakers.{booked, paid}
use sol_token_mill.Program.Stakers.Frame.{Untouched, accounts-Untouched}
use sol_token_mill.Program.Stakers.Handled.{
  Handled, planned, planned-StakesFound, planned-Untouched,
}
use sol_token_mill.Program.Stakers.Writes.{Quiet, event-Quiet}
use sol_token_mill.Program.Vest.{check_schedule, create_vesting_plan}
use sol_token_mill.StakingManager.{Stakes}
use sol_token_mill.StakingManager.Moves.{operate-StakesMoved}
use sol_token_mill.StakingManager.Operations.{
  Operation, deposits, deposits_vested, operate, withdraws,
}
use sol_token_mill.StakingManager.Solvency.{operate-Solvent}
use sol_token_mill.Vesting.{VestingPlan, initialize_plan, zeroed_plan}

pub emitted :
    {L : Type 0} (e : Event) (w w' : World L) {u : Unit {0}}
    → emit e w ≡ ok (u, w')
    → (w'.accounts ≡ w.accounts) × (w'.log ≡ e ∷ w.log)
emitted {L} e w w' h =
    let done = sym (ok-injective h) in
    (
      ap (λ (p : Unit {0} × World L). p.1.accounts) done,
      ap (λ (p : Unit {0} × World L). p.1.log) done,
    )

-- An operation of the manager on the stake that was found.
pub operated :
    {L : Type 0} {market staking position user : Pubkey} {w w' : World L} (mid : World L)
    (m : Market) (s : Stakes) (op : Operation) (r : ℕ × Stakes)
    → ((other : Pubkey) → Untouched other w mid)
    → StakesFound market staking position user mid m s
    → operate op s ≡ ok r
    → w'.accounts ≡ restored mid.accounts market staking position m r.1
    → Quiet mid.log w'.log
    → Handled market staking position user w w'
operated {market = market} {w' = w'} mid m s op r aside found er written q =
    let moved = operate-StakesMoved op s r.1 r.0 er in
    record {
      mid = mid;
      aside = aside;
      state = m;
      old = s;
      new = r.1;
      found = found;
      same_staking = moved.staking_market;
      same_position = moved.position_market;
      written = written;
      others_booked = λ other _. q.booked_kept other;
      others_paid = λ other _. q.paid_kept other;
      takings_kept = q.takings_kept;
      payouts_kept = q.payouts_kept;
      moves = λ others claimed v.
          rw (q.booked_kept market, q.paid_kept market)
            (
              claimed,
              operate-Solvent (booked market mid.log - paid market mid.log) r.0 op s r.1 others v
                  er,
            );
    }

-- Nothing but the world itself.
pub same_world : {L : Type 0} (w : World L) (market : Pubkey) → Untouched market w w
same_world w market = accounts-Untouched market w w refl refl refl refl refl

module _ {L : Type 0} (E : Runtime L) (signed : Pubkey → Bool) (w w' : World L) where
  pub deposit-Handled :
      (a : StakeUpdate) (amount : ℕ)
      → deposit E a signed amount w ≡ ok (tt, w')
      → Handled a.market a.staking a.stake_position a.user w w'
  unfolding deposit store_stakes
  deposit-Handled a amount h = on_stake_update E a signed _ w h λ m s decimals found by h1.
      on_lift (StakingManager.deposit s amount) _ {w = w} h1 λ r er h2.
        on_pay (transfer_from_eoa E _ _ _ _ _ _ _) (transfer_from_eoa-Pays E _ _ _ _ _ _ _) _
          (record w { accounts = restored w.accounts a.market a.staking a.stake_position m r.1 }) h2
          λ w2 p h3.
            let (ea, el) = emitted (staking_deposit a.market a.user amount) w2 w' h3 in
            operated w m s (deposits amount) r (same_world w) found er (ea ∙ sym p.accounts) (
              event-Quiet (staking_deposit a.market a.user amount)
                (el
                  ∙ ap (λ (log : List Event). staking_deposit a.market a.user amount ∷ log)
                      (sym p.log))
                (λ _. refl) (λ _. refl) (λ _. refl) (λ _. refl))

  pub withdraw-Handled :
      (a : StakeUpdate) (amount : ℕ)
      → withdraw E a signed amount w ≡ ok (tt, w')
      → Handled a.market a.staking a.stake_position a.user w w'
  unfolding withdraw store_stakes
  withdraw-Handled a amount h = on_stake_update E a signed _ w h λ m s decimals found by h1.
      on_check (leb amount s.position.amount_staked) _ _ {w = w} h1 λ _ h2.
        on_lift (StakingManager.withdraw s amount) _ {w = w} h2 λ r er h3.
          on_pay (transfer_from_pda E _ _ _ _ _ _ _ _ _)
            (transfer_from_pda-Pays E _ _ _ _ _ _ _ _ _) _
            (record w { accounts = restored w.accounts a.market a.staking a.stake_position m r.1 })
            h3
            λ w2 p h4.
              let (ea, el) = emitted (staking_withdrawal a.market a.user amount) w2 w' h4 in
              operated w m s (withdraws amount) r (same_world w) found er (ea ∙ sym p.accounts) (
                event-Quiet (staking_withdrawal a.market a.user amount)
                  (el
                    ∙ ap (λ (log : List Event). staking_withdrawal a.market a.user amount ∷ log)
                        (sym p.log))
                  (λ _. refl) (λ _. refl) (λ _. refl) (λ _. refl))

  pub create_vesting_plan-Handled :
      (a : StakeUpdate) (plan : Pubkey) (start : ℤ) (amount : ℕ)
      (vesting_duration cliff_duration : ℤ)
      → create_vesting_plan E a plan signed start amount vesting_duration cliff_duration w
        ≡ ok (tt, w')
      → Handled a.market a.staking a.stake_position a.user w w'
  unfolding create_vesting_plan store_stakes
  create_vesting_plan-Handled a plan start amount vesting_duration cliff_duration h =
      on_stake_update E a signed _ w h λ m s decimals found by h1.
        on_check (signed plan) _ _ {w = w} h1 λ _ h2. on_create plan _ _ w h2 λ free h3.
          let p : VestingPlan =
            initialize_plan zeroed_plan a.stake_position start amount vesting_duration
              cliff_duration in
          let plans : (b : Account)
              → w.accounts plan ≡ some b
              → (q : VestingPlan) × (b ≡ plan_account q) =
            λ b e. absurd (cc (sym free ∙ e)) in
          let mid = planned w plan p plans in
          on_lift (check_schedule start vesting_duration cliff_duration w.unix_timestamp) _
            {w = mid} h3
            λ _ scheduled h4.
              on_lift (StakingManager.deposit_vested s amount) _ {w = mid} h4 λ r er h5.
                on_pay (transfer_from_eoa E _ _ _ _ _ _ _) (transfer_from_eoa-Pays E _ _ _ _ _ _ _)
                  _
                  (record w {
                    accounts = restored mid.accounts a.market a.staking a.stake_position m r.1;
                  })
                  h5
                  λ w2 t h6.
                    let (ea, el) =
                      emitted
                        (vesting_plan_creation a.market a.user plan amount start vesting_duration
                          cliff_duration)
                        w2 w' h6 in
                    operated mid m s (deposits_vested amount) r (planned-Untouched w plan p plans)
                      (planned-StakesFound w plan p plans a.market a.staking a.stake_position a.user
                        m s found)
                      er (ea ∙ sym t.accounts)
                      (event-Quiet
                        (vesting_plan_creation a.market a.user plan amount start vesting_duration
                          cliff_duration)
                        (el
                          ∙ ap
                              (λ (log : List Event).
                                vesting_plan_creation a.market a.user plan amount start
                                  vesting_duration cliff_duration
                                ∷ log)
                              (sym t.log))
                        (λ _. refl) (λ _. refl) (λ _. refl) (λ _. refl))
