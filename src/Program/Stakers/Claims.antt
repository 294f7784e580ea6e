-- ===== src/Program/Stakers/Claims.antt =====
-- programs/token-mill/src/instructions/staking/claim_staking_rewards.rs, vesting/release.rs.
use sol_token_mill.StakingManager
use sol_token_mill.Vesting
use sol_token_mill.Base.{
  Bool, List, ap, arith, false, if◌then◌else◌, ltb, refl, some, subst, sym, true, ℕ, ◌+◌, ◌-◌, ◌==◌,
  ◌∙◌, ◌∷◌, ◌≡◌,
}
use sol_token_mill.Errors.{ok}
use sol_token_mill.Market.{Market, Pubkey}
use sol_token_mill.Program.{Account, World, plan_account, return}
use sol_token_mill.Program.Checks.{transfer_from_pda}
use sol_token_mill.Program.Events.{Event, staking_rewards_claim, vesting_plan_release}
use sol_token_mill.Program.Evolution.Stakes.{StakesFound, on_stake_update, paid_out, restored}
use sol_token_mill.Program.External.{Runtime, market_seeds}
use sol_token_mill.Program.Payments.{if-Pays, on_pay, transfer_from_pda-Pays}
use sol_token_mill.Program.Runs.{on_check, on_lift, on_load_plan}
use sol_token_mill.Program.Stake.{
  StakeUpdate, StakingRewardsClaim, claim_staking_rewards, store_stakes,
}
use sol_token_mill.Program.Stakers.{booked, paid}
use sol_token_mill.Program.Stakers.Deposits.{operated, same_world}
use sol_token_mill.Program.Stakers.Handled.{
  Handled, planned, planned-StakesFound, planned-Untouched,
}
use sol_token_mill.Program.Stakers.Payout.{emitted_value, on_claim}
use sol_token_mill.Program.Stakers.Writes.{event-Quiet}
use sol_token_mill.Program.Vest.{release}
use sol_token_mill.StakingManager.{Stakes}
use sol_token_mill.StakingManager.Moves.{operate-StakesMoved}
use sol_token_mill.StakingManager.Operations.{deposits, withdraws_vested}
use sol_token_mill.StakingManager.Solvency.{SolventFor, operate-Solvent, paid_out-Solvent}
use sol_token_mill.Vesting.{VestingPlan}

account-injective : {a b : Account} → some a ≡ some b → a ≡ b
account-injective h = cc

-- What a claim of `rewards` adds to the tallies of its market, and of another.
claim_here :
    (market user rewards : ℕ) (before after : List Event)
    → after ≡ staking_rewards_claim market user rewards ∷ before
    → (booked market after ≡ booked market before)
      × (paid market after ≡ rewards + paid market before)
claim_here market user rewards before after e =
    let here : market == market ≡ true = ground arith in (rw e (omega arith), rw (e, here) refl)

claim_away :
    (market other user rewards : ℕ) (before after : List Event)
    → other == market ≡ false
    → after ≡ staking_rewards_claim market user rewards ∷ before
    → (booked other after ≡ booked other before) × (paid other after ≡ paid other before)
claim_away market other user rewards before after differs e =
    let away : market == other ≡ false = ground (arith, differs) in
    (rw e (omega arith), rw (e, away) (omega arith))

module _ {L : Type 0} (E : Runtime L) (signed : Pubkey → Bool) (w w' : World L) where
  pub release-Handled :
      (a : StakeUpdate) (plan : Pubkey) (n : ℕ)
      → release E a plan signed w ≡ ok (n, w')
      → Handled a.market a.staking a.stake_position a.user w w'
  unfolding release store_stakes
  release-Handled a plan n h = on_stake_update E a signed _ w h λ m s decimals found by h1.
      on_load_plan plan _ {w = w} h1 λ p p_found h2.
        on_check (p.stake_position == a.stake_position) _ _ {w = w} h2 λ _ h3.
          on_lift (Vesting.release p w.unix_timestamp) _ {w = w} h3 λ q eq h4.
            on_lift (StakingManager.withdraw_vested s q.0) _ {w = w} h4 λ r er h5.
              let plans : (b : Account)
                  → w.accounts plan ≡ some b
                  → (x : VestingPlan) × (b ≡ plan_account x) =
                λ b e. (p, account-injective (sym e ∙ p_found)) in
              let mid = planned w plan q.1 plans in
              let payment =
                transfer_from_pda E a.base_token_mint decimals a.market a.market_base_token_ata
                  a.user_base_token_ata a.base_token_program q.0 (market_seeds a.base_token_mint)
                  m.bump in
              on_pay (if ltb 0 q.0 then payment else return tt)
                (if-Pays E (ltb 0 q.0) _ payment (transfer_from_pda-Pays E _ _ _ _ _ _ _ _ _)) _
                (record w {
                  accounts = restored mid.accounts a.market a.staking a.stake_position m r.1;
                })
                h5
                λ w2 t h6.
                  let (ea, el, eg, en) =
                    emitted_value (vesting_plan_release plan q.0) q.0 w2 w' h6 in
                  operated mid m s (withdraws_vested q.0) r (planned-Untouched w plan q.1 plans)
                    (planned-StakesFound w plan q.1 plans a.market a.staking a.stake_position a.user
                      m s found)
                    er (ea ∙ sym t.accounts)
                    (event-Quiet (vesting_plan_release plan q.0)
                      (el
                        ∙ ap (λ (log : List Event). vesting_plan_release plan q.0 ∷ log)
                            (sym t.log))
                      (λ _. refl) (λ _. refl) (λ _. refl) (λ _. refl))

  -- The stake that was found, its rewards taken out.
  claimed :
      (a : StakingRewardsClaim) (m : Market) (s : Stakes) (r : ℕ × Stakes)
      → StakesFound a.market a.staking a.stake_position a.user w m s
      → StakingManager.deposit s 0 ≡ ok r
      → w'.accounts
        ≡ restored w.accounts a.market a.staking a.stake_position m
            (record (r.1) { position = record (r.1.position) { pending_rewards = 0 } })
      → w'.log ≡ staking_rewards_claim a.market a.user r.1.position.pending_rewards ∷ w.log
      → Handled a.market a.staking a.stake_position a.user w w'
  claimed a m s r found er written logged =
      let moved = paid_out 0 (operate-StakesMoved (deposits 0) s r.1 r.0 er) in
      let rewards = r.1.position.pending_rewards in
      let (booked_here, paid_here) = claim_here a.market a.user rewards w.log w'.log logged in
      record {
        mid = w;
        aside = same_world w;
        state = m;
        old = s;
        new = record (r.1) { position = record (r.1.position) { pending_rewards = 0 } };
        found = found;
        same_staking = moved.staking_market;
        same_position = moved.position_market;
        written = written;
        others_booked =
            λ other away. (claim_away a.market other a.user rewards w.log w'.log away logged).0;
        others_paid =
            λ other away. (claim_away a.market other a.user rewards w.log w'.log away logged).1;
        takings_kept = λ other. rw logged (omega arith);
        payouts_kept = λ other. rw logged (omega arith);
        moves = λ others claimed v.
            let funds = booked a.market w.log - paid a.market w.log in
            let (le, v') =
              paid_out-Solvent funds r.1 others
                (operate-Solvent funds r.0 (deposits 0) s r.1 others v er) in
            let rest : funds - rewards ≡ booked a.market w'.log - paid a.market w'.log =
              omega (arith, booked_here, paid_here) in
            (
              omega (arith, le, claimed, booked_here, paid_here),
              subst
                  (λ (x : ℕ).
                    SolventFor x
                      (record (r.1) { position = record (r.1.position) { pending_rewards = 0 } })
                      others)
                  rest v',
            );
      }

  pub claim_staking_rewards-Handled :
      (a : StakingRewardsClaim) (n : ℕ)
      → claim_staking_rewards E a signed w ≡ ok (n, w')
      → Handled a.market a.staking a.stake_position a.user w w'
  claim_staking_rewards-Handled a n h =
      on_claim E a signed w w' n h λ m s decimals r found _ _ _ _ _ er out after _ logged.
        claimed a m s r found er after
          (subst (λ (x : ℕ). w'.log ≡ staking_rewards_claim a.market a.user x ∷ w.log) out logged)
