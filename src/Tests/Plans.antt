-- ===== src/Tests/Plans.antt =====
-- Runs of a vesting plan.
use sol_token_mill.Base.{arith, inl, refl, ◌≡◌, ◌≤◌}
use sol_token_mill.Word.I64
use sol_token_mill.Base.Int.{pos, ◌-ℤ◌}
use sol_token_mill.Errors.{err, ok, panic}
use sol_token_mill.Vesting.{VestingPlan, amount_free, release}
use sol_token_mill.Vesting.Payout.{no_payout, payout, release_rest}
use sol_token_mill.Vesting.Schedule.{
  PlanValid, Released, release-Released, release_exact, release_overflow,
}

abbrev plan : VestingPlan
plan = record {
  stake_position = 7;
  amount_vested = 1_000_000;
  amount_released = 0;
  start = pos 1_700_000_000;
  cliff_duration = pos 100;
  vesting_duration = pos 1_000;
}

plan-PlanValid : PlanValid plan
plan-PlanValid = record {
  start = 1_700_000_000;
  cliff = 100;
  duration = 1_000;
  start_eq = refl;
  cliff_eq = refl;
  duration_eq = refl;
  cliff_pos = omega arith;
  cliff_lt = omega arith;
  duration_fits = omega arith;
  released_le = omega arith;
  vested_fits = omega arith;
}

release_exact_example :
    release plan (pos 1_700_000_500) ≡ ok (500_000, record plan { amount_released = 500_000 })
unfolding plan-PlanValid
release_exact_example =
    release_exact plan plan-PlanValid 500 (omega arith) (inl (omega arith)) (omega arith)

half_run :
    release plan (pos 1_700_000_500) ≡ ok (500_000, record plan { amount_released = 500_000 })
unfolding release amount_free I64.in_bounds ◌-ℤ◌
half_run = refl

release-Released_example : Released plan 500_000 (record plan { amount_released = 500_000 })
release-Released_example =
    release-Released plan (pos 1_700_000_500) 500_000 (record plan { amount_released = 500_000 })
      plan-PlanValid half_run

-- Half of it is released at half the time, the rest a year later.
release_rest_example :
    (release (record plan { amount_released = 500_000 }) (pos 1_731_536_000)
      ≡ ok (500_000, record plan { amount_released = 1_000_000 }))
    × (500_000 ≤ 1_000_000)
unfolding plan-PlanValid
release_rest_example =
    release_rest plan plan-PlanValid 31_536_000 refl (payout (pos 1_700_000_500) no_payout half_run)
      (omega arith) (omega arith)

-- A tenth of a supply of 10^15, vested over a year.
abbrev large_plan : VestingPlan
large_plan = record plan { amount_vested = 100_000_000_000_000; vesting_duration = pos 31_536_000 }

large_plan-PlanValid : PlanValid large_plan
large_plan-PlanValid = record {
  start = 1_700_000_000;
  cliff = 100;
  duration = 31_536_000;
  start_eq = refl;
  cliff_eq = refl;
  duration_eq = refl;
  cliff_pos = omega arith;
  cliff_lt = omega arith;
  duration_fits = omega arith;
  released_le = omega arith;
  vested_fits = omega arith;
}

-- After three days nothing can be released any more, for the rest of the year.
release_overflow_example : release large_plan (pos 1_700_259_200) ≡ err panic
unfolding large_plan-PlanValid
release_overflow_example =
    release_overflow large_plan large_plan-PlanValid 259_200 (omega arith) (omega arith)
      (omega arith) (omega arith)
