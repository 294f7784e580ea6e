-- ===== src/Vesting.antt =====
-- programs/token-mill/src/state/vesting.rs: a vesting plan and what it releases.
pub mod Schedule
pub mod Payout
use sol_token_mill.Word
use sol_token_mill.Word.U64
use sol_token_mill.Word.I64
use sol_token_mill.Base.{if◌then◌else◌, not, ℕ}
use sol_token_mill.Base.Int.{ltb_ℤ, pos, ℤ}
use sol_token_mill.Errors.{Result, ok, ◌>>=◌}
use sol_token_mill.Market.{Pubkey}

pub record VestingPlan : Type 0 where
  pub stake_position : Pubkey
  pub amount_vested : ℕ
  pub amount_released : ℕ
  pub start : ℤ
  pub cliff_duration : ℤ
  pub vesting_duration : ℤ

abbrev pub zeroed_plan : VestingPlan
zeroed_plan = record {
  stake_position = 0;
  amount_vested = 0;
  amount_released = 0;
  start = pos 0;
  cliff_duration = pos 0;
  vesting_duration = pos 0;
}

-- `VestingPlan::initialize`.
unfoldable pub initialize_plan : VestingPlan → Pubkey → ℤ → ℕ → ℤ → ℤ → VestingPlan
initialize_plan p stake_position start amount_vested vesting_duration cliff_duration = record p {
  stake_position = stake_position;
  start = start;
  amount_vested = amount_vested;
  vesting_duration = vesting_duration;
  cliff_duration = cliff_duration;
}

-- `self.amount_released += amount_to_release`, where `amount_free` tokens are free.
abbrev pub release_up_to : VestingPlan → ℕ → Result (ℕ × VestingPlan)
release_up_to p amount_free = do
  amount_to_release ← Word.sub amount_free p.amount_released
  released ← U64.add p.amount_released amount_to_release
  ok (amount_to_release, record p { amount_released = released })

-- `amount_free` between the cliff and the end.
unfoldable pub amount_free : VestingPlan → ℤ → Result ℕ
amount_free p elapsed_time = do
  product ← U64.mul p.amount_vested (I64.as_u64 elapsed_time)
  Word.div product (I64.as_u64 p.vesting_duration)

-- The amount that is released, and the plan after it.
unfoldable pub release : VestingPlan → ℤ → Result (ℕ × VestingPlan)
release p current_time = do
  elapsed_time ← I64.sub current_time p.start
  if ltb_ℤ elapsed_time p.cliff_duration
      then ok (0, p)
      else if not (ltb_ℤ elapsed_time p.vesting_duration)
      then release_up_to p p.amount_vested
      else (do free ← amount_free p elapsed_time; release_up_to p free)
