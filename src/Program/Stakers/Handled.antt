-- ===== src/Program/Stakers/Handled.antt =====
-- programs/token-mill/src/instructions/staking and vesting: what an instruction on a stake has done to
-- the stakers.
use sol_token_mill.Base.{
  Bool-cases, List, Option, ap, false, inl, inr, refl, some, subst, sym, ◌-◌, ◌==◌, ◌∙◌, ◌≡◌, ◌≤◌,
}
use sol_token_mill.Market.{Market, Pubkey}
use sol_token_mill.Program.{
  Account, World, market_account, plan_account, position_account, staking_account, update,
}
use sol_token_mill.Program.Evolution.Stakes.{StakesFound, restored}
use sol_token_mill.Program.Runs.{same_key}
use sol_token_mill.Program.Stakers.{Entries, StakersSolvent, booked, paid, payouts, takings}
use sol_token_mill.Program.Stakers.Frame.{Untouched, Untouched-StakersSolvent}
use sol_token_mill.Program.Stakers.Moved.{restored-StakersSolvent, restored-Untouched}
use sol_token_mill.Program.Stakers.Writes.{Aside, aside-Untouched, same_log}
use sol_token_mill.Staking.{StakePosition}
use sol_token_mill.StakingManager.{Stakes}
use sol_token_mill.StakingManager.Solvency.{SolventFor}
use sol_token_mill.Vesting.{VestingPlan}

-- A plan is written where there was none, or another.
plan_apart :
    (accounts : Pubkey → Option Account) (plan k : Pubkey) (a : Account)
    → ((b : Account) → accounts plan ≡ some b → (p : VestingPlan) × (b ≡ plan_account p))
    → accounts k ≡ some a
    → ((p : VestingPlan) → a ≡ plan_account p → ⊥)
    → k == plan ≡ false
plan_apart accounts plan k a plans e differ = elim (Bool-cases (k == plan)) [
  | inl same ↦ let (p, ep) = plans a (sym (ap accounts (same_key same)) ∙ e) in absurd (differ p ep)
  | inr away ↦ away
]

module _ {L : Type 0} (w : World L) (plan : Pubkey) (p : VestingPlan)
    (plans : (b : Account)
      → w.accounts plan ≡ some b
      → (q : VestingPlan) × (b ≡ plan_account q)) where
  abbrev pub planned : World L
  planned = record w { accounts = update w.accounts plan (plan_account p) }

  pub planned-Untouched : (market : Pubkey) → Untouched market w planned
  planned-Untouched market =
      aside-Untouched w planned plan (plan_account p) refl
        (λ c e. let (q, same) = plans c e in subst Aside (sym same) tt) tt (same_log refl) market

  pub planned-StakesFound :
      (market staking position user : Pubkey) (m : Market) (s : Stakes)
      → StakesFound market staking position user w m s
      → StakesFound market staking position user planned m s
  planned-StakesFound market staking position user m s f =
      let em =
        plan_apart w.accounts plan market (market_account m) plans f.market_found
          (λ q h. absurd (cc)) in
      let es =
        plan_apart w.accounts plan staking (staking_account s.staking) plans f.staking_found
          (λ q h. absurd (cc)) in
      let ep =
        plan_apart w.accounts plan position (position_account s.position) plans f.position_found
          (λ q h. absurd (cc)) in
      record {
        market_found = rw em (f.market_found);
        staking_found = rw es (f.staking_found);
        position_found = rw ep (f.position_found);
        fees_read = f.fees_read;
        of_market = f.of_market;
        in_market = f.in_market;
        of_user = f.of_user;
      }

-- A stake instruction from `w` to `w'`: from the world `mid`, which differs from `w` in a plan at
-- most, the three accounts of a stake are written as a move that keeps the stakers of the market
-- solvent, and the tallies of other markets are as before.
pub record Handled {L : Type 0} (market staking position user : Pubkey) (w w' : World L)
    : Type 0 where
  pub mid : World L
  pub aside : (other : Pubkey) → Untouched other w mid
  pub state : Market
  pub old : Stakes
  pub new : Stakes
  pub found : StakesFound market staking position user mid state old
  pub same_staking : new.staking.market ≡ old.staking.market
  pub same_position : new.position.market ≡ old.position.market
  pub written : w'.accounts ≡ restored mid.accounts market staking position state new
  pub others_booked :
      (other : Pubkey) → other == market ≡ false → booked other w'.log ≡ booked other mid.log
  pub others_paid :
      (other : Pubkey) → other == market ≡ false → paid other w'.log ≡ paid other mid.log
  pub takings_kept : (other : Pubkey) → takings other w'.log ≡ takings other mid.log
  pub payouts_kept : (other : Pubkey) → payouts other w'.log ≡ payouts other mid.log
  pub moves :
      (others : List StakePosition)
      → paid market mid.log ≤ booked market mid.log
      → SolventFor (booked market mid.log - paid market mid.log) old others
      → (paid market w'.log ≤ booked market w'.log)
        × SolventFor (booked market w'.log - paid market w'.log) new others

-- Whatever market the instruction was on, the stakers of each market stay solvent.
pub Handled-StakersSolvent :
    {L : Type 0} {market staking position user : Pubkey} {w w' : World L} (key account : Pubkey)
    (es : Entries)
    → StakersSolvent key account es w
    → Handled market staking position user w w'
    → (es' : Entries) × StakersSolvent key account es' w'
Handled-StakersSolvent {L} {market} {staking} {position} {user} {w} {w'} key account es v h =
    let v1 = Untouched-StakersSolvent key account es v (h.aside key) in
    elim (Bool-cases (key == market)) [
      | inl here ↦
          subst (λ (k : Pubkey). (es' : Entries) × StakersSolvent k account es' w')
            (sym (same_key here))
            (restored-StakersSolvent market staking position user h.mid w' h.state h.old h.new
              h.found h.same_staking h.same_position h.written account es
              (subst (λ (k : Pubkey). StakersSolvent k account es h.mid) (same_key here) v1)
              h.moves)
      | inr away ↦ (
        es,
        Untouched-StakersSolvent key account es v1 (
            restored-Untouched market staking position user h.mid w' h.state h.old h.new h.found
              h.same_staking h.same_position h.written key away (h.others_booked key away)
              (h.others_paid key away) (h.takings_kept key) (h.payouts_kept key)),
      )
    ]
