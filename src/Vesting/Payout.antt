-- ===== src/Vesting/Payout.antt =====
-- programs/token-mill/src/state/vesting.rs: what the releases of a plan pay in all.
use sol_token_mill.Base.{ap, arith, inr, refl, ℕ, ◌+◌, ◌-◌, ◌<◌, ◌^◌, ◌∙◌, ◌≡◌, ◌≤◌}
use sol_token_mill.Base.Int.{pos, ℤ}
use sol_token_mill.Errors.{ok}
use sol_token_mill.Vesting.{VestingPlan, release}
use sol_token_mill.Vesting.Schedule.{PlanValid, free_after, release-Released, release_exact}

-- A plan that differs in the released amount only, with the same times.
pub later_plan :
    (first p : VestingPlan)
    → PlanValid first
    → p ≡ record first { amount_released = p.amount_released }
    → p.amount_released ≤ p.amount_vested
    → PlanValid p
later_plan first p v same le = record {
  start = v.start;
  cliff = v.cliff;
  duration = v.duration;
  start_eq = ap (λ (x : VestingPlan). x.start) same ∙ v.start_eq;
  cliff_eq = ap (λ (x : VestingPlan). x.cliff_duration) same ∙ v.cliff_eq;
  duration_eq = ap (λ (x : VestingPlan). x.vesting_duration) same ∙ v.duration_eq;
  cliff_pos = v.cliff_pos;
  cliff_lt = v.cliff_lt;
  duration_fits = v.duration_fits;
  released_le = le;
  vested_fits = rw (ap (λ (x : VestingPlan). x.amount_vested) same) (v.vested_fits);
}

-- The releases of a plan that have succeeded, at any times, with what they have paid in all.
pub data Payouts (first : VestingPlan) : ℕ → VestingPlan → Type 0 where
  no_payout : Payouts first 0 first
  payout :
      {total n : ℕ} {p p' : VestingPlan} (now : ℤ)
      → Payouts first total p
      → release p now ≡ ok (n, p')
      → Payouts first (total + n) p'

-- A plan in the middle of its releases.
record Underway (first : VestingPlan) (total : ℕ) (p : VestingPlan) : Type 0 where
  pub released : p.amount_released ≡ first.amount_released + total
  pub released_le : p.amount_released ≤ p.amount_vested
  pub rest_kept : p ≡ record first { amount_released = p.amount_released }

Payouts-Underway :
    (first : VestingPlan) {total : ℕ} {p : VestingPlan}
    → PlanValid first
    → Payouts first total p
    → Underway first total p
Payouts-Underway first v no_payout = record {
  released = omega arith;
  released_le = v.released_le;
  rest_kept = refl;
}
Payouts-Underway first v (payout {total} {n} {p} {p'} now past h) =
    let u = Payouts-Underway first v past in
    let r = release-Released p now n p' (later_plan first p v u.rest_kept u.released_le) h in
    record {
      released = omega (arith, u.released, r.added);
      released_le = rw (ap (λ (x : VestingPlan). x.amount_vested) r.rest_kept) (r.bounded);
      rest_kept =
          r.rest_kept
          ∙ ap (λ (x : VestingPlan). record x { amount_released = p'.amount_released }) u.rest_kept;
    }

-- From a valid plan of which nothing has been released, whatever releases have succeeded at whatever
-- times: at any time from the end of the plan on (within `i64`), a release succeeds, and pays all that
-- the others have left, so that the whole amount is released.
pub release_rest :
    (first : VestingPlan) (v : PlanValid first) {total : ℕ} {p : VestingPlan} (elapsed : ℕ)
    → first.amount_released ≡ 0
    → Payouts first total p
    → v.duration ≤ elapsed
    → v.start + elapsed < 2 ^ 63
    → (release p (pos (v.start + elapsed))
        ≡ ok (first.amount_vested - total, record first { amount_released = first.amount_vested }))
      × (total ≤ first.amount_vested)
unfolding later_plan
release_rest first v {total} {p} elapsed fresh past late fits =
    let u = Payouts-Underway first v past in
    let valid = later_plan first p v u.rest_kept u.released_le in
    let vested : p.amount_vested ≡ first.amount_vested =
      ap (λ (x : VestingPlan). x.amount_vested) u.rest_kept in
    let ended : free_after p.amount_vested v.cliff v.duration elapsed ≡ p.amount_vested =
      ground (arith, v.cliff_lt) in
    let e = release_exact p valid elapsed fits (inr late) (rw ended (u.released_le)) in
    let amount : p.amount_vested - p.amount_released ≡ first.amount_vested - total =
      omega (arith, u.released, fresh, vested) in
    let whole : record p { amount_released = p.amount_vested }
        ≡ record first { amount_released = first.amount_vested } =
      ap (λ (x : VestingPlan). record x { amount_released = x.amount_vested }) u.rest_kept in
    (rw (ended, amount, whole) at e, omega (arith, u.released, fresh, u.released_le, vested))
