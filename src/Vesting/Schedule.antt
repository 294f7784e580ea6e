-- ===== src/Vesting/Schedule.antt =====
-- programs/token-mill/src/state/vesting.rs: `release` against the linear schedule of a plan.
use native.Mathlib.Nat.{mul-le-mul_left}
use sol_token_mill.Word.U64
use sol_token_mill.Word.I64
use sol_token_mill.Base.{
  Bool-cases, arith, false, if◌then◌else◌, inl, inr, ltb, not, refl, subst, true, ℕ, ◌*◌, ◌+◌, ◌-◌,
  ◌/◌, ◌<◌, ◌^◌, ◌≡◌, ◌≤◌, ◌⊎◌,
}
use sol_token_mill.Base.Arith.{div-le_of_le-mul, div_mono}
use sol_token_mill.Base.Int.{ltb_ℤ, negsuc, pos, ℤ, ◌-ℤ◌}
use sol_token_mill.Errors.{err, ok, ok-injective, on_ok, panic, ◌>>=◌}
use sol_token_mill.Vesting.{VestingPlan, amount_free, release, release_up_to}

-- A plan as `create_vesting_plan` makes it: a start after time 0, a cliff before the end, and amounts
-- in `u64`.
pub record PlanValid (p : VestingPlan) : Type 0 where
  pub start : ℕ
  pub cliff : ℕ
  pub duration : ℕ
  pub start_eq : p.start ≡ pos start
  pub cliff_eq : p.cliff_duration ≡ pos cliff
  pub duration_eq : p.vesting_duration ≡ pos duration
  pub cliff_pos : 0 < cliff
  pub cliff_lt : cliff < duration
  pub duration_fits : duration < 2 ^ 63
  pub released_le : p.amount_released ≤ p.amount_vested
  pub vested_fits : p.amount_vested < U64.lim

-- What is free after `elapsed` seconds: nothing before the cliff, all from the end on, and in between
-- the elapsed part of the duration, rounded down.
abbrev pub free_after : (vested cliff duration elapsed : ℕ) → ℕ
free_after vested cliff duration elapsed =
    if ltb elapsed cliff
    then 0
    else if ltb elapsed duration
    then vested * elapsed / duration
    else vested

-- Before the end at most the whole amount is free.
linear-le :
    (vested duration elapsed : ℕ) → elapsed < duration → vested * elapsed / duration ≤ vested
linear-le vested duration elapsed h =
    div-le_of_le-mul vested (vested * elapsed) duration (omega arith)
      (mul-le-mul_left {m = elapsed} {n = duration} vested (omega arith))

pub free_after-le :
    (vested cliff duration elapsed : ℕ) → free_after vested cliff duration elapsed ≤ vested
free_after-le vested cliff duration elapsed = ground (arith, linear-le vested duration elapsed)

pub free_after_mono :
    (vested cliff duration e e' : ℕ)
    → cliff < duration
    → e ≤ e'
    → free_after vested cliff duration e ≤ free_after vested cliff duration e'
free_after_mono vested cliff duration e e' h le = ground (
  arith,
  linear-le vested duration e,
  linear-le vested duration e',
  div_mono (vested * e) (vested * e') duration (omega arith)
      (mul-le-mul_left {m = e} {n = e'} vested le),
)

elapsed_exact :
    (p : VestingPlan) (v : PlanValid p) (elapsed : ℕ)
    → v.start + elapsed < 2 ^ 63
    → I64.sub (pos (v.start + elapsed)) p.start ≡ ok (pos elapsed)
unfolding ◌-ℤ◌ I64.in_bounds
elapsed_exact p v elapsed h = rw (v.start_eq) (ground arith)

amount_free_exact :
    (p : VestingPlan) (v : PlanValid p) (elapsed : ℕ)
    → p.amount_vested * elapsed < U64.lim
    → amount_free p (pos elapsed) ≡ ok (p.amount_vested * elapsed / v.duration)
unfolding amount_free
amount_free_exact p v elapsed h = rw (v.duration_eq) (ground (arith, v.cliff_pos, v.cliff_lt))

-- For a valid plan, at `elapsed` seconds after the start (within `i64`), `release` brings the plan exactly to what is then free, as
-- long as the product of the amount and the elapsed time fits in `u64` (or the plan has ended), and
-- no more than that was released before. So what a user has got by then does not depend on when he
-- called it before.
pub release_exact :
    (p : VestingPlan) (v : PlanValid p) (elapsed : ℕ)
    → v.start + elapsed < 2 ^ 63
    → (p.amount_vested * elapsed < U64.lim) ⊎ (v.duration ≤ elapsed)
    → p.amount_released ≤ free_after p.amount_vested v.cliff v.duration elapsed
    → let free = free_after p.amount_vested v.cliff v.duration elapsed in
      release p (pos (v.start + elapsed))
      ≡ ok (free - p.amount_released, record p { amount_released = free })
unfolding release
release_exact p v elapsed now fits before =
    rw (elapsed_exact p v elapsed now, v.cliff_eq, v.duration_eq)
      (ground (
        arith,
        amount_free_exact p v elapsed,
        linear-le p.amount_vested v.duration elapsed,
        v.vested_fits,
        v.released_le,
        v.cliff_lt,
      ))

-- The product of the amount and the elapsed time is computed in `u64`: for a valid plan, between the cliff and the end,
-- whenever it does not fit, `release` panics, so nothing is released at that time.
pub release_overflow :
    (p : VestingPlan) (v : PlanValid p) (elapsed : ℕ)
    → v.start + elapsed < 2 ^ 63
    → v.cliff ≤ elapsed
    → elapsed < v.duration
    → U64.lim ≤ p.amount_vested * elapsed
    → release p (pos (v.start + elapsed)) ≡ err panic
unfolding release amount_free
release_overflow p v elapsed now after before big =
    rw (elapsed_exact p v elapsed now, v.cliff_eq, v.duration_eq) (ground arith)

-- What a call of `release` has done to the plan.
pub record Released (p : VestingPlan) (n : ℕ) (p' : VestingPlan) : Type 0 where
  pub added : p'.amount_released ≡ p.amount_released + n
  pub bounded : p'.amount_released ≤ p.amount_vested
  pub rest_kept : p' ≡ record p { amount_released = p'.amount_released }

within_plan :
    (p : VestingPlan) (v : PlanValid p) (elapsed : ℤ) {free : ℕ}
    → ltb_ℤ elapsed p.cliff_duration ≡ false
    → ltb_ℤ elapsed p.vesting_duration ≡ true
    → amount_free p elapsed ≡ ok free
    → free ≤ p.amount_vested
unfolding amount_free
within_plan p v (pos elapsed) h1 h2 h =
    let h' = rw (v.duration_eq) at h in
    ground (arith, v.duration_eq, linear-le p.amount_vested v.duration elapsed)
within_plan p v (negsuc n) h1 h2 h = absurd (ground (arith, v.cliff_eq, v.cliff_pos))

up_to-Released :
    (p : VestingPlan) (free n : ℕ) (p' : VestingPlan)
    → free ≤ p.amount_vested
    → release_up_to p free ≡ ok (n, p')
    → Released p n p'
up_to-Released p free n p' le h = record {
  added = ground arith;
  bounded = ground arith;
  rest_kept = ground arith;
}

release-Released_late :
    (p : VestingPlan) (n : ℕ) (p' : VestingPlan) (elapsed : ℤ)
    → PlanValid p
    → ltb_ℤ elapsed p.cliff_duration ≡ false
    → (if not (ltb_ℤ elapsed p.vesting_duration)
        then release_up_to p p.amount_vested
        else (amount_free p elapsed >>= λ free. release_up_to p free))
      ≡ ok (n, p')
    → Released p n p'
release-Released_late p n p' elapsed v late h =
    elim (Bool-cases (ltb_ℤ elapsed p.vesting_duration)) [
      | inl before ↦
          on_ok (amount_free p elapsed) (rw before at h)
            λ free ef h1. up_to-Released p free n p' (within_plan p v elapsed late before ef) h1
      | inr ended ↦ up_to-Released p p.amount_vested n p' (omega arith) (rw ended at h)
    ]

-- At any time, a successful `release` of a valid plan adds what it returns to the released amount, never releases more
-- than the plan holds, and changes nothing else of it.
pub release-Released :
    (p : VestingPlan) (now : ℤ) (n : ℕ) (p' : VestingPlan)
    → PlanValid p
    → release p now ≡ ok (n, p')
    → Released p n p'
unfolding release
release-Released p now n p' v h = on_ok (I64.sub now p.start) h λ elapsed _ h1.
    elim (Bool-cases (ltb_ℤ elapsed p.cliff_duration)) [
      | inl early ↦
          let e : (0, p) ≡ (n, p') = ok-injective (rw early at h1) in
          subst (λ (r : ℕ × VestingPlan). Released p r.0 r.1) e
            (record { added = omega arith; bounded = v.released_le; rest_kept = refl })
      | inr late ↦ release-Released_late p n p' elapsed v late (rw late at h1)
    ]
