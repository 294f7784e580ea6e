-- ===== src/StakingManager/Operations.antt =====
-- programs/token-mill/src/manager/staking_manager.rs: the shape that the four operations share. Each
-- accrues the rewards and then moves the stakes of the market and of the position.
use sol_token_mill.Word
use sol_token_mill.Word.U64
use sol_token_mill.Base.{ap, arith, ℕ, ◌+◌, ◌∙◌, ◌≡◌}
use sol_token_mill.Errors.{Result, ok, ok-injective, on_ok}
use sol_token_mill.StakingManager.{
  Stakes, accrue_rewards, deposit, deposit_vested, withdraw, withdraw_vested,
}

-- The four operations of the manager, with the position of the caller brought forward.
pub data Operation : Type 0 where
  deposits withdraws deposits_vested withdraws_vested : ℕ → Operation

abbrev pub operate : Operation → Stakes → Result (ℕ × Stakes)
operate (deposits n) w = deposit w n
operate (withdraws n) w = withdraw w n
operate (deposits_vested n) w = deposit_vested w n
operate (withdraws_vested n) w = withdraw_vested w n

-- Other stakes of a market and of the position.
abbrev pub restaked : Stakes → (staked vested own_staked own_vested : ℕ) → Stakes
restaked w staked vested own_staked own_vested = record w {
  staking = record (w.staking) { amount_staked = staked; total_amount_vested = vested };
  position = record (w.position) { amount_staked = own_staked; total_amount_vested = own_vested };
}

-- An operation from `w` to `w'` by the accrual of rewards to `accrued`: the stakes of the market and of
-- the position have moved by the same.
pub record Operated (n : ℕ) (w w' : Stakes) : Type 0 where
  pub accrued : Stakes
  pub staked : ℕ
  pub vested : ℕ
  pub own_staked : ℕ
  pub own_vested : ℕ
  pub accrual : accrue_rewards w ≡ ok (n, accrued)
  pub same_staked :
      staked + accrued.position.amount_staked ≡ own_staked + accrued.staking.amount_staked
  pub same_vested :
      vested + accrued.position.total_amount_vested
      ≡ own_vested + accrued.staking.total_amount_vested
  pub after : restaked accrued staked vested own_staked own_vested ≡ w'

restaked-Operated :
    (w w' : Stakes) (n : ℕ) (r : ℕ × Stakes) (staked vested own_staked own_vested : ℕ)
    → accrue_rewards w ≡ ok r
    → staked + r.1.position.amount_staked ≡ own_staked + r.1.staking.amount_staked
    → vested + r.1.position.total_amount_vested ≡ own_vested + r.1.staking.total_amount_vested
    → ◌≡◌ {A = ℕ × Stakes} (r.0, restaked r.1 staked vested own_staked own_vested) (n, w')
    → Operated n w w'
restaked-Operated w w' n r staked vested own_staked own_vested er hs hv e = record {
  accrued = r.1;
  staked = staked;
  vested = vested;
  own_staked = own_staked;
  own_vested = own_vested;
  accrual = er ∙ ap (λ (k : ℕ × Stakes). ok (k.0, r.1)) e;
  same_staked = hs;
  same_vested = hv;
  after = ap (λ (k : ℕ × Stakes). k.1) e;
}

pub operate-Operated :
    (op : Operation) (w w' : Stakes) (n : ℕ) → operate op w ≡ ok (n, w') → Operated n w w'
unfolding deposit withdraw deposit_vested withdraw_vested
operate-Operated (deposits amount) w w' n h = on_ok (accrue_rewards w) h λ r er h1.
    on_ok (U64.add r.1.staking.amount_staked amount) h1 λ total _ h2.
      on_ok (U64.add r.1.position.amount_staked amount) h2 λ own _ h3.
        restaked-Operated w w' n r total r.1.staking.total_amount_vested own
          r.1.position.total_amount_vested er (ground arith) (omega arith) (ok-injective h3)
operate-Operated (withdraws amount) w w' n h = on_ok (accrue_rewards w) h λ r er h1.
    on_ok (Word.sub r.1.staking.amount_staked amount) h1 λ total _ h2.
      on_ok (Word.sub r.1.position.amount_staked amount) h2 λ own _ h3.
        restaked-Operated w w' n r total r.1.staking.total_amount_vested own
          r.1.position.total_amount_vested er (ground arith) (omega arith) (ok-injective h3)
operate-Operated (deposits_vested amount) w w' n h = on_ok (accrue_rewards w) h λ r er h1.
    on_ok (U64.add r.1.staking.total_amount_vested amount) h1 λ total _ h2.
      on_ok (U64.add r.1.position.total_amount_vested amount) h2 λ own _ h3.
        restaked-Operated w w' n r r.1.staking.amount_staked total r.1.position.amount_staked own er
          (omega arith) (ground arith) (ok-injective h3)
operate-Operated (withdraws_vested amount) w w' n h = on_ok (accrue_rewards w) h λ r er h1.
    on_ok (Word.sub r.1.staking.total_amount_vested amount) h1 λ total _ h2.
      on_ok (Word.sub r.1.position.total_amount_vested amount) h2 λ own _ h3.
        restaked-Operated w w' n r r.1.staking.amount_staked total r.1.position.amount_staked own er
          (omega arith) (ground arith) (ok-injective h3)
