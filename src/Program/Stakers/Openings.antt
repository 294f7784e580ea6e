-- ===== src/Program/Stakers/Openings.antt =====
-- programs/token-mill/src/instructions/staking/create_staking.rs and create_stake_position.rs: an
-- account that is new, as the stakers of a market see it.
use sol_token_mill.Base.{
  Bool, Bool-cases, Option, [], ap, arith, inl, inr, none, refl, some, sym, ◌==◌, ◌∙◌, ◌∷◌, ◌≡◌,
}
use sol_token_mill.Errors.{Result, constraint, err, ok, ok-injective}
use sol_token_mill.Market.{Pubkey}
use sol_token_mill.Program.{
  Account, World, create, market_account, position_account, staking_account, store, update,
}
use sol_token_mill.Program.Evolution.Changes.{update_away}
use sol_token_mill.Program.External.{Runtime, position_seeds, staking_seeds}
use sol_token_mill.Program.Runs.{on_check, on_load_market, same_key, update_same}
use sol_token_mill.Program.Stake.{create_stake_position, create_staking}
use sol_token_mill.Program.Stakers.{Entries, Fresh, Held, StakersSolvent}
use sol_token_mill.Program.Stakers.Frame.{Held-kept, Untouched, Untouched-StakersSolvent}
use sol_token_mill.Program.Stakers.Moved.{position-injective, staking-injective}
use sol_token_mill.Program.Stakers.Writes.{Quiet, same_log, stays, was}
use sol_token_mill.Staking.{
  MarketStaking, StakePosition, initialize_position, initialize_staking, zeroed_position,
}
use sol_token_mill.StakingManager.Accrual.{owed_to}

created_by :
    {L : Type 0} (key : Pubkey) (b : Account) (x : Option Account) (w w' : World L) {u : Unit {0}}
    → ◌≡◌ {A = Result (Unit {0} × World L)}
        (elim x [ none ↦ store key b w | some _ ↦ err constraint ])
        (ok (u, w'))
    → (x ≡ none) × (record w { accounts = update w.accounts key b } ≡ w')
created_by {L} key b none w w' h = (refl, ap (λ (p : Unit {0} × World L). p.1) (ok-injective h))
created_by key b (some _) w w' h = absurd (ground arith)

-- A creation that comes last.
pub created_world :
    {L : Type 0} (key : Pubkey) (b : Account) (w w' : World L) {u : Unit {0}}
    → create key b w ≡ ok (u, w')
    → (w.accounts key ≡ none) × (w'.accounts ≡ update w.accounts key b) × (w'.log ≡ w.log)
created_world {L} key b w w' h =
    let (free, same) = created_by key b (w.accounts key) w w' h in
    (free, sym (ap (λ (x : World L). x.accounts) same), sym (ap (λ (x : World L). x.log) same))

module _ {L : Type 0} (w w' : World L) (key : Pubkey) (b : Account) (free : w.accounts key ≡ none)
    (written : w'.accounts ≡ update w.accounts key b) where
  opened : (k : Pubkey) (a : Account) → w.accounts k ≡ some a → w'.accounts k ≡ some a
  opened k a found =
      stays w.accounts w'.accounts key k a b written (λ c e _. absurd (cc (sym free ∙ e))) found

  -- The stakers of a market to which the new account does not belong.
  pub opened-Untouched :
      (market : Pubkey)
      → ((s : MarketStaking) → b ≡ staking_account s → s.market ≡ market → ⊥)
      → ((p : StakePosition) → b ≡ position_account p → p.market ≡ market → ⊥)
      → Quiet w.log w'.log
      → Untouched market w w'
  opened-Untouched market no_staking no_position q = record {
    state_kept = λ m found. (m, opened market (market_account m) found, refl, λ _. refl);
    staking_kept = λ k s _ found. opened k (staking_account s) found;
    staking_before = λ k s in_market found.
        was w.accounts w'.accounts key k (staking_account s) b written
          (λ same. no_staking s same in_market) found;
    position_kept = λ k p _ found. opened k (position_account p) found;
    position_before = λ k p in_market found.
        was w.accounts w'.accounts key k (position_account p) b written
          (λ same. no_position p same in_market) found;
    booked_kept = q.booked_kept market;
    paid_kept = q.paid_kept market;
    takings_kept = q.takings_kept market;
    payouts_kept = q.payouts_kept market;
  }

  Fresh-free : (market : Pubkey) (es : Entries) → Held w.accounts market es → Fresh key es
  Fresh-free market [] held = tt
  Fresh-free market ((k, p) ∷ es) held = (
    elim (Bool-cases (key == k)) [
      | inl same ↦ absurd (cc (sym free ∙ ap w.accounts (same_key same) ∙ held.0))
      | inr away ↦ away
    ],
    Fresh-free market es held.3,
  )

  -- A position of the market that has no stake and no rewards joins its stakers.
  pub opened-StakersSolvent :
      (market account : Pubkey) (es : Entries) (p : StakePosition)
      → StakersSolvent market account es w
      → b ≡ position_account p
      → p.market ≡ market
      → p.amount_staked ≡ 0
      → p.total_amount_vested ≡ 0
      → p.pending_rewards ≡ 0
      → p.acc_reward_amount_per_share ≡ 0
      → w'.log ≡ w.log
      → StakersSolvent market account ((key, p) ∷ es) w'
  opened-StakersSolvent market account es p v is in_market none_staked none_vested none_pending
        none_seen same_log =
      let acc = v.stakes.acc_reward_amount_per_share in
      let nothing : owed_to acc p ≡ 0 = rw (none_staked, none_vested, none_pending) (omega arith) in
      record {
        state = v.state;
        stakes = v.stakes;
        market_found = opened market (market_account v.state) v.market_found;
        staking_found = opened account (staking_account v.stakes) v.staking_found;
        of_market = v.of_market;
        only_staking = λ k s found in_market.
            v.only_staking k s
              (was w.accounts w'.accounts key k (staking_account s) b written
                (λ same. absurd (cc (sym is ∙ same))) found)
              in_market;
        held = (
          ap (λ (f : Pubkey → Option Account). f key) written
              ∙ update_same w.accounts key b
              ∙ ap (λ (x : Account). some x) is,
          in_market,
          Fresh-free market es v.held,
          Held-kept w.accounts w'.accounts market es
              (λ k q _ _ found. opened k (position_account q) found) v.held,
        );
        complete = λ k q found q_market. elim (Bool-cases (k == key)) [
          | inl here ↦ rw here refl
          | inr away ↦
              let e =
                sym (update_away w.accounts key k b away)
                ∙ sym (ap (λ (f : Pubkey → Option Account). f k) written)
                ∙ found in
              rw away (v.complete k q e q_market)
        ];
        claimed = rw same_log (v.claimed);
        solvent = record {
          staked = omega (arith, v.solvent.staked, none_staked);
          vested = omega (arith, v.solvent.vested, none_vested);
          behind = (omega (arith, none_seen), v.solvent.behind);
          funded = rw same_log (omega (arith, v.solvent.funded, nothing));
        };
      }

-- The address of the stakes of a market.
abbrev pub staking_of : {L : Type 0} → Runtime L → Pubkey → Pubkey
staking_of E market = (E.find_address (staking_seeds market)).0

module _ {L : Type 0} (E : Runtime L) (signed : Pubkey → Bool) (w w' : World L) where
  pub create_staking-Untouched :
      (key : Pubkey) (s : MarketStaking)
      → w.accounts (staking_of E key) ≡ some (staking_account s)
      → (market staking payer : Pubkey)
      → create_staking E market staking payer signed w ≡ ok (tt, w')
      → Untouched key w w'
  unfolding create_staking initialize_staking
  create_staking-Untouched key s found market staking payer h =
      on_load_market market _ {w = w} h λ m _ h1. on_check (signed payer) _ _ {w = w} h1 λ _ h2.
        on_check (staking == (E.find_address (staking_seeds market)).0) _ _ {w = w} h2 λ at h3.
          let (free, written, log) = created_world staking _ w w' h3 in
          let other : key ≡ market → ⊥ = λ e.
            absurd
              (cc (sym free ∙ ap w.accounts (same_key at ∙ ap (staking_of E) (sym e)) ∙ found)) in
          opened-Untouched w w' staking _ free written key
            (λ t same in_market. other (
              sym in_market
              ∙ ap (λ (x : MarketStaking). x.market)
                  (staking-injective (ap (λ (x : Account). some x) (sym same)))))
            (λ p same _. absurd (cc same)) (same_log log)

  pub create_stake_position-StakersSolvent :
      (key account : Pubkey) (es : Entries)
      → StakersSolvent key account es w
      → (market position user : Pubkey)
      → create_stake_position E market position user signed w ≡ ok (tt, w')
      → (es' : Entries) × StakersSolvent key account es' w'
  unfolding create_stake_position initialize_position
  create_stake_position-StakersSolvent key account es v market position user h =
      on_load_market market _ {w = w} h λ m _ h1. on_check (signed user) _ _ {w = w} h1 λ _ h2.
        on_check (position == (E.find_address (position_seeds market user)).0) _ _ {w = w} h2
          λ at h3.
            let (free, written, log) = created_world position _ w w' h3 in
            let p : StakePosition = initialize_position zeroed_position market user in
            elim (Bool-cases (market == key)) [
              | inl same ↦ (
                (position, p) ∷ es,
                opened-StakersSolvent w w' position (position_account p) free written key account es
                    p v refl (same_key same) refl refl refl refl log,
              )
              | inr away ↦ (
                es,
                Untouched-StakersSolvent key account es v (
                    opened-Untouched w w' position (position_account p) free written key
                      (λ s same _. absurd (cc same))
                      (λ q same in_market.
                        let e : market ≡ key =
                          ap (λ (x : StakePosition). x.market)
                            (position-injective (ap (λ (x : Account). some x) same))
                          ∙ in_market in
                        absurd (ground (arith, away, e)))
                      (same_log log)),
              )
            ]
