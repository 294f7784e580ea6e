-- ===== src/Program/Evolution/Stakes.antt =====
-- programs/token-mill/src/instructions/staking: what the instructions on stakes do to the accounts.
use sol_token_mill.Base.{
  Bool, Option, ap, arith, inl, refl, some, subst, sym, true, ℕ, ◌==◌, ◌∙◌, ◌≡◌,
}
use sol_token_mill.Errors.{ok, ok-injective}
use sol_token_mill.Market.{Market, MarketFees, Pubkey}
use sol_token_mill.Program.{
  Account, Instruction, World, market_account, position_account, staking_account, update, ◌>>=◌,
}
use sol_token_mill.Program.Checks.{check_associated, check_mint}
use sol_token_mill.Program.Evolution.{
  AccountsValid, Evolves, MarketStep, MarketValid, market_step, position_step, staking_step,
}
use sol_token_mill.Program.Evolution.Changes.{Evolves-store}
use sol_token_mill.Program.Evolution.Markets.{curves_kept}
use sol_token_mill.Program.External.{Runtime}
use sol_token_mill.Program.Frames.{check_associated-ReadOnly, check_mint-ReadOnly}
use sol_token_mill.Program.Runs.{
  on_check, on_load_market, on_load_position, on_load_staking, on_step, same_key,
}
use sol_token_mill.Program.Runs.Keeps.{on_read}
use sol_token_mill.Program.Stake.{StakeUpdate, load_stakes, stake_update}
use sol_token_mill.Program.Trade.Safety.{Tradable-fees}
use sol_token_mill.StakingManager.{Stakes}
use sol_token_mill.StakingManager.Moves.{StakesMoved}

-- The accounts that the checks of a stake instruction have found, `w` as they are.
pub record StakesFound {L : Type 0} (market staking position user : Pubkey) (world : World L)
    (m : Market) (w : Stakes) : Type 0 where
  pub market_found : world.accounts market ≡ some (market_account m)
  pub staking_found : world.accounts staking ≡ some (staking_account w.staking)
  pub position_found : world.accounts position ≡ some (position_account w.position)
  pub fees_read : w.fees ≡ m.fees
  pub of_market : w.staking.market ≡ market
  pub in_market : w.position.market ≡ market
  pub of_user : w.position.user ≡ user

pub on_load_stakes {ℓ} :
    {L B : Type 0} {P : Type ℓ} {r : B × World L} (market staking position user : Pubkey)
    (f : Market × Stakes → Instruction L B) (w : World L)
    → (load_stakes market staking position user >>= f) w ≡ ok r
    → ((m : Market) (s : Stakes)
        → StakesFound market staking position user w m s
        → f (m, s) w ≡ ok r
        → P)
    → P
unfolding load_stakes
on_load_stakes {r = r} market staking position user f w h k =
    on_step (load_stakes market staking position user) {f = f} {w = w} h λ x w1 e h1.
      on_load_market market _ {w = w} e λ m m_found e1.
        on_load_staking staking _ {w = w} e1 λ s s_found e2.
          on_check (s.market == market) _ _ {w = w} e2 λ s_market e3.
            on_load_position position _ {w = w} e3 λ p p_found e4.
              on_check (p.market == market) _ _ {w = w} e4 λ p_market e5.
                on_check (p.user == user) _ _ {w = w} e5 λ p_user e6.
                  k m (record { fees = m.fees; staking = s; position = p })
                    (record {
                      market_found = m_found;
                      staking_found = s_found;
                      position_found = p_found;
                      fees_read = refl;
                      of_market = same_key s_market;
                      in_market = same_key p_market;
                      of_user = same_key p_user;
                    })
                    (subst (λ (q : (Market × Stakes) × World _). f q.0 q.1 ≡ ok r)
                      (sym (ok-injective e6)) h1)

pub on_stake_update {ℓ} :
    {L B : Type 0} {P : Type ℓ} {r : B × World L} (E : Runtime L) (a : StakeUpdate)
    (signed : Pubkey → Bool) (f : Market × Stakes × ℕ → Instruction L B) (w : World L)
    → (stake_update E a signed >>= f) w ≡ ok r
    → ((m : Market) (s : Stakes) (decimals : ℕ)
        → StakesFound a.market a.staking a.stake_position a.user w m s
        → signed a.user ≡ true
        → f (m, s, decimals) w ≡ ok r
        → P)
    → P
unfolding stake_update
on_stake_update {r = r} E a signed f w h k =
    on_step (stake_update E a signed) {f = f} {w = w} h λ x w1 e h1.
      on_load_stakes a.market a.staking a.stake_position a.user _ w e λ m s found e1.
        on_check (m.base_token_mint == a.base_token_mint) _ _ {w = w} e1 λ _ e2.
          on_read (check_mint E a.base_token_mint) (check_mint-ReadOnly E _) _ {w = w} e2
            λ decimals e3.
              on_read (check_associated E _ _ _ _) (check_associated-ReadOnly E _ _ _ _) _ {w = w}
                e3
                λ _ e4.
                  on_read (check_associated E _ _ _ _) (check_associated-ReadOnly E _ _ _ _) _
                    {w = w} e4
                    λ _ e5. on_check (signed a.user) _ _ {w = w} e5 λ by e6.
                      k m s decimals found by (
                        subst (λ (q : (Market × Stakes × ℕ) × World _). f q.0 q.1 ≡ ok r)
                          (sym (ok-injective e6)) h1)

-- The accounts after the three of a stake are written.
abbrev pub restored :
    (Pubkey → Option Account)
    → (market staking position : Pubkey) → Market
    → Stakes
    → Pubkey
    → Option Account
restored accounts market staking position m w =
    update
      (update (update accounts market (market_account (record m { fees = w.fees }))) staking
        (staking_account w.staking))
      position (position_account w.position)

-- A position that is emptied of its rewards has moved no further.
pub paid_out :
    {w w' : Stakes} (n : ℕ)
    → StakesMoved w w'
    → StakesMoved w (record w' { position = record (w'.position) { pending_rewards = n } })
paid_out n m = record {
  creator_share = m.creator_share;
  staking_share = m.staking_share;
  creator_pending = m.creator_pending;
  staking_market = m.staking_market;
  accumulated = m.accumulated;
  position_market = m.position_market;
  user = m.user;
}

module _ {L : Type 0} (signed : Pubkey → Bool) (w : World L) (v : AccountsValid w.accounts) where
  market_moves :
      (m : Market) (s s' : Stakes)
      → s.fees ≡ m.fees
      → StakesMoved s s'
      → MarketValid m
      → MarketStep signed m (record m { fees = s'.fees })
        × MarketValid (record m { fees = s'.fees })
  market_moves m s s' read moved vm =
      let ec : s'.fees.creator_fee_share ≡ m.fees.creator_fee_share =
        moved.creator_share ∙ ap (λ (x : MarketFees). x.creator_fee_share) read in
      let es : s'.fees.staking_fee_share ≡ m.fees.staking_fee_share =
        moved.staking_share ∙ ap (λ (x : MarketFees). x.staking_fee_share) read in
      (
        record {
          identity_kept = refl;
          prices = inl (refl, refl);
          by = inl (record {
            creator = refl;
            bid_prices = refl;
            ask_prices = refl;
            creator_share = ec;
            staking_share = es;
          });
          sum_kept = omega arith;
        },
        record {
          tradable = Tradable-fees m s'.fees vm.tradable;
          shares = record { shares_fit = omega (arith, vm.shares.shares_fit) };
          curves = curves_kept m (record m { fees = s'.fees }) refl refl vm.curves;
        },
      )

  pub Stakes-Evolves :
      (market staking position user : Pubkey) (m : Market) (s s' : Stakes)
      (mid : Pubkey → Option Account)
      → StakesFound market staking position user w m s
      → signed user ≡ true
      → StakesMoved s s'
      → Evolves signed w.accounts mid
      → Evolves signed w.accounts (restored mid market staking position m s')
  Stakes-Evolves market staking position user m s s' mid f by moved e =
      let (step, valid) =
        market_moves m s s' f.fees_read moved (v.valid market (market_account m) f.market_found) in
      let m' : Market = record m { fees = s'.fees } in
      Evolves-store signed w.accounts _ position (position_account s.position)
        (position_account s'.position)
        (Evolves-store signed w.accounts _ staking (staking_account s.staking)
          (staking_account s'.staking)
          (Evolves-store signed w.accounts mid market (market_account m) (market_account m') e
            f.market_found (market_step m m' refl refl step) valid)
          f.staking_found
          (staking_step s.staking s'.staking refl refl
            (record { market = moved.staking_market; accumulated = moved.accumulated }))
          tt)
        f.position_found
        (position_step s.position s'.position refl refl (record {
          market = moved.position_market;
          user = moved.user;
          by = ap signed f.of_user ∙ by;
        }))
        tt
