-- ===== src/Program/Evolution/Creation.antt =====
-- programs/token-mill/src/instructions/create_market.rs and create_market_with_spl.rs: what the creation of a
-- market does to the accounts.
use sol_token_mill.Word
use mathlib.Core.Path.{fun_ext}
use sol_token_mill.Base.{
  Bool, Bool-cases, Option, ap, arith, inl, inr, ltb, none, refl, some, subst, sym, ℕ, ◌&&◌, ◌+◌,
  ◌==◌, ◌∙◌, ◌≡◌, ◌≤◌,
}
use sol_token_mill.Config.{TokenMillConfig}
use sol_token_mill.Constant.{max_bps, mill_token_decimals}
use sol_token_mill.Errors.{ok, ok-injective}
use sol_token_mill.Market.{Market, Pubkey, are_prices_set, initialize, zeroed}
use sol_token_mill.Market.Supply.{ReserveValid, initialize-prices, initialize_cases}
use sol_token_mill.Program.{Account, Instruction, World, invoke, market_account, update, ◌>>=◌}
use sol_token_mill.Program.Checks.{check_mint, check_mint_extensions, is_address}
use sol_token_mill.Program.Creation.{
  CreateMarket, MarketArgs, check_badge, check_fee_shares, create_market, create_market_checks,
  create_market_with, create_market_with_spl, initialize_spl_metadata, initialize_token_metadata,
  mint_supply_and_remove_authority,
}
use sol_token_mill.Program.Evolution.{AccountsValid, Evolves, MarketValid}
use sol_token_mill.Program.Evolution.Changes.{Evolves-new}
use sol_token_mill.Program.External.{Runtime, badge_seeds, market_seeds, pda}
use sol_token_mill.Program.Frames.{
  check_mint-ReadOnly, check_mint_extensions-ReadOnly, if-KeepsAccounts,
}
use sol_token_mill.Program.Runs.{
  accounts_of, on_check, on_create, on_lift, on_load_badge, on_load_config, on_step,
}
use sol_token_mill.Program.Runs.Keeps.{
  KeepsAccounts, ReadOnly, check-ReadOnly, invoke-KeepsAccounts, on_keep, on_read, return-ReadOnly,
}

-- Writing an account twice.
pub update_twice :
    (accounts : Pubkey → Option Account) (key : Pubkey) (a b : Account)
    → update (update accounts key a) key b ≡ update accounts key b
update_twice accounts key a b =
    fun_ext λ k. elim (Bool-cases (k == key)) [ inl at ↦ rw at refl | inr away ↦ rw away refl ]

initialized-MarketValid :
    (bump : ℕ) (config creator base quote : Pubkey) (decimals total creator_share staking_share : ℕ)
    (m : Market)
    → initialize zeroed bump config creator base quote decimals total creator_share staking_share
      ≡ ok m
    → creator_share + staking_share ≤ max_bps
    → MarketValid m
unfolding are_prices_set
initialized-MarketValid bump config creator base quote decimals total creator_share staking_share m
      h fit =
    let (eb, ea) =
      initialize-prices zeroed m bump config creator base quote decimals total creator_share
        staking_share h in
    elim (initialize_cases zeroed bump config creator base quote decimals total creator_share
      staking_share) [
        | inl (m', e, reserve, _, _, ec, es) ↦
            let same : m' ≡ m = ok-injective (sym e ∙ h) in
            record {
              tradable = record {
                reserve = subst ReserveValid same reserve;
                bids_length = rw eb refl;
                asks_length = rw ea refl;
                bids_bounded = rw eb (omega arith);
                asks_bounded = rw ea (omega arith);
              };
              shares = record {
                shares_fit = omega (
                  arith,
                  ap (λ (x : Market). x.fees.creator_fee_share) same,
                  ap (λ (x : Market). x.fees.staking_fee_share) same,
                  ec,
                  es,
                );
              };
              curves = inl (rw ea refl);
            }
        | inr (_, e) ↦ absurd (cc (sym e ∙ h))
      ]

module _ {L : Type 0} (E : Runtime L) where
  fee_shares_fit :
      (c : TokenMillConfig) (args : MarketArgs)
      → check_fee_shares E c args ≡ ok tt
      → args.creator_fee_share + args.staking_fee_share ≤ max_bps
  fee_shares_fit c args h = ground arith

  pub check_badge-ReadOnly :
      (c : TokenMillConfig) (config mint creator : Pubkey) (badge : Option Pubkey)
      → ReadOnly (check_badge E c config mint creator badge)
  unfolding check_badge
  check_badge-ReadOnly c config mint creator none w a w' h = return-ReadOnly tt w a w' h
  check_badge-ReadOnly c config mint creator (some key) w a w' h =
      on_load_badge key _ {w = w} h λ b _ h1.
        on_check (is_address E (badge_seeds config mint) b.bump key) _ _ {w = w} h1
          λ _ h2. check-ReadOnly _ _ w a w' h2

  initialize_token_metadata-KeepsAccounts :
      (a : CreateMarket) (args : MarketArgs) (bump : ℕ)
      → KeepsAccounts (initialize_token_metadata E a args bump)
  unfolding initialize_token_metadata
  initialize_token_metadata-KeepsAccounts a args bump w u w' h =
      on_keep
        (invoke (
          E.initialize_metadata a.base_token_mint a.market a.creator args.name args.symbol args.uri
            (market_seeds a.base_token_mint) bump))
        (invoke-KeepsAccounts _) _ w h
        λ _ w1 k1 h1.
          on_lift
            (Word.sub (E.minimum_balance w1.ledger a.base_token_mint)
              (E.lamports w1.ledger a.base_token_mint))
            _ {w = w1} h1
            λ n _ h2.
              k1
              ∙ if-KeepsAccounts (ltb 0 n)
                  (invoke (E.transfer_lamports a.creator a.base_token_mint n))
                  (invoke-KeepsAccounts _) w1 u w' h2

  initialize_spl_metadata-KeepsAccounts :
      (a : CreateMarket) (args : MarketArgs) (bump : ℕ)
      → KeepsAccounts (initialize_spl_metadata E a args bump)
  unfolding initialize_spl_metadata
  initialize_spl_metadata-KeepsAccounts a args bump w u w' h =
      invoke-KeepsAccounts
        (E.initialize_metadata a.base_token_mint a.market a.market args.name args.symbol args.uri
          (market_seeds a.base_token_mint) bump)
        w u w' h

  mint_supply-KeepsAccounts :
      (a : CreateMarket) (total bump : ℕ)
      → KeepsAccounts (mint_supply_and_remove_authority E a total bump)
  unfolding mint_supply_and_remove_authority
  mint_supply-KeepsAccounts a total bump w u w' h =
      on_keep
        (invoke (
          E.mint_to a.base_token_mint a.market_base_token_ata
            (pda a.market (market_seeds a.base_token_mint) bump) total))
        (invoke-KeepsAccounts _) _ w h
        λ _ w1 k1 h1.
          k1
          ∙ invoke-KeepsAccounts
              (E.remove_mint_authority a.base_token_mint
                (pda a.market (market_seeds a.base_token_mint) bump))
              w1 u w' h1

  on_create_market_checks {ℓ} :
      {B : Type 0} {P : Type ℓ} {r : B × World L} (a : CreateMarket) (signed : Pubkey → Bool)
      (f : TokenMillConfig × ℕ → Instruction L B) (w : World L)
      → (create_market_checks E a signed >>= f) w ≡ ok r
      → ((c : TokenMillConfig) (bump : ℕ) (w1 : World L)
          → w.accounts a.market ≡ none
          → w1.accounts ≡ update w.accounts a.market (market_account zeroed)
          → f (c, bump) w1 ≡ ok r
          → P)
      → P
  unfolding create_market_checks
  on_create_market_checks {r = r} a signed f w h k =
      on_step (create_market_checks E a signed) {f = f} {w = w} h λ x w5 e h1.
        on_load_config a.config _ {w = w} e λ c _ e1.
          on_check (signed a.creator && signed a.base_token_mint) _ _ {w = w} e1 λ _ e2.
            on_check (a.market == (E.find_address (market_seeds a.base_token_mint)).0) _ _ {w = w}
              e2
              λ _ e3. on_create a.market _ _ w e3 λ free e4.
                let mid : Pubkey → Option Account =
                  update w.accounts a.market (market_account zeroed) in
                on_keep
                  (invoke
                    (E.init_mint a.base_token_mint a.market a.token_program mill_token_decimals))
                  (invoke-KeepsAccounts _) _ (record w { accounts = mid }) e4
                  λ _ w1 k1 e5.
                    on_keep
                      (invoke (
                        E.init_associated a.market_base_token_ata a.base_token_mint a.market
                          a.token_program))
                      (invoke-KeepsAccounts _) _ w1 e5
                      λ _ w2 k2 e6.
                        on_read
                          (check_badge E c a.config a.quote_token_mint a.creator
                            a.quote_token_badge)
                          (check_badge-ReadOnly c a.config a.quote_token_mint a.creator
                            a.quote_token_badge)
                          _ {w = w2} e6
                          λ _ e7.
                            k c (E.find_address (market_seeds a.base_token_mint)).1 w2 free
                              (sym (k1 ∙ k2))
                              (subst (λ (q : (TokenMillConfig × ℕ) × World L). f q.0 q.1 ≡ ok r)
                                (sym (ok-injective e7)) h1)

  module _ (signed : Pubkey → Bool) (w w' : World L) (v : AccountsValid w.accounts)
      (a : CreateMarket) (args : MarketArgs) where
    create_market_with-Evolves :
        (metadata : CreateMarket → MarketArgs → ℕ → Instruction L (Unit {0}))
        → ((bump : ℕ) → KeepsAccounts (metadata a args bump))
        → create_market_with E metadata a signed args w ≡ ok (tt, w')
        → Evolves signed w.accounts w'.accounts
    unfolding create_market_with
    create_market_with-Evolves metadata keeps h =
        on_create_market_checks a signed _ w h λ c bump w1 free k1 h1.
          on_read (check_mint E a.quote_token_mint) (check_mint-ReadOnly E _) _ {w = w1} h1
            λ decimals h2. on_lift (check_fee_shares E c args) _ {w = w1} h2 λ _ ef h3.
              on_read (check_mint_extensions E a.quote_token_mint)
                (check_mint_extensions-ReadOnly E _) _ {w = w1} h3
                λ supported h4. on_check supported _ _ {w = w1} h4 λ _ h5.
                  on_lift
                    (initialize zeroed bump a.config a.creator a.base_token_mint a.quote_token_mint
                      decimals args.total_supply args.creator_fee_share args.staking_fee_share)
                    _ {w = w1} h5
                    λ m em h6.
                      on_keep (metadata a args bump) (keeps bump) _
                        (record w1 { accounts = update w1.accounts a.market (market_account m) }) h6
                        λ _ w2 k2 h7.
                          on_keep (mint_supply_and_remove_authority E a args.total_supply bump)
                            (mint_supply-KeepsAccounts a args.total_supply bump) _ w2 h7
                            λ _ w3 k3 h8.
                              Evolves-new a.market (market_account m) v free
                                (initialized-MarketValid bump a.config a.creator a.base_token_mint
                                  a.quote_token_mint decimals args.total_supply
                                  args.creator_fee_share args.staking_fee_share m em
                                  (fee_shares_fit c args ef))
                                (accounts_of h8
                                  ∙ sym (k2 ∙ k3)
                                  ∙ ap
                                      (λ (x : Pubkey → Option Account).
                                        update x a.market (market_account m))
                                      k1
                                  ∙ update_twice w.accounts a.market _ _)

    pub create_market-Evolves :
        create_market E a signed args w ≡ ok (tt, w') → Evolves signed w.accounts w'.accounts
    unfolding create_market
    create_market-Evolves h =
        create_market_with-Evolves (initialize_token_metadata E)
          (initialize_token_metadata-KeepsAccounts a args) h

    pub create_market_with_spl-Evolves :
        create_market_with_spl E a signed args w ≡ ok (tt, w')
        → Evolves signed w.accounts w'.accounts
    unfolding create_market_with_spl
    create_market_with_spl-Evolves h =
        create_market_with-Evolves (initialize_spl_metadata E)
          (initialize_spl_metadata-KeepsAccounts a args) h
