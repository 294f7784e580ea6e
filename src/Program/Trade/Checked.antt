-- ===== src/Program/Trade/Checked.antt =====
-- programs/token-mill/src/instructions/swap.rs: what the constraints on the accounts establish.
use sol_token_mill.Base.{Bool, Option, none, some, subst, sym, true, ℕ, ◌==◌, ◌∙◌, ◌≡◌}
use sol_token_mill.Config.{TokenMillConfig}
use sol_token_mill.Errors.{constraint, ok, ok-injective, or_fail}
use sol_token_mill.Market.{Market, Pubkey}
use sol_token_mill.Program.{Instruction, World, config_account, market_account, return, ◌>>=◌}
use sol_token_mill.Program.Checks.{check_token_account}
use sol_token_mill.Program.External.{Runtime}
use sol_token_mill.Program.Frames.{on_mint}
use sol_token_mill.Program.Runs.{
  lift-eq-ok, on_check, on_load_config, on_load_market, on_step, same_key,
}
use sol_token_mill.Program.Runs.Keeps.{ReadOnly, on_read, return-ReadOnly}
use sol_token_mill.Program.Trade.{SwapAccounts, check_referral, swap_checks}
use sol_token_mill.Ruint.{Ruint}

module _ {L : Type 0} (R : Ruint) (E : Runtime L) where
  check_referral-ReadOnly : (account : Option Pubkey) → ReadOnly (check_referral R E account)
  check_referral-ReadOnly none w a w' h = return-ReadOnly tt w a w' h
  check_referral-ReadOnly (some account) w a w' h =
      on_step (check_token_account E account) {f = λ _. return tt} {w = w} h λ n w1 e h1.
        (lift-eq-ok (or_fail (E.token_amount w.ledger account) constraint) e).1
        ∙ return-ReadOnly tt w1 a w' h1

  -- The accounts that were passed belong together: the stored market has this configuration and these
  -- mints, the market's token accounts are its associated ones, the user's hold the mints, the fees
  -- of the protocol go to the associated account of the recipient, and the user has signed.
  pub record Checked (a : SwapAccounts) (signed : Pubkey → Bool) (w : World L) (c : TokenMillConfig)
      (m : Market) (base_decimals quote_decimals : ℕ) : Type 0 where
    pub config_found : w.accounts a.config ≡ some (config_account c)
    pub market_found : w.accounts a.market ≡ some (market_account m)
    pub is_config : m.config ≡ a.config
    pub is_base : m.base_token_mint ≡ a.base_token_mint
    pub is_quote : m.quote_token_mint ≡ a.quote_token_mint
    pub base_scale : E.mint_decimals w.ledger a.base_token_mint ≡ some base_decimals
    pub quote_scale : E.mint_decimals w.ledger a.quote_token_mint ≡ some quote_decimals
    pub market_base :
        E.is_associated w.ledger a.market_base_token_ata a.base_token_mint a.market
          a.base_token_program
        ≡ true
    pub market_quote :
        E.is_associated w.ledger a.market_quote_token_ata a.quote_token_mint a.market
          a.quote_token_program
        ≡ true
    pub user_base : E.has_mint w.ledger a.user_base_token_account a.base_token_mint ≡ true
    pub user_quote : E.has_mint w.ledger a.user_quote_token_account a.quote_token_mint ≡ true
    pub protocol_quote :
        E.is_associated w.ledger a.protocol_quote_token_ata a.quote_token_mint
          c.protocol_fee_recipient a.quote_token_program
        ≡ true
    pub is_signed : signed a.user ≡ true

  pub on_swap_checks {ℓ} :
      {B : Type 0} {P : Type ℓ} {r : B × World L} (a : SwapAccounts) (signed : Pubkey → Bool)
      (f : TokenMillConfig × Market × ℕ × ℕ → Instruction L B) (w : World L)
      → (swap_checks R E a signed >>= f) w ≡ ok r
      → ((c : TokenMillConfig) (m : Market) (base_decimals quote_decimals : ℕ)
          → Checked a signed w c m base_decimals quote_decimals
          → f (c, m, base_decimals, quote_decimals) w ≡ ok r
          → P)
      → P
  unfolding swap_checks
  on_swap_checks {r = r} a signed f w h k =
      on_step (swap_checks R E a signed) {f = f} {w = w} h λ x w1 e h1.
        on_load_config a.config _ {w = w} e λ c found e1.
          on_load_market a.market _ {w = w} e1 λ m market_found e2.
            on_check (m.config == a.config) _ _ e2 λ is_config e3.
              on_check (m.base_token_mint == a.base_token_mint) _ _ e3 λ is_base e4.
                on_check (m.quote_token_mint == a.quote_token_mint) _ _ e4 λ is_quote e5.
                  on_mint E a.base_token_mint _ e5 λ bd base_scale e6.
                    on_mint E a.quote_token_mint _ e6 λ qd quote_scale e7.
                      on_check (E.is_associated w.ledger _ _ _ _) _ _ {w = w} e7 λ market_base e8.
                        on_check (E.is_associated w.ledger _ _ _ _) _ _ {w = w} e8
                          λ market_quote e9.
                            on_check (E.has_mint w.ledger _ _) _ _ {w = w} e9 λ user_base e10.
                              on_check (E.has_mint w.ledger _ _) _ _ {w = w} e10 λ user_quote e11.
                                on_check (E.is_associated w.ledger _ _ _ _) _ _ {w = w} e11
                                  λ protocol_quote e12.
                                    on_read (check_referral R E a.referral_token_account)
                                      (check_referral-ReadOnly a.referral_token_account) _ {w = w}
                                      e12
                                      λ _ e13.
                                        on_check (signed a.user) _ _ {w = w} e13 λ is_signed e14.
                                          let checked : Checked a signed w c m bd qd = record {
                                            config_found = found;
                                            market_found = market_found;
                                            is_config = same_key is_config;
                                            is_base = same_key is_base;
                                            is_quote = same_key is_quote;
                                            base_scale = base_scale;
                                            quote_scale = quote_scale;
                                            market_base = market_base;
                                            market_quote = market_quote;
                                            user_base = user_base;
                                            user_quote = user_quote;
                                            protocol_quote = protocol_quote;
                                            is_signed = is_signed;
                                          } in
                                          k c m bd qd checked (
                                            subst
                                              (λ (p : (TokenMillConfig × Market × ℕ × ℕ) × World L).
                                                f p.0 p.1 ≡ ok r)
                                              (sym (ok-injective e14)) h1)
