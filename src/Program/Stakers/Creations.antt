-- ===== src/Program/Stakers/Creations.antt =====
-- programs/token-mill/src/instructions/create_market.rs and create_market_with_spl.rs: a new market has
-- no stakes, and the stakers of the others see nothing of it.
use sol_token_mill.Word
use sol_token_mill.Base.{
  Bool, List, Option, ap, arith, false, if◌then◌else◌, ltb, none, refl, some, true, ℕ, ◌&&◌, ◌==◌,
  ◌∙◌, ◌∷◌, ◌≡◌,
}
use sol_token_mill.Config.{TokenMillConfig}
use sol_token_mill.Constant.{mill_token_decimals}
use sol_token_mill.Errors.{ok}
use sol_token_mill.Market.{Pubkey, initialize, zeroed}
use sol_token_mill.Program.{
  Account, Instruction, World, called, invoke, market_account, return, update, ◌>>=◌,
}
use sol_token_mill.Program.Checks.{check_mint, check_mint_extensions}
use sol_token_mill.Program.Creation.{
  CreateMarket, MarketArgs, check_badge, check_fee_shares, create_market, create_market_checks,
  create_market_with, create_market_with_spl, initialize_spl_metadata, initialize_token_metadata,
  mint_supply_and_remove_authority,
}
use sol_token_mill.Program.Events.{Event, market_creation}
use sol_token_mill.Program.Evolution.Creation.{check_badge-ReadOnly, update_twice}
use sol_token_mill.Program.External.{Runtime, market_seeds, pda}
use sol_token_mill.Program.Frames.{check_mint-ReadOnly, check_mint_extensions-ReadOnly}
use sol_token_mill.Program.Runs.{on_check, on_create, on_lift, on_load_config, on_step}
use sol_token_mill.Program.Runs.Keeps.{on_read}
use sol_token_mill.Program.Stakers.Frame.{Untouched}
use sol_token_mill.Program.Stakers.Openings.{opened-Untouched}
use sol_token_mill.Program.Stakers.Writes.{come_to, event-Quiet}

-- A call of other programs, which leaves the accounts and the log.
abbrev Calls : {L : Type 0} → Instruction L (Unit {0}) → Type 0
Calls {L} m =
    (w : World L) (u : Unit {0}) (w' : World L)
    → m w ≡ ok (u, w')
    → (w'.accounts ≡ w.accounts) × (w'.log ≡ w.log)

called-Calls :
    {L : Type 0} (x : Option L) (w w' : World L) {u : Unit {0}}
    → called w x ≡ ok (u, w')
    → (w'.accounts ≡ w.accounts) × (w'.log ≡ w.log)
called-Calls (some l) w w' h = come_to h
called-Calls none w w' h = absurd (ground arith)

invoke-Calls : {L : Type 0} (call : L → Option L) → Calls (invoke call)
invoke-Calls call w u w' h = called-Calls (call w.ledger) w w' h

if-Calls :
    {L : Type 0} (b : Bool) (m : Instruction L (Unit {0}))
    → Calls m
    → Calls (if b then m else return tt)
if-Calls true m calls w u w' h = calls w u w' h
if-Calls false m calls w u w' h = come_to h

on_call {ℓ} :
    {L B : Type 0} {P : Type ℓ} {r : B × World L} (m : Instruction L (Unit {0})) (calls : Calls m)
    (f : Unit {0} → Instruction L B) (w : World L)
    → (m >>= f) w ≡ ok r
    → ((w' : World L) → w'.accounts ≡ w.accounts → w'.log ≡ w.log → f tt w' ≡ ok r → P)
    → P
on_call m calls f w h k =
    on_step m {f = f} {w = w} h λ u w1 e h1. let (ea, el) = calls w u w1 e in k w1 ea el h1

module _ {L : Type 0} (E : Runtime L) where
  token_metadata-Calls :
      (a : CreateMarket) (args : MarketArgs) (bump : ℕ)
      → Calls (initialize_token_metadata E a args bump)
  unfolding initialize_token_metadata
  token_metadata-Calls a args bump w u w' h =
      on_call
        (invoke (
          E.initialize_metadata a.base_token_mint a.market a.creator args.name args.symbol args.uri
            (market_seeds a.base_token_mint) bump))
        (invoke-Calls _) _ w h
        λ w1 ea el h1.
          on_lift
            (Word.sub (E.minimum_balance w1.ledger a.base_token_mint)
              (E.lamports w1.ledger a.base_token_mint))
            _ {w = w1} h1
            λ n _ h2.
              let (fa, fl) =
                if-Calls (ltb 0 n) (invoke (E.transfer_lamports a.creator a.base_token_mint n))
                  (invoke-Calls _) w1 u w' h2 in
              (fa ∙ ea, fl ∙ el)

  spl_metadata-Calls :
      (a : CreateMarket) (args : MarketArgs) (bump : ℕ)
      → Calls (initialize_spl_metadata E a args bump)
  unfolding initialize_spl_metadata
  spl_metadata-Calls a args bump w u w' h =
      invoke-Calls
        (E.initialize_metadata a.base_token_mint a.market a.market args.name args.symbol args.uri
          (market_seeds a.base_token_mint) bump)
        w u w' h

  mint_supply-Calls :
      (a : CreateMarket) (total bump : ℕ) → Calls (mint_supply_and_remove_authority E a total bump)
  unfolding mint_supply_and_remove_authority
  mint_supply-Calls a total bump w u w' h =
      on_call
        (invoke (
          E.mint_to a.base_token_mint a.market_base_token_ata
            (pda a.market (market_seeds a.base_token_mint) bump) total))
        (invoke-Calls _) _ w h
        λ w1 ea el h1.
          let (fa, fl) =
            invoke-Calls
              (E.remove_mint_authority a.base_token_mint
                (pda a.market (market_seeds a.base_token_mint) bump))
              w1 u w' h1 in
          (fa ∙ ea, fl ∙ el)

  -- The checks create the account of the market and its tokens.
  on_market_created {ℓ} :
      {B : Type 0} {P : Type ℓ} {r : B × World L} (a : CreateMarket) (signed : Pubkey → Bool)
      (f : TokenMillConfig × ℕ → Instruction L B) (w : World L)
      → (create_market_checks E a signed >>= f) w ≡ ok r
      → ((x : TokenMillConfig × ℕ) (w1 : World L)
          → w.accounts a.market ≡ none
          → w1.accounts ≡ update w.accounts a.market (market_account zeroed)
          → w1.log ≡ w.log
          → f x w1 ≡ ok r
          → P)
      → P
  unfolding create_market_checks
  on_market_created {r = r} a signed f w h k =
      on_step (create_market_checks E a signed) {f = f} {w = w} h λ x w5 e h1.
        on_load_config a.config _ {w = w} e λ c _ e1.
          on_check (signed a.creator && signed a.base_token_mint) _ _ {w = w} e1 λ _ e2.
            on_check (a.market == (E.find_address (market_seeds a.base_token_mint)).0) _ _ {w = w}
              e2
              λ _ e3. on_create a.market _ _ w e3 λ free e4.
                on_call
                  (invoke
                    (E.init_mint a.base_token_mint a.market a.token_program mill_token_decimals))
                  (invoke-Calls _) _
                  (record w { accounts = update w.accounts a.market (market_account zeroed) }) e4
                  λ w1 a1 l1 e5.
                    on_call
                      (invoke (
                        E.init_associated a.market_base_token_ata a.base_token_mint a.market
                          a.token_program))
                      (invoke-Calls _) _ w1 e5
                      λ w2 a2 l2 e6.
                        on_read
                          (check_badge E c a.config a.quote_token_mint a.creator
                            a.quote_token_badge)
                          (check_badge-ReadOnly E c a.config a.quote_token_mint a.creator
                            a.quote_token_badge)
                          _ {w = w2} e6
                          λ _ e7.
                            let (a3, l3) = come_to e7 in
                            k x w5 free (a3 ∙ a2 ∙ a1) (l3 ∙ l2 ∙ l1) h1

  module _ (signed : Pubkey → Bool) (w w' : World L) (key : Pubkey) (a : CreateMarket)
      (args : MarketArgs) where
    create_market_with-Untouched :
        (metadata : CreateMarket → MarketArgs → ℕ → Instruction L (Unit {0}))
        → ((bump : ℕ) → Calls (metadata a args bump))
        → create_market_with E metadata a signed args w ≡ ok (tt, w')
        → Untouched key w w'
    unfolding create_market_with
    create_market_with-Untouched metadata calls h =
        on_market_created a signed _ w h λ (c, bump) w1 free k1 l1 h1.
          on_read (check_mint E a.quote_token_mint) (check_mint-ReadOnly E _) _ {w = w1} h1
            λ decimals h2. on_lift (check_fee_shares E c args) _ {w = w1} h2 λ _ ef h3.
              on_read (check_mint_extensions E a.quote_token_mint)
                (check_mint_extensions-ReadOnly E _) _ {w = w1} h3
                λ supported h4. on_check supported _ _ {w = w1} h4 λ _ h5.
                  on_lift
                    (initialize zeroed bump a.config a.creator a.base_token_mint a.quote_token_mint
                      decimals args.total_supply args.creator_fee_share args.staking_fee_share)
                    _ {w = w1} h5
                    λ m em h6.
                      on_call (metadata a args bump) (calls bump) _
                        (record w1 { accounts = update w1.accounts a.market (market_account m) }) h6
                        λ w2 a2 l2 h7.
                          on_call (mint_supply_and_remove_authority E a args.total_supply bump)
                            (mint_supply-Calls a args.total_supply bump) _ w2 h7
                            λ w3 a3 l3 h8.
                              let event =
                                market_creation a.config a.market a.creator a.base_token_mint
                                  a.quote_token_mint args.total_supply c.default_protocol_fee_share
                                  c.referral_fee_share args.creator_fee_share
                                  args.staking_fee_share in
                              let (ea, el) = come_to h8 in
                              let written : w'.accounts
                                  ≡ update w.accounts a.market (market_account m) =
                                ea
                                ∙ a3
                                ∙ a2
                                ∙ ap
                                    (λ (x : Pubkey → Option Account).
                                      update x a.market (market_account m))
                                    k1
                                ∙ update_twice w.accounts a.market _ _ in
                              opened-Untouched w w' a.market (market_account m) free written key
                                (λ s same _. absurd (cc same)) (λ p same _. absurd (cc same))
                                (event-Quiet event
                                  (el ∙ ap (λ (log : List Event). event ∷ log) (l3 ∙ l2 ∙ l1))
                                  (λ _. refl) (λ _. refl) (λ _. refl) (λ _. refl))

    pub create_market-Untouched : create_market E a signed args w ≡ ok (tt, w') → Untouched key w w'
    unfolding create_market
    create_market-Untouched h =
        create_market_with-Untouched (initialize_token_metadata E) (token_metadata-Calls a args) h

    pub create_market_with_spl-Untouched :
        create_market_with_spl E a signed args w ≡ ok (tt, w') → Untouched key w w'
    unfolding create_market_with_spl
    create_market_with_spl-Untouched h =
        create_market_with-Untouched (initialize_spl_metadata E) (spl_metadata-Calls a args) h
