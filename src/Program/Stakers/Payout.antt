-- ===== src/Program/Stakers/Payout.antt =====
-- programs/token-mill/src/instructions/staking/claim_staking_rewards.rs: what a claim pays.
use sol_token_mill.StakingManager
use sol_token_mill.Base.{Bool, List, [], ap, some, subst, sym, true, ℕ, ◌==◌, ◌∙◌, ◌∷◌, ◌≡◌}
use sol_token_mill.Errors.{ok, ok-injective}
use sol_token_mill.Market.{Market, Pubkey}
use sol_token_mill.Program.{World, emit, return, ◌>>◌}
use sol_token_mill.Program.Checks.{transfer_from_pda}
use sol_token_mill.Program.Events.{Event, staking_rewards_claim}
use sol_token_mill.Program.Evolution.Stakes.{StakesFound, on_load_stakes, restored}
use sol_token_mill.Program.External.{Runtime, Transfer, market_seeds, pda}
use sol_token_mill.Program.Frames.{on_mint}
use sol_token_mill.Program.Payments.{carry_out, on_pay, transfer_from_pda-Pays, transfer_of}
use sol_token_mill.Program.Runs.{on_check, on_lift, same_key}
use sol_token_mill.Program.Stake.{StakingRewardsClaim, claim_staking_rewards, store_stakes}
use sol_token_mill.StakingManager.{Stakes}

-- An event, and then a value.
pub emitted_value :
    {L : Type 0} (e : Event) (n : ℕ) (w w' : World L) {k : ℕ}
    → (emit e >> return n) w ≡ ok (k, w')
    → (w'.accounts ≡ w.accounts) × (w'.log ≡ e ∷ w.log) × (w'.ledger ≡ w.ledger) × (k ≡ n)
emitted_value {L} e n w w' h =
    let done = sym (ok-injective h) in
    (
      ap (λ (p : ℕ × World L). p.1.accounts) done,
      ap (λ (p : ℕ × World L). p.1.log) done,
      ap (λ (p : ℕ × World L). p.1.ledger) done,
      ap (λ (p : ℕ × World L). p.0) done,
    )

-- The one transfer of a claim: from the quote tokens of the market to those of the user.
abbrev pub rewards_to : StakingRewardsClaim → Market → (decimals rewards : ℕ) → Transfer
rewards_to a m decimals rewards =
    transfer_of a.quote_token_program a.quote_token_mint a.market_quote_token_ata
      a.user_quote_token_ata (pda a.market (market_seeds m.base_token_mint) m.bump) rewards decimals

-- A position without the rewards that were pending for it.
abbrev pub emptied : Stakes → Stakes
emptied s = record s { position = record (s.position) { pending_rewards = 0 } }

module _ {ℓ} {L : Type 0} {P : Type ℓ} (E : Runtime L) (a : StakingRewardsClaim)
    (signed : Pubkey → Bool) (w w' : World L) (n : ℕ) where
  pub on_claim :
      claim_staking_rewards E a signed w ≡ ok (n, w')
      → ((m : Market) (s : Stakes) (decimals : ℕ) (r : ℕ × Stakes)
          → StakesFound a.market a.staking a.stake_position a.user w m s
          → m.quote_token_mint ≡ a.quote_token_mint
          → E.mint_decimals w.ledger a.quote_token_mint ≡ some decimals
          → (E.is_associated w.ledger a.market_quote_token_ata a.quote_token_mint a.market
                a.quote_token_program
              ≡ true)
          → (E.is_associated w.ledger a.user_quote_token_ata a.quote_token_mint a.user
                a.quote_token_program
              ≡ true)
          → signed a.user ≡ true
          → StakingManager.deposit s 0 ≡ ok r
          → n ≡ r.1.position.pending_rewards
          → w'.accounts ≡ restored w.accounts a.market a.staking a.stake_position m (emptied r.1)
          → carry_out E (rewards_to a m decimals n ∷ []) w.ledger ≡ some w'.ledger
          → w'.log ≡ staking_rewards_claim a.market a.user n ∷ w.log
          → P)
      → P
  unfolding claim_staking_rewards store_stakes
  on_claim h k = on_load_stakes a.market a.staking a.stake_position a.user _ w h λ m s found h1.
      on_check (m.quote_token_mint == a.quote_token_mint) _ _ {w = w} h1 λ is_quote h2.
        on_mint E a.quote_token_mint _ {w = w} h2 λ decimals scale h3.
          on_check (E.is_associated w.ledger _ _ _ _) _ _ {w = w} h3 λ from_market h4.
            on_check (E.is_associated w.ledger _ _ _ _) _ _ {w = w} h4 λ to_user h5.
              on_check (signed a.user) _ _ {w = w} h5 λ by h6.
                on_lift (StakingManager.deposit s 0) _ {w = w} h6 λ r er h7.
                  on_pay (transfer_from_pda E _ _ _ _ _ _ _ _ _)
                    (transfer_from_pda-Pays E _ _ _ _ _ _ _ _ _) _
                    (record w {
                      accounts =
                          restored w.accounts a.market a.staking a.stake_position m (emptied r.1);
                    })
                    h7
                    λ w2 t h8.
                      let rewards = r.1.position.pending_rewards in
                      let (ea, el, eg, en) =
                        emitted_value (staking_rewards_claim a.market a.user rewards) rewards w2 w'
                          h8 in
                      k m s decimals r found (same_key is_quote) scale from_market to_user by er en
                        (ea ∙ sym t.accounts)
                        (subst
                          (λ (x : ℕ).
                            carry_out E (rewards_to a m decimals x ∷ []) w.ledger ≡ some w'.ledger)
                          (sym en) (t.ledger ∙ ap (λ (l : L). some l) (sym eg)))
                        (el
                          ∙ ap
                              (λ (x : ℕ × List Event).
                                staking_rewards_claim a.market a.user x.0 ∷ x.1)
                              (λ i. (sym en i, sym t.log i)))
