-- ===== src/Program/Stakers/Markets.antt =====
-- programs/token-mill/src/instructions/creator: what is pending for the stakers stays.
use sol_token_mill.Word.U16
use sol_token_mill.Base.{Bool, List, ap, refl, some, subst, sym, ℕ, ◌==◌, ◌∙◌, ◌∷◌, ◌≡◌}
use sol_token_mill.Errors.{ok}
use sol_token_mill.Market.{Market, Pubkey, check_and_set_prices}
use sol_token_mill.Market.Capped.{curves_set}
use sol_token_mill.Market.Prices.{CurvesValid, acceptance}
use sol_token_mill.Program.{World, market_account, update}
use sol_token_mill.Program.Checks.{check_associated, check_mint, transfer_from_pda}
use sol_token_mill.Program.Creator.{
  claim_creator_fees, set_market_prices, update_creator, update_market_fee_shares,
}
use sol_token_mill.Program.Creator.Effects.{on_settings}
use sol_token_mill.Program.Events.{Event, creator_fee_claim}
use sol_token_mill.Program.Evolution.Changes.{some-injective}
use sol_token_mill.Program.External.{Runtime}
use sol_token_mill.Program.Frames.{check_associated-ReadOnly, check_mint-ReadOnly}
use sol_token_mill.Program.Payments.{on_pay, transfer_from_pda-Pays}
use sol_token_mill.Program.Runs.{on_check, on_lift, on_load_market}
use sol_token_mill.Program.Runs.Keeps.{on_read}
use sol_token_mill.Program.Stakers.{SamePool}
use sol_token_mill.Program.Stakers.Frame.{Untouched}
use sol_token_mill.Program.Stakers.Moved.{market-injective}
use sol_token_mill.Program.Stakers.Writes.{IsMarket, Quiet, come_to, event-Quiet, market-Untouched}

module _ {L : Type 0} (signed : Pubkey → Bool) (w w' : World L) (key : Pubkey) where
  -- A market is written with the same pending fees.
  rewritten :
      (market : Pubkey) (m m' : Market)
      → w.accounts market ≡ some (market_account m)
      → m'.fees.pending_staking_fees ≡ m.fees.pending_staking_fees
      → (CurvesValid m.bid_prices m.ask_prices → SamePool m m')
      → w'.accounts ≡ update w.accounts market (market_account m')
      → Quiet w.log w'.log
      → Untouched key w w'
  rewritten market m m' found pending pool written q =
      market-Untouched w w' market (market_account m') written m' refl
        (λ c ec. subst IsMarket (some-injective (sym found ∙ ec)) tt) key (q.booked_kept key)
        (q.paid_kept key) (q.takings_kept key) (q.payouts_kept key)
        (λ _ n found_n.
          subst
            (λ (x : Market).
              (m'.fees.pending_staking_fees ≡ x.fees.pending_staking_fees)
              × (CurvesValid x.bid_prices x.ask_prices → SamePool x m'))
            (market-injective (sym found ∙ found_n)) (pending, pool))

  pub set_market_prices-Untouched :
      (market creator : Pubkey) (bids asks : List ℕ)
      → set_market_prices market creator signed bids asks w ≡ ok (tt, w')
      → Untouched key w w'
  unfolding set_market_prices
  set_market_prices-Untouched market creator bids asks h =
      on_settings market creator signed _ h λ m found own by h1.
        on_lift (check_and_set_prices m bids asks) _ {w = w} h1 λ m' em h2.
          let a = acceptance m m' bids asks em in
          let (ea, el) = come_to h2 in
          rewritten market m m' found (ap (λ (x : Market). x.fees.pending_staking_fees) a.stored)
            (λ valid. absurd (cc (sym a.unset ∙ curves_set m valid))) ea
            (event-Quiet _ el (λ _. refl) (λ _. refl) (λ _. refl) (λ _. refl))

  pub update_creator-Untouched :
      (market creator new_creator : Pubkey)
      → update_creator market creator signed new_creator w ≡ ok (tt, w')
      → Untouched key w w'
  unfolding update_creator
  update_creator-Untouched market creator new_creator h =
      on_settings market creator signed _ h λ m found own by h1.
        let (ea, el) = come_to h1 in
        rewritten market m _ found refl (λ _. refl) ea
          (event-Quiet _ el (λ _. refl) (λ _. refl) (λ _. refl) (λ _. refl))

  pub update_market_fee_shares-Untouched :
      (market creator : Pubkey) (creator_share staking_share : ℕ)
      → update_market_fee_shares market creator signed creator_share staking_share w ≡ ok (tt, w')
      → Untouched key w w'
  unfolding update_market_fee_shares
  update_market_fee_shares-Untouched market creator creator_share staking_share h =
      on_settings market creator signed _ h λ m found own by h1.
        on_lift (U16.add creator_share staking_share) _ {w = w} h1 λ new _ h2.
          on_lift (U16.add m.fees.creator_fee_share m.fees.staking_fee_share) _ {w = w} h2
            λ old _ h3. on_check (new == old) _ _ {w = w} h3 λ _ h4.
              let (ea, el) = come_to h4 in
              rewritten market m _ found refl (λ _. refl) ea
                (event-Quiet _ el (λ _. refl) (λ _. refl) (λ _. refl) (λ _. refl))

  pub claim_creator_fees-Untouched :
      (E : Runtime L) (market mint source destination creator token_program : Pubkey)
      → claim_creator_fees E market mint source destination creator token_program signed w
        ≡ ok (tt, w')
      → Untouched key w w'
  unfolding claim_creator_fees
  claim_creator_fees-Untouched E market mint source destination creator token_program h =
      on_load_market market _ {w = w} h λ m found h1.
        on_check (m.creator == creator) _ _ {w = w} h1 λ own h2.
          on_check (m.quote_token_mint == mint) _ _ {w = w} h2 λ _ h3.
            on_read (check_mint E mint) (check_mint-ReadOnly E mint) _ {w = w} h3 λ decimals h4.
              on_read (check_associated E _ _ _ _) (check_associated-ReadOnly E _ _ _ _) _ {w = w}
                h4
                λ _ h5.
                  on_read (check_associated E _ _ _ _) (check_associated-ReadOnly E _ _ _ _) _
                    {w = w} h5
                    λ _ h6. on_check (signed creator) _ _ {w = w} h6 λ by h7.
                      let m' = record m { fees = record (m.fees) { pending_creator_fees = 0 } } in
                      on_pay (transfer_from_pda E _ _ _ _ _ _ _ _ _)
                        (transfer_from_pda-Pays E _ _ _ _ _ _ _ _ _) _
                        (record w { accounts = update w.accounts market (market_account m') }) h7
                        λ w2 t h8.
                          let (ea, el) = come_to h8 in
                          let e = creator_fee_claim market creator m.fees.pending_creator_fees in
                          rewritten market m m' found refl (λ _. refl) (ea ∙ sym t.accounts)
                            (event-Quiet e (el ∙ ap (λ (log : List Event). e ∷ log) (sym t.log))
                              (λ _. refl) (λ _. refl) (λ _. refl) (λ _. refl))
