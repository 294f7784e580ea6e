-- ===== src/Program/Stakers/Settings.antt =====
-- programs/token-mill/src/instructions/admin and referrals: no stake is touched.
use sol_token_mill.Base.{
  Bool, List, Option, ap, leb, none, refl, some, subst, sym, ℕ, ◌&&◌, ◌==◌, ◌∙◌, ◌∷◌, ◌≡◌,
}
use sol_token_mill.Config.{QuoteTokenBadgeStatus}
use sol_token_mill.Constant.{max_bps}
use sol_token_mill.Errors.{ok}
use sol_token_mill.Market.{Pubkey}
use sol_token_mill.Program.{Account, World, badge_account, config_account, update}
use sol_token_mill.Program.Admin.{
  accept_config_ownership, create_config, create_quote_asset_badge, transfer_config_ownership,
  update_default_fee_shares, update_protocol_fee_recipient, update_quote_asset_badge,
}
use sol_token_mill.Program.Admin.Ownership.{on_config_update}
use sol_token_mill.Program.Checks.{
  check_associated, check_mint, check_token_account, is_address, is_key, transfer_from_pda,
}
use sol_token_mill.Program.Events.{Event, referral_fee_claim}
use sol_token_mill.Program.Evolution.Changes.{some-injective}
use sol_token_mill.Program.External.{Runtime, badge_seeds, referral_seeds}
use sol_token_mill.Program.Frames.{
  check_associated-ReadOnly, check_mint-ReadOnly, check_token_account-ReadOnly,
}
use sol_token_mill.Program.Payments.{on_pay, transfer_from_pda-Pays}
use sol_token_mill.Program.Referral.{claim_referral_fees, create_referral_account}
use sol_token_mill.Program.Runs.{
  on_check, on_create, on_load_badge, on_load_config, on_load_referral,
}
use sol_token_mill.Program.Runs.Keeps.{on_read}
use sol_token_mill.Program.Stakers.Frame.{Untouched, accounts-Untouched}
use sol_token_mill.Program.Stakers.Openings.{created_world}
use sol_token_mill.Program.Stakers.Writes.{
  Aside, Quiet, aside-Untouched, come_to, event-Quiet, same_log,
}
use sol_token_mill.Program.Trade.{referral_share}

module _ {L : Type 0} (signed : Pubkey → Bool) (w w' : World L) (market : Pubkey) where
  -- An account that is aside is written where one was, or where there was none.
  over :
      (key : Pubkey) (a b : Account)
      → w.accounts key ≡ some a
      → Aside a
      → Aside b
      → w'.accounts ≡ update w.accounts key b
      → Quiet w.log w'.log
      → Untouched market w w'
  over key a b found old new written q =
      aside-Untouched w w' key b written (λ c ec. subst Aside (some-injective (sym found ∙ ec)) old)
        new q market

  fresh :
      (key : Pubkey) (b : Account)
      → w.accounts key ≡ none
      → Aside b
      → w'.accounts ≡ update w.accounts key b
      → Quiet w.log w'.log
      → Untouched market w w'
  fresh key b free new written q =
      aside-Untouched w w' key b written (λ c ec. absurd (cc (sym free ∙ ec))) new q market

  pub create_config-Untouched :
      (config payer authority recipient : Pubkey) (protocol_share referral_share : ℕ)
      → create_config config payer signed authority recipient protocol_share referral_share w
        ≡ ok (tt, w')
      → Untouched market w w'
  unfolding create_config
  create_config-Untouched config payer authority recipient protocol_share referral_share h =
      on_check (signed config && signed payer) _ _ {w = w} h λ _ h1.
        on_create config _ _ w h1 λ free h2.
          on_check (leb protocol_share max_bps && leb referral_share max_bps) _ _
            {w = record w { accounts = update w.accounts config _ }} h2
            λ fits h3.
              let (ea, el) = come_to h3 in
              fresh config _ free tt ea
                (event-Quiet _ el (λ _. refl) (λ _. refl) (λ _. refl) (λ _. refl))

  pub transfer_config_ownership-Untouched :
      (config authority : Pubkey) (new_authority : Option Pubkey)
      → transfer_config_ownership config authority signed new_authority w ≡ ok (tt, w')
      → Untouched market w w'
  unfolding transfer_config_ownership
  transfer_config_ownership-Untouched config authority named h =
      on_config_update config authority signed _ w h λ c found own by h1.
        let (ea, el) = come_to h1 in over config (config_account c) _ found tt tt ea (same_log el)

  pub accept_config_ownership-Untouched :
      (config pending_authority : Pubkey)
      → accept_config_ownership config pending_authority signed w ≡ ok (tt, w')
      → Untouched market w w'
  unfolding accept_config_ownership
  accept_config_ownership-Untouched config next h = on_check (signed next) _ _ {w = w} h λ by h1.
      on_load_config config _ {w = w} h1 λ c found h2.
        on_check (is_key c.pending_authority next) _ _ {w = w} h2 λ named h3.
          let (ea, el) = come_to h3 in
          over config (config_account c) _ found tt tt ea
            (event-Quiet _ el (λ _. refl) (λ _. refl) (λ _. refl) (λ _. refl))

  pub update_default_fee_shares-Untouched :
      (config authority : Pubkey) (protocol_share referral_share : ℕ)
      → update_default_fee_shares config authority signed protocol_share referral_share w
        ≡ ok (tt, w')
      → Untouched market w w'
  unfolding update_default_fee_shares
  update_default_fee_shares-Untouched config authority protocol_share referral_share h =
      on_config_update config authority signed _ w h λ c found own by h1.
        on_check (leb protocol_share max_bps && leb referral_share max_bps) _ _ {w = w} h1
          λ fits h2.
            let (ea, el) = come_to h2 in
            over config (config_account c) _ found tt tt ea
              (event-Quiet _ el (λ _. refl) (λ _. refl) (λ _. refl) (λ _. refl))

  pub update_protocol_fee_recipient-Untouched :
      (config authority recipient : Pubkey)
      → update_protocol_fee_recipient config authority signed recipient w ≡ ok (tt, w')
      → Untouched market w w'
  unfolding update_protocol_fee_recipient
  update_protocol_fee_recipient-Untouched config authority recipient h =
      on_config_update config authority signed _ w h λ c found own by h1.
        let (ea, el) = come_to h1 in
        over config (config_account c) _ found tt tt ea
          (event-Quiet _ el (λ _. refl) (λ _. refl) (λ _. refl) (λ _. refl))

  pub create_quote_asset_badge-Untouched :
      (E : Runtime L) (config badge mint authority : Pubkey)
      → create_quote_asset_badge E config badge mint authority signed w ≡ ok (tt, w')
      → Untouched market w w'
  unfolding create_quote_asset_badge
  create_quote_asset_badge-Untouched E config badge mint authority h =
      on_config_update config authority signed _ w h λ c found own by h1.
        on_read (check_mint E mint) (check_mint-ReadOnly E mint) _ {w = w} h1 λ _ h2.
          on_check (badge == (E.find_address (badge_seeds config mint)).0) _ _ {w = w} h2 λ _ h3.
            on_create badge _ _ w h3 λ free h4.
              let (ea, el) = come_to h4 in
              fresh badge _ free tt ea
                (event-Quiet _ el (λ _. refl) (λ _. refl) (λ _. refl) (λ _. refl))

  pub update_quote_asset_badge-Untouched :
      (E : Runtime L) (config badge mint authority : Pubkey) (status : QuoteTokenBadgeStatus)
      → update_quote_asset_badge E config badge mint authority signed status w ≡ ok (tt, w')
      → Untouched market w w'
  unfolding update_quote_asset_badge
  update_quote_asset_badge-Untouched E config badge mint authority status h =
      on_config_update config authority signed _ w h λ c found own by h1.
        on_load_badge badge _ {w = w} h1 λ b b_found h2.
          on_check (is_address E (badge_seeds config mint) b.bump badge) _ _ {w = w} h2 λ _ h3.
            on_read (check_mint E mint) (check_mint-ReadOnly E mint) _ {w = w} h3 λ _ h4.
              let (ea, el) = come_to h4 in
              over badge (badge_account b) _ b_found tt tt ea
                (event-Quiet _ el (λ _. refl) (λ _. refl) (λ _. refl) (λ _. refl))

  pub create_referral_account-Untouched :
      (E : Runtime L) (config referral user referrer : Pubkey)
      → create_referral_account E config referral user signed referrer w ≡ ok (tt, w')
      → Untouched market w w'
  unfolding create_referral_account
  create_referral_account-Untouched E config referral user referrer h =
      on_load_config config _ {w = w} h λ _ _ h1. on_check (signed user) _ _ {w = w} h1 λ _ h2.
        on_check (referral == (E.find_address (referral_seeds config referrer)).0) _ _ {w = w} h2
          λ _ h3.
            let (free, ea, el) = created_world referral _ w w' h3 in
            fresh referral _ free tt ea (same_log el)

  pub claim_referral_fees-Untouched :
      (E : Runtime L) (referral mint source destination referrer token_program : Pubkey)
      → claim_referral_fees E referral mint source destination referrer token_program signed w
        ≡ ok (tt, w')
      → Untouched market w w'
  unfolding claim_referral_fees
  claim_referral_fees-Untouched E referral mint source destination referrer token_program h =
      on_load_referral referral _ {w = w} h λ r _ h1.
        on_check (r.referrer == referrer) _ _ {w = w} h1 λ _ h2.
          on_read (check_mint E mint) (check_mint-ReadOnly E mint) _ {w = w} h2 λ decimals h3.
            on_read (check_associated E _ _ _ _) (check_associated-ReadOnly E _ _ _ _) _ {w = w} h3
              λ _ h4.
                on_read (check_associated E _ _ _ _) (check_associated-ReadOnly E _ _ _ _) _ {w = w}
                  h4
                  λ _ h5. on_check (signed referrer) _ _ {w = w} h5 λ _ h6.
                    on_read (check_token_account E source) (check_token_account-ReadOnly E source) _
                      {w = w} h6
                      λ pending h7.
                        on_pay (transfer_from_pda E _ _ _ _ _ _ _ _ _)
                          (transfer_from_pda-Pays E _ _ _ _ _ _ _ _ _) _ w h7
                          λ w2 t h8.
                            let (ea, el) = come_to h8 in
                            let q : Quiet w.log w'.log =
                              event-Quiet (referral_fee_claim referrer mint pending)
                                (el
                                  ∙ ap
                                      (λ (log : List Event).
                                        referral_fee_claim referrer mint pending ∷ log)
                                      (sym t.log))
                                (λ _. refl) (λ _. refl) (λ _. refl) (λ _. refl) in
                            accounts-Untouched market w w' (ea ∙ sym t.accounts)
                              (q.booked_kept market) (q.paid_kept market) (q.takings_kept market)
                              (q.payouts_kept market)
