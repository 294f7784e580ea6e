-- ===== src/Program/Evolution/Configs.antt =====
-- programs/token-mill/src/instructions/admin: what the instructions of the administrator do to the
-- accounts.
use sol_token_mill.Base.{
  Bool, Option, arith, inl, inr, leb, none, refl, some, true, ℕ, ◌&&◌, ◌==◌, ◌≡◌, ◌≤◌,
}
use sol_token_mill.Config.{QuoteTokenBadgeStatus, TokenMillConfig, initialize_config}
use sol_token_mill.Constant.{max_bps}
use sol_token_mill.Errors.{ok}
use sol_token_mill.Market.{Pubkey}
use sol_token_mill.Program.{World, badge_account, config_account, update}
use sol_token_mill.Program.Admin.{
  accept_config_ownership, create_config, create_quote_asset_badge, transfer_config_ownership,
  update_default_fee_shares, update_protocol_fee_recipient, update_quote_asset_badge,
}
use sol_token_mill.Program.Admin.Ownership.{key-some, on_config_update}
use sol_token_mill.Program.Checks.{check_mint, is_address, is_key}
use sol_token_mill.Program.Evolution.{AccountsValid, ConfigValid, Evolves, badge_step, config_step}
use sol_token_mill.Program.Evolution.Changes.{Evolves-new, Evolves-write}
use sol_token_mill.Program.External.{Runtime, badge_seeds}
use sol_token_mill.Program.Frames.{check_mint-ReadOnly}
use sol_token_mill.Program.Runs.{accounts_of, on_check, on_create, on_load_badge, on_load_config}
use sol_token_mill.Program.Runs.Keeps.{on_read}
use sol_token_mill.Program.Trade.{referral_share}

fees_fit :
    (protocol_share referral_share : ℕ)
    → leb protocol_share max_bps && leb referral_share max_bps ≡ true
    → (protocol_share ≤ max_bps) × (referral_share ≤ max_bps)
fees_fit protocol_share referral_share h = ground arith

module _ {L : Type 0} (signed : Pubkey → Bool) (w w' : World L) (v : AccountsValid w.accounts) where
  pub create_config-Evolves :
      (config payer authority recipient : Pubkey) (protocol_share referral_share : ℕ)
      → create_config config payer signed authority recipient protocol_share referral_share w
        ≡ ok (tt, w')
      → Evolves signed w.accounts w'.accounts
  unfolding create_config initialize_config
  create_config-Evolves config payer authority recipient protocol_share referral_share h =
      on_check (signed config && signed payer) _ _ {w = w} h λ _ h1.
        on_create config _ _ w h1 λ free h2.
          on_check (leb protocol_share max_bps && leb referral_share max_bps) _ _
            {w = record w { accounts = update w.accounts config _ }} h2
            λ fits h3.
              let (fp, fr) = fees_fit protocol_share referral_share fits in
              Evolves-new config
                (config_account
                  (initialize_config authority recipient protocol_share referral_share))
                v free (record { protocol_share = fp; referral_share = fr }) (accounts_of h3)

  -- The authority changes what it likes but itself, within the bounds of the shares.
  by_authority :
      (key : Pubkey) (c c' : TokenMillConfig)
      → w.accounts key ≡ some (config_account c)
      → signed c.authority ≡ true
      → c'.authority ≡ c.authority
      → ConfigValid c'
      → w'.accounts ≡ update w.accounts key (config_account c')
      → Evolves signed w.accounts w'.accounts
  by_authority key c c' found by same valid e =
      Evolves-write key (config_account c) (config_account c') v found
        (config_step c c' refl refl (record { by = inl (by, same) })) valid e

  pub transfer_config_ownership-Evolves :
      (config authority : Pubkey) (new_authority : Option Pubkey)
      → transfer_config_ownership config authority signed new_authority w ≡ ok (tt, w')
      → Evolves signed w.accounts w'.accounts
  unfolding transfer_config_ownership
  transfer_config_ownership-Evolves config authority named h =
      on_config_update config authority signed _ w h λ c found own by h1.
        let vc = v.valid config (config_account c) found in
        by_authority config c (record c { pending_authority = named }) found (rw own by) refl
          (record { protocol_share = vc.protocol_share; referral_share = vc.referral_share })
          (accounts_of h1)

  pub accept_config_ownership-Evolves :
      (config pending_authority : Pubkey)
      → accept_config_ownership config pending_authority signed w ≡ ok (tt, w')
      → Evolves signed w.accounts w'.accounts
  unfolding accept_config_ownership
  accept_config_ownership-Evolves config next h = on_check (signed next) _ _ {w = w} h λ by h1.
      on_load_config config _ {w = w} h1 λ c found h2.
        on_check (is_key c.pending_authority next) _ _ {w = w} h2 λ named h3.
          let vc = v.valid config (config_account c) found in
          let c' : TokenMillConfig = record c { authority = next; pending_authority = none } in
          Evolves-write config (config_account c) (config_account c') v found
            (config_step c c' refl refl
              (record { by = inr (key-some c.pending_authority named, by, refl) }))
            (record { protocol_share = vc.protocol_share; referral_share = vc.referral_share })
            (accounts_of h3)

  pub update_default_fee_shares-Evolves :
      (config authority : Pubkey) (protocol_share referral_share : ℕ)
      → update_default_fee_shares config authority signed protocol_share referral_share w
        ≡ ok (tt, w')
      → Evolves signed w.accounts w'.accounts
  unfolding update_default_fee_shares
  update_default_fee_shares-Evolves config authority protocol_share referral_share h =
      on_config_update config authority signed _ w h λ c found own by h1.
        on_check (leb protocol_share max_bps && leb referral_share max_bps) _ _ {w = w} h1
          λ fits h2.
            let (fp, fr) = fees_fit protocol_share referral_share fits in
            by_authority config c _ found (rw own by) refl
              (record { protocol_share = fp; referral_share = fr }) (accounts_of h2)

  pub update_protocol_fee_recipient-Evolves :
      (config authority recipient : Pubkey)
      → update_protocol_fee_recipient config authority signed recipient w ≡ ok (tt, w')
      → Evolves signed w.accounts w'.accounts
  unfolding update_protocol_fee_recipient
  update_protocol_fee_recipient-Evolves config authority recipient h =
      on_config_update config authority signed _ w h λ c found own by h1.
        let vc = v.valid config (config_account c) found in
        by_authority config c (record c { protocol_fee_recipient = recipient }) found (rw own by)
          refl (record { protocol_share = vc.protocol_share; referral_share = vc.referral_share })
          (accounts_of h1)

  pub create_quote_asset_badge-Evolves :
      (E : Runtime L) (config badge mint authority : Pubkey)
      → create_quote_asset_badge E config badge mint authority signed w ≡ ok (tt, w')
      → Evolves signed w.accounts w'.accounts
  unfolding create_quote_asset_badge
  create_quote_asset_badge-Evolves E config badge mint authority h =
      on_config_update config authority signed _ w h λ c found own by h1.
        on_read (check_mint E mint) (check_mint-ReadOnly E mint) _ {w = w} h1 λ _ h2.
          on_check (badge == (E.find_address (badge_seeds config mint)).0) _ _ {w = w} h2 λ _ h3.
            on_create badge _ _ w h3 λ free h4. Evolves-new badge _ v free tt (accounts_of h4)

  pub update_quote_asset_badge-Evolves :
      (E : Runtime L) (config badge mint authority : Pubkey) (status : QuoteTokenBadgeStatus)
      → update_quote_asset_badge E config badge mint authority signed status w ≡ ok (tt, w')
      → Evolves signed w.accounts w'.accounts
  unfolding update_quote_asset_badge
  update_quote_asset_badge-Evolves E config badge mint authority status h =
      on_config_update config authority signed _ w h λ c found own by h1.
        on_load_badge badge _ {w = w} h1 λ b b_found h2.
          on_check (is_address E (badge_seeds config mint) b.bump badge) _ _ {w = w} h2 λ _ h3.
            on_read (check_mint E mint) (check_mint-ReadOnly E mint) _ {w = w} h3 λ _ h4.
              Evolves-write badge (badge_account b) (badge_account (record b { status = status })) v
                b_found (badge_step b _ refl refl refl) tt (accounts_of h4)
