-- ===== src/Program/Creation/Badge.antt =====
-- programs/token-mill/src/instructions/create_market.rs: the attribute of the badge account.
use sol_token_mill.Base.{
  Bool, Option, ap, arith, false, inl, inr, none, refl, some, true, ◌==◌, ◌||◌, ◌↔◌, ◌∙◌, ◌≡◌, ◌⊎◌,
}
use sol_token_mill.Config.{
  QuoteTokenBadge, QuoteTokenBadgeStatus, TokenMillConfig, disabled, enabled,
}
use sol_token_mill.Errors.{Failure, constraint, error, invalid_quote_asset_badge, ok}
use sol_token_mill.Market.{Pubkey}
use sol_token_mill.Program.{
  Account, Instruction, World, as_badge, badge_account, check, lift, load_badge, ◌>>◌,
}
use sol_token_mill.Program.Checks.{is_address}
use sol_token_mill.Program.Creation.{check_badge, is_enabled}
use sol_token_mill.Program.External.{Runtime, badge_seeds}
use sol_token_mill.Program.Runs.{on_check, on_load_badge, step_taken}

-- What a badge account must be for the instruction to go on.
pub record BadgeFits {L : Type 0} (E : Runtime L) (c : TokenMillConfig)
    (config quote_token_mint creator key : Pubkey) (w : World L) : Type 0 where
  pub badge : QuoteTokenBadge
  pub stored : w.accounts key ≡ some (badge_account badge)
  pub address : is_address E (badge_seeds config quote_token_mint) badge.bump key ≡ true
  pub allowed : (badge.status ≡ enabled) ⊎ (creator ≡ c.authority)

-- The condition on the optional account.
abbrev pub BadgeAccepted :
    {L : Type 0}
    → Runtime L
    → TokenMillConfig
    → (config quote_token_mint creator : Pubkey) → Option Pubkey
    → World L
    → Type 0
BadgeAccepted E c config quote_token_mint creator none w = Unit {0}
BadgeAccepted E c config quote_token_mint creator (some key) w =
    BadgeFits E c config quote_token_mint creator key w

allowed_sound :
    (status : QuoteTokenBadgeStatus) (creator authority : Pubkey)
    → (is_enabled status || creator == authority) ≡ true
    → (status ≡ enabled) ⊎ (creator ≡ authority)
allowed_sound enabled creator authority h = inl refl
allowed_sound disabled creator authority h = inr (ground arith)

allowed_complete :
    (status : QuoteTokenBadgeStatus) (creator authority : Pubkey)
    → (status ≡ enabled) ⊎ (creator ≡ authority)
    → (is_enabled status || creator == authority) ≡ true
allowed_complete enabled creator authority h = refl
allowed_complete disabled creator authority (inl h) = absurd (ground arith)
allowed_complete disabled creator authority (inr h) = ground arith

passed : {L : Type 0} (b : Bool) (e : Failure) (w : World L) → check b e w ≡ ok (tt, w) → b ≡ true
passed true e w h = refl
passed false e w h = absurd (ground arith)

let_pass : {L : Type 0} (b : Bool) (e : Failure) (w : World L) → b ≡ true → check b e w ≡ ok (tt, w)
let_pass true e w h = refl
let_pass false e w h = absurd (ground arith)

module _ {L : Type 0} (E : Runtime L) (c : TokenMillConfig)
    (config quote_token_mint creator : Pubkey) where
  abbrev test_address : (key : Pubkey) → QuoteTokenBadge → Bool
  test_address key b = is_address E (badge_seeds config quote_token_mint) b.bump key

  abbrev test_status : QuoteTokenBadge → Instruction L (Unit {0})
  test_status b =
      check (is_enabled b.status || creator == c.authority) (error invalid_quote_asset_badge)

  abbrev tests : (key : Pubkey) → QuoteTokenBadge → Instruction L (Unit {0})
  tests key b = check (test_address key b) constraint >> test_status b

  check_badge_sound :
      (badge : Option Pubkey) (w : World L)
      → check_badge E c config quote_token_mint creator badge w ≡ ok (tt, w)
      → BadgeAccepted E c config quote_token_mint creator badge w
  unfolding check_badge
  check_badge_sound none w h = tt
  check_badge_sound (some key) w h = on_load_badge key (tests key) {w = w} h λ b found h1.
      on_check (test_address key b) constraint (λ _. test_status b) {w = w} h1
        λ at h2. record {
          badge = b;
          stored = found;
          address = at;
          allowed =
              allowed_sound b.status creator c.authority
                (passed _ (error invalid_quote_asset_badge) w h2);
        }

  check_badge_complete :
      (badge : Option Pubkey) (w : World L)
      → BadgeAccepted E c config quote_token_mint creator badge w
      → check_badge E c config quote_token_mint creator badge w ≡ ok (tt, w)
  unfolding check_badge
  check_badge_complete none w h = refl
  check_badge_complete (some key) w h =
      step_taken (load_badge key) (tests key) {w = w}
        (ap (λ (x : Option Account). lift (as_badge x) w) h.stored)
      ∙ step_taken (check (test_address key h.badge) constraint) (λ _. test_status h.badge) {w = w}
          (let_pass (test_address key h.badge) constraint w h.address)
      ∙ let_pass (is_enabled h.badge.status || creator == c.authority)
          (error invalid_quote_asset_badge) w
          (allowed_complete h.badge.status creator c.authority h.allowed)

  -- The attribute of the badge lets the instruction go on exactly when the badge account is left out,
  -- or is a badge at its address that is enabled, or the creator is the authority of the configuration
  -- and gives a badge at its address. With the account left out it asks nothing of the creator.
  pub check_badge_iff :
      (badge : Option Pubkey) (w : World L)
      → (check_badge E c config quote_token_mint creator badge w ≡ ok (tt, w))
        ↔ BadgeAccepted E c config quote_token_mint creator badge w
  check_badge_iff badge w = (check_badge_sound badge w, check_badge_complete badge w)
