-- ===== src/Config.antt =====
-- programs/token-mill/src/state/{config,quote_token_badge,referral}.rs: the accounts that the
-- administrator and the referrers own.
use sol_token_mill.Base.{Option, none, ℕ}
use sol_token_mill.Market.{Pubkey}

pub record TokenMillConfig : Type 0 where
  pub authority : Pubkey
  pub pending_authority : Option Pubkey
  pub protocol_fee_recipient : Pubkey
  pub default_protocol_fee_share : ℕ
  pub referral_fee_share : ℕ

pub data QuoteTokenBadgeStatus : Type 0 where
  disabled enabled : QuoteTokenBadgeStatus

pub record QuoteTokenBadge : Type 0 where
  pub bump : ℕ
  pub status : QuoteTokenBadgeStatus

pub record ReferralAccount : Type 0 where
  pub bump : ℕ
  pub config : Pubkey
  pub referrer : Pubkey

-- Each `initialize` sets every field.
unfoldable pub initialize_config : Pubkey → Pubkey → ℕ → ℕ → TokenMillConfig
initialize_config authority protocol_fee_recipient protocol_fee_share referral_fee_share = record {
  authority = authority;
  pending_authority = none;
  protocol_fee_recipient = protocol_fee_recipient;
  default_protocol_fee_share = protocol_fee_share;
  referral_fee_share = referral_fee_share;
}

unfoldable pub initialize_badge : ℕ → QuoteTokenBadge
initialize_badge bump = record { bump = bump; status = enabled }

unfoldable pub initialize_referral : ℕ → Pubkey → Pubkey → ReferralAccount
initialize_referral bump config referrer = record {
  bump = bump;
  config = config;
  referrer = referrer;
}
