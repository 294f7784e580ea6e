-- ===== src/Program.antt =====
-- The state that the instructions of programs/token-mill share, and the monad in which they are
-- written: the accounts that the program owns, the token ledger, the clock and the log of events. An
-- instruction is a function on this state that may fail; the runtime undoes a failed one, so a
-- failure carries no state. Lamports and the space of accounts are not modelled, except where
-- `create_market` computes with them.
pub mod Events
pub mod External
pub mod Checks
pub mod Admin
pub mod Creator
pub mod Trade
pub mod Stake
pub mod Vest
pub mod Referral
pub mod Creation
pub mod Dispatch
pub mod Runs
pub mod Frames
pub mod Payments
pub mod Evolution
pub mod History
pub mod Silence
pub mod Stakers
pub mod Pool
use sol_token_mill.Base.{Bool, List, Option, false, if◌then◌else◌, none, some, true, ◌==◌, ◌∷◌}
use sol_token_mill.Base.Int.{ℤ}
use sol_token_mill.Config.{QuoteTokenBadge, ReferralAccount, TokenMillConfig}
use sol_token_mill.Errors.{Failure, Result, constraint, err, external, ok}
use sol_token_mill.Market.{Market, Pubkey}
use sol_token_mill.Program.Events.{Event}
use sol_token_mill.Staking.{MarketStaking, StakePosition}
use sol_token_mill.Vesting.{VestingPlan}

pub data Account : Type 0 where
  config_account : TokenMillConfig → Account
  market_account : Market → Account
  staking_account : MarketStaking → Account
  position_account : StakePosition → Account
  plan_account : VestingPlan → Account
  badge_account : QuoteTokenBadge → Account
  referral_account : ReferralAccount → Account

pub record World (L : Type 0) : Type 0 where
  pub accounts : Pubkey → Option Account
  pub ledger : L
  pub unix_timestamp : ℤ
  pub log : List Event

abbrev pub Instruction : Type 0 → Type 0 → Type 0
Instruction L A = World L → Result (A × World L)

infixl 5 ◌>>=◌ ◌>>◌
abbrev pub ◌>>=◌ : {L A B : Type 0} → Instruction L A → (A → Instruction L B) → Instruction L B
◌>>=◌ m f w = elim (m w) [ ok (a, w') ↦ f a w' | err e ↦ err e ]

abbrev pub ◌>>◌ : {L B : Type 0} → Instruction L (Unit {0}) → Instruction L B → Instruction L B
m >> k = m >>= λ _. k

abbrev pub update : (Pubkey → Option Account) → Pubkey → Account → Pubkey → Option Account
update accounts key a k = if k == key then some a else accounts k

module _ {L : Type 0} where
  abbrev pub return : {A : Type 0} → A → Instruction L A
  return a w = ok (a, w)

  -- A computation that does not touch the state.
  abbrev pub lift : {A : Type 0} → Result A → Instruction L A
  lift (ok a) w = ok (a, w)
  lift (err e) w = err e

  abbrev pub check : Bool → Failure → Instruction L (Unit {0})
  check true e w = ok (tt, w)
  check false e w = err e

  abbrev pub gets : {A : Type 0} → (World L → A) → Instruction L A
  gets f w = ok (f w, w)

  -- A call that changes the ledger, with what it came to.
  abbrev pub called : World L → Option L → Result (Unit {0} × World L)
  called w none = err external
  called w (some l) = ok (tt, record w { ledger = l })

  abbrev pub invoke : (L → Option L) → Instruction L (Unit {0})
  invoke call w = called w (call w.ledger)

  -- `emit_cpi!`.
  abbrev pub emit : Event → Instruction L (Unit {0})
  emit e w = ok (tt, record w { log = e ∷ w.log })

  abbrev pub store : Pubkey → Account → Instruction L (Unit {0})
  store key a w = ok (tt, record w { accounts = update w.accounts key a })

  -- `init` on an account of the program: the address must be free.
  abbrev pub create : Pubkey → Account → Instruction L (Unit {0})
  create key a w = elim (w.accounts key) [ none ↦ store key a w | some _ ↦ err constraint ]

-- The framework reads each account at its type, and fails on another.
abbrev pub as_config : Option Account → Result TokenMillConfig
as_config (some (config_account a)) = ok a
as_config _ = err constraint

abbrev pub as_market : Option Account → Result Market
as_market (some (market_account a)) = ok a
as_market _ = err constraint

abbrev pub as_staking : Option Account → Result MarketStaking
as_staking (some (staking_account a)) = ok a
as_staking _ = err constraint

abbrev pub as_position : Option Account → Result StakePosition
as_position (some (position_account a)) = ok a
as_position _ = err constraint

abbrev pub as_plan : Option Account → Result VestingPlan
as_plan (some (plan_account a)) = ok a
as_plan _ = err constraint

abbrev pub as_badge : Option Account → Result QuoteTokenBadge
as_badge (some (badge_account a)) = ok a
as_badge _ = err constraint

abbrev pub as_referral : Option Account → Result ReferralAccount
as_referral (some (referral_account a)) = ok a
as_referral _ = err constraint

module _ {L : Type 0} where
  abbrev pub load_config : Pubkey → Instruction L TokenMillConfig
  load_config key w = lift (as_config (w.accounts key)) w

  abbrev pub load_market : Pubkey → Instruction L Market
  load_market key w = lift (as_market (w.accounts key)) w

  abbrev pub load_staking : Pubkey → Instruction L MarketStaking
  load_staking key w = lift (as_staking (w.accounts key)) w

  abbrev pub load_position : Pubkey → Instruction L StakePosition
  load_position key w = lift (as_position (w.accounts key)) w

  abbrev pub load_plan : Pubkey → Instruction L VestingPlan
  load_plan key w = lift (as_plan (w.accounts key)) w

  abbrev pub load_badge : Pubkey → Instruction L QuoteTokenBadge
  load_badge key w = lift (as_badge (w.accounts key)) w

  abbrev pub load_referral : Pubkey → Instruction L ReferralAccount
  load_referral key w = lift (as_referral (w.accounts key)) w
