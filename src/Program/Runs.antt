-- ===== src/Program/Runs.antt =====
-- What follows from the success of an instruction: each lemma takes one step off the front of a chain
-- that has succeeded, and the proof goes on with what the step has established.
pub mod Keeps
use sol_token_mill.Base.{
  Bool, Option, ap, arith, false, none, refl, some, sym, true, ◌==◌, ◌∙◌, ◌≡◌,
}
use sol_token_mill.Config.{QuoteTokenBadge, ReferralAccount, TokenMillConfig}
use sol_token_mill.Errors.{Failure, Result, constraint, err, ok, ok-injective}
use sol_token_mill.Market.{Market, Pubkey}
use sol_token_mill.Program.{
  Account, Instruction, World, as_badge, as_config, as_market, as_plan, as_position, as_referral,
  as_staking, badge_account, called, check, config_account, create, invoke, lift, load_badge,
  load_config, load_market, load_plan, load_position, load_referral, load_staking, market_account,
  plan_account, position_account, referral_account, staking_account, store, update, ◌>>=◌,
}
use sol_token_mill.Staking.{MarketStaking, StakePosition}
use sol_token_mill.Vesting.{VestingPlan}

pub lift-eq-ok :
    {L A : Type 0} (m : Result A) {w : World L} {a : A} {w' : World L}
    → lift m w ≡ ok (a, w')
    → (m ≡ ok a) × (w ≡ w')
lift-eq-ok (ok a) h = (ap (λ p. ok (p.0)) (ok-injective h), ap (λ p. p.1) (ok-injective h))
lift-eq-ok (err e) h = absurd (ground arith)

module _ {ℓ} {L B : Type 0} {P : Type ℓ} {r : B × World L} where
  -- The result of the first step, and the world after it.
  on_result :
      {A : Type 0} (x : Result (A × World L)) {f : A → Instruction L B}
      → elim x [ ok (a, w') ↦ f a w' | err e ↦ err e ] ≡ ok r
      → ((a : A) (w' : World L) → x ≡ ok (a, w') → f a w' ≡ ok r → P)
      → P
  on_result (ok (a, w')) h k = k a w' refl h
  on_result (err e) h k = absurd (ground arith)

  pub on_step :
      {A : Type 0} (m : Instruction L A) {f : A → Instruction L B} {w : World L}
      → (m >>= f) w ≡ ok r
      → ((a : A) (w' : World L) → m w ≡ ok (a, w') → f a w' ≡ ok r → P)
      → P
  on_step m {f} {w} h k = on_result (m w) h k

  pub on_check :
      (b : Bool) (e : Failure) (f : Unit {0} → Instruction L B) {w : World L}
      → (check b e >>= f) w ≡ ok r
      → (b ≡ true → f tt w ≡ ok r → P)
      → P
  on_check true e f h k = k refl h
  on_check false e f h k = absurd (ground arith)

  pub on_lift :
      {A : Type 0} (m : Result A) (f : A → Instruction L B) {w : World L}
      → (lift m >>= f) w ≡ ok r
      → ((a : A) → m ≡ ok a → f a w ≡ ok r → P)
      → P
  on_lift (ok a) f h k = k a refl h
  on_lift (err e) f h k = absurd (ground arith)

  on_called :
      (x : Option L) (f : Unit {0} → Instruction L B) (w : World L)
      → ((λ _. called w x) >>= f) w ≡ ok r
      → ((l : L) → f tt (record w { ledger = l }) ≡ ok r → P)
      → P
  on_called (some l) f w h k = k l h
  on_called none f w h k = absurd (ground arith)

  -- A call of a program changes the ledger only.
  pub on_invoke :
      (call : L → Option L) (f : Unit {0} → Instruction L B) (w : World L)
      → (invoke call >>= f) w ≡ ok r
      → ((l : L) → f tt (record w { ledger = l }) ≡ ok r → P)
      → P
  on_invoke call f w h k = on_called (call w.ledger) f w h k

pub same_key : {a b : Pubkey} → a == b ≡ true → a ≡ b
same_key h = ground arith

pub update_same :
    (accounts : Pubkey → Option Account) (key : Pubkey) (x : Account)
    → update accounts key x key ≡ some x
update_same accounts key x = ground arith

pub as_market-eq :
    (a : Option Account) (x : Market) → as_market a ≡ ok x → a ≡ some (market_account x)
as_market-eq a x h = ground arith

pub as_config-eq :
    (a : Option Account) (x : TokenMillConfig) → as_config a ≡ ok x → a ≡ some (config_account x)
as_config-eq a x h = ground arith

pub as_staking-eq :
    (a : Option Account) (x : MarketStaking) → as_staking a ≡ ok x → a ≡ some (staking_account x)
as_staking-eq a x h = ground arith

pub as_position-eq :
    (a : Option Account) (x : StakePosition) → as_position a ≡ ok x → a ≡ some (position_account x)
as_position-eq a x h = ground arith

pub as_plan-eq :
    (a : Option Account) (x : VestingPlan) → as_plan a ≡ ok x → a ≡ some (plan_account x)
as_plan-eq a x h = ground arith

pub as_badge-eq :
    (a : Option Account) (x : QuoteTokenBadge) → as_badge a ≡ ok x → a ≡ some (badge_account x)
as_badge-eq a x h = ground arith

pub as_referral-eq :
    (a : Option Account) (x : ReferralAccount)
    → as_referral a ≡ ok x
    → a ≡ some (referral_account x)
as_referral-eq a x h = ground arith

-- An account is loaded by its address, and read at its type.
module _ {ℓ} {L A B : Type 0} {P : Type ℓ} {r : B × World L} where
  on_loaded :
      (load : Instruction L A) (as_type : Option Account → Result A) (account : A → Account)
      (key : Pubkey)
      → ((a : Option Account) (x : A) → as_type a ≡ ok x → a ≡ some (account x))
      → ((w : World L) → load w ≡ lift (as_type (w.accounts key)) w)
      → (f : A → Instruction L B) (w : World L) → (load >>= f) w ≡ ok r
      → ((x : A) → w.accounts key ≡ some (account x) → f x w ≡ ok r → P)
      → P
  on_loaded load as_type account key inverse loads f w h k =
      on_step load {f = f} {w = w} h λ x w1 e h1.
        let (ex, ew) = lift-eq-ok (as_type (w.accounts key)) (sym (loads w) ∙ e) in
        k x (inverse (w.accounts key) x ex) (rw (sym ew) at h1)

module _ {ℓ} {L B : Type 0} {P : Type ℓ} {r : B × World L} where
  pub on_load_market :
      (key : Pubkey) (f : Market → Instruction L B) {w : World L}
      → (load_market key >>= f) w ≡ ok r
      → ((x : Market) → w.accounts key ≡ some (market_account x) → f x w ≡ ok r → P)
      → P
  on_load_market key f {w} h k =
      on_loaded (load_market key) as_market market_account key as_market-eq (λ _. refl) f w h k

  pub on_load_config :
      (key : Pubkey) (f : TokenMillConfig → Instruction L B) {w : World L}
      → (load_config key >>= f) w ≡ ok r
      → ((x : TokenMillConfig) → w.accounts key ≡ some (config_account x) → f x w ≡ ok r → P)
      → P
  on_load_config key f {w} h k =
      on_loaded (load_config key) as_config config_account key as_config-eq (λ _. refl) f w h k

  pub on_load_staking :
      (key : Pubkey) (f : MarketStaking → Instruction L B) {w : World L}
      → (load_staking key >>= f) w ≡ ok r
      → ((x : MarketStaking) → w.accounts key ≡ some (staking_account x) → f x w ≡ ok r → P)
      → P
  on_load_staking key f {w} h k =
      on_loaded (load_staking key) as_staking staking_account key as_staking-eq (λ _. refl) f w h k

  pub on_load_position :
      (key : Pubkey) (f : StakePosition → Instruction L B) {w : World L}
      → (load_position key >>= f) w ≡ ok r
      → ((x : StakePosition) → w.accounts key ≡ some (position_account x) → f x w ≡ ok r → P)
      → P
  on_load_position key f {w} h k =
      on_loaded (load_position key) as_position position_account key as_position-eq (λ _. refl) f w
        h k

  pub on_load_plan :
      (key : Pubkey) (f : VestingPlan → Instruction L B) {w : World L}
      → (load_plan key >>= f) w ≡ ok r
      → ((x : VestingPlan) → w.accounts key ≡ some (plan_account x) → f x w ≡ ok r → P)
      → P
  on_load_plan key f {w} h k =
      on_loaded (load_plan key) as_plan plan_account key as_plan-eq (λ _. refl) f w h k

  pub on_load_badge :
      (key : Pubkey) (f : QuoteTokenBadge → Instruction L B) {w : World L}
      → (load_badge key >>= f) w ≡ ok r
      → ((x : QuoteTokenBadge) → w.accounts key ≡ some (badge_account x) → f x w ≡ ok r → P)
      → P
  on_load_badge key f {w} h k =
      on_loaded (load_badge key) as_badge badge_account key as_badge-eq (λ _. refl) f w h k

  pub on_load_referral :
      (key : Pubkey) (f : ReferralAccount → Instruction L B) {w : World L}
      → (load_referral key >>= f) w ≡ ok r
      → ((x : ReferralAccount) → w.accounts key ≡ some (referral_account x) → f x w ≡ ok r → P)
      → P
  on_load_referral key f {w} h k =
      on_loaded (load_referral key) as_referral referral_account key as_referral-eq (λ _. refl) f w
        h k

-- The accounts after an instruction that has come to its end.
pub accounts_of :
    {L A : Type 0} {a a' : A} {w w' : World L}
    → ◌≡◌ {A = Result (A × World L)} (ok (a, w)) (ok (a', w'))
    → w'.accounts ≡ w.accounts
accounts_of h = sym (ap (λ p. p.1.accounts) (ok-injective h))

-- An account that is created was not there before.
module _ {ℓ} {L B : Type 0} {P : Type ℓ} {r : B × World L} where
  on_created :
      (key : Pubkey) (a : Account) (x : Option Account) (f : Unit {0} → Instruction L B)
      (w : World L)
      → ((λ w. elim x [ none ↦ store key a w | some _ ↦ err constraint ]) >>= f) w ≡ ok r
      → (x ≡ none → f tt (record w { accounts = update w.accounts key a }) ≡ ok r → P)
      → P
  on_created key a none f w h k = k refl h
  on_created key a (some _) f w h k = absurd (ground arith)

  pub on_create :
      (key : Pubkey) (a : Account) (f : Unit {0} → Instruction L B) (w : World L)
      → (create key a >>= f) w ≡ ok r
      → (w.accounts key ≡ none → f tt (record w { accounts = update w.accounts key a }) ≡ ok r → P)
      → P
  on_create key a f w h k = on_created key a (w.accounts key) f w h k

-- The same for a creation that comes last.
created_last {ℓ} :
    {L : Type 0} {P : Type ℓ} (key : Pubkey) (a : Account) (x : Option Account) (w w' : World L)
    → ◌≡◌ {A = Result (Unit {0} × World L)}
        (elim x [ none ↦ store key a w | some _ ↦ err constraint ])
        (ok (tt, w'))
    → (x ≡ none → w'.accounts ≡ update w.accounts key a → P)
    → P
created_last key a none w w' h k = k refl (accounts_of h)
created_last key a (some _) w w' h k = absurd (ground arith)

pub created {ℓ} :
    {L : Type 0} {P : Type ℓ} (key : Pubkey) (a : Account) (w w' : World L)
    → create key a w ≡ ok (tt, w')
    → (w.accounts key ≡ none → w'.accounts ≡ update w.accounts key a → P)
    → P
created key a w w' h k = created_last key a (w.accounts key) w w' h k

on_value :
    {L A B : Type 0} (x : Result (A × World L)) (f : A → Instruction L B) {w' : World L} {a : A}
    → x ≡ ok (a, w')
    → ◌≡◌ {A = Result (B × World L)} (elim x [ ok (b, v) ↦ f b v | err e ↦ err e ]) (f a w')
on_value (ok (b, v)) f h = let e = ok-injective h in ap (λ (z : _ × _). f z.0 z.1) e
on_value (err e) f h = absurd (ground arith)

-- The other way: a chain whose first step succeeds is the rest of the chain.
pub step_taken :
    {L A B : Type 0} (m : Instruction L A) (f : A → Instruction L B) {w w' : World L} {a : A}
    → m w ≡ ok (a, w')
    → (m >>= f) w ≡ f a w'
step_taken {L} {A} {B} m f h = on_value (m _) f h
