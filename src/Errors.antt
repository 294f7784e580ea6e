-- ===== src/Errors.antt =====
-- programs/token-mill/src/errors.rs, and the ways in which an instruction can fail. A failed
-- instruction is undone as a whole by the runtime, so a failure carries no state.
use sol_token_mill.Base.{Bool, Option, arith, false, none, refl, some, true, ◌≡◌}

-- errors.rs, in its order.
pub data TokenMillError : Type 0 where
  prices_already_set bid_ask_mismatch decreasing_prices price_too_high : TokenMillError
  invalid_total_supply invalid_amount math_error invalid_authority : TokenMillError
  invalid_config invalid_quote_asset_badge invalid_fee_share : TokenMillError
  amount_threshold_not_met insufficient_stake_amount invalid_market : TokenMillError
  invalid_mint_account invalid_referral_account invalid_quote_token_mint : TokenMillError
  unsupported_token_mint invalid_config_account invalid_stake_position : TokenMillError
  invalid_vesting_duration invalid_vesting_start_time : TokenMillError

-- `error` is an `Err` with a code of the program, `try_from_int` the `Err` of a narrowing cast
-- under `?`, `constraint` an account check of the framework that names no code of the program,
-- `external` an error that code outside the repository returns, and `panic` an arithmetic
-- overflow (the release profile sets overflow-checks), a division by zero, an index out of
-- range or an `unwrap` of nothing.
pub data Failure : Type 0 where
  error : TokenMillError → Failure
  try_from_int constraint external panic : Failure

-- What an instruction, or a part of it, comes to.
pub data Result {ℓ} (A : Type ℓ) : Type ℓ where
  err : Failure → Result A
  ok : A → Result A

pub ok-injective {ℓ} : {A : Type ℓ} {a b : A} → ok a ≡ ok b → a ≡ b
ok-injective h = cc

abbrev pub or_fail {ℓ} : {A : Type ℓ} → Option A → Failure → Result A
or_fail none failure = err failure
or_fail (some value) failure = ok value

-- The operator `?`, followed by the rest of the function.
infixl 5 ◌>>=◌
abbrev pub ◌>>=◌ {ℓ κ} : {A : Type ℓ} {B : Type κ} → Result A → (A → Result B) → Result B
err failure >>= rest = err failure
ok value >>= rest = rest value

infixl 5 ◌>>◌
abbrev pub ◌>>◌ {ℓ} : {B : Type ℓ} → Result (Unit {0}) → Result B → Result B
done >> rest = done >>= λ _. rest

-- `require!(b, e)`.
abbrev pub require : Bool → Failure → Result (Unit {0})
require true e = ok tt
require false e = err e

-- A proof from a bind that has succeeded goes on with the value as a variable.
pub on_ok {ℓ κ μ} :
    {A : Type ℓ} {B : Type κ} {P : Type μ} (m : Result A) {f : A → Result B} {b : B}
    → (m >>= f) ≡ ok b
    → ((a : A) → m ≡ ok a → f a ≡ ok b → P)
    → P
on_ok (err e) h k = absurd (ground arith)
on_ok (ok a) h k = k a refl h

-- The same as a triple.
pub >>=-eq-ok {ℓ κ} :
    {A : Type ℓ} {B : Type κ} (m : Result A) (f : A → Result B) {b : B} (h : (m >>= f) ≡ ok b)
    → (a : A) × (m ≡ ok a) × (f a ≡ ok b)
>>=-eq-ok m f h = on_ok m h λ a e i. (a, e, i)
