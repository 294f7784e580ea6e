-- ===== src/Program/Frames.antt =====
-- Which of the checks and calls of instructions only read, and which leave the accounts of the program
-- as they are.
use sol_token_mill.Base.{
  Bool, List, Option, ap, arith, false, if◌then◌else◌, none, some, subst, sym, true, ℕ, ◌≡◌,
}
use sol_token_mill.Errors.{Result, constraint, err, external, ok, ok-injective, or_fail}
use sol_token_mill.Market.{Pubkey}
use sol_token_mill.Market.Monotone.{or_fail-some}
use sol_token_mill.Program.{Instruction, World, return, ◌>>=◌}
use sol_token_mill.Program.Checks.{
  all_allowed, check_associated, check_has_mint, check_mint, check_mint_extensions,
  check_token_account, transfer_from_eoa, transfer_from_pda,
}
use sol_token_mill.Program.External.{ExtensionType, Runtime, Seeds, eoa, pda}
use sol_token_mill.Program.Runs.{lift-eq-ok, on_step}
use sol_token_mill.Program.Runs.Keeps.{
  KeepsAccounts, ReadOnly, check-ReadOnly, invoke-KeepsAccounts, return-ReadOnly,
}

extensions_read :
    {L : Type 0} (E : Runtime L) (w : World L) (a : Bool) (w' : World L) (owned : Bool)
    (found : Option (List ExtensionType))
    → if◌then◌else◌ {A = Result (Bool × World L)} owned
        (ok (true, w))
        (elim found [ none ↦ err external | some es ↦ ok (all_allowed E es, w) ])
      ≡ ok (a, w')
    → w ≡ w'
extensions_read E w a w' true found h = ap (λ p. p.1) (ok-injective h)
extensions_read E w a w' false none h = absurd (ground arith)
extensions_read E w a w' false (some es) h = ap (λ p. p.1) (ok-injective h)

module _ {L : Type 0} (E : Runtime L) where
  pub check_mint-ReadOnly : (mint : Pubkey) → ReadOnly (check_mint E mint)
  check_mint-ReadOnly mint w a w' h =
      (lift-eq-ok (or_fail (E.mint_decimals w.ledger mint) constraint) h).1

  -- The mint is read, with its decimals.
  pub on_mint {ℓ} :
      {B : Type 0} {P : Type ℓ} {r : B × World L} (mint : Pubkey) (f : ℕ → Instruction L B)
      {w : World L}
      → (check_mint E mint >>= f) w ≡ ok r
      → ((d : ℕ) → E.mint_decimals w.ledger mint ≡ some d → f d w ≡ ok r → P)
      → P
  on_mint {r = r} mint f {w} h k = on_step (check_mint E mint) {f = f} {w = w} h λ d w1 e h1.
      let (found, same) = lift-eq-ok (or_fail (E.mint_decimals w.ledger mint) constraint) e in
      k d (or_fail-some (E.mint_decimals w.ledger mint) constraint found)
        (subst (λ (x : World L). f d x ≡ ok r) (sym same) h1)

  pub check_token_account-ReadOnly : (key : Pubkey) → ReadOnly (check_token_account E key)
  check_token_account-ReadOnly key w a w' h =
      (lift-eq-ok (or_fail (E.token_amount w.ledger key) constraint) h).1

  pub check_has_mint-ReadOnly : (account mint : Pubkey) → ReadOnly (check_has_mint E account mint)
  check_has_mint-ReadOnly account mint w a w' h =
      check-ReadOnly (E.has_mint w.ledger account mint) constraint w a w' h

  pub check_associated-ReadOnly :
      (account mint authority token_program : Pubkey)
      → ReadOnly (check_associated E account mint authority token_program)
  check_associated-ReadOnly account mint authority token_program w a w' h =
      check-ReadOnly (E.is_associated w.ledger account mint authority token_program) constraint w a
        w' h

  pub transfer_from_eoa-KeepsAccounts :
      (mint : Pubkey) (decimals : ℕ) (owner source destination token_program : Pubkey) (amount : ℕ)
      → KeepsAccounts
          (transfer_from_eoa E mint decimals owner source destination token_program amount)
  unfolding transfer_from_eoa
  transfer_from_eoa-KeepsAccounts mint decimals owner source destination token_program amount w u w'
        h =
      invoke-KeepsAccounts
        (E.transfer_checked (record {
          token_program = token_program;
          mint = mint;
          source = source;
          destination = destination;
          authority = eoa owner;
          amount = amount;
          decimals = decimals;
        }))
        w u w' h

  pub transfer_from_pda-KeepsAccounts :
      (mint : Pubkey) (decimals : ℕ) (owner source destination token_program : Pubkey) (amount : ℕ)
      (seeds : Seeds) (bump : ℕ)
      → KeepsAccounts (
          transfer_from_pda E mint decimals owner source destination token_program amount seeds
            bump)
  unfolding transfer_from_pda
  transfer_from_pda-KeepsAccounts mint decimals owner source destination token_program amount seeds
        bump w u w' h =
      invoke-KeepsAccounts
        (E.transfer_checked (record {
          token_program = token_program;
          mint = mint;
          source = source;
          destination = destination;
          authority = pda owner seeds bump;
          amount = amount;
          decimals = decimals;
        }))
        w u w' h

  pub check_mint_extensions-ReadOnly : (mint : Pubkey) → ReadOnly (check_mint_extensions E mint)
  unfolding check_mint_extensions
  check_mint_extensions-ReadOnly mint w a w' h =
      extensions_read E w a w' (E.owned_by_token_program w.ledger mint)
        (E.extension_types w.ledger mint) h

pub if-KeepsAccounts :
    {L : Type 0} (b : Bool) (m : Instruction L (Unit {0}))
    → KeepsAccounts m
    → KeepsAccounts (if b then m else return tt)
if-KeepsAccounts true m keeps w u w' h = keeps w u w' h
if-KeepsAccounts false m keeps w u w' h =
    ap (λ (x : World _). x.accounts) (return-ReadOnly tt w u w' h)
