-- ===== src/Program/Checks.antt =====
-- Account checks and token transfers that several instructions share
-- (programs/token-mill/src/manager/token_manager.rs and the account attributes).
use sol_token_mill.Base.{
  Bool, List, Option, [], false, if◌then◌else◌, none, some, true, ℕ, ◌&&◌, ◌==◌, ◌∷◌,
}
use sol_token_mill.Errors.{constraint, err, external, ok, or_fail}
use sol_token_mill.Market.{Pubkey}
use sol_token_mill.Program.{Instruction, check, invoke, lift}
use sol_token_mill.Program.External.{
  ExtensionType, Runtime, Seeds, eoa, metadata_pointer, other_extension, pda, token_metadata,
}

-- An optional address is this one.
abbrev pub is_key : Option Pubkey → Pubkey → Bool
is_key none key = false
is_key (some k) key = k == key

module _ {L : Type 0} (E : Runtime L) where
  -- The account must be a mint; its decimals are returned.
  abbrev pub check_mint : Pubkey → Instruction L ℕ
  check_mint mint w = lift (or_fail (E.mint_decimals w.ledger mint) constraint) w

  -- The account must be a token account; its amount is returned.
  abbrev pub check_token_account : Pubkey → Instruction L ℕ
  check_token_account key w = lift (or_fail (E.token_amount w.ledger key) constraint) w

  abbrev pub check_has_mint : (account mint : Pubkey) → Instruction L (Unit {0})
  check_has_mint account mint w = check (E.has_mint w.ledger account mint) constraint w

  abbrev pub check_associated :
      (account mint authority token_program : Pubkey) → Instruction L (Unit {0})
  check_associated account mint authority token_program w =
      check (E.is_associated w.ledger account mint authority token_program) constraint w

  -- `seeds = [...], bump = ...` on an account that exists.
  abbrev pub is_address : Seeds → ℕ → Pubkey → Bool
  is_address seeds bump key = is_key (E.create_address seeds bump) key

  -- `transfer_from_eoa` and `transfer_from_pda` of token_manager.rs. `decimals` is that of the mint.
  unfoldable pub transfer_from_eoa :
      (mint : Pubkey) (decimals : ℕ) (eoa source destination token_program : Pubkey) (amount : ℕ)
      → Instruction L (Unit {0})
  transfer_from_eoa mint decimals owner source destination token_program amount = invoke (
      E.transfer_checked (record {
        token_program = token_program;
        mint = mint;
        source = source;
        destination = destination;
        authority = eoa owner;
        amount = amount;
        decimals = decimals;
      }))

  unfoldable pub transfer_from_pda :
      (mint : Pubkey) (decimals : ℕ) (pda source destination token_program : Pubkey) (amount : ℕ)
      → Seeds
      → (bump : ℕ) → Instruction L (Unit {0})
  transfer_from_pda mint decimals owner source destination token_program amount seeds bump =
      invoke (
        E.transfer_checked (record {
          token_program = token_program;
          mint = mint;
          source = source;
          destination = destination;
          authority = pda owner seeds bump;
          amount = amount;
          decimals = decimals;
        }))

  abbrev is_allowed : ExtensionType → Bool
  is_allowed metadata_pointer = true
  is_allowed token_metadata = true
  is_allowed (other_extension n) = false

  abbrev pub all_allowed : List ExtensionType → Bool
  all_allowed [] = true
  all_allowed (e ∷ es) = is_allowed e && all_allowed es

  -- `check_mint_extensions` of token_manager.rs.
  unfoldable pub check_mint_extensions : Pubkey → Instruction L Bool
  check_mint_extensions mint w =
      if E.owned_by_token_program w.ledger mint
      then ok (true, w)
      else elim (E.extension_types w.ledger mint) [
        | none ↦ err external
        | some extensions ↦ ok (all_allowed extensions, w)
      ]
