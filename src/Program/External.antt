-- ===== src/Program/External.antt =====
-- What the program takes from outside the repository, as a parameter: the token programs over a
-- ledger `L`, the framework's checks of token accounts, program addresses, and rent. A function that
-- can fail returns `none` where the outside code returns an error.
use sol_token_mill.Base.{Bool, List, Option, ℕ}
use sol_token_mill.Market.{Pubkey}
use Prim.Native.String.{String}

-- The seeds of the program's derived addresses, by the constants `*_PDA_SEED` that begin them.
pub data Seeds : Type 0 where
  market_seeds : (base_token_mint : Pubkey) → Seeds
  staking_seeds : (market : Pubkey) → Seeds
  position_seeds : (market user : Pubkey) → Seeds
  badge_seeds : (config token_mint : Pubkey) → Seeds
  referral_seeds : (config referrer : Pubkey) → Seeds

-- Who authorises a transfer: a signer of the transaction, or a program address by its seeds and bump.
pub data Authority : Type 0 where
  eoa : Pubkey → Authority
  pda : Pubkey → Seeds → ℕ → Authority

-- The extensions of a mint that the program names.
pub data ExtensionType : Type 0 where
  metadata_pointer token_metadata : ExtensionType
  other_extension : ℕ → ExtensionType

pub record Transfer : Type 0 where
  pub token_program : Pubkey
  pub mint : Pubkey
  pub source : Pubkey
  pub destination : Pubkey
  pub authority : Authority
  pub amount : ℕ
  pub decimals : ℕ

pub record Runtime (L : Type 0) : Type 0 where
  -- the token programs
  pub transfer_checked : Transfer → L → Option L
  pub mint_decimals : L → Pubkey → Option ℕ
  pub token_amount : L → Pubkey → Option ℕ
  pub owned_by_token_program : L → Pubkey → Bool
  pub extension_types : L → Pubkey → Option (List ExtensionType)
  -- `token::mint` and `associated_token::{mint, authority, token_program}` on a token account
  pub has_mint : L → (account mint : Pubkey) → Bool
  pub is_associated : L → (account mint authority token_program : Pubkey) → Bool
  -- `init` on a mint and on an associated token account, and the calls of `create_market`
  pub init_mint : (mint authority token_program : Pubkey) → (decimals : ℕ) → L → Option L
  pub init_associated : (account mint authority token_program : Pubkey) → L → Option L
  pub initialize_metadata :
      (mint mint_authority update_authority : Pubkey)
      → (name symbol uri : String) → Seeds
      → ℕ
      → L
      → Option L
  pub mint_to : (mint destination : Pubkey) → Authority → (amount : ℕ) → L → Option L
  pub remove_mint_authority : (mint : Pubkey) → Authority → L → Option L
  -- rent, in lamports
  pub minimum_balance : L → Pubkey → ℕ
  pub lamports : L → Pubkey → ℕ
  pub transfer_lamports : (source destination : Pubkey) → (amount : ℕ) → L → Option L
  -- `find_program_address` and `create_program_address`
  pub find_address : Seeds → Pubkey × ℕ
  pub create_address : Seeds → ℕ → Option Pubkey
