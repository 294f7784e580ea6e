-- ===== src/Program/Stakers/Restored.antt =====
-- programs/token-mill/src/instructions/staking: the accounts after the three of a stake are written.
use sol_token_mill.Base.{
  Bool-cases, Option, ap, arith, false, inl, inr, refl, some, sym, ◌==◌, ◌∙◌, ◌≡◌,
}
use sol_token_mill.Market.{Market, Pubkey}
use sol_token_mill.Program.{
  Account, World, market_account, position_account, staking_account, update,
}
use sol_token_mill.Program.Evolution.Stakes.{StakesFound, restored}
use sol_token_mill.Program.Runs.{same_key, update_same}
use sol_token_mill.Staking.{MarketStaking, StakePosition}
use sol_token_mill.StakingManager.{Stakes}

some-injective : {a b : Account} → some a ≡ some b → a ≡ b
some-injective h = cc

-- Two addresses with different accounts.
pub apart :
    (accounts : Pubkey → Option Account) (k j : Pubkey) (a b : Account)
    → accounts k ≡ some a
    → accounts j ≡ some b
    → (a ≡ b → ⊥)
    → k == j ≡ false
apart accounts k j a b ea eb differ = elim (Bool-cases (k == j)) [
  | inl same ↦ absurd (differ (some-injective (sym ea ∙ ap accounts (same_key same) ∙ eb)))
  | inr e ↦ e
]

module _ (accounts : Pubkey → Option Account) (market staking position : Pubkey) (m : Market)
    (w : Stakes) where
  -- What stands at an address afterwards.
  pub data Lookup (k : Pubkey) : Type 0 where
    at_position :
        k ≡ position
        → restored accounts market staking position m w k ≡ some (position_account w.position)
        → Lookup k
    at_staking :
        k ≡ staking
        → restored accounts market staking position m w k ≡ some (staking_account w.staking)
        → Lookup k
    at_market :
        k ≡ market
        → restored accounts market staking position m w k
          ≡ some (market_account (record m { fees = w.fees }))
        → Lookup k
    elsewhere : restored accounts market staking position m w k ≡ accounts k → Lookup k

  pub look_up : (k : Pubkey) → Lookup k
  look_up k = elim (Bool-cases (k == position)) [
    | inl at ↦ at_position (same_key at) (rw at refl)
    | inr away ↦ elim (Bool-cases (k == staking)) [
      | inl at ↦ at_staking (same_key at) (rw (away, at) refl)
      | inr away1 ↦ elim (Bool-cases (k == market)) [
        | inl at ↦ at_market (same_key at) (rw (away, away1, at) refl)
        | inr away2 ↦ elsewhere (rw (away, away1, away2) refl)
      ]
    ]
  ]

-- The three accounts of a stake as they were found.
module _ {L : Type 0} (market staking position user : Pubkey) (world : World L) (m : Market)
    (w w' : Stakes) (f : StakesFound market staking position user world m w) where
  abbrev after : Pubkey → Option Account
  after = restored world.accounts market staking position m w'

  abbrev with_market : Pubkey → Option Account
  with_market = update world.accounts market (market_account (record m { fees = w'.fees }))

  abbrev with_staking : Pubkey → Option Account
  with_staking = update with_market staking (staking_account w'.staking)

  pub at_position_after : after position ≡ some (position_account w'.position)
  at_position_after = update_same with_staking position (position_account w'.position)

  pub at_staking_after : after staking ≡ some (staking_account w'.staking)
  at_staking_after =
      let e =
        apart world.accounts staking position (staking_account w.staking)
          (position_account w.position) f.staking_found f.position_found (λ h. absurd (cc)) in
      rw e (update_same with_market staking (staking_account w'.staking))

  pub at_market_after : after market ≡ some (market_account (record m { fees = w'.fees }))
  at_market_after =
      let e =
        apart world.accounts market position (market_account m) (position_account w.position)
          f.market_found f.position_found (λ h. absurd (cc)) in
      let e1 =
        apart world.accounts market staking (market_account m) (staking_account w.staking)
          f.market_found f.staking_found (λ h. absurd (cc)) in
      rw (e, e1) (update_same world.accounts market (market_account (record m { fees = w'.fees })))

  -- The positions at other addresses stay, and no other position is there.
  pub position_stays :
      (k : Pubkey) (p : StakePosition)
      → world.accounts k ≡ some (position_account p)
      → k == position ≡ false
      → after k ≡ some (position_account p)
  position_stays k p e away =
      let e1 =
        apart world.accounts k staking (position_account p) (staking_account w.staking) e
          f.staking_found (λ h. absurd (cc)) in
      let e2 =
        apart world.accounts k market (position_account p) (market_account m) e f.market_found
          (λ h. absurd (cc)) in
      rw (away, e1, e2) e

  pub position_before :
      (k : Pubkey) (p : StakePosition)
      → after k ≡ some (position_account p)
      → k == position ≡ false
      → world.accounts k ≡ some (position_account p)
  position_before k p e away = elim (look_up world.accounts market staking position m w' k) [
    | at_position at _ ↦ absurd (ground (arith, at, away))
    | at_staking _ e1 ↦ absurd (cc (sym e ∙ e1))
    | at_market _ e1 ↦ absurd (cc (sym e ∙ e1))
    | elsewhere e1 ↦ sym e1 ∙ e
  ]

  pub staking_stays :
      (k : Pubkey) (s : MarketStaking)
      → world.accounts k ≡ some (staking_account s)
      → k == staking ≡ false
      → after k ≡ some (staking_account s)
  staking_stays k s e away =
      let e1 =
        apart world.accounts k position (staking_account s) (position_account w.position) e
          f.position_found (λ h. absurd (cc)) in
      let e2 =
        apart world.accounts k market (staking_account s) (market_account m) e f.market_found
          (λ h. absurd (cc)) in
      rw (e1, away, e2) e

  pub staking_before :
      (k : Pubkey) (s : MarketStaking)
      → after k ≡ some (staking_account s)
      → k == staking ≡ false
      → world.accounts k ≡ some (staking_account s)
  staking_before k s e away = elim (look_up world.accounts market staking position m w' k) [
    | at_position _ e1 ↦ absurd (cc (sym e ∙ e1))
    | at_staking at _ ↦ absurd (ground (arith, at, away))
    | at_market _ e1 ↦ absurd (cc (sym e ∙ e1))
    | elsewhere e1 ↦ sym e1 ∙ e
  ]
