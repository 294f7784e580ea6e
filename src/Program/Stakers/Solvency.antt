-- ===== src/Program/Stakers/Solvency.antt =====
-- programs/token-mill/src/lib.rs: the stakers of a market over any sequence of calls.
use sol_token_mill.Base.{Bool, ap, ◌≡◌}
use sol_token_mill.Errors.{ok}
use sol_token_mill.Market.{Pubkey}
use sol_token_mill.Program.{World}
use sol_token_mill.Program.Dispatch.{Call, dispatch}
use sol_token_mill.Program.External.{Runtime}
use sol_token_mill.Program.Stakers.{Entries, StakersSolvent, booked, paid, payouts, takings}
use sol_token_mill.Program.Stakers.Effect.{
  CallEffect, SameState, dispatch-CallEffect, leaves, moves_stake, opens_position, opens_staking,
  swaps,
}
use sol_token_mill.Program.Stakers.Frame.{Untouched, Untouched-StakersSolvent, accounts-Untouched}
use sol_token_mill.Program.Stakers.Handled.{Handled-StakersSolvent}
use sol_token_mill.Program.Stakers.Openings.{
  create_stake_position-StakersSolvent, create_staking-Untouched, staking_of,
}
use sol_token_mill.Program.Stakers.Swaps.{swap-StakersSolvent}
use sol_token_mill.Ruint.{Ruint}

-- The worlds after `first`: calls that succeed, by any signers, and changes outside of the program, to
-- the ledger and the clock.
pub data LoggedHistory {L : Type 0} (R : Ruint) (E : Runtime L) (first : World L)
    : World L → Type 0 where
  began : LoggedHistory R E first first
  called_by :
      {w w' : World L} (signed : Pubkey → Bool) (c : Call)
      → LoggedHistory R E first w
      → dispatch R E signed c w ≡ ok (tt, w')
      → LoggedHistory R E first w'
  elsewhere_changed :
      {w w' : World L}
      → LoggedHistory R E first w
      → w'.accounts ≡ w.accounts
      → w'.log ≡ w.log
      → LoggedHistory R E first w'

module _ {L : Type 0} (R : Ruint) (E : Runtime L) (key : Pubkey) where
  -- The stakers of the market are solvent, by some list of its positions.
  abbrev AllSolvent : World L → Type 0
  AllSolvent w = (es : Entries) × StakersSolvent key (staking_of E key) es w

  pub SameState-Untouched : {w w' : World L} → SameState w w' → Untouched key w w'
  SameState-Untouched {w} {w'} (ea, el) =
      accounts-Untouched key w w' ea (ap (booked key) el) (ap (paid key) el) (ap (takings key) el)
        (ap (payouts key) el)

  kept_solvent : {w w' : World L} → AllSolvent w → Untouched key w w' → AllSolvent w'
  kept_solvent (es, v) u = (es, Untouched-StakersSolvent key (staking_of E key) es v u)

  CallEffect-StakersSolvent :
      (w w' : World L) → AllSolvent w → CallEffect R E key w w' → AllSolvent w'
  CallEffect-StakersSolvent w w' v (leaves u) = kept_solvent v u
  CallEffect-StakersSolvent w w' (es, v) (swaps same e) =
      kept_solvent (es, swap-StakersSolvent key (staking_of E key) es v e)
        (SameState-Untouched same)
  CallEffect-StakersSolvent w w' (es, v) (moves_stake same h) =
      kept_solvent (Handled-StakersSolvent key (staking_of E key) es v h) (SameState-Untouched same)
  CallEffect-StakersSolvent w w' (es, v) (opens_staking signed market staking payer h) =
      kept_solvent (es, v)
        (create_staking-Untouched E signed w w' key v.stakes v.staking_found market staking payer h)
  CallEffect-StakersSolvent w w' (es, v) (opens_position signed market position user h) =
      create_stake_position-StakersSolvent E signed w w' key (staking_of E key) es v market position
        user h

  -- From a world in which the stakers of a market are solvent, over every sequence of successful calls
  -- of any entry points by any signers, with whatever happens to the ledger and the clock between
  -- them: the market and its stakes stay, the stakes are the sums over all positions of the market,
  -- what was claimed by stakers is at most what swaps have set aside for them, and the difference
  -- covers what all positions are owed together with what is still pending.
  pub LoggedHistory-StakersSolvent :
      {first w : World L} (es : Entries)
      → StakersSolvent key (staking_of E key) es first
      → LoggedHistory R E first w
      → (es' : Entries) × StakersSolvent key (staking_of E key) es' w
  LoggedHistory-StakersSolvent es v began = (es, v)
  LoggedHistory-StakersSolvent es v (called_by {w} {w'} signed c past h) =
      CallEffect-StakersSolvent w w' (LoggedHistory-StakersSolvent es v past)
        (dispatch-CallEffect R E key signed c w w' h)
  LoggedHistory-StakersSolvent es v (elsewhere_changed {w} {w'} past ea el) =
      kept_solvent (LoggedHistory-StakersSolvent es v past) (SameState-Untouched (ea, el))
