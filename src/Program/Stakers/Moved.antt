-- ===== src/Program/Stakers/Moved.antt =====
-- programs/token-mill/src/instructions/staking: a stake that moves, as the stakers of its market and
-- of the other markets see it.
use sol_token_mill.Base.{
  Bool-cases, List, Option, ap, arith, false, inl, inr, refl, some, subst, sym, ◌-◌, ◌==◌, ◌∙◌, ◌∷◌,
  ◌≡◌, ◌≤◌,
}
use sol_token_mill.Market.{Market, MarketFees, Pubkey}
use sol_token_mill.Program.{Account, World, market_account, position_account, staking_account}
use sol_token_mill.Program.Evolution.Stakes.{StakesFound, restored}
use sol_token_mill.Program.Runs.{same_key}
use sol_token_mill.Program.Stakers.{
  Entries, StakersSolvent, booked, paid, payouts, positions, takings,
}
use sol_token_mill.Program.Stakers.Frame.{Held-kept, Untouched}
use sol_token_mill.Program.Stakers.Positions.{Fresh-listed, Solvent-SameStakes, front}
use sol_token_mill.Program.Stakers.Restored.{
  apart, at_market_after, at_position_after, at_staking_after, position_before, position_stays,
  staking_before, staking_stays,
}
use sol_token_mill.Staking.{MarketStaking, StakePosition}
use sol_token_mill.StakingManager.{Stakes}
use sol_token_mill.StakingManager.Solvency.{Solvent, SolventFor}

pub staking-injective :
    {s t : MarketStaking} → some (staking_account s) ≡ some (staking_account t) → s ≡ t
staking-injective h = cc

pub market-injective : {m n : Market} → some (market_account m) ≡ some (market_account n) → m ≡ n
market-injective h = cc

pub position-injective :
    {p q : StakePosition} → some (position_account p) ≡ some (position_account q) → p ≡ q
position-injective h = cc

-- Addresses with different properties differ.
other_key : {key key' : Pubkey} → (key ≡ key' → ⊥) → key == key' ≡ false
other_key differ = elim (Bool-cases (_ == _)) [
  | inl same ↦ absurd (differ (same_key same))
  | inr e ↦ e
]

module _ {L : Type 0} (market staking position user : Pubkey) (w w' : World L) (m : Market)
    (s s' : Stakes) (f : StakesFound market staking position user w m s)
    (same_staking : s'.staking.market ≡ s.staking.market)
    (same_position : s'.position.market ≡ s.position.market)
    (written : w'.accounts ≡ restored w.accounts market staking position m s') where
  after :
      (key : Pubkey) {a : Option Account}
      → restored w.accounts market staking position m s' key ≡ a
      → w'.accounts key ≡ a
  after key e = ap (λ (g : Pubkey → Option Account). g key) written ∙ e

  before :
      (key : Pubkey) {a : Option Account}
      → w'.accounts key ≡ a
      → restored w.accounts market staking position m s' key ≡ a
  before key e = sym (ap (λ (g : Pubkey → Option Account). g key) written) ∙ e

  -- The stakers of another market are left alone.
  pub restored-Untouched :
      (other : Pubkey)
      → other == market ≡ false
      → booked other w'.log ≡ booked other w.log
      → paid other w'.log ≡ paid other w.log
      → takings other w'.log ≡ takings other w.log
      → payouts other w'.log ≡ payouts other w.log
      → Untouched other w w'
  restored-Untouched other differs eb ep et eo =
      let differ : other ≡ market → ⊥ = λ e. absurd (ground (arith, differs)) in
      record {
        state_kept = λ n found.
            let e1 =
              apart w.accounts other position (market_account n) (position_account s.position) found
                f.position_found (λ h. absurd (cc)) in
            let e2 =
              apart w.accounts other staking (market_account n) (staking_account s.staking) found
                f.staking_found (λ h. absurd (cc)) in
            (n, after other (rw (e1, e2, differs) found), refl, λ _. refl);
        staking_kept = λ key t in_other found. after key (
            staking_stays market staking position user w m s s' f key t found (
              other_key (λ e.
                let same = staking-injective (sym found ∙ ap w.accounts e ∙ f.staking_found) in
                differ (sym in_other ∙ ap (λ (x : MarketStaking). x.market) same ∙ f.of_market))));
        staking_before = λ key t in_other found.
            staking_before market staking position user w m s s' f key t (before key found) (
              other_key (λ e.
                let same = staking-injective (
                  sym (before key found)
                  ∙ ap (restored w.accounts market staking position m s') e
                  ∙ at_staking_after market staking position user w m s s' f) in
                differ (
                  sym in_other
                  ∙ ap (λ (x : MarketStaking). x.market) same
                  ∙ same_staking
                  ∙ f.of_market)));
        position_kept = λ key p in_other found. after key (
            position_stays market staking position user w m s s' f key p found (
              other_key (λ e.
                let same = position-injective (sym found ∙ ap w.accounts e ∙ f.position_found) in
                differ (sym in_other ∙ ap (λ (x : StakePosition). x.market) same ∙ f.in_market))));
        position_before = λ key p in_other found.
            position_before market staking position user w m s s' f key p (before key found) (
              other_key (λ e.
                let same = position-injective (
                  sym (before key found)
                  ∙ ap (restored w.accounts market staking position m s') e
                  ∙ at_position_after market staking position user w m s s' f) in
                differ (
                  sym in_other
                  ∙ ap (λ (x : StakePosition). x.market) same
                  ∙ same_position
                  ∙ f.in_market)));
        booked_kept = eb;
        paid_kept = ep;
        takings_kept = et;
        payouts_kept = eo;
      }

  -- The stakers of the market itself stay solvent where the move keeps them so: the position is
  -- brought to the front of the entries.
  pub restored-StakersSolvent :
      (account : Pubkey) (es : Entries)
      → StakersSolvent market account es w
      → ((others : List StakePosition)
          → paid market w.log ≤ booked market w.log
          → SolventFor (booked market w.log - paid market w.log) s others
          → (paid market w'.log ≤ booked market w'.log)
            × SolventFor (booked market w'.log - paid market w'.log) s' others)
      → (es' : Entries) × StakersSolvent market account es' w'
  restored-StakersSolvent account es v moves =
      let listed_here = v.complete position s.position f.position_found f.in_market in
      let fr = front w.accounts market position s.position es v.held f.position_found listed_here in
      let at : staking ≡ account = v.only_staking staking s.staking f.staking_found f.of_market in
      let stakes : v.stakes ≡ s.staking =
        staking-injective (sym v.staking_found ∙ ap w.accounts (sym at) ∙ f.staking_found) in
      let state : v.state ≡ m = market-injective (sym v.market_found ∙ f.market_found) in
      let fees : v.state.fees ≡ s.fees = ap (λ (x : Market). x.fees) state ∙ sym f.fees_read in
      let now : SolventFor (booked market w.log - paid market w.log) s (positions fr.others) =
        subst (λ (x : MarketStaking). Solvent _ s.fees x (s.position ∷ positions fr.others)) stakes
          (subst (λ (x : MarketFees). Solvent _ x v.stakes (s.position ∷ positions fr.others)) fees
            (Solvent-SameStakes fr.same v.solvent)) in
      let (claimed, solvent) = moves (positions fr.others) v.claimed now in
      (
        (position, s'.position) ∷ fr.others,
        record {
          state = record m { fees = s'.fees };
          stakes = s'.staking;
          market_found = after market (at_market_after market staking position user w m s s' f);
          staking_found =
              ap w'.accounts (sym at)
              ∙ after staking (at_staking_after market staking position user w m s s' f);
          of_market = same_staking ∙ f.of_market;
          only_staking = λ key t found in_market. elim (Bool-cases (key == staking)) [
            | inl here ↦ same_key here ∙ at
            | inr away ↦
                v.only_staking key t
                  (staking_before market staking position user w m s s' f key t (before key found)
                    away)
                  in_market
          ];
          held = (
            after position (at_position_after market staking position user w m s s' f),
            same_position ∙ f.in_market,
            fr.held.2,
            Held-kept w.accounts w'.accounts market fr.others
                (λ key q _ l e. after key (
                  position_stays market staking position user w m s s' f key q e
                    (Fresh-listed position key fr.others fr.held.2 l)))
                fr.held.3,
          );
          complete = λ key q found in_market. elim (Bool-cases (key == position)) [
            | inl here ↦ rw here refl
            | inr away ↦
                let e =
                  position_before market staking position user w m s s' f key q (before key found)
                    away in
                let l = fr.stays key (v.complete key q e in_market) in rw away (rw away at l)
          ];
          claimed = claimed;
          solvent = solvent;
        },
      )
