-- ===== src/Program/Stakers/Positions.antt =====
-- programs/token-mill/src/state/staking.rs: the positions of a market as a list, in any order.
use sol_token_mill.Base.{
  Bool-cases, List, Option, [], ap, arith, false, inl, inr, refl, some, subst, sym, true, ℕ, ◌==◌,
  ◌∙◌, ◌∷◌, ◌≡◌,
}
use sol_token_mill.Market.{MarketFees, Pubkey}
use sol_token_mill.Program.{Account, position_account}
use sol_token_mill.Program.Runs.{same_key}
use sol_token_mill.Program.Stakers.{Entries, Fresh, Held, listed, positions}
use sol_token_mill.Staking.{MarketStaking, StakePosition}
use sol_token_mill.StakingManager.Accrual.{Behind, owed, total_staked, total_vested}
use sol_token_mill.StakingManager.Solvency.{Solvent}

-- Two lists of positions with the same sums.
pub record SameStakes (ps qs : List StakePosition) : Type 0 where
  pub staked : total_staked ps ≡ total_staked qs
  pub vested : total_vested ps ≡ total_vested qs
  pub owing : (acc : ℕ) → owed acc ps ≡ owed acc qs
  pub behind : (acc : ℕ) → Behind acc ps → Behind acc qs

pub Solvent-SameStakes :
    {funds : ℕ} {fees : MarketFees} {s : MarketStaking} {ps qs : List StakePosition}
    → SameStakes ps qs
    → Solvent funds fees s ps
    → Solvent funds fees s qs
Solvent-SameStakes {s = s} e v = record {
  staked = v.staked ∙ e.staked;
  vested = v.vested ∙ e.vested;
  behind = e.behind s.acc_reward_amount_per_share v.behind;
  funded = omega (arith, v.funded, e.owing s.acc_reward_amount_per_share);
}

-- The first two positions change places.
swapped_SameStakes :
    (p q : StakePosition) (ps rs : List StakePosition)
    → SameStakes ps (p ∷ rs)
    → SameStakes (q ∷ ps) (p ∷ q ∷ rs)
swapped_SameStakes p q ps rs e = record {
  staked = omega (arith, e.staked);
  vested = omega (arith, e.vested);
  owing = λ acc. omega (arith, e.owing acc);
  behind = λ acc b. let rest = e.behind acc b.1 in (rest.0, (b.0, rest.1));
}

-- The other entries, where one is brought to the front.
pub record Front (accounts : Pubkey → Option Account) (market key : Pubkey) (p : StakePosition)
    (es : Entries) : Type 0 where
  pub others : Entries
  pub held : Held accounts market ((key, p) ∷ others)
  pub stays : (k : Pubkey) → listed k es ≡ true → listed k ((key, p) ∷ others) ≡ true
  pub fresh : (k : Pubkey) → Fresh k es → Fresh k others
  pub same : SameStakes (positions es) (p ∷ positions others)

position-injective :
    {p q : StakePosition} → some (position_account p) ≡ some (position_account q) → p ≡ q
position-injective h = cc

pub Fresh-listed :
    (key k : Pubkey) (es : Entries) → Fresh key es → listed k es ≡ true → k == key ≡ false
Fresh-listed key k [] f h = absurd (ground arith)
Fresh-listed key k ((j, q) ∷ es) f h = ground (arith, Fresh-listed key k es f.1)

pub front :
    (accounts : Pubkey → Option Account) (market key : Pubkey) (p : StakePosition) (es : Entries)
    → Held accounts market es
    → accounts key ≡ some (position_account p)
    → listed key es ≡ true
    → Front accounts market key p es
front accounts market key p [] held found h = absurd (ground arith)
front accounts market key p ((j, q) ∷ es) held found h = elim (Bool-cases (key == j)) [
  | inl here ↦
      let at : key ≡ j = same_key here in
      let same : q ≡ p = position-injective (sym held.0 ∙ ap accounts (sym at) ∙ found) in
      record {
        others = es;
        held = (
          found,
          ap (λ (x : StakePosition). x.market) (sym same) ∙ held.1,
          subst (λ (k : Pubkey). Fresh k es) (sym at) held.2,
          held.3,
        );
        stays = λ k l. rw at l;
        fresh = λ k f. f.1;
        same =
            subst (λ (x : StakePosition). SameStakes (q ∷ positions es) (x ∷ positions es)) same
              (record { staked = refl; vested = refl; owing = λ acc. refl; behind = λ acc b. b });
      }
  | inr away ↦
      let later : listed key es ≡ true = ground (arith, away, h) in
      let f = front accounts market key p es held.3 found later in
      record {
        others = (j, q) ∷ f.others;
        held = (found, f.held.1, (away, f.held.2), (held.0, held.1, f.fresh j held.2, f.held.3));
        stays = λ k l. ground (arith, l, f.stays k);
        fresh = λ k g. (g.0, f.fresh k g.1);
        same = swapped_SameStakes p q (positions es) (positions f.others) f.same;
      }
]
