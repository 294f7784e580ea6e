-- ===== src/Program/Stakers/Writes.antt =====
-- programs/token-mill/src/instructions: an instruction that writes one account, as the stakers of a
-- market see it.
use sol_token_mill.Base.{
  Bool-cases, List, Option, ap, arith, inl, inr, refl, some, subst, sym, true, ◌==◌, ◌∙◌, ◌∷◌, ◌≡◌,
}
use sol_token_mill.Errors.{Result, ok, ok-injective}
use sol_token_mill.Market.{Market, Pubkey}
use sol_token_mill.Market.Prices.{CurvesValid}
use sol_token_mill.Program.{
  Account, World, market_account, position_account, staking_account, update,
}
use sol_token_mill.Program.Events.{Event}
use sol_token_mill.Program.Evolution.Changes.{some-injective, update_at, update_away}
use sol_token_mill.Program.Runs.{same_key}
use sol_token_mill.Program.Stakers.{
  SamePool, booked, booked_by, paid, paid_by, payouts, payouts_by, takings, takings_by,
}
use sol_token_mill.Program.Stakers.Frame.{Untouched}

-- An event that is about no rewards and no trade, or none at all.
pub record Quiet (before after : List Event) : Type 0 where
  pub booked_kept : (market : Pubkey) → booked market after ≡ booked market before
  pub paid_kept : (market : Pubkey) → paid market after ≡ paid market before
  pub takings_kept : (market : Pubkey) → takings market after ≡ takings market before
  pub payouts_kept : (market : Pubkey) → payouts market after ≡ payouts market before

pub same_log : {before after : List Event} → after ≡ before → Quiet before after
same_log e = record {
  booked_kept = λ market. ap (booked market) e;
  paid_kept = λ market. ap (paid market) e;
  takings_kept = λ market. ap (takings market) e;
  payouts_kept = λ market. ap (payouts market) e;
}

-- What stood elsewhere stays, and what is found was there, where the account that is written is of
-- another kind.
pub stays :
    (before after : Pubkey → Option Account) (key k : Pubkey) (a b : Account)
    → after ≡ update before key b
    → ((c : Account) → before key ≡ some c → c ≡ a → ⊥)
    → before k ≡ some a
    → after k ≡ some a
stays before after key k a b written differ found = elim (Bool-cases (k == key)) [
  | inl same ↦ absurd (differ a (sym (ap before (same_key same)) ∙ found) refl)
  | inr away ↦
      ap (λ (f : Pubkey → Option Account). f k) written ∙ update_away before key k b away ∙ found
]

pub was :
    (before after : Pubkey → Option Account) (key k : Pubkey) (a b : Account)
    → after ≡ update before key b
    → (b ≡ a → ⊥)
    → after k ≡ some a
    → before k ≡ some a
was before after key k a b written differ found =
    let e = sym (ap (λ (f : Pubkey → Option Account). f k) written) ∙ found in
    elim (Bool-cases (k == key)) [
      | inl same ↦ absurd (differ (some-injective (sym (update_at before key k b same) ∙ e)))
      | inr away ↦ sym (update_away before key k b away) ∙ e
    ]

-- The account of no market, no staking and no position.
abbrev pub Aside : Account → Type 0
Aside (market_account m) = ⊥
Aside (staking_account s) = ⊥
Aside (position_account p) = ⊥
Aside _ = Unit {0}

abbrev pub IsMarket : Account → Type 0
IsMarket (market_account m) = Unit {0}
IsMarket _ = ⊥

module _ {L : Type 0} (w w' : World L) (key : Pubkey) (b : Account)
    (written : w'.accounts ≡ update w.accounts key b) where
  pub aside-Untouched :
      ((c : Account) → w.accounts key ≡ some c → Aside c)
      → Aside b
      → Quiet w.log w'.log
      → (market : Pubkey) → Untouched market w w'
  aside-Untouched old new q market = record {
    state_kept = λ m found. (
      m,
      stays w.accounts w'.accounts key market (market_account m) b written
          (λ c e same. subst Aside same (old c e)) found,
      refl,
      λ _. refl,
    );
    staking_kept = λ k s _ found.
        stays w.accounts w'.accounts key k (staking_account s) b written
          (λ c e same. subst Aside same (old c e)) found;
    staking_before = λ k s _ found.
        was w.accounts w'.accounts key k (staking_account s) b written
          (λ same. subst Aside same new) found;
    position_kept = λ k p _ found.
        stays w.accounts w'.accounts key k (position_account p) b written
          (λ c e same. subst Aside same (old c e)) found;
    position_before = λ k p _ found.
        was w.accounts w'.accounts key k (position_account p) b written
          (λ same. subst Aside same new) found;
    booked_kept = q.booked_kept market;
    paid_kept = q.paid_kept market;
    takings_kept = q.takings_kept market;
    payouts_kept = q.payouts_kept market;
  }

  pub market-Untouched :
      (m' : Market)
      → b ≡ market_account m'
      → ((c : Account) → w.accounts key ≡ some c → IsMarket c)
      → (market : Pubkey) → booked market w'.log ≡ booked market w.log
      → paid market w'.log ≡ paid market w.log
      → takings market w'.log ≡ takings market w.log
      → payouts market w'.log ≡ payouts market w.log
      → (market == key ≡ true
          → (m : Market) → w.accounts key ≡ some (market_account m)
          → (m'.fees.pending_staking_fees ≡ m.fees.pending_staking_fees)
            × (CurvesValid m.bid_prices m.ask_prices → SamePool m m'))
      → Untouched market w w'
  market-Untouched m' is old market eb ep et eo pending = record {
    state_kept = λ m found. elim (Bool-cases (market == key)) [
      | inl same ↦ (
        m',
        ap (λ (f : Pubkey → Option Account). f market) written
            ∙ update_at w.accounts key market b same
            ∙ ap (λ (x : Account). some x) is,
        (pending same m (sym (ap w.accounts (same_key same)) ∙ found)).0,
        (pending same m (sym (ap w.accounts (same_key same)) ∙ found)).1,
      )
      | inr away ↦ (
        m,
        ap (λ (f : Pubkey → Option Account). f market) written
            ∙ update_away w.accounts key market b away
            ∙ found,
        refl,
        λ _. refl,
      )
    ];
    staking_kept = λ k s _ found.
        stays w.accounts w'.accounts key k (staking_account s) b written
          (λ c e same. subst IsMarket same (old c e)) found;
    staking_before = λ k s _ found.
        was w.accounts w'.accounts key k (staking_account s) b written
          (λ same. absurd (cc (sym is ∙ same))) found;
    position_kept = λ k p _ found.
        stays w.accounts w'.accounts key k (position_account p) b written
          (λ c e same. subst IsMarket same (old c e)) found;
    position_before = λ k p _ found.
        was w.accounts w'.accounts key k (position_account p) b written
          (λ same. absurd (cc (sym is ∙ same))) found;
    booked_kept = eb;
    paid_kept = ep;
    takings_kept = et;
    payouts_kept = eo;
  }

-- One event that sets no rewards aside and pays none, and is of no trade.
pub event-Quiet :
    {before after : List Event} (e : Event)
    → after ≡ e ∷ before
    → ((market : Pubkey) → booked_by market e ≡ 0)
    → ((market : Pubkey) → paid_by market e ≡ 0)
    → ((market : Pubkey) → takings_by market e ≡ 0)
    → ((market : Pubkey) → payouts_by market e ≡ 0)
    → Quiet before after
event-Quiet e added none_booked none_paid none_taken none_given = record {
  booked_kept = λ market. rw added (omega (arith, none_booked market));
  paid_kept = λ market. rw added (omega (arith, none_paid market));
  takings_kept = λ market. rw added (omega (arith, none_taken market));
  payouts_kept = λ market. rw added (omega (arith, none_given market));
}

-- The world that an instruction has come to.
pub come_to :
    {L A : Type 0} {a a' : A} {w w' : World L}
    → ◌≡◌ {A = Result (A × World L)} (ok (a, w)) (ok (a', w'))
    → (w'.accounts ≡ w.accounts) × (w'.log ≡ w.log)
come_to {L} {A} h =
    let done = sym (ok-injective h) in
    (ap (λ (p : A × World L). p.1.accounts) done, ap (λ (p : A × World L). p.1.log) done)
