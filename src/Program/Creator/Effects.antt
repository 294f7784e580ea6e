-- ===== src/Program/Creator/Effects.antt =====
-- programs/token-mill/src/instructions/creator: what the instructions of a market's creator may change.
use sol_token_mill.Word.U16
use sol_token_mill.Base.{Bool, ap, arith, refl, some, subst, sym, true, ℕ, ◌+◌, ◌==◌, ◌≡◌}
use sol_token_mill.Errors.{constraint, error, invalid_authority, ok, ok-injective}
use sol_token_mill.Market.{Market, Pubkey}
use sol_token_mill.Program.{
  Instruction, World, check, market_account, return, update, ◌>>=◌, ◌>>=◌, ◌>>◌,
}
use sol_token_mill.Program.Creator.{market_settings_update, update_market_fee_shares}
use sol_token_mill.Program.Runs.{same_key, on_check, on_lift, on_load_market, on_step}

-- `w'` differs from `w` in the market at `key`, which was `m` and is `m'`, and in its log.
pub record MarketUpdate {L : Type 0} (key : Pubkey) (m m' : Market) (w w' : World L) : Type 0 where
  pub before : w.accounts key ≡ some (market_account m)
  pub after : w'.accounts ≡ update w.accounts key (market_account m')
  pub ledger_kept : w'.ledger ≡ w.ledger

-- The checks of `MarketSettingsUpdate` let only the creator of the market pass.
pub on_settings {ℓ} :
    {L B : Type 0} {P : Type ℓ} {r : B × World L} (key creator : Pubkey) (signed : Pubkey → Bool)
    (f : Market → Instruction L B) {w : World L}
    → (market_settings_update key creator signed >>= f) w ≡ ok r
    → ((m : Market)
        → w.accounts key ≡ some (market_account m)
        → m.creator ≡ creator
        → signed creator ≡ true
        → f m w ≡ ok r
        → P)
    → P
unfolding market_settings_update
on_settings {r = r} key creator signed f {w} h k =
    on_step (market_settings_update key creator signed) {f = f} {w = w} h λ m w1 e h1.
      on_load_market key
        (λ n.
          check (n.creator == creator) (error invalid_authority)
          >> (check (signed creator) constraint >> return n))
        {w = w} e
        λ m0 found e1.
          on_check (m0.creator == creator) (error invalid_authority)
            (λ _. check (signed creator) constraint >> return m0) {w = w} e1
            λ own e2.
              on_check (signed creator) constraint (λ _. return m0) {w = w} e2
                λ by e3.
                  k m0 found (same_key own) by
                    (subst (λ (p : Market × World _). f p.0 p.1 ≡ ok r) (sym (ok-injective e3)) h1)

-- What `update_market_fee_shares` has done to the market at `key`.
pub record SharesMoved {L : Type 0} (key creator : Pubkey) (signed : Pubkey → Bool)
    (creator_share staking_share : ℕ) (w w' : World L) : Type 0 where
  pub old : Market
  pub new : Market
  pub updated : MarketUpdate key old new w w'
  pub is_creator : old.creator ≡ creator
  pub is_signed : signed creator ≡ true
  pub shares : new ≡ record old {
    fees = record (old.fees) {
      creator_fee_share = creator_share;
      staking_fee_share = staking_share;
    };
  }
  pub sum_kept :
      creator_share + staking_share ≡ old.fees.creator_fee_share + old.fees.staking_fee_share

-- Whenever `update_market_fee_shares` succeeds, the creator of the market has signed, the new shares
-- have the sum of the old ones, so that the protocol's share is untouched, and nothing but the two
-- shares of this market has changed.
pub update_market_fee_shares-SharesMoved :
    {L : Type 0} (key creator : Pubkey) (signed : Pubkey → Bool) (creator_share staking_share : ℕ)
    (w w' : World L)
    → update_market_fee_shares key creator signed creator_share staking_share w ≡ ok (tt, w')
    → SharesMoved key creator signed creator_share staking_share w w'
unfolding update_market_fee_shares
update_market_fee_shares-SharesMoved key creator signed creator_share staking_share w w' h =
    on_settings key creator signed _ h λ m found own by h1.
      on_lift (U16.add creator_share staking_share) _ h1 λ new en h2.
        on_lift (U16.add m.fees.creator_fee_share m.fees.staking_fee_share) _ h2 λ old eo h3.
          on_check (new == old) _ _ h3 λ same h4.
            let done = ap (λ p. p.1) (ok-injective h4) in
            record {
              old = m;
              new = _;
              updated = record {
                before = found;
                after = sym (ap (λ (x : World _). x.accounts) done);
                ledger_kept = sym (ap (λ (x : World _). x.ledger) done);
              };
              is_creator = own;
              is_signed = by;
              shares = refl;
              sum_kept = ground arith;
            }
