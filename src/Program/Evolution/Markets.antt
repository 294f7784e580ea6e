-- ===== src/Program/Evolution/Markets.antt =====
-- programs/token-mill/src/instructions/creator and instructions/swap.rs: what the instructions on a market
-- that exists do to the accounts.
use sol_token_mill.Base.{
  Bool, List, [], ap, arith, false, get_elem?, inl, inr, length, refl, some, subst, suc, sym, true,
  zero, ℕ, ◌+◌, ◌==◌, ◌∙◌, ◌∷◌, ◌≡◌, ◌≤◌, ◌⊎◌,
}
use sol_token_mill.Constant.{interval_number, prices_length}
use sol_token_mill.Errors.{ok}
use sol_token_mill.Market.{Market, Pubkey, are_prices_set, check_and_set_prices}
use sol_token_mill.Market.Bounds.{PricesAtMost}
use sol_token_mill.Market.Fees.{distribute_fee-Distributed}
use sol_token_mill.Market.Prices.{
  Ascending, BidsBelowAsks, CurvesValid, acceptance, accepted-CurvesValid, get_elem?-some,
}
use sol_token_mill.Math.Steps.{limit}
use sol_token_mill.Program.{World, market_account, update}
use sol_token_mill.Program.Checks.{check_associated, check_mint, transfer_from_pda}
use sol_token_mill.Program.Creator.{
  claim_creator_fees, set_market_prices, update_creator, update_market_fee_shares,
}
use sol_token_mill.Program.Creator.Effects.{on_settings, update_market_fee_shares-SharesMoved}
use sol_token_mill.Program.Evolution.{AccountsValid, Evolves, PricesStep, identity, market_step}
use sol_token_mill.Program.Evolution.Changes.{Evolves-write}
use sol_token_mill.Program.External.{Runtime}
use sol_token_mill.Program.Frames.{
  check_associated-ReadOnly, check_mint-ReadOnly, transfer_from_pda-KeepsAccounts,
}
use sol_token_mill.Program.Runs.{accounts_of, on_check, on_lift, on_load_market}
use sol_token_mill.Program.Runs.Keeps.{on_keep, on_read}
use sol_token_mill.Program.Trade.{SwapAccounts, referral_share, swap}
use sol_token_mill.Program.Trade.Effects.{swap-SwapEffect}
use sol_token_mill.Program.Trade.Safety.{Tradable-fees}
use sol_token_mill.Ruint.{Laws, Ruint}
use sol_token_mill.SwapManager.Reserve.{Tradable, swap-SwapDone}
use sol_token_mill.SwapTypes.{SwapAmountType, SwapType}

-- Ascending prices are at most the last of them.
prices_capped :
    (bound before n : ℕ) (ps : List ℕ) {last : ℕ}
    → length ps ≡ suc n
    → Ascending before ps
    → get_elem? ps n ≡ some last
    → last ≤ bound
    → (before ≤ bound) × PricesAtMost bound ps
prices_capped bound before n [] len rise e le = absurd (omega arith)
prices_capped bound before zero (p ∷ []) len rise e le = ground arith
prices_capped bound before zero (p ∷ q ∷ ps) len rise e le = absurd (omega arith)
prices_capped bound before (suc n) (p ∷ ps) len rise e le =
    let (le_p, rest) = prices_capped bound p n ps (omega arith) rise.1 e le in
    (omega arith, (le_p, rest))

bids_capped :
    (bound : ℕ) (bids asks : List ℕ)
    → length bids ≡ length asks
    → BidsBelowAsks bids asks
    → PricesAtMost bound asks
    → PricesAtMost bound bids
bids_capped bound [] asks len o h = tt
bids_capped bound (bid ∷ bids) [] len o h = absurd (omega arith)
bids_capped bound (bid ∷ bids) (ask ∷ asks) len o h =
    (omega arith, bids_capped bound bids asks (omega arith) o.1 h.1)

pub CurvesValid-asks : (bids asks : List ℕ) → CurvesValid bids asks → PricesAtMost limit asks
CurvesValid-asks bids [] c = tt
CurvesValid-asks bids (ask ∷ asks) c =
    let (last, e) = get_elem?-some (ask ∷ asks) interval_number (omega (arith, c.asks_length)) in
    let (le, rest) =
      prices_capped limit ask 9 asks (omega (arith, c.asks_length)) c.asks_ascend e
        (omega (arith, c.capped last e)) in
    (le, rest)

pub CurvesValid-bids : (bids asks : List ℕ) → CurvesValid bids asks → PricesAtMost limit bids
CurvesValid-bids bids asks c =
    bids_capped limit bids asks (c.bids_length ∙ sym c.asks_length) c.ordered
      (CurvesValid-asks bids asks c)

pub curves_kept :
    (m m' : Market)
    → m'.bid_prices ≡ m.bid_prices
    → m'.ask_prices ≡ m.ask_prices
    → (are_prices_set m ≡ ok false) ⊎ CurvesValid m.bid_prices m.ask_prices
    → (are_prices_set m' ≡ ok false) ⊎ CurvesValid m'.bid_prices m'.ask_prices
unfolding are_prices_set
curves_kept m m' eb ea (inl unset) = inl (rw ea unset)
curves_kept m m' eb ea (inr c) = inr (rw (eb, ea) c)

-- Neither the creator of a market nor its fees matter to what it can trade.
Tradable-creator :
    (m : Market) (creator : Pubkey) → Tradable m → Tradable (record m { creator = creator })
Tradable-creator m creator t = record {
  reserve = record {
    supply = t.reserve.supply;
    reserve_le = t.reserve.reserve_le;
    width = t.reserve.width;
  };
  bids_length = t.bids_length;
  asks_length = t.asks_length;
  bids_bounded = t.bids_bounded;
  asks_bounded = t.asks_bounded;
}

module _ {L : Type 0} (signed : Pubkey → Bool) (w w' : World L) (v : AccountsValid w.accounts) where
  -- A market whose settings are kept.
  trades :
      (key : Pubkey) (m m' : Market)
      → w.accounts key ≡ some (market_account m)
      → m' ≡ record m { base_reserve = m'.base_reserve; fees = m'.fees }
      → m'.fees.creator_fee_share ≡ m.fees.creator_fee_share
      → m'.fees.staking_fee_share ≡ m.fees.staking_fee_share
      → Tradable m'
      → w'.accounts ≡ update w.accounts key (market_account m')
      → Evolves signed w.accounts w'.accounts
  trades key m m' found same ec es t e =
      let vm = v.valid key (market_account m) found in
      let eb : m'.bid_prices ≡ m.bid_prices = ap (λ (x : Market). x.bid_prices) same in
      let ea : m'.ask_prices ≡ m.ask_prices = ap (λ (x : Market). x.ask_prices) same in
      let eo : m'.creator ≡ m.creator = ap (λ (x : Market). x.creator) same in
      Evolves-write key (market_account m) (market_account m') v found
        (market_step m m' refl refl (record {
          identity_kept = ap identity same;
          prices = inl (eb, ea);
          by = inl (record {
            creator = eo;
            bid_prices = eb;
            ask_prices = ea;
            creator_share = ec;
            staking_share = es;
          });
          sum_kept = omega arith;
        }))
        (record {
          tradable = t;
          shares = record { shares_fit = omega (arith, vm.shares.shares_fit) };
          curves = curves_kept m m' eb ea vm.curves;
        })
        e

  -- A market whose creator has signed.
  settles :
      (key : Pubkey) (m m' : Market)
      → w.accounts key ≡ some (market_account m)
      → signed m.creator ≡ true
      → identity m' ≡ identity m
      → PricesStep m m'
      → m'.fees.creator_fee_share + m'.fees.staking_fee_share
        ≡ m.fees.creator_fee_share + m.fees.staking_fee_share
      → Tradable m'
      → (are_prices_set m' ≡ ok false) ⊎ CurvesValid m'.bid_prices m'.ask_prices
      → w'.accounts ≡ update w.accounts key (market_account m')
      → Evolves signed w.accounts w'.accounts
  settles key m m' found by same prices sum t curves e =
      let vm = v.valid key (market_account m) found in
      Evolves-write key (market_account m) (market_account m') v found
        (market_step m m' refl refl
          (record { identity_kept = same; prices = prices; by = inr by; sum_kept = sum }))
        (record {
          tradable = t;
          shares = record { shares_fit = omega (arith, vm.shares.shares_fit) };
          curves = curves;
        })
        e

  pub set_market_prices-Evolves :
      (market creator : Pubkey) (bids asks : List ℕ)
      → length bids ≡ prices_length
      → length asks ≡ prices_length
      → set_market_prices market creator signed bids asks w ≡ ok (tt, w')
      → Evolves signed w.accounts w'.accounts
  unfolding set_market_prices
  set_market_prices-Evolves market creator bids asks lb la h =
      on_settings market creator signed _ h λ m found own by h1.
        on_lift (check_and_set_prices m bids asks) _ {w = w} h1 λ m' em h2.
          let vm = v.valid market (market_account m) found in
          let a = acceptance m m' bids asks em in
          let c = accepted-CurvesValid m m' bids asks lb la a in
          subst
            (λ (x : Market).
              w'.accounts ≡ update w.accounts market (market_account x)
              → Evolves signed w.accounts w'.accounts)
            (sym a.stored)
            (settles market m (record m { bid_prices = bids; ask_prices = asks }) found (rw own by)
              refl (inr (a.unset, c)) refl
              (record {
                reserve = record {
                  supply = vm.tradable.reserve.supply;
                  reserve_le = vm.tradable.reserve.reserve_le;
                  width = vm.tradable.reserve.width;
                };
                bids_length = lb;
                asks_length = la;
                bids_bounded = CurvesValid-bids bids asks c;
                asks_bounded = CurvesValid-asks bids asks c;
              })
              (inr c))
            (accounts_of h2)

  pub update_creator-Evolves :
      (market creator new_creator : Pubkey)
      → update_creator market creator signed new_creator w ≡ ok (tt, w')
      → Evolves signed w.accounts w'.accounts
  unfolding update_creator
  update_creator-Evolves market creator new_creator h =
      on_settings market creator signed _ h λ m found own by h1.
        let vm = v.valid market (market_account m) found in
        settles market m (record m { creator = new_creator }) found (rw own by) refl
          (inl (refl, refl)) refl (Tradable-creator m new_creator vm.tradable)
          (curves_kept m (record m { creator = new_creator }) refl refl vm.curves) (accounts_of h1)

  pub update_market_fee_shares-Evolves :
      (market creator : Pubkey) (creator_share staking_share : ℕ)
      → update_market_fee_shares market creator signed creator_share staking_share w ≡ ok (tt, w')
      → Evolves signed w.accounts w'.accounts
  update_market_fee_shares-Evolves market creator creator_share staking_share h =
      let s =
        update_market_fee_shares-SharesMoved market creator signed creator_share staking_share w w'
          h in
      let vm = v.valid market (market_account s.old) s.updated.before in
      settles market s.old s.new s.updated.before (rw (s.is_creator) s.is_signed)
        (ap identity s.shares)
        (inl
          (ap (λ (x : Market). x.bid_prices) s.shares, ap (λ (x : Market). x.ask_prices) s.shares))
        (ap (λ (x : Market). x.fees.creator_fee_share + x.fees.staking_fee_share) s.shares
          ∙ s.sum_kept)
        (subst Tradable (sym s.shares) (Tradable-fees s.old _ vm.tradable))
        (curves_kept s.old s.new (ap (λ (x : Market). x.bid_prices) s.shares)
          (ap (λ (x : Market). x.ask_prices) s.shares) vm.curves)
        s.updated.after

  pub claim_creator_fees-Evolves :
      (E : Runtime L) (market mint source destination creator token_program : Pubkey)
      → claim_creator_fees E market mint source destination creator token_program signed w
        ≡ ok (tt, w')
      → Evolves signed w.accounts w'.accounts
  unfolding claim_creator_fees
  claim_creator_fees-Evolves E market mint source destination creator token_program h =
      on_load_market market _ {w = w} h λ m found h1.
        on_check (m.creator == creator) _ _ {w = w} h1 λ own h2.
          on_check (m.quote_token_mint == mint) _ _ {w = w} h2 λ _ h3.
            on_read (check_mint E mint) (check_mint-ReadOnly E mint) _ {w = w} h3 λ decimals h4.
              on_read (check_associated E _ _ _ _) (check_associated-ReadOnly E _ _ _ _) _ {w = w}
                h4
                λ _ h5.
                  on_read (check_associated E _ _ _ _) (check_associated-ReadOnly E _ _ _ _) _
                    {w = w} h5
                    λ _ h6. on_check (signed creator) _ _ {w = w} h6 λ by h7.
                      let m' = record m { fees = record (m.fees) { pending_creator_fees = 0 } } in
                      on_keep (transfer_from_pda E _ _ _ _ _ _ _ _ _)
                        (transfer_from_pda-KeepsAccounts E _ _ _ _ _ _ _ _ _) _
                        (record w { accounts = update w.accounts market (market_account m') }) h7
                        λ _ w2 k2 h8.
                          trades market m m' found refl refl refl
                            (Tradable-fees m _ (v.valid market (market_account m) found).tradable)
                            (accounts_of h8 ∙ sym k2)

  pub swap-Evolves :
      {R : Ruint} (laws : Laws R) (E : Runtime L) (a : SwapAccounts) (swap_type : SwapType)
      (kind : SwapAmountType) (amount threshold : ℕ) (out : ℕ × ℕ)
      → swap R E a signed swap_type kind amount threshold w ≡ ok (out, w')
      → Evolves signed w.accounts w'.accounts
  swap-Evolves {R = R} laws E a swap_type kind amount threshold out h =
      let e = swap-SwapEffect R E a signed swap_type kind amount threshold out w w' h in
      let vm = v.valid a.market (market_account e.old) e.checked.market_found in
      let d =
        swap-SwapDone laws e.old e.traded swap_type kind amount e.trade vm.tradable e.trade_eq in
      let f =
        distribute_fee-Distributed e.traded.fees e.trade.swap_fee
          (referral_share a.referral_token_account e.config.referral_fee_share) (e.split, e.fees)
          e.split_eq in
      trades a.market e.old (record (e.traded) { fees = e.fees }) e.checked.market_found
        (ap (λ (x : Market). record x { fees = e.fees }) d.only_reserve)
        (f.creator_share_kept ∙ ap (λ (x : Market). x.fees.creator_fee_share) d.only_reserve)
        (f.staking_share_kept ∙ ap (λ (x : Market). x.fees.staking_fee_share) d.only_reserve)
        (Tradable-fees e.traded e.fees d.tradable) e.after
