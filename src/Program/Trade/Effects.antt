-- ===== src/Program/Trade/Effects.antt =====
-- programs/token-mill/src/instructions/swap.rs: what the instruction does to the accounts.
use sol_token_mill.SwapManager
use sol_token_mill.Base.{
  Bool, List, ap, arith, not, refl, some, subst, sym, true, ℕ, ◌++◌, ◌==◌, ◌∙◌, ◌∷◌, ◌≡◌, ◌≤◌,
}
use sol_token_mill.Config.{TokenMillConfig}
use sol_token_mill.Errors.{ok, ok-injective}
use sol_token_mill.Market.{FeeSplit, Market, MarketFees, Pubkey, distribute_fee}
use sol_token_mill.Program.{World, market_account, update}
use sol_token_mill.Program.Checks.{transfer_from_eoa, transfer_from_pda}
use sol_token_mill.Program.Events.{Event, swap_event}
use sol_token_mill.Program.External.{Runtime, Transfer, eoa, market_seeds, pda}
use sol_token_mill.Program.Payments.{
  Paid-then, carry_out, on_pay, transfer_from_eoa-Pays, transfer_from_pda-Pays, transfer_of,
}
use sol_token_mill.Program.Runs.{on_check, on_lift}
use sol_token_mill.Program.Trade.{
  Side, SwapAccounts, pay_fee, pay_referral, referral_share, sides, swap, threshold_met,
}
use sol_token_mill.Program.Trade.Checked.{Checked, on_swap_checks}
use sol_token_mill.Program.Trade.Transfers.{
  exchange, pay_fee-Pays, pay_referral-Pays, swap_transfers,
}
use sol_token_mill.Ruint.{Ruint}
use sol_token_mill.SwapManager.{Swapped}
use sol_token_mill.SwapTypes.{SwapAmountType, SwapType, buy, exact_input, exact_output, sell}

-- The threshold that the user named holds for what a swap returned, `(base, quote)`.
abbrev pub Protected : SwapType → SwapAmountType → (threshold : ℕ) → ℕ × ℕ → Type 0
Protected buy exact_input threshold out = threshold ≤ out.0
Protected buy exact_output threshold out = out.1 ≤ threshold
Protected sell exact_input threshold out = threshold ≤ out.1
Protected sell exact_output threshold out = out.0 ≤ threshold

threshold_met-Protected :
    (swap_type : SwapType) (kind : SwapAmountType) (base quote : Side) (threshold : ℕ)
    → threshold_met kind
        (sides swap_type base quote).0.amount
        (sides swap_type base quote).1.amount
        threshold
      ≡ true
    → Protected swap_type kind threshold (base.amount, quote.amount)
threshold_met-Protected buy exact_input base quote threshold h = ground arith
threshold_met-Protected buy exact_output base quote threshold h = ground arith
threshold_met-Protected sell exact_input base quote threshold h = ground arith
threshold_met-Protected sell exact_output base quote threshold h = ground arith

-- The transfers by what comes in first are those of each type of swap.
exchanged :
    (a : SwapAccounts) (swap_type : SwapType) (bump bd qd : ℕ) (s : Swapped) (rest : List Transfer)
    (base quote : Side)
    → base ≡ record {
      amount = s.base_amount;
      mint = a.base_token_mint;
      decimals = bd;
      user_token_account = a.user_base_token_account;
      market_token_account = a.market_base_token_ata;
      token_program = a.base_token_program;
    }
    → quote ≡ record {
      amount = s.quote_amount;
      mint = a.quote_token_mint;
      decimals = qd;
      user_token_account = a.user_quote_token_account;
      market_token_account = a.market_quote_token_ata;
      token_program = a.quote_token_program;
    }
    → transfer_of
          (sides swap_type base quote).0.token_program
          (sides swap_type base quote).0.mint
          (sides swap_type base quote).0.user_token_account
          (sides swap_type base quote).0.market_token_account
          (eoa a.user)
          (sides swap_type base quote).0.amount
          (sides swap_type base quote).0.decimals
        ∷ transfer_of
            (sides swap_type base quote).1.token_program
            (sides swap_type base quote).1.mint
            (sides swap_type base quote).1.market_token_account
            (sides swap_type base quote).1.user_token_account
            (pda a.market (market_seeds a.base_token_mint) bump)
            (sides swap_type base quote).1.amount
            (sides swap_type base quote).1.decimals
        ∷ rest
      ≡ exchange a swap_type bump bd qd s ++ rest
exchanged a buy bump bd qd s rest base quote eb eq = rw (eb, eq) refl
exchanged a sell bump bd qd s rest base quote eb eq = rw (eb, eq) refl

module _ {L : Type 0} (R : Ruint) (E : Runtime L) where
  -- What a swap instruction that returns `out` has done: the trade `trade` on the market as it was,
  -- the split of its fee, the new market in place of the old one, the transfers, and the event.
  pub record SwapEffect (a : SwapAccounts) (signed : Pubkey → Bool) (swap_type : SwapType)
      (kind : SwapAmountType) (amount threshold : ℕ) (out : ℕ × ℕ) (w w' : World L) : Type 0 where
    pub config : TokenMillConfig
    pub old : Market
    pub base_decimals : ℕ
    pub quote_decimals : ℕ
    pub checked : Checked R E a signed w config old base_decimals quote_decimals
    pub trade : Swapped
    pub traded : Market
    pub split : FeeSplit
    pub fees : MarketFees
    pub trade_eq : SwapManager.swap R old swap_type kind amount ≡ ok (trade, traded)
    pub split_eq :
        distribute_fee traded.fees trade.swap_fee
          (referral_share a.referral_token_account config.referral_fee_share)
        ≡ ok (split, fees)
    pub returned : out ≡ (trade.base_amount, trade.quote_amount)
    pub protected : Protected swap_type kind threshold out
    pub after :
        w'.accounts ≡ update w.accounts a.market (market_account (record traded { fees = fees }))
    pub ledger :
        carry_out E
          (swap_transfers a swap_type old.bump base_decimals quote_decimals trade split)
          w.ledger
        ≡ some w'.ledger
    pub logged :
        w'.log
        ≡ swap_event a.user a.market swap_type trade.base_amount trade.quote_amount
            a.referral_token_account split.creator_fee split.staking_fee split.protocol_fee
            split.referral_fee
          ∷ w.log

  -- Whenever the swap instruction succeeds: the accounts that were passed belong together, and the
  -- user has signed. The account of the market goes from what was stored there to what
  -- `swap_manager::swap` and `distribute_fee` make of it, and no other account of the program
  -- changes. The amounts that the instruction returns are those of that trade, and the threshold
  -- that the user named holds for them. The ledger goes through exactly these transfers, in order:
  -- what comes in, from the user; what goes out, from the market; and the fees of the protocol and of
  -- a referral account, each if it is above 0. One event is logged.
  pub swap-SwapEffect :
      (a : SwapAccounts) (signed : Pubkey → Bool) (swap_type : SwapType) (kind : SwapAmountType)
      (amount threshold : ℕ) (out : ℕ × ℕ) (w w' : World L)
      → swap R E a signed swap_type kind amount threshold w ≡ ok (out, w')
      → SwapEffect a signed swap_type kind amount threshold out w w'
  unfolding swap
  swap-SwapEffect a signed swap_type kind amount threshold out w w' h =
      on_swap_checks R E a signed _ w h λ c m bd qd v h1.
        on_check (not (amount == 0)) _ _ {w = w} h1 λ positive h2.
          on_lift (SwapManager.swap R m swap_type kind amount) _ {w = w} h2 λ t et h3.
            on_lift
              (distribute_fee t.1.fees t.0.swap_fee
                (referral_share a.referral_token_account c.referral_fee_share))
              _ {w = w} h3
              λ s es h4.
                let stored : World L = record w {
                  accounts =
                      update w.accounts a.market (market_account (record t.1 { fees = s.1 }));
                } in
                on_check (threshold_met kind _ _ threshold) _ _ {w = stored} h4 λ met h5.
                  on_pay (transfer_from_eoa E _ _ _ _ _ _ _)
                    (transfer_from_eoa-Pays E _ _ _ _ _ _ _) _ stored h5
                    λ w2 p2 h6.
                      on_pay (transfer_from_pda E _ _ _ _ _ _ _ _ _)
                        (transfer_from_pda-Pays E _ _ _ _ _ _ _ _ _) _ w2 h6
                        λ w3 p3 h7.
                          on_pay
                            (pay_fee R E a m.bump qd a.protocol_quote_token_ata s.0.protocol_fee)
                            (pay_fee-Pays R E a m.bump qd a.protocol_quote_token_ata
                              s.0.protocol_fee)
                            _ w3 h7
                            λ w4 p4 h8.
                              on_pay
                                (pay_referral R E a m.bump qd a.referral_token_account
                                  s.0.referral_fee)
                                (pay_referral-Pays R E a m.bump qd a.referral_token_account
                                  s.0.referral_fee)
                                _ w4 h8
                                λ w5 p5 h9.
                                  let event =
                                    swap_event a.user a.market swap_type t.0.base_amount
                                      t.0.quote_amount a.referral_token_account s.0.creator_fee
                                      s.0.staking_fee s.0.protocol_fee s.0.referral_fee in
                                  let paid = Paid-then p2 (Paid-then p3 (Paid-then p4 p5)) in
                                  let done = ok-injective h9 in
                                  let returned = ap (λ (p : (ℕ × ℕ) × World L). p.0) done in
                                  record {
                                    config = c;
                                    old = m;
                                    base_decimals = bd;
                                    quote_decimals = qd;
                                    checked = v;
                                    trade = t.0;
                                    traded = t.1;
                                    split = s.0;
                                    fees = s.1;
                                    trade_eq = et;
                                    split_eq = es;
                                    returned = sym returned;
                                    protected =
                                        subst (Protected swap_type kind threshold) returned (
                                          threshold_met-Protected swap_type kind _ _ threshold met);
                                    after = sym (
                                        paid.accounts
                                        ∙ ap (λ (p : (ℕ × ℕ) × World L). p.1.accounts) done);
                                    ledger =
                                        ap (λ (ts : List Transfer). carry_out E ts w.ledger)
                                          (sym (
                                            exchanged a swap_type m.bump bd qd t.0 _ _ _ refl refl))
                                        ∙ paid.ledger
                                        ∙ ap (λ (p : (ℕ × ℕ) × World L). some p.1.ledger) done;
                                    logged =
                                        sym (ap (λ (p : (ℕ × ℕ) × World L). p.1.log) done)
                                        ∙ ap (λ (log : List Event). event ∷ log) (sym paid.log);
                                  }
