-- ===== src/Program/Payments.antt =====
-- programs/token-mill/src/manager/token_manager.rs: the transfers that an instruction makes, as a list.
use sol_token_mill.Base.{
  Bool, List, Option, [], ap, arith, false, if◌then◌else◌, none, refl, some, true, ℕ, ◌++◌, ◌∙◌,
  ◌∷◌, ◌≡◌,
}
use sol_token_mill.Errors.{ok, ok-injective}
use sol_token_mill.Market.{Pubkey}
use sol_token_mill.Program.{Instruction, World, called, invoke, return, ◌>>=◌}
use sol_token_mill.Program.Checks.{transfer_from_eoa, transfer_from_pda}
use sol_token_mill.Program.External.{Authority, Runtime, Seeds, Transfer, eoa, pda}
use sol_token_mill.Program.Runs.{on_step}

-- Transfers one after the other, on the ledger alone.
abbrev pub carry_out : {L : Type 0} → Runtime L → List Transfer → L → Option L
carry_out E [] l = some l
carry_out E (t ∷ ts) l = elim (E.transfer_checked t l) [ none ↦ none | some l' ↦ carry_out E ts l' ]

-- Between the two states are these transfers, and nothing else.
pub record Paid {L : Type 0} (E : Runtime L) (ts : List Transfer) (w w' : World L) : Type 0 where
  pub accounts : w.accounts ≡ w'.accounts
  pub clock : w.unix_timestamp ≡ w'.unix_timestamp
  pub log : w.log ≡ w'.log
  pub ledger : carry_out E ts w.ledger ≡ some w'.ledger

abbrev pub Pays : {L : Type 0} → Runtime L → List Transfer → Instruction L (Unit {0}) → Type 0
Pays {L} E ts m = (w : World L) (u : Unit {0}) (w' : World L) → m w ≡ ok (u, w') → Paid E ts w w'

rest_append :
    {L : Type 0} (E : Runtime L) (ts us : List Transfer) (l1 : L)
    → ((l : L) → carry_out E ts l ≡ some l1 → carry_out E (ts ++ us) l ≡ carry_out E us l1)
    → (x : Option L) → elim x [ none ↦ none | some l ↦ carry_out E ts l ] ≡ some l1
    → elim x [ none ↦ none | some l ↦ carry_out E (ts ++ us) l ] ≡ carry_out E us l1
rest_append E ts us l1 rest none h = absurd (ground arith)
rest_append E ts us l1 rest (some l) h = rest l h

carry_out-append :
    {L : Type 0} (E : Runtime L) (ts us : List Transfer) (l l1 : L)
    → carry_out E ts l ≡ some l1
    → carry_out E (ts ++ us) l ≡ carry_out E us l1
carry_out-append E [] us l l1 h = let same : l ≡ l1 = cc in ap (carry_out E us) same
carry_out-append E (t ∷ ts) us l l1 h =
    rest_append E ts us l1 (λ l' e. carry_out-append E ts us l' l1 e) (E.transfer_checked t l) h

pub Paid-then :
    {L : Type 0} {E : Runtime L} {ts us : List Transfer} {w w1 w2 : World L}
    → Paid E ts w w1
    → Paid E us w1 w2
    → Paid E (ts ++ us) w w2
Paid-then {L} {E} {ts} {us} {w} {w1} {w2} p q = record {
  accounts = p.accounts ∙ q.accounts;
  clock = p.clock ∙ q.clock;
  log = p.log ∙ q.log;
  ledger = carry_out-append E ts us w.ledger w1.ledger p.ledger ∙ q.ledger;
}

called-Paid :
    {L : Type 0} (E : Runtime L) (t : Transfer) (w w' : World L) (x : Option L) (u : Unit {0})
    → E.transfer_checked t w.ledger ≡ x
    → called w x ≡ ok (u, w')
    → Paid E (t ∷ []) w w'
called-Paid {L} E t w w' none u e h = absurd (ground arith)
called-Paid {L} E t w w' (some l) u e h =
    let done : record w { ledger = l } ≡ w' =
      ap (λ (p : Unit {0} × World L). p.1) (ok-injective h) in
    record {
      accounts = ap (λ (x : World L). x.accounts) done;
      clock = ap (λ (x : World L). x.unix_timestamp) done;
      log = ap (λ (x : World L). x.log) done;
      ledger = rw (carry_out, e) (ap (λ (x : World L). some x.ledger) done);
    }

pub invoke-Pays :
    {L : Type 0} (E : Runtime L) (t : Transfer) → Pays E (t ∷ []) (invoke (E.transfer_checked t))
invoke-Pays E t w u w' h = called-Paid E t w w' (E.transfer_checked t w.ledger) u refl h

pub return-Pays : {L : Type 0} (E : Runtime L) → Pays E [] (return tt)
return-Pays {L} E w u w' h =
    let done : w ≡ w' = ap (λ (p : Unit {0} × World L). p.1) (ok-injective h) in
    record {
      accounts = ap (λ (x : World L). x.accounts) done;
      clock = ap (λ (x : World L). x.unix_timestamp) done;
      log = ap (λ (x : World L). x.log) done;
      ledger = ap (λ (x : World L). some x.ledger) done;
    }

pub if-Pays :
    {L : Type 0} (E : Runtime L) (b : Bool) (ts : List Transfer) (m : Instruction L (Unit {0}))
    → Pays E ts m
    → Pays E (if b then ts else []) (if b then m else return tt)
if-Pays E true ts m pays w u w' h = pays w u w' h
if-Pays E false ts m pays w u w' h = return-Pays E w u w' h

pub on_pay {ℓ} :
    {L B : Type 0} {P : Type ℓ} {r : B × World L} {E : Runtime L} {ts : List Transfer}
    (m : Instruction L (Unit {0})) (pays : Pays E ts m) (f : Unit {0} → Instruction L B)
    (w : World L)
    → (m >>= f) w ≡ ok r
    → ((w' : World L) → Paid E ts w w' → f tt w' ≡ ok r → P)
    → P
on_pay m pays f w h k = on_step m {f = f} {w = w} h λ u w1 e h1. k w1 (pays w u w1 e) h1

-- A transfer by its parts, in the order of its fields.
abbrev pub transfer_of :
    (token_program mint source destination : Pubkey) → Authority → (amount decimals : ℕ) → Transfer
transfer_of token_program mint source destination authority amount decimals = record {
  token_program = token_program;
  mint = mint;
  source = source;
  destination = destination;
  authority = authority;
  amount = amount;
  decimals = decimals;
}

module _ {L : Type 0} (E : Runtime L) where
  pub transfer_from_eoa-Pays :
      (mint : Pubkey) (decimals : ℕ) (owner source destination token_program : Pubkey) (amount : ℕ)
      → Pays E
          (transfer_of token_program mint source destination (eoa owner) amount decimals ∷ [])
          (transfer_from_eoa E mint decimals owner source destination token_program amount)
  unfolding transfer_from_eoa
  transfer_from_eoa-Pays mint decimals owner source destination token_program amount =
      invoke-Pays E (transfer_of token_program mint source destination (eoa owner) amount decimals)

  pub transfer_from_pda-Pays :
      (mint : Pubkey) (decimals : ℕ) (owner source destination token_program : Pubkey) (amount : ℕ)
      (seeds : Seeds) (bump : ℕ)
      → Pays E
          (transfer_of token_program mint source destination (pda owner seeds bump) amount decimals
            ∷ [])
          (transfer_from_pda E mint decimals owner source destination token_program amount seeds
            bump)
  unfolding transfer_from_pda
  transfer_from_pda-Pays mint decimals owner source destination token_program amount seeds bump =
      invoke-Pays E
        (transfer_of token_program mint source destination (pda owner seeds bump) amount decimals)
