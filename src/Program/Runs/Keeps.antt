-- ===== src/Program/Runs/Keeps.antt =====
-- Instructions that only read, and those that leave the accounts of the program alone.
use sol_token_mill.Base.{Bool, Option, ap, arith, false, none, some, subst, sym, true, ◌≡◌}
use sol_token_mill.Errors.{Failure, ok, ok-injective}
use sol_token_mill.Program.{Instruction, World, called, check, invoke, return, ◌>>=◌}
use sol_token_mill.Program.Runs.{on_step}

-- An instruction that only reads.
abbrev pub ReadOnly : {L A : Type 0} → Instruction L A → Type 0
ReadOnly {L} {A} m = (w : World L) (a : A) (w' : World L) → m w ≡ ok (a, w') → w ≡ w'

-- One that may call programs and emit events, but leaves the accounts of this one alone.
abbrev pub KeepsAccounts : {L A : Type 0} → Instruction L A → Type 0
KeepsAccounts {L} {A} m =
    (w : World L) (a : A) (w' : World L) → m w ≡ ok (a, w') → w.accounts ≡ w'.accounts

pub check-ReadOnly : {L : Type 0} (b : Bool) (e : Failure) → ReadOnly {L = L} (check b e)
check-ReadOnly true e w a w' h = ap (λ p. p.1) (ok-injective h)
check-ReadOnly false e w a w' h = absurd (ground arith)

pub return-ReadOnly : {L A : Type 0} (x : A) → ReadOnly {L = L} (return x)
return-ReadOnly x w a w' h = ap (λ p. p.1) (ok-injective h)

called-KeepsAccounts :
    {L : Type 0} (x : Option L) (w w' : World L) (a : Unit {0})
    → called w x ≡ ok (a, w')
    → w.accounts ≡ w'.accounts
called-KeepsAccounts (some l) w w' a h =
    ap (λ (p : Unit {0} × World _). p.1.accounts) (ok-injective h)
called-KeepsAccounts none w w' a h = absurd (ground arith)

pub invoke-KeepsAccounts : {L : Type 0} (call : L → Option L) → KeepsAccounts (invoke call)
invoke-KeepsAccounts call w a w' h = called-KeepsAccounts (call w.ledger) w w' a h

module _ {ℓ} {L A B : Type 0} {P : Type ℓ} {r : B × World L} where
  pub on_read :
      (m : Instruction L A) (reads : ReadOnly m) (f : A → Instruction L B) {w : World L}
      → (m >>= f) w ≡ ok r
      → ((a : A) → f a w ≡ ok r → P)
      → P
  on_read m reads f {w} h k =
      on_step m {f = f} {w = w} h
        λ a w1 e h1. k a (subst (λ (x : World L). f a x ≡ ok r) (sym (reads w a w1 e)) h1)

  pub on_keep :
      (m : Instruction L A) (keeps : KeepsAccounts m) (f : A → Instruction L B) (w : World L)
      → (m >>= f) w ≡ ok r
      → ((a : A) (w' : World L) → w.accounts ≡ w'.accounts → f a w' ≡ ok r → P)
      → P
  on_keep m keeps f w h k = on_step m {f = f} {w = w} h λ a w1 e h1. k a w1 (keeps w a w1 e) h1
