-- ===== src/Program/Admin/Ownership.antt =====
-- programs/token-mill/src/instructions/admin: the configuration changes hands in two steps.
use sol_token_mill.Base.{
  Bool, Option, ap, arith, none, some, subst, sym, true, ◌==◌, ◌∙◌, ◌∷◌, ◌≡◌, ◌≢◌,
}
use sol_token_mill.Config.{TokenMillConfig}
use sol_token_mill.Errors.{ok, ok-injective}
use sol_token_mill.Market.{Pubkey}
use sol_token_mill.Program.{Account, Instruction, World, config_account, update, ◌>>=◌}
use sol_token_mill.Program.Admin.{accept_config_ownership, config_update, transfer_config_ownership}
use sol_token_mill.Program.Checks.{is_key}
use sol_token_mill.Program.Events.{config_ownership_transfer}
use sol_token_mill.Program.Runs.{on_check, on_load_config, on_step, same_key, update_same}

pub key-some : (k : Option Pubkey) {key : Pubkey} → is_key k key ≡ true → k ≡ some key
key-some (some k) h = ap (λ (x : Pubkey). some x) (same_key h)
key-some none h = absurd (ground arith)

-- The checks of `ConfigUpdate` let only the authority of the configuration pass.
pub on_config_update {ℓ} :
    {L B : Type 0} {P : Type ℓ} {r : B × World L} (key authority : Pubkey) (signed : Pubkey → Bool)
    (f : TokenMillConfig → Instruction L B) (w : World L)
    → (config_update key authority signed >>= f) w ≡ ok r
    → ((c : TokenMillConfig)
        → w.accounts key ≡ some (config_account c)
        → c.authority ≡ authority
        → signed authority ≡ true
        → f c w ≡ ok r
        → P)
    → P
unfolding config_update
on_config_update {r = r} key authority signed f w h k =
    on_step (config_update key authority signed) {f = f} {w = w} h λ c w1 e h1.
      on_check (signed authority) _ _ {w = w} e λ by e1.
        on_load_config key _ {w = w} e1 λ c0 found e2.
          on_check (c0.authority == authority) _ _ {w = w} e2 λ own e3.
            k c0 found (same_key own) by (
              subst (λ (p : TokenMillConfig × World _). f p.0 p.1 ≡ ok r) (sym (ok-injective e3))
                h1)

update_other :
    (accounts : Pubkey → Option Account) (key other : Pubkey) (x : Account)
    → other ≢ key
    → update accounts key x other ≡ accounts other
update_other accounts key other x h = ground arith

config_account-injective :
    {a b : TokenMillConfig} → some (config_account a) ≡ some (config_account b) → a ≡ b
config_account-injective h = cc

at : {A B : Pubkey → Option Account} → A ≡ B → (key : Pubkey) → A key ≡ B key
at e key = ap (λ (f : Pubkey → Option Account). f key) e

abbrev named_config : TokenMillConfig → Option Pubkey → Account
named_config c named = config_account (record c { pending_authority = named })

abbrev owned_config : TokenMillConfig → Pubkey → Account
owned_config c next = config_account (record c { authority = next; pending_authority = none })

-- What the transfer has checked, and the world that it leaves.
transfer_run :
    {L : Type 0} (key authority : Pubkey) (named : Option Pubkey) (signed : Pubkey → Bool)
    (w w1 : World L)
    → transfer_config_ownership key authority signed named w ≡ ok (tt, w1)
    → (old : TokenMillConfig) × (w.accounts key ≡ some (config_account old))
      × (old.authority ≡ authority)
      × (signed authority ≡ true)
      × (w1 ≡ record w { accounts = update w.accounts key (named_config old named) })
unfolding transfer_config_ownership
transfer_run key authority named signed w w1 h =
    on_config_update key authority signed _ w h λ old found own by h1.
      (old, found, own, by, sym (ap (λ (p : Unit {0} × World _). p.1) (ok-injective h1)))

-- The same for the acceptance.
accept_run :
    {L : Type 0} (key next : Pubkey) (signed : Pubkey → Bool) (w w1 : World L)
    → accept_config_ownership key next signed w ≡ ok (tt, w1)
    → (c : TokenMillConfig) × (w.accounts key ≡ some (config_account c))
      × (signed next ≡ true)
      × (c.pending_authority ≡ some next)
      × (w1 ≡ record w {
        accounts = update w.accounts key (owned_config c next);
        log = config_ownership_transfer key next ∷ w.log;
      })
unfolding accept_config_ownership
accept_run key next signed w w1 h = on_check (signed next) _ _ {w = w} h λ by h1.
    on_load_config key _ {w = w} h1 λ c found h2.
      on_check (is_key c.pending_authority next) _ _ {w = w} h2 λ named_next h3. (
        c,
        found,
        by,
        key-some c.pending_authority named_next,
        sym (ap (λ (p : Unit {0} × World _). p.1) (ok-injective h3)),
      )

-- A transfer of ownership that has succeeded, followed by an acceptance that has succeeded: the old
-- authority signed the first, the account that it named signed the second and is the authority then,
-- nobody is pending any more, nothing else of the configuration, no other account of the program, not
-- the token ledger and not the clock has changed since before the transfer, and the log has gained one
-- event, that of the transfer of ownership to the new authority.
pub accept_config_ownership-transfer_config_ownership :
    {L : Type 0} (key authority next : Pubkey) (named : Option Pubkey)
    (signed signed' : Pubkey → Bool) (w w1 w2 : World L)
    → transfer_config_ownership key authority signed named w ≡ ok (tt, w1)
    → accept_config_ownership key next signed' w1 ≡ ok (tt, w2)
    → (old : TokenMillConfig) × (w.accounts key ≡ some (config_account old))
      × (old.authority ≡ authority)
      × (signed authority ≡ true)
      × (named ≡ some next)
      × (signed' next ≡ true)
      × (w2.accounts key
          ≡ some (config_account (record old { authority = next; pending_authority = none })))
      × ((other : Pubkey) → other ≢ key → w2.accounts other ≡ w.accounts other)
      × (w2.ledger ≡ w.ledger)
      × (w2.unix_timestamp ≡ w.unix_timestamp)
      × (w2.log ≡ config_ownership_transfer key next ∷ w.log)
accept_config_ownership-transfer_config_ownership key authority next named signed signed' w w1 w2 h
      h' =
    let (old, found, own, by, e1) = transfer_run key authority named signed w w1 h in
    let (c, found', by', named_next, e2) = accept_run key next signed' w1 w2 h' in
    let stored = named_config old named in
    let granted = owned_config c next in
    let a1 : w1.accounts ≡ update w.accounts key stored = ap (λ (x : World _). x.accounts) e1 in
    let a2 : w2.accounts ≡ update w1.accounts key granted = ap (λ (x : World _). x.accounts) e2 in
    let same : c ≡ record old { pending_authority = named } =
      config_account-injective (sym found' ∙ at a1 key ∙ update_same w.accounts key stored) in
    (
      old,
      found,
      own,
      by,
      sym (ap (λ (x : TokenMillConfig). x.pending_authority) same) ∙ named_next,
      by',
      at a2 key
          ∙ update_same w1.accounts key granted
          ∙ ap (λ (x : TokenMillConfig). some (owned_config x next)) same,
      (λ other ne.
          at a2 other
          ∙ update_other w1.accounts key other granted ne
          ∙ at a1 other
          ∙ update_other w.accounts key other stored ne),
      ap (λ (x : World _). x.ledger) e2 ∙ ap (λ (x : World _). x.ledger) e1,
      ap (λ (x : World _). x.unix_timestamp) e2 ∙ ap (λ (x : World _). x.unix_timestamp) e1,
      ap (λ (x : World _). x.log) e2
          ∙ ap (λ (x : World _). config_ownership_transfer key next ∷ x.log) e1,
    )
