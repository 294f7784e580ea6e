-- ===== src/Program/Silence.antt =====
-- programs/token-mill/src/lib.rs: what stays as it is while an account's owner does not sign.
use sol_token_mill.Base.{
  Bool, Option, ap, false, inl, inr, none, refl, some, subst, sym, true, ◌∙◌, ◌≡◌,
}
use sol_token_mill.Market.{Market, Pubkey}
use sol_token_mill.Program.{Account, World, config_account, market_account, position_account}
use sol_token_mill.Program.Evolution.{
  AccountStep, AccountsValid, MarketStep, SettingsKept, badge_step, config_step, market_step,
  plan_step, position_step, staking_step, unchanged,
}
use sol_token_mill.Program.External.{Runtime}
use sol_token_mill.Program.History.{
  History, History-AccountsValid, call, dispatch-Evolves, outside, start,
}
use sol_token_mill.Ruint.{Laws, Ruint}

-- `who` has signed none of the calls.
abbrev pub Silent :
    {L : Type 0} {R : Ruint} {E : Runtime L} {first w : World L}
    → Pubkey
    → History R E first w
    → Type 0
Silent who start = Unit {0}
Silent who (call signed c past t h) = (signed who ≡ false) × Silent who past
Silent who (outside past e) = Silent who past

-- The accounts that only `who` can change: a stake position of his, and a configuration of which he is
-- the authority and has named no other.
abbrev pub Owned : Pubkey → Account → Type 0
Owned who (position_account p) = p.user ≡ who
Owned who (config_account c) = (c.authority ≡ who) × (c.pending_authority ≡ none)
Owned who _ = ⊥

unsigned :
    (signed : Pubkey → Bool) {owner who : Pubkey}
    → owner ≡ who
    → signed who ≡ false
    → signed owner ≡ true
    → ⊥
unsigned signed e quiet by = cc (sym (rw e at by) ∙ quiet)

-- Without the signature of its owner, no step changes the account.
Owned-kept :
    (who : Pubkey) (signed : Pubkey → Bool) (a b : Account)
    → signed who ≡ false
    → Owned who a
    → AccountStep signed a b
    → b ≡ a
Owned-kept who signed a b quiet o (unchanged e) = e
Owned-kept who signed a b quiet o (position_step p p' ea eb s) =
    let owner : p.user ≡ who = subst (Owned who) ea o in absurd (unsigned signed owner quiet s.by)
Owned-kept who signed a b quiet o (config_step c c' ea eb s) =
    let (owner, unnamed) = subst (Owned who) ea o in
    elim s.by [
      | inl (by, _) ↦ absurd (unsigned signed owner quiet by)
      | inr (named, _, _) ↦ absurd (cc (sym named ∙ unnamed))
    ]
Owned-kept who signed a b quiet o (market_step m m' ea eb s) = absurd (subst (Owned who) ea o)
Owned-kept who signed a b quiet o (staking_step s s' ea eb t) = absurd (subst (Owned who) ea o)
Owned-kept who signed a b quiet o (plan_step p p' ea eb s) = absurd (subst (Owned who) ea o)
Owned-kept who signed a b quiet o (badge_step b0 b1 ea eb s) = absurd (subst (Owned who) ea o)

module _ {L : Type 0} {R : Ruint} (laws : Laws R) (E : Runtime L) (first : World L)
    (v : AccountsValid first.accounts) where
  -- Where the 256-bit integers obey their laws and every account is valid at first: through every
  -- sequence of calls of which `who` signs none, with whatever happens outside of the program between
  -- them, a stake position of his stays exactly as it is, and so does a configuration of which he is the
  -- authority, where no other account has been named.
  pub Silent-Owned :
      (who key : Pubkey) (a : Account) {w : World L}
      → first.accounts key ≡ some a
      → Owned who a
      → (past : History R E first w) → Silent who past
      → w.accounts key ≡ some a
  Silent-Owned who key a found o start quiet = found
  Silent-Owned who key a found o (call {w} {w'} signed c past t h) (quiet, before) =
      let e1 = Silent-Owned who key a found o past before in
      let ev =
        dispatch-Evolves laws E signed c w w' (History-AccountsValid laws E first v past) t h in
      let (b, eb, step, _) = ev.kept key a e1 in
      eb ∙ ap (λ (x : Account). some x) (Owned-kept who signed a b quiet o step)
  Silent-Owned who key a found o (outside past e) quiet =
      ap (λ (f : Pubkey → Option Account). f key) e ∙ Silent-Owned who key a found o past quiet

SettingsKept-refl : (m : Market) → SettingsKept m m
SettingsKept-refl m = record {
  creator = refl;
  bid_prices = refl;
  ask_prices = refl;
  creator_share = refl;
  staking_share = refl;
}

SettingsKept-trans : (m m1 m2 : Market) → SettingsKept m m1 → SettingsKept m1 m2 → SettingsKept m m2
SettingsKept-trans m m1 m2 s t = record {
  creator = t.creator ∙ s.creator;
  bid_prices = t.bid_prices ∙ s.bid_prices;
  ask_prices = t.ask_prices ∙ s.ask_prices;
  creator_share = t.creator_share ∙ s.creator_share;
  staking_share = t.staking_share ∙ s.staking_share;
}

-- A step without the signature of the creator.
MarketStep-SettingsKept :
    (who : Pubkey) (signed : Pubkey → Bool) (m m' : Market)
    → signed who ≡ false
    → m.creator ≡ who
    → MarketStep signed m m'
    → SettingsKept m m'
MarketStep-SettingsKept who signed m m' quiet owner step = elim step.by [
  | inl kept ↦ kept
  | inr by ↦ absurd (unsigned signed owner quiet by)
]

settings_after :
    (who : Pubkey) (signed : Pubkey → Bool) (m : Market) (a b : Account)
    → signed who ≡ false
    → m.creator ≡ who
    → a ≡ market_account m
    → AccountStep signed a b
    → (m' : Market) × (b ≡ market_account m') × SettingsKept m m'
settings_after who signed m a b quiet owner e (unchanged same) = (m, same ∙ e, SettingsKept-refl m)
settings_after who signed m a b quiet owner e (market_step n n' ea eb step) =
    let same : n ≡ m = cc (sym ea ∙ e) in
    (
      n',
      eb,
      subst (λ (x : Market). SettingsKept x n') same
          (MarketStep-SettingsKept who signed n n' quiet
            (ap (λ (x : Market). x.creator) same ∙ owner) step),
    )
settings_after who signed m a b quiet owner e (config_step c c' ea eb s) = absurd (cc (sym e ∙ ea))
settings_after who signed m a b quiet owner e (staking_step s s' ea eb t) = absurd (cc (sym e ∙ ea))
settings_after who signed m a b quiet owner e (position_step p p' ea eb s) =
    absurd (cc (sym e ∙ ea))
settings_after who signed m a b quiet owner e (plan_step p p' ea eb s) = absurd (cc (sym e ∙ ea))
settings_after who signed m a b quiet owner e (badge_step b0 b1 ea eb s) = absurd (cc (sym e ∙ ea))

module _ {L : Type 0} {R : Ruint} (laws : Laws R) (E : Runtime L) (first : World L)
    (v : AccountsValid first.accounts) where
  -- Where the 256-bit integers obey their laws and every account is valid at first: through every
  -- sequence of calls of which the creator of a market signs none, with whatever happens outside of the
  -- program between them, the market keeps its creator, its prices, and the shares of the creator and
  -- of the stakers.
  pub Silent-SettingsKept :
      (key : Pubkey) (m : Market) {w : World L}
      → first.accounts key ≡ some (market_account m)
      → (past : History R E first w) → Silent m.creator past
      → (m' : Market) × (w.accounts key ≡ some (market_account m')) × SettingsKept m m'
  Silent-SettingsKept key m found start quiet = (m, found, SettingsKept-refl m)
  Silent-SettingsKept key m found (call {w} {w'} signed c past t h) (quiet, before) =
      let (m1, e1, s1) = Silent-SettingsKept key m found past before in
      let ev =
        dispatch-Evolves laws E signed c w w' (History-AccountsValid laws E first v past) t h in
      let (b, eb, step, _) = ev.kept key (market_account m1) e1 in
      let (m2, e2, s2) =
        settings_after m.creator signed m1 (market_account m1) b quiet s1.creator refl step in
      (m2, eb ∙ ap (λ (x : Account). some x) e2, SettingsKept-trans m m1 m2 s1 s2)
  Silent-SettingsKept key m found (outside past e) quiet =
      let (m1, e1, s1) = Silent-SettingsKept key m found past quiet in
      (m1, ap (λ (f : Pubkey → Option Account). f key) e ∙ e1, s1)
