-- ===== src/Program/Evolution/Changes.antt =====
-- Accounts that are written or created, and what is valid stays valid.
use sol_token_mill.Base.{
  Bool, Bool-cases, Option, Option-cases, ap, false, inl, inr, none, refl, some, subst, sym, true,
  ◌==◌, ◌∙◌, ◌≡◌,
}
use sol_token_mill.Market.{Pubkey}
use sol_token_mill.Program.{Account, update}
use sol_token_mill.Program.Evolution.{AccountStep, AccountValid, AccountsValid, Evolves, unchanged}
use sol_token_mill.Program.Runs.{same_key}

pub update_at :
    (accounts : Pubkey → Option Account) (key k : Pubkey) (b : Account)
    → k == key ≡ true
    → update accounts key b k ≡ some b
update_at accounts key k b e = rw e refl

pub update_away :
    (accounts : Pubkey → Option Account) (key k : Pubkey) (b : Account)
    → k == key ≡ false
    → update accounts key b k ≡ accounts k
update_away accounts key k b e = rw e refl

pub some-injective : {a b : Account} → some a ≡ some b → a ≡ b
some-injective h = cc

module _ (signed : Pubkey → Bool) (before : Pubkey → Option Account) where
  pub Evolves-refl : AccountsValid before → Evolves signed before before
  Evolves-refl v = record {
    kept = λ key a e. (a, e, unchanged refl, v.valid key a e);
    fresh = λ key e b h. absurd (cc);
  }

  -- An account that stands in `before` is written.
  pub Evolves-store :
      (after : Pubkey → Option Account) (key : Pubkey) (a b : Account)
      → Evolves signed before after
      → before key ≡ some a
      → AccountStep signed a b
      → AccountValid b
      → Evolves signed before (update after key b)
  Evolves-store after key a b v found step valid = record {
    kept = λ k x e. elim (Bool-cases (k == key)) [
      | inl at ↦
          let same : a ≡ x = some-injective (sym found ∙ ap before (sym (same_key at)) ∙ e) in
          (
            b,
            update_at after key k b at,
            subst (λ (y : Account). AccountStep signed y b) same step,
            valid,
          )
      | inr away ↦
          let (y, ey, s, vy) = v.kept k x e in (y, update_away after key k b away ∙ ey, s, vy)
    ];
    fresh = λ k e x h. elim (Bool-cases (k == key)) [
      | inl at ↦ absurd (cc (sym found ∙ ap before (sym (same_key at)) ∙ e))
      | inr away ↦ v.fresh k e x (sym (update_away after key k b away) ∙ h)
    ];
  }

  -- An account is created.
  pub Evolves-create :
      (after : Pubkey → Option Account) (key : Pubkey) (b : Account)
      → Evolves signed before after
      → before key ≡ none
      → AccountValid b
      → Evolves signed before (update after key b)
  Evolves-create after key b v free valid = record {
    kept = λ k x e. elim (Bool-cases (k == key)) [
      | inl at ↦ absurd (cc (sym free ∙ ap before (sym (same_key at)) ∙ e))
      | inr away ↦
          let (y, ey, s, vy) = v.kept k x e in (y, update_away after key k b away ∙ ey, s, vy)
    ];
    fresh = λ k e x h. elim (Bool-cases (k == key)) [
      | inl at ↦ subst AccountValid (some-injective (sym (update_at after key k b at) ∙ h)) valid
      | inr away ↦ v.fresh k e x (sym (update_away after key k b away) ∙ h)
    ];
  }

  -- The accounts afterwards are given by an equation.
  pub Evolves-at :
      {after after' : Pubkey → Option Account}
      → after' ≡ after
      → Evolves signed before after
      → Evolves signed before after'
  Evolves-at e v = subst (Evolves signed before) (sym e) v

-- One account is written, or created.
module _ {signed : Pubkey → Bool} {before after : Pubkey → Option Account} (key : Pubkey) where
  pub Evolves-write :
      (a b : Account)
      → AccountsValid before
      → before key ≡ some a
      → AccountStep signed a b
      → AccountValid b
      → after ≡ update before key b
      → Evolves signed before after
  Evolves-write a b v found step valid e =
      Evolves-at signed before e
        (Evolves-store signed before before key a b (Evolves-refl signed before v) found step valid)

  pub Evolves-new :
      (b : Account)
      → AccountsValid before
      → before key ≡ none
      → AccountValid b
      → after ≡ update before key b
      → Evolves signed before after
  Evolves-new b v free valid e =
      Evolves-at signed before e
        (Evolves-create signed before before key b (Evolves-refl signed before v) free valid)

-- What is valid stays valid.
pub Evolves-AccountsValid :
    {signed : Pubkey → Bool} {before after : Pubkey → Option Account}
    → Evolves signed before after
    → AccountsValid after
Evolves-AccountsValid {before = before} v = record {
  valid = λ key b h. elim (Option-cases (before key)) [
    | inl free ↦ v.fresh key free b h
    | inr (a, found) ↦
        let (x, ex, _, vx) = v.kept key a found in
        subst AccountValid (some-injective (sym ex ∙ h)) vx
  ];
}
