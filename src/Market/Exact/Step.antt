-- ===== src/Market/Exact/Step.antt =====
-- programs/token-mill/src/math/mod.rs: a step of a trade for a quote amount against the worth of the
-- tokens that it moves.
use sol_token_mill.Math
use sol_token_mill.Word
use sol_token_mill.Word.U128
use native.Mathlib.Nat.{add-mul, mul-le-mul_right}
use sol_token_mill.Base.{
  Bool-cases, ap, arith, inl, inr, leb, refl, subst, ℕ, ◌*◌, ◌+◌, ◌-◌, ◌<◌, ◌∙◌, ◌≡◌, ◌≤◌, ◌⊎◌,
}
use sol_token_mill.Base.Arith.{div-mul-le, div_up, lt-div-mul-add}
use sol_token_mill.Constant.{scale}
use sol_token_mill.Errors.{ok, ok-injective, on_ok, or_fail, panic}
use sol_token_mill.Market.Exact.Root.{partial_base_in-worth, partial_base_out-worth}
use sol_token_mill.Market.Monotone.{add_sound, mul_div_sound, mul_sound, or_fail-some, sub_sound}
use sol_token_mill.Market.Worth.{part_worth}
use sol_token_mill.Math.{down, get_delta_base_in, get_delta_base_out, mul_div, up}
use sol_token_mill.Math.Bounds.{div_sound}
use sol_token_mill.Math.Steps.{
  get_delta_base_in-le, get_delta_base_out-le, limit, not_filled, partial_base_in-le,
  partial_base_out-le, total_sound,
}
use sol_token_mill.Ruint.{Laws, Ruint}

-- A step down through an interval takes tokens that are worth at least what it pays, and goes on to
-- the next interval only if it has taken all of them.
pub record StepDown (price_0 price_1 width available remaining : ℕ) (r : ℕ × ℕ) : Type 0 where
  pub base_le : r.0 ≤ available
  pub whole : (r.0 ≡ available) ⊎ (r.1 ≡ remaining)
  pub worth :
      part_worth price_0 price_1 width (available - r.0) + r.1 * (2 * scale * width)
      ≤ part_worth price_0 price_1 width available

-- A step up gives tokens that are worth at most what it costs.
pub record StepUp (price_0 price_1 width used remaining : ℕ) (r : ℕ × ℕ) : Type 0 where
  pub base_le : used + r.0 ≤ width
  pub whole : (used + r.0 ≡ width) ⊎ (r.1 ≡ remaining)
  pub worth :
      part_worth price_0 price_1 width (used + r.0)
      ≤ part_worth price_0 price_1 width used + r.1 * (2 * scale * width)

module _ {R : Ruint} (laws : Laws R) where
  -- The worth of what lies below a position, rounded down to a quote amount.
  current_sound :
      (price_0 price_1 width x y diff a b c d current : ℕ)
      → x < U128.lim
      → Word.sub price_1 price_0 ≡ ok diff
      → U128.mul diff x ≡ ok a
      → U128.mul 2 price_0 ≡ ok b
      → U128.mul b width ≡ ok c
      → U128.add a c ≡ ok y
      → U128.mul (2 * scale) width ≡ ok d
      → or_fail (mul_div R x y d down) panic ≡ ok current
      → current * (2 * scale * width) ≤ part_worth price_0 price_1 width x
  current_sound price_0 price_1 width x y diff a b c d current hx e1 e2 e3 e4 e5 e6 e7 =
      let (sum, y_fits) = add_sound a c e5 in
      let (positive, e) = mul_div_sound laws x y d down hx y_fits (or_fail-some _ _ e7) in
      let y_eq : y ≡ (price_1 - price_0) * x + 2 * price_0 * width = rw (
        sum,
        mul_sound diff x e2,
        mul_sound b width e4,
        mul_sound 2 price_0 e3,
        (sub_sound price_1 price_0 e1).0,
      ) in
      let d_eq = mul_sound (2 * scale) width e6 in
      omega (
        arith,
        div-mul-le (x * y) d,
        ap (λ (t : ℕ). t * d) e,
        ap (λ (t : ℕ). current * t) d_eq,
        ap (λ (t : ℕ). x * t) y_eq,
      )

  filled_worth :
      (price_0 price_1 width next total : ℕ)
      → total ≡ (price_0 + (price_0 + (price_1 - price_0))) * width
      → next ≡ div_up total (2 * scale)
      → part_worth price_0 price_1 width width ≤ next * (2 * scale * width)
  filled_worth price_0 price_1 width next total e e' =
      let over = lt-div-mul-add (total + (2 * scale - 1)) (2 * scale) (omega arith) in
      let paid : total ≤ next * (2 * scale) = omega (arith, over, e') in
      omega (arith, mul-le-mul_right width paid, ap (λ (x : ℕ). x * width) e)

  pub get_delta_base_in-StepDown :
      (price_0 price_1 width available remaining : ℕ) (r : ℕ × ℕ)
      → price_1 ≤ limit
      → width ≤ limit
      → available ≤ width
      → get_delta_base_in R price_0 price_1 width available remaining ≡ ok r
      → StepDown price_0 price_1 width available remaining r
  unfolding get_delta_base_in
  get_delta_base_in-StepDown price_0 price_1 width available remaining r h1 hw ha h =
      let (base_le, _) =
        get_delta_base_in-le laws price_0 price_1 width available remaining r h1 hw h in
      on_ok (Word.sub price_1 price_0) h λ diff ed i1. on_ok (U128.mul diff available) i1 λ a ea i2.
        on_ok (U128.mul 2 price_0) i2 λ b eb i3. on_ok (U128.mul b width) i3 λ c ec i4.
          on_ok (U128.add a c) i4 λ y ey i5. on_ok (U128.mul (2 * scale) width) i5 λ d edd i6.
            on_ok (or_fail (mul_div R available y d down) panic) i6 λ current ecur i7.
              let cur =
                current_sound price_0 price_1 width available y diff a b c d current (omega arith)
                  ed ea eb ec ey edd ecur in
              let (diff_eq, diff_le) = sub_sound price_1 price_0 ed in
              elim (Bool-cases (leb current remaining)) [
                | inl all ↦
                    let out : (available, current) ≡ r = ok-injective (rw all at i7) in
                    let none_left : available - available ≡ 0 = omega arith in
                    subst (StepDown price_0 price_1 width available remaining) out (record {
                      base_le = omega arith;
                      whole = inl refl;
                      worth = rw none_left (omega (arith, cur));
                    })
                | inr part ↦
                    let h' = rw part at i7 in
                    let (_, named) =
                      partial_base_in-le laws diff price_0 width available current remaining r
                        (omega (arith, diff_eq, diff_le)) (omega (arith, diff_eq)) hw h' in
                    let taken =
                      partial_base_in-worth laws diff price_0 width available current remaining r
                        (omega (arith, diff_eq, diff_le)) (omega (arith, diff_eq)) hw base_le h' in
                    record {
                      base_le = base_le;
                      whole = inr named;
                      worth = omega (arith, rw diff_eq at taken, cur);
                    }
              ]

  pub get_delta_base_out-StepUp :
      (price_0 price_1 width used remaining : ℕ) (r : ℕ × ℕ)
      → price_1 ≤ limit
      → width ≤ limit
      → used ≤ width
      → get_delta_base_out R price_0 price_1 width used remaining ≡ ok r
      → StepUp price_0 price_1 width used remaining r
  unfolding get_delta_base_out
  get_delta_base_out-StepUp price_0 price_1 width used remaining r h1 hw hu h =
      let (base_le, _) =
        get_delta_base_out-le laws price_0 price_1 width used remaining r h1 hw h in
      on_ok (Word.sub price_1 price_0) h λ diff ed i1. on_ok (U128.mul diff used) i1 λ a ea i2.
        on_ok (U128.mul 2 price_0) i2 λ b eb i3. on_ok (U128.mul b width) i3 λ c ec i4.
          on_ok (U128.add a c) i4 λ y ey i5. on_ok (U128.mul (2 * scale) width) i5 λ d edd i6.
            on_ok (or_fail (mul_div R used y d down) panic) i6 λ current ecur i7.
              on_ok (U128.add price_0 price_1) i7 λ e ee i8.
                on_ok (U128.mul e width) i8 λ total et i9.
                  on_ok (Math.div total (2 * scale) up) i9 λ next en i10.
                    on_ok (Word.sub next current) i10 λ most em i11.
                      let cur =
                        current_sound price_0 price_1 width used y diff a b c d current
                          (omega arith) ed ea eb ec ey edd ecur in
                      let (diff_eq, diff_le) = sub_sound price_1 price_0 ed in
                      let (_, next_eq) = div_sound total (2 * scale) up en in
                      let (total_eq, below, d_le) =
                        total_sound price_0 price_1 diff width e total ed ee et in
                      elim (Bool-cases (leb most remaining)) [
                        | inl all ↦ on_ok (Word.sub width used) (rw all at i11) λ rest erest i12.
                            let out : (rest, most) ≡ r = ok-injective i12 in
                            let (rest_eq, _) = sub_sound width used erest in
                            let (most_eq, most_le) = sub_sound next current em in
                            let filled : used + rest ≡ width = omega (arith, rest_eq, hu) in
                            let split =
                              ap (λ (x : ℕ). x * (2 * scale * width)) {x = next}
                                {y = current + most} (omega (arith, most_eq, most_le))
                              ∙ add-mul current most (2 * scale * width) in
                            subst (StepUp price_0 price_1 width used remaining) out (record {
                              base_le = omega (arith, filled);
                              whole = inl filled;
                              worth = rw filled (
                                  omega (
                                    arith,
                                    filled_worth price_0 price_1 width next total
                                        (rw diff_eq at total_eq) next_eq,
                                    split,
                                    cur,
                                  ));
                            })
                        | inr part ↦
                            let h' = rw part at i11 in
                            let (_, named) =
                              partial_base_out-le laws diff price_0 width used current remaining r
                                (omega arith) (omega arith) hw
                                (rw (← total_eq) (
                                  not_filled next current most remaining total next_eq em
                                    (ground arith)))
                                h' in
                            let taken =
                              partial_base_out-worth laws diff price_0 width used current remaining
                                r (omega arith) (omega arith) hw h' in
                            record {
                              base_le = omega (arith, base_le);
                              whole = inr named;
                              worth = omega (arith, rw diff_eq at taken, cur);
                            }
                      ]
