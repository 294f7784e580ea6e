-- ===== src/Market/Exact/Root.antt =====
-- programs/token-mill/src/math/mod.rs: the part of a step that takes a square root, against the worth
-- of the positions in an interval.
use sol_token_mill.Math
use sol_token_mill.Word
use sol_token_mill.Word.U128
use native.Mathlib.Nat.{add-mul, mul-add, mul-le-mul, le_of_mul-le-mul_right}
use sol_token_mill.Base.{ap, arith, subst, ℕ, ◌*◌, ◌+◌, ◌-◌, ◌/◌, ◌<◌, ◌∙◌, ◌≡◌, ◌≤◌}
use sol_token_mill.Base.Arith.{div-mul-le, div_up, lt-div-mul-add}
use sol_token_mill.Constant.{scale}
use sol_token_mill.Errors.{ok, ok-injective, on_ok}
use sol_token_mill.Market.Monotone.{add_sound, mul_sound, sub_sound}
use sol_token_mill.Math.{down, get_sqrt_discriminant, partial_base_in, partial_base_out, up}
use sol_token_mill.Math.Bounds.{div_sound}
use sol_token_mill.Math.Steps.{discriminant, get_sqrt_discriminant-floor, limit}
use sol_token_mill.Ruint.{Laws, Ruint}

-- Below the square root of the discriminant lie the positions that are worth at most the quote amount.
root_worth :
    (price_diff price_0 width quote s x : ℕ)
    → 0 < price_diff
    → price_diff * x + price_0 * width ≤ s
    → s * s ≤ discriminant price_diff price_0 width quote
    → x * (price_diff * x + 2 * price_0 * width) ≤ quote * (2 * scale * width)
root_worth price_diff price_0 width quote s x positive below floor =
    let square : (price_diff * x + price_0 * width) * (price_diff * x + price_0 * width) ≤ s * s =
      mul-le-mul below below in
    let fits : x * (price_diff * x + 2 * price_0 * width) * price_diff
        ≤ quote * (2 * scale * width) * price_diff =
      omega (arith, square, floor) in
    le_of_mul-le-mul_right fits positive

-- The position after a step down: what is left of the interval.
below_root :
    (price_diff low available s base : ℕ)
    → 0 < price_diff
    → base ≡ div_up (low + price_diff * available - s) price_diff
    → s ≤ low + price_diff * available
    → base ≤ available
    → price_diff * (available - base) + low ≤ s
below_root price_diff low available s base positive e s_le base_le =
    let gap = low + price_diff * available - s in
    let over = lt-div-mul-add (gap + (price_diff - 1)) price_diff positive in
    let parts : available ≡ base + (available - base) = omega arith in
    let split : price_diff * available ≡ price_diff * base + price_diff * (available - base) =
      ap (λ (x : ℕ). price_diff * x) parts ∙ mul-add price_diff base (available - base) in
    omega (arith, over, split, ap (λ (x : ℕ). x * price_diff) e)

-- The position after a step up.
above_root :
    (price_diff low used s base : ℕ)
    → base ≡ (s - (low + price_diff * used)) / price_diff
    → low + price_diff * used ≤ s
    → price_diff * (used + base) + low ≤ s
above_root price_diff low used s base e s_le =
    omega (
      arith,
      div-mul-le (s - (low + price_diff * used)) price_diff,
      ap (λ (x : ℕ). x * price_diff) e,
    )

-- What a step down leaves of an interval, and what it pays, are worth at most `current`.
abbrev pub TakenBelow : (price_diff price_0 width available current : ℕ) → ℕ × ℕ → Type 0
TakenBelow price_diff price_0 width available current (base, quote) =
    (available - base) * (price_diff * (available - base) + 2 * price_0 * width)
      + quote * (2 * scale * width)
    ≤ current * (2 * scale * width)

-- What a step up reaches is worth at most `current` and what it costs.
abbrev pub TakenAbove : (price_diff price_0 width used current : ℕ) → ℕ × ℕ → Type 0
TakenAbove price_diff price_0 width used current (base, quote) =
    (used + base) * (price_diff * (used + base) + 2 * price_0 * width)
    ≤ current * (2 * scale * width) + quote * (2 * scale * width)

module _ {R : Ruint} (laws : Laws R) where
  pub partial_base_in-worth :
      (price_diff price_0 width available current remaining : ℕ) (r : ℕ × ℕ)
      → price_0 ≤ limit
      → price_diff ≤ limit
      → width ≤ limit
      → r.0 ≤ available
      → partial_base_in R price_diff price_0 width available current remaining ≡ ok r
      → TakenBelow price_diff price_0 width available current r
  unfolding partial_base_in
  partial_base_in-worth price_diff price_0 width available current remaining r h0 hd hw le h =
      on_ok (Word.sub current remaining) h λ quote eq h1.
        on_ok (get_sqrt_discriminant R price_diff price_0 width quote) h1 λ s es h2.
          on_ok (U128.mul price_0 width) h2 λ low el h3.
            on_ok (U128.mul price_diff available) h3 λ high eh h4.
              on_ok (U128.add low high) h4 λ rl er h5. on_ok (Word.sub rl s) h5 λ gap eg h6.
                on_ok (Math.div gap price_diff up) h6 λ base eb h7.
                  let (floor, _) =
                    get_sqrt_discriminant-floor laws price_diff price_0 width quote s h0 hd hw es in
                  let (positive, base_eq) = div_sound gap price_diff up eb in
                  let out : (base, remaining) ≡ r = ok-injective h7 in
                  let (quote_eq, quote_le) = sub_sound current remaining eq in
                  let (gap_eq, s_le) = sub_sound rl s eg in
                  let rl_eq : rl ≡ price_0 * width + price_diff * available = omega (
                    arith,
                    (add_sound low high er).0,
                    mul_sound price_0 width el,
                    mul_sound price_diff available eh,
                  ) in
                  let worth =
                    root_worth price_diff price_0 width quote s (available - base) positive
                      (below_root price_diff (price_0 * width) available s base positive
                        (base_eq
                          ∙ ap (λ (g : ℕ). div_up g price_diff)
                              (gap_eq ∙ ap (λ (y : ℕ). y - s) rl_eq))
                        (omega (arith, s_le, rl_eq))
                        (omega (arith, le, ap (λ (p : ℕ × ℕ). p.0) out)))
                      floor in
                  let parts : current ≡ quote + remaining = omega (arith, quote_eq, quote_le) in
                  let split =
                    ap (λ (x : ℕ). x * (2 * scale * width)) parts
                    ∙ add-mul quote remaining (2 * scale * width) in
                  subst (TakenBelow price_diff price_0 width available current) out
                    (omega (arith, worth, split))

  pub partial_base_out-worth :
      (price_diff price_0 width used current remaining : ℕ) (r : ℕ × ℕ)
      → price_0 ≤ limit
      → price_diff ≤ limit
      → width ≤ limit
      → partial_base_out R price_diff price_0 width used current remaining ≡ ok r
      → TakenAbove price_diff price_0 width used current r
  unfolding partial_base_out
  partial_base_out-worth price_diff price_0 width used current remaining r h0 hd hw h =
      on_ok (U128.add current remaining) h λ quote eq h1.
        on_ok (get_sqrt_discriminant R price_diff price_0 width quote) h1 λ s es h2.
          on_ok (U128.mul price_0 width) h2 λ low el h3.
            on_ok (U128.mul price_diff used) h3 λ high eh h4.
              on_ok (U128.add low high) h4 λ rr er h5. on_ok (Word.sub s rr) h5 λ gap eg h6.
                on_ok (Math.div gap price_diff down) h6 λ base eb h7.
                  let (floor, _) =
                    get_sqrt_discriminant-floor laws price_diff price_0 width quote s h0 hd hw es in
                  let (positive, base_eq) = div_sound gap price_diff down eb in
                  let out : (base, remaining) ≡ r = ok-injective h7 in
                  let (quote_eq, _) = add_sound current remaining eq in
                  let (gap_eq, s_le) = sub_sound s rr eg in
                  let rr_eq : rr ≡ price_0 * width + price_diff * used = omega (
                    arith,
                    (add_sound low high er).0,
                    mul_sound price_0 width el,
                    mul_sound price_diff used eh,
                  ) in
                  let worth =
                    root_worth price_diff price_0 width quote s (used + base) positive
                      (above_root price_diff (price_0 * width) used s base
                        (base_eq
                          ∙ ap (λ (g : ℕ). g / price_diff) (gap_eq ∙ ap (λ (y : ℕ). s - y) rr_eq))
                        (omega (arith, s_le, rr_eq)))
                      floor in
                  let split =
                    ap (λ (x : ℕ). x * (2 * scale * width)) quote_eq
                    ∙ add-mul current remaining (2 * scale * width) in
                  subst (TakenAbove price_diff price_0 width used current) out
                    (omega (arith, worth, split))
