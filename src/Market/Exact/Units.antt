-- ===== src/Market/Exact/Units.antt =====
-- programs/token-mill/src/state/market.rs: a quote amount at the internal scale.
use sol_token_mill.Word
use sol_token_mill.Word.U128
use native.Mathlib.Nat.{pow-suc, mul-le-mul_right}
use sol_token_mill.Base.{ap, arith, suc, sym, zero, ℕ, ◌*◌, ◌+◌, ◌-◌, ◌/◌, ◌<◌, ◌^◌, ◌∙◌, ◌≡◌, ◌≤◌}
use sol_token_mill.Base.Arith.{div-mul-le, le-div_of_mul-le}
use sol_token_mill.Constant.{scale}
use sol_token_mill.Errors.{ok, ok-injective, on_ok}
use sol_token_mill.Market.{Market}
use sol_token_mill.Market.Exact.{normalize_quote}
use sol_token_mill.Market.Fair.{power_sound}
use sol_token_mill.Market.Monotone.{mul_sound}
use sol_token_mill.Word.{power_of_ten}

ten_split : (d k : ℕ) → 10 ^ d * 10 ^ k ≡ 10 ^ (d + k)
ten_split zero k = let s : 0 + k ≡ k = omega arith in rw s (omega arith)
ten_split (suc d) k =
    let e = ten_split d k in
    let s : suc d + k ≡ suc (d + k) = omega arith in
    rw (s, pow-suc 10 d, pow-suc 10 (d + k)) (omega (arith, e))

-- The precision of at most ten decimals divides `scale`.
divides_scale : (d : ℕ) → d ≤ 10 → (k : ℕ) × (k * 10 ^ d ≡ scale)
divides_scale d le =
    let whole : (10 - d) + d ≡ 10 = omega arith in
    (10 ^ (10 - d), ten_split (10 - d) d ∙ ap (λ (x : ℕ). 10 ^ x) whole)

-- So no part of a quote amount is lost when it is put at the internal scale.
pub normalized_exact :
    (quote d left : ℕ)
    → d ≤ 10
    → 0 < 10 ^ d
    → left ≡ quote * scale / 10 ^ d
    → left * 10 ^ d ≡ quote * scale
normalized_exact quote d left le positive e =
    let (k, split) = divides_scale d le in
    let whole : quote * k * 10 ^ d ≡ quote * scale =
      omega (arith, ap (λ (x : ℕ). quote * x) split) in
    let above =
      le-div_of_mul-le (quote * k) (quote * scale) (10 ^ d) positive (omega (arith, whole)) in
    omega (
      arith,
      ap (λ (x : ℕ). x * 10 ^ d) e,
      div-mul-le (quote * scale) (10 ^ d),
      mul-le-mul_right (10 ^ d) above,
      whole,
    )

pub quote_sound :
    (m : Market) (quote_amount : ℕ) {left precision : ℕ}
    → normalize_quote m quote_amount ≡ ok (left, precision)
    → (precision ≡ 10 ^ m.quote_token_decimals)
      × (0 < precision)
      × (left ≡ quote_amount * scale / precision)
quote_sound m quote_amount {left} {precision} h =
    on_ok (power_of_ten m.quote_token_decimals) h λ p ep h1.
      on_ok (U128.mul quote_amount scale) h1 λ a ea h2. on_ok (Word.div a p) h2 λ l el h3.
        let out : (l, p) ≡ (left, precision) = ok-injective h3 in
        let p_eq : precision ≡ p = sym (ap (λ (x : ℕ × ℕ). x.1) out) in
        let l_eq : left ≡ l = sym (ap (λ (x : ℕ × ℕ). x.0) out) in
        (
          p_eq ∙ power_sound m.quote_token_decimals ep,
          ground arith,
          l_eq ∙ ground (arith, p_eq, mul_sound quote_amount scale ea),
        )
