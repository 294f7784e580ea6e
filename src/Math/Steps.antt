-- ===== src/Math/Steps.antt =====
-- programs/token-mill/src/math/mod.rs: the step of a swap through one price interval.
use sol_token_mill.Word.U128
use native.Mathlib.Nat.{mul-le-mul_left, le_of_mul-le-mul_right, mul-le-mul}
use sol_token_mill.Word
use sol_token_mill.Base.{
  ap, arith, if◌then◌else◌, leb, refl, subst, ℕ, ◌*◌, ◌+◌, ◌/◌, ◌<◌, ◌≡◌, ◌≤◌,
}
use sol_token_mill.Base.Arith.{div-mul-le, div_up, div_up-le, mul-lt_of_lt-div_up}
use sol_token_mill.Constant.{scale}
use sol_token_mill.Errors.{>>=-eq-ok, Result, ok, ok-injective, or_fail, panic, ◌>>=◌}
use sol_token_mill.Math.{
  div, down, get_delta_base_in, get_delta_base_out, get_sqrt_discriminant, mul_div, partial_base_in,
  partial_base_out, up,
}
use sol_token_mill.Math.Bounds.{div_sound}
use sol_token_mill.Ruint.{Laws, Ruint}

-- Prices and the interval width stay below this bound: MAX_PRICE and the widest interval are 10^18.
abbrev pub limit : ℕ
limit = 1_000_000_000_000_000_000

-- What the square root is taken of.
abbrev pub discriminant : ℕ → ℕ → ℕ → ℕ → ℕ
discriminant price_diff price_0 width quote =
    width * price_diff * (quote * 2 * scale) + price_0 * width * (price_0 * width)

-- A number whose square is at most another's next square is at most that other.
pub square_le : (a s : ℕ) → a * a < (s + 1) * (s + 1) → a ≤ s
square_le a s h = grind (arith, mul-le-mul)

-- The square root under the discriminant of a quote amount that does not fill the interval.
below_upper_end :
    (price_diff price_0 width quote s : ℕ)
    → quote * 2 * scale < (price_0 + (price_0 + price_diff)) * width
    → s * s ≤ discriminant price_diff price_0 width quote
    → s ≤ (price_0 + price_diff) * width
below_upper_end price_diff price_0 width quote s room below =
    square_le s ((price_0 + price_diff) * width) (
      omega (
        arith,
        mul-le-mul_left {m = quote * 2 * scale} {n = (price_0 + (price_0 + price_diff)) * width}
            (width * price_diff) (omega arith),
      ))

room_left :
    (price_diff price_0 width used s rr gap base : ℕ)
    → 0 < price_diff
    → s ≤ (price_0 + price_diff) * width
    → gap + rr ≡ s
    → rr ≡ price_0 * width + price_diff * used
    → base ≡ gap / price_diff
    → base + used ≤ width
room_left price_diff price_0 width used s rr gap base positive s_le gap_eq rr_eq q =
    let fits : (base + used) * price_diff ≤ width * price_diff =
      omega (arith, div-mul-le gap price_diff, ap (λ (t : ℕ). t * price_diff) q) in
    le_of_mul-le-mul_right fits positive

-- What the checked operations have computed.
sub_sound : (a b c : ℕ) → Word.sub a b ≡ ok c → c + b ≡ a
sub_sound a b c h = ground arith

add_sound : (a b c : ℕ) → U128.add a b ≡ ok c → c ≡ a + b
add_sound a b c h = ground arith

mul_sound : (a b c : ℕ) → U128.mul a b ≡ ok c → c ≡ a * b
mul_sound a b c h = ground arith

line_sound :
    (p w d u low_part high_part sum : ℕ)
    → U128.mul p w ≡ ok low_part
    → U128.mul d u ≡ ok high_part
    → U128.add low_part high_part ≡ ok sum
    → sum ≡ p * w + d * u
line_sound p w d u low_part high_part sum h1 h2 h3 = ground arith

pub total_sound :
    (price_0 price_1 price_diff width sum total : ℕ)
    → Word.sub price_1 price_0 ≡ ok price_diff
    → U128.add price_0 price_1 ≡ ok sum
    → U128.mul sum width ≡ ok total
    → (total ≡ (price_0 + (price_0 + price_diff)) * width)
      × (price_0 ≤ price_1)
      × (price_diff ≤ price_1)
total_sound price_0 price_1 price_diff width sum total h1 h2 h3 = ground arith

-- A remaining amount below what the interval still costs does not reach its upper end.
pub not_filled :
    (next current most remaining total : ℕ)
    → next ≡ div_up total (2 * scale)
    → Word.sub next current ≡ ok most
    → remaining < most
    → (current + remaining) * 2 * scale < total
not_filled next current most remaining total e h lt = omega (
  arith,
  sub_sound next current most h,
  mul-lt_of_lt-div_up (current + remaining) total (2 * scale) (omega arith)
      (omega (arith, sub_sound next current most h)),
)

-- The two branches of `get_delta_base_in` and of `get_delta_base_out`.
in_branches :
    (available current remaining : ℕ) (partial : Result (ℕ × ℕ)) (r : ℕ × ℕ)
    → (partial ≡ ok r → (r.0 ≤ available) × (r.1 ≡ remaining))
    → (if leb current remaining then ok (available, current) else partial) ≡ ok r
    → (r.0 ≤ available) × (r.1 ≤ remaining)
in_branches available current remaining partial r part h = ground arith

out_branches :
    (width used most remaining : ℕ) (partial : Result (ℕ × ℕ)) (r : ℕ × ℕ)
    → (remaining < most → partial ≡ ok r → (r.0 + used ≤ width) × (r.1 ≡ remaining))
    → (if leb most remaining then (Word.sub width used >>= λ rest. ok (rest, most)) else partial)
      ≡ ok r
    → (r.0 + used ≤ width) × (r.1 ≤ remaining)
out_branches width used most remaining partial r part h = ground arith

module _ {R : Ruint} (laws : Laws R) where
  pub get_sqrt_discriminant-floor :
      (price_diff price_0 width quote s : ℕ)
      → price_0 ≤ limit
      → price_diff ≤ limit
      → width ≤ limit
      → get_sqrt_discriminant R price_diff price_0 width quote ≡ ok s
      → (s * s ≤ discriminant price_diff price_0 width quote)
        × (discriminant price_diff price_0 width quote < (s + 1) * (s + 1))
  unfolding get_sqrt_discriminant
  get_sqrt_discriminant-floor price_diff price_0 width quote s h0 hd hw h =
      let wd : width * price_diff ≤ limit * limit = mul-le-mul hw hd in
      let pw : price_0 * width ≤ limit * limit = mul-le-mul h0 hw in
      let dr : price_0 * width * (price_0 * width) ≤ limit * limit * (limit * limit) =
        mul-le-mul pw pw in
      let dl : quote * 2 * scale < U128.lim
          → width * price_diff * (quote * 2 * scale) ≤ limit * limit * U128.lim =
        λ q. mul-le-mul {m₂ = U128.lim} wd (omega arith) in
      ground (
        arith,
        laws.mul_exact (width * price_diff) (quote * 2 * scale),
        laws.mul_exact (price_0 * width) (price_0 * width),
        laws.add_exact (width * price_diff * (quote * 2 * scale))
            (price_0 * width * (price_0 * width)),
        laws.root_floor (discriminant price_diff price_0 width quote),
        dl,
        dr,
      )

  -- Every branch of the second part of `get_delta_base_in` stays within the interval.
  pub partial_base_in-le :
      (price_diff price_0 width available current remaining : ℕ) (r : ℕ × ℕ)
      → price_0 ≤ limit
      → price_diff ≤ limit
      → width ≤ limit
      → partial_base_in R price_diff price_0 width available current remaining ≡ ok r
      → (r.0 ≤ available) × (r.1 ≡ remaining)
  unfolding partial_base_in
  partial_base_in-le price_diff price_0 width available current remaining r h0 hd hw h =
      let (quote, _, h1) = >>=-eq-ok (Word.sub current remaining) _ h in
      let (s, e, h2) = >>=-eq-ok (get_sqrt_discriminant R price_diff price_0 width quote) _ h1 in
      let (below, above) =
        get_sqrt_discriminant-floor price_diff price_0 width quote s h0 hd hw e in
      let low : price_0 * width ≤ s = square_le (price_0 * width) s (omega arith) in
      let (low_part, e1, h21) = >>=-eq-ok (U128.mul price_0 width) _ h2 in
      let (high_part, e2, h22) = >>=-eq-ok (U128.mul price_diff available) _ h21 in
      let (rl, er, h3) = >>=-eq-ok (U128.add low_part high_part) _ h22 in
      let (gap, eg, h4) = >>=-eq-ok (Word.sub rl s) _ h3 in
      let (base, eb, h5) = >>=-eq-ok (div gap price_diff up) _ h4 in
      let (positive, q) = div_sound gap price_diff up eb in
      let rl_eq : rl ≡ price_0 * width + price_diff * available = ground arith in
      let gap_le : gap ≤ price_diff * available = ground arith in
      ground (arith, div_up-le gap price_diff available positive gap_le)

  -- The second part of `get_delta_base_out` stays within the interval too: the square root lies below
  -- the upper end of the interval, since the quote amount does not reach it.
  pub partial_base_out-le :
      (price_diff price_0 width used current remaining : ℕ) (r : ℕ × ℕ)
      → price_0 ≤ limit
      → price_diff ≤ limit
      → width ≤ limit
      → (current + remaining) * 2 * scale < (price_0 + (price_0 + price_diff)) * width
      → partial_base_out R price_diff price_0 width used current remaining ≡ ok r
      → (r.0 + used ≤ width) × (r.1 ≡ remaining)
  unfolding partial_base_out
  partial_base_out-le price_diff price_0 width used current remaining r h0 hd hw room h =
      let (quote, eq, h1) = >>=-eq-ok (U128.add current remaining) _ h in
      let (s, e, h2) = >>=-eq-ok (get_sqrt_discriminant R price_diff price_0 width quote) _ h1 in
      let (below, above) =
        get_sqrt_discriminant-floor price_diff price_0 width quote s h0 hd hw e in
      let (low_part, e1, h21) = >>=-eq-ok (U128.mul price_0 width) _ h2 in
      let (high_part, e2, h22) = >>=-eq-ok (U128.mul price_diff used) _ h21 in
      let (rr, er, h3) = >>=-eq-ok (U128.add low_part high_part) _ h22 in
      let (gap, eg, h4) = >>=-eq-ok (Word.sub s rr) _ h3 in
      let (base, eb, h5) = >>=-eq-ok (div gap price_diff down) _ h4 in
      let (positive, q) = div_sound gap price_diff down eb in
      let quote_eq : quote ≡ current + remaining = add_sound current remaining quote eq in
      let s_le : s ≤ (price_0 + price_diff) * width =
        below_upper_end price_diff price_0 width quote s (rw quote_eq room) below in
      let gap_eq : gap + rr ≡ s = sub_sound s rr gap eg in
      let rr_eq : rr ≡ price_0 * width + price_diff * used =
        line_sound price_0 width price_diff used low_part high_part rr e1 e2 er in
      let fits : base + used ≤ width =
        room_left price_diff price_0 width used s rr gap base positive s_le gap_eq rr_eq q in
      let paid : (base, remaining) ≡ r = ok-injective h5 in
      subst (λ (p : ℕ × ℕ). (p.0 + used ≤ width) × (p.1 ≡ remaining)) paid (fits, refl)

  -- Where the upper price and the width of an interval are at most 10^18 and the 256-bit integers obey
  -- their laws: whenever a step down through the interval succeeds, it takes at most the tokens that
  -- are in it, and at most the quote amount that is left.
  pub get_delta_base_in-le :
      (price_0 price_1 width available remaining : ℕ) (r : ℕ × ℕ)
      → price_1 ≤ limit
      → width ≤ limit
      → get_delta_base_in R price_0 price_1 width available remaining ≡ ok r
      → (r.0 ≤ available) × (r.1 ≤ remaining)
  unfolding get_delta_base_in
  get_delta_base_in-le price_0 price_1 width available remaining r h1 hw h =
      let (price_diff, ed, i1) = >>=-eq-ok (Word.sub price_1 price_0) _ h in
      let (a, _, i2) = >>=-eq-ok (U128.mul price_diff available) _ i1 in
      let (b, _, i3) = >>=-eq-ok (U128.mul 2 price_0) _ i2 in
      let (c, _, i4) = >>=-eq-ok (U128.mul b width) _ i3 in
      let (y, _, i5) = >>=-eq-ok (U128.add a c) _ i4 in
      let (d, _, i6) = >>=-eq-ok (U128.mul (2 * scale) width) _ i5 in
      let (current, _, i7) = >>=-eq-ok (or_fail (mul_div R available y d down) panic) _ i6 in
      let gap = sub_sound price_1 price_0 price_diff ed in
      in_branches available current remaining _ r
        (partial_base_in-le price_diff price_0 width available current remaining r
          (omega (arith, gap)) (omega (arith, gap)) hw)
        i7

  -- Where the upper price and the width of an interval are at most 10^18 and the 256-bit integers obey
  -- their laws: whenever a step up through the interval succeeds, it stays within the width, together
  -- with the tokens already used, and takes at most the quote amount that is left.
  pub get_delta_base_out-le :
      (price_0 price_1 width used remaining : ℕ) (r : ℕ × ℕ)
      → price_1 ≤ limit
      → width ≤ limit
      → get_delta_base_out R price_0 price_1 width used remaining ≡ ok r
      → (r.0 + used ≤ width) × (r.1 ≤ remaining)
  unfolding get_delta_base_out
  get_delta_base_out-le price_0 price_1 width used remaining r h1 hw h =
      let (price_diff, ed, i1) = >>=-eq-ok (Word.sub price_1 price_0) _ h in
      let (a, _, i2) = >>=-eq-ok (U128.mul price_diff used) _ i1 in
      let (b, _, i3) = >>=-eq-ok (U128.mul 2 price_0) _ i2 in
      let (c, _, i4) = >>=-eq-ok (U128.mul b width) _ i3 in
      let (y, _, i5) = >>=-eq-ok (U128.add a c) _ i4 in
      let (d, _, i6) = >>=-eq-ok (U128.mul (2 * scale) width) _ i5 in
      let (current, _, i7) = >>=-eq-ok (or_fail (mul_div R used y d down) panic) _ i6 in
      let (e, ee, i8) = >>=-eq-ok (U128.add price_0 price_1) _ i7 in
      let (total, et, i9) = >>=-eq-ok (U128.mul e width) _ i8 in
      let (next, en, i10) = >>=-eq-ok (div total (2 * scale) up) _ i9 in
      let (most, em, i11) = >>=-eq-ok (Word.sub next current) _ i10 in
      let (_, next_eq) = div_sound total (2 * scale) up en in
      let (total_eq, below, diff) = total_sound price_0 price_1 price_diff width e total ed ee et in
      out_branches width used most remaining _ r
        (λ lt.
          partial_base_out-le price_diff price_0 width used current remaining r (omega arith)
            (omega arith) hw
            (rw (← total_eq) (not_filled next current most remaining total next_eq em lt)))
        i11
