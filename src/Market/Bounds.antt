-- ===== src/Market/Bounds.antt =====
-- programs/token-mill/src/state/market.rs: the amounts that the pricing functions return stay within
-- what was asked for and within the supply.
use native.Mathlib.Nat.{div-add-mod', suc-mul}
use sol_token_mill.Math
use sol_token_mill.Word.U128
use sol_token_mill.Word
use sol_token_mill.Word.U64
use sol_token_mill.Base.{
  Bool-cases, List, [], arith, drop, inl, inr, suc, zero, ℕ, ◌*◌, ◌+◌, ◌==◌, ◌∷◌, ◌≡◌, ◌≤◌,
}
use sol_token_mill.Base.Arith.{div_up-le}
use sol_token_mill.Constant.{base_precision, scale}
use sol_token_mill.Errors.{>>=-eq-ok, ok, on_ok, ◌>>=◌}
use sol_token_mill.Market.{Market, circulating_supply, index}
use sol_token_mill.Market.Exact.{
  base_in_loop, get_base_amount_in, normalize_quote, start_below, swapped_amounts,
}
use sol_token_mill.Market.Quote.{normalize_base}
use sol_token_mill.Math.{down, up}
use sol_token_mill.Math.Bounds.{div_sound}
use sol_token_mill.Math.Steps.{get_delta_base_in-le, limit}
use sol_token_mill.Ruint.{Laws, Ruint}

abbrev pub PricesAtMost : ℕ → List ℕ → Type 0
PricesAtMost bound [] = Unit {0}
PricesAtMost bound (p ∷ ps) = (p ≤ bound) × PricesAtMost bound ps

pub index-le :
    (bound : ℕ) (prices : List ℕ) (i : ℕ) {p : ℕ}
    → PricesAtMost bound prices
    → index prices i ≡ ok p
    → p ≤ bound
index-le bound [] i h e = absurd (ground arith)
index-le bound (p ∷ ps) zero h e = ground arith
index-le bound (p ∷ ps) (suc i) h e = index-le bound ps i h.1 e

pub PricesAtMost-drop :
    (bound n : ℕ) (prices : List ℕ) → PricesAtMost bound prices → PricesAtMost bound (drop n prices)
PricesAtMost-drop bound zero ps h = h
PricesAtMost-drop bound (suc n) [] h = tt
PricesAtMost-drop bound (suc n) (p ∷ ps) h = PricesAtMost-drop bound n ps h.1

-- The tokens that lie below a position: `available` in its interval, and the intervals below.
abbrev below_position : ℕ → ℕ → ℕ → ℕ
below_position width zero available = 0
below_position width (suc i) available = available + i * width

-- One round of the loop of `get_base_amount_in`.
in_round :
    (base available delta_base base' width i left delta_quote left' : ℕ) (r : ℕ × ℕ)
    → U128.add base delta_base ≡ ok base'
    → Word.sub left delta_quote ≡ ok left'
    → delta_base ≤ available
    → (r.0 ≤ base' + below_position width i width) × (r.1 ≤ left')
    → (r.0 ≤ base + (available + i * width)) × (r.1 ≤ left)
in_round base available delta_base base' width zero left delta_quote left' r h1 h2 le b =
    ground arith
in_round base available delta_base base' width (suc i) left delta_quote left' r h1 h2 le b =
    ground (arith, suc-mul i width)

-- What `normalize_base` computes.
abbrev pub normalized : ℕ → ℕ
normalized amount = amount * 10_000

pub normalize_base_sound :
    (amount : ℕ) {n : ℕ} → normalize_base amount ≡ ok n → n ≡ normalized amount
normalize_base_sound amount h = ground arith

-- A sale begins with all the tokens of the supply below it.
start_below-le :
    (width n rest supply : ℕ)
    → Word.div supply width ≡ ok n
    → Word.rem supply width ≡ ok rest
    → let (i, available) = start_below width n rest in below_position width i available ≤ supply
start_below-le width zero rest supply h1 h2 = ground (arith, div-add-mod' supply width)
start_below-le width (suc n) rest supply h1 h2 =
    ground (arith, div-add-mod' supply width, suc-mul n width)

-- The amounts that are returned: rounding up does not lift the base amount above the supply.
swapped_up-le :
    (quote_amount precision base left supply : ℕ) (r : ℕ × ℕ)
    → base ≤ normalized supply
    → swapped_amounts quote_amount precision base left up ≡ ok r
    → (r.0 ≤ supply) × (r.1 ≤ quote_amount)
swapped_up-le quote_amount precision base left supply r le h =
    let (a, ea, h1) = >>=-eq-ok (U128.mul base base_precision) _ h in
    let (b, eb, h2) = >>=-eq-ok (Math.div a scale up) _ h1 in
    let (c, ec, h3) = >>=-eq-ok (U128.mul left precision) _ h2 in
    let (d, ed, h4) = >>=-eq-ok (Math.div c scale up) _ h3 in
    let (_, b_eq) = div_sound a scale up eb in
    let fits : a ≤ scale * supply = ground arith in
    ground (arith, div_up-le a scale supply (omega arith) fits)

pub swapped_down-le :
    (quote_amount precision base left supply : ℕ) (r : ℕ × ℕ)
    → base ≤ normalized supply
    → swapped_amounts quote_amount precision base left down ≡ ok r
    → (r.0 ≤ supply) × (r.1 ≤ quote_amount)
swapped_down-le quote_amount precision base left supply r le h =
    let (a, ea, h1) = >>=-eq-ok (U128.mul base base_precision) _ h in
    let (b, eb, h2) = >>=-eq-ok (Math.div a scale down) _ h1 in
    let (c, ec, h3) = >>=-eq-ok (U128.mul left precision) _ h2 in
    let (d, ed, h4) = >>=-eq-ok (Math.div c scale down) _ h3 in
    let (_, b_eq) = div_sound a scale down eb in ground arith

pub try_from_sound : (a : ℕ) {b : ℕ} → Word.try_from U64.lim a ≡ ok b → b ≡ a
try_from_sound a h = ground arith

module _ {R : Ruint} (laws : Laws R) where
  base_in_loop-le :
      (curve : List ℕ) (width i price_1 available left base : ℕ) (r : ℕ × ℕ)
      → PricesAtMost limit curve
      → width ≤ limit
      → price_1 ≤ limit
      → base_in_loop R curve width i price_1 available left base ≡ ok r
      → (r.0 ≤ base + below_position width i available) × (r.1 ≤ left)
  unfolding base_in_loop
  base_in_loop-le curve width zero price_1 available left base r hc hw hp h = ground arith
  base_in_loop-le curve width (suc i) price_1 available left base r hc hw hp h =
      elim (Bool-cases (left == 0)) [
        | inl done ↦ ground arith
        | inr more ↦
            let h0 = rw more at h in
            let (price_0, e0, h1) = >>=-eq-ok (index curve i) _ h0 in
            let (d, ed, h2) =
              >>=-eq-ok (Math.get_delta_base_in R price_0 price_1 width available left) _ h1 in
            let (base', eb, h3) = >>=-eq-ok (U128.add base d.0) _ h2 in
            let (left', el, h4) = >>=-eq-ok (Word.sub left d.1) _ h3 in
            let (within, _) =
              get_delta_base_in-le laws price_0 price_1 width available left d hp hw ed in
            let rest =
              base_in_loop-le curve width i price_0 width left' base' r hc hw
                (index-le limit curve i hc e0) h4 in
            in_round base available d.0 base' width i left d.1 left' r eb el within rest
      ]

  -- The part of `get_base_amount_in` behind the choice of the first interval.
  sale_from :
      (supply quote_amount left precision : ℕ) (curve : List ℕ) (width total n rest : ℕ) (r : ℕ × ℕ)
      → PricesAtMost limit curve
      → width ≤ limit
      → total ≡ normalized supply
      → (let (i, available) = start_below width n rest in below_position width i available ≤ total)
      → (let (i, available) = start_below width n rest in
          (index curve i >>= λ price_1.
          base_in_loop R curve width i price_1 available left 0 >>= λ out.
          swapped_amounts quote_amount precision out.0 out.1 up)
          ≡ ok r)
      → (r.0 ≤ supply) × (r.1 ≤ quote_amount)
  sale_from supply quote_amount left precision curve width total n rest r hp hw e start h =
      let position : ℕ × ℕ = start_below width n rest in
      on_ok (index curve position.0) h λ price_1 ep h1.
        on_ok (base_in_loop R curve width position.0 price_1 position.1 left 0) h1 λ out eo h2.
          let taken =
            base_in_loop-le curve width position.0 price_1 position.1 left 0 out hp hw
              (index-le limit curve position.0 hp ep) eo in
          swapped_up-le quote_amount precision out.0 out.1 supply r
            (omega (arith, taken.0, start, e)) h2

  -- In a market whose bid prices and interval width are at most 10^18, where the 256-bit integers
  -- obey their laws: whenever `get_base_amount_in` succeeds, the sale takes at most the circulating
  -- supply and pays at most the quote amount that was asked for.
  pub get_base_amount_in-le :
      (m : Market) (quote_amount supply : ℕ) (r : ℕ × ℕ)
      → PricesAtMost limit m.bid_prices
      → m.width_scaled ≤ limit
      → circulating_supply m ≡ ok supply
      → get_base_amount_in R m quote_amount ≡ ok r
      → (r.0 ≤ supply) × (r.1 ≤ quote_amount)
  unfolding get_base_amount_in
  get_base_amount_in-le m quote_amount supply r hp hw hs h =
      on_ok (normalize_base supply) (rw hs at h) λ total et h1.
        on_ok (normalize_quote m quote_amount) h1 λ quote el h2.
          on_ok (Word.div total m.width_scaled) h2 λ d ed h3.
            on_ok (Word.try_from U64.lim d) h3 λ n en h4.
              on_ok (Word.rem total m.width_scaled) h4 λ rest er h5.
                sale_from supply quote_amount quote.0 quote.1 m.bid_prices m.width_scaled total n
                  rest r hp hw (normalize_base_sound supply et)
                  (start_below-le m.width_scaled n rest total (rw (try_from_sound d en) ed) er) h5
